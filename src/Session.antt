-- ===== src/Session.antt =====
-- A SQLAlchemy session as the backend uses it: the rows that are committed, and the rows as this
-- session's open transaction sees them. A method of a service is an action on the session that
-- returns or raises; what was written stays written when it raises, until somebody rolls back.
-- Each reading of the clock counts, so that two readings may differ. `reused` is the field of the
-- worker's `_StageContext` that a stage sets and that a handler reads after an exception.
pub mod Rules
pub mod Keeps
use partha.Prelude.{ℕ, suc, Bool, Option, none, some, List, if◌then◌else◌}
use partha.Database.{Database}

-- An exception's text, `str(exc)`, and the name of its class, as code points.
pub record Exn : Type 0 where
  pub text : List ℕ
  pub class_name : List ℕ

-- What the code of the worker and of the job service raises, as far as its handlers tell it apart.
-- `failure` is any other exception, with its message.
pub data Raised : Type 0 where
  lease_lost cancellation_observed : Raised
  exceeded : Exn → Raised
  failure : Exn → Raised
  conflict not_found service_error service_busy integrity_error database_locked : Raised

pub data Outcome (A : Type 0) : Type 0 where
  ok : A → Outcome A
  raised : Raised → Outcome A

pub record Session : Type 0 where
  pub committed : Database
  pub work : Database
  pub ticks : ℕ
  pub reused : Bool

abbrev pub Exec : Type 0 → Type 0
Exec A = Session → Outcome A × Session

module _ {A : Type 0} where
  unfoldable pub pure : A → Exec A
  pure a s = (ok a, s)

  unfoldable pub raise : Raised → Exec A
  raise e s = (raised e, s)

  unfoldable pub gets : (Database → A) → Exec A
  gets f s = (ok (f s.work), s)

  -- `try: m except ...: handler`
  abbrev handle : Outcome A → (Raised → Exec A) → Exec A
  handle (ok a) h s = (ok a, s)
  handle (raised e) h s = h e s

  unfoldable pub catch : Exec A → (Raised → Exec A) → Exec A
  catch m h s = let (r, s') = m s in handle r h s'

module _ {A B : Type 0} where
  abbrev continue : Outcome A → (A → Exec B) → Exec B
  continue (ok a) f s = f a s
  continue (raised e) f s = (raised e, s)

  infixl 10 ◌>>=◌ ◌>>◌
  unfoldable pub ◌>>=◌ : Exec A → (A → Exec B) → Exec B
  ◌>>=◌ m f s = let (r, s') = m s in continue r f s'

  abbrev pub ◌>>◌ : Exec A → Exec B → Exec B
  m >> n = m >>= λ _. n

unfoldable pub modify : (Database → Database) → Exec (Unit {0})
modify f s = (ok tt, record s { work = f s.work })

unfoldable pub commit : Exec (Unit {0})
commit s = (ok tt, record s { committed = s.work })

unfoldable pub rollback : Exec (Unit {0})
rollback s = (ok tt, record s { work = s.committed })

unfoldable pub read_clock : (ℕ → ℕ) → Exec ℕ
read_clock clock s = (ok (clock s.ticks), record s { ticks = suc s.ticks })

-- An action on one table of the open transaction, with the statement's result.
unfoldable pub statement : {A : Type 0} → (Database → A × Database) → Exec A
statement f s = let (a, db) = f s.work in (ok a, record s { work = db })

unfoldable pub get_reused : Exec Bool
get_reused s = (ok s.reused, s)
