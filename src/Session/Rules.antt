-- ===== src/Session/Rules.antt =====
-- Postconditions of actions, one rule for each way to build an action.
use partha.Prelude.{ℕ, suc, ◌≡◌, refl, Bool, true, false, if◌then◌else◌}
use partha.Database.{Database}
use partha.Session.{
  Raised, Outcome, ok, raised, Session, Exec, pure, raise, gets, catch, ◌>>=◌, modify, commit,
  rollback, read_clock,
}

abbrev pub Post :
    {A : Type 0}
    → (A → Session → Type 0)
    → (Raised → Session → Type 0)
    → Outcome A × Session
    → Type 0
Post Q E (ok a, s) = Q a s
Post Q E (raised e, s) = E e s

-- From `P`, the action returns with `Q` or raises with `E`.
pub record Ensures {A : Type 0} (P : Session → Type 0) (m : Exec A) (Q : A → Session → Type 0)
    (E : Raised → Session → Type 0) : Type 0 where
  pub at : (s : Session) → P s → Post Q E (m s)

module _ {A : Type 0} {P : Session → Type 0} {Q : A → Session → Type 0}
    {E : Raised → Session → Type 0} where
  pub Ensures-pure : (a : A) → ((s : Session) → P s → Q a s) → Ensures P (pure a) Q E
  unfolding pure
  Ensures-pure a h = record { at = h }

  pub Ensures-raise : (e : Raised) → ((s : Session) → P s → E e s) → Ensures P (raise e) Q E
  unfolding raise
  Ensures-raise e h = record { at = h }

  pub Ensures-gets :
      (f : Database → A) → ((s : Session) → P s → Q (f s.work) s) → Ensures P (gets f) Q E
  unfolding gets
  Ensures-gets f h = record { at = h }

  pub Ensures-catch :
      (R : Raised → Session → Type 0) (m : Exec A) (h : Raised → Exec A)
      → Ensures P m Q R
      → ((e : Raised) → Ensures (R e) (h e) Q E)
      → Ensures P (catch m h) Q E
  unfolding catch
  Ensures-catch R m h km kh = record { at = λ s p. go (m s) (km.at s p) }
    where
      go : (r : Outcome A × Session) → Post Q R r → Post Q E (catch (λ _. r) h r.1)
      go (ok a, s) p = p
      go (raised e, s) p = (kh e).at s p

  pub Ensures-if :
      (b : Bool) (m n : Exec A)
      → (b ≡ true → Ensures P m Q E)
      → (b ≡ false → Ensures P n Q E)
      → Ensures P (if b then m else n) Q E
  Ensures-if true m n km kn = km refl
  Ensures-if false m n km kn = kn refl

module _ {A B : Type 0} {P : Session → Type 0} {Q : B → Session → Type 0}
    {E : Raised → Session → Type 0} where
  pub Ensures-bind :
      (R : A → Session → Type 0) (m : Exec A) (f : A → Exec B)
      → Ensures P m R E
      → ((a : A) → Ensures (R a) (f a) Q E)
      → Ensures P (m >>= f) Q E
  unfolding ◌>>=◌
  Ensures-bind R m f km kf = record { at = λ s p. go (m s) (km.at s p) }
    where
      go : (r : Outcome A × Session) → Post R E r → Post Q E (((λ _. r) >>= f) r.1)
      go (ok a, s) p = (kf a).at s p
      go (raised e, s) p = p

module _ {P : Session → Type 0} {E : Raised → Session → Type 0} where
  pub Ensures-modify :
      (Q : Session → Type 0) (f : Database → Database)
      → ((s : Session) → P s → Q (record s { work = f s.work }))
      → Ensures P (modify f) (λ _. Q) E
  unfolding modify
  Ensures-modify Q f h = record { at = h }

  pub Ensures-commit :
      (Q : Session → Type 0)
      → ((s : Session) → P s → Q (record s { committed = s.work }))
      → Ensures P commit (λ _. Q) E
  unfolding commit
  Ensures-commit Q h = record { at = h }

  pub Ensures-rollback :
      (Q : Session → Type 0)
      → ((s : Session) → P s → Q (record s { work = s.committed }))
      → Ensures P rollback (λ _. Q) E
  unfolding rollback
  Ensures-rollback Q h = record { at = h }

  pub Ensures-read_clock :
      (Q : ℕ → Session → Type 0) (clock : ℕ → ℕ)
      → ((s : Session) → P s → Q (clock s.ticks) (record s { ticks = suc s.ticks }))
      → Ensures P (read_clock clock) Q E
  unfolding read_clock
  Ensures-read_clock Q clock h = record { at = h }

-- A consequence of the pre- and the postcondition.
pub Ensures-weaken :
    {A : Type 0} {P P' : Session → Type 0} {Q Q' : A → Session → Type 0}
    {E E' : Raised → Session → Type 0} (m : Exec A)
    → ((s : Session) → P' s → P s)
    → ((a : A) (s : Session) → Q a s → Q' a s)
    → ((e : Raised) (s : Session) → E e s → E' e s)
    → Ensures P m Q E
    → Ensures P' m Q' E'
Ensures-weaken {A} {Q} {Q'} {E} {E'} m p q e k = record { at = λ s h. go (m s) (k.at s (p s h)) }
  where
    go : (r : Outcome A × Session) → Post Q E r → Post Q' E' r
    go (ok a, s) h = q a s h
    go (raised x, s) h = e x s h
