-- ===== src/Session/Keeps.antt =====
-- Invariants of sessions: what an action keeps, whether it returns or raises.
use partha.Prelude.{Bool, Option, none, some, if◌then◌else◌}
use partha.Database.{Database}
use partha.Session.{
  Raised, Outcome, ok, raised, Session, Exec, pure, raise, gets, catch, ◌>>=◌, get_reused,
}
use partha.Session.Rules.{
  Post, Ensures, Ensures-pure, Ensures-raise, Ensures-gets, Ensures-catch, Ensures-if, Ensures-bind,
}

-- `m` keeps `P`, whether it returns or raises.
abbrev pub Keeps : {A : Type 0} → (Session → Type 0) → Exec A → Type 0
Keeps P m = Ensures P m (λ _. P) (λ _. P)

module _ {A : Type 0} {P : Session → Type 0} where
  pub Keeps-pure : (a : A) → Keeps P (pure a)
  Keeps-pure a = Ensures-pure a (λ s h. h)

  pub Keeps-raise : (e : Raised) → Keeps P (raise {A = A} e)
  Keeps-raise e = Ensures-raise e (λ s h. h)

  pub Keeps-gets : (f : Database → A) → Keeps P (gets f)
  Keeps-gets f = Ensures-gets f (λ s h. h)

  pub Keeps-if : (b : Bool) (m n : Exec A) → Keeps P m → Keeps P n → Keeps P (if b then m else n)
  Keeps-if b m n km kn = Ensures-if b m n (λ _. km) (λ _. kn)

  pub Keeps-catch :
      (m : Exec A) (h : Raised → Exec A)
      → Keeps P m
      → ((e : Raised) → Keeps P (h e))
      → Keeps P (catch m h)
  Keeps-catch m h km kh = Ensures-catch (λ _. P) m h km kh

pub Keeps-bind :
    {A B : Type 0} {P : Session → Type 0} (m : Exec A) (f : A → Exec B)
    → Keeps P m
    → ((a : A) → Keeps P (f a))
    → Keeps P (m >>= f)
Keeps-bind {P} m f km kf = Ensures-bind (λ _. P) m f km kf

pub Keeps-get_reused : {P : Session → Type 0} → Keeps P get_reused
unfolding get_reused
Keeps-get_reused = record { at = λ s h. h }

-- A choice on an optional value.
pub Keeps-option :
    {A B : Type 0} {P : Session → Type 0} (o : Option B) (m : Exec A) (f : B → Exec A)
    → Keeps P m
    → ((b : B) → Keeps P (f b))
    → Keeps P (elim o [ none ↦ m | some b ↦ f b ])
Keeps-option none m f km kf = km
Keeps-option (some b) m f km kf = kf b

pub ruleset keeps_rules = (
  Keeps-pure, Keeps-raise, Keeps-gets, Keeps-if, Keeps-catch, Keeps-bind, Keeps-get_reused,
  Keeps-option,
)

-- The rule for one run, and back.
pub kept :
    {A : Type 0} {P : Session → Type 0} (m : Exec A) → Keeps P m → (s : Session) → P s → P (m s).1
kept {A} {P} m k s h = last (m s) (k.at s h)
  where
    last : (r : Outcome A × Session) → Post (λ _. P) (λ _. P) r → P r.1
    last (ok a, t) p = p
    last (raised e, t) p = p

pub Keeps-of_kept :
    {A : Type 0} {P : Session → Type 0} (m : Exec A) → ((s : Session) → P s → P (m s).1) → Keeps P m
Keeps-of_kept {A} {P} m k = record { at = λ s h. last (m s) (k s h) }
  where
    last : (r : Outcome A × Session) → P r.1 → Post (λ _. P) (λ _. P) r
    last (ok a, t) p = p
    last (raised e, t) p = p
