-- ===== src/Canonical/Results.antt =====
-- What is known of the parts of a computation that has returned.
use partha.Prelude.{◌≡◌, ◌≢◌, refl, ap, Bool, true, false, if◌then◌else◌}
use partha.Canonical.{IntelligenceError, Checked, ok, err, ◌>>=◌}

module _ {A : Type 0} where
  abbrev from_ok : A → Checked A → A
  from_ok a (ok b) = b
  from_ok a (err e) = a

  pub ok-injective : {a b : A} → ok a ≡ ok b → a ≡ b
  ok-injective {a} e = ap (from_ok a) e

  pub err_apart : {e : IntelligenceError} {a : A} → err e ≢ ok a
  err_apart h = cc

  pub bind_ok :
      {B : Type 0} (m : Checked B) (f : B → Checked A) {a : A}
      → m >>= f ≡ ok a
      → (b : B) × (m ≡ ok b) × (f b ≡ ok a)
  bind_ok (ok b) f h = (b, refl, h)
  bind_ok (err e) f h = absurd (err_apart h)

  -- The value of a test that lets its first branch return, or its second.
  pub then_ok :
      (b : Bool) {m : Checked A} (e : IntelligenceError) {a : A}
      → (if b then m else err e) ≡ ok a
      → (b ≡ true) × (m ≡ ok a)
  then_ok true e h = (refl, h)
  then_ok false e h = absurd (err_apart h)

  pub else_ok :
      (b : Bool) {m : Checked A} (e : IntelligenceError) {a : A}
      → (if b then err e else m) ≡ ok a
      → (b ≡ false) × (m ≡ ok a)
  else_ok false e h = (refl, h)
  else_ok true e h = absurd (err_apart h)
