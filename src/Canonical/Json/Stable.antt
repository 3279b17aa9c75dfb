-- ===== src/Canonical/Json/Stable.antt =====
-- What `_normalize` returns is left as it is.
use partha.Prelude.{ℕ, ◌≡◌, refl, List, [], ◌∷◌}
use mathlib.Core.Path.{subst}
use partha.Text.{one_of}
use partha.Canonical.{Unicode, canonicalization_error, ok}
use partha.Canonical.Results.{ok-injective, err_apart, bind_ok, then_ok, else_ok}
use partha.Canonical.Json.{
  Json, null, float, unsupported, boolean, integer, string, array, object, Items, no_item, item,
  Members, no_member, member, is_exact, normalize, normalize_items, normalize_members,
  normalize_content,
}

module _ (u : Unicode) (idempotent : (s : List ℕ) → u.nfc (u.nfc s) ≡ u.nfc s) where
  mutual
    unfolding normalize

    again : (v w : Json) → normalize u v ≡ ok w → normalize u w ≡ ok w
    again null w h = subst (λ (x : Json). normalize u x ≡ ok x) (ok-injective h) refl
    again float w h = absurd (err_apart h)
    again unsupported w h = absurd (err_apart h)
    again (boolean b) w h = subst (λ (x : Json). normalize u x ≡ ok x) (ok-injective h) refl
    again (integer negative n) w h =
        let (exact, e) = then_ok (is_exact n) canonicalization_error h in
        subst (λ (x : Json). normalize u x ≡ ok x) (ok-injective e) (rw (exact) refl)
    again (string s) w h =
        subst (λ (x : Json). normalize u x ≡ ok x) (ok-injective h) (rw (idempotent s) refl)
    again (array items) w h =
        let (normalized, n, e) = bind_ok (normalize_items u items) _ h in
        subst (λ (x : Json). normalize u x ≡ ok x) (ok-injective e)
          (rw (again_items items normalized n) refl)
    again (object members) w h =
        let (normalized, n, e) = bind_ok (normalize_members u [] members) _ h in
        subst (λ (x : Json). normalize u x ≡ ok x) (ok-injective e)
          (rw (again_members [] members normalized n) refl)

    again_items : (v w : Items) → normalize_items u v ≡ ok w → normalize_items u w ≡ ok w
    again_items no_item w h =
        subst (λ (x : Items). normalize_items u x ≡ ok x) (ok-injective h) refl
    again_items (item v items) w h =
        let (first, f, a) = bind_ok (normalize u v) _ h in
        let (rest, r, e) = bind_ok (normalize_items u items) _ a in
        subst (λ (x : Items). normalize_items u x ≡ ok x) (ok-injective e)
          (rw (again v first f, again_items items rest r) refl)

    again_members :
        (seen : List (List ℕ)) (v w : Members)
        → normalize_members u seen v ≡ ok w
        → normalize_members u seen w ≡ ok w
    again_members seen no_member w h =
        subst (λ (x : Members). normalize_members u seen x ≡ ok x) (ok-injective h) refl
    again_members seen (member key v members) w h =
        let (new, b) = else_ok (one_of (u.nfc key) seen) canonicalization_error h in
        let (first, f, a) = bind_ok (normalize u v) _ b in
        let (rest, r, e) = bind_ok (normalize_members u (u.nfc key ∷ seen) members) _ a in
        subst (λ (x : Members). normalize_members u seen x ≡ ok x) (ok-injective e)
          (rw
            (idempotent key, new, again v first f, again_members (u.nfc key ∷ seen) members rest r)
            refl)

-- What was normalised once is left as it is, where `nfc` leaves its own results as they are.
pub normalize_content-normalize_content :
    (u : Unicode)
    → ((s : List ℕ) → u.nfc (u.nfc s) ≡ u.nfc s)
    → (value normalized : Json) → normalize_content u value ≡ ok normalized
    → normalize_content u normalized ≡ ok normalized
unfolding normalize_content
normalize_content-normalize_content u idempotent value normalized h =
    again u idempotent value normalized h
