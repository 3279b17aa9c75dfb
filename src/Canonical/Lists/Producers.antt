-- ===== src/Canonical/Lists/Producers.antt =====
-- A normalised set of producers is normalised to itself.
use partha.Prelude.{ℕ, ◌≡◌, refl, sym, ap, ◌∙◌, List, [], ◌∷◌, IsIn, inl, inr, map}
use mathlib.Core.Bool.{true≢false}
use mathlib.Core.Path.{subst}
use partha.Table.Select.{select_by}
use partha.Table.Select.Unique.{select_by-IsIn, IsIn-select_by}
use partha.Canonical.{Unicode, Checked, ok}
use partha.Canonical.Results.{ok-injective, bind_ok}
use partha.Canonical.Records.{distinct, item_le, all_items, record_of, order_records}
use partha.Canonical.Records.Distinct.{distinct-sources, distinct-covers}
use partha.Canonical.Records.Ordered.{order_records_prepared}
use partha.Canonical.Lists.{normalize_producer_version_set}

map-IsIn :
    (items : List (List ℕ × List ℕ)) (q : List ℕ × List ℕ)
    → IsIn q items
    → IsIn q.0 (map record_of items)
map-IsIn [] q i = absurd i
map-IsIn (r ∷ items) q i = elim i [
  | inl e ↦ inl (ap record_of e)
  | inr j ↦ inr (map-IsIn items q j)
]

IsIn-map :
    (items : List (List ℕ × List ℕ)) (s : List ℕ)
    → IsIn s (map record_of items)
    → (q : List ℕ × List ℕ) × IsIn q items × (q.0 ≡ s)
IsIn-map [] s i = absurd i
IsIn-map (r ∷ items) s i = elim i [
  | inl e ↦ (r, inl refl, e)
  | inr j ↦ let (q, here, e) = IsIn-map items s j in (q, inr here, e)
]

module _ (u : Unicode) (utf_8 : List ℕ → List ℕ)
    (idempotent : (s : List ℕ) → u.nfc (u.nfc s) ≡ u.nfc s) where
  abbrev nfc_of : List ℕ → Checked (List ℕ)
  nfc_of s = ok (u.nfc s)

  abbrev itself : List ℕ → Checked (List ℕ)
  itself s = ok s

  abbrev bytes : List ℕ → List (List ℕ)
  bytes s = utf_8 s ∷ []

  -- The items of the records, and the records of the items.
  members :
      (xs zs : List (List ℕ))
      → order_records bytes nfc_of itself xs ≡ ok zs
      → ((a : List ℕ) → IsIn a xs → IsIn (u.nfc a) zs)
        × ((z : List ℕ) → IsIn z zs → (a : List ℕ) × IsIn a xs × (u.nfc a ≡ z))
  unfolding order_records
  members xs zs h =
      let (items, d, e) = bind_ok (distinct nfc_of itself [] xs) _ h in
      let le = item_le bytes in
      (
        (λ a i.
            let (q, p, o) = distinct-covers nfc_of itself [] xs items a d i in
            elim o [
              | inl never ↦ absurd (true≢false (sym never))
              | inr (kept, j, same) ↦
                  let (b, there, p') = distinct-sources nfc_of itself [] xs items kept d j in
                  let name : kept.0 ≡ u.nfc a =
                    ap record_of (sym (ok-injective p'))
                    ∙ ap (λ (r : List ℕ × List ℕ). r.1) (ok-injective p')
                    ∙ same
                    ∙ ap (λ (r : List ℕ × List ℕ). r.1) (sym (ok-injective p)) in
                  subst (λ (z : List ℕ). IsIn z zs) name
                    (subst (IsIn kept.0) (ok-injective e) (
                      map-IsIn (select_by le all_items items) kept
                        (IsIn-select_by le all_items items kept j refl)))
            ]),
        λ z i.
            let (q, here, name) =
              IsIn-map (select_by le all_items items) z (subst (IsIn z) (sym (ok-injective e)) i) in
            let (a, there, p) =
              distinct-sources nfc_of itself [] xs items q d
                (select_by-IsIn le all_items items q here) in
            (a, there, ap record_of (ok-injective p) ∙ name),
      )

  -- What was normalised once is left as it is, where `nfc` leaves its own results as they are.
  pub normalize-normalize_producer_version_set :
      (producers normalized : List (List ℕ))
      → normalize_producer_version_set u utf_8 producers ≡ ok normalized
      → normalize_producer_version_set u utf_8 normalized ≡ ok normalized
  unfolding normalize_producer_version_set
  normalize-normalize_producer_version_set xs zs h =
      let (there, back) = members xs zs h in
      let fixed : (z : List ℕ) → IsIn z zs → u.nfc z ≡ z =
        λ z i. let (a, here, e) = back z i in ap u.nfc (sym e) ∙ idempotent a ∙ e in
      order_records_prepared nfc_of itself bytes (λ a b e h k. ok-injective (h ∙ sym k)) xs zs zs
        (λ a i q p. (u.nfc a, there a i, ap (λ (s : List ℕ). ok (s, s)) (idempotent a) ∙ p))
        (λ z i q p.
          let (a, here, e) = back z i in
          (a, here, ap (λ (s : List ℕ). ok (s, s)) (e ∙ sym (fixed z i)) ∙ p))
        (λ z i. ((u.nfc z, u.nfc z), refl)) h
