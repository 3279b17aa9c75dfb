-- ===== src/Canonical/Records/Ordered.antt =====
-- Ordered lists of the same items are the same list, so the order in which records come in does not matter.
use partha.Prelude.{
  ℕ, ◌≡◌, ◌≢◌, refl, sym, ap, ◌∙◌, Bool, true, List, [], ◌∷◌, ◌++◌, All, IsIn, inl, inr,
}
use mathlib.Core.Bool.{true≢false}
use mathlib.Core.Path.{subst}
use partha.Text.Order.{tuple_le-IsTotal, tuple_le-IsTransitive, tuple_le-IsAntisymmetric}
use partha.Table.Select.{select_by, IsSorted}
use partha.Table.Select.Rows.{select_by-IsSorted}
use partha.Table.Select.Unique.{
  All_in, All-of_in, IsNodup, sorted_unique, select_by-IsNodup, select_by-IsIn, IsIn-select_by,
}
use partha.Canonical.{Checked, ok}
use partha.Canonical.Results.{ok-injective, bind_ok}
use partha.Canonical.Records.{distinct, full_key, item_le, all_items, order_records}
use partha.Canonical.Records.Distinct.{
  Item, Prepares, IsFresh, distinct-IsFresh, distinct-sources, distinct-covers, distinct-total,
  IsIn-one_of,
}

last : List (List ℕ) → List ℕ
last [] = []
last (a ∷ []) = a
last (a ∷ b ∷ l) = last (b ∷ l)

last-append : (l : List (List ℕ)) (e : List ℕ) → last (l ++ e ∷ []) ≡ e
unfolding last
last-append [] e = refl
last-append (a ∷ []) e = refl
last-append (a ∷ b ∷ l) e = last-append (b ∷ l) e

module _ {R A : Type 0} (normalize : R → Checked A) (encode : A → Checked (List ℕ))
    (key : A → List (List ℕ)) where
  Fresh_apart :
      (seen : List (List ℕ)) (e : List ℕ) (items : List (Item normalize encode))
      → IsIn e seen
      → IsFresh normalize encode seen items
      → All (λ (q : A × List ℕ). e ≢ q.1) items
  Fresh_apart seen e [] i h = tt
  Fresh_apart seen e (q ∷ items) i h = (
    (λ same.
        true≢false (sym (IsIn-one_of q.1 seen (subst (λ (s : List ℕ). IsIn s seen) same i)) ∙ h.0)),
    Fresh_apart (q.1 ∷ seen) e items (inr i) h.1,
  )

  Fresh-IsNodup :
      (seen : List (List ℕ)) (items : List (A × List ℕ))
      → IsFresh normalize encode seen items
      → IsNodup items
  Fresh-IsNodup seen [] h = tt
  Fresh-IsNodup seen (q ∷ items) h = (
    All-of_in (λ r. q ≢ r) items
        (λ r i e.
          All_in (λ (s : A × List ℕ). q.1 ≢ s.1) items r
            (Fresh_apart (q.1 ∷ seen) q.1 items (inl refl) h.1) i (ap (λ (s : A × List ℕ). s.1) e)),
    Fresh-IsNodup (q.1 ∷ seen) items h.1,
  )

  -- The encoding tells records apart.
  module _ (injective : (a b : A) (e : List ℕ) → encode a ≡ ok e → encode b ≡ ok e → a ≡ b) where
    encoded : (a : R) (q : A × List ℕ) → Prepares normalize encode a q → encode q.0 ≡ ok q.1
    encoded a q h =
        let (b, n, k) = bind_ok (normalize a) _ h in
        let (e, c, j) = bind_ok (encode b) _ k in
        subst (λ (r : A × List ℕ). encode r.0 ≡ ok r.1) (ok-injective j) c

    same_item :
        (a b : R) (q r : A × List ℕ)
        → Prepares normalize encode a q
        → Prepares normalize encode b r
        → q.1 ≡ r.1
        → q ≡ r
    same_item a b q r h k e =
        let first : q.0 ≡ r.0 = injective q.0 r.0 r.1 (encoded a q h ∙ ap ok e) (encoded b r k) in
        λ i. (first i, e i)

    item_le-antisym :
        (a b : R) (q r : A × List ℕ)
        → Prepares normalize encode a q
        → Prepares normalize encode b r
        → item_le key q r ≡ true
        → item_le key r q ≡ true
        → q ≡ r
    item_le-antisym a b q r h k c d = same_item a b q r h k (
        sym (last-append (key q.0) q.1)
        ∙ ap last (tuple_le-IsAntisymmetric (full_key key q) (full_key key r) c d)
        ∙ last-append (key r.0) r.1)

    -- Each of some records is prepared as one of the others is.
    abbrev pub Among : List R → List R → Type 0
    Among xs ys =
        (a : R)
        → IsIn a xs
        → (q : A × List ℕ) → Prepares normalize encode a q
        → (b : R) × IsIn b ys × Prepares normalize encode b q

    -- What is kept of some records, something equal is kept of any others that they are among.
    kept-IsIn :
        (xs ys : List R) (items others : List (A × List ℕ))
        → Among xs ys
        → distinct normalize encode [] xs ≡ ok items
        → distinct normalize encode [] ys ≡ ok others
        → (q : A × List ℕ) → IsIn q items
        → IsIn q others
    kept-IsIn xs ys items others f h k q i =
        let (a, here, p) = distinct-sources normalize encode [] xs items q h i in
        let (b', here', same) = f a here q p in
        let (r, p', o) = distinct-covers normalize encode [] ys others b' k here' in
        elim o [
          | inl never ↦ absurd (true≢false (sym never))
          | inr (kept, j, e) ↦
              let (b, there, p'') = distinct-sources normalize encode [] ys others kept k j in
              subst (λ (s : A × List ℕ). IsIn s others)
                (same_item b a kept q p'' p
                  (e ∙ ap (λ (s : A × List ℕ). s.1) (ok-injective (sym p' ∙ same))))
                j
        ]

    sorted :
        (items : List (A × List ℕ))
        → IsSorted (item_le key) (select_by (item_le key) all_items items)
    sorted =
        select_by-IsSorted (item_le key)
          (λ a b c. tuple_le-IsTransitive (full_key key a) (full_key key b) (full_key key c))
          (λ a b. tuple_le-IsTotal (full_key key a) (full_key key b)) all_items

    sorted_same :
        (xs ys : List R) (items others : List (A × List ℕ))
        → Among xs ys
        → Among ys xs
        → distinct normalize encode [] xs ≡ ok items
        → distinct normalize encode [] ys ≡ ok others
        → select_by (item_le key) all_items items ≡ select_by (item_le key) all_items others
    sorted_same xs ys items others f g h k =
        let le : A × List ℕ → A × List ℕ → Bool = item_le key in
        sorted_unique le (select_by le all_items items) (select_by le all_items others)
          (sorted items) (sorted others)
          (select_by-IsNodup le all_items items
            (Fresh-IsNodup [] items (distinct-IsFresh normalize encode [] xs items h)))
          (select_by-IsNodup le all_items others
            (Fresh-IsNodup [] others (distinct-IsFresh normalize encode [] ys others k)))
          (λ q i.
            IsIn-select_by le all_items others q
              (kept-IsIn xs ys items others f h k q (select_by-IsIn le all_items items q i)) refl)
          (λ q i.
            IsIn-select_by le all_items items q
              (kept-IsIn ys xs others items g k h q (select_by-IsIn le all_items others q i)) refl)
          (λ q r i j c d.
            let (a, here, p) =
              distinct-sources normalize encode [] xs items q h
                (select_by-IsIn le all_items items q i) in
            let (b, there, p') =
              distinct-sources normalize encode [] xs items r h
                (select_by-IsIn le all_items items r j) in
            item_le-antisym a b q r p p' c d)

-- Records that are prepared alike are ordered into the same list.
pub order_records_prepared :
    {R A : Type 0} (normalize : R → Checked A) (encode : A → Checked (List ℕ))
    (key : A → List (List ℕ))
    (injective : (a b : A) (e : List ℕ) → encode a ≡ ok e → encode b ≡ ok e → a ≡ b)
    (xs ys : List R) (zs : List A)
    → Among normalize encode key injective xs ys
    → Among normalize encode key injective ys xs
    → ((b : R) → IsIn b ys → (q : A × List ℕ) × Prepares normalize encode b q)
    → order_records key normalize encode xs ≡ ok zs
    → order_records key normalize encode ys ≡ ok zs
unfolding order_records
order_records_prepared normalize encode key injective xs ys zs f g total h =
    let (items, d, e) = bind_ok (distinct normalize encode [] xs) _ h in
    let (others, k) = distinct-total normalize encode [] ys total in
    rw (k, sym (sorted_same normalize encode key injective xs ys items others f g d k)) e

-- Records in any order and with any repetitions are ordered into the same list, where their encodings tell them apart.
pub order_records_lem :
    {R A : Type 0} (normalize : R → Checked A) (encode : A → Checked (List ℕ))
    (key : A → List (List ℕ))
    → ((a b : A) (e : List ℕ) → encode a ≡ ok e → encode b ≡ ok e → a ≡ b)
    → (xs ys : List R) (zs : List A) → ((a : R) → IsIn a xs → IsIn a ys)
    → ((a : R) → IsIn a ys → IsIn a xs)
    → order_records key normalize encode xs ≡ ok zs
    → order_records key normalize encode ys ≡ ok zs
unfolding order_records
order_records_lem normalize encode key injective xs ys zs f g h =
    let (items, d, e) = bind_ok (distinct normalize encode [] xs) _ h in
    order_records_prepared normalize encode key injective xs ys zs (λ a i q p. (a, f a i, p))
      (λ a i q p. (a, g a i, p))
      (λ a i. let (q, p, o) = distinct-covers normalize encode [] xs items a d (g a i) in (q, p)) h
