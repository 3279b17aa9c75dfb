-- ===== src/Canonical/Records/Distinct.antt =====
-- What the loop of `_order_records` keeps: of each encoding that occurs, one record.
use partha.Prelude.{
  ℕ, ◌≡◌, refl, sym, true, false, List, [], ◌∷◌, if◌then◌else◌, arith, IsIn, ◌⊎◌, inl, inr,
  Bool-cases,
}
use mathlib.Core.Bool.{true≢false}
use mathlib.Core.Path.{subst}
use partha.Text.{same_text, one_of}
use partha.Text.Laws.{same_text_eq, same_text_refl}
use partha.Canonical.{Checked, ok}
use partha.Canonical.Results.{ok-injective, bind_ok}
use partha.Canonical.Records.{prepare, distinct}

pub one_of-IsIn : (s : List ℕ) (ss : List (List ℕ)) → one_of s ss ≡ true → IsIn s ss
one_of-IsIn s [] h = absurd (true≢false (sym h))
one_of-IsIn s (t ∷ ss) h = elim (Bool-cases (same_text s t)) [
  | inl e ↦ inl (sym (same_text_eq s t e))
  | inr e ↦ inr (one_of-IsIn s ss (rw (e) at h))
]

pub IsIn-one_of : (s : List ℕ) (ss : List (List ℕ)) → IsIn s ss → one_of s ss ≡ true
IsIn-one_of s [] i = absurd i
IsIn-one_of s (t ∷ ss) i = elim i [
  | inl e ↦ rw (sym e, same_text_refl t) refl
  | inr later ↦ ground (arith, IsIn-one_of s ss later)
]

cons-IsIn : {A : Type 0} (x : A) (xs : List A) (a : A) → IsIn a (x ∷ xs) → (x ≡ a) ⊎ IsIn a xs
cons-IsIn x xs a i = i

one_of_first :
    (s t : List ℕ) (ss : List (List ℕ)) → one_of s (t ∷ ss) ≡ true → (s ≡ t) ⊎ (one_of s ss ≡ true)
one_of_first s t ss h = elim (Bool-cases (same_text s t)) [
  | inl e ↦ inl (same_text_eq s t e)
  | inr e ↦ inr (rw (e) at h)
]

module _ {R A : Type 0} (normalize : R → Checked A) (encode : A → Checked (List ℕ)) where
  abbrev pub Item : Type 0
  Item = A × List ℕ

  abbrev pub Prepares : R → Item → Type 0
  Prepares a item = prepare normalize encode a ≡ ok item

  -- The items come of the records, and their encodings are new and differ.
  abbrev pub IsFresh : List (List ℕ) → List Item → Type 0
  IsFresh seen [] = Unit
  IsFresh seen (item ∷ items) = (one_of item.1 seen ≡ false) × IsFresh (item.1 ∷ seen) items

  abbrev next : List (List ℕ) → Item → List (List ℕ)
  next seen item = if one_of item.1 seen then seen else item.1 ∷ seen

  -- The parts of a round that has returned.
  round :
      (seen : List (List ℕ)) (a : R) (xs : List R) (items : List Item)
      → distinct normalize encode seen (a ∷ xs) ≡ ok items
      → (item : Item) × Prepares a item
        × ((rest : List Item) × (distinct normalize encode (next seen item) xs ≡ ok rest)
            × (items ≡ (if one_of item.1 seen then rest else item ∷ rest)))
  unfolding distinct
  round seen a xs items h =
      let (item, prepared, later) = bind_ok (prepare normalize encode a) _ h in
      let (rest, r, e) = bind_ok (distinct normalize encode (next seen item) xs) _ later in
      (item, prepared, (rest, r, sym (ok-injective e)))

  pub distinct-IsFresh :
      (seen : List (List ℕ)) (xs : List R) (items : List Item)
      → distinct normalize encode seen xs ≡ ok items
      → IsFresh seen items
  unfolding distinct
  distinct-IsFresh seen [] items h = subst (IsFresh seen) (ok-injective h) tt
  distinct-IsFresh seen (a ∷ xs) items h =
      let (item, prepared, (rest, r, e)) = round seen a xs items h in
      subst (IsFresh seen) (sym e) (elim (Bool-cases (one_of item.1 seen)) [
        | inl old ↦ rw (old) (distinct-IsFresh seen xs rest (rw (old) at r))
        | inr new ↦ rw (new) (new, distinct-IsFresh (item.1 ∷ seen) xs rest (rw (new) at r))
      ])

  weaken :
      (seen : List (List ℕ)) (first : Item) (rest : List Item) (kept : Item)
      → IsIn kept rest
      → IsIn kept (if one_of first.1 seen then rest else first ∷ rest)
  weaken seen first rest kept j = elim (Bool-cases (one_of first.1 seen)) [
    | inl old ↦ rw (old) j
    | inr new ↦ rw (new) (inr j)
  ]

  -- A kept item was prepared from one of the records.
  pub distinct-sources :
      (seen : List (List ℕ)) (xs : List R) (items : List Item) (item : Item)
      → distinct normalize encode seen xs ≡ ok items
      → IsIn item items
      → (a : R) × IsIn a xs × Prepares a item
  unfolding distinct
  distinct-sources seen [] items item h i = absurd (subst (IsIn item) (sym (ok-injective h)) i)
  distinct-sources seen (a ∷ xs) items item h i =
      let (first, prepared, (rest, r, e)) = round seen a xs items h in
      let later : IsIn item rest → (a' : R) × IsIn a' (a ∷ xs) × Prepares a' item = λ j.
        let (a', here, p) = distinct-sources (next seen first) xs rest item r j in
        (a', inr here, p) in
      elim (Bool-cases (one_of first.1 seen)) [
        | inl old ↦ later (subst (IsIn item) (rw (old) at e) i)
        | inr new ↦ elim (cons-IsIn first rest item (subst (IsIn item) (rw (new) at e) i)) [
          | inl same ↦ (a, inl refl, subst (Prepares a) same prepared)
          | inr j ↦ later j
        ]
      ]

  -- Of every record, an item with its encoding is kept or was seen.
  pub distinct-covers :
      (seen : List (List ℕ)) (xs : List R) (items : List Item) (a : R)
      → distinct normalize encode seen xs ≡ ok items
      → IsIn a xs
      → (item : Item) × Prepares a item
        × ((one_of item.1 seen ≡ true) ⊎ ((kept : Item) × IsIn kept items × (kept.1 ≡ item.1)))
  distinct-covers seen [] items a h i = absurd i
  distinct-covers seen (b ∷ xs) items a h i =
      let (first, prepared, (rest, r, e)) = round seen b xs items h in
      let keep : (kept : Item) → IsIn kept rest → IsIn kept items =
        λ kept j. subst (IsIn kept) (sym e) (weaken seen first rest kept j) in
      elim (cons-IsIn b xs a i) [
        | inl same ↦ (
          first,
          subst (λ (x : R). Prepares x first) same prepared,
          elim (Bool-cases (one_of first.1 seen)) [
            | inl old ↦ inl old
            | inr new ↦ inr (first, subst (IsIn first) (sym (rw (new) at e)) (inl refl), refl)
          ],
        )
        | inr later ↦
            let (item, p, o) = distinct-covers (next seen first) xs rest a r later in
            (
              item,
              p,
              elim o [
                | inr (kept, j, q) ↦ inr (kept, keep kept j, q)
                | inl old ↦ elim (Bool-cases (one_of first.1 seen)) [
                  | inl o ↦ inl (rw (o) at old)
                  | inr new ↦ elim (one_of_first item.1 first.1 seen (rw (new) at old)) [
                    | inl same ↦
                        inr (first, subst (IsIn first) (sym (rw (new) at e)) (inl refl), sym same)
                    | inr before ↦ inl before
                  ]
                ]
              ],
            )
      ]

  pub distinct-total :
      (seen : List (List ℕ)) (xs : List R)
      → ((a : R) → IsIn a xs → (item : Item) × Prepares a item)
      → (items : List Item) × (distinct normalize encode seen xs ≡ ok items)
  unfolding distinct
  distinct-total seen [] h = ([], refl)
  distinct-total seen (a ∷ xs) h =
      let (item, prepared) = h a (inl refl) in
      let (rest, r) = distinct-total (next seen item) xs (λ b i. h b (inr i)) in
      ((if one_of item.1 seen then rest else item ∷ rest), rw (prepared, r) refl)
