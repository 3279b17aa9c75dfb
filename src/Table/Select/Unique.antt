-- ===== src/Table/Select/Unique.antt =====
-- Two ordered lists with the same elements are the same list, where each element occurs once.
use partha.Prelude.{
  ◌≡◌, ◌≢◌, refl, sym, ap, ◌∙◌, Bool, true, List, [], ◌∷◌, All, IsIn, inl, inr, Bool-cases,
}
use mathlib.Core.Path.{subst}
use partha.Table.Select.{insert_by, select_by, IsSorted}
use partha.Table.Select.Rows.{All-insert_by, All-select_by, All-of_select_by}

pub All_in : {A : Type 0} (P : A → Type 0) (xs : List A) (a : A) → All P xs → IsIn a xs → P a
All_in P [] a h i = absurd i
All_in P (x ∷ xs) a h i = elim i [ inl e ↦ subst P e h.0 | inr later ↦ All_in P xs a h.1 later ]

pub All-of_in : {A : Type 0} (P : A → Type 0) (xs : List A) → ((a : A) → IsIn a xs → P a) → All P xs
All-of_in P [] h = tt
All-of_in P (x ∷ xs) h = (h x (inl refl), All-of_in P xs (λ a i. h a (inr i)))

-- No element occurs twice.
abbrev pub IsNodup : {A : Type 0} → List A → Type 0
IsNodup [] = Unit
IsNodup (x ∷ xs) = All (λ y. x ≢ y) xs × IsNodup xs

module _ {A : Type 0} (le : A → A → Bool) where
  pub sorted_unique :
      (xs ys : List A)
      → IsSorted le xs
      → IsSorted le ys
      → IsNodup xs
      → IsNodup ys
      → ((a : A) → IsIn a xs → IsIn a ys)
      → ((a : A) → IsIn a ys → IsIn a xs)
      → ((a b : A) → IsIn a xs → IsIn b xs → le a b ≡ true → le b a ≡ true → a ≡ b)
      → xs ≡ ys
  sorted_unique [] [] s t n m f g anti = refl
  sorted_unique [] (y ∷ ys) s t n m f g anti = absurd (g y (inl refl))
  sorted_unique (x ∷ xs) [] s t n m f g anti = absurd (f x (inl refl))
  sorted_unique (x ∷ xs) (y ∷ ys) s t n m f g anti =
      let same : x ≡ y = elim (f x (inl refl)) [
        | inl e ↦ sym e
        | inr i ↦ elim (g y (inl refl)) [
          | inl e ↦ e
          | inr j ↦
              anti x y (inl refl) (inr j) (All_in (λ b. le x b ≡ true) xs y s.0 j)
                (All_in (λ b. le y b ≡ true) ys x t.0 i)
        ]
      ] in
      let rest : xs ≡ ys =
        sorted_unique xs ys s.1 t.1 n.1 m.1
          (λ a i. elim (f a (inr i)) [
            | inl e ↦ absurd (All_in (λ b. x ≢ b) xs a n.0 i (same ∙ e))
            | inr j ↦ j
          ])
          (λ a i. elim (g a (inr i)) [
            | inl e ↦ absurd (All_in (λ b. y ≢ b) ys a m.0 i (sym same ∙ e))
            | inr j ↦ j
          ])
          (λ a b i j. anti a b (inr i) (inr j)) in
      ap (λ (l : List A). x ∷ l) rest ∙ ap (λ (a : A). a ∷ ys) same

  insert_by-IsNodup :
      (r : A) (t : List A) → All (λ s. r ≢ s) t → IsNodup t → IsNodup (insert_by le r t)
  insert_by-IsNodup r [] h n = (tt, tt)
  insert_by-IsNodup r (s ∷ t) h n = elim (Bool-cases (le r s)) [
    | inl c ↦ rw (c) (h, n)
    | inr c ↦
        rw (c) (
          All-insert_by le (λ u. s ≢ u) r t ((λ e. h.0 (sym e)), n.0),
          insert_by-IsNodup r t h.1 n.1,
        )
  ]

  module _ (p : A → Bool) where
    pub select_by-IsNodup : (t : List A) → IsNodup t → IsNodup (select_by le p t)
    unfolding select_by
    select_by-IsNodup [] n = tt
    select_by-IsNodup (r ∷ t) n = elim (Bool-cases (p r)) [
      | inl e ↦ rw (e) (
          insert_by-IsNodup r (select_by le p t)
            (All-select_by le p (λ s. r ≢ s) t
              (All-of_in (λ s. p s ≡ true → r ≢ s) t (λ s i _. All_in (λ u. r ≢ u) t s n.0 i)))
            (select_by-IsNodup t n.1))
      | inr e ↦ rw (e) (select_by-IsNodup t n.1)
    ]

    pub select_by-IsIn : (t : List A) (a : A) → IsIn a (select_by le p t) → IsIn a t
    select_by-IsIn t a i =
        All_in (λ b. IsIn b t) (select_by le p t) a
          (All-select_by le p (λ b. IsIn b t) t
            (All-of_in (λ b. p b ≡ true → IsIn b t) t (λ b j _. j)))
          i

    pub IsIn-select_by : (t : List A) (a : A) → IsIn a t → p a ≡ true → IsIn a (select_by le p t)
    IsIn-select_by t a i e =
        All_in (λ b. p b ≡ true → IsIn b (select_by le p t)) t a
          (All-of_select_by le p (λ b. IsIn b (select_by le p t)) t
            (All-of_in (λ b. IsIn b (select_by le p t)) (select_by le p t) (λ b j. j)))
          i e
