-- ===== src/Text/Order.antt =====
-- The lexicographic order of texts and of tuples of texts, as Python compares them. A component of a tuple that is a
-- number stands as the text of that one number, which compares alike.
use partha.Prelude.{ℕ, ◌≡◌, refl, Bool, true, false, List, [], ◌∷◌, leb, if◌then◌else◌, arith}

module _ {A : Type 0} (le : A → A → Bool) where
  abbrev pub lex_le : List A → List A → Bool
  lex_le [] t = true
  lex_le (a ∷ s) [] = false
  lex_le (a ∷ s) (b ∷ t) = if le a b then if le b a then lex_le s t else true else false

  abbrev pub IsTotal : Type 0
  IsTotal = (a b : A) → le a b ≡ false → le b a ≡ true

  abbrev pub IsTransitive : Type 0
  IsTransitive = (a b c : A) → le a b ≡ true → le b c ≡ true → le a c ≡ true

  abbrev pub IsAntisymmetric : Type 0
  IsAntisymmetric = (a b : A) → le a b ≡ true → le b a ≡ true → a ≡ b

module _ {A : Type 0} (le : A → A → Bool) where
  pub lex_le-IsTotal : IsTotal le → IsTotal (lex_le le)
  lex_le-IsTotal total [] t h = cc
  lex_le-IsTotal total (a ∷ s) [] h = refl
  lex_le-IsTotal total (a ∷ s) (b ∷ t) h = ground (arith, total a b, lex_le-IsTotal total s t)

  pub lex_le-IsTransitive : IsTransitive le → IsTransitive (lex_le le)
  lex_le-IsTransitive trans [] t u h k = refl
  lex_le-IsTransitive trans (a ∷ s) [] u h k = cc
  lex_le-IsTransitive trans (a ∷ s) (b ∷ t) [] h k = cc
  lex_le-IsTransitive trans (a ∷ s) (b ∷ t) (c ∷ u) h k =
      ground (arith, trans a b c, trans c a b, trans b c a, lex_le-IsTransitive trans s t u)

  pub lex_le-IsAntisymmetric : IsAntisymmetric le → IsAntisymmetric (lex_le le)
  lex_le-IsAntisymmetric anti [] [] h k = refl
  lex_le-IsAntisymmetric anti [] (b ∷ t) h k = cc
  lex_le-IsAntisymmetric anti (a ∷ s) [] h k = cc
  lex_le-IsAntisymmetric anti (a ∷ s) (b ∷ t) h k =
      ground (arith, anti a b, lex_le-IsAntisymmetric anti s t)

abbrev pub text_le : List ℕ → List ℕ → Bool
text_le = lex_le leb

abbrev pub tuple_le : List (List ℕ) → List (List ℕ) → Bool
tuple_le = lex_le text_le

leb-IsTotal : IsTotal leb
leb-IsTotal a b h = ground (arith, h)

leb-IsTransitive : IsTransitive leb
leb-IsTransitive a b c h k = ground (arith, h, k)

leb-IsAntisymmetric : IsAntisymmetric leb
leb-IsAntisymmetric a b h k = ground (arith, h, k)

pub tuple_le-IsTotal : IsTotal tuple_le
tuple_le-IsTotal = lex_le-IsTotal text_le (lex_le-IsTotal leb leb-IsTotal)

pub tuple_le-IsTransitive : IsTransitive tuple_le
tuple_le-IsTransitive = lex_le-IsTransitive text_le (lex_le-IsTransitive leb leb-IsTransitive)

pub tuple_le-IsAntisymmetric : IsAntisymmetric tuple_le
tuple_le-IsAntisymmetric =
    lex_le-IsAntisymmetric text_le (lex_le-IsAntisymmetric leb leb-IsAntisymmetric)
