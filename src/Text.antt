-- ===== src/Text.antt =====
-- Texts as lists of code points, under the operations of Python's `str` that the backend calls.
pub mod Laws
pub mod Parts
pub mod Order
use partha.Prelude.{
  ℕ, zero, suc, Bool, true, false, ◌&&◌, ◌||◌, Option, none, some, List, [], ◌∷◌, ◌++◌, length,
  ◌==◌, ltb, if◌then◌else◌,
}

abbrev pub same_text : List ℕ → List ℕ → Bool
same_text [] [] = true
same_text (a ∷ s) (b ∷ t) = a == b && same_text s t
same_text _ _ = false

abbrev pub one_of : List ℕ → List (List ℕ) → Bool
one_of s [] = false
one_of s (t ∷ ts) = same_text s t || one_of s ts

abbrev pub starts_with : List ℕ → List ℕ → Bool
starts_with s [] = true
starts_with [] (b ∷ t) = false
starts_with (a ∷ s) (b ∷ t) = a == b && starts_with s t

abbrev pub ends_with : List ℕ → List ℕ → Bool
ends_with [] t = same_text [] t
ends_with (a ∷ s) t = same_text (a ∷ s) t || ends_with s t

-- `chr(c) in s`
abbrev pub contains : ℕ → List ℕ → Bool
contains c [] = false
contains c (a ∷ s) = a == c || contains c s

-- `s.replace(chr(c), chr(d))`
abbrev pub replace : ℕ → ℕ → List ℕ → List ℕ
replace c d [] = []
replace c d (a ∷ s) = (if a == c then d else a) ∷ replace c d s

abbrev push_head : ℕ → List (List ℕ) → List (List ℕ)
push_head a [] = (a ∷ []) ∷ []
push_head a (p ∷ ps) = (a ∷ p) ∷ ps

-- `s.split(chr(c))`
unfoldable pub split : ℕ → List ℕ → List (List ℕ)
split c [] = [] ∷ []
split c (a ∷ s) = let parts = split c s in if a == c then [] ∷ parts else push_head a parts

-- `chr(c).join(parts)`
unfoldable pub join : ℕ → List (List ℕ) → List ℕ
join c [] = []
join c (p ∷ []) = p
join c (p ∷ q ∷ ps) = p ++ c ∷ join c (q ∷ ps)

-- `s[n:]`
abbrev pub drop : ℕ → List ℕ → List ℕ
drop zero s = s
drop (suc n) [] = []
drop (suc n) (a ∷ s) = drop n s

-- `s.count(chr(c))`
abbrev pub count : ℕ → List ℕ → ℕ
count c [] = 0
count c (a ∷ s) = if a == c then suc (count c s) else count c s

-- `sep in s`
abbrev pub has_text : List ℕ → List ℕ → Bool
has_text sep [] = same_text sep []
has_text sep (a ∷ s) = starts_with (a ∷ s) sep || has_text sep s

abbrev pub prepend : ℕ → Option (List ℕ × List ℕ) → Option (List ℕ × List ℕ)
prepend a none = none
prepend a (some (before, after)) = some (a ∷ before, after)

-- `s.split(sep, 1)`, none where `sep` does not occur.
unfoldable pub cut : List ℕ → List ℕ → Option (List ℕ × List ℕ)
cut sep [] = none
cut sep (a ∷ s) =
    let rest = cut sep s in
    if starts_with (a ∷ s) sep then some ([], drop (length sep) (a ∷ s)) else prepend a rest
