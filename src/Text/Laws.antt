-- ===== src/Text/Laws.antt =====
-- Laws of the operations on texts.
use partha.Prelude.{
  ℕ, ◌≡◌, refl, ap, ◌∙◌, true, false, List, [], ◌∷◌, ◌++◌, ◌==◌, ==_refl, arith, All, Bool-cases,
  inl, inr,
}
use partha.Text.{same_text, contains, replace, push_head, split, join}

pub same_text_refl : (s : List ℕ) → same_text s s ≡ true
same_text_refl [] = refl
same_text_refl (a ∷ s) = rw (==_refl a, same_text_refl s) refl

pub same_text_eq : (s t : List ℕ) → same_text s t ≡ true → s ≡ t
same_text_eq [] [] h = refl
same_text_eq (a ∷ s) (b ∷ t) h = ground (arith, same_text_eq s t)
same_text_eq [] (b ∷ t) h = cc
same_text_eq (a ∷ s) [] h = cc

-- The separator does not occur.
abbrev pub Lacks : ℕ → List ℕ → Type 0
Lacks c s = contains c s ≡ false

pub split_lacking : (c : ℕ) (p : List ℕ) → Lacks c p → split c p ≡ p ∷ []
unfolding split
split_lacking c [] h = refl
split_lacking c (a ∷ p) h = ground (arith, split_lacking c p)

pub split-append : (c : ℕ) (p s : List ℕ) → Lacks c p → split c (p ++ c ∷ s) ≡ p ∷ split c s
unfolding split
split-append c [] s h = rw (==_refl c) refl
split-append c (a ∷ p) s h = ground (arith, split-append c p s)

-- A join is split back into its parts.
pub split-join :
    (c : ℕ) (p : List ℕ) (ps : List (List ℕ))
    → All (Lacks c) (p ∷ ps)
    → split c (join c (p ∷ ps)) ≡ p ∷ ps
unfolding join
split-join c p [] h = split_lacking c p h.0
split-join c p (q ∷ ps) h =
    split-append c p (join c (q ∷ ps)) h.0
    ∙ ap (λ (t : List (List ℕ)). p ∷ t) (split-join c q ps h.1)

Lacks-push_head :
    (c a : ℕ) (ps : List (List ℕ))
    → a == c ≡ false
    → All (Lacks c) ps
    → All (Lacks c) (push_head a ps)
Lacks-push_head c a [] e h = ground (arith, e)
Lacks-push_head c a (p ∷ ps) e h = (ground (arith, e, h.0), h.1)

pub split-Lacks : (c : ℕ) (s : List ℕ) → All (Lacks c) (split c s)
unfolding split
split-Lacks c [] = (refl, tt)
split-Lacks c (a ∷ s) = elim (Bool-cases (a == c)) [
  | inl e ↦ rw e (refl, split-Lacks c s)
  | inr e ↦ rw e (Lacks-push_head c a (split c s) e (split-Lacks c s))
]

-- What a text lacks, its parts lack.
pub split-Lacks_other : (d c : ℕ) (s : List ℕ) → Lacks d s → All (Lacks d) (split c s)
unfolding split
split-Lacks_other d c [] h = (refl, tt)
split-Lacks_other d c (a ∷ s) h = elim (Bool-cases (a == c)) [
  | inl e ↦ rw e (refl, split-Lacks_other d c s (ground (arith, h)))
  | inr e ↦ rw e (
      Lacks-push_head d a (split c s) (ground (arith, h))
        (split-Lacks_other d c s (ground (arith, h))))
]

pub replace-Lacks : (c d : ℕ) (s : List ℕ) → d == c ≡ false → Lacks c (replace c d s)
replace-Lacks c d [] h = refl
replace-Lacks c d (a ∷ s) h = ground (arith, replace-Lacks c d s h)

pub replace_lacking : (c d : ℕ) (s : List ℕ) → Lacks c s → replace c d s ≡ s
replace_lacking c d [] h = refl
replace_lacking c d (a ∷ s) h = ground (arith, replace_lacking c d s)

pub Lacks-append : (c : ℕ) (s t : List ℕ) → Lacks c s → Lacks c t → Lacks c (s ++ t)
Lacks-append c [] t h k = k
Lacks-append c (a ∷ s) t h k = ground (arith, Lacks-append c s t)

pub Lacks-join :
    (d c : ℕ) (ps : List (List ℕ)) → c == d ≡ false → All (Lacks d) ps → Lacks d (join c ps)
unfolding join
Lacks-join d c [] e h = refl
Lacks-join d c (p ∷ []) e h = h.0
Lacks-join d c (p ∷ q ∷ ps) e h =
    Lacks-append d p (c ∷ join c (q ∷ ps)) h.0 (rw (e, Lacks-join d c (q ∷ ps) e h.1) refl)
