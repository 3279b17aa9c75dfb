-- ===== src/Text/Parts.antt =====
-- What a text lacks, its parts and the texts put together of such parts lack.
use partha.Prelude.{
  ℕ, zero, suc, ◌≡◌, ◌≤◌, ◌++◌, refl, ap, true, false, Option, none, some, List, [], ◌∷◌, length,
  ◌==◌, arith, Bool-cases, inl, inr,
}
use partha.Text.{same_text, starts_with, has_text, contains, replace, drop, count, prepend, cut}
use partha.Text.Laws.{Lacks, same_text_eq}

pub Lacks-drop : (c n : ℕ) (s : List ℕ) → Lacks c s → Lacks c (drop n s)
Lacks-drop c zero s h = h
Lacks-drop c (suc n) [] h = refl
Lacks-drop c (suc n) (a ∷ s) h = Lacks-drop c n s (ground (arith, h))

pub Lacks-replace : (c d e : ℕ) (s : List ℕ) → e == c ≡ false → Lacks c s → Lacks c (replace d e s)
Lacks-replace c d e [] n h = refl
Lacks-replace c d e (a ∷ s) n h = ground (arith, Lacks-replace c d e s n)

-- Both halves.
abbrev pub LacksBoth : ℕ → Option (List ℕ × List ℕ) → Type 0
LacksBoth c none = Unit
LacksBoth c (some (before, after)) = Lacks c before × Lacks c after

LacksBoth-prepend :
    (c a : ℕ) (r : Option (List ℕ × List ℕ))
    → a == c ≡ false
    → LacksBoth c r
    → LacksBoth c (prepend a r)
LacksBoth-prepend c a none e h = tt
LacksBoth-prepend c a (some (before, after)) e h = (rw (e, h.0) refl, h.1)

pub LacksBoth-cut : (c : ℕ) (sep s : List ℕ) → Lacks c s → LacksBoth c (cut sep s)
unfolding cut
LacksBoth-cut c sep [] h = tt
LacksBoth-cut c sep (a ∷ s) h = elim (Bool-cases (starts_with (a ∷ s) sep)) [
  | inl here ↦ rw (here) (refl, Lacks-drop c (length sep) (a ∷ s) h)
  | inr later ↦ rw (later) (
      LacksBoth-prepend c a (cut sep s) (ground (arith, h))
        (LacksBoth-cut c sep s (ground (arith, h))))
]

-- A prefix and the rest.
pub starts_with-append : (s t : List ℕ) → starts_with s t ≡ true → (rest : List ℕ) × s ≡ t ++ rest
starts_with-append s [] h = (s, refl)
starts_with-append [] (b ∷ t) h = cc
starts_with-append (a ∷ s) (b ∷ t) h =
    let (rest, e) = starts_with-append s t (ground (arith, h)) in
    let same : a ≡ b = ground (arith, h) in (rest, cc (same, e))

-- The text before the first occurrence, and the text after it.
pub contains-parts :
    (c : ℕ) (s : List ℕ)
    → contains c s ≡ true
    → (before after : List ℕ) × (s ≡ before ++ c ∷ after) × Lacks c before
contains-parts c [] h = cc
contains-parts c (a ∷ s) h = elim (Bool-cases (a == c)) [
  | inl e ↦ let same : a ≡ c = ground (arith, e) in ([], s, cc same, refl)
  | inr e ↦
      let (before, after, parts, lacks) = contains-parts c s (rw e at h) in
      (a ∷ before, after, cc parts, rw (e, lacks) refl)
]

sym_same : (s : List ℕ) → same_text s [] ≡ true → same_text [] s ≡ true
sym_same [] h = refl
sym_same (a ∷ s) h = cc

pub has_text-parts :
    (sep s : List ℕ)
    → has_text sep s ≡ true
    → (before after : List ℕ) × (s ≡ before ++ sep ++ after)
has_text-parts sep [] h =
    let none_left = same_text_eq [] sep (sym_same sep h) in
    ([], [], ap (λ (t : List ℕ). t ++ []) none_left)
has_text-parts sep (a ∷ s) h = elim (Bool-cases (starts_with (a ∷ s) sep)) [
  | inl e ↦ let (after, parts) = starts_with-append (a ∷ s) sep e in ([], after, parts)
  | inr e ↦
      let (before, after, parts) = has_text-parts sep s (rw e at h) in (a ∷ before, after, cc parts)
]

pub count-contains : (c : ℕ) (s : List ℕ) → 1 ≤ count c s → contains c s ≡ true
count-contains c [] h = absurd (ground (arith, h))
count-contains c (a ∷ s) h = ground (arith, count-contains c s)
