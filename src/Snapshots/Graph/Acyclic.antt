-- ===== src/Snapshots/Graph/Acyclic.antt =====
-- The detection of cycles: it ends within its fuel, raises only for a cycle, and lets no cycle pass.
use partha.Prelude.{
  ℕ, suc, ◌≤◌, ◌<◌, ◌≡◌, ◌≢◌, refl, sym, ap, ◌∙◌, true, List, [], ◌∷◌, if◌then◌else◌, arith, ◌⊎◌,
  inl, inr, IsIn, Bool-cases,
}
use mathlib.Core.Bool.{true≢false}
use partha.Text.{same_text}
use partha.Text.Laws.{same_text_refl, same_text_eq}
use partha.Snapshots.Graph.{
  Color, white, grey, black, Colors, Outgoing, get, targets_of, has_key, paint, is_white,
}

pub white_grey : white ≢ grey
white_grey h = cc

pub black_grey : black ≢ grey
black_grey h = cc

pub white_black : white ≢ black
white_black h = cc

module _ (g : Outgoing) where
  -- `b` is one of the targets of `a`.
  abbrev pub Edge : List ℕ → List ℕ → Type 0
  Edge a b = IsIn b (targets_of (get g a))

  -- A way along one edge or more.
  pub data Way (a : List ℕ) : List ℕ → Type 0 where
    one : {b : List ℕ} → Edge a b → Way a b
    more : {b c : List ℕ} → Way a b → Edge b c → Way a c

  abbrev pub HasCycle : Type 0
  HasCycle = (k : List ℕ) × Way k k

  abbrev pub IsKey : List ℕ → Type 0
  IsKey k = has_key g k ≡ true

  -- Every node keeps its colour, or turns from white to black.
  abbrev pub After : Colors → Colors → Type 0
  After c c' = (k : List ℕ) → (c' k ≡ c k) ⊎ ((c k ≡ white) × (c' k ≡ black))

  -- The targets of a black node are black and of a lower rank.
  pub record Ranked (c : Colors) : Type 0 where
    pub rank : List ℕ → ℕ
    pub lower :
        (k t : List ℕ) → c k ≡ black → Edge k t → IsKey t → (c t ≡ black) × (rank t < rank k)

  -- A way leads from every grey node to this one.
  abbrev pub Chain : Colors → List ℕ → Type 0
  Chain c n = (k : List ℕ) → c k ≡ grey → (k ≡ n) ⊎ Way k n

  abbrev pub whites : Colors → Outgoing → ℕ
  whites c [] = 0
  whites c ((k, ts) ∷ rest) = if is_white (c k) then suc (whites c rest) else whites c rest

  pub After-refl : (c : Colors) → After c c
  After-refl c k = inl refl

  pub After-trans : (a b c : Colors) → After a b → After b c → After a c
  After-trans a b c h h' k = elim (h k) [
    | inl e ↦ elim (h' k) [ inl e' ↦ inl (e' ∙ e) | inr w ↦ inr (sym e ∙ w.0, w.1) ]
    | inr w ↦ elim (h' k) [ inl e' ↦ inr (w.0, e' ∙ w.1) | inr w' ↦ inr (w.0, w'.1) ]
  ]

  pub grey-After : (c c' : Colors) (k : List ℕ) → After c c' → c' k ≡ grey → c k ≡ grey
  grey-After c c' k h e = elim (h k) [
    | inl s ↦ sym s ∙ e
    | inr w ↦ absurd (black_grey (sym w.1 ∙ e))
  ]

  pub After-grey : (c c' : Colors) (k : List ℕ) → After c c' → c k ≡ grey → c' k ≡ grey
  After-grey c c' k h e = elim (h k) [ inl s ↦ s ∙ e | inr w ↦ absurd (white_grey (sym w.0 ∙ e)) ]

  pub After-black : (c c' : Colors) (k : List ℕ) → After c c' → c k ≡ black → c' k ≡ black
  After-black c c' k h e = elim (h k) [ inl s ↦ s ∙ e | inr w ↦ w.1 ]

  pub whites-After : (c c' : Colors) (rest : Outgoing) → After c c' → whites c' rest ≤ whites c rest
  whites-After c c' [] h = omega arith
  whites-After c c' ((k, ts) ∷ rest) h = elim (h k) [
    | inl e ↦ rw (e) (ground (arith, whites-After c c' rest h))
    | inr w ↦ rw (w.0, w.1) (omega (arith, whites-After c c' rest h))
  ]

  pub whites_key :
      (c : Colors) (n : List ℕ) (rest : Outgoing)
      → has_key rest n ≡ true
      → c n ≡ white
      → 1 ≤ whites c rest
  whites_key c n [] h w = absurd (true≢false (sym h))
  whites_key c n ((k, ts) ∷ rest) h w = elim (Bool-cases (same_text k n)) [
    | inl e ↦ rw (ap c (same_text_eq k n e) ∙ w) (omega arith)
    | inr e ↦
        let later : 1 ≤ whites c rest = whites_key c n rest (rw (e) at h) w in ground (arith, later)
  ]

  pub paint_here : (c : Colors) (n : List ℕ) (x : Color) → paint c n x n ≡ x
  paint_here c n x = rw (same_text_refl n) refl

  whites-paint :
      (c : Colors) (n : List ℕ) (rest : Outgoing) → whites (paint c n grey) rest ≤ whites c rest
  whites-paint c n [] = omega arith
  whites-paint c n ((k, ts) ∷ rest) = ground (arith, whites-paint c n rest)

  pub whites-paint_key :
      (c : Colors) (n : List ℕ) (rest : Outgoing)
      → has_key rest n ≡ true
      → c n ≡ white
      → whites (paint c n grey) rest < whites c rest
  whites-paint_key c n [] h w = absurd (true≢false (sym h))
  whites-paint_key c n ((k, ts) ∷ rest) h w = elim (Bool-cases (same_text k n)) [
    | inl e ↦ rw (e, ap c (same_text_eq k n e) ∙ w) (omega (arith, whites-paint c n rest))
    | inr e ↦
        let later : whites (paint c n grey) rest < whites c rest =
          whites-paint_key c n rest (rw (e) at h) w in
        rw (e) (ground (arith, later))
  ]
