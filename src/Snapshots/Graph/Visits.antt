-- ===== src/Snapshots/Graph/Visits.antt =====
-- What a visit, a scan of targets and the whole search come to.
use partha.Prelude.{
  ℕ, zero, suc, ◌+◌, ◌≤◌, ◌<◌, ◌≡◌, ◌≢◌, refl, sym, ap, ◌∙◌, false, List, [], ◌∷◌, if◌then◌else◌,
  arith, ◌⊎◌, inl, inr, IsIn, Bool-cases,
}
use mathlib.Core.Bool.{true≢false}
use mathlib.Core.Path.{subst}
use partha.Text.{same_text}
use partha.Text.Laws.{same_text_eq}
use partha.Snapshots.Graph.{
  Color, white, grey, black, Colors, Outgoing, get, targets_of, has_key, paint, Visit, done, cycle,
  exhausted, and_then, meet, scan, visit,
}
use partha.Snapshots.Graph.Acyclic.{
  Edge, one, more, HasCycle, IsKey, After, Ranked, Chain, whites, black_grey, white_black,
  After-refl, After-trans, grey-After, After-grey, After-black, whites-After, whites_key,
  paint_here, whites-paint_key,
}

pub Color-cases : (x : Color) → (x ≡ white) ⊎ ((x ≡ grey) ⊎ (x ≡ black))
Color-cases white = inl refl
Color-cases grey = inr (inl refl)
Color-cases black = inr (inr refl)

not_same :
    (c : Colors) (k n : List ℕ) (x y : Color) → c n ≡ x → c k ≡ y → x ≢ y → same_text k n ≡ false
not_same c k n x y hn hk d = elim (Bool-cases (same_text k n)) [
  | inl e ↦ absurd (d (sym hn ∙ ap c (sym (same_text_eq k n e)) ∙ hk))
  | inr e ↦ e
]

module _ (g : Outgoing) where
  -- A key that was visited; one target that was met; targets that were scanned.
  abbrev pub Visited : Colors → List ℕ → Visit → Type 0
  Visited c n (done c') = After g c c' × (c' n ≡ black) × Ranked g c'
  Visited c n cycle = HasCycle g
  Visited c n exhausted = ⊥

  abbrev Met : Colors → List ℕ → Visit → Type 0
  Met c t (done c') = After g c c' × Ranked g c' × (IsKey g t → c' t ≡ black)
  Met c t cycle = HasCycle g
  Met c t exhausted = ⊥

  abbrev Scanned : Colors → List (List ℕ) → Visit → Type 0
  Scanned c ts (done c') =
      After g c c' × Ranked g c' × ((t : List ℕ) → IsIn t ts → IsKey g t → c' t ≡ black)
  Scanned c ts cycle = HasCycle g
  Scanned c ts exhausted = ⊥

  abbrev pub VisitLaw : ℕ → (Colors → List ℕ → Visit) → Type 0
  VisitLaw fuel recur =
      (c : Colors) (n : List ℕ)
      → c n ≡ white
      → IsKey g n
      → whites g c g ≤ fuel
      → Ranked g c
      → Chain g c n
      → Visited c n (recur c n)

  Met-Visited : (c : Colors) (t : List ℕ) (v : Visit) → Visited c t v → Met c t v
  Met-Visited c t (done c') h = (h.0, h.2, λ _. h.1)
  Met-Visited c t cycle h = h
  Met-Visited c t exhausted h = elim h [ ]

  widen :
      (c c' : Colors) (t : List ℕ) (ts : List (List ℕ)) (v : Visit)
      → After g c c'
      → (IsKey g t → c' t ≡ black)
      → Scanned c' ts v
      → Scanned c (t ∷ ts) v
  widen c c' t ts (done d) a b h = (
    After-trans g c c' d a h.0,
    h.1,
    λ k i key. elim i [
      | inl e ↦
          After-black g c' d k h.0
            (subst (λ (x : List ℕ). c' x ≡ black) e (b (subst (IsKey g) (sym e) key)))
      | inr later ↦ h.2 k later key
    ],
  )
  widen c c' t ts cycle a b h = h
  widen c c' t ts exhausted a b h = elim h [ ]

  Scanned-and_then :
      (c : Colors) (t : List ℕ) (ts : List (List ℕ)) (v : Visit) (f : Colors → Visit)
      → Met c t v
      → ((c' : Colors) → After g c c' → Ranked g c' → Scanned c' ts (f c'))
      → Scanned c (t ∷ ts) (and_then v f)
  Scanned-and_then c t ts (done c') f h k = widen c c' t ts (f c') h.0 h.2 (k c' h.0 h.1)
  Scanned-and_then c t ts cycle f h k = h
  Scanned-and_then c t ts exhausted f h k = elim h [ ]

  module _ (fuel : ℕ) (recur : Colors → List ℕ → Visit) (law : VisitLaw fuel recur)
      (n : List ℕ) where
    met :
        (c : Colors) (t : List ℕ)
        → c n ≡ grey
        → whites g c g ≤ fuel
        → Ranked g c
        → Chain g c n
        → Edge g n t
        → Met c t (meet (c t) (has_key g t) (recur c t) (done c))
    met c t here enough ranked chain e = elim (Color-cases (c t)) [
      | inl w ↦ elim (Bool-cases (has_key g t)) [
        | inl key ↦
            rw (w, key)
              (Met-Visited c t (recur c t) (
                law c t w key enough ranked (λ k q. elim (chain k q) [
                  | inl same ↦ inr (one (subst (λ (x : List ℕ). Edge g x t) (sym same) e))
                  | inr way ↦ inr (more way e)
                ])))
        | inr sink ↦
            rw (w, sink) (After-refl g c, ranked, λ key. absurd (true≢false (sym key ∙ sink)))
      ]
      | inr (inl q) ↦ rw (q) (elim (chain t q) [
        | inl same ↦ (n, one (subst (Edge g n) same e))
        | inr way ↦ (t, more way e)
      ])
      | inr (inr b) ↦ rw (b) (After-refl g c, ranked, λ _. b)
    ]

    scan_lem :
        (c : Colors) (ts : List (List ℕ))
        → c n ≡ grey
        → whites g c g ≤ fuel
        → Ranked g c
        → Chain g c n
        → ((t : List ℕ) → IsIn t ts → Edge g n t)
        → Scanned c ts (scan g recur c ts)
    unfolding scan
    scan_lem c [] here enough ranked chain edges = (After-refl g c, ranked, λ t i key. absurd i)
    scan_lem c (t ∷ ts) here enough ranked chain edges =
        Scanned-and_then c t ts (meet (c t) (has_key g t) (recur c t) (done c))
          (λ c'. scan g recur c' ts) (met c t here enough ranked chain (edges t (inl refl)))
          (λ c' a r.
            scan_lem c' ts (After-grey g c c' n a here)
              (omega (arith, enough, whites-After g c c' g a)) r
              (λ k q. chain k (grey-After g c c' k a q)) (λ t' i. edges t' (inr i)))

  -- A rank above those of the targets.
  highest : (List ℕ → ℕ) → List (List ℕ) → ℕ
  highest rank [] = 0
  highest rank (t ∷ ts) = rank t + highest rank ts

  below :
      (rank : List ℕ → ℕ) (t : List ℕ) (ts : List (List ℕ)) → IsIn t ts → rank t ≤ highest rank ts
  unfolding highest
  below rank t [] i = absurd i
  below rank t (s ∷ ts) i = elim i [
    | inl e ↦ rw (ap rank (sym e)) (omega arith)
    | inr later ↦ omega (arith, below rank t ts later)
  ]

  abbrev targets : List ℕ → List (List ℕ)
  targets n = targets_of (get g n)

  -- Blackening a node whose targets are black.
  Ranked-paint :
      (c : Colors) (n : List ℕ)
      → c n ≡ grey
      → Ranked g c
      → ((t : List ℕ) → Edge g n t → IsKey g t → c t ≡ black)
      → Ranked g (paint c n black)
  Ranked-paint c n here ranked blackened = record {
    rank = λ k. if same_text k n then suc (highest ranked.rank (targets n)) else ranked.rank k;
    lower = λ k t b e key. elim (Bool-cases (same_text k n)) [
      | inl same ↦
          let e' : Edge g n t = subst (λ (x : List ℕ). Edge g x t) (same_text_eq k n same) e in
          let bt : c t ≡ black = blackened t e' key in
          let apart : same_text t n ≡ false =
            not_same c t n grey black here bt (λ q. black_grey (sym q)) in
          rw (same, apart) (bt, omega (arith, below ranked.rank t (targets n) e'))
      | inr other ↦
          let old : (c t ≡ black) × (ranked.rank t < ranked.rank k) =
            ranked.lower k t (rw (other) at b) e key in
          let apart : same_text t n ≡ false =
            not_same c t n grey black here old.0 (λ q. black_grey (sym q)) in
          rw (other, apart) old
    ];
  }

  finish :
      (c : Colors) (n : List ℕ) (v : Visit)
      → c n ≡ white
      → Scanned (paint c n grey) (targets n) v
      → Visited c n (and_then v (λ c'. done (paint c' n black)))
  finish c n (done c') w h =
      let here : c' n ≡ grey = After-grey g (paint c n grey) c' n h.0 (paint_here g c n grey) in
      (
        (λ k. elim (Bool-cases (same_text k n)) [
          | inl same ↦ rw (same) (inr (ap c (same_text_eq k n same) ∙ w, refl))
          | inr other ↦
              let a : (c' k ≡ paint c n grey k) ⊎ ((paint c n grey k ≡ white) × (c' k ≡ black)) =
                h.0 k in
              rw (other) (rw (other) at a)
        ]),
        paint_here g c' n black,
        Ranked-paint c' n here h.1 h.2,
      )
  finish c n cycle w h = h
  finish c n exhausted w h = elim h [ ]

  Ranked-start : (c : Colors) (n : List ℕ) → c n ≡ white → Ranked g c → Ranked g (paint c n grey)
  Ranked-start c n w ranked = record {
    rank = ranked.rank;
    lower = λ k t b e key. elim (Bool-cases (same_text k n)) [
      | inl same ↦ absurd (black_grey (sym (rw (same) at b)))
      | inr other ↦
          let old : (c t ≡ black) × (ranked.rank t < ranked.rank k) =
            ranked.lower k t (rw (other) at b) e key in
          rw (not_same c t n white black w old.0 white_black) old
    ];
  }

  Chain-start : (c : Colors) (n : List ℕ) → Chain g c n → Chain g (paint c n grey) n
  Chain-start c n chain k q = elim (Bool-cases (same_text k n)) [
    | inl same ↦ inl (same_text_eq k n same)
    | inr other ↦ chain k (rw (other) at q)
  ]

  pub visit_lem : (fuel : ℕ) → VisitLaw fuel (visit g fuel)
  unfolding visit
  visit_lem zero c n w key enough ranked chain =
      absurd (omega (arith, enough, whites_key g c n g key w))
  visit_lem (suc fuel) c n w key enough ranked chain =
      finish c n (scan g (visit g fuel) (paint c n grey) (targets n)) w (
        scan_lem fuel (visit g fuel) (visit_lem fuel) n (paint c n grey) (targets n)
          (paint_here g c n grey) (omega (arith, enough, whites-paint_key g c n g key w))
          (Ranked-start c n w ranked) (Chain-start c n chain) (λ t i. i))
