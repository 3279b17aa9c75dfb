-- ===== src/Snapshots/Graph/Search.antt =====
-- The whole search for a cycle.
use partha.Prelude.{
  ℕ, ◌≤◌, ◌<◌, ◌≡◌, ◌≢◌, refl, sym, true, List, [], ◌∷◌, length, if◌then◌else◌, arith, inl, inr,
  IsIn, Bool-cases, ◌↔◌,
}
use mathlib.Core.Bool.{true≢false}
use mathlib.Core.Path.{subst}
use partha.Text.{same_text}
use partha.Text.Laws.{same_text_eq, same_text_refl}
use partha.Snapshots.Graph.{
  grey, black, Colors, Outgoing, get, targets_of, has_key, Visit, done, cycle, exhausted, and_then,
  visit, is_white, visit_all, all_white, detect_cycle,
}
use partha.Snapshots.Graph.Acyclic.{
  Way, one, more, HasCycle, IsKey, After, Ranked, whites, white_grey, white_black, After-refl,
  After-trans, grey-After, After-black, whites-After,
}
use partha.Snapshots.Graph.Visits.{Color-cases, Visited, visit_lem}

done_cycle : (c : Colors) → done c ≢ cycle
done_cycle c h = cc

done_exhausted : (c : Colors) → done c ≢ exhausted
done_exhausted c h = cc

cycle_exhausted : cycle ≢ exhausted
cycle_exhausted h = cc

module _ (g : Outgoing) where
  -- Keys that the search has gone through.
  abbrev Searched : Colors → Outgoing → Visit → Type 0
  Searched c rest (done c') =
      After g c c' × Ranked g c' × ((k : List ℕ) → has_key rest k ≡ true → c' k ≡ black)
  Searched c rest cycle = HasCycle g
  Searched c rest exhausted = ⊥

  widen :
      (c c' : Colors) (n : List ℕ) (ts : List (List ℕ)) (rest : Outgoing) (v : Visit)
      → After g c c'
      → c' n ≡ black
      → Searched c' rest v
      → Searched c ((n, ts) ∷ rest) v
  widen c c' n ts rest (done d) a b h = (
    After-trans g c c' d a h.0,
    h.1,
    λ k key. elim (Bool-cases (same_text n k)) [
      | inl e ↦
          subst (λ (x : List ℕ). d x ≡ black) (same_text_eq n k e) (After-black g c' d n h.0 b)
      | inr e ↦ h.2 k (rw (e) at key)
    ],
  )
  widen c c' n ts rest cycle a b h = h
  widen c c' n ts rest exhausted a b h = elim h [ ]

  Searched-and_then :
      (c : Colors) (n : List ℕ) (ts : List (List ℕ)) (rest : Outgoing) (v : Visit)
      (f : Colors → Visit)
      → Visited g c n v
      → ((c' : Colors) → After g c c' → Ranked g c' → Searched c' rest (f c'))
      → Searched c ((n, ts) ∷ rest) (and_then v f)
  Searched-and_then c n ts rest (done c') f h k = widen c c' n ts rest (f c') h.0 h.1 (k c' h.0 h.2)
  Searched-and_then c n ts rest cycle f h k = h
  Searched-and_then c n ts rest exhausted f h k = elim h [ ]

  step :
      (c : Colors) (n : List ℕ)
      → whites g c g ≤ length g
      → Ranked g c
      → ((k : List ℕ) → c k ≢ grey)
      → IsKey g n
      → Visited g c n (if is_white (c n) then visit g (length g) c n else done c)
  step c n enough ranked calm key = elim (Color-cases (c n)) [
    | inl w ↦ rw (w) (visit_lem g (length g) c n w key enough ranked (λ k q. absurd (calm k q)))
    | inr (inl q) ↦ absurd (calm n q)
    | inr (inr b) ↦ rw (b) (After-refl g c, b, ranked)
  ]

  search_lem :
      (c : Colors) (rest : Outgoing)
      → whites g c g ≤ length g
      → Ranked g c
      → ((k : List ℕ) → c k ≢ grey)
      → ((k : List ℕ) → has_key rest k ≡ true → IsKey g k)
      → Searched c rest (visit_all g (length g) c rest)
  unfolding visit_all
  search_lem c [] enough ranked calm keys =
      (After-refl g c, ranked, λ k h. absurd (true≢false (sym h)))
  search_lem c ((n, ts) ∷ rest) enough ranked calm keys =
      Searched-and_then c n ts rest (if is_white (c n) then visit g (length g) c n else done c)
        (λ c'. visit_all g (length g) c' rest)
        (step c n enough ranked calm (keys n (rw (same_text_refl n) refl)))
        (λ c' a r.
          search_lem c' rest (omega (arith, enough, whites-After g c c' g a)) r
            (λ k q. calm k (grey-After g c c' k a q))
            (λ k h.
              keys k
                (elim (Bool-cases (same_text n k)) [ inl e ↦ rw (e) refl | inr e ↦ rw (e) h ])))

  all_whites : (rest : Outgoing) → whites g all_white rest ≤ length rest
  all_whites [] = omega arith
  all_whites ((n, ts) ∷ rest) = omega (arith, all_whites rest)

  Ranked-all_white : Ranked g all_white
  Ranked-all_white = record { rank = λ k. 0; lower = λ k t b e key. absurd (white_black b) }

  detected : Searched all_white g (detect_cycle g)
  unfolding detect_cycle
  detected = search_lem all_white g (all_whites g) Ranked-all_white (λ k q. white_grey q) (λ k h. h)

  IsKey-get :
      (rest : Outgoing) (a b : List ℕ) → IsIn b (targets_of (get rest a)) → has_key rest a ≡ true
  IsKey-get [] a b i = absurd i
  IsKey-get ((n, ts) ∷ rest) a b i = elim (Bool-cases (same_text n a)) [
    | inl e ↦ rw (e) refl
    | inr e ↦ rw (e) (IsKey-get rest a b (rw (e) at i))
  ]

  Way-IsKey : {a b : List ℕ} → Way g a b → IsKey g a
  Way-IsKey (one {b} e) = IsKey-get g _ b e
  Way-IsKey (more w e) = Way-IsKey w

  Way-lower :
      {a b : List ℕ} (c : Colors) (ranked : Ranked g c)
      → ((k : List ℕ) → IsKey g k → c k ≡ black)
      → Way g a b
      → IsKey g b
      → ranked.rank b < ranked.rank a
  Way-lower {a} c ranked all (one {b} e) key =
      (ranked.lower a b (all a (IsKey-get g a b e)) e key).1
  Way-lower {a} c ranked all (more {b} {c = d} w e) key =
      let middle : IsKey g b = IsKey-get g b d e in
      omega (arith, Way-lower c ranked all w middle, (ranked.lower b d (all b middle) e key).1)

  -- A ranking of all keys leaves no cycle.
  no_cycle : (c : Colors) → Ranked g c → ((k : List ℕ) → IsKey g k → c k ≡ black) → HasCycle g → ⊥
  no_cycle c ranked all (k, w) = absurd (omega (arith, Way-lower c ranked all w (Way-IsKey w)))

  decided : (v : Visit) → Searched all_white g v → ((v ≡ cycle) ↔ HasCycle g) × (v ≢ exhausted)
  decided (done c) h =
      ((λ e. absurd (done_cycle c e), λ w. absurd (no_cycle c h.1 h.2 w)), done_exhausted c)
  decided cycle h = ((λ _. h, λ _. refl), cycle_exhausted)
  decided exhausted h = elim h [ ]

-- The search raises exactly where the derivations have a cycle, and never runs out of the fuel of one unit a key.
pub detect_cycle_lem :
    (g : Outgoing) → ((detect_cycle g ≡ cycle) ↔ HasCycle g) × (detect_cycle g ≢ exhausted)
detect_cycle_lem g = decided g (detect_cycle g) (detected g)
