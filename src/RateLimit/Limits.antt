-- ===== src/RateLimit/Limits.antt =====
-- The fixed window.
use partha.Prelude.{
  ℕ, ◌+◌, ◌-◌, ◌≤◌, ◌<◌, ◌≡◌, refl, sym, ◌∙◌, true, false, ◌&&◌, Option, none, some, List, [], ◌∷◌,
  leb, min, if◌then◌else◌, arith, Bool-cases, inl, inr, coalesce, All,
}
use mathlib.Core.Path.{subst}
use partha.Jobs.{seconds}
use partha.Text.{same_text}
use partha.Text.Laws.{same_text_refl, same_text_eq}
use partha.RateLimit.{Window, Windows, lookup, store, current, ceil_seconds, at_least_one, hit}

pub lookup-store_self :
    (key : List ℕ) (w : Window) (ws : Windows) → lookup key (store key w ws) ≡ some w
lookup-store_self key w [] = rw (same_text_refl key) refl
lookup-store_self key w ((k, v) ∷ rest) = ground (arith, lookup-store_self key w rest)

lookup-store_other :
    (key other : List ℕ) (w : Window) (ws : Windows)
    → same_text other key ≡ false
    → lookup key (store other w ws) ≡ lookup key ws
lookup-store_other key other w [] ne = rw ne refl
lookup-store_other key other w ((k, v) ∷ rest) ne = elim (Bool-cases (same_text k other)) [
  | inl e ↦ rw (e, same_text_eq k other e, ne) refl
  | inr e ↦ rw (e, lookup-store_other key other w rest ne) refl
]

-- How many requests of a key a run of hits lets through, each at its time and under its key.
abbrev pub served : ℕ → ℕ → List ℕ → Windows → List (ℕ × List ℕ) → ℕ
served limit window_seconds key windows [] = 0
served limit window_seconds key windows ((now, k) ∷ rest) =
    let ((count, _), after) = hit now k window_seconds windows in
    let others = served limit window_seconds key after rest in
    if same_text k key && leb count limit then others + 1 else others

abbrev pub hits_of : List ℕ → List (ℕ × List ℕ) → ℕ
hits_of key [] = 0
hits_of key ((now, k) ∷ rest) = (if same_text k key then 1 else 0) + hits_of key rest

-- A hit within the window of its key.
pub hit_inside :
    (now : ℕ) (key : List ℕ) (window_seconds : ℕ) (windows : Windows) (w : Window)
    → lookup key windows ≡ some w
    → now - w.start < seconds window_seconds
    → ((hit now key window_seconds windows).0.0 ≡ w.count + 1)
      × (lookup key (hit now key window_seconds windows).1
          ≡ some (record { start = w.start; count = w.count + 1 }))
unfolding hit
hit_inside now key window_seconds windows w found inside =
    let open_window : (current now window_seconds w) ≡ w = ground arith in
    rw (found, open_window)
      (refl, lookup-store_self key (record { start = w.start; count = w.count + 1 }) windows)

hit_same :
    (now : ℕ) (key k : List ℕ) (window_seconds : ℕ) (windows : Windows) (w : Window)
    → same_text k key ≡ true
    → lookup key windows ≡ some w
    → now - w.start < seconds window_seconds
    → ((hit now k window_seconds windows).0.0 ≡ w.count + 1)
      × (lookup key (hit now k window_seconds windows).1
          ≡ some (record { start = w.start; count = w.count + 1 }))
hit_same now key k window_seconds windows w e found inside =
    subst
      (λ t.
        ((hit now t window_seconds windows).0.0 ≡ w.count + 1)
        × (lookup key (hit now t window_seconds windows).1
            ≡ some (record { start = w.start; count = w.count + 1 })))
      (sym (same_text_eq k key e)) (hit_inside now key window_seconds windows w found inside)

one_more :
    (count limit hits : ℕ)
    → (if leb (count + 1) limit
        then min hits (limit - (count + 1)) + 1
        else min hits (limit - (count + 1)))
      ≡ min (1 + hits) (limit - count)
one_more count limit hits = ground arith

pub hit_other :
    (now : ℕ) (key other : List ℕ) (window_seconds : ℕ) (windows : Windows)
    → same_text other key ≡ false
    → lookup key (hit now other window_seconds windows).1 ≡ lookup key windows
unfolding hit
hit_other now key other window_seconds windows ne = lookup-store_other key other _ windows ne

-- While the window of a key lasts, exactly as many more of its requests are let through as its
-- counter is below the limit, whatever comes between them under other keys; the window that the key
-- has is in the table, and each request falls within it.
pub served_lem :
    (limit window_seconds : ℕ) (key : List ℕ) (w : Window) (windows : Windows)
    (requests : List (ℕ × List ℕ))
    → lookup key windows ≡ some w
    → All (λ r. r.0 - w.start < seconds window_seconds) requests
    → served limit window_seconds key windows requests
      ≡ min (hits_of key requests) (limit - w.count)
served_lem limit window_seconds key w windows [] found inside = ground arith
served_lem limit window_seconds key w windows ((now, k) ∷ rest) found (here, inside) =
    elim (Bool-cases (same_text k key)) [
      | inl e ↦
          let (counted, found_after) = hit_same now key k window_seconds windows w e found here in
          let later =
            served_lem limit window_seconds key (record { start = w.start; count = w.count + 1 })
              (hit now k window_seconds windows).1 rest found_after inside in
          rw (e, counted, later) (one_more w.count limit (hits_of key rest))
      | inr e ↦
          let others =
            served_lem limit window_seconds key w (hit now k window_seconds windows).1 rest
              (hit_other now key k window_seconds windows e ∙ found) inside in
          rw (e, others) (ground arith)
    ]

ceil_covers : (d : ℕ) → d ≤ seconds (at_least_one (ceil_seconds d))
ceil_covers d = ground arith

current-start :
    (now window_seconds : ℕ) (w : Window)
    → w.start ≤ now
    → (current now window_seconds w).start ≤ now
current-start now window_seconds w h = ground arith

started :
    (now : ℕ) (o : Option Window)
    → ((w : Window) → o ≡ some w → w.start ≤ now)
    → (coalesce o (record { start = now; count = 0 })).start ≤ now
started now none past = ground arith
started now (some w) past = past w refl

waited :
    (length now start wait : ℕ)
    → start ≤ now
    → length - (now - start) ≤ wait
    → length ≤ (now + wait) - start
waited length now start wait h c = ground arith

-- Where the clock has not gone back behind the start of the key's window, a hit is told to come back
-- within the window's length, after at least a second; and by then its window is over. The window
-- lasts at least a second.
pub hit-retry_after :
    (now : ℕ) (key : List ℕ) (window_seconds : ℕ) (windows : Windows)
    → 1 ≤ window_seconds
    → ((w : Window) → lookup key windows ≡ some w → w.start ≤ now)
    → let ((_, retry_after), after) = hit now key window_seconds windows in
      (1 ≤ retry_after)
      × (retry_after ≤ window_seconds)
      × (w : Window) × (lookup key after ≡ some w)
      × (seconds window_seconds ≤ (now + seconds retry_after) - w.start)
unfolding hit
hit-retry_after now key window_seconds windows long past =
    let w =
      current now window_seconds
        (coalesce (lookup key windows) (record { start = now; count = 0 })) in
    let not_later = current-start now window_seconds _ (started now (lookup key windows) past) in
    (
      ground arith,
      ground arith,
      record { start = w.start; count = w.count + 1 },
      lookup-store_self key (record { start = w.start; count = w.count + 1 }) windows,
      waited (seconds window_seconds) now w.start _ not_later
          (ceil_covers (seconds window_seconds - (now - w.start))),
    )
