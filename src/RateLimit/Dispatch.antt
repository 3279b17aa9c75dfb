-- ===== src/RateLimit/Dispatch.antt =====
-- The decision of the middleware.
use partha.Prelude.{
  ℕ, ◌+◌, ◌-◌, ◌≤◌, ◌<◌, ◌≡◌, ◌≢◌, ◌⊎◌, Bool, true, false, Option, none, some, List, ◌++◌, coalesce,
}
use partha.Prelude.Text.{codes}
use partha.Jobs.{seconds}
use partha.RateLimit.{
  Window, Windows, lookup, current, Settings, Request, Response, passed, rate_limited,
}
use partha.RateLimit.Routes.{IsExempt, HasBudget}

-- Who a budget is charged against: the user of a valid token, or else the peer.
pub data Identifies (q : Request) : List ℕ → Type 0 where
  signed_in : (id : List ℕ) → q.user_id ≡ some id → Identifies q (codes "user:" ++ id)
  peer :
      q.user_id ≡ none → (host : List ℕ) → q.host ≡ some host → Identifies q (codes "ip:" ++ host)
  unknown_peer : q.user_id ≡ none → q.host ≡ none → Identifies q (codes "ip:" ++ codes "unknown")

-- The window of a key after a request: the open one goes on, and a new one starts where there is none
-- or a minute is over.
pub data Counts (now : ℕ) (key : List ℕ) (windows : Windows) : Window → Type 0 where
  goes_on :
      (w : Window)
      → lookup key windows ≡ some w
      → now - w.start < seconds 60
      → Counts now key windows (record { start = w.start; count = w.count + 1 })
  starts_again :
      (w : Window)
      → lookup key windows ≡ some w
      → seconds 60 ≤ now - w.start
      → Counts now key windows (record { start = now; count = 1 })
  starts : lookup key windows ≡ none → Counts now key windows (record { start = now; count = 1 })

-- A request is counted in the window of its key, and let through exactly while the count is within the
-- limit; else it is told to come back within a minute. The windows of other keys stay as they are.
pub record IsCharged (now limit : ℕ) (key : List ℕ) (windows : Windows) (response : Response)
    (after : Windows) : Type 0 where
  pub window : Window
  pub counts : Counts now key windows window
  pub stored : lookup key after ≡ some window
  pub others : (other : List ℕ) → key ≢ other → lookup other after ≡ lookup other windows
  pub decision :
      ((window.count ≤ limit) × (response ≡ passed))
      ⊎ ((limit < window.count)
          × (wait : ℕ) × (response ≡ rate_limited wait)
          × (1 ≤ wait)
          × (wait ≤ 60))

-- The branches of the middleware.
pub data IsAnswered (s : Settings) (q : Request) (unavailable : Bool) (now : ℕ) (windows : Windows)
    : Response → Windows → Type 0 where
  switched_off :
      s.rate_limit_enabled ≡ false → IsAnswered s q unavailable now windows passed windows
  exempted :
      s.rate_limit_enabled ≡ true
      → IsExempt q
      → IsAnswered s q unavailable now windows passed windows
  degraded :
      s.rate_limit_enabled ≡ true
      → ¬ IsExempt q
      → unavailable ≡ true
      → IsAnswered s q unavailable now windows passed windows
  charged :
      s.rate_limit_enabled ≡ true
      → ¬ IsExempt q
      → unavailable ≡ false
      → (name : List ℕ) (limit : ℕ) → HasBudget s q name limit
      → (identity : List ℕ) → Identifies q identity
      → {response : Response} {after : Windows}
      → IsCharged now limit (name ++ codes ":" ++ identity) windows response after
      → IsAnswered s q unavailable now windows response after

-- The window that a hit leaves.
abbrev counted : ℕ → Option Window → Window
counted now o =
    let w = current now 60 (coalesce o (record { start = now; count = 0 })) in
    record { start = w.start; count = w.count + 1 }
