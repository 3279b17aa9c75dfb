-- ===== src/RateLimit.antt =====
-- apps/backend/app/core/rate_limit.py: the budget class of a request, the fixed-window counters in
-- process memory, and the middleware's decision. Texts are lists of code points. The monotonic clock
-- counts microseconds and each reading is an argument; so is the user id that a valid access token
-- names, since the token is checked by a third-party library, and the peer's address. The store in
-- Redis is not modelled, but for its being unreachable, which is the argument `unavailable`.
pub mod Limits
pub mod Routes
pub mod Dispatch
use partha.Prelude.{
  ℕ, ◌+◌, ◌-◌, ◌/◌, Bool, true, false, not, ◌&&◌, ◌||◌, Option, none, some, List, [], ◌∷◌, ◌++◌,
  ◌==◌, leb, ltb, coalesce, if◌then◌else◌,
}
use partha.Prelude.Text.{codes}
use partha.Text.{same_text, one_of, starts_with, ends_with}
use partha.Jobs.{seconds}

pub data BudgetClass : Type 0 where
  auth ai heavy default : BudgetClass

abbrev pub is_exempt : List ℕ → Bool
is_exempt path =
    one_of path (codes "/health" ∷ codes "/ready" ∷ codes "/metrics" ∷ [])
    || starts_with path (codes "/docs")
    || starts_with path (codes "/redoc")
    || starts_with path (codes "/openapi.json")

abbrev pub is_heavy : List ℕ → Bool
is_heavy path =
    one_of path (
      codes "/repositories/upload"
      ∷ codes "/repositories/github"
      ∷ codes "/documentation/generate"
      ∷ codes "/export"
      ∷ [])
    || (starts_with path (codes "/analysis/") && ends_with path (codes "/start"))

unfoldable pub classify : List ℕ → List ℕ → Option BudgetClass
classify method path =
    if same_text method (codes "OPTIONS") || is_exempt path
    then none
    else if same_text method (codes "POST")
        && one_of path (codes "/auth/login" ∷ codes "/auth/register" ∷ codes "/waitlist" ∷ [])
    then some auth
    else if same_text path (codes "/ai") || starts_with path (codes "/ai/")
    then some ai
    else if same_text method (codes "POST") && is_heavy path
    then some heavy
    else some default

abbrev pub resolve_rate_key : Option (List ℕ) → Option (List ℕ) → List ℕ
resolve_rate_key (some user_id) host = codes "user:" ++ user_id
resolve_rate_key none host = codes "ip:" ++ coalesce host (codes "unknown")

-- The value under a key of `_windows`.
pub record Window : Type 0 where
  pub start : ℕ
  pub count : ℕ

abbrev pub Windows : Type 0
Windows = List (List ℕ × Window)

-- `dict.get`
abbrev pub lookup : List ℕ → Windows → Option Window
lookup key [] = none
lookup key ((k, w) ∷ rest) = if same_text k key then some w else lookup key rest

-- `dict[key] = window`
abbrev pub store : List ℕ → Window → Windows → Windows
store key window [] = (key, window) ∷ []
store key window ((k, w) ∷ rest) =
    let after = store key window rest in
    if same_text k key then (k, window) ∷ rest else (k, w) ∷ after

-- The window that a hit counts in.
abbrev pub current : ℕ → ℕ → Window → Window
current now window_seconds w =
    if leb (seconds window_seconds) (now - w.start) then record { start = now; count = 0 } else w

-- `max(1, ceil(...))` of a time in microseconds, in seconds.
abbrev pub ceil_seconds : ℕ → ℕ
ceil_seconds d = (d + 999999) / 1000000

abbrev pub at_least_one : ℕ → ℕ
at_least_one n = if leb 1 n then n else 1

-- The count and the seconds to the next window.
unfoldable pub hit : ℕ → List ℕ → ℕ → Windows → (ℕ × ℕ) × Windows
hit now key window_seconds windows =
    let w =
      current now window_seconds
        (coalesce (lookup key windows) (record { start = now; count = 0 })) in
    let count = w.count + 1 in
    let retry_after = at_least_one (ceil_seconds (seconds window_seconds - (now - w.start))) in
    ((count, retry_after), store key (record { start = w.start; count = count }) windows)

pub record Settings : Type 0 where
  pub rate_limit_enabled : Bool
  pub rate_limit_auth_per_minute : ℕ
  pub rate_limit_ai_per_minute : ℕ
  pub rate_limit_heavy_per_minute : ℕ
  pub rate_limit_default_per_minute : ℕ

abbrev pub budget : Settings → BudgetClass → ℕ
budget settings auth = settings.rate_limit_auth_per_minute
budget settings ai = settings.rate_limit_ai_per_minute
budget settings heavy = settings.rate_limit_heavy_per_minute
budget settings default = settings.rate_limit_default_per_minute

abbrev pub class_name : BudgetClass → List ℕ
class_name auth = codes "auth"
class_name ai = codes "ai"
class_name heavy = codes "heavy"
class_name default = codes "default"

-- What the middleware needs of a request: the user id is that of a valid access token.
pub record Request : Type 0 where
  pub method : List ℕ
  pub path : List ℕ
  pub user_id : Option (List ℕ)
  pub host : Option (List ℕ)

-- The request goes on to the application, or is answered with 429 and its `Retry-After`.
pub data Response : Type 0 where
  passed : Response
  rate_limited : ℕ → Response

abbrev pub bucket : Request → BudgetClass → List ℕ
bucket request c = class_name c ++ codes ":" ++ resolve_rate_key request.user_id request.host

unfoldable pub charge : Settings → Request → BudgetClass → ℕ → Windows → Response × Windows
charge settings request c now windows =
    let ((count, retry_after), after) = hit now (bucket request c) 60 windows in
    (if leb (count) (budget settings c) then passed else rate_limited retry_after, after)

unfoldable pub dispatch : Settings → Request → Bool → ℕ → Windows → Response × Windows
unfolding charge
dispatch settings request unavailable now windows =
    if not settings.rate_limit_enabled
    then (passed, windows)
    else elim (classify request.method request.path) [
      | none ↦ (passed, windows)
      | some c ↦ if unavailable then (passed, windows) else charge settings request c now windows
    ]
