-- ===== src/Tests/Limits.antt =====
-- The rate limiter at a user who has sent two requests since the second 100.
use partha.Prelude.{ℕ, ◌+◌, ◌-◌, ◌≤◌, ◌≡◌, refl, true, false, some, List, [], ◌∷◌, arith}
use partha.Prelude.Text.{codes}
use partha.Jobs.{seconds}
use partha.RateLimit.{
  heavy, Window, Windows, lookup, hit, Settings, Request, passed, bucket, dispatch, charge,
  classify,
}
use partha.RateLimit.Limits.{served, served_lem, hit-retry_after}

abbrev upload : Request
upload = record {
  method = codes "POST";
  path = codes "/repositories/upload";
  user_id = some (codes "ada");
  host = some (codes "10.0.0.1");
}

abbrev settings : Settings
settings = record {
  rate_limit_enabled = true;
  rate_limit_auth_per_minute = 10;
  rate_limit_ai_per_minute = 20;
  rate_limit_heavy_per_minute = 3;
  rate_limit_default_per_minute = 100;
}

abbrev key : List ℕ
key = bucket upload heavy

abbrev window : Window
window = record { start = seconds 100; count = 2 }

abbrev windows : Windows
windows = (key, window) ∷ []

abbrev requests : List (ℕ × List ℕ)
requests = (seconds 110, key) ∷ (seconds 120, codes "other") ∷ (seconds 130, key) ∷ []

served_lem_example : served 3 60 key windows requests ≡ 1
served_lem_example =
    served_lem 3 60 key window windows requests refl
      (ground arith, (ground arith, (ground arith, tt)))

hit-retry_after_example :
    let ((_, retry_after), after) = hit (seconds 110) key 60 windows in
    (1 ≤ retry_after)
    × (retry_after ≤ 60)
    × (w : Window) × (lookup key after ≡ some w)
    × (seconds 60 ≤ (seconds 110 + seconds retry_after) - w.start)
hit-retry_after_example =
    hit-retry_after (seconds 110) key 60 windows (ground arith) (λ w e. ground arith)

upload_passes : (dispatch settings upload false (seconds 110) windows).0 ≡ passed
unfolding dispatch charge classify hit
upload_passes = refl
