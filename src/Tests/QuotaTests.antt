-- ===== src/Tests/QuotaTests.antt =====
-- src/fabric_shortcut_proxy/reidentification/limits.py at concrete inputs: moments are seconds.
use fabric_shortcut_proxy.Prelude.{ℕ, ◌+◌, ◌≤◌, String, List, [], ◌∷◌, ◌≡◌, refl, arith}
use fabric_shortcut_proxy.Reidentification.{
  QuotaRequest, allowed, minute_exceeded, no_requests, drop_old, allow_recent, allow,
}
use fabric_shortcut_proxy.Reidentification.Window.{recent_count, day_count, log_decision}
use fabric_shortcut_proxy.Reidentification.Quota.{run, allow-log_decision}

abbrev day_of : ℕ → String
day_of now = "2024-01-01"

abbrev ask : String → ℕ → QuotaRequest
ask identity now = record { identity = identity; per_minute = 2; per_day = 100; now = now }

abbrev requests : List QuotaRequest
requests = ask "a" 100 ∷ ask "b" 110 ∷ ask "a" 130 ∷ ask "a" 159 ∷ []

-- The third request of "a" is one too many, the fourth comes a minute after the first.
third_is_refused :
    (allow 60 day_of
      (ask "a" 159)
      (run 60 day_of (ask "a" 100 ∷ ask "a" 130 ∷ []) no_requests []).0).1
    ≡ minute_exceeded
unfolding allow drop_old allow_recent
third_is_refused = refl

allow-log_decision_example :
    let w = run 60 day_of requests no_requests [] in
    ((allow 60 day_of (ask "a" 160) w.0).1 ≡ log_decision 60 day_of (ask "a" 160) w.1)
    × ((allow 60 day_of (ask "a" 160) w.0).1 ≡ allowed
        → (recent_count 60 day_of "a" 160 w.1 + 1 ≤ 2)
          × (day_count 60 day_of "a" "2024-01-01" w.1 + 1 ≤ 100))
allow-log_decision_example =
    allow-log_decision 60 day_of requests (ask "a" 160)
      (omega arith, (omega arith, (omega arith, (omega arith, (omega arith, tt)))))
