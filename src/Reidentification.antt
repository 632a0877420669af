-- ===== src/Reidentification.antt =====
-- The request quotas of src/fabric_shortcut_proxy/reidentification/limits.py: `RequestLimiter`. A
-- moment is a whole number of the unit that a minute has `minute` of; the day of a moment is a
-- parameter.
pub mod Window
pub mod Quota
use fabric_shortcut_proxy.Prelude.{
  ℕ, ◌+◌, String, str_eq, Bool, true, false, ◌&&◌, ◌||◌, List, [], ◌∷◌, ◌++◌, length, if◌then◌else◌,
  ltb, leb,
}

pub data LimitDecision : Type 0 where
  allowed not_configured minute_exceeded day_exceeded : LimitDecision

-- The two `defaultdict`s.
pub record RequestLimiter : Type 0 where
  pub minutes : String → List ℕ
  pub days : String → String → ℕ

abbrev pub no_requests : RequestLimiter
no_requests = record { minutes = λ id. []; days = λ id day. 0 }

-- A call of `allow`, with the quotas of its caller.
pub record QuotaRequest : Type 0 where
  pub identity : String
  pub per_minute : ℕ
  pub per_day : ℕ
  pub now : ℕ

module _ (minute : ℕ) (day_of : ℕ → String) where
  -- The loop that takes the oldest moments off; `recent[0] <= moment - 60`.
  unfoldable pub drop_old : ℕ → List ℕ → List ℕ
  drop_old now [] = []
  drop_old now (t ∷ ts) =
      let rest = drop_old now ts in if leb (t + minute) now then rest else t ∷ ts

  abbrev pub set_minutes : String → List ℕ → RequestLimiter → RequestLimiter
  set_minutes id ts l = record l {
    minutes = λ other. if str_eq id other then ts else l.minutes other;
  }

  abbrev pub count_day : String → String → RequestLimiter → RequestLimiter
  count_day id day l = record l {
    days = λ i d. if str_eq id i && str_eq day d then l.days i d + 1 else l.days i d;
  }

  unfoldable pub allow_recent :
      QuotaRequest → List ℕ → RequestLimiter → RequestLimiter × LimitDecision
  allow_recent r recent l =
      if leb r.per_minute (length recent)
      then (set_minutes r.identity recent l, minute_exceeded)
      else if leb r.per_day (l.days r.identity (day_of r.now))
      then (set_minutes r.identity recent l, day_exceeded)
      else (
        count_day r.identity (day_of r.now) (set_minutes r.identity (recent ++ (r.now ∷ [])) l),
        allowed,
      )

  -- `allow`
  unfoldable pub allow : QuotaRequest → RequestLimiter → RequestLimiter × LimitDecision
  unfolding drop_old allow_recent
  allow r l =
      if ltb r.per_minute 1 || ltb r.per_day 1
      then (l, not_configured)
      else allow_recent r (drop_old r.now (l.minutes r.identity)) l
