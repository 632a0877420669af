-- ===== src/Reidentification/Window.antt =====
-- The limiter against the log of the requests that it let through.
use fabric_shortcut_proxy.Prelude.{
  ℕ, ◌+◌, ◌≤◌, String, str_eq, str_eq_iff, true, false, ◌&&◌, ◌||◌, List, [], ◌∷◌, ◌++◌, ◌≡◌, refl,
  sym, ◌∙◌, length, sum_by, All, All-imp, All-append, if◌then◌else◌, ltb, leb, arith, Bool-cases,
  inl, inr,
}
use fabric_shortcut_proxy.Reidentification.{
  LimitDecision, allowed, not_configured, minute_exceeded, day_exceeded, RequestLimiter,
  QuotaRequest, no_requests, drop_old, set_minutes,
}

abbrev pub Ascends : List ℕ → Type 0
Ascends [] = Unit
Ascends (x ∷ xs) = All (λ y. x ≤ y) xs × Ascends xs

pub Ascends-append :
    (xs : List ℕ) (n : ℕ) → Ascends xs → All (λ x. x ≤ n) xs → Ascends (xs ++ (n ∷ []))
Ascends-append [] n h below = (tt, tt)
Ascends-append (x ∷ xs) n h below =
    (All-append (λ y. x ≤ y) xs (n ∷ []) h.0 (below.0, tt), Ascends-append xs n h.1 below.1)

module _ (minute : ℕ) (day_of : ℕ → String) where
  -- The moments of a list that are less than a minute ago.
  abbrev pub is_recent : ℕ → ℕ → ℕ
  is_recent now t = if ltb now (t + minute) then 1 else 0

  -- The requests of a log by one identity that are less than a minute ago, and those of a day.
  abbrev pub recent_count : String → ℕ → List QuotaRequest → ℕ
  recent_count id now log =
      sum_by (λ q. if str_eq q.identity id then is_recent now q.now else 0) log

  abbrev pub day_count : String → String → List QuotaRequest → ℕ
  day_count id day log =
      sum_by (λ q. if str_eq q.identity id && str_eq (day_of q.now) day then 1 else 0) log

  -- The decision by the log alone.
  abbrev pub log_decision : QuotaRequest → List QuotaRequest → LimitDecision
  log_decision r log =
      if ltb r.per_minute 1 || ltb r.per_day 1
      then not_configured
      else if leb r.per_minute (recent_count r.identity r.now log)
      then minute_exceeded
      else if leb r.per_day (day_count r.identity (day_of r.now) log)
      then day_exceeded
      else allowed

  pub drop_old-recent :
      (now later : ℕ) (ts : List ℕ)
      → now ≤ later
      → sum_by (is_recent later) (drop_old minute day_of now ts) ≡ sum_by (is_recent later) ts
  unfolding drop_old
  drop_old-recent now later [] h = refl
  drop_old-recent now later (t ∷ ts) h = elim (Bool-cases (leb (t + minute) now)) [
    | inl old ↦
        let out : ltb later (t + minute) ≡ false = ground arith in
        rw (old, out) (omega (arith, drop_old-recent now later ts h))
    | inr fresh ↦ rw fresh refl
  ]

  length-recent :
      (now t : ℕ) (ts : List ℕ)
      → leb (t + minute) now ≡ false
      → All (λ y. t ≤ y) ts
      → length ts ≡ sum_by (is_recent now) ts
  length-recent now t [] h above = refl
  length-recent now t (y ∷ ys) h above =
      let here : ltb now (y + minute) ≡ true = ground (arith, h, above.0) in
      rw here (omega (arith, length-recent now t ys h above.1))

  pub drop_old-length :
      (now : ℕ) (ts : List ℕ)
      → Ascends ts
      → length (drop_old minute day_of now ts) ≡ sum_by (is_recent now) ts
  unfolding drop_old
  drop_old-length now [] h = refl
  drop_old-length now (t ∷ ts) h = elim (Bool-cases (leb (t + minute) now)) [
    | inl old ↦
        let out : ltb now (t + minute) ≡ false = ground arith in
        rw (old, out) (omega (arith, drop_old-length now ts h.1))
    | inr fresh ↦
        let here : ltb now (t + minute) ≡ true = ground (arith, fresh) in
        rw (fresh, here) (omega (arith, length-recent now t ts fresh h.0))
  ]

  pub drop_old-Ascends :
      (now bound : ℕ) (ts : List ℕ)
      → Ascends ts
      → All (λ x. x ≤ bound) ts
      → Ascends (drop_old minute day_of now ts)
        × All (λ x. x ≤ bound) (drop_old minute day_of now ts)
  unfolding drop_old
  drop_old-Ascends now bound [] h below = (tt, tt)
  drop_old-Ascends now bound (t ∷ ts) h below = elim (Bool-cases (leb (t + minute) now)) [
    | inl old ↦ rw old (drop_old-Ascends now bound ts h.1 below.1)
    | inr fresh ↦ rw fresh (h, below)
  ]

  -- The limiter holds what the log says, from the moment `t` on.
  pub record IsKept (l : RequestLimiter) (log : List QuotaRequest) (t : ℕ) : Type 0 where
    pub days_kept : (id day : String) → l.days id day ≡ day_count id day log
    pub minutes_kept :
        (id : String) (now : ℕ)
        → t ≤ now
        → sum_by (is_recent now) (l.minutes id) ≡ recent_count id now log
    pub in_order : (id : String) → Ascends (l.minutes id) × All (λ x. x ≤ t) (l.minutes id)

  pub start-IsKept : IsKept no_requests [] 0
  start-IsKept = record {
    days_kept = λ id day. refl;
    minutes_kept = λ id now h. refl;
    in_order = λ id. (tt, tt);
  }

  pub later-IsKept :
      (l : RequestLimiter) (log : List QuotaRequest) (t now : ℕ)
      → t ≤ now
      → IsKept l log t
      → IsKept l log now
  later-IsKept l log t now h k = record {
    days_kept = k.days_kept;
    minutes_kept = λ id later h'. k.minutes_kept id later (omega arith);
    in_order = λ id. (
      (k.in_order id).0,
      All-imp (λ x. x ≤ t) (λ x. x ≤ now) (l.minutes id) (λ x below. omega arith) (k.in_order id).1,
    );
  }

  pub dropped-IsKept :
      (l : RequestLimiter) (log : List QuotaRequest) (t now : ℕ) (id : String)
      → t ≤ now
      → IsKept l log t
      → IsKept (set_minutes minute day_of id (drop_old minute day_of now (l.minutes id)) l) log now
  dropped-IsKept l log t now id h k = record {
    days_kept = k.days_kept;
    minutes_kept = λ other later h'. elim (Bool-cases (str_eq id other)) [
      | inl same ↦
          rw (same, sym ((str_eq_iff id other).0 same))
            (drop_old-recent now later (l.minutes id) h' ∙ k.minutes_kept id later (omega arith))
      | inr not_it ↦ rw not_it (k.minutes_kept other later (omega arith))
    ];
    in_order = λ other. elim (Bool-cases (str_eq id other)) [
      | inl same ↦
          rw same
            (drop_old-Ascends now now (l.minutes id) (here.in_order id).0 (here.in_order id).1)
      | inr not_it ↦ rw not_it (here.in_order other)
    ];
  }
    where
      here : IsKept l log now
      here = later-IsKept l log t now h k
