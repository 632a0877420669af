-- ===== src/Reidentification/Quota.antt =====
-- The decisions of the limiter over a run of requests.
use fabric_shortcut_proxy.Prelude.{
  ℕ, ◌+◌, ◌≤◌, String, str_eq, str_eq_iff, Bool, true, false, ◌&&◌, ◌||◌, List, [], ◌∷◌, ◌++◌, ◌≡◌,
  ◌≢◌, refl, sym, ◌∙◌, sum_by-append, All, All-append, if◌then◌else◌, ltb, leb, arith, Bool-cases,
  inl, inr,
}
use fabric_shortcut_proxy.Reidentification.{
  LimitDecision, allowed, not_configured, minute_exceeded, day_exceeded, RequestLimiter,
  QuotaRequest, no_requests, drop_old, set_minutes, count_day, allow_recent, allow,
}
use fabric_shortcut_proxy.Reidentification.Window.{
  Ascends, Ascends-append, is_recent, recent_count, day_count, log_decision, drop_old-length,
  drop_old-recent, drop_old-Ascends, IsKept, start-IsKept, later-IsKept, dropped-IsKept,
}

-- The moments do not go back.
abbrev pub InOrder : ℕ → List QuotaRequest → Type 0
InOrder t [] = Unit
InOrder t (r ∷ rs) = (t ≤ r.now) × InOrder r.now rs

module _ (minute : ℕ) (day_of : ℕ → String) where
  granted-IsKept :
      (l : RequestLimiter) (log : List QuotaRequest) (t : ℕ) (r : QuotaRequest)
      → t ≤ r.now
      → IsKept minute day_of l log t
      → IsKept minute day_of
          (count_day minute day_of r.identity (day_of r.now) (
            set_minutes minute day_of r.identity
              (drop_old minute day_of r.now (l.minutes r.identity) ++ (r.now ∷ []))
              l))
          (r ∷ log)
          r.now
  granted-IsKept l log t r h k = record {
    days_kept = λ id day. elim (Bool-cases (str_eq r.identity id && str_eq (day_of r.now) day)) [
      | inl same ↦ rw same (omega (arith, k.days_kept id day))
      | inr not_it ↦ rw not_it (omega (arith, k.days_kept id day))
    ];
    minutes_kept = λ id now h'. elim (Bool-cases (str_eq r.identity id)) [
      | inl same ↦
          let there = (str_eq_iff r.identity id).0 same in
          let kept = k.minutes_kept id now (omega arith) in
          let recent = drop_old-recent minute day_of r.now now (l.minutes id) h' in
          let both =
            sum_by-append (is_recent minute day_of now)
              (drop_old minute day_of r.now (l.minutes id)) (r.now ∷ []) in
          rw (same, there) (omega (arith, both, recent, kept))
      | inr not_it ↦ rw not_it (omega (arith, k.minutes_kept id now (omega arith)))
    ];
    in_order = λ id. elim (Bool-cases (str_eq r.identity id)) [
      | inl same ↦ rw same (appended id)
      | inr not_it ↦ rw not_it (here.in_order id)
    ];
  }
    where
      here : IsKept minute day_of l log r.now
      here = later-IsKept minute day_of l log t r.now h k

      appended :
          (id : String)
          → Ascends (drop_old minute day_of r.now (l.minutes r.identity) ++ (r.now ∷ []))
            × All
                (λ x. x ≤ r.now)
                (drop_old minute day_of r.now (l.minutes r.identity) ++ (r.now ∷ []))
      appended id =
          let (ascends, below) =
            drop_old-Ascends minute day_of r.now r.now (l.minutes r.identity)
              (here.in_order r.identity).0 (here.in_order r.identity).1 in
          (
            Ascends-append _ r.now ascends below,
            All-append (λ x. x ≤ r.now) _ (r.now ∷ []) below (omega arith, tt),
          )

  abbrev pub was_allowed : LimitDecision → Bool
  was_allowed allowed = true
  was_allowed _ = false

  -- A request, with the log of those that were let through.
  abbrev pub noted :
      QuotaRequest
      → List QuotaRequest
      → RequestLimiter × LimitDecision
      → RequestLimiter × List QuotaRequest
  noted r log (l, d) = (l, if was_allowed d then r ∷ log else log)

  abbrev pub run :
      List QuotaRequest → RequestLimiter → List QuotaRequest → RequestLimiter × List QuotaRequest
  run [] l log = (l, log)
  run (r ∷ rs) l log = let (l', log') = noted r log (allow minute day_of r l) in run rs l' log'

  -- One request, when the limiter holds the log.
  allow-IsKept :
      (l : RequestLimiter) (log : List QuotaRequest) (t : ℕ) (r : QuotaRequest)
      → t ≤ r.now
      → IsKept minute day_of l log t
      → ((allow minute day_of r l).1 ≡ log_decision minute day_of r log)
        × IsKept minute day_of
            (noted r log (allow minute day_of r l)).0
            (noted r log (allow minute day_of r l)).1
            r.now
  unfolding allow allow_recent
  allow-IsKept l log t r h k =
      let recent =
        drop_old-length minute day_of r.now (l.minutes r.identity) (k.in_order r.identity).0
        ∙ k.minutes_kept r.identity r.now h in
      let days = k.days_kept r.identity (day_of r.now) in
      elim (Bool-cases (ltb r.per_minute 1 || ltb r.per_day 1)) [
        | inl unset ↦ rw unset (refl, later-IsKept minute day_of l log t r.now h k)
        | inr set ↦
            elim (Bool-cases (leb r.per_minute (recent_count minute day_of r.identity r.now log))) [
              | inl full ↦
                  rw (set, recent, full)
                    (refl, dropped-IsKept minute day_of l log t r.now r.identity h k)
              | inr room ↦
                  elim (Bool-cases
                    (leb r.per_day (day_count minute day_of r.identity (day_of r.now) log))) [
                      | inl spent ↦
                          rw (set, recent, room, days, spent)
                            (refl, dropped-IsKept minute day_of l log t r.now r.identity h k)
                      | inr left ↦
                          rw (set, recent, room, days, left) (refl, granted-IsKept l log t r h k)
                    ]
            ]
      ]

  run-log_decision :
      (rs : List QuotaRequest) (r : QuotaRequest) (l : RequestLimiter) (log : List QuotaRequest)
      (t : ℕ)
      → InOrder t (rs ++ (r ∷ []))
      → IsKept minute day_of l log t
      → (allow minute day_of r (run rs l log).0).1 ≡ log_decision minute day_of r (run rs l log).1
  run-log_decision [] r l log t (h, _) k = (allow-IsKept l log t r h k).0
  run-log_decision (q ∷ qs) r l log t (h, later) k =
      let w = noted q log (allow minute day_of q l) in
      run-log_decision qs r w.0 w.1 q.now later (allow-IsKept l log t q h k).1

  allowed_within :
      (r : QuotaRequest) (log : List QuotaRequest)
      → log_decision minute day_of r log ≡ allowed
      → (recent_count minute day_of r.identity r.now log + 1 ≤ r.per_minute)
        × (day_count minute day_of r.identity (day_of r.now) log + 1 ≤ r.per_day)
  allowed_within r log h = elim (Bool-cases (ltb r.per_minute 1 || ltb r.per_day 1)) [
    | inl unset ↦ absurd (differ not_configured (rw unset at h) cc)
    | inr set ↦
        elim (Bool-cases (leb r.per_minute (recent_count minute day_of r.identity r.now log))) [
          | inl full ↦ absurd (differ minute_exceeded (rw (set, full) at h) cc)
          | inr room ↦
              elim (Bool-cases
                (leb r.per_day (day_count minute day_of r.identity (day_of r.now) log))) [
                  | inl spent ↦ absurd (differ day_exceeded (rw (set, room, spent) at h) cc)
                  | inr left ↦ (ground (arith, room), ground (arith, left))
                ]
        ]
  ]
    where
      differ : (d : LimitDecision) → d ≡ allowed → d ≢ allowed → ⊥
      differ d same other = other same

  -- Over any run of requests whose moments do not go back, the decision for the next one is the one
  -- by the log of those that were let through: those of its identity less than a minute ago, and
  -- those of its identity on the same day. So a request that is let through is within both quotas.
  pub allow-log_decision :
      (rs : List QuotaRequest) (r : QuotaRequest)
      → InOrder 0 (rs ++ (r ∷ []))
      → let w = run rs no_requests [] in
        ((allow minute day_of r w.0).1 ≡ log_decision minute day_of r w.1)
        × ((allow minute day_of r w.0).1 ≡ allowed
            → (recent_count minute day_of r.identity r.now w.1 + 1 ≤ r.per_minute)
              × (day_count minute day_of r.identity (day_of r.now) w.1 + 1 ≤ r.per_day))
  allow-log_decision rs r h =
      let w = run rs no_requests [] in
      let exact = run-log_decision rs r no_requests [] 0 h (start-IsKept minute day_of) in
      (exact, λ is. allowed_within r w.1 (sym exact ∙ is))
