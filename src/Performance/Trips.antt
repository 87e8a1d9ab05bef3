-- ===== src/Performance/Trips.antt =====
-- When a circuit breaker of internal/engine/performance.go refuses a call.
use fortress_waf.Base.{
  ℕ, suc, ◌+◌, ◌≤◌, ◌<◌, ◌≡◌, refl, true, false, Option, none, some, List, [], ◌∷◌, ltb,
  ltb_false→le, leb, leb→le, ◌&&◌, subst, ap, arith, Bool-cases, inl, inr,
}
use fortress_waf.Performance.Breaker.{
  CircuitBreaker, can_proceed, record_failure, record_success, count_failure, new_breaker,
  since_exceeds,
}

-- What happens to a breaker, with the clock.
pub data Event : Type 0 where
  asks : ℕ → Event
  fails : ℕ → Event
  succeeds : Event

abbrev pub happens : Event → Option CircuitBreaker → Option CircuitBreaker
happens (asks now) cb = (can_proceed now cb).1
happens (fails now) cb = record_failure now cb
happens succeeds cb = record_success cb

-- The last event stands first.
abbrev pub after_events : List Event → Option CircuitBreaker
after_events [] = none
after_events (event ∷ earlier) = happens event (after_events earlier)

abbrev pub failure_count : List Event → ℕ
failure_count [] = 0
failure_count (fails now ∷ earlier) = suc (failure_count earlier)
failure_count (event ∷ earlier) = failure_count earlier

pub data FailedAt : ℕ → List Event → Type 0 where
  failed_now : {now : ℕ} {earlier : List Event} → FailedAt now (fails now ∷ earlier)
  failed_before :
      {now : ℕ} {event : Event} {earlier : List Event}
      → FailedAt now earlier
      → FailedAt now (event ∷ earlier)

-- A breaker after these events: it has counted no more failures than there were, and it has tripped
-- only at a failure, after four others.
abbrev Explained : List Event → Option CircuitBreaker → Type 0
Explained events none = Unit
Explained events (some cb) =
    (cb.failures ≤ failure_count events)
    × (cb.threshold ≡ 5)
    × (cb.recovery_time ≡ 30_000_000_000)
    × ((t : ℕ) → cb.last_trip ≡ some t → FailedAt t events × (5 ≤ failure_count events))

Tripped-before :
    (event : Event) (earlier : List Event) (trip : Option ℕ)
    → failure_count earlier ≤ failure_count (event ∷ earlier)
    → ((t : ℕ) → trip ≡ some t → FailedAt t earlier × (5 ≤ failure_count earlier))
    → (t : ℕ) → trip ≡ some t
    → FailedAt t (event ∷ earlier) × (5 ≤ failure_count (event ∷ earlier))
Tripped-before event earlier trip more h t is_trip =
    let (failed, enough) = h t is_trip in (failed_before failed, omega (arith, more, enough))

Explained-asks :
    (now : ℕ) (events : List Event) (cb : Option CircuitBreaker)
    → Explained events cb
    → Explained (asks now ∷ events) (can_proceed now cb).1
unfolding can_proceed
Explained-asks now events none h = tt
Explained-asks now events (some cb) (few, five, half_minute, tripped) =
    let tripped' = Tripped-before (asks now) events cb.last_trip (omega arith) tripped in
    elim (Bool-cases (cb.half_open && since_exceeds now (some cb.half_open_at) cb.recovery_time)) [
      | inl over ↦ rw over (omega arith, five, half_minute, tripped')
      | inr waiting ↦ elim (Bool-cases (since_exceeds now cb.last_trip cb.recovery_time)) [
        | inl recovered ↦ rw (waiting, recovered) (few, five, half_minute, tripped')
        | inr recent ↦ rw (waiting, recent) (few, five, half_minute, tripped')
      ]
    ]

some_injective : (a b : ℕ) → some a ≡ some b → a ≡ b
some_injective a b same = ap (λ o. elim o [ none ↦ a | some x ↦ x ]) same

Explained-count :
    (now : ℕ) (events : List Event) (cb : CircuitBreaker)
    → Explained events (some cb)
    → Explained (fails now ∷ events) (some (count_failure now cb))
Explained-count now events cb (few, five, half_minute, tripped) =
    elim (Bool-cases (leb cb.threshold (cb.failures + 1))) [
      | inl trips ↦
          let many : 5 ≤ failure_count (fails now ∷ events) =
            omega (arith, leb→le cb.threshold (cb.failures + 1) trips, five, few) in
          rw trips (
            omega (arith, few),
            five,
            half_minute,
            λ t same. (
              subst (λ x. FailedAt x (fails now ∷ events)) (some_injective now t same) failed_now,
              many,
            ),
          )
      | inr holds ↦ rw holds (
        omega (arith, few),
        five,
        half_minute,
        Tripped-before (fails now) events cb.last_trip (omega arith) tripped,
      )
    ]

Explained-fails :
    (now : ℕ) (events : List Event) (cb : Option CircuitBreaker)
    → Explained events cb
    → Explained (fails now ∷ events) (record_failure now cb)
unfolding record_failure
Explained-fails now events none h =
    Explained-count now events new_breaker
      (omega arith, refl, refl, λ t is_none. ground (arith, is_none))
Explained-fails now events (some cb) h = Explained-count now events cb h

Explained-succeeds :
    (events : List Event) (cb : Option CircuitBreaker)
    → Explained events cb
    → Explained (succeeds ∷ events) (record_success cb)
unfolding record_success
Explained-succeeds events none h = tt
Explained-succeeds events (some cb) (few, five, half_minute, tripped) =
    let tripped' = Tripped-before succeeds events cb.last_trip (omega arith) tripped in
    elim (Bool-cases (ltb 0 cb.failures)) [
      | inl counted ↦ rw counted (omega (arith, few), five, half_minute, tripped')
      | inr none_left ↦ rw none_left (few, five, half_minute, tripped')
    ]

after_events-Explained : (events : List Event) → Explained events (after_events events)
after_events-Explained [] = tt
after_events-Explained (asks now ∷ events) =
    Explained-asks now events (after_events events) (after_events-Explained events)
after_events-Explained (fails now ∷ events) =
    Explained-fails now events (after_events events) (after_events-Explained events)
after_events-Explained (succeeds ∷ events) =
    Explained-succeeds events (after_events events) (after_events-Explained events)

recent_trip :
    (now : ℕ) (trip : Option ℕ) (recovery : ℕ)
    → since_exceeds now trip recovery ≡ false
    → (t : ℕ) × (trip ≡ some t) × (now ≤ t + recovery)
recent_trip now none recovery h = ground (arith, h)
recent_trip now (some t) recovery h = (t, refl, ltb_false→le (t + recovery) now h)

never_refuses : (now : ℕ) → (can_proceed now none).0 ≡ true
unfolding can_proceed
never_refuses now = refl

refuses-since_exceeds :
    (now : ℕ) (cb : CircuitBreaker)
    → (can_proceed now (some cb)).0 ≡ false
    → since_exceeds now cb.last_trip cb.recovery_time ≡ false
unfolding can_proceed
refuses-since_exceeds now cb h = ground (arith, h)

can_proceed-refuses :
    (now : ℕ) (cb : Option CircuitBreaker)
    → (can_proceed now cb).0 ≡ false
    → (breaker : CircuitBreaker) × (cb ≡ some breaker)
      × (t : ℕ) × (breaker.last_trip ≡ some t)
      × (now ≤ t + breaker.recovery_time)
can_proceed-refuses now none h = ground (arith, never_refuses now, h)
can_proceed-refuses now (some cb) h =
    let (t, trip, recent) =
      recent_trip now cb.last_trip cb.recovery_time (refuses-since_exceeds now cb h) in
    (cb, refl, t, trip, recent)

-- A breaker that refuses a call, after any calls, failures and successes on a new manager, has seen
-- at least five failures, and one of them at a time that lies no more than 30 seconds back.
pub can_proceed-FailedAt :
    (now : ℕ) (events : List Event)
    → (can_proceed now (after_events events)).0 ≡ false
    → (5 ≤ failure_count events) × ((t : ℕ) × FailedAt t events × (now ≤ t + 30_000_000_000))
can_proceed-FailedAt now events refuses =
    let (breaker, is_breaker, t, trip, recent) =
      can_proceed-refuses now (after_events events) refuses in
    let explained : Explained events (some breaker) =
      subst (Explained events) is_breaker (after_events-Explained events) in
    let (few, five, half_minute, tripped) = explained in
    let (failed, enough) = tripped t trip in
    (enough, (t, failed, omega (arith, recent, half_minute)))

-- A breaker whose last failures are more than 30 seconds back lets the call through, whatever its
-- history: it never stays open for longer.
pub can_proceed-recovers :
    (now : ℕ) (events : List Event)
    → ((t : ℕ) → FailedAt t events → t + 30_000_000_000 < now)
    → (can_proceed now (after_events events)).0 ≡ true
can_proceed-recovers now events old = elim (Bool-cases (can_proceed now (after_events events)).0) [
  | inl proceeds ↦ proceeds
  | inr refuses ↦
      let (enough, (t, failed, recent)) = can_proceed-FailedAt now events refuses in
      ground (arith, old t failed, recent)
]
