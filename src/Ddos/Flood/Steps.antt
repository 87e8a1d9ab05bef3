-- ===== src/Ddos/Flood/Steps.antt =====
-- What one request does to the counter of an address in internal/engine/ddos.go.
use fortress_waf.Base.{
  ℕ, ◌≡◌, ◌<◌, ◌≢◌, ◌⊎◌, inl, inr, refl, sym, ◌∙◌, ap, Bool, true, false, String, List, [], ◌∷◌,
  ◌++◌, Option, none, some, arith, ltb, leb, length, if◌then◌else◌, Bool-cases, Option-cases,
  ltb→lt, ◌==◌, ◌&&◌, text_keys, agrees_self, agrees_ne, agrees_false→ne,
}
use text.Mathlib.TextEquality.{eq_iff}
use fortress_waf.Base.Map.{Map}
use fortress_waf.RateLimit.SlidingWindow.{recent}
use fortress_waf.Pipeline.Detection.{Detection}
use fortress_waf.Ddos.Counter.{
  DdosProtection, SlidingWindowCounter, check_rate, check_key, get_or_create_counter,
}
use fortress_waf.Ddos.Flood.{
  Request, check_session, check_endpoint, check_ip, check_global_rate, detect_http_flood,
}

abbrev pub times_of : Option SlidingWindowCounter → List ℕ
times_of none = []
times_of (some c) = c.timestamps

-- The times that the counter of an address holds.
abbrev pub stored : String → DdosProtection → List ℕ
stored ip d = times_of (d.ip_counters ip)

abbrev pub is_none : Option Detection → Bool
is_none none = true
is_none (some dec) = false

-- The times that a counter holds after checkRate.
abbrev pub after : ℕ → ℕ → ℕ → List ℕ → List ℕ
after window limit now times =
    if leb limit (length (recent window now times))
    then recent window now times
    else recent window now times ++ now ∷ []

-- What a request does to the part of the state that a count by address reads.
pub record Keeps (d d' : DdosProtection) : Type 0 where
  pub same_window : d'.window_size ≡ d.window_size
  pub same_rate : d'.per_ip_rate ≡ d.per_ip_rate
  pub same_counters : d'.ip_counters ≡ d.ip_counters

check_session-Keeps :
    (ctx : Request) (now : ℕ) (d : DdosProtection) → Keeps d ((check_session ctx now d).0)
unfolding check_session
check_session-Keeps ctx now d = elim (Bool-cases (ctx.session_id == "")) [
  | inl e ↦ rw e (record { same_window = refl; same_rate = refl; same_counters = refl })
  | inr e ↦ rw e (record { same_window = refl; same_rate = refl; same_counters = refl })
]

check_endpoint-Keeps :
    (ctx : Request) (now : ℕ) (d : DdosProtection) → Keeps d ((check_endpoint ctx now d).0)
unfolding check_endpoint
check_endpoint-Keeps ctx now d =
    let (counters, fits) = check_key d d.endpoint_counters ctx.path d.per_endpoint_rate now in
    elim (Bool-cases ((check_key d d.endpoint_counters ctx.path d.per_endpoint_rate now).1)) [
      | inl e ↦
          let h = check_session-Keeps ctx now (record d { endpoint_counters = counters }) in
          rw e (record {
            same_window = h.same_window;
            same_rate = h.same_rate;
            same_counters = h.same_counters;
          })
      | inr e ↦ rw e (record { same_window = refl; same_rate = refl; same_counters = refl })
    ]

check_rate-after :
    (window : ℕ) (c : SlidingWindowCounter) (limit now : ℕ)
    → (((check_rate window c limit now).0).timestamps ≡ after window limit now c.timestamps)
      × ((check_rate window c limit now).1 ≡ ltb (length (recent window now c.timestamps)) limit)
unfolding check_rate
check_rate-after window c limit now =
    elim (Bool-cases (leb limit (length (recent window now c.timestamps)))) [
      | inl full ↦
          let low : ltb (length (recent window now c.timestamps)) limit ≡ false =
            ground (arith, full) in
          rw (full, low) (refl, refl)
      | inr room ↦
          let low : ltb (length (recent window now c.timestamps)) limit ≡ true =
            ground (arith, room) in
          rw (room, low) (refl, refl)
    ]

get_or_create_counter-times :
    (d : DdosProtection) (counters : Map String SlidingWindowCounter) (key : String)
    → (get_or_create_counter d counters key).timestamps ≡ times_of (counters key)
unfolding get_or_create_counter
get_or_create_counter-times d counters key = elim (Option-cases (counters key)) [
  | inl e ↦ rw (e, get_or_create_counter) refl
  | inr (c, e) ↦ rw (e, get_or_create_counter) refl
]

check_key-stored :
    (d : DdosProtection) (counters : Map String SlidingWindowCounter) (key : String) (limit now : ℕ)
    → let times = times_of (counters key) in
      (times_of ((check_key d counters key limit now).0 key) ≡ after d.window_size limit now times)
      × ((check_key d counters key limit now).1
          ≡ ltb (length (recent d.window_size now times)) limit)
unfolding check_key
check_key-stored d counters key limit now =
    let (times, fits) =
      check_rate-after d.window_size (get_or_create_counter d counters key) limit now in
    rw (agrees_self key, ← get_or_create_counter-times d counters key) (times, fits)

check_key_ne :
    (d : DdosProtection) (counters : Map String SlidingWindowCounter) (key other : String)
    (limit now : ℕ)
    → key ≢ other
    → (check_key d counters key limit now).0 other ≡ counters other
unfolding check_key
check_key_ne d counters key other limit now h = rw (agrees_ne key other h) refl

-- What a request does to the times of one address: nothing, and it is then of another address or does not
-- pass, or what checkRate does, and it then passes only into a window with room.
pub record Steps (ip : String) (ctx : Request) (now : ℕ) (d d' : DdosProtection) (passes : Bool)
    : Type 0 where
  pub same_window : d'.window_size ≡ d.window_size
  pub same_rate : d'.per_ip_rate ≡ d.per_ip_rate
  pub times :
      ((stored ip d' ≡ stored ip d) × ((passes && (ctx.real_ip == ip)) ≡ false))
      ⊎ ((stored ip d' ≡ after d.window_size d.per_ip_rate now (stored ip d))
          × (passes ≡ true → length (recent d.window_size now (stored ip d)) < d.per_ip_rate))

-- After the test by the address, whatever the later tests answer.
Keeps-Steps :
    (ip : String) (ctx : Request) (now : ℕ) (d d' : DdosProtection) (passes : Bool)
    → (let (counters, fits) = check_key d d.ip_counters ctx.real_ip d.per_ip_rate now in
        Keeps (record d { ip_counters = counters }) d' × (passes ≡ true → fits ≡ true))
    → Steps ip ctx now d d' passes
Keeps-Steps ip ctx now d d' passes (keeps, only) =
    let counters = (check_key d d.ip_counters ctx.real_ip d.per_ip_rate now).0 in
    record {
      same_window = keeps.same_window;
      same_rate = keeps.same_rate;
      times = elim (Bool-cases (ctx.real_ip == ip)) [
        | inl same ↦
            let e : ctx.real_ip ≡ ip = (eq_iff ctx.real_ip ip).0 same in
            let (times, fits) = check_key-stored d d.ip_counters ctx.real_ip d.per_ip_rate now in
            inr (
              rw (← e) (ap (λ m. times_of (m ctx.real_ip)) keeps.same_counters ∙ times),
              λ p. rw (← e) (
                  ltb→lt (length (recent d.window_size now (stored ctx.real_ip d))) d.per_ip_rate
                    (sym fits ∙ only p)),
            )
        | inr other ↦ inl (
          ap (λ m. times_of (m ip)) keeps.same_counters
              ∙ ap times_of (
                  check_key_ne d d.ip_counters ctx.real_ip ip d.per_ip_rate now
                    (agrees_false→ne ctx.real_ip ip other)),
          rw other (ground arith),
        )
      ];
    }

check_ip-Steps :
    (ip : String) (ctx : Request) (now : ℕ) (d : DdosProtection)
    → Steps ip ctx now d ((check_ip ctx now d).0) (is_none ((check_ip ctx now d).1))
unfolding check_ip
check_ip-Steps ip ctx now d =
    let counters = (check_key d d.ip_counters ctx.real_ip d.per_ip_rate now).0 in
    let d1 : DdosProtection = record d { ip_counters = counters } in
    Keeps-Steps ip ctx now d ((check_ip ctx now d).0) (is_none ((check_ip ctx now d).1))
      (elim (Bool-cases ((check_key d d.ip_counters ctx.real_ip d.per_ip_rate now).1)) [
        | inl e ↦ rw (check_ip, e) (check_endpoint-Keeps ctx now d1, λ p. refl)
        | inr e ↦
            rw (check_ip, e)
              (
                record { same_window = refl; same_rate = refl; same_counters = refl },
                λ p. ground (arith, p),
              )
      ])

pub detect_http_flood-Steps :
    (ip : String) (ctx : Request) (now : ℕ) (d : DdosProtection)
    → Steps ip ctx now d
        ((detect_http_flood ctx now d).0)
        (is_none ((detect_http_flood ctx now d).1))
unfolding detect_http_flood check_global_rate
detect_http_flood-Steps ip ctx now d =
    elim (Bool-cases ((check_rate d.window_size d.global_counter d.global_rate now).1)) [
      | inl e ↦
          let counter = (check_rate d.window_size d.global_counter d.global_rate now).0 in
          let h = check_ip-Steps ip ctx now (record d { global_counter = counter }) in
          rw (detect_http_flood, check_global_rate, e)
            (record { same_window = h.same_window; same_rate = h.same_rate; times = h.times })
      | inr e ↦
          rw (detect_http_flood, check_global_rate, e)
            (record { same_window = refl; same_rate = refl; times = inl (refl, refl) })
    ]
