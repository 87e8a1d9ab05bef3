-- ===== src/Behavioral/Burst.antt =====
-- What a burst does to Inspect of internal/engine/behavioral.go.
use fortress_waf.Base.{
  ℕ, suc, ◌+◌, ◌*◌, ◌≡◌, ◌≢◌, ◌<◌, ◌≤◌, refl, ap, ◌∙◌, true, false, Bool, String, List, [], ◌∷◌,
  ◌++◌, All, Option, none, some, arith, ltb, length, length-append, append_assoc, append_nil,
  if◌then◌else◌, Bool-cases, inl, inr, agrees_ne, text_keys,
}
use fortress_waf.Base.Map.{put, put_self}
use fortress_waf.Base.Fault.{Fault, ok, panic, ◌>>=◌}
use fortress_waf.Pipeline.Types.{Action}
use fortress_waf.Pipeline.Detection.{Detection, detection}
use fortress_waf.RateLimit.SlidingWindow.{recent}
use fortress_waf.Behavioral.Window.{SlidingWindow, add, new_sliding_window}
use fortress_waf.Behavioral.Inspect.{
  BehavioralEngine, Verdict, answered, scored, get_window, check_velocity, inspect, inspect_window,
  inspect_velocity,
}

-- Times that are all in the window that ends at `last`.
abbrev pub IsBurst : ℕ → ℕ → List ℕ → Type 0
IsBurst window last times = All (λ t. (t ≤ last) × (last < t + window)) times

recent-IsBurst :
    (window last now : ℕ) (times : List ℕ)
    → now ≤ last
    → IsBurst window last times
    → recent window now times ≡ times
recent-IsBurst window last now [] le h = refl
recent-IsBurst window last now (t ∷ times) le ((_, hi), h) =
    let e : ltb now (t + window) ≡ true = ground (arith, hi) in
    rw (e, recent-IsBurst window last now times le h) refl

IsBurst-snoc :
    (window last now : ℕ) (times : List ℕ)
    → IsBurst window last times
    → (now ≤ last) × (last < now + window)
    → IsBurst window last (times ++ now ∷ [])
IsBurst-snoc window last now [] h here = (here, tt)
IsBurst-snoc window last now (t ∷ times) (ht, h) here =
    (ht, IsBurst-snoc window last now times h here)

add-IsBurst :
    (window max_count last now : ℕ) (old : List ℕ)
    → IsBurst window last old
    → now ≤ last
    → add now (record { times = old; window = window; max = max_count }) ≡ (
        if ltb (length old) max_count
        then ok
            (record { times = old ++ now ∷ []; window = window; max = max_count }, suc (length old))
        else panic)
unfolding add
add-IsBurst window max_count last now old burst past =
    rw (recent-IsBurst window last now old past burst) refl

module _ (parts : String → List (List ℕ)) (looks_random : List ℕ → Bool) where
  -- Requests of an address at the given times, one after the other.
  unfoldable pub inspect_all : String → String → List ℕ → BehavioralEngine → Fault BehavioralEngine
  inspect_all ip path [] e = ok e
  inspect_all ip path (now ∷ times) e = do
    (e', d) ← inspect parts looks_random ip path now e
    inspect_all ip path times e'

  abbrev pub answer_of : Fault (BehavioralEngine × Option Detection) → Fault (Option Detection)
  answer_of panic = panic
  answer_of (ok (e, d)) = ok d

  inspect_velocity-state :
      (ip path : String) (count : ℕ) (e : BehavioralEngine) (v : Verdict)
      → (inspect_velocity parts looks_random ip path count e v).0 ≡ e
  unfolding inspect_velocity
  inspect_velocity-state ip path count e (answered d) = refl
  inspect_velocity-state ip path count e (scored s) = refl

  inspect-window :
      (ip path : String) (now : ℕ) (e : BehavioralEngine)
      → ip ≢ ""
      → e.velocity ≡ true
      → inspect parts looks_random ip path now e ≡ inspect_window parts looks_random ip path now e
  unfolding inspect
  inspect-window ip path now e named on = rw (inspect, agrees_ne ip "" named, on) refl

  -- The state with the new window of the address.
  abbrev with_window : String → SlidingWindow → BehavioralEngine → BehavioralEngine
  with_window ip sw e = record e { ip_requests = put ip sw e.ip_requests }

  get_window-with_window :
      (ip : String) (sw : SlidingWindow) (e : BehavioralEngine)
      → get_window ip (with_window ip sw e) ≡ sw
  unfolding get_window
  get_window-with_window ip sw e = rw (get_window, put_self ip sw e.ip_requests) refl

  inspect_window-ok :
      (ip path : String) (now count : ℕ) (sw : SlidingWindow) (e : BehavioralEngine)
      → add now (get_window ip e) ≡ ok (sw, count)
      → (d : Option Detection) × (inspect_window parts looks_random ip path now e
          ≡ ok (with_window ip sw e, d))
  unfolding inspect_window
  inspect_window-ok ip path now count sw e added =
      let r =
        inspect_velocity parts looks_random ip path count (with_window ip sw e)
          (check_velocity count e) in
      (
        r.1,
        rw added refl
            ∙ ap (λ s. ok (s, r.1))
                (inspect_velocity-state ip path count (with_window ip sw e)
                  (check_velocity count e)),
      )

  -- A burst that fits leaves the window with its times.
  abbrev Counted : String → String → List ℕ → BehavioralEngine → SlidingWindow → Type 0
  Counted ip path times e sw =
      (e' : BehavioralEngine) × (inspect_all ip path times e ≡ ok e')
      × (get_window ip e' ≡ sw)
      × (e'.velocity ≡ e.velocity)
      × (e'.dev_mode ≡ e.dev_mode)
      × (e'.max_requests ≡ e.max_requests)

  inspect_all-from :
      (ip path : String) (window max_count last : ℕ) (old times : List ℕ) (e : BehavioralEngine)
      → ip ≢ ""
      → e.velocity ≡ true
      → get_window ip e ≡ record { times = old; window = window; max = max_count }
      → IsBurst window last old
      → IsBurst window last times
      → length old + length times ≤ max_count
      → Counted ip path times e (record { times = old ++ times; window = window; max = max_count })
  unfolding inspect_all
  inspect_all-from ip path window max_count last old [] e named on here ho h fits =
      (e, refl, rw (append_nil old) here, refl, refl, refl)
  inspect_all-from ip path window max_count last old (now ∷ times) e named on here ho
        ((past, young), h) fits =
      let sw : SlidingWindow = record {
        times = old ++ now ∷ [];
        window = window;
        max = max_count;
      } in
      let room : ltb (length old) max_count ≡ true = ground (arith, fits) in
      let added : add now (get_window ip e) ≡ ok (sw, suc (length old)) =
        rw (here, add-IsBurst window max_count last now old ho past, room) refl in
      let (d, one) = inspect_window-ok ip path now (suc (length old)) sw e added in
      let (e', all, there, a, b, c) =
        inspect_all-from ip path window max_count last (old ++ now ∷ []) times (with_window ip sw e)
          named on (get_window-with_window ip sw e)
          (IsBurst-snoc window last now old ho (past, young)) h
          (omega (arith, length-append old (now ∷ []), fits)) in
      (
        e',
        rw (inspect_all, inspect-window ip path now e named on, one) all,
        rw (← append_assoc old (now ∷ []) times) there,
        a,
        b,
        c,
      )

  inspect_window-fast :
      (ip path : String) (now window max_count last : ℕ) (times : List ℕ) (e : BehavioralEngine)
      → get_window ip e ≡ record { times = times; window = window; max = max_count }
      → IsBurst window last times
      → now ≤ last
      → e.dev_mode ≡ false
      → e.max_requests * 2 ≤ length times
      → answer_of (inspect_window parts looks_random ip path now e) ≡ (
          if ltb (length times) max_count
          then ok (some (detection Action.block "BEH_002" "High Request Velocity" "critical" 65))
          else panic)
  unfolding inspect_window inspect_velocity check_velocity
  inspect_window-fast ip path now window max_count last times e here burst past quick many =
      let above : ltb e.max_requests (suc (length times)) ≡ true = ground (arith, many) in
      let twice : ltb (e.max_requests * 2) (suc (length times)) ≡ true = ground (arith, many) in
      let added = add-IsBurst window max_count last now times burst past in
      elim (Bool-cases (ltb (length times) max_count)) [
        | inl room ↦
            rw (inspect_window, check_velocity, here, added, room, above, twice, quick) refl
        | inr full ↦ rw (inspect_window, here, added, full) refl
      ]

  -- A new address, which is not the empty text, sends requests that all fall into one window, at least
  -- twice and at most ten times the limit of them, where Inspect tests the velocity and is not in
  -- development mode. None of them faults; and one more in that window is blocked for its velocity if there
  -- were fewer than ten times the limit, and else it panics.
  pub inspect_all-burst :
      (ip path : String) (last now : ℕ) (times : List ℕ) (e : BehavioralEngine)
      → ip ≢ ""
      → e.velocity ≡ true
      → e.dev_mode ≡ false
      → e.ip_requests ip ≡ none
      → IsBurst (e.window_sec * 1000000000) last times
      → now ≤ last
      → e.max_requests * 2 ≤ length times
      → length times ≤ e.max_requests * 10
      → (e' : BehavioralEngine) × (inspect_all ip path times e ≡ ok e')
        × (answer_of (inspect parts looks_random ip path now e') ≡ (
            if ltb (length times) (e.max_requests * 10)
            then ok (some (detection Action.block "BEH_002" "High Request Velocity" "critical" 65))
            else panic))
  unfolding get_window new_sliding_window
  inspect_all-burst ip path last now times e named on quick fresh burst past many fits =
      let window = e.window_sec * 1000000000 in
      let max_count = e.max_requests * 10 in
      let start : get_window ip e ≡ record { times = []; window = window; max = max_count } =
        rw (get_window, fresh) refl in
      let (e', all, there, a, b, c) =
        inspect_all-from ip path window max_count last [] times e named on start tt burst
          (omega (arith, fits)) in
      (
        e',
        all,
        ap answer_of (inspect-window ip path now e' named (a ∙ on))
            ∙ inspect_window-fast ip path now window max_count last times e' there burst past
                (b ∙ quick) (omega (arith, c, many)),
      )
