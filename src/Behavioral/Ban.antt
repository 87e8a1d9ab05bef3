-- ===== src/Behavioral/Ban.antt =====
-- How long an address stays bad in internal/engine/behavioral.go.
use fortress_waf.Base.{
  ℕ, ◌+◌, ◌<◌, arith, agrees_ne, if_holds, ◌≡◌, ◌≢◌, refl, ◌∙◌, Bool, true, false, String, List, [],
  ◌∷◌, Option, none, some, All, ◌==◌, text_keys, Bool-cases, inl, inr, agrees_false→ne,
}
use text.Mathlib.TextEquality.{eq_iff}
use fortress_waf.Base.Int.{ℤ, pos, add_ℤ, ltb_ℤ, pos_part, neg_part}
use fortress_waf.Base.Fault.{ok}
use fortress_waf.Base.Map.{get_zero, put, put_self, put_ne}
use fortress_waf.Pipeline.Types.{Action}
use fortress_waf.Pipeline.Detection.{detection}
use fortress_waf.Behavioral.Inspect.{
  BehavioralEngine, report_bad_ip, increment_reputation, block_ip, cleanup, inspect,
  inspect_reputation, check_reputation,
}

-- The calls that change the reputation of addresses.
pub data Event : Type 0 where
  reported : String → Event
  incremented : String → ℤ → Event
  blocked : String → ℕ → ℕ → Event
  cleaned : ℕ → (String → Bool) → Event

abbrev pub apply : Event → BehavioralEngine → BehavioralEngine
apply (reported ip) e = report_bad_ip ip e
apply (incremented ip delta) e = increment_reputation ip delta e
apply (blocked ip duration now) e = block_ip ip duration now e
apply (cleaned now dropped) e = cleanup now dropped e

unfoldable pub apply_all : List Event → BehavioralEngine → BehavioralEngine
apply_all [] e = e
apply_all (event ∷ events) e = apply_all events (apply event e)

-- An event that is not a BlockIP of the address.
abbrev pub IsNoBlock : String → Event → Type 0
IsNoBlock ip (blocked other duration now) = other ≢ ip
IsNoBlock ip _ = Unit

-- The event reports the address, or takes its reputation above 100.
abbrev pub Lists : String → BehavioralEngine → Event → Type 0
Lists ip e (reported other) = other ≡ ip
Lists ip e (incremented other delta) =
    let rep = get_zero (pos 0) e.ip_reputation ip in
    (other ≡ ip) × (100 + neg_part rep + neg_part delta < pos_part rep + pos_part delta)
Lists ip e (blocked other duration now) = ⊥
Lists ip e (cleaned now dropped) = ⊥

-- Inspect looks at the reputation and not at the velocity, and BlockIP does not block the address.
abbrev pub IsWatched : String → BehavioralEngine → Type 0
IsWatched ip e = (e.blocked_ips ip ≡ none) × (e.reputation ≡ true) × (e.velocity ≡ false)

-- The address is bad, and not by BlockIP.
abbrev IsBanned : String → BehavioralEngine → Type 0
IsBanned ip e =
    (e.bad_ips ip ≡ some true)
    × (e.blocked_ips ip ≡ none)
    × (e.reputation ≡ true)
    × (e.velocity ≡ false)

still_bad :
    (key ip : String) (m : String → Option Bool) → m ip ≡ some true → put key true m ip ≡ some true
still_bad key ip m bad = elim (Bool-cases (key == ip)) [
  | inl same ↦ let e : key ≡ ip = (eq_iff key ip).0 same in rw e (put_self ip true m)
  | inr other ↦ put_ne key ip true m (agrees_false→ne key ip other) ∙ bad
]

apply-IsBanned :
    (ip : String) (event : Event) (e : BehavioralEngine)
    → IsNoBlock ip event
    → IsBanned ip e
    → IsBanned ip (apply event e)
unfolding report_bad_ip increment_reputation block_ip cleanup
apply-IsBanned ip (reported other) e free (bad, unblocked, on, off) =
    (still_bad other ip e.bad_ips bad, unblocked, on, off)
apply-IsBanned ip (incremented other delta) e free (bad, unblocked, on, off) =
    let rep = add_ℤ (get_zero (pos 0) e.ip_reputation other) delta in
    (
      if_holds (λ (m : String → Option Bool). m ip ≡ some true) (ltb_ℤ (pos 100) rep)
          (put other true e.bad_ips) e.bad_ips (still_bad other ip e.bad_ips bad) bad,
      unblocked,
      on,
      off,
    )
apply-IsBanned ip (blocked other duration now) e free (bad, unblocked, on, off) = (
  still_bad other ip e.bad_ips bad,
  put_ne other ip (now + duration) e.blocked_ips free ∙ unblocked,
  on,
  off,
)
apply-IsBanned ip (cleaned now dropped) e free (bad, unblocked, on, off) =
    (rw unblocked bad, rw unblocked refl, on, off)

apply_all-IsBanned :
    (ip : String) (events : List Event) (e : BehavioralEngine)
    → All (IsNoBlock ip) events
    → IsBanned ip e
    → IsBanned ip (apply_all events e)
unfolding apply_all
apply_all-IsBanned ip [] e free banned = banned
apply_all-IsBanned ip (event ∷ events) e (here, free) banned =
    apply_all-IsBanned ip events (apply event e) free (apply-IsBanned ip event e here banned)

apply-Lists :
    (ip : String) (event : Event) (e : BehavioralEngine)
    → Lists ip e event
    → IsWatched ip e
    → IsBanned ip (apply event e)
unfolding report_bad_ip increment_reputation
apply-Lists ip (reported other) e same (unblocked, on, off) =
    (rw same (put_self ip true e.bad_ips), unblocked, on, off)
apply-Lists ip (incremented other delta) e (same, above) (unblocked, on, off) =
    let high : ltb_ℤ (pos 100) (add_ℤ (get_zero (pos 0) e.ip_reputation ip) delta) ≡ true =
      above_100 (get_zero (pos 0) e.ip_reputation ip) delta above in
    (rw (same, high) (put_self ip true e.bad_ips), unblocked, on, off)
  where
    above_100 :
        (rep change : ℤ)
        → 100 + neg_part rep + neg_part change < pos_part rep + pos_part change
        → ltb_ℤ (pos 100) (add_ℤ rep change) ≡ true
    above_100 rep change h = ground (arith, h)
apply-Lists ip (blocked other duration now) e h watched = absurd h
apply-Lists ip (cleaned now dropped) e h watched = absurd h

module _ (parts : String → List (List ℕ)) (looks_random : List ℕ → Bool) where
  inspect_bad :
      (ip path : String) (now : ℕ) (e : BehavioralEngine)
      → ip ≢ ""
      → IsBanned ip e
      → inspect parts looks_random ip path now e
        ≡ ok (e, some (detection Action.block "BEH_010" "Known Bad IP" "critical" 90))
  unfolding inspect inspect_reputation check_reputation
  inspect_bad ip path now e named (bad, unblocked, on, off) =
      rw (inspect, inspect_reputation, check_reputation, agrees_ne ip "" named, off, on, bad) refl

  -- Where Inspect looks at the reputation and not at the velocity, and BlockIP has not blocked the
  -- address and does not later, an address, not the empty text, that ReportBadIP has listed, or
  -- IncrementReputation, by taking its reputation above 100, is blocked as a known bad one by every Inspect
  -- after any further reports, changes of reputation, blocks of other addresses and cleanups: none of these
  -- takes it off the list.
  pub inspect-apply_all :
      (ip path : String) (now : ℕ) (event : Event) (events : List Event) (e : BehavioralEngine)
      → ip ≢ ""
      → IsWatched ip e
      → Lists ip e event
      → All (IsNoBlock ip) events
      → inspect parts looks_random ip path now (apply_all (event ∷ events) e)
        ≡ ok (
          apply_all (event ∷ events) e,
          some (detection Action.block "BEH_010" "Known Bad IP" "critical" 90),
        )
  unfolding apply_all
  inspect-apply_all ip path now event events e named watched lists free =
      inspect_bad ip path now (apply_all (event ∷ events) e) named
        (apply_all-IsBanned ip events (apply event e) free (apply-Lists ip event e lists watched))
