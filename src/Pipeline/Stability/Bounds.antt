-- ===== src/Pipeline/Stability/Bounds.antt =====
-- The records of rules that the operations of internal/engine/confidence.go reach.
use native.Mathlib.Nat.{mul_assoc, mul-le-mul_right}
use fortress_waf.Base.{
  ℕ, ◌+◌, ◌-◌, ◌*◌, ◌≤◌, ◌<◌, ◌≡◌, refl, sym, ◌∙◌, ap, subst, false, String, List, [], ◌∷◌, Option,
  none, some, ltb, ltb_false→le, nat_beq, ◌==◌, text_keys, Bool-cases, inl, inr, arith,
}
use fortress_waf.Base.Map.{empty, put}
use fortress_waf.Pipeline.Stability.{
  Fraction, fraction, RuleConfidence, Scorer, get_or_create, at_most_99, raised, confirm,
  record_true_positive, lowered, refute, record_false_positive, keep_rule, cleanup,
}

-- A fraction from 1/2 to 99/100.
pub record IsBase (b : Fraction) : Type 0 where
  pub positive : 0 < b.den
  pub at_least : b.den ≤ 2 * b.num
  pub at_most : 100 * b.num ≤ 99 * b.den

at_most_99-IsBase : (b : Fraction) → 0 < b.den → b.den ≤ 2 * b.num → IsBase (at_most_99 b)
unfolding at_most_99
at_most_99-IsBase b p low = elim (Bool-cases (ltb (99 * b.den) (100 * b.num))) [
  | inl above ↦
      let e : IsBase (fraction 99 100) = record {
        positive = omega arith;
        at_least = omega arith;
        at_most = omega arith;
      } in
      rw (at_most_99, above) e
  | inr below ↦
      let e : IsBase b = record {
        positive = p;
        at_least = low;
        at_most = ltb_false→le (99 * b.den) _ below;
      } in
      rw (at_most_99, below) e
]

lowered-IsBase :
    (wrong total : ℕ) (b : Fraction) → 0 < total → IsBase b → IsBase (lowered wrong total b)
unfolding lowered
lowered-IsBase wrong total b some_total base =
    let x = b.num * (5 * total) in
    let y = b.den * (5 * total) in
    let z = b.den * wrong in
    elim (Bool-cases (ltb (2 * x) (y + 2 * z))) [
      | inl below ↦
          let e : IsBase (fraction 1 2) = record {
            positive = omega arith;
            at_least = omega arith;
            at_most = omega arith;
          } in
          rw (lowered, below) e
      | inr above ↦
          let enough = ltb_false→le (2 * x) (y + 2 * z) above in
          let scaled : (100 * b.num) * (5 * total) ≤ (99 * b.den) * (5 * total) =
            mul-le-mul_right (5 * total) base.at_most in
          let one : 1 * (5 * total) ≤ b.den * (5 * total) =
            mul-le-mul_right (5 * total) base.positive in
          let left : (100 * b.num) * (5 * total) ≡ 100 * x = mul_assoc 100 b.num (5 * total) in
          let right : (99 * b.den) * (5 * total) ≡ 99 * y = mul_assoc 99 b.den (5 * total) in
          let e : IsBase (fraction (x - z) y) = record {
            positive = omega (arith, one, some_total);
            at_least = omega (arith, enough);
            at_most = omega (arith, scaled, left, right);
          } in
          rw (lowered, above) e
    ]

-- A record whose counts add up and whose base is in range.
record IsUsable (rc : RuleConfidence) : Type 0 where
  adds_up : rc.confirmed_bad + rc.false_positives ≡ rc.total_decisions
  based : IsBase rc.base_confidence

-- A record of at least one decision, whose counts add up and whose base confidence lies from 0.5 to 0.99.
pub record IsSound (rc : RuleConfidence) : Type 0 where
  pub decided : 0 < rc.total_decisions
  pub adds_up : rc.confirmed_bad + rc.false_positives ≡ rc.total_decisions
  pub based : IsBase rc.base_confidence

get_or_create-IsUsable :
    (now : ℕ) (o : Option RuleConfidence)
    → ((rc : RuleConfidence) → o ≡ some rc → IsSound rc)
    → IsUsable (get_or_create now o)
get_or_create-IsUsable now none h = record {
  adds_up = refl;
  based = record { positive = omega arith; at_least = omega arith; at_most = omega arith };
}
get_or_create-IsUsable now (some rc) h =
    let sound = h rc refl in record { adds_up = sound.adds_up; based = sound.based }

confirm-IsSound : (now : ℕ) (rc : RuleConfidence) → IsUsable rc → IsSound (confirm now rc)
unfolding confirm
confirm-IsSound now rc u = record {
  decided = omega arith;
  adds_up = omega (arith, u.adds_up);
  based =
      at_most_99-IsBase (raised rc.base_confidence) (omega (arith, (u.based).positive))
        (omega (arith, (u.based).at_least));
}

refute-IsSound : (now : ℕ) (rc : RuleConfidence) → IsUsable rc → IsSound (refute now rc)
unfolding refute
refute-IsSound now rc u = record {
  decided = omega arith;
  adds_up = omega (arith, u.adds_up);
  based =
      lowered-IsBase (rc.false_positives + 1) (rc.total_decisions + 1) rc.base_confidence
        (omega arith) u.based;
}

pub data Event : Type 0 where
  confirms refutes : ℕ → String → Event
  cleans : ℕ → Event

abbrev pub happens : Event → Scorer → Scorer
happens (confirms now id) cs = record_true_positive now id cs
happens (refutes now id) cs = record_false_positive now id cs
happens (cleans now) cs = cleanup now cs

-- The last event stands first.
abbrev pub after_events : List Event → Scorer
after_events [] = empty
after_events (event ∷ earlier) = happens event (after_events earlier)

Sound : Scorer → Type 0
Sound cs = (id : String) (rc : RuleConfidence) → cs id ≡ some rc → IsSound rc

put-Sound :
    (id : String) (rc : RuleConfidence) (cs : Scorer) → IsSound rc → Sound cs → Sound (put id rc cs)
unfolding Sound
put-Sound id rc cs s all other rc' h = elim (Bool-cases (id == other)) [
  | inl same ↦
      let e : some rc ≡ some rc' = rw same at h in
      subst IsSound (ap (λ (o : Option RuleConfidence). elim o [ none ↦ rc | some k ↦ k ]) e) s
  | inr differ ↦ all other rc' (rw differ at h)
]

-- What a cleanup keeps of a sound record, or of none, is all of it.
keep_rule-Sound :
    (now : ℕ) (o : Option RuleConfidence)
    → ((rc : RuleConfidence) → o ≡ some rc → IsSound rc)
    → keep_rule now o ≡ o
keep_rule-Sound now none h = refl
keep_rule-Sound now (some rc) h =
    let some_decision = (h rc refl).decided in
    let counted : nat_beq rc.total_decisions 0 ≡ false = ground (arith, some_decision) in
    rw (keep_rule, counted) (ground arith)

after_events-Sound : (events : List Event) → Sound (after_events events)
unfolding Sound record_true_positive record_false_positive cleanup
after_events-Sound [] id rc h = absurd (ground (arith, h))
after_events-Sound (confirms now key ∷ earlier) id rc h =
    let all = after_events-Sound earlier in
    put-Sound key _ (after_events earlier)
      (confirm-IsSound now _ (get_or_create-IsUsable now (after_events earlier key) (all key))) all
      id rc h
after_events-Sound (refutes now key ∷ earlier) id rc h =
    let all = after_events-Sound earlier in
    put-Sound key _ (after_events earlier)
      (refute-IsSound now _ (get_or_create-IsUsable now (after_events earlier key) (all key))) all
      id rc h
after_events-Sound (cleans now ∷ earlier) id rc h =
    let all = after_events-Sound earlier id in
    all rc (sym (keep_rule-Sound now (after_events earlier id) all) ∙ h)

-- Whatever was confirmed, refuted and cleaned up, the record of a rule has at least one decision, its confirmed and
-- false ones add up to all, and its base confidence lies from 0.5 to 0.99.
pub after_events-IsSound :
    (events : List Event) (id : String) (rc : RuleConfidence)
    → after_events events id ≡ some rc
    → IsSound rc
unfolding Sound
after_events-IsSound events id rc h = after_events-Sound events id rc h

-- A tick of the cleanup forgets no rule, whenever it comes.
pub cleanup-after_events :
    (events : List Event) (now : ℕ) (id : String)
    → cleanup now (after_events events) id ≡ after_events events id
unfolding cleanup Sound
cleanup-after_events events now id =
    keep_rule-Sound now (after_events events id) (after_events-Sound events id)
