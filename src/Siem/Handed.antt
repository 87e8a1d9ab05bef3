-- ===== src/Siem/Handed.antt =====
-- What one exporter of internal/siem/siem.go is given in a flush.
use fortress_waf.Base.{
  ℕ, zero, suc, ◌+◌, ◌*◌, Bool, ◌≡◌, refl, sym, ◌∙◌, ap, String, List, [], ◌∷◌, ◌++◌, append_assoc,
  append_nil, some, if◌then◌else◌, ◌==◌, text_keys, Bool-cases, Option-cases, inl, inr, arith,
}
use text.Mathlib.TextEquality.{eq_iff}
use fortress_waf.Base.Map.{Map}
use fortress_waf.Siem.Manager.{ExporterConfig, Batch, hand_to, turn}

abbrev pub count_name : String → List String → ℕ
count_name name [] = 0
count_name name (n ∷ names) =
    let rest = count_name name names in if n == name then suc rest else rest

module _ {E : Type 0} where
  -- The events of all batches of one exporter, in order.
  abbrev pub received : String → List (String × List E) → List E
  received name [] = []
  received name ((n, events) ∷ later) =
      let rest = received name later in if n == name then events ++ rest else rest

  pub received-append :
      (name : String) (a b : List (String × List E))
      → received name (a ++ b) ≡ received name a ++ received name b
  received-append name [] b = refl
  received-append name ((n, events) ∷ a) b = elim (Bool-cases (n == name)) [
    | inl same ↦ rw same (
        ap (λ l. events ++ l) (received-append name a b)
        ∙ sym (append_assoc events (received name a) (received name b)))
    | inr other ↦ rw other (received-append name a b)
  ]

  -- How many events have a property.
  abbrev pub tally : (E → Bool) → List E → ℕ
  tally p [] = 0
  tally p (event ∷ events) = let rest = tally p events in if p event then suc rest else rest

  pub tally-append : (p : E → Bool) (a b : List E) → tally p (a ++ b) ≡ tally p a + tally p b
  tally-append p [] b = omega arith
  tally-append p (event ∷ a) b = ground (arith, tally-append p a b)

  -- How many of them the flushes that export have not given to an exporter yet.
  abbrev pub owed : String → (E → Bool) → List (Batch E) → ℕ
  owed name p [] = 0
  owed name p (batch ∷ batches) =
      count_name name batch.order * tally p batch.events + owed name p batches

  pub owed-append :
      (name : String) (p : E → Bool) (a b : List (Batch E))
      → owed name p (a ++ b) ≡ owed name p a + owed name p b
  owed-append name p [] b = omega arith
  owed-append name p (batch ∷ a) b = omega (arith, owed-append name p a b)

  -- A turn hands an exporter as many as it takes off what is owed to it.
  pub turn-owed :
      (exporters : Map String ExporterConfig) (c : ExporterConfig) (name : String) (p : E → Bool)
      (place : ℕ) (batches : List (Batch E))
      → exporters name ≡ some c
      → tally p (received name (turn exporters place batches).1)
          + owed name p (turn exporters place batches).0
        ≡ owed name p batches
  turn-owed exporters c name p place [] found = omega arith
  turn-owed exporters c name p zero (batch ∷ batches) found = one batch.order refl
    where
      one :
          (order : List String)
          → batch.order ≡ order
          → tally p (received name (turn exporters zero (batch ∷ batches)).1)
              + owed name p (turn exporters zero (batch ∷ batches)).0
            ≡ owed name p (batch ∷ batches)
      one [] e = rw e (omega arith)
      one (n ∷ names) e = rw e (elim (Bool-cases (n == name)) [
        | inl same ↦
            let here : exporters n ≡ some c =
              ap (λ k. exporters k) ((eq_iff n name).0 same) ∙ found in
            rw (turn, hand_to, here, same, append_nil batch.events) (omega arith)
        | inr other ↦ elim (Option-cases (exporters n)) [
          | inl missing ↦ rw (turn, hand_to, missing, other) (omega arith)
          | inr (d, there) ↦ rw (turn, hand_to, there, other) (omega arith)
        ]
      ])
  turn-owed exporters c name p (suc place) (batch ∷ batches) found =
      omega (arith, turn-owed exporters c name p place batches found)
