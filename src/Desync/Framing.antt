-- ===== src/Desync/Framing.antt =====
-- The requests that Inspect of internal/engine/desync.go lets pass.
use mathlib.Core.List.{Memᴰ}
use mathlib.Core.List.Memᴰ as Memᴰ
use fortress_waf.Base.{
  ℕ, ◌≤◌, ◌≡◌, refl, sym, ◌∙◌, Bool, true, false, String, List, [], ◌∷◌, Option, none, some, ◌⊎◌,
  inl, inr, length, any, ltb, lt→ltb, ltb→lt, ltb_false→le, length-filter-le, map, ◌||◌, ◌&&◌, not,
  if◌then◌else◌, ◌==◌, text_keys, Bool-cases, arith,
}
use text.Mathlib.TextEquality.{eq_iff}
use fortress_waf.Base.Int.{ℤ, pos, negsuc, ltb_ℤ}
use fortress_waf.Pipeline.Detection.{Detection}
use fortress_waf.Desync.Checks.{
  HeaderLibrary, HeaderRequest, DesyncDetector, first_value, is_mixed, or_else, is_chunked,
  lengths_of, check_lengths, check_clte, check_tecl, check_length, check_parsed,
  check_content_length_anomaly, check_te_header, inspect,
}

or_else-none : (a b : Option Detection) → or_else a b ≡ none → (a ≡ none) × (b ≡ none)
or_else-none none b h = (refl, h)
or_else-none (some d) b h = absurd (ground (arith, h))

-- A test that answers where it holds has answered nothing.
test-none :
    (b : Bool) (d : Detection) (later : Option Detection)
    → (if b then some d else later) ≡ none
    → (b ≡ false) × (later ≡ none)
test-none true d later h = absurd (ground (arith, h))
test-none false d later h = (refl, h)

and-false : (a b : Bool) → (not a && b) ≡ false → (a ≡ true) ⊎ (b ≡ false)
and-false a b h = ground (arith, h)

-- Values none of which differs from the first are all the same.
is_mixed-false :
    (vs : List String) (u v : String) → is_mixed vs ≡ false → Memᴰ u vs → Memᴰ v vs → u ≡ v
is_mixed-false [] u v h mu mv = absurd (Memᴰ.not-nil mu)
is_mixed-false (first ∷ rest) u v h mu mv = is_first u mu ∙ sym (is_first v mv)
  where
    none_other :
        (ws : List String) (w : String)
        → any (λ x. not (x == first)) ws ≡ false
        → Memᴰ w ws
        → w ≡ first
    none_other [] w e m = absurd (Memᴰ.not-nil m)
    none_other (x ∷ ws) w e (Memᴰ.head same) = same ∙ (eq_iff x first).0 (ground (arith, e))
    none_other (x ∷ ws) w e (Memᴰ.tail m) = none_other ws w (ground (arith, e)) m

    is_first : (w : String) → Memᴰ w (first ∷ rest) → w ≡ first
    is_first w (Memᴰ.head same) = same
    is_first w (Memᴰ.tail m) = none_other rest w h m

is_mixed-short : (vs : List String) → length vs ≤ 1 → is_mixed vs ≡ false
is_mixed-short [] h = refl
is_mixed-short (v ∷ []) h = refl
is_mixed-short (v ∷ w ∷ vs) h = absurd (omega (arith, h))

length-map-le : (f : String → String) (vs : List String) → length (map f vs) ≤ length vs
length-map-le f [] = omega arith
length-map-le f (v ∷ vs) = omega (arith, length-map-le f vs)

-- No first length stands beside a first encoding that is chunked, the
-- lengths that are not blank are the same text, the first one, if it is not blank, is a number from 0 to the
-- limit, if there is one, and the first value of TE names neither chunked nor trailers.
pub record IsFramed (lib : HeaderLibrary) (d : DesyncDetector) (r : HeaderRequest) : Type 0 where
  pub one_of_two :
      (first_value (r.values "Content-Length") ≡ "")
      ⊎ (is_chunked lib (first_value (r.values "Transfer-Encoding")) ≡ false)
  pub one_length :
      (u v : String)
      → Memᴰ u (lengths_of lib (r.values "Content-Length"))
      → Memᴰ v (lengths_of lib (r.values "Content-Length"))
      → u ≡ v
  pub a_number :
      (v : String) (vs : List String)
      → r.values "Content-Length" ≡ v ∷ vs
      → (lib.trim_space v == "") ≡ false
      → (n : ℕ) × (lib.parse_int (lib.trim_space v) ≡ some (pos n))
        × ((ltb_ℤ (pos 0) d.max_body_size ≡ false) ⊎ (ltb_ℤ d.max_body_size (pos n) ≡ false))
  pub plain_te :
      (first_value (r.values "TE") ≡ "")
      ⊎ ((lib.contains (lib.to_lower (first_value (r.values "TE"))) "chunked" ≡ false)
          × (lib.contains (lib.to_lower (first_value (r.values "TE"))) "trailers" ≡ false))

module _ (lib : HeaderLibrary) where
  check_lengths-none :
      (cls : List String) → check_lengths lib cls ≡ none → is_mixed (lengths_of lib cls) ≡ false
  unfolding check_lengths
  check_lengths-none cls h = elim (Bool-cases (is_mixed (lengths_of lib cls))) [
    | inr same ↦ same
    | inl mixed ↦ elim (Bool-cases (ltb 1 (length (lengths_of lib cls)))) [
      | inr short ↦ is_mixed-short (lengths_of lib cls) (ltb_false→le 1 _ short)
      | inl long ↦
          let more = ltb→lt 1 (length (lengths_of lib cls)) long in
          let all : ltb 1 (length cls) ≡ true = lt→ltb 1 (length cls) (
            omega (
              arith,
              more,
              length-filter-le (λ v. not (v == "")) (map lib.trim_space cls),
              length-map-le lib.trim_space cls,
            )) in
          absurd
            (let e : some _ ≡ none = rw (check_lengths, all, long, mixed) at h in ground (arith, e))
    ]
  ]

  check_parsed-none :
      (d : DesyncDetector) (o : Option ℤ)
      → check_parsed d o ≡ none
      → (n : ℕ) × (o ≡ some (pos n))
        × ((ltb_ℤ (pos 0) d.max_body_size ≡ false) ⊎ (ltb_ℤ d.max_body_size (pos n) ≡ false))
  unfolding check_length
  check_parsed-none d none h = absurd (ground (arith, h))
  check_parsed-none d (some (negsuc n)) h = absurd (ground (arith, h))
  check_parsed-none d (some (pos n)) h =
      (n, refl, and_test _ _ (test-none _ _ none (test-none _ _ _ h).1).0)
    where
      and_test : (a b : Bool) → (a && b) ≡ false → (a ≡ false) ⊎ (b ≡ false)
      and_test a b e = ground (arith, e)

  anomaly-none :
      (d : DesyncDetector) (values : List String) (v : String) (vs : List String)
      → values ≡ v ∷ vs
      → (lib.trim_space v == "") ≡ false
      → check_content_length_anomaly lib d values ≡ none
      → check_parsed d (lib.parse_int (lib.trim_space v)) ≡ none
  unfolding check_content_length_anomaly
  anomaly-none d values v vs is_values full h =
      rw (check_content_length_anomaly, is_values, full) at h

  te-none :
      (r : HeaderRequest)
      → check_te_header lib r ≡ none
      → (first_value (r.values "TE") ≡ "")
        ⊎ ((lib.contains (lib.to_lower (first_value (r.values "TE"))) "chunked" ≡ false)
            × (lib.contains (lib.to_lower (first_value (r.values "TE"))) "trailers" ≡ false))
  unfolding check_te_header
  te-none r h =
      let te = first_value (r.values "TE") in
      elim (and-false _ _ (test-none _ _ none h).0) [
        | inl missing ↦ inl ((eq_iff te "").0 missing)
        | inr plain ↦ inr (or_false _ _ plain)
      ]
    where
      or_false : (a b : Bool) → (a || b) ≡ false → (a ≡ false) × (b ≡ false)
      or_false a b e = ground (arith, e)

  clte-none :
      (r : HeaderRequest)
      → check_clte lib r ≡ none
      → ((first_value (r.values "Content-Length") ≡ "")
          ⊎ (is_chunked lib (first_value (r.values "Transfer-Encoding")) ≡ false))
        × (check_lengths lib (r.values "Content-Length") ≡ none)
  unfolding check_clte
  clte-none r h =
      let (tested, lengths) = test-none _ _ _ h in
      (
        elim (and-false _ _ tested) [
          | inl missing ↦ inl ((eq_iff (first_value (r.values "Content-Length")) "").0 missing)
          | inr plain ↦ inr plain
        ],
        lengths,
      )

  -- Of a request that Inspect lets pass: its first Content-Length is missing or empty, or its first
  -- Transfer-Encoding is not chunked; the values of Content-Length that are not blank are the same text; the
  -- first one, if it is not blank, is a number from 0 to the limit, if there is one; and its first TE is
  -- missing or empty, or names neither chunked nor trailers.
  pub inspect-IsFramed :
      (d : DesyncDetector) (r : HeaderRequest) → inspect lib d (some r) ≡ none → IsFramed lib d r
  unfolding inspect
  inspect-IsFramed d r h =
      let (clte, h1) = or_else-none _ _ h in
      let (tecl, h2) = or_else-none _ _ h1 in
      let (fold, h3) = or_else-none _ _ h2 in
      let (anomaly, h4) = or_else-none _ _ h3 in
      let (duplicate, te) = or_else-none _ _ h4 in
      let (framing, lengths) = clte-none r clte in
      record {
        one_of_two = framing;
        one_length = λ u v mu mv.
            is_mixed-false _ u v (check_lengths-none (r.values "Content-Length") lengths) mu mv;
        a_number = λ v vs is_values full.
            check_parsed-none d _
              (anomaly-none d (r.values "Content-Length") v vs is_values full anomaly);
        plain_te = te-none r te;
      }

  -- The check of TE.CL never answers where Inspect reaches it: it answers exactly where a length stands beside a
  -- chunked encoding, and there the check of CL.TE has answered before.
  pub check_tecl-check_clte :
      (r : HeaderRequest) → check_clte lib r ≡ none → check_tecl lib r ≡ none
  unfolding check_tecl
  check_tecl-check_clte r h = elim (clte-none r h).0 [
    | inl missing ↦ rw (check_tecl, missing) (ground arith)
    | inr plain ↦ rw (check_tecl, plain) refl
  ]
