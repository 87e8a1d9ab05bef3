-- ===== src/Audit/Chain.antt =====
-- The chain of hashes of internal/compliance/audit.go.
use fortress_waf.Base.{
  ℕ, ◌+◌, ◌≡◌, refl, sym, Bool, String, List, [], ◌∷◌, ◌++◌, none, map, text_keys, arith,
  Bool-cases, inl, inr,
}
use fortress_waf.Audit.Log.{
  AuditEntry, AuditLog, Formats, new_audit_log, append, sealed, verify_from, verify_integrity,
}

-- The entries with the times at which they are appended, the first one first; errors are passed over.
abbrev pub append_all : Formats → List (ℕ × AuditEntry) → AuditLog → AuditLog
append_all formats [] log = log
append_all formats ((now, entry) ∷ later) log =
    append_all formats later (append formats now entry log).0

-- The hash that an entry after these would have to name.
abbrev last_of : String → List AuditEntry → String
last_of prev_hash [] = prev_hash
last_of prev_hash (entry ∷ entries) = last_of entry.hash entries

verify_from-snoc :
    (i : ℕ) (prev_hash : String) (entries : List AuditEntry) (entry : AuditEntry)
    → verify_from i prev_hash entries ≡ none
    → entry.prev_hash ≡ last_of prev_hash entries
    → (i ≡ 0 → prev_hash ≡ "")
    → verify_from i prev_hash (entries ++ entry ∷ []) ≡ none
unfolding verify_from
verify_from-snoc i prev_hash [] entry good links start = ground (
  arith,
  links,
  start,
  text_keys.agrees_iff entry.prev_hash "",
  text_keys.agrees_iff entry.prev_hash prev_hash,
)
verify_from-snoc i prev_hash (x ∷ xs) entry good links start =
    let rest : verify_from (i + 1) x.hash xs ≡ none
        → verify_from (i + 1) x.hash (xs ++ entry ∷ []) ≡ none =
      (λ good'.
        verify_from-snoc (i + 1) x.hash xs entry good' links
          (λ none_left. absurd (omega (arith, none_left)))) in
    ground (arith, good, rest)

last_of-snoc :
    (prev_hash : String) (entries : List AuditEntry) (entry : AuditEntry)
    → last_of prev_hash (entries ++ entry ∷ []) ≡ entry.hash
last_of-snoc prev_hash [] entry = refl
last_of-snoc prev_hash (x ∷ xs) entry = last_of-snoc x.hash xs entry

abbrev IsChained : AuditLog → Type 0
IsChained log = (verify_integrity log ≡ none) × (log.last_hash ≡ last_of "" log.entries)

append-IsChained :
    (formats : Formats) (now : ℕ) (entry : AuditEntry) (log : AuditLog)
    → IsChained log
    → IsChained (append formats now entry log).0
unfolding append verify_integrity
append-IsChained formats now entry log (good, last) = elim (Bool-cases log.immutable) [
  | inl closed ↦ rw closed (good, last)
  | inr writable ↦ rw writable (
    verify_from-snoc 0 "" log.entries (sealed formats now entry log) good last (λ _. refl),
    sym (last_of-snoc "" log.entries (sealed formats now entry log)),
  )
]

append_all-IsChained :
    (formats : Formats) (later : List (ℕ × AuditEntry)) (log : AuditLog)
    → IsChained log
    → IsChained (append_all formats later log)
append_all-IsChained formats [] log h = h
append_all-IsChained formats ((now, entry) ∷ later) log h =
    append_all-IsChained formats later (append formats now entry log).0
      (append-IsChained formats now entry log h)

-- A log that is empty to begin with, whether it can be written or not, passes VerifyIntegrity after
-- any entries are appended at any times, whatever the hash function is.
pub verify_integrity-append_all :
    (formats : Formats) (later : List (ℕ × AuditEntry)) (immutable : Bool)
    → verify_integrity
        (append_all formats later (record { entries = []; last_hash = ""; immutable = immutable }))
      ≡ none
unfolding verify_integrity verify_from
verify_integrity-append_all formats later immutable =
    (append_all-IsChained formats later
      (record { entries = []; last_hash = ""; immutable = immutable }) (refl, refl)).0

verify_from-map :
    (change : AuditEntry → AuditEntry) (i : ℕ) (prev_hash : String) (entries : List AuditEntry)
    → ((e : AuditEntry) → (change e).hash ≡ e.hash)
    → ((e : AuditEntry) → (change e).prev_hash ≡ e.prev_hash)
    → verify_from i prev_hash (map change entries) ≡ verify_from i prev_hash entries
unfolding verify_from
verify_from-map change i prev_hash [] same_hash same_prev = refl
verify_from-map change i prev_hash (e ∷ es) same_hash same_prev =
    rw (same_hash e, same_prev e, verify_from-map change (i + 1) e.hash es same_hash same_prev) refl

-- VerifyIntegrity reads nothing but the hashes: any change of the entries that leaves their two
-- hashes, such as another actor, action or result, leaves its verdict.
pub verify_integrity-map :
    (change : AuditEntry → AuditEntry) (log : AuditLog)
    → ((e : AuditEntry) → (change e).hash ≡ e.hash)
    → ((e : AuditEntry) → (change e).prev_hash ≡ e.prev_hash)
    → verify_integrity (record log { entries = map change log.entries }) ≡ verify_integrity log
unfolding verify_integrity
verify_integrity-map change log same_hash same_prev =
    verify_from-map change 0 "" log.entries same_hash same_prev

-- A log that NewAuditLog makes holds no entry after any calls of Append.
pub append_all-new_audit_log :
    (formats : Formats) (later : List (ℕ × AuditEntry))
    → append_all formats later new_audit_log ≡ new_audit_log
unfolding append
append_all-new_audit_log formats [] = refl
append_all-new_audit_log formats ((now, entry) ∷ later) = append_all-new_audit_log formats later
