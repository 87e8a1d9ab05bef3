-- ===== src/Audit/Log.antt =====
-- AuditLog of internal/compliance/audit.go. The hash (SHA-256 in hexadecimal digits) and the texts that
-- fmt and time make of a number and of a time are parameters.
use Prim.Native.String.{◌++◌ as ◌<>◌}
use fortress_waf.Base.{
  ℕ, ◌+◌, Bool, true, not, String, List, [], ◌∷◌, ◌++◌, Option, none, some, length, filter, ltb,
  nat_beq, if◌then◌else◌, ◌&&◌, ◌||◌, ◌==◌, text_keys,
}

pub record AuditEntry : Type 0 where
  pub id : String
  pub timestamp : ℕ
  pub actor_id : String
  pub actor_type : String
  pub actor_ip : String
  pub action : String
  pub resource : String
  pub resource_id : String
  pub result : String
  pub metadata : String
  pub hash : String
  pub prev_hash : String

pub record AuditLog : Type 0 where
  pub entries : List AuditEntry
  pub last_hash : String
  pub immutable : Bool

pub record AuditFilter : Type 0 where
  pub actor_id : String
  pub action : String
  pub resource : String
  pub from : ℕ
  pub to : ℕ

pub record Formats : Type 0 where
  pub sha256_hex : String → String
  pub show_number : ℕ → String
  pub show_time : ℕ → String

pub data AppendError : Type 0 where
  log_is_immutable : AppendError

-- The place of the entry, and for the second the hash that was expected and the one that stands there.
pub data ChainError : Type 0 where
  first_has_prev_hash : ℕ → ChainError
  wrong_prev_hash : ℕ → String → String → ChainError

abbrev pub new_audit_log : AuditLog
new_audit_log = record { entries = []; last_hash = ""; immutable = true }

module _ (formats : Formats) where
  -- `data` of Append.
  abbrev pub entry_data : AuditEntry → String
  entry_data e =
      e.id
      <> "|"
      <> formats.show_time e.timestamp
      <> "|"
      <> e.actor_id
      <> "|"
      <> e.actor_type
      <> "|"
      <> e.actor_ip
      <> "|"
      <> e.action
      <> "|"
      <> e.resource
      <> "|"
      <> e.resource_id
      <> "|"
      <> e.result

  -- The entry that Append stores.
  abbrev pub sealed : ℕ → AuditEntry → AuditLog → AuditEntry
  sealed now entry log =
      let stamped = record entry {
        timestamp = now;
        id = "audit-" <> formats.show_number (length log.entries + 1);
        prev_hash = log.last_hash;
      } in
      record stamped { hash = formats.sha256_hex (log.last_hash <> entry_data stamped) }

  -- Append
  unfoldable pub append : ℕ → AuditEntry → AuditLog → AuditLog × Option AppendError
  append now entry log = if log.immutable then (log, some log_is_immutable) else (
    record log {
      entries = log.entries ++ sealed now entry log ∷ [];
      last_hash = (sealed now entry log).hash;
    },
    none,
  )

abbrev pub passes : AuditFilter → AuditEntry → Bool
passes f entry =
    (f.actor_id == "" || f.actor_id == entry.actor_id)
    && (f.action == "" || f.action == entry.action)
    && (f.resource == "" || f.resource == entry.resource)
    && not (ltb entry.timestamp f.from || ltb f.to entry.timestamp)

-- Query
unfoldable pub query : AuditFilter → AuditLog → List AuditEntry
query f log = filter (passes f) log.entries

-- The loop of VerifyIntegrity.
unfoldable pub verify_from : ℕ → String → List AuditEntry → Option ChainError
verify_from i prev_hash [] = none
verify_from i prev_hash (entry ∷ entries) =
    let rest = verify_from (i + 1) entry.hash entries in
    if nat_beq i 0 && not (entry.prev_hash == "")
    then some (first_has_prev_hash i)
    else if not (entry.prev_hash == prev_hash)
    then some (wrong_prev_hash i prev_hash entry.prev_hash)
    else rest

-- VerifyIntegrity
unfoldable pub verify_integrity : AuditLog → Option ChainError
verify_integrity log = verify_from 0 "" log.entries
