-- ===== src/Session/State.antt =====
-- The types of internal/session/session.go. A risk score is taken as a whole number. The
-- field `Metadata`, which no operation of the store reads, is left out.
use fortress_waf.Base.{ℕ, Bool, String, List}
use fortress_waf.Base.Map.{Map, empty}

pub record SessionDecision : Type 0 where
  pub rule_id : String
  pub action : String
  pub score : ℕ
  pub timestamp : ℕ

pub record Session : Type 0 where
  pub id : String
  pub user_id : String
  pub real_ip : String
  pub user_agent : String
  pub country : String
  pub asn : ℕ
  pub created_at : ℕ
  pub last_seen : ℕ
  pub request_count : ℕ
  pub risk_score : ℕ
  pub tags : List String
  pub blocked : Bool
  pub decisions : List SessionDecision
  pub fingerprint : String

-- `sessions` holds pointers in the source: a write through the pointer that is stored under a key is
-- a write of the entry.
pub record Store : Type 0 where
  pub sessions : Map String Session
  pub by_user : Map String String
  pub by_ip : Map String (List String)
  pub ttl : ℕ

abbrev pub new_store : ℕ → Store
new_store ttl = record { sessions = empty; by_user = empty; by_ip = empty; ttl = ttl }

abbrev pub minute : ℕ
minute = 60_000_000_000
