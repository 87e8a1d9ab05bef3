-- ===== src/Session/Sweep.antt =====
-- One tick of cleanupLoop of internal/session/session.go.
use fortress_waf.Base.{ℕ, ◌+◌, Bool, String, List, [], ◌∷◌, none, some, ltb, if◌then◌else◌}
use fortress_waf.Session.State.{Session, Store}
use fortress_waf.Session.Store.{remove}

-- `now.Sub(session.LastSeen) > s.ttl`
abbrev pub is_expired : ℕ → ℕ → Session → Bool
is_expired now ttl session = ltb (session.last_seen + ttl) now

-- The body of the loop at one key. A key that is gone is not visited.
unfoldable pub sweep_one : ℕ → String → Store → Store
sweep_one now id s = elim (s.sessions id) [
  | none ↦ s
  | some session ↦ if is_expired now s.ttl session then remove id session s else s
]

-- The loop, over the keys in the order of the visit.
unfoldable pub sweep : ℕ → List String → Store → Store
sweep now [] s = s
sweep now (id ∷ order) s = sweep now order (sweep_one now id s)
