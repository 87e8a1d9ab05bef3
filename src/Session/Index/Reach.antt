-- ===== src/Session/Index/Reach.antt =====
-- The stores that the operations of internal/session/session.go reach.
use fortress_waf.Base.{ℕ, ◌≡◌, refl, String, List, none, text_keys}
use fortress_waf.Base.Map.{Map}
use fortress_waf.Session.State.{Session, Store, new_store}
use fortress_waf.Session.Store.{
  create, get_or_create, update, delete_session, add_risk_score, deserialize,
}
use fortress_waf.Session.Sweep.{sweep}
use fortress_waf.Session.Index.{IsIndexed}
use fortress_waf.Session.Index.Restore.{IsRestorable, deserialize-IsIndexed}
use fortress_waf.Session.Index.Operations.{
  create-IsIndexed, get_or_create-IsIndexed, update-IsIndexed, delete_session-IsIndexed,
  add_risk_score-IsIndexed, sweep-IsIndexed,
}

-- One operation that changes the store. The random id of a new session is one that is not in use, and
-- the function that a caller hands to Update leaves the id, the address and the user alone.
-- Deserialize runs on a store whose indices have no entry, on sessions stored under their own ids; only
-- it enters users into their index.
pub data Step (s : Store) : Store → Type 0 where
  creates :
      (id ip user_agent : String) (created seen : ℕ)
      → s.sessions id ≡ none
      → Step s (create id ip user_agent created seen s).0
  gets_or_creates :
      (id ip user_agent fresh : String) (created now : ℕ)
      → s.sessions fresh ≡ none
      → Step s (get_or_create id ip user_agent fresh created now s).0
  updates :
      (id : String) (fn : Session → Session) (now : ℕ)
      → ((x : Session) → (fn x).id ≡ x.id)
      → ((x : Session) → (fn x).real_ip ≡ x.real_ip)
      → ((x : Session) → (fn x).user_id ≡ x.user_id)
      → Step s (update id fn now s)
  deletes : (id : String) → Step s (delete_session id s)
  scores :
      (id : String) (score : ℕ) (rule_id action : String) (now : ℕ)
      → Step s (add_risk_score id score rule_id action now s)
  sweeps : (now : ℕ) (order : List String) → Step s (sweep now order s)
  restores :
      (decoded : Map String Session) (order : List String)
      → IsRestorable decoded order s
      → Step s (deserialize decoded order s)

pub data Reach (s : Store) : Store → Type 0 where
  here : Reach s s
  next : {t u : Store} → Reach s t → Step t u → Reach s u

Step-IsIndexed : {s t : Store} → Step s t → IsIndexed s → IsIndexed t
Step-IsIndexed {s} (creates id ip ua created seen fresh) h =
    create-IsIndexed id ip ua created seen s fresh h
Step-IsIndexed {s} (gets_or_creates id ip ua fresh created now unused) h =
    get_or_create-IsIndexed id ip ua fresh created now s unused h
Step-IsIndexed {s} (updates id fn now a b c) h = update-IsIndexed id fn now s a b c h
Step-IsIndexed {s} (deletes id) h = delete_session-IsIndexed id s h
Step-IsIndexed {s} (scores id score rule_id action now) h =
    add_risk_score-IsIndexed id score rule_id action now s h
Step-IsIndexed {s} (sweeps now order) h = sweep-IsIndexed now order s h
Step-IsIndexed {s} (restores decoded order restorable) h =
    deserialize-IsIndexed decoded order s restorable

new_store-IsIndexed : (ttl : ℕ) → IsIndexed (new_store ttl)
new_store-IsIndexed ttl = record {
  keyed = λ id x e. cc;
  listed = λ ip id. refl;
  busy = λ ip e. cc;
  users = λ user id e. absurd (cc);
}

-- In every store that is reached from an empty one by Create with an unused id, GetOrCreate with an
-- unused id, Update with a function that keeps the id, the address and the user, Delete, AddRiskScore,
-- the cleanup, and Deserialize, into a store with empty indices, of sessions stored under their own ids
-- that the loop visits once each, in any order and at any times, each session is stored under its own id
-- and listed once under its address and nowhere else, nothing else is listed, no address keeps an empty
-- list, and each indexed user has a session of that user.
pub Reach-IsIndexed : (ttl : ℕ) {s : Store} → Reach (new_store ttl) s → IsIndexed s
Reach-IsIndexed ttl here = new_store-IsIndexed ttl
Reach-IsIndexed ttl (next r st) = Step-IsIndexed st (Reach-IsIndexed ttl r)
