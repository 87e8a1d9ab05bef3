-- ===== src/Session/Index/ByAddress.antt =====
-- What GetByIP returns, what a sweep leaves, and what Deserialize does to the index.
use fortress_waf.Base.{
  ℕ, ◌+◌, ◌*◌, ◌<◌, ◌≡◌, refl, String, List, [], ◌∷◌, Option, none, some, map, arith, if◌then◌else◌,
  text_keys, Bool, ◌&&◌, Option-cases, inl, inr, agrees_self, ltb, ◌==◌,
}
use fortress_waf.Base.Map.{get_zero, Map}
use fortress_waf.Session.State.{Session, Store}
use fortress_waf.Session.Store.{get_by_ip, collect, remove, deserialize, reindex, index_one}
use fortress_waf.Session.Sweep.{sweep, sweep_one, is_expired}
use fortress_waf.Session.Index.{IsIndexed, count, due, count-append}

abbrev pub ids_of : List Session → List String
ids_of = map (λ x. x.id)

ids_of-collect :
    (m : Map String Session) (ids : List String)
    → ((j : String) → 0 < count j ids → (x : Session) × (m j ≡ some x) × (x.id ≡ j))
    → ids_of (collect m ids) ≡ ids
unfolding collect
ids_of-collect m [] h = refl
ids_of-collect m (id ∷ ids) h =
    let (x, found, same) = h id (ground (arith, agrees_self id)) in
    let rest = ids_of-collect m ids (λ j c. h j (ground arith)) in
    rw (found, collect) (ground (arith, same, rest))

-- Where the indices agree with the sessions, GetByIP returns the sessions of the address, each once, and
-- no other.
pub get_by_ip-due :
    (ip id : String) (s : Store)
    → IsIndexed s
    → count id (ids_of (get_by_ip ip s)) ≡ due ip (s.sessions id)
unfolding get_by_ip
get_by_ip-due ip id s h =
    rw (ids_of-collect s.sessions (get_zero [] s.by_ip ip) (λ j c. listed_session j c))
      (h.listed ip id)
  where
    listed_session :
        (j : String)
        → 0 < count j (get_zero [] s.by_ip ip)
        → (x : Session) × (s.sessions j ≡ some x) × (x.id ≡ j)
    listed_session j c = elim (Option-cases (s.sessions j)) [
      | inl missing ↦ absurd (ground (arith, h.listed ip j))
      | inr (x, found) ↦ (x, found, h.keyed j x found)
    ]

-- What a sweep leaves of a session.
abbrev pub survives : ℕ → ℕ → Bool → Option Session → Option Session
survives now ttl visited none = none
survives now ttl visited (some x) = if is_expired now ttl x && visited then none else some x

-- A sweep over the keys in any order removes exactly the expired sessions that it visits; every
-- other session is left as it was.
pub sweep-survives :
    (now : ℕ) (order : List String) (s : Store) (id : String)
    → (sweep now order s).sessions id ≡ survives now s.ttl (ltb 0 (count id order)) (s.sessions id)
unfolding sweep sweep_one remove
sweep-survives now [] s id = ground arith
sweep-survives now (j ∷ order) s id =
    ground (arith, text_keys.agrees_iff j id, sweep-survives now order (sweep_one now j s) id)

index_one-listed :
    (id j ip : String) (o : Option Session) (s : Store)
    → count id (get_zero [] (index_one j o s).by_ip ip)
      ≡ count id (get_zero [] s.by_ip ip) + (if j == id then due ip o else 0)
unfolding index_one
index_one-listed id j ip none s = ground arith
index_one-listed id j ip (some x) s = ground (
  arith,
  text_keys.agrees_iff x.real_ip ip,
  count-append id (get_zero [] s.by_ip x.real_ip) (j ∷ []),
)

reindex-listed :
    (decoded : Map String Session) (order : List String) (s : Store) (ip id : String)
    → count id (get_zero [] (reindex decoded order s).by_ip ip)
      ≡ count id (get_zero [] s.by_ip ip) + count id order * due ip (decoded id)
unfolding reindex
reindex-listed decoded [] s ip id = omega arith
reindex-listed decoded (j ∷ order) s ip id = ground (
  arith,
  text_keys.agrees_iff j id,
  index_one-listed id j ip (decoded j) s,
  reindex-listed decoded order (index_one j (decoded j) s) ip id,
)

-- Deserialize adds every decoded session to the index of its address, once for each visit of its
-- key, on top of what the index held before the call.
pub deserialize-listed :
    (decoded : Map String Session) (order : List String) (s : Store) (ip id : String)
    → count id (get_zero [] (deserialize decoded order s).by_ip ip)
      ≡ count id (get_zero [] s.by_ip ip) + count id order * due ip (decoded id)
unfolding deserialize
deserialize-listed decoded order s ip id =
    reindex-listed decoded order (record s { sessions = decoded }) ip id
