-- ===== src/Session/Index.antt =====
-- When the indices of the session store agree with the sessions.
pub mod Operations
pub mod Reach
pub mod ByAddress
pub mod Restore
use fortress_waf.Base.{
  ℕ, suc, ◌+◌, ◌≡◌, ◌≢◌, ◌<◌, refl, Bool, true, false, not, String, List, [], ◌∷◌, ◌++◌, Option,
  none, some, arith, if◌then◌else◌, filter, length, ◌==◌, text_keys, agrees_self,
}
use fortress_waf.Base.Map.{get_zero}
use fortress_waf.Session.State.{Session, Store}
use fortress_waf.Session.Store.{without}

-- How often an id stands in a list.
abbrev pub count : String → List String → ℕ
count id [] = 0
count id (x ∷ xs) = let rest = count id xs in if x == id then suc rest else rest

-- How often an id should be listed under an address.
abbrev pub due : String → Option Session → ℕ
due ip none = 0
due ip (some session) = if session.real_ip == ip then 1 else 0

-- Every session is stored under its own id and is listed once under its address and nowhere else;
-- nothing else is listed; no address has an empty list; and every indexed user has a session of that
-- user.
pub record IsIndexed (s : Store) : Type 0 where
  pub keyed : (id : String) (x : Session) → s.sessions id ≡ some x → x.id ≡ id
  pub listed : (ip id : String) → count id (get_zero [] s.by_ip ip) ≡ due ip (s.sessions id)
  pub busy : (ip : String) → s.by_ip ip ≢ some []
  pub users :
      (user id : String)
      → s.by_user user ≡ some id
      → (x : Session) × (s.sessions id ≡ some x) × (x.user_id ≡ user)

pub count-append :
    (id : String) (xs ys : List String) → count id (xs ++ ys) ≡ count id xs + count id ys
count-append id [] ys = omega arith
count-append id (x ∷ xs) ys = ground (arith, count-append id xs ys)

pub count-without :
    (id j : String) (xs : List String)
    → count j (without id xs) ≡ (if id == j then 0 else count j xs)
count-without id j [] = ground arith
count-without id j (x ∷ xs) = ground (
  arith,
  text_keys.agrees_iff id j,
  text_keys.agrees_iff x j,
  text_keys.agrees_iff x id,
  count-without id j xs,
)
