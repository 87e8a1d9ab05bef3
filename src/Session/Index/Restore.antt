-- ===== src/Session/Index/Restore.antt =====
-- Deserialize of internal/session/session.go on a store that has indexed nothing yet.
use fortress_waf.Base.{
  ℕ, ◌+◌, ◌*◌, ◌≡◌, ◌≢◌, refl, sym, ◌∙◌, String, List, [], ◌∷◌, ◌++◌, Option, none, some, arith,
  if_holds, text_keys, Bool-cases, inl, inr, ◌==◌, agrees_false→ne, length, length-append, ap,
  Option-cases, subst,
}
use text.Mathlib.TextEquality.{eq_iff}
use fortress_waf.Base.Map.{Map, get_zero, put, put_self, put_ne}
use fortress_waf.Session.State.{Session, Store}
use fortress_waf.Session.Store.{deserialize, reindex, index_one}
use fortress_waf.Session.Index.{IsIndexed, count, due}
use fortress_waf.Session.Index.ByAddress.{deserialize-listed}

-- How often the loop visits a key.
abbrev pub visits : Option Session → ℕ
visits none = 0
visits (some session) = 1

-- A store without an entry in its indices, decoded sessions that stand under their own ids, and an
-- order of their keys that visits each of them once.
pub record IsRestorable (decoded : Map String Session) (order : List String) (s : Store)
    : Type 0 where
  pub addresses : (ip : String) → s.by_ip ip ≡ none
  pub no_users : (user : String) → s.by_user user ≡ none
  pub keyed : (id : String) (x : Session) → decoded id ≡ some x → x.id ≡ id
  pub each : (id : String) → count id order ≡ visits (decoded id)

abbrev IsBusy : Store → Type 0
IsBusy s = (ip : String) → s.by_ip ip ≢ some []

-- Each indexed user has a decoded session of that user.
abbrev HasUsers : Map String Session → Map String String → Type 0
HasUsers decoded by_user =
    (user id : String)
    → by_user user ≡ some id
    → (x : Session) × (decoded id ≡ some x) × (x.user_id ≡ user)

snoc_not_none : (ids : List String) (id : String) → some (ids ++ id ∷ []) ≢ some []
snoc_not_none ids id e =
    let h = ap (λ o. length (get_zero [] (λ (k : ℕ). o) 0)) e in
    omega (arith, h, length-append ids (id ∷ []))

put-IsBusy :
    (key id : String) (ids : List String) (m : Map String (List String))
    → ((ip : String) → m ip ≢ some [])
    → (ip : String) → put key (ids ++ id ∷ []) m ip ≢ some []
put-IsBusy key id ids m h ip e = elim (Bool-cases (key == ip)) [
  | inl same ↦
      let k : key ≡ ip = (eq_iff key ip).0 same in
      snoc_not_none ids id (sym (put_self ip (ids ++ id ∷ []) m) ∙ rw k at e)
  | inr other ↦ h ip (sym (put_ne key ip (ids ++ id ∷ []) m (agrees_false→ne key ip other)) ∙ e)
]

put-HasUsers :
    (decoded : Map String Session) (id : String) (x : Session) (m : Map String String)
    → decoded id ≡ some x
    → HasUsers decoded m
    → HasUsers decoded (put x.user_id id m)
put-HasUsers decoded id x m found h user j e = elim (Bool-cases (x.user_id == user)) [
  | inl same ↦
      let k : x.user_id ≡ user = (eq_iff x.user_id user).0 same in
      let put_in : some id ≡ some j = sym (put_self user id m) ∙ rw k at e in
      let same_id : id ≡ j = ap (λ o. get_zero "" (λ (n : ℕ). o) 0) put_in in
      (x, subst (λ i. decoded i ≡ some x) same_id found, k)
  | inr other ↦
      h user j (sym (put_ne x.user_id user id m (agrees_false→ne x.user_id user other)) ∙ e)
]

reindex-holds :
    (decoded : Map String Session) (order : List String) (s : Store)
    → IsBusy s
    → HasUsers decoded s.by_user
    → IsBusy (reindex decoded order s)
      × HasUsers decoded (reindex decoded order s).by_user
      × ((reindex decoded order s).sessions ≡ s.sessions)
unfolding reindex index_one
reindex-holds decoded [] s busy users = (busy, users, refl)
reindex-holds decoded (id ∷ order) s busy users = elim (Option-cases (decoded id)) [
  | inl missing ↦ rw (reindex, index_one, missing) (reindex-holds decoded order s busy users)
  | inr (x, found) ↦
      rw (reindex, index_one, found)
        (reindex-holds decoded order (index_one id (some x) s)
          (put-IsBusy x.real_ip id (get_zero [] s.by_ip x.real_ip) s.by_ip busy)
          (if_holds (HasUsers decoded) (x.user_id == "") s.by_user (put x.user_id id s.by_user)
            users (put-HasUsers decoded id x s.by_user found users)))
]

pub deserialize-IsIndexed :
    (decoded : Map String Session) (order : List String) (s : Store)
    → IsRestorable decoded order s
    → IsIndexed (deserialize decoded order s)
unfolding deserialize
deserialize-IsIndexed decoded order s h =
    let start : Store = record s { sessions = decoded } in
    let (busy, users, same) =
      reindex-holds decoded order start (λ ip e. none_not_some_list (sym (h.addresses ip) ∙ e))
        (λ user id e. absurd (none_not_some (sym (h.no_users user) ∙ e))) in
    record {
      keyed = λ id x e. h.keyed id x (ap (λ m. m id) (sym same) ∙ e);
      listed = λ ip id.
          listed_once ip id (deserialize-listed decoded order s ip id)
          ∙ ap (λ m. due ip (m id)) (sym same);
      busy = busy;
      users =
          λ user id e. let (x, found, u) = users user id e in (x, ap (λ m. m id) same ∙ found, u);
    }
  where
    none_not_some_list : {ids : List String} → none ≡ some ids → ⊥
    none_not_some_list e = cc

    none_not_some : {id : String} → none ≡ some id → ⊥
    none_not_some e = cc

    listed_once :
        (ip id : String)
        → count id (get_zero [] (deserialize decoded order s).by_ip ip)
          ≡ count id (get_zero [] s.by_ip ip) + count id order * due ip (decoded id)
        → count id (get_zero [] (deserialize decoded order s).by_ip ip) ≡ due ip (decoded id)
    listed_once ip id e = e ∙ elim (Option-cases (decoded id)) [
      | inl missing ↦ rw (get_zero, h.addresses ip, h.each id, missing) refl
      | inr (x, found) ↦ rw (get_zero, h.addresses ip, h.each id, found) (omega arith)
    ]
