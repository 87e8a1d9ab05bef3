-- ===== src/Session/Tests.antt =====
-- The session store of internal/session/session.go at concrete inputs.
use fortress_waf.Base.{
  String, Option, sym, ap, ◌∙◌, some, Bool-cases, inl, inr, ◌==◌, ◌≡◌, refl, [], ◌∷◌, none,
  text_keys,
}
use text.Mathlib.TextEquality.{eq_iff}
use fortress_waf.Base.Map.{get_zero, Map, put, empty}
use fortress_waf.Session.State.{Session, Store, new_store}
use fortress_waf.Session.Store.{create, new_session, deserialize, reindex, index_one}
use fortress_waf.Session.Sweep.{sweep}
use fortress_waf.Session.Index.{IsIndexed, count}
use fortress_waf.Session.Index.Reach.{Reach, creates, restores, sweeps, here, next, Reach-IsIndexed}
use fortress_waf.Session.Index.Restore.{IsRestorable}
use fortress_waf.Session.Index.ByAddress.{sweep-survives, deserialize-listed}

abbrev store : Store
store = (create "s1" "10.0.0.1" "curl" 5 6 (new_store 100)).0

-- A session of a user, as it is decoded.
abbrev saved : Session
saved = record (new_session "s1" "10.0.0.1" "curl" 5 6) { user_id = "alice" }

abbrev backup : Map String Session
backup = put "s1" saved empty

id_of : Option Session → String
id_of none = ""
id_of (some x) = x.id

backup-keyed : (id : String) (x : Session) → backup id ≡ some x → x.id ≡ id
unfolding new_session id_of
backup-keyed id x e = elim (Bool-cases ("s1" == id)) [
  | inl same ↦ sym (ap id_of (rw same at e)) ∙ (eq_iff "s1" id).0 same
  | inr other ↦ absurd (missing (rw other at e))
]
  where
    missing : none ≡ some x → ⊥
    missing h = cc

backup-IsRestorable : IsRestorable backup ("s1" ∷ []) (new_store 100)
unfolding new_session
backup-IsRestorable = record {
  addresses = λ ip. refl;
  no_users = λ user. refl;
  keyed = λ id x e. backup-keyed id x e;
  each =
      λ id. elim (Bool-cases ("s1" == id)) [ inl same ↦ rw same refl | inr other ↦ rw other refl ];
}

-- The sessions are read back from the backup, and the store is swept long after.
abbrev restored : Reach (new_store 100) (deserialize backup ("s1" ∷ []) (new_store 100))
restored = next here (restores backup ("s1" ∷ []) backup-IsRestorable)

Reach-IsIndexed_example :
    IsIndexed (sweep 1000 ("s1" ∷ []) (deserialize backup ("s1" ∷ []) (new_store 100)))
Reach-IsIndexed_example = Reach-IsIndexed 100 (next restored (sweeps 1000 ("s1" ∷ [])))

restored_user_test : (deserialize backup ("s1" ∷ []) (new_store 100)).by_user "alice" ≡ some "s1"
unfolding deserialize reindex index_one new_session
restored_user_test = refl

abbrev created : Reach (new_store 100) store
created = next here (creates "s1" "10.0.0.1" "curl" 5 6 refl)

sweep-survives_test : (sweep 1000 ("s1" ∷ []) store).sessions "s1" ≡ none
unfolding create new_session
sweep-survives_test = sweep-survives 1000 ("s1" ∷ []) store "s1"

deserialize-listed_test :
    count "s1" (get_zero [] (deserialize store.sessions ("s1" ∷ []) store).by_ip "10.0.0.1") ≡ 2
unfolding create new_session
deserialize-listed_test = deserialize-listed store.sessions ("s1" ∷ []) store "10.0.0.1" "s1"
