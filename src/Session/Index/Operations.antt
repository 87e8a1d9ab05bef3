-- ===== src/Session/Index/Operations.antt =====
-- The operations of the session store keep its indices.
use fortress_waf.Base.{
  ℕ, ◌≡◌, ◌≢◌, refl, String, List, [], ◌∷◌, ◌++◌, none, some, arith, ◌==◌, text_keys, agrees_self,
  Option-cases, inl, inr, Bool-cases,
}
use fortress_waf.Base.Map.{get_zero, Map, put}
use fortress_waf.Session.Sweep.{sweep, sweep_one, is_expired}
use fortress_waf.Session.State.{Session, Store}
use fortress_waf.Session.Store.{
  create, get_or_create, seen_again, update, add_risk_score, delete_session, remove, drop_user,
}
use fortress_waf.Session.Index.{IsIndexed, count-append, count-without}

append-ne-nil {ℓ} : {A : Type ℓ} (xs : List A) (x : A) → xs ++ x ∷ [] ≢ []
append-ne-nil [] x = λ e. cc
append-ne-nil (y ∷ ys) x = λ e. cc

drop_user_keeps :
    (id : String) (session : Session) (m : Map String String) (u j : String)
    → drop_user id session m u ≡ some j
    → m u ≡ some j
drop_user_keeps id session m u j e = ground arith

drop_user_drops :
    (id : String) (session : Session) (m : Map String String)
    → drop_user id session m session.user_id ≢ some id
drop_user_drops id session m = ground (arith, agrees_self session.user_id, agrees_self id)

module _ (id ip user_agent : String) (created seen : ℕ) (s : Store) where
  -- A new session under an id that is not in use keeps the indices.
  pub create-IsIndexed :
      s.sessions id ≡ none → IsIndexed s → IsIndexed (create id ip user_agent created seen s).0
  unfolding create
  create-IsIndexed fresh h = record {
    keyed = λ j x e. ground (arith, text_keys.agrees_iff id j, h.keyed j x);
    listed = λ a j. ground (
      arith,
      text_keys.agrees_iff id j,
      text_keys.agrees_iff ip a,
      h.listed a j,
      h.listed ip j,
      count-append j (get_zero [] s.by_ip ip) (id ∷ []),
    );
    busy = λ a e. ground (arith, append-ne-nil (get_zero [] s.by_ip ip) id, h.busy a);
    users = λ u j e.
        let (x, found, mine) = h.users u j e in
        (x, ground (arith, text_keys.agrees_iff id j), mine);
  }

module _ (id : String) (session : Session) (s : Store) where
  pub remove-IsIndexed :
      s.sessions id ≡ some session → IsIndexed s → IsIndexed (remove id session s)
  unfolding remove
  remove-IsIndexed present h = record {
    keyed = λ j x e. ground (arith, text_keys.agrees_iff id j, h.keyed j x);
    listed = λ a j. ground (
      arith,
      text_keys.agrees_iff id j,
      text_keys.agrees_iff session.real_ip a,
      h.listed a j,
      count-without id j (get_zero [] s.by_ip session.real_ip),
    );
    busy = λ a. ground (arith, h.busy a);
    users = λ u j e.
        let kept = drop_user_keeps id session s.by_user u j e in
        let (x, found, mine) = h.users u j kept in
        (
          x,
          ground (
            arith,
            text_keys.agrees_iff id j,
            text_keys.agrees_iff j id,
            drop_user_drops id session s.by_user,
          ),
          mine,
        );
  }

-- Deleting a session, under any id, keeps the indices.
pub delete_session-IsIndexed :
    (id : String) (s : Store) → IsIndexed s → IsIndexed (delete_session id s)
unfolding delete_session
delete_session-IsIndexed id s h = elim (Option-cases (s.sessions id)) [
  | inl missing ↦ rw (missing, delete_session) h
  | inr (session, present) ↦ rw (present, delete_session) (remove-IsIndexed id session s present h)
]

-- Rewriting a session in place keeps the indices, if its id, address and user stay.
pub rewrite-IsIndexed :
    (id : String) (old new : Session) (s : Store)
    → s.sessions id ≡ some old
    → new.id ≡ old.id
    → new.real_ip ≡ old.real_ip
    → new.user_id ≡ old.user_id
    → IsIndexed s
    → IsIndexed (record s { sessions = put id new s.sessions })
rewrite-IsIndexed id old new s present same_id same_ip same_user h = record {
  keyed = λ j x e. ground (arith, text_keys.agrees_iff id j, h.keyed j x, h.keyed j old);
  listed = λ a j. ground (arith, text_keys.agrees_iff id j, h.listed a j);
  busy = h.busy;
  users = λ u j e.
      let (x, found, mine) = h.users u j e in
      elim (Bool-cases (id == j)) [
        | inl here ↦ (new, ground arith, ground (arith, text_keys.agrees_iff id j))
        | inr away ↦ (x, ground arith, mine)
      ];
}

-- Every other operation that writes a session.
pub get_or_create-IsIndexed :
    (id ip user_agent fresh : String) (created now : ℕ) (s : Store)
    → s.sessions fresh ≡ none
    → IsIndexed s
    → IsIndexed (get_or_create id ip user_agent fresh created now s).0
unfolding get_or_create
get_or_create-IsIndexed id ip user_agent fresh created now s unused h =
    elim (Bool-cases (id == "")) [
      | inl no_id ↦
          rw (no_id, get_or_create) (create-IsIndexed fresh ip user_agent created now s unused h)
      | inr given ↦ elim (Option-cases (s.sessions id)) [
        | inl missing ↦
            rw (given, missing, get_or_create)
              (create-IsIndexed fresh ip user_agent created now s unused h)
        | inr (session, present) ↦
            rw (given, present, get_or_create)
              (rewrite-IsIndexed id session (seen_again now session) s present refl refl refl h)
      ]
    ]

pub update-IsIndexed :
    (id : String) (fn : Session → Session) (now : ℕ) (s : Store)
    → ((x : Session) → (fn x).id ≡ x.id)
    → ((x : Session) → (fn x).real_ip ≡ x.real_ip)
    → ((x : Session) → (fn x).user_id ≡ x.user_id)
    → IsIndexed s
    → IsIndexed (update id fn now s)
unfolding update
update-IsIndexed id fn now s same_id same_ip same_user h = elim (Option-cases (s.sessions id)) [
  | inl missing ↦ rw (missing, update) h
  | inr (session, present) ↦
      rw (present, update)
        (rewrite-IsIndexed id session (record (fn session) { last_seen = now }) s present
          (same_id session) (same_ip session) (same_user session) h)
]

pub add_risk_score-IsIndexed :
    (id : String) (score : ℕ) (rule_id action : String) (now : ℕ) (s : Store)
    → IsIndexed s
    → IsIndexed (add_risk_score id score rule_id action now s)
unfolding add_risk_score
add_risk_score-IsIndexed id score rule_id action now s h = elim (Option-cases (s.sessions id)) [
  | inl missing ↦ rw (missing, add_risk_score) h
  | inr (session, present) ↦
      rw (present, add_risk_score) (rewrite-IsIndexed id session _ s present refl refl refl h)
]

pub sweep_one-IsIndexed :
    (now : ℕ) (id : String) (s : Store) → IsIndexed s → IsIndexed (sweep_one now id s)
unfolding sweep_one
sweep_one-IsIndexed now id s h = elim (Option-cases (s.sessions id)) [
  | inl missing ↦ rw (missing, sweep_one) h
  | inr (session, present) ↦ elim (Bool-cases (is_expired now s.ttl session)) [
    | inl old ↦ rw (present, sweep_one) (rw old (remove-IsIndexed id session s present h))
    | inr young ↦ rw (present, sweep_one) (rw young h)
  ]
]

pub sweep-IsIndexed :
    (now : ℕ) (order : List String) (s : Store) → IsIndexed s → IsIndexed (sweep now order s)
unfolding sweep
sweep-IsIndexed now [] s h = h
sweep-IsIndexed now (id ∷ order) s h =
    sweep-IsIndexed now order (sweep_one now id s) (sweep_one-IsIndexed now id s h)
