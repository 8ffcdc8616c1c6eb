-- ===== src/Oauth/Families/Views.antt =====
-- The families of src/auth-broker/app/mcp_oauth/store.py as abstract chains: what the calls and their
-- answers say of one family, and what its row becomes.
use mathai_ai_swarm_memory.Common.{
  ◌≡◌, refl, sym, ap, ◌∙◌, inl, inr, Bool, true, false, List, [], ◌∷◌, ◌++◌, Option, none, some,
  if◌then◌else◌, ◌==◌, find, find-append, find-holds, find-update_where, count_where, update_where,
  String, str_eq, eq_iff, Result, ok, err, arith, Bool-cases, map_found,
}
use mathai_ai_swarm_memory.Broker.Store.{Datetime, is_null}
use mathai_ai_swarm_memory.Oauth.Store.{OauthError, oauth_reuse, OauthFamilyRow, OauthStore}
use mathai_ai_swarm_memory.Oauth.Families.{
  OauthFamily, Rotation, is_family, is_unrevoked, revoke_row, create_family, revoke_family,
  revoke_locked, family_for_refresh, raise_reuse, rotate_refresh,
}
use mathai_ai_swarm_memory.Oauth.Families.Chain.{Chain, Event, kept, exchanged, reused, revoked}

-- A call of a method that writes families.
pub data FamilyCall : Type 0 where
  creating : OauthFamily → String → Datetime → FamilyCall
  revoking : String → Datetime → FamilyCall
  rotating : String → Rotation → FamilyCall

abbrev pub run_call : FamilyCall → OauthStore → OauthStore
run_call (creating x token_hash now) st = (create_family x token_hash now st).1
run_call (revoking family_id now) st = (revoke_family family_id now st).1
run_call (rotating token_hash r) st = (rotate_refresh token_hash r st).1

abbrev pub run_calls : List FamilyCall → OauthStore → OauthStore
run_calls [] st = st
run_calls (call ∷ calls) st = run_calls calls (run_call call st)

-- What the answer to a rotation says of a family, when the token is of the family `owner`.
abbrev pub rotation_event :
    String → String → Rotation → Option String → Result OauthError OauthFamily → Event
rotation_event family_id token_hash r owner (ok x) =
    if str_eq x.id family_id then exchanged token_hash r.new_token_hash r.new_access_jti else kept
rotation_event family_id token_hash r (some owner) (err oauth_reuse) =
    if str_eq owner family_id then reused token_hash else kept
rotation_event family_id token_hash r owner (err _) = kept

abbrev revocation_event : String → String → Result OauthError (Unit {0}) → Event
revocation_event family_id other (ok u) = if str_eq other family_id then revoked else kept
revocation_event family_id other (err e) = kept

-- What the answer to a call says of a family.
abbrev pub event_of : String → FamilyCall → OauthStore → Event
event_of family_id (creating x token_hash now) st = kept
event_of family_id (revoking other now) st =
    revocation_event family_id other (revoke_family other now st).0
event_of family_id (rotating token_hash r) st =
    rotation_event family_id token_hash r (family_for_refresh token_hash st)
      (rotate_refresh token_hash r st).0

abbrev pub events_of : String → List FamilyCall → OauthStore → List Event
events_of family_id [] st = []
events_of family_id (call ∷ calls) st =
    event_of family_id call st ∷ events_of family_id calls (run_call call st)

abbrev pub find_family : String → OauthStore → Option OauthFamilyRow
find_family family_id st = find (is_family family_id) st.families

abbrev pub to_chain : OauthFamilyRow → Chain
to_chain f = record {
  current = f.current_token_hash;
  access_jti = f.current_access_jti;
  is_live = is_null f.revoked_at;
}

-- The family of a store as a chain.
pub record IsViewed (family_id : String) (st : OauthStore) (c : Chain) : Type 0 where
  pub row : OauthFamilyRow
  pub found : find_family family_id st ≡ some row
  pub viewed : to_chain row ≡ c

pub other_false : (a b c : String) → a ≡ b → str_eq c b ≡ false → str_eq a c ≡ false
other_false a b c same differs = elim (Bool-cases (str_eq a c)) [
  | inl equal ↦
      let is : str_eq c b ≡ true = (eq_iff c b).1 (sym ((eq_iff a c).0 equal) ∙ same) in cc
  | inr other ↦ other
]

update-none {ℓ} :
    {A : Type ℓ} (p : A → Bool) (f : A → A) (xs : List A)
    → count_where p xs ≡ 0
    → update_where p f xs ≡ xs
update-none p f [] h = refl
update-none p f (x ∷ xs) h = elim (Bool-cases (p x)) [
  | inl hit ↦ absurd (ground arith)
  | inr miss ↦
      let rest : count_where p xs ≡ 0 = ground arith in
      rw miss (ap (λ ys. x ∷ ys) (update-none p f xs rest))
]

revoke_locked-families :
    (other : String) (now : Datetime) (st : OauthStore)
    → (revoke_locked other now st).families
      ≡ update_where (is_unrevoked other) (revoke_row now) st.families
unfolding revoke_locked
revoke_locked-families other now st =
    elim (Bool-cases (count_where (is_unrevoked other) st.families == 0)) [
      | inl nothing ↦
          rw nothing
            (sym (update-none (is_unrevoked other) (revoke_row now) st.families (ground arith)))
      | inr busy ↦ rw busy refl
    ]

module _ (family_id : String) (st : OauthStore) (c : Chain) (v : IsViewed family_id st c) where
  pub own_id : v.row.id ≡ family_id
  own_id =
      (eq_iff v.row.id family_id).0 (find-holds (is_family family_id) st.families v.row v.found)

  pub same-IsViewed : (st' : OauthStore) → st'.families ≡ st.families → IsViewed family_id st' c
  same-IsViewed st' e = record {
    row = v.row;
    found = ap (find (is_family family_id)) e ∙ v.found;
    viewed = v.viewed;
  }

  pub append-IsViewed :
      (st' : OauthStore) (f : OauthFamilyRow)
      → st'.families ≡ st.families ++ f ∷ []
      → IsViewed family_id st' c
  append-IsViewed st' f e = record {
    row = v.row;
    found =
        ap (find (is_family family_id)) e
        ∙ find-append (is_family family_id) st.families (f ∷ [])
        ∙ rw v.found refl;
    viewed = v.viewed;
  }

  -- The row behind an update that keeps the keys.
  pub found_updated :
      (q : OauthFamilyRow → Bool) (change : OauthFamilyRow → OauthFamilyRow) (st' : OauthStore)
      → ((x : OauthFamilyRow) → is_family family_id (change x) ≡ is_family family_id x)
      → st'.families ≡ update_where q change st.families
      → find_family family_id st' ≡ some (if q v.row then change v.row else v.row)
  found_updated q change st' keys e =
      ap (find (is_family family_id)) e
      ∙ find-update_where (is_family family_id) q change st.families keys
      ∙ ap (map_found (λ x. if q x then change x else x)) v.found

  pub missed-IsViewed :
      (q : OauthFamilyRow → Bool) (change : OauthFamilyRow → OauthFamilyRow) (st' : OauthStore)
      → ((x : OauthFamilyRow) → is_family family_id (change x) ≡ is_family family_id x)
      → st'.families ≡ update_where q change st.families
      → q v.row ≡ false
      → IsViewed family_id st' c
  missed-IsViewed q change st' keys e miss = record {
    row = v.row;
    found = found_updated q change st' keys e ∙ rw miss refl;
    viewed = v.viewed;
  }

  pub revoked-IsViewed :
      (now : Datetime)
      → IsViewed family_id (revoke_locked family_id now st) (record c { is_live = false })
  revoked-IsViewed now =
      let st' = revoke_locked family_id now st in
      let found =
        found_updated (is_unrevoked family_id) (revoke_row now) st' (λ x. refl)
          (revoke_locked-families family_id now st) in
      let own = find-holds (is_family family_id) st.families v.row v.found in
      elim (Bool-cases (is_null v.row.revoked_at)) [
        | inl live ↦ record {
          row = revoke_row now v.row;
          found = found ∙ rw own (rw live refl);
          viewed = ap (λ (x : Chain). record x { is_live = false }) v.viewed;
        }
        | inr dead ↦ record {
          row = v.row;
          found = found ∙ rw own (rw dead refl);
          viewed =
              ap (λ b. record (to_chain v.row) { is_live = b }) dead
              ∙ ap (λ (x : Chain). record x { is_live = false }) v.viewed;
        }
      ]

  pub other_revoked-IsViewed :
      (other : String) (now : Datetime)
      → str_eq other family_id ≡ false
      → IsViewed family_id (revoke_locked other now st) c
  other_revoked-IsViewed other now differs =
      missed-IsViewed (is_unrevoked other) (revoke_row now) (revoke_locked other now st) (λ x. refl)
        (revoke_locked-families other now st)
        (rw (other_false v.row.id family_id other own_id differs) refl)

pub raise_reuse-store : (o : Result _ (Option OauthFamily) × OauthStore) → (raise_reuse o).1 ≡ o.1
raise_reuse-store (ok (some x), st) = refl
raise_reuse-store (ok none, st) = refl
raise_reuse-store (err e, st) = refl
