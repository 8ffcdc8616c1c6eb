-- ===== src/Oauth/Families/Present.antt =====
-- A presented refresh token: `rotate_refresh` of src/auth-broker/app/mcp_oauth/store.py against the
-- abstract answer.
use mathai_ai_swarm_memory.Common.{
  ◌≡◌, refl, ap, ◌∙◌, inl, inr, true, false, ◌&&◌, [], ◌∷◌, ◌++◌, some, if◌then◌else◌, find,
  find-update_where, find-holds, find-count-one, any-update_where, and_true, any, count_where,
  String, str_eq, eq_iff, eq_refl, Result, ok, err, Bool-cases, committed,
}
use mathai_ai_swarm_memory.Broker.Store.{is_aware, is_null, is_before}
use mathai_ai_swarm_memory.Oauth.Store.{
  OauthError, oauth_reuse, invalid_oauth_grant, OauthFamilyRow, OauthTokenRow, OauthStore,
}
use mathai_ai_swarm_memory.Oauth.Families.{
  OauthFamily, Rotation, is_family, is_token, is_current, is_unrevoked, advance_row, revoke_row,
  consume_token, new_token, to_family, insert_token, revoke_locked, advanced, advance, rotate_row,
  rotate_tx, raise_reuse, rotate_refresh,
}
use mathai_ai_swarm_memory.Oauth.Families.Chain.{Chain}
use mathai_ai_swarm_memory.Oauth.Families.Views.{find_family, to_chain, IsViewed}

-- What a presentation of a token is answered with.
pub data Answer : Type 0 where
  accepted reused refused : Answer

-- The specification: the current token of a live family is exchanged for the new one, another
-- token of it ends the family, and a family that has ended answers nothing.
unfoldable pub present : String → String → String → Chain → Answer × Chain
present token new_token new_jti c =
    if c.is_live
    then if str_eq c.current token
      then (accepted, record { current = new_token; access_jti = new_jti; is_live = true })
      else (reused, record c { is_live = false })
    else (refused, c)

unfoldable pub answer : Result OauthError OauthFamily → Answer
answer (ok x) = accepted
answer (err oauth_reuse) = reused
answer (err _) = refused

-- A presentation by the family's own client, while token and family have not expired; the table has
-- one row of the family's key, and the new token is unused.
pub record IsDue (token_hash : String) (r : Rotation) (st : OauthStore) (t : OauthTokenRow)
    (f : OauthFamilyRow) : Type 0 where
  pub aware_now : is_aware r.now ≡ true
  pub token : find (is_token token_hash) st.refresh_tokens ≡ some t
  pub known : find_family t.family_id st ≡ some f
  pub single : count_where (is_family t.family_id) st.families ≡ 1
  pub client : str_eq f.client_id r.client_id ≡ true
  pub resource : str_eq f.resource r.resource ≡ true
  pub in_time : is_before r.now f.expires_at ≡ true
  pub token_in_time : is_before r.now t.expires_at ≡ true
  pub fresh : any (is_token r.new_token_hash) st.refresh_tokens ≡ false

module _ (token_hash : String) (r : Rotation) (st : OauthStore) (t : OauthTokenRow)
    (f : OauthFamilyRow) (due : IsDue token_hash r st t f) where
  same_id : f.id ≡ t.family_id
  same_id = (eq_iff f.id t.family_id).0 (find-holds (is_family t.family_id) st.families f due.known)

  rotate_row-is :
      rotate_refresh token_hash r st ≡ raise_reuse (committed st (rotate_row t f token_hash r st))
  unfolding rotate_refresh rotate_tx
  rotate_row-is = rw (due.aware_now) (rw (due.token) (rw (due.known) refl))

  dead_refused :
      is_null f.revoked_at ≡ false → rotate_refresh token_hash r st ≡ (err invalid_oauth_grant, st)
  unfolding rotate_row
  dead_refused dead = rotate_row-is ∙ rw (due.client) (rw (due.resource) (rw dead refl))

  stale_reused :
      is_null f.revoked_at ≡ true
      → str_eq f.current_token_hash token_hash ≡ false
      → rotate_refresh token_hash r st ≡ (err oauth_reuse, revoke_locked f.id r.now st)
  unfolding rotate_row
  stale_reused live stale =
      rotate_row-is
      ∙ rw (due.client)
          (rw (due.resource) (rw live (rw (due.in_time) (rw (due.token_in_time) (rw stale refl)))))

  -- What an exchange leaves.
  abbrev exchanged : OauthStore
  exchanged =
      let st' = advanced f token_hash r st in
      record st' {
        refresh_tokens =
            st'.refresh_tokens ++ new_token r.new_token_hash f.id r.now f.expires_at ∷ [];
      }

  current_exchanged :
      is_null f.revoked_at ≡ true
      → str_eq f.current_token_hash token_hash ≡ true
      → rotate_refresh token_hash r st
        ≡ (ok (record (to_family f) { current_access_jti = r.new_access_jti }), exchanged)
  unfolding rotate_row advance insert_token
  current_exchanged live current =
      let one : count_where (is_current f.id token_hash) st.families ≡ 1 =
        find-count-one (is_family f.id) (is_current f.id token_hash) st.families f
          (λ y e. (and_true _ _ ((and_true _ _ e).0)).0)
          (ap (λ x. count_where (is_family x) st.families) same_id ∙ due.single)
          (ap (λ x. find (is_family x) st.families) same_id ∙ due.known)
          (rw (eq_refl f.id) (rw current (rw live refl))) in
      let unused : any (is_token r.new_token_hash) (advanced f token_hash r st).refresh_tokens
          ≡ false =
        any-update_where (is_token r.new_token_hash)
          (λ (x : OauthTokenRow). is_token token_hash x && is_null x.consumed_at)
          (consume_token r.now) st.refresh_tokens (λ x. refl)
        ∙ due.fresh in
      rotate_row-is
      ∙ rw (due.client) (
          rw (due.resource) (
            rw live
              (rw (due.in_time) (rw (due.token_in_time) (rw current (rw one (rw unused refl)))))))

  exchanged-IsViewed :
      is_null f.revoked_at ≡ true
      → str_eq f.current_token_hash token_hash ≡ true
      → IsViewed t.family_id exchanged
          (record { current = r.new_token_hash; access_jti = r.new_access_jti; is_live = true })
  exchanged-IsViewed live current = record {
    row = advance_row r.new_token_hash r.new_access_jti f;
    found =
        find-update_where (is_family t.family_id) (is_current f.id token_hash)
          (advance_row r.new_token_hash r.new_access_jti) st.families (λ x. refl)
        ∙ rw (due.known) (rw (eq_refl f.id) (rw current (rw live refl)));
    viewed =
        ap (λ b. record { current = r.new_token_hash; access_jti = r.new_access_jti; is_live = b })
          live;
  }

  revoked-IsViewed :
      is_null f.revoked_at ≡ true
      → IsViewed t.family_id (revoke_locked f.id r.now st) (record (to_chain f) { is_live = false })
  unfolding revoke_locked
  revoked-IsViewed live =
      let one : count_where (is_unrevoked f.id) st.families ≡ 1 =
        find-count-one (is_family f.id) (is_unrevoked f.id) st.families f
          (λ y e. (and_true _ _ e).0)
          (ap (λ x. count_where (is_family x) st.families) same_id ∙ due.single)
          (ap (λ x. find (is_family x) st.families) same_id ∙ due.known) (rw (eq_refl f.id) live) in
      rw one (record {
        row = revoke_row r.now f;
        found =
            find-update_where (is_family t.family_id) (is_unrevoked f.id) (revoke_row r.now)
              st.families (λ x. refl)
            ∙ rw (due.known) (rw (eq_refl f.id) (rw live refl));
        viewed = refl;
      })

  ended_chain : is_null f.revoked_at ≡ false → to_chain f ≡ record (to_chain f) { is_live = false }
  ended_chain dead = ap (λ b. record (to_chain f) { is_live = b }) dead

  -- A presentation that is due (of a known token by its family's own client, at an aware time when
  -- neither has expired, with a new token that is unused and one row of the family's key) answers
  -- and leaves the family as the specification says: an exchange for the current token, the end of
  -- the family for another one, and nothing once it has ended.
  pub rotate_refresh-present :
      (answer (rotate_refresh token_hash r st).0
        ≡ (present token_hash r.new_token_hash r.new_access_jti (to_chain f)).0)
      × IsViewed t.family_id
          (rotate_refresh token_hash r st).1
          (present token_hash r.new_token_hash r.new_access_jti (to_chain f)).1
  unfolding answer present
  rotate_refresh-present = elim (Bool-cases (is_null f.revoked_at)) [
    | inr dead ↦
        rw (dead_refused dead)
          (rw dead (refl, record { row = f; found = due.known; viewed = ended_chain dead }))
    | inl live ↦ elim (Bool-cases (str_eq f.current_token_hash token_hash)) [
      | inl current ↦
          rw (current_exchanged live current)
            (rw live (rw current (refl, exchanged-IsViewed live current)))
      | inr stale ↦ rw (stale_reused live stale) (rw live (rw stale (refl, revoked-IsViewed live)))
    ]
  ]
