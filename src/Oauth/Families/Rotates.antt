-- ===== src/Oauth/Families/Rotates.antt =====
-- A rotation of src/auth-broker/app/mcp_oauth/store.py as a step of the chain of any family.
use mathai_ai_swarm_memory.Common.{
  ◌≡◌, ◌≢◌, refl, sym, ap, ◌∙◌, inl, inr, true, false, Option, none, some, if◌then◌else◌, find,
  String, str_eq, eq_iff, Result, ok, err, arith, Option-cases, Bool-cases, Result-cases, committed,
}
use mathai_ai_swarm_memory.Broker.Store.{is_null}
use mathai_ai_swarm_memory.Oauth.Store.{
  OauthError, oauth_reuse, OauthFamilyRow, OauthTokenRow, OauthStore,
}
use mathai_ai_swarm_memory.Oauth.Families.{
  OauthFamily, Rotation, is_token, is_current, advance_row, insert_token, revoke_locked,
  family_for_refresh, advanced, advance, rotate_row, rotate_tx, raise_reuse, rotate_refresh,
}
use mathai_ai_swarm_memory.Oauth.Families.Chain.{Chain, Event, kept, Step, keeps, exchanges, reuses}
use mathai_ai_swarm_memory.Oauth.Families.Views.{
  rotating, run_call, rotation_event, event_of, find_family, to_chain, IsViewed, other_false,
  own_id, missed-IsViewed, found_updated, revoked-IsViewed, other_revoked-IsViewed,
}

-- The family afterwards, one step on.
pub record HasStepped (family_id : String) (event : Event) (st' : OauthStore) (c : Chain)
    : Type 0 where
  pub after : Chain
  pub step : Step c event after
  pub view : IsViewed family_id st' after

pub view_kept :
    (family_id : String) (st' : OauthStore) (c : Chain)
    → IsViewed family_id st' c
    → HasStepped family_id kept st' c
view_kept family_id st' c v = record { after = c; step = keeps c; view = v }

-- The rows of a rotation that ran.
record Rotated (token_hash : String) (st : OauthStore) (t : OauthTokenRow) (f : OauthFamilyRow)
    : Type 0 where
  token : find (is_token token_hash) st.refresh_tokens ≡ some t
  known : find_family t.family_id st ≡ some f
  live : is_null f.revoked_at ≡ true

rotate_tx-rows :
    (token_hash : String) (r : Rotation) (st st' : OauthStore) (o : Option OauthFamily)
    → rotate_tx token_hash r st ≡ ok (o, st')
    → (t : OauthTokenRow) × (f : OauthFamilyRow) × Rotated token_hash st t f
      × (rotate_row t f token_hash r st ≡ ok (o, st'))
unfolding rotate_tx rotate_row
rotate_tx-rows token_hash r st st' o h =
    elim (Option-cases (find (is_token token_hash) st.refresh_tokens)) [
      | inl lost ↦ absurd (ground arith)
      | inr (t, there) ↦ elim (Option-cases (find_family t.family_id st)) [
        | inl lost ↦ absurd (ground arith)
        | inr (f, known) ↦
            (t, f, record { token = there; known = known; live = ground arith }, ground arith)
      ]
    ]

rotate_row-some :
    (t : OauthTokenRow) (f : OauthFamilyRow) (token_hash : String) (r : Rotation)
    (st st' : OauthStore) (x : OauthFamily)
    → rotate_row t f token_hash r st ≡ ok (some x, st')
    → (str_eq f.current_token_hash token_hash ≡ true)
      × (x.id ≡ f.id)
      × (st'.families ≡ (advanced f token_hash r st).families)
unfolding rotate_row advance insert_token
rotate_row-some t f token_hash r st st' x h = (ground arith, ground arith, ground arith)

rotate_row-none :
    (t : OauthTokenRow) (f : OauthFamilyRow) (token_hash : String) (r : Rotation)
    (st st' : OauthStore)
    → rotate_row t f token_hash r st ≡ ok (none, st')
    → (str_eq f.current_token_hash token_hash ≡ false) × (revoke_locked f.id r.now st ≡ st')
unfolding rotate_row advance
rotate_row-none t f token_hash r st st' h = (ground arith, ground arith)

-- Inside the transaction nothing raises the reuse.
rotate_tx-ne-reuse :
    (token_hash : String) (r : Rotation) (st : OauthStore)
    → rotate_tx token_hash r st ≢ err oauth_reuse
unfolding rotate_tx rotate_row advance insert_token
rotate_tx-ne-reuse token_hash r st h =
    elim (Option-cases (find (is_token token_hash) st.refresh_tokens)) [
      | inl lost ↦ ground arith
      | inr (t, there) ↦ elim (Option-cases (find_family t.family_id st)) [
        | inl lost ↦ ground arith
        | inr (f, known) ↦ ground arith
      ]
    ]

rotate_refresh-raise :
    (token_hash : String) (r : Rotation) (st : OauthStore)
    (result : Result OauthError (Option OauthFamily × OauthStore))
    → rotate_tx token_hash r st ≡ result
    → rotate_refresh token_hash r st ≡ raise_reuse (committed st result)
unfolding rotate_refresh
rotate_refresh-raise token_hash r st result h = ap (λ x. raise_reuse (committed st x)) h

rotation_event-raised :
    (family_id token_hash : String) (r : Rotation) (owner : Option String) (e : OauthError)
    → e ≢ oauth_reuse
    → rotation_event family_id token_hash r owner (err e) ≡ kept
rotation_event-raised family_id token_hash r none e other = refl
rotation_event-raised family_id token_hash r (some owner) e other = ground arith

module _ (family_id token_hash : String) (r : Rotation) (st : OauthStore) (c : Chain)
    (v : IsViewed family_id st c) where
  module _ (t : OauthTokenRow) (f : OauthFamilyRow) (rows : Rotated token_hash st t f) where
    token_owner : f.id ≡ t.family_id
    token_owner =
        own_id t.family_id st (to_chain f) (record { row = f; found = rows.known; viewed = refl })

    owner_of : family_for_refresh token_hash st ≡ some t.family_id
    unfolding family_for_refresh
    owner_of = rw (rows.token, family_for_refresh) refl

    same_row : f.id ≡ family_id → v.row ≡ f
    same_row own =
        let known : find_family family_id st ≡ some f =
          ap (λ i. find_family i st) (sym own ∙ token_owner) ∙ rows.known in
        let both : some v.row ≡ some f = sym v.found ∙ known in ground arith

    was_live : f.id ≡ family_id → c.is_live ≡ true
    was_live own =
        sym (ap (λ (x : Chain). x.is_live) v.viewed)
        ∙ ap (λ (x : OauthFamilyRow). is_null x.revoked_at) (same_row own)
        ∙ rows.live

    was_current : f.id ≡ family_id → c.current ≡ f.current_token_hash
    was_current own =
        sym (ap (λ (x : Chain). x.current) v.viewed)
        ∙ ap (λ (x : OauthFamilyRow). x.current_token_hash) (same_row own)

    exchange-HasStepped :
        (st' : OauthStore) (x : OauthFamily) (owner : Option String)
        → rotate_row t f token_hash r st ≡ ok (some x, st')
        → HasStepped family_id (rotation_event family_id token_hash r owner (ok x)) st' c
    exchange-HasStepped st' x owner ran =
        let (current, id, families) = rotate_row-some t f token_hash r st st' x ran in
        let change = advance_row r.new_token_hash r.new_access_jti in
        elim (Bool-cases (str_eq x.id family_id)) [
          | inl named ↦
              let own : f.id ≡ family_id = sym id ∙ (eq_iff x.id family_id).0 named in
              rw named (record {
                after = record {
                  current = r.new_token_hash;
                  access_jti = r.new_access_jti;
                  is_live = true;
                };
                step =
                    exchanges c token_hash r.new_token_hash r.new_access_jti (was_live own)
                      (was_current own ∙ (eq_iff f.current_token_hash token_hash).0 current);
                view = record {
                  row = change f;
                  found =
                      found_updated family_id st c v (is_current f.id token_hash) change st'
                        (λ y. refl) families
                      ∙ ap (λ y. some (if is_current f.id token_hash y then change y else y))
                          (same_row own)
                      ∙ rw ((eq_iff f.id f.id).1 refl) (rw current (rw rows.live refl));
                  viewed =
                      ap
                        (λ b. record {
                          current = r.new_token_hash;
                          access_jti = r.new_access_jti;
                          is_live = b;
                        })
                        rows.live;
                };
              })
          | inr other ↦
              let differs : str_eq f.id family_id ≡ false =
                ap (λ i. str_eq i family_id) (sym id) ∙ other in
              rw other (
                view_kept family_id st' c (
                  missed-IsViewed family_id st c v (is_current f.id token_hash) change st'
                    (λ y. refl) families
                    (rw (other_false v.row.id family_id f.id (own_id family_id st c v) differs)
                      refl)))
        ]

    reuse-HasStepped :
        (st' : OauthStore)
        → rotate_row t f token_hash r st ≡ ok (none, st')
        → HasStepped family_id
            (rotation_event family_id token_hash r (some t.family_id) (err oauth_reuse))
            st'
            c
    reuse-HasStepped st' ran =
        let (stale, left) = rotate_row-none t f token_hash r st st' ran in
        elim (Bool-cases (str_eq t.family_id family_id)) [
          | inl named ↦
              let own : f.id ≡ family_id = token_owner ∙ (eq_iff t.family_id family_id).0 named in
              let full : revoke_locked family_id r.now st ≡ st' =
                ap (λ i. revoke_locked i r.now st) (sym own) ∙ left in
              rw named (record {
                after = record c { is_live = false };
                step = reuses c token_hash (was_live own) (λ same.
                    let is : str_eq f.current_token_hash token_hash ≡ true =
                      (eq_iff f.current_token_hash token_hash).1 (sym (was_current own) ∙ same) in
                    cc);
                view = rw (sym full) (revoked-IsViewed family_id st c v r.now);
              })
          | inr other ↦
              let differs : str_eq f.id family_id ≡ false =
                ap (λ i. str_eq i family_id) token_owner ∙ other in
              rw other (
                view_kept family_id st' c
                  (rw (sym left) (other_revoked-IsViewed family_id st c v f.id r.now differs)))
        ]

  pub rotate_refresh-HasStepped :
      HasStepped family_id
        (event_of family_id (rotating token_hash r) st)
        (run_call (rotating token_hash r) st)
        c
  rotate_refresh-HasStepped = elim (Result-cases (rotate_tx token_hash r st)) [
    | inr (e, raised) ↦
        let other : e ≢ oauth_reuse =
          λ same. rotate_tx-ne-reuse token_hash r st (raised ∙ ap err same) in
        let left : rotate_refresh token_hash r st ≡ (err e, st) =
          rotate_refresh-raise token_hash r st _ raised in
        rw (left, run_call, event_of)
          (rw
            (rotation_event-raised family_id token_hash r (family_for_refresh token_hash st) e
              other)
            (view_kept family_id st c v))
    | inl ((o, st'), ran) ↦
        let (t, f, rows, row_ran) = rotate_tx-rows token_hash r st st' o ran in
        elim (Option-cases o) [
          | inl reused_now ↦
              let left : rotate_refresh token_hash r st ≡ (err oauth_reuse, st') =
                rotate_refresh-raise token_hash r st _ (ran ∙ ap (λ y. ok (y, st')) reused_now) in
              let stepped =
                reuse-HasStepped t f rows st' (row_ran ∙ ap (λ y. ok (y, st')) reused_now) in
              rw (left, owner_of t f rows, run_call, event_of) stepped
          | inr (x, given) ↦
              let left : rotate_refresh token_hash r st ≡ (ok x, st') =
                rotate_refresh-raise token_hash r st _ (ran ∙ ap (λ y. ok (y, st')) given) in
              let stepped =
                exchange-HasStepped t f rows st' x (family_for_refresh token_hash st)
                  (row_ran ∙ ap (λ y. ok (y, st')) given) in
              rw (left, run_call, event_of) stepped
        ]
  ]
