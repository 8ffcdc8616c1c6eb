-- ===== src/Oauth/Provider/Grants/Retired.antt =====
-- Access tokens behind a rotation (`_refresh_grant` and `authorize` of
-- src/auth-broker/app/mcp_oauth/provider.py).
use mathai_ai_swarm_memory.Common.{
  ◌≡◌, refl, sym, ap, ◌∙◌, inl, inr, Bool, true, false, not, ◌&&◌, none, some, if◌then◌else◌, ◌==◌,
  find-update_where, map_found, count_where, String, str_eq, is_unset, ok, ◌>>◌, arith,
  Option-cases, Bool-cases, Result-cases, committed_keeps,
}
use mathai_ai_swarm_memory.Broker.Store.{Datetime, Store, is_null}
use mathai_ai_swarm_memory.Broker.Families.{active_principal}
use mathai_ai_swarm_memory.Broker.Scopes.{effective_scopes}
use mathai_ai_swarm_memory.Broker.Principals.{active_grant_scopes}
use mathai_ai_swarm_memory.Oauth.Store.{OauthStore, OauthFamilyRow, OauthTokenRow, needs_aware}
use mathai_ai_swarm_memory.Oauth.Families.{
  OauthFamily, Rotation, is_family, is_unrevoked, revoke_row, family, revoke_family, revoke_locked,
  rotate_refresh,
}
use mathai_ai_swarm_memory.Oauth.Families.Chain.{Chain}
use mathai_ai_swarm_memory.Oauth.Families.Views.{find_family, to_chain, IsViewed}
use mathai_ai_swarm_memory.Oauth.Families.Present.{present, IsDue, rotate_refresh-present}
use mathai_ai_swarm_memory.Oauth.Tokens.{McpAccessPrincipal}
use mathai_ai_swarm_memory.Oauth.Provider.{
  Form, field_or_empty, is_field, Draws, Settings, refreshed, refresh_grant, authorize,
}

-- The access token is not the current one of a live family in this row.
abbrev pub is_retired_in : String → OauthFamilyRow → Bool
is_retired_in jti f = not (is_null f.revoked_at && str_eq f.current_access_jti jti)

-- The family is not to be had, or not with this access token.
record IsRetired (family_id jti : String) (st : OauthStore) : Type 0 where
  row : OauthFamilyRow
  found : find_family family_id st ≡ some row
  retired : is_retired_in jti row ≡ true

-- The rotation that a refresh request makes.
abbrev pub rotation_of : Settings → Form → Datetime → Draws → Rotation
rotation_of settings form now draws = record {
  now = now;
  new_token_hash = settings.digest draws.refresh;
  new_access_jti = draws.jti;
  client_id = field_or_empty "client_id" form;
  resource = settings.audience;
}

module _ (family_id jti : String) where
  revoke_locked-IsRetired :
      (other : String) (now : Datetime) (st : OauthStore)
      → IsRetired family_id jti st
      → IsRetired family_id jti (revoke_locked other now st)
  unfolding revoke_locked
  revoke_locked-IsRetired other now st h =
      let at =
        find-update_where (is_family family_id) (is_unrevoked other) (revoke_row now) st.families
          (λ y. refl)
        ∙ ap (map_found (λ y. if is_unrevoked other y then revoke_row now y else y)) h.found in
      elim (Bool-cases (count_where (is_unrevoked other) st.families == 0)) [
        | inl nothing ↦ rw nothing h
        | inr some_row ↦ rw some_row (elim (Bool-cases (is_unrevoked other h.row)) [
          | inl hit ↦ record {
            row = revoke_row now h.row;
            found = at ∙ rw hit refl;
            retired = refl;
          }
          | inr miss ↦ record { row = h.row; found = at ∙ rw miss refl; retired = h.retired }
        ])
      ]

  revoke-IsRetired :
      (other : String) (now : Datetime) (st : OauthStore)
      → IsRetired family_id jti st
      → IsRetired family_id jti (revoke_family other now st).1
  unfolding revoke_family
  revoke-IsRetired other now st h =
      committed_keeps (IsRetired family_id jti) st
        (needs_aware now >> ok (tt, revoke_locked other now st)) h
        (λ (y : Unit {0}) (st' : OauthStore)
            (e : (needs_aware now >> ok (tt, revoke_locked other now st)) ≡ ok (y, st')).
          let same : revoke_locked other now st ≡ st' = ground arith in
          rw (sym same) (revoke_locked-IsRetired other now st h))

  present_retires :
      (token new_token new_jti : String) (c : Chain)
      → str_eq new_jti jti ≡ false
      → (let c' = (present token new_token new_jti c).1 in
          not (c'.is_live && str_eq c'.access_jti jti))
        ≡ true
  unfolding present
  present_retires token new_token new_jti c fresh = ground arith

  viewed-IsRetired :
      (st : OauthStore) (token new_token new_jti : String) (c : Chain)
      → str_eq new_jti jti ≡ false
      → IsViewed family_id st (present token new_token new_jti c).1
      → IsRetired family_id jti st
  viewed-IsRetired st token new_token new_jti c fresh v = record {
    row = v.row;
    found = v.found;
    retired =
        ap (λ (x : Chain). not (x.is_live && str_eq x.access_jti jti)) v.viewed
        ∙ present_retires token new_token new_jti c fresh;
  }

  retired_unavailable :
      (later : Datetime) (st : OauthStore) (x : OauthFamily)
      → IsRetired family_id jti st
      → family family_id later st ≡ ok (some x)
      → str_eq x.current_access_jti jti ≡ false
  unfolding family
  retired_unavailable later st x h e =
      let found = h.found in let retired = h.retired in ground (arith, found, retired)

  retired_refused :
      (settings : Settings) (token : McpAccessPrincipal) (later : Datetime) (ps : Store)
      (st : OauthStore)
      → token.family_id ≡ family_id
      → token.jti ≡ jti
      → IsRetired family_id jti st
      → authorize settings token later ps st ≡ none
  unfolding authorize
  retired_refused settings token later ps st of_family of_jti h =
      elim (Bool-cases (str_eq token.workspace_id settings.workspace_id)) [
        | inr other ↦ ground (arith, other)
        | inl same ↦ elim (Result-cases (family token.family_id later st)) [
          | inr (e, raised) ↦ ground (arith, raised)
          | inl (found, read) ↦ elim (Option-cases found) [
            | inl lost ↦ ground (arith, read, lost)
            | inr (x, there) ↦
                let not_current : str_eq x.current_access_jti token.jti ≡ false =
                  ap (str_eq x.current_access_jti) of_jti
                  ∙ retired_unavailable later st x h
                      (ap (λ i. family i later st) (sym of_family) ∙ read ∙ ap ok there) in
                ground (arith, read, there, not_current)
          ]
        ]
      ]

module _ (settings : Settings) where
  refreshed-IsRetired :
      (family_id jti : String) (x : OauthFamily) (now : Datetime) (draws : Draws) (ps : Store)
      (st : OauthStore)
      → IsRetired family_id jti st
      → IsRetired family_id jti (refreshed settings x now draws ps st).1
  unfolding refreshed
  refreshed-IsRetired family_id jti x now draws ps st h =
      elim (Option-cases (active_principal ps x.principal_id)) [
        | inl unknown ↦ rw (unknown, refreshed) h
        | inr (p, active) ↦ elim (Result-cases (active_grant_scopes settings.texts p.id now ps)) [
          | inr (e, raised) ↦ rw (active, raised, refreshed) h
          | inl (granted, listed) ↦
              elim (Result-cases (effective_scopes x.requested_scopes granted p.role)) [
                | inl (scopes, effective) ↦ rw (active, listed, effective, refreshed) h
                | inr (e, refused) ↦
                    rw (active, listed, refused, refreshed)
                      (revoke-IsRetired family_id jti x.id now st h)
              ]
        ]
      ]

  -- The store behind a refresh request with the resource and both fields.
  refresh_grant-IsRetired :
      (family_id jti : String) (form : Form) (now : Datetime) (draws : Draws) (ps : Store)
      (st : OauthStore)
      → is_field "resource" settings.audience form ≡ true
      → is_unset (field_or_empty "refresh_token" form) ≡ false
      → is_unset (field_or_empty "client_id" form) ≡ false
      → IsRetired family_id jti
          (rotate_refresh
            (settings.digest (field_or_empty "refresh_token" form))
            (rotation_of settings form now draws)
            st).1
      → IsRetired family_id jti (refresh_grant settings form now draws ps st).1
  unfolding refresh_grant
  refresh_grant-IsRetired family_id jti form now draws ps st resource presented client h =
      let rotated =
        rotate_refresh (settings.digest (field_or_empty "refresh_token" form))
          (rotation_of settings form now draws) st in
      elim (Result-cases rotated.0) [
        | inr (e, raised) ↦ rw (resource, presented, client, raised, refresh_grant) h
        | inl (x, given) ↦
            rw (resource, presented, client, given, refresh_grant)
              (refreshed-IsRetired family_id jti x now draws ps rotated.1 h)
      ]

  -- Once a request with the resource and both fields has presented a refresh token that is due (a
  -- known token of its family's own client, at an aware time when neither has expired, with a new
  -- token that is unused and one row of the family's key), no access token of its family with
  -- another jti than the drawn one is accepted in the store that the request leaves, at any later
  -- time and whatever the request was answered.
  pub refresh_grant_retires :
      (form : Form) (now : Datetime) (draws : Draws) (ps : Store) (st : OauthStore)
      (t : OauthTokenRow) (f : OauthFamilyRow)
      → is_field "resource" settings.audience form ≡ true
      → is_unset (field_or_empty "refresh_token" form) ≡ false
      → is_unset (field_or_empty "client_id" form) ≡ false
      → IsDue
          (settings.digest (field_or_empty "refresh_token" form))
          (rotation_of settings form now draws)
          st
          t
          f
      → (token : McpAccessPrincipal) (later : Datetime) (ps' : Store)
      → token.family_id ≡ t.family_id
      → str_eq draws.jti token.jti ≡ false
      → authorize settings token later ps' (refresh_grant settings form now draws ps st).1 ≡ none
  refresh_grant_retires form now draws ps st t f resource presented client due token later ps'
        of_family other =
      let token_hash = settings.digest (field_or_empty "refresh_token" form) in
      let r = rotation_of settings form now draws in
      let view = (rotate_refresh-present token_hash r st t f due).1 in
      retired_refused t.family_id token.jti settings token later ps' _ of_family refl (
        refresh_grant-IsRetired t.family_id token.jti form now draws ps st resource presented client
          (viewed-IsRetired t.family_id token.jti (rotate_refresh token_hash r st).1 token_hash
            r.new_token_hash r.new_access_jti (to_chain f) other view))
