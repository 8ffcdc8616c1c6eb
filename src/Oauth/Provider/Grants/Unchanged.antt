-- ===== src/Oauth/Provider/Grants/Unchanged.antt =====
-- The endpoints of src/auth-broker/app/mcp_oauth/provider.py that leave the stored codes as they are.
use mathai_ai_swarm_memory.Common.{
  ◌≡◌, refl, sym, ◌∙◌, inl, inr, true, ◌||◌, List, [], ◌∷◌, Option, none, some, keep, String,
  str_eq, is_unset, ok, ◌>>◌, arith, Option-cases, Bool-cases, Result-cases, committed_keeps,
}
use mathai_ai_swarm_memory.Broker.Store.{Datetime, Store, PrincipalRow}
use mathai_ai_swarm_memory.Broker.Grants.{Grant}
use mathai_ai_swarm_memory.Broker.Families.{active_principal}
use mathai_ai_swarm_memory.Broker.Scopes.{is_member, effective_scopes}
use mathai_ai_swarm_memory.Broker.Principals.{active_grant_scopes, list_grants}
use mathai_ai_swarm_memory.Oauth.Store.{OauthStore, needs_aware}
use mathai_ai_swarm_memory.Oauth.Codes.{consume_code}
use mathai_ai_swarm_memory.Oauth.Families.{
  OauthFamily, Rotation, create_family, create_family_tx, insert_family, insert_token, family,
  family_for_refresh, revoke_family, revoke_locked, rotate_refresh, rotate_tx, rotate_row, advance,
}
use mathai_ai_swarm_memory.Oauth.Families.Views.{raise_reuse-store}
use mathai_ai_swarm_memory.Oauth.Provider.{
  Form, field, field_or_empty, is_field, Draws, Settings, matches_code, open_family, issue_tokens,
  code_grant, refreshed, refresh_grant, revoke,
}
use mathai_ai_swarm_memory.Oauth.Provider.Grants.Retired.{rotation_of}

create_family-codes :
    (x : OauthFamily) (token_hash : String) (now : Datetime) (st : OauthStore)
    → (create_family x token_hash now st).1.codes ≡ st.codes
unfolding create_family create_family_tx insert_family insert_token
create_family-codes x token_hash now st =
    committed_keeps (λ s. s.codes ≡ st.codes) st (create_family_tx x token_hash now st) refl
      (λ (y : OauthFamily) (st' : OauthStore)
          (e : create_family_tx x token_hash now st ≡ ok (y, st')).
        ground arith)

revoke_locked-codes :
    (family_id : String) (now : Datetime) (st : OauthStore)
    → (revoke_locked family_id now st).codes ≡ st.codes
unfolding revoke_locked
revoke_locked-codes family_id now st = ground arith

revoke_family-codes :
    (family_id : String) (now : Datetime) (st : OauthStore)
    → (revoke_family family_id now st).1.codes ≡ st.codes
unfolding revoke_family
revoke_family-codes family_id now st =
    committed_keeps (λ s. s.codes ≡ st.codes) st
      (needs_aware now >> ok (tt, revoke_locked family_id now st)) refl
      (λ (y : Unit {0}) (st' : OauthStore)
          (e : (needs_aware now >> ok (tt, revoke_locked family_id now st)) ≡ ok (y, st')).
        let same : revoke_locked family_id now st ≡ st' = ground arith in
        rw (sym same) (revoke_locked-codes family_id now st))

rotate_tx-codes :
    (token_hash : String) (r : Rotation) (st st' : OauthStore) (o : Option OauthFamily)
    → rotate_tx token_hash r st ≡ ok (o, st')
    → st'.codes ≡ st.codes
unfolding rotate_tx rotate_row advance insert_token revoke_locked
rotate_tx-codes token_hash r st st' o h = ground arith

rotate_refresh-codes :
    (token_hash : String) (r : Rotation) (st : OauthStore)
    → (rotate_refresh token_hash r st).1.codes ≡ st.codes
unfolding rotate_refresh
rotate_refresh-codes token_hash r st = rw raise_reuse-store (
    committed_keeps (λ s. s.codes ≡ st.codes) st (rotate_tx token_hash r st) refl
      (λ o st' e. rotate_tx-codes token_hash r st st' o e))

module _ (settings : Settings) where
  open_family-codes :
      (p : PrincipalRow) (client_id : String) (scopes : List String) (grants : List Grant)
      (now : Datetime) (draws : Draws) (st : OauthStore)
      → (open_family settings p client_id scopes grants now draws st).1.codes ≡ st.codes
  unfolding open_family
  open_family-codes p client_id scopes [] now draws st = refl
  open_family-codes p client_id scopes (g ∷ grants) now draws st =
      create_family-codes _ (settings.digest draws.refresh) now st

  issue_tokens-codes :
      (principal_id client_id : String) (scopes : List String) (now : Datetime) (draws : Draws)
      (ps : Store) (st : OauthStore)
      → (issue_tokens settings principal_id client_id scopes now draws ps st).1.codes ≡ st.codes
  unfolding issue_tokens
  issue_tokens-codes principal_id client_id scopes now draws ps st =
      elim (Option-cases (active_principal ps principal_id)) [
        | inl unknown ↦ rw (unknown, issue_tokens) refl
        | inr (p, active) ↦ elim (Result-cases (active_grant_scopes settings.texts p.id now ps)) [
          | inr (e, raised) ↦ rw (active, raised, issue_tokens) refl
          | inl (granted, listed) ↦ elim (Result-cases (effective_scopes scopes granted p.role)) [
            | inr (e, refused) ↦ rw (active, listed, refused, issue_tokens) refl
            | inl (effective, within) ↦
                elim (Result-cases (list_grants settings.texts p.id now ps)) [
                  | inr (e, raised) ↦ rw (active, listed, within, raised, issue_tokens) refl
                  | inl (grants, read) ↦
                      rw (active, listed, within, read, issue_tokens)
                        (open_family-codes p client_id effective
                          (keep (λ (g : Grant). is_member g.scope effective) grants) now draws st)
                ]
          ]
        ]
      ]

  refreshed-codes :
      (x : OauthFamily) (now : Datetime) (draws : Draws) (ps : Store) (st : OauthStore)
      → (refreshed settings x now draws ps st).1.codes ≡ st.codes
  unfolding refreshed
  refreshed-codes x now draws ps st = elim (Option-cases (active_principal ps x.principal_id)) [
    | inl unknown ↦ rw (unknown, refreshed) refl
    | inr (p, active) ↦ elim (Result-cases (active_grant_scopes settings.texts p.id now ps)) [
      | inr (e, raised) ↦ rw (active, raised, refreshed) refl
      | inl (granted, listed) ↦
          elim (Result-cases (effective_scopes x.requested_scopes granted p.role)) [
            | inl (scopes, effective) ↦ rw (active, listed, effective, refreshed) refl
            | inr (e, refused) ↦
                rw (active, listed, refused, refreshed) (revoke_family-codes x.id now st)
          ]
    ]
  ]

  pub refresh_grant-codes :
      (form : Form) (now : Datetime) (draws : Draws) (ps : Store) (st : OauthStore)
      → (refresh_grant settings form now draws ps st).1.codes ≡ st.codes
  unfolding refresh_grant
  refresh_grant-codes form now draws ps st =
      let token_hash = settings.digest (field_or_empty "refresh_token" form) in
      let rotated = rotate_refresh token_hash (rotation_of settings form now draws) st in
      let kept = rotate_refresh-codes token_hash (rotation_of settings form now draws) st in
      elim (Bool-cases (is_field "resource" settings.audience form)) [
        | inr other ↦ rw (other, refresh_grant) refl
        | inl resource ↦
            elim (Bool-cases (
              is_unset (field_or_empty "refresh_token" form)
              || is_unset (field_or_empty "client_id" form))) [
                | inl missing ↦ rw (resource, missing, refresh_grant) refl
                | inr present ↦ elim (Result-cases rotated.0) [
                  | inr (e, raised) ↦ rw (resource, present, raised, refresh_grant) kept
                  | inl (x, given) ↦
                      rw (resource, present, given, refresh_grant)
                        (refreshed-codes x now draws ps rotated.1 ∙ kept)
                ]
              ]
      ]

  pub revoke-codes :
      (form : Form) (now : Datetime) (st : OauthStore)
      → (revoke settings form now st).1.codes ≡ st.codes
  unfolding revoke
  revoke-codes form now st =
      elim (Option-cases (family_for_refresh (settings.digest (field_or_empty "token" form)) st)) [
        | inl lost ↦ rw (lost, revoke) refl
        | inr (family_id, known) ↦ elim (Result-cases (family family_id now st)) [
          | inr (e, raised) ↦ rw (known, raised, revoke) refl
          | inl (found, read) ↦ elim (Option-cases found) [
            | inl lost ↦ rw (known, read, lost, revoke) refl
            | inr (x, there) ↦
                rw (known, read, there, revoke)
                  (elim (Bool-cases (elim (field "client_id" form) [
                    | none ↦ true
                    | some c ↦ str_eq c x.client_id
                  ])) [
                    | inl own ↦ rw own (revoke_family-codes family_id now st)
                    | inr other ↦ rw other refl
                  ])
          ]
        ]
      ]

  -- What `code_grant` leaves of a code: what its consumption leaves, or all of it.
  pub code_grant-codes :
      (form : Form) (now : Datetime) (draws : Draws) (ps : Store) (st : OauthStore)
      → is_field "resource" settings.audience form ≡ true
      → (code_grant settings form now draws ps st).1.codes
        ≡ (consume_code (settings.digest (field_or_empty "code" form)) now st).1.codes
  unfolding code_grant
  code_grant-codes form now draws ps st resource =
      let code_hash = settings.digest (field_or_empty "code" form) in
      let took = consume_code code_hash now st in
      elim (Result-cases took.0) [
        | inr (e, raised) ↦ rw (resource, raised, code_grant) refl
        | inl (code, ran) ↦ elim (Bool-cases (matches_code settings form code)) [
          | inr other ↦ rw (resource, ran, other, code_grant) refl
          | inl matched ↦
              rw (resource, ran, matched, code_grant)
                (issue_tokens-codes code.principal_id code.client_id code.scopes now draws ps
                  took.1)
        ]
      ]
