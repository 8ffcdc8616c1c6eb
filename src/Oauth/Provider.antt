-- ===== src/Oauth/Provider.antt =====
-- The endpoints of src/auth-broker/app/mcp_oauth/provider.py on the OAuth tables and the broker's
-- store. A form or a query is its list of decoded pairs; `github.exchange_code`, the digest and the
-- random texts are parameters, and a response is data in place of HTTP.
mod Requests
pub mod Consent
pub mod Register
pub mod Grants
pub use Requests.*
use mathai_ai_swarm_memory.Common.{
  ℕ, ◌+◌, ◌≡◌, Bool, true, false, not, ◌&&◌, ◌||◌, List, [], ◌∷◌, Option, none, some, leb, ◌==◌,
  if◌then◌else◌, any, all, keep, length, map, String, str_eq, is_unset, Codes, codes, Result, ok,
  err,
}
use mathai_ai_swarm_memory.Broker.Store.{Datetime, is_before, Store, PrincipalRow, Error}
use mathai_ai_swarm_memory.Broker.Families.{active_principal}
use mathai_ai_swarm_memory.Broker.Grants.{Grant}
use mathai_ai_swarm_memory.Broker.Scopes.{is_member, effective_scopes}
use mathai_ai_swarm_memory.Broker.Principals.{Texts, active_grant_scopes, list_grants}
use mathai_ai_swarm_memory.Oauth.Store.{OauthError, OauthStore, invalid_oauth_grant, oauth_reuse}
use mathai_ai_swarm_memory.Oauth.Codes.{OauthCode, consume_code}
use mathai_ai_swarm_memory.Oauth.Families.{
  OauthFamily, Rotation, create_family, family, family_for_refresh, revoke_family, rotate_refresh,
}
use mathai_ai_swarm_memory.Oauth.Tokens.{Issued, McpAccessPrincipal, max_lifetime}

module _ (settings : Settings) where
  -- `_pkce_s256`
  unfoldable pub pkce_s256 : String → String → Bool
  pkce_s256 verifier challenge =
      is_verifier verifier && is_challenge challenge && str_eq (settings.s256 verifier) challenge

  -- `_mint`: what is put into the access token, when its lifetime is valid.
  unfoldable pub mint :
      PrincipalRow → List String → String → Datetime → Datetime → String → Option Issued
  mint p scopes family_id now family_exp jti =
      let latest = later_by five_minutes now in
      let access_exp = if is_before family_exp latest then family_exp else latest in
      if is_before now access_exp && leb access_exp.instant (now.instant + max_lifetime)
      then some (record {
        principal_id = p.id;
        workspace_id = settings.workspace_id;
        scopes = scopes;
        classifications = classifications_for p.role;
        family_id = family_id;
        jti = jti;
        expires_at = access_exp;
      })
      else none

  -- `_token_response` of a minted token.
  abbrev token_response : Option Issued → String → Response
  token_response none refresh = crashed
  token_response (some issued) refresh = tokens issued refresh

  -- The end of `_issue_tokens`: a family until the earliest expiry of the used grants.
  unfoldable pub open_family :
      PrincipalRow
      → String
      → List String
      → List Grant
      → Datetime
      → Draws
      → OauthStore
      → Response × OauthStore
  open_family p client_id scopes [] now draws st = (crashed, st)
  open_family p client_id scopes (g ∷ active) now draws st =
      let family_exp = earliest g.expires_at active in
      let (created, st') =
        create_family
          (record {
            id = draws.family_id;
            principal_id = p.id;
            client_id = client_id;
            resource = settings.audience;
            requested_scopes = scopes;
            expires_at = family_exp;
            current_access_jti = draws.jti;
          })
          (settings.digest draws.refresh) now st in
      (
        elim created [
          | err e ↦ crashed
          | ok x ↦
              token_response (mint p scopes draws.family_id now family_exp draws.jti) draws.refresh
        ],
        st',
      )

  -- `_issue_tokens`
  unfoldable pub issue_tokens :
      String → String → List String → Datetime → Draws → Store → OauthStore → Response × OauthStore
  issue_tokens principal_id client_id scopes now draws ps st =
      elim (active_principal ps principal_id) [
        | none ↦ (invalid_grant_response, st)
        | some p ↦ elim (active_grant_scopes settings.texts p.id now ps) [
          | err e ↦ (crashed, st)
          | ok granted ↦ elim (effective_scopes scopes granted p.role) [
            | err e ↦ (invalid_grant_response, st)
            | ok effective ↦ elim (list_grants settings.texts p.id now ps) [
              | err e ↦ (crashed, st)
              | ok grants ↦
                  open_family p client_id effective
                    (keep (λ (g : Grant). is_member g.scope effective) grants) now draws st
            ]
          ]
        ]
      ]

  -- Whether the form is of the client that the code was issued to, and has its verifier.
  unfoldable pub matches_code : Form → OauthCode → Bool
  matches_code form issued =
      is_field "client_id" issued.client_id form
      && is_field "redirect_uri" issued.redirect_uri form
      && str_eq issued.resource settings.audience
      && pkce_s256 (field_or_empty "code_verifier" form) issued.code_challenge

  -- `_authorization_code_grant`
  unfoldable pub code_grant : Form → Datetime → Draws → Store → OauthStore → Response × OauthStore
  code_grant form now draws ps st =
      if is_field "resource" settings.audience form
      then (let (issued, st') =
            consume_code (settings.digest (field_or_empty "code" form)) now st in
          elim issued [
            | err e ↦ (caught e, st')
            | ok code ↦
                if matches_code form code
                then issue_tokens code.principal_id code.client_id code.scopes now draws ps st'
                else (invalid_grant_response, st')
          ])
      else (failed "invalid_target" 400, st)

  -- `_refresh_grant` behind a rotation that gave the family.
  unfoldable pub refreshed :
      OauthFamily → Datetime → Draws → Store → OauthStore → Response × OauthStore
  refreshed x now draws ps st = elim (active_principal ps x.principal_id) [
    | none ↦ (invalid_grant_response, st)
    | some p ↦ elim (active_grant_scopes settings.texts p.id now ps) [
      | err e ↦ (crashed, st)
      | ok granted ↦ elim (effective_scopes x.requested_scopes granted p.role) [
        | err e ↦ (invalid_grant_response, (revoke_family x.id now st).1)
        | ok scopes ↦
            (token_response (mint p scopes x.id now x.expires_at draws.jti) draws.refresh, st)
      ]
    ]
  ]

  -- `_refresh_grant`
  unfoldable pub refresh_grant :
      Form → Datetime → Draws → Store → OauthStore → Response × OauthStore
  refresh_grant form now draws ps st =
      let refresh = field_or_empty "refresh_token" form in
      let client_id = field_or_empty "client_id" form in
      if not (is_field "resource" settings.audience form)
      then (failed "invalid_target" 400, st)
      else if is_unset refresh || is_unset client_id
      then (invalid_grant_response, st)
      else (let (rotated, st') =
            rotate_refresh (settings.digest refresh)
              (record {
                now = now;
                new_token_hash = settings.digest draws.refresh;
                new_access_jti = draws.jti;
                client_id = client_id;
                resource = settings.audience;
              })
              st in
          elim rotated [ err e ↦ (caught e, st') | ok x ↦ refreshed x now draws ps st' ])

  -- `token_endpoint`, of a form without repeated keys.
  unfoldable pub token_endpoint :
      Form → Datetime → Draws → Store → OauthStore → Response × OauthStore
  token_endpoint form now draws ps st =
      if is_field "grant_type" "authorization_code" form
      then code_grant form now draws ps st
      else if is_field "grant_type" "refresh_token" form
      then refresh_grant form now draws ps st
      else (failed "unsupported_grant_type" 400, st)

  -- `revoke`
  unfoldable pub revoke : Form → Datetime → OauthStore → Response × OauthStore
  revoke form now st =
      elim (family_for_refresh (settings.digest (field_or_empty "token" form)) st) [
        | none ↦ (emptied, st)
        | some family_id ↦ elim (family family_id now st) [
          | err e ↦ (crashed, st)
          | ok none ↦ (emptied, st)
          | ok (some x) ↦
              if (elim (field "client_id" form) [ none ↦ true | some c ↦ str_eq c x.client_id ])
              then (emptied, (revoke_family family_id now st).1)
              else (emptied, st)
        ]
      ]

  -- The principal and the scopes of `authorize`, of a token that was verified; none is an answer of
  -- 401 or 403, or an exception of the store.
  unfoldable pub authorize :
      McpAccessPrincipal → Datetime → Store → OauthStore → Option McpAccessPrincipal
  authorize token now ps st =
      if not (str_eq token.workspace_id settings.workspace_id)
      then none
      else elim (family token.family_id now st) [
        | ok (some x) ↦
            if str_eq x.current_access_jti token.jti
            then (elim (active_principal ps token.principal_id) [
              | none ↦ none
              | some p ↦ elim (active_grant_scopes settings.texts p.id now ps) [
                | err e ↦ none
                | ok granted ↦ elim (effective_scopes token.scopes granted p.role) [
                  | err e ↦ none
                  | ok scopes ↦ some (record token {
                    scopes = scopes;
                    classifications = classifications_for p.role;
                  })
                ]
              ]
            ])
            else none
        | _ ↦ none
      ]
