-- ===== src/Oauth/Provider/Grants.antt =====
-- What `authorize` and the grants of src/auth-broker/app/mcp_oauth/provider.py have checked.
pub mod Retired
pub mod Unchanged
pub mod Spent
use mathai_ai_swarm_memory.Common.{
  ◌≡◌, refl, sym, ap, ◌∙◌, inl, inr, Bool, true, false, not, List, [], ◌∷◌, Option, none, some,
  if◌then◌else◌, any, find, String, str_eq, eq_iff, Result, err, arith, Option-cases, Bool-cases,
  Result-cases, committed-ran,
}
use mathai_ai_swarm_memory.Broker.Store.{Datetime, Store, PrincipalRow, is_before}
use mathai_ai_swarm_memory.Broker.Scopes.{is_member}
use mathai_ai_swarm_memory.Broker.Principals.Granted.{null_none, is_granted}
use mathai_ai_swarm_memory.Oauth.Store.{OauthError, OauthStore, OauthFamilyRow, CodeRow}
use mathai_ai_swarm_memory.Oauth.Codes.{OauthCode, is_code, to_code, consume_code, consume_code_tx}
use mathai_ai_swarm_memory.Oauth.Codes.Once.{consume_code_tx-codes}
use mathai_ai_swarm_memory.Oauth.Families.{is_family}
use mathai_ai_swarm_memory.Oauth.Tokens.{Issued, McpAccessPrincipal}
use mathai_ai_swarm_memory.Oauth.Provider.{
  Form, field, field_or_empty, is_field, is_verifier, is_challenge, Response, tokens, caught, Draws,
  Settings, classifications_for, pkce_s256, matches_code, issue_tokens, code_grant,
}

-- What stands behind an accepted access token.
pub record IsAuthorized (settings : Settings) (token accepted : McpAccessPrincipal) (now : Datetime)
    (ps : Store) (st : OauthStore) : Type 0 where
  pub f : OauthFamilyRow
  pub p : PrincipalRow
  pub workspace : token.workspace_id ≡ settings.workspace_id
  pub family_row : find (is_family token.family_id) st.families ≡ some f
  pub unrevoked : f.revoked_at ≡ none
  pub in_time : is_before now f.expires_at ≡ true
  pub current : f.current_access_jti ≡ token.jti
  pub principal_found :
      find (λ (q : PrincipalRow). str_eq q.id token.principal_id) ps.principals ≡ some p
  pub enabled : p.revoked_at ≡ none
  pub within :
      (scope : String)
      → is_member scope accepted.scopes ≡ true
      → (is_member scope token.scopes ≡ true)
        × (any (is_granted settings.texts p.id scope now) ps.grants ≡ true)
  pub classified : accepted.classifications ≡ classifications_for p.role
  pub same_principal : accepted.principal_id ≡ token.principal_id

-- What stands behind the tokens for a code.
pub record IsExchanged (settings : Settings) (form : Form) (now : Datetime) (st : OauthStore)
    (c : CodeRow) : Type 0 where
  pub found : find (is_code (settings.digest (field_or_empty "code" form))) st.codes ≡ some c
  pub unused : c.consumed_at ≡ none
  pub in_time : is_before now c.expires_at ≡ true
  pub resource : field "resource" form ≡ some settings.audience
  pub client : field "client_id" form ≡ some c.client_id
  pub redirect : field "redirect_uri" form ≡ some c.redirect_uri
  pub audience : c.resource ≡ settings.audience
  pub form_of_verifier : is_verifier (field_or_empty "code_verifier" form) ≡ true
  pub form_of_challenge : is_challenge c.code_challenge ≡ true
  pub proved : settings.s256 (field_or_empty "code_verifier" form) ≡ c.code_challenge

is_field-some :
    (key value : String) (form : Form)
    → is_field key value form ≡ true
    → field key form ≡ some value
is_field-some key value form h = elim (Option-cases (field key form)) [
  | inl lost ↦ absurd (ground arith)
  | inr (v, there) ↦ there ∙ ap some ((eq_iff v value).0 (ground arith))
]

-- The response has tokens.
abbrev pub has_tokens : Response → Bool
has_tokens (tokens issued refresh) = true
has_tokens _ = false

pub caught-has_tokens : (e : OauthError) → has_tokens (caught e) ≡ false
caught-has_tokens e = ground arith

module _ (settings : Settings) where
  -- Tokens are given for a code only when it is stored, unused and in time and is for the audience,
  -- the form names the audience, the client and the redirect of the code, its verifier and the
  -- code's challenge have the form that PKCE asks, and the challenge is the S256 of the verifier.
  pub code_grant-IsExchanged :
      (form : Form) (now : Datetime) (draws : Draws) (ps : Store) (st : OauthStore)
      → has_tokens (code_grant settings form now draws ps st).0 ≡ true
      → (c : CodeRow) × IsExchanged settings form now st c
  unfolding code_grant matches_code consume_code pkce_s256
  code_grant-IsExchanged form now draws ps st h =
      let code_hash = settings.digest (field_or_empty "code" form) in
      elim (Bool-cases (is_field "resource" settings.audience form)) [
        | inr other ↦ absurd (ground (arith, other))
        | inl resource ↦ elim (Result-cases (consume_code code_hash now st).0) [
          | inr (e, raised) ↦ absurd (ground (arith, resource, raised, caught-has_tokens e))
          | inl (code, ran) ↦
              let (st', took) = committed-ran st (consume_code_tx code_hash now st) code ran in
              let (c, found, unused, in_time, same, after) =
                consume_code_tx-codes code_hash now st st' code took in
              elim (Bool-cases (matches_code settings form code)) [
                | inr other ↦ absurd (ground (arith, resource, ran, other))
                | inl matched ↦
                    let checks : matches_code settings form (to_code c) ≡ true =
                      sym (ap (matches_code settings form) same) ∙ matched in
                    (
                      c,
                      record {
                        found = found;
                        unused = null_none c.consumed_at unused;
                        in_time = in_time;
                        resource = is_field-some "resource" settings.audience form resource;
                        client =
                            is_field-some "client_id" c.client_id form (ground (arith, checks));
                        redirect =
                            is_field-some "redirect_uri" c.redirect_uri form
                              (ground (arith, checks));
                        audience = (eq_iff c.resource settings.audience).0 (ground (arith, checks));
                        form_of_verifier = ground (arith, checks);
                        form_of_challenge = ground (arith, checks);
                        proved =
                            (eq_iff (settings.s256 (field_or_empty "code_verifier" form))
                                c.code_challenge).0
                              (ground (arith, checks));
                      },
                    )
              ]
        ]
      ]
