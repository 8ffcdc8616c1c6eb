-- ===== src/Oauth/Codes.antt =====
-- `put_code` and `consume_code` of src/auth-broker/app/mcp_oauth/store.py.
pub mod Once
use mathai_ai_swarm_memory.Common.{
  ◌≡◌, Bool, true, false, not, ◌&&◌, List, [], ◌∷◌, ◌++◌, Option, none, some, find, any,
  update_where, String, str_eq, Result, ok, err, guard, ◌>>=◌, ◌>>◌, committed,
}
use mathai_ai_swarm_memory.Broker.Store.{Datetime, is_before, is_null}
use mathai_ai_swarm_memory.Oauth.Store.{
  OauthError, duplicate_key, invalid_oauth_grant, needs_aware, CodeRow, OauthStore, Reply,
}

pub record OauthCode : Type 0 where
  pub client_id : String
  pub redirect_uri : String
  pub resource : String
  pub code_challenge : String
  pub principal_id : String
  pub scopes : List String

abbrev pub is_code : String → CodeRow → Bool
is_code code_hash c = str_eq c.code_hash code_hash

-- `WHERE code_hash = ? AND consumed_at IS NULL`
abbrev pub is_unused_code : String → CodeRow → Bool
is_unused_code code_hash c = is_code code_hash c && is_null c.consumed_at

abbrev pub consume_code_row : Datetime → CodeRow → CodeRow
consume_code_row now c = record c { consumed_at = some now }

-- The row of a new code, from the value that its consumption returns.
abbrev pub new_code : String → OauthCode → Datetime → CodeRow
new_code code_hash code expires_at = record {
  code_hash = code_hash;
  client_id = code.client_id;
  redirect_uri = code.redirect_uri;
  resource = code.resource;
  code_challenge = code.code_challenge;
  principal_id = code.principal_id;
  scopes = code.scopes;
  expires_at = expires_at;
  consumed_at = none;
}

abbrev pub to_code : CodeRow → OauthCode
to_code c = record {
  client_id = c.client_id;
  redirect_uri = c.redirect_uri;
  resource = c.resource;
  code_challenge = c.code_challenge;
  principal_id = c.principal_id;
  scopes = c.scopes;
}

unfoldable pub put_code_tx :
    String → OauthCode → Datetime → OauthStore → Result OauthError (Unit {0} × OauthStore)
put_code_tx code_hash code expires_at st = do
  needs_aware expires_at
  guard (not (any (is_code code_hash) st.codes)) duplicate_key
  ok (tt, record st { codes = st.codes ++ new_code code_hash code expires_at ∷ [] })

unfoldable pub put_code : String → OauthCode → Datetime → OauthStore → Reply (Unit {0})
put_code code_hash code expires_at st = committed st (put_code_tx code_hash code expires_at st)

unfoldable pub consume_code_tx :
    String → Datetime → OauthStore → Result OauthError (OauthCode × OauthStore)
consume_code_tx code_hash now st = do
  needs_aware now
  elim (find (is_code code_hash) st.codes) [
    | none ↦ err invalid_oauth_grant
    | some c ↦ do
      guard (is_null c.consumed_at && is_before now c.expires_at) invalid_oauth_grant
      ok (
        to_code c,
        record st {
          codes = update_where (is_unused_code code_hash) (consume_code_row now) st.codes;
        },
      )
  ]

unfoldable pub consume_code : String → Datetime → OauthStore → Reply OauthCode
consume_code code_hash now st = committed st (consume_code_tx code_hash now st)
