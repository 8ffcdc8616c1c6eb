-- ===== src/Oauth/FlowTests.antt =====
-- Runs of the endpoints of src/auth-broker/app/mcp_oauth/provider.py on concrete inputs.
use mathai_ai_swarm_memory.Common.{ℕ, ◌≡◌, refl, List, [], ◌∷◌, some, none, String, ok, true, false}
use mathai_ai_swarm_memory.Broker.Store.{Datetime, is_before, Store, empty_store}
use mathai_ai_swarm_memory.Broker.Scopes.{
  validate_role, eligibility, validate_scope, collect_scopes, requested_scopes, effective_scopes,
  validate_grant_ttl,
}
use mathai_ai_swarm_memory.Broker.Grants.{insert_grant_locked}
use mathai_ai_swarm_memory.Broker.Families.{active_principal}
use mathai_ai_swarm_memory.Broker.Principals.{
  Texts, principal_row, cached_login, insert_principal_locked, get_principal, jwk_columns,
  add_principal, add_principal_tx, choose_principal, get_principal_by_github_subject,
  checked_scopes, insert_grants, upsert_principal, allow_tx, allow_github_principal, list_grants,
  active_grant_scopes,
}
use mathai_ai_swarm_memory.Oauth.Store.{
  OauthStore, CodeRow, OauthFamilyRow, OauthTokenRow, empty_oauth,
}
use mathai_ai_swarm_memory.Oauth.Clients.{
  insert_client, put_client_tx, get_client, register_tx, register_public_client, prune,
}
use mathai_ai_swarm_memory.Oauth.Transactions.{
  put_transaction, put_transaction_tx, get_transaction, transition_transaction, consume_transaction,
}
use mathai_ai_swarm_memory.Oauth.Codes.{
  OauthCode, put_code, put_code_tx, consume_code, consume_code_tx,
}
use mathai_ai_swarm_memory.Oauth.Families.{
  insert_family, insert_token, create_family, create_family_tx, family, revoke_family,
  revoke_locked, family_for_refresh, advance, rotate_row, rotate_tx, rotate_refresh,
}
use mathai_ai_swarm_memory.Oauth.Families.Present.{IsDue}
use mathai_ai_swarm_memory.Oauth.Tokens.{McpAccessPrincipal}
use mathai_ai_swarm_memory.Oauth.Provider.{
  Form, Draws, Settings, pkce_s256, mint, open_family, issue_tokens, matches_code, code_grant,
  refreshed, refresh_grant, revoke, authorize,
}
use mathai_ai_swarm_memory.Oauth.Provider.Consent.{
  scopes_of, authorize_checks, authorize_endpoint, consent, principal_for_subject, exchanged,
  github_callback,
}
use mathai_ai_swarm_memory.Oauth.Provider.Consent.Once.{
  FlowCall, authorizing, consenting, returning, has_code, run_flow, github_callback_once,
}
use mathai_ai_swarm_memory.Oauth.Provider.Grants.{IsExchanged, has_tokens, code_grant-IsExchanged}
use mathai_ai_swarm_memory.Oauth.Provider.Grants.Retired.{rotation_of, refresh_grant_retires}
use mathai_ai_swarm_memory.Oauth.Provider.Grants.Spent.{
  GrantCall, exchanging_code, refreshing, revoking, run_grants, code_grant_once,
}

program : Unit {0}
unfolding validate_role eligibility validate_scope collect_scopes requested_scopes effective_scopes
    validate_grant_ttl insert_grant_locked active_principal principal_row cached_login
    insert_principal_locked get_principal jwk_columns add_principal add_principal_tx
    choose_principal get_principal_by_github_subject checked_scopes insert_grants upsert_principal
    allow_tx allow_github_principal list_grants active_grant_scopes insert_client put_client_tx
    get_client register_tx register_public_client prune put_transaction put_transaction_tx
    get_transaction transition_transaction consume_transaction put_code put_code_tx consume_code
    consume_code_tx insert_family insert_token create_family create_family_tx family revoke_family
    revoke_locked family_for_refresh advance rotate_row rotate_tx rotate_refresh pkce_s256 mint
    open_family issue_tokens matches_code code_grant refreshed refresh_grant revoke authorize
    scopes_of authorize_checks authorize_endpoint consent principal_for_subject exchanged
    github_callback
program = tt

abbrev at : ℕ → Datetime
at n = record { instant = n; offset = some 1440 }

abbrev toy : Texts
toy = record {
  is_digits = λ s. true;
  precedes = is_before;
  dumps = λ members. "key";
  loads = λ s. [];
  thumbprint = λ s. "print";
}

abbrev verifier : String
verifier = "aaaaaaaaaaaaaaaaaaaaaaaaaaaaaaaaaaaaaaaaaaa"

abbrev challenge : String
challenge = "bbbbbbbbbbbbbbbbbbbbbbbbbbbbbbbbbbbbbbbbbbb"

abbrev settings : Settings
settings = record {
  texts = toy;
  audience = "mcp";
  workspace_id = "ws";
  digest = λ s. s;
  s256 = λ s. challenge;
  exchange_code = λ s. some "7";
}

abbrev read_scope : String
read_scope = "ctx:read:pesquisa.tcc"

abbrev one_scope : String → List String
one_scope s = s ∷ []

abbrev principals : Store
principals =
    (allow_github_principal toy (λ n. "grant") "7" "ada" "advisor" (read_scope ∷ []) (at 1) (at 900)
      empty_store).1

abbrev callback : String
callback = "http://127.0.0.1/cb"

abbrev registered : OauthStore
registered =
    (register_public_client is_before (at 5) 3 2 "c1" "desk" (callback ∷ []) (at 900) empty_oauth).1

abbrev asks : Form
asks =
    ("response_type", "code")
    ∷ ("client_id", "c1")
    ∷ ("redirect_uri", callback)
    ∷ ("resource", "mcp")
    ∷ ("code_challenge_method", "S256")
    ∷ ("code_challenge", challenge)
    ∷ ("state", "s")
    ∷ ("scope", read_scope)
    ∷ []

abbrev asked : OauthStore
asked =
    (authorize_endpoint settings one_scope asks (at 6) 4 (record { tx_id = "t1"; csrf = "x" })
      registered).1

abbrev allows : Form
allows = ("csrf", "x") ∷ ("decision", "allow") ∷ []

abbrev consented : OauthStore
consented = (consent settings one_scope allows "t1" (at 7) asked).1

abbrev returns : Form
returns = ("state", "t1") ∷ ("code", "github") ∷ []

abbrev draws : Draws
draws = record { family_id = "f1"; refresh = "r1"; jti = "j1"; code = "code1" }

abbrev flow_calls : List FlowCall
flow_calls =
    authorizing asks (at 9) 4 (record { tx_id = "t2"; csrf = "y" })
    ∷ consenting allows "t1" (at 10)
    ∷ returning returns "t1" (at 11) draws principals
    ∷ []

sends :
    has_code (github_callback settings one_scope returns "t1" (at 8) draws principals consented).0
    ≡ true
unfolding program
sends = refl

abbrev returned : OauthStore
returned = (github_callback settings one_scope returns "t1" (at 8) draws principals consented).1

github_callback_once_example :
    has_code
      (github_callback settings one_scope returns "t1"
        (at 12)
        draws
        principals
        (run_flow settings one_scope flow_calls returned)).0
    ≡ false
github_callback_once_example =
    github_callback_once settings one_scope returns "t1" (at 8) draws principals consented sends
      flow_calls (refl, (refl, (refl, tt))) returns "t1" (at 12) draws principals refl

abbrev exchanges : Form
exchanges =
    ("resource", "mcp")
    ∷ ("client_id", "c1")
    ∷ ("redirect_uri", callback)
    ∷ ("code", "code1")
    ∷ ("code_verifier", verifier)
    ∷ []

gives : has_tokens (code_grant settings exchanges (at 13) draws principals returned).0 ≡ true
unfolding program
gives = refl

code_grant-IsExchanged_example : (c : CodeRow) × IsExchanged settings exchanges (at 13) returned c
code_grant-IsExchanged_example =
    code_grant-IsExchanged settings exchanges (at 13) draws principals returned gives

abbrev stored_code : OauthCode
stored_code = record {
  client_id = "c1";
  redirect_uri = callback;
  resource = "mcp";
  code_challenge = challenge;
  principal_id = "github:7";
  scopes = read_scope ∷ [];
}

abbrev code_taken : OauthStore
code_taken = (consume_code "code1" (at 13) returned).1

takes : consume_code "code1" (at 13) returned ≡ (ok stored_code, code_taken)
unfolding program
takes = refl

abbrev granted : OauthStore
granted = (code_grant settings exchanges (at 13) draws principals returned).1

abbrev refreshes : Form
refreshes = ("resource", "mcp") ∷ ("client_id", "c1") ∷ ("refresh_token", "r1") ∷ []

abbrev new_draws : Draws
new_draws = record { family_id = "f2"; refresh = "r2"; jti = "j2"; code = "code2" }

abbrev grant_calls : List GrantCall
grant_calls =
    exchanging_code exchanges (at 14) new_draws principals
    ∷ refreshing refreshes (at 15) new_draws principals
    ∷ revoking (("token", "r2") ∷ []) (at 16)
    ∷ []

code_grant_once_example :
    has_tokens
      (code_grant settings exchanges
        (at 17)
        new_draws
        principals
        (run_grants settings grant_calls granted)).0
    ≡ false
code_grant_once_example =
    code_grant_once settings exchanges (at 13) draws principals returned code_taken stored_code refl
      takes grant_calls (refl, (refl, (refl, tt))) exchanges (at 17) new_draws principals refl

abbrev token : McpAccessPrincipal
token = record {
  principal_id = "github:7";
  workspace_id = "ws";
  scopes = read_scope ∷ [];
  classifications = "public" ∷ "shared" ∷ [];
  family_id = "f1";
  expires_at = at 900;
  jti = "j1";
}

abbrev token_row : OauthTokenRow
token_row = record {
  token_hash = "r1";
  family_id = "f1";
  issued_at = at 13;
  expires_at = at 900;
  consumed_at = none;
}

abbrev family_row : OauthFamilyRow
family_row = record {
  id = "f1";
  principal_id = "github:7";
  client_id = "c1";
  resource = "mcp";
  requested_scopes = read_scope ∷ [];
  current_token_hash = "r1";
  previous_token_hash = none;
  current_access_jti = "j1";
  created_at = at 13;
  expires_at = at 900;
  revoked_at = none;
}

due : IsDue "r1" (rotation_of settings refreshes (at 15) new_draws) granted token_row family_row
unfolding program
due = record {
  aware_now = refl;
  token = refl;
  known = refl;
  single = refl;
  client = refl;
  resource = refl;
  in_time = refl;
  token_in_time = refl;
  fresh = refl;
}

refreshes_once :
    has_tokens (refresh_grant settings refreshes (at 15) new_draws principals granted).0 ≡ true
unfolding program
refreshes_once = refl

refresh_grant_retires_example :
    authorize settings token
      (at 16)
      principals
      (refresh_grant settings refreshes (at 15) new_draws principals granted).1
    ≡ none
refresh_grant_retires_example =
    refresh_grant_retires settings refreshes (at 15) new_draws principals granted token_row
      family_row refl refl refl due token (at 16) principals refl refl
