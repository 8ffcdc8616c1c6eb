-- ===== src/Oauth/Tests.antt =====
-- Runs of the stores and tokens of src/auth-broker/app/mcp_oauth/ on concrete inputs.
use mathai_ai_swarm_memory.Common.{
  ℕ, ◌≡◌, refl, List, [], ◌∷◌, Option, some, none, String, ok, err, true, false, arith, Bool,
}
use mathai_ai_swarm_memory.Broker.Store.{Datetime, is_before}
use mathai_ai_swarm_memory.Oauth.Store.{
  OauthStore, empty_oauth, oauth_reuse, OauthFamilyRow, OauthTokenRow,
}
use mathai_ai_swarm_memory.Oauth.Clients.{
  OauthClient, insert_client, put_client_tx, get_client, register_tx, register_public_client, prune,
}
use mathai_ai_swarm_memory.Oauth.Clients.Pruned.{SortsUtc, IsSound, prune_unseen}
use mathai_ai_swarm_memory.Oauth.Transactions.{put_transaction, put_transaction_tx, get_transaction}
use mathai_ai_swarm_memory.Oauth.Codes.{
  OauthCode, put_code, put_code_tx, consume_code, consume_code_tx,
}
use mathai_ai_swarm_memory.Oauth.Codes.Once.{CodeCall, putting, taking, pruning}
use mathai_ai_swarm_memory.Oauth.Families.{
  OauthFamily, Rotation, insert_family, insert_token, create_family, create_family_tx, family,
  revoke_family, revoke_locked, advance, rotate_row, rotate_tx, rotate_refresh,
}
use mathai_ai_swarm_memory.Oauth.Families.Chain.{Chain, exchanged, revoked, Steps}
use mathai_ai_swarm_memory.Oauth.Families.Views.{
  FamilyCall, revoking, rotating, run_calls, IsViewed, to_chain,
}
use mathai_ai_swarm_memory.Oauth.Families.Refines.{run_calls_refine}
use mathai_ai_swarm_memory.Oauth.Families.Present.{present, answer, IsDue, rotate_refresh-present}
use mathai_ai_swarm_memory.Oauth.Tokens.{
  Claims, TokenRequest, Claim, payload_of, issue, verify_claims, verify,
}

program : Unit {0}
unfolding insert_client put_client_tx get_client register_tx register_public_client prune
    put_transaction put_transaction_tx get_transaction put_code put_code_tx consume_code
    consume_code_tx insert_family insert_token create_family create_family_tx family revoke_family
    revoke_locked advance rotate_row rotate_tx rotate_refresh present answer issue verify_claims
    verify
program = tt

abbrev at : ℕ → Datetime
at n = record { instant = n; offset = some 1440 }

abbrev client : OauthClient
client = record {
  client_id = "c1";
  client_name = "desk";
  redirect_uris = "http://127.0.0.1/cb" ∷ [];
  expires_at = at 90;
}

abbrev registered : OauthStore
registered =
    (register_public_client is_before (at 5) 3 2 "c1" "desk" ("http://127.0.0.1/cb" ∷ []) (at 90)
      empty_oauth).1

registers :
    register_public_client is_before
      (at 5)
      3
      2
      "c1"
      "desk"
      ("http://127.0.0.1/cb" ∷ [])
      (at 90)
      empty_oauth
    ≡ (ok client, registered)
unfolding program
registers = refl

abbrev waiting : OauthStore
waiting =
    (put_transaction is_before "t1" "csrf" "c1" "http://127.0.0.1/cb" "mcp" "s" "challenge" []
      (at 6) (at 20) 4 registered).1

sorts : SortsUtc is_before
sorts = record { agrees = λ a b ua ub. refl }

sound : IsSound waiting
unfolding program
sound = record {
  client_ids = λ id. ground arith;
  transaction_ids = λ id. ground arith;
  client_times = (refl, tt);
  transaction_times = (refl, tt);
}

prune_unseen_example :
    (get_client "c1" (at 12) (prune is_before (at 11) 3 waiting).1
      ≡ get_client "c1" (at 12) waiting)
    × (get_transaction "t1" (at 12) (prune is_before (at 11) 3 waiting).1
        ≡ get_transaction "t1" (at 12) waiting)
prune_unseen_example =
    prune_unseen is_before sorts (at 11) (at 12) 3 waiting sound refl refl "c1" "t1"

abbrev code : OauthCode
code = record {
  client_id = "c1";
  redirect_uri = "http://127.0.0.1/cb";
  resource = "mcp";
  code_challenge = "challenge";
  principal_id = "github:7";
  scopes = [];
}

abbrev with_code : OauthStore
with_code = (put_code "h1" code (at 20) waiting).1

abbrev code_taken : OauthStore
code_taken = (consume_code "h1" (at 8) with_code).1

takes : consume_code "h1" (at 8) with_code ≡ (ok code, code_taken)
unfolding program
takes = refl

abbrev code_calls : List CodeCall
code_calls = putting "h2" code (at 30) ∷ taking "h1" (at 9) ∷ pruning (at 10) 3 ∷ []

abbrev first_family : OauthFamily
first_family = record {
  id = "f1";
  principal_id = "github:7";
  client_id = "c1";
  resource = "mcp";
  requested_scopes = [];
  expires_at = at 80;
  current_access_jti = "j1";
}

abbrev with_family : OauthStore
with_family = (create_family first_family "r1" (at 10) empty_oauth).1

abbrev turn : String → String → ℕ → Rotation
turn token_hash jti n = record {
  now = at n;
  new_token_hash = token_hash;
  new_access_jti = jti;
  client_id = "c1";
  resource = "mcp";
}

abbrev row : OauthFamilyRow
row = record {
  id = "f1";
  principal_id = "github:7";
  client_id = "c1";
  resource = "mcp";
  requested_scopes = [];
  current_token_hash = "r1";
  previous_token_hash = none;
  current_access_jti = "j1";
  created_at = at 10;
  expires_at = at 80;
  revoked_at = none;
}

abbrev first_chain : Chain
first_chain = record { current = "r1"; access_jti = "j1"; is_live = true }

viewed : IsViewed "f1" with_family first_chain
unfolding program
viewed = record { row = row; found = refl; viewed = refl }

abbrev family_calls : List FamilyCall
family_calls = rotating "r1" (turn "r2" "j2" 11) ∷ revoking "f1" (at 12) ∷ []

run_calls_refine_example :
    (c : Chain) × Steps first_chain (exchanged "r1" "r2" "j2" ∷ revoked ∷ []) c
    × IsViewed "f1" (run_calls family_calls with_family) c
unfolding program
run_calls_refine_example = run_calls_refine "f1" family_calls with_family first_chain viewed

abbrev token_row : OauthTokenRow
token_row = record {
  token_hash = "r1";
  family_id = "f1";
  issued_at = at 10;
  expires_at = at 80;
  consumed_at = none;
}

due : IsDue "r1" (turn "r2" "j2" 11) with_family token_row row
unfolding program
due = record {
  aware_now = refl;
  token = refl;
  known = refl;
  single = refl;
  client = refl;
  resource = refl;
  in_time = refl;
  token_in_time = refl;
  fresh = refl;
}

rotate_refresh-present_example :
    (answer (rotate_refresh "r1" (turn "r2" "j2" 11) with_family).0
      ≡ (present "r1" "r2" "j2" (to_chain row)).0)
    × IsViewed "f1"
        (rotate_refresh "r1" (turn "r2" "j2" 11) with_family).1
        (present "r1" "r2" "j2" (to_chain row)).1
rotate_refresh-present_example =
    rotate_refresh-present "r1" (turn "r2" "j2" 11) with_family token_row row due

abbrev rotated : OauthStore
rotated = (rotate_refresh "r1" (turn "r2" "j2" 11) with_family).1

abbrev used_token_row : OauthTokenRow
used_token_row = record token_row { consumed_at = some (at 11) }

abbrev rotated_row : OauthFamilyRow
rotated_row = record row {
  current_token_hash = "r2";
  previous_token_hash = some "r1";
  current_access_jti = "j2";
}

rotated-IsDue : IsDue "r1" (turn "r3" "j3" 12) rotated used_token_row rotated_row
unfolding program
rotated-IsDue = record {
  aware_now = refl;
  token = refl;
  known = refl;
  single = refl;
  client = refl;
  resource = refl;
  in_time = refl;
  token_in_time = refl;
  fresh = refl;
}

reuses : (rotate_refresh "r1" (turn "r3" "j3" 12) rotated).0 ≡ err oauth_reuse
unfolding program
reuses = refl

abbrev issued : TokenRequest
issued = record {
  principal_id = "github:7";
  workspace_id = "ws";
  scopes = "read" ∷ [];
  classifications = "public" ∷ [];
  family_id = "f1";
  jti = some "";
  expires_at = none;
}

abbrev joined : List String → String
joined scopes = "read"

abbrev parted : String → List String
parted s = "read" ∷ []

abbrev never : String → Bool
never s = false

abbrev other_text : Claim → String
other_text c = "other"

-- A signed token is its payload, and no text is a number.
abbrev signing : Claims → Claims
signing claims = claims

abbrev opening : Claims → Option Claims
opening claims = some claims

abbrev no_number : String → Option ℕ
no_number s = none

abbrev payload : Claims
payload = payload_of "me" "mcp" 2300000 joined signing issued (at 1200000) (at 3500000) "j1"
