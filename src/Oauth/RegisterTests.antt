-- ===== src/Oauth/RegisterTests.antt =====
-- Runs of the registration of clients of src/auth-broker/app/mcp_oauth/provider.py on concrete inputs.
use mathai_ai_swarm_memory.Common.{
  ◌≡◌, refl, List, [], ◌∷◌, Option, some, none, String, Codes, codes, err, false,
}
use mathai_ai_swarm_memory.Broker.Store.{is_before}
use mathai_ai_swarm_memory.Oauth.Store.{empty_oauth}
use mathai_ai_swarm_memory.Oauth.Clients.{
  insert_client, put_client_tx, register_tx, register_public_client, prune,
}
use mathai_ai_swarm_memory.Oauth.Provider.Register.{
  unique_pairs, RedirectParts, invalid_redirect_uri, absent, listed, unnamed, named, Registration,
  registered, grants_ok, responses_ok, checked_name, method_ok, validate_redirect,
  collect_redirects, redirects, registration_checks, register,
}

program : Unit {0}
unfolding insert_client put_client_tx register_tx register_public_client prune unique_pairs
    grants_ok responses_ok checked_name method_ok validate_redirect collect_redirects redirects
    registration_checks register
program = tt

abbrev loopback_parts : Codes → Option RedirectParts
loopback_parts uri = some (record {
  has_fragment = false;
  has_username = false;
  has_password = false;
  netloc = codes "127.0.0.1:8000";
  scheme = codes "http";
  hostname = codes "127.0.0.1";
})

abbrev callback : String
callback = "http://127.0.0.1:8000/cb"

abbrev request : List (Option String) → Registration
request uris = record {
  redirect_uris = some uris;
  client_name = named "desk";
  token_endpoint_auth_method = unnamed;
  grant_types = listed (some "refresh_token" ∷ []);
  response_types = absent;
}

registers :
    (register loopback_parts is_before
      (request (some callback ∷ []))
      (record { instant = 5; offset = some 1440 })
      1
      "c1"
      empty_oauth).0
    ≡ registered (record {
      client_id = "c1";
      client_name = "desk";
      redirect_uris = callback ∷ [];
      expires_at = record { instant = 2592000000005; offset = some 1440 };
    })
unfolding program
registers = refl

repeats :
    redirects loopback_parts (some (some callback ∷ some callback ∷ [])) ≡ err invalid_redirect_uri
unfolding program
repeats = refl

repeated_key : unique_pairs [] (("state", "a") ∷ ("state", "b") ∷ []) ≡ none
unfolding program
repeated_key = refl
