-- ===== src/Oauth/Provider/Register.antt =====
-- `register`, `_redirects`, `_validate_redirect` and `_unique_pairs` of
-- src/auth-broker/app/mcp_oauth/provider.py. The decoding of a body is a parameter of what is here:
-- the pairs of a form and the fields of a JSON object come decoded.
use mathai_ai_swarm_memory.Common.{
  ℕ, Bool, true, false, not, ◌&&◌, ◌||◌, List, [], ◌∷◌, ◌++◌, Option, none, some, leb, ltb, ◌==◌,
  if◌then◌else◌, any, all, is_empty, length, String, str_eq, is_unset, Codes, codes, codes_eq,
  Result, ok, err, guard, ◌>>=◌, ◌>>◌,
}
use mathai_ai_swarm_memory.Broker.Store.{Datetime, is_null}
use mathai_ai_swarm_memory.Broker.Scopes.{is_member}
use mathai_ai_swarm_memory.Oauth.Store.{OauthStore, TextOrder, registration_limit}
use mathai_ai_swarm_memory.Oauth.Clients.{OauthClient, prune, register_public_client}
use mathai_ai_swarm_memory.Oauth.Provider.{Form, field, later_by}
use mathai_ai_swarm_memory.Oauth.Provider.Consent.{registration_window}

-- The pairs as a dictionary, none when a key is repeated.
unfoldable pub unique_pairs : Form → Form → Option Form
unique_pairs values [] = some values
unique_pairs values (pair ∷ pairs) =
    let rest = unique_pairs (values ++ pair ∷ []) pairs in
    if is_null (field pair.0 values) then rest else none

-- What `urlparse` is read for.
pub record RedirectParts : Type 0 where
  pub has_fragment : Bool
  pub has_username : Bool
  pub has_password : Bool
  pub netloc : Codes
  pub scheme : Codes
  pub hostname : Codes

pub data RegisterError : Type 0 where
  invalid_redirect_uri invalid_client_metadata : RegisterError

-- `LOOPBACK`
abbrev pub loopback : List Codes
loopback = codes "127.0.0.1" ∷ codes "localhost" ∷ codes "::1" ∷ []

-- A field that is absent, null, iterable with these items, of which none is no text, or else.
pub data Listed : Type 0 where
  absent null unlisted : Listed
  listed : List (Option String) → Listed

-- A text field: absent, a text, or anything else.
pub data Named : Type 0 where
  unnamed misnamed : Named
  named : String → Named

-- The fields of the JSON object that are read.
pub record Registration : Type 0 where
  -- The items of the list of redirects; none is no list.
  pub redirect_uris : Option (List (Option String))
  pub client_name : Named
  pub token_endpoint_auth_method : Named
  pub grant_types : Listed
  pub response_types : Listed

-- What `register` answers.
pub data Registered : Type 0 where
  registered : OauthClient → Registered
  not_registered : String → ℕ → Registered
  register_crashed : Registered

-- `set(grants) - {"authorization_code", "refresh_token"}` is empty.
abbrev pub are_grants : List (Option String) → Bool
are_grants items =
    all
      (λ item. elim item [
        | none ↦ false
        | some s ↦ str_eq s "authorization_code" || str_eq s "refresh_token"
      ])
      items

-- `list(responses) == ["code"]`
abbrev pub are_responses : List (Option String) → Bool
are_responses (some s ∷ []) = str_eq s "code"
are_responses _ = false

unfoldable pub grants_ok : Listed → Bool
grants_ok absent = true
grants_ok null = true
grants_ok unlisted = false
grants_ok (listed items) = are_grants items

unfoldable pub responses_ok : Listed → Bool
responses_ok absent = true
responses_ok null = true
responses_ok unlisted = false
responses_ok (listed items) = are_responses items

-- The name of the client.
unfoldable pub checked_name : Named → Result RegisterError String
checked_name unnamed = ok "MCP client"
checked_name misnamed = err invalid_client_metadata
checked_name (named s) = do
  guard (not (is_unset s) && leb (length (codes s)) 128) invalid_client_metadata
  ok s

unfoldable pub method_ok : Named → Bool
method_ok unnamed = true
method_ok misnamed = false
method_ok (named s) = str_eq s "none"

-- `CLIENT_TTL` in microseconds.
abbrev pub client_ttl : ℕ
client_ttl = 2592000000000

-- `urlparse` raises for some texts, and gives none then.
module _ (urlparse : Codes → Option RedirectParts) where
  unfoldable pub validate_redirect : Option String → Result RegisterError String
  validate_redirect none = err invalid_redirect_uri
  validate_redirect (some uri) = do
    let cs = codes uri
    guard (not (is_unset uri) && leb (length cs) 2048 && not (any (λ c. c == 35) cs))
        invalid_redirect_uri
    guard (not (any (λ c. ltb c 32 || c == 127) cs)) invalid_redirect_uri
    elim (urlparse cs) [
      | none ↦ err invalid_client_metadata
      | some parts ↦ do
        guard (not parts.has_fragment && not parts.has_username && not parts.has_password)
            invalid_redirect_uri
        guard
            (not (any (λ c. c == 64) parts.netloc)
              && not (is_empty parts.scheme)
              && not (is_empty parts.hostname))
            invalid_redirect_uri
        guard
            (codes_eq parts.scheme (codes "https")
              || (codes_eq parts.scheme (codes "http") && any (codes_eq parts.hostname) loopback))
            invalid_redirect_uri
        ok uri
    ]

  -- The loop of `_redirects`.
  unfoldable pub collect_redirects :
      List String → List (Option String) → Result RegisterError (List String)
  collect_redirects seen [] = ok seen
  collect_redirects seen (item ∷ items) = do
    uri ← validate_redirect item
    guard (not (is_member uri seen)) invalid_redirect_uri
    collect_redirects (seen ++ uri ∷ []) items

  unfoldable pub redirects : Option (List (Option String)) → Result RegisterError (List String)
  redirects none = err invalid_redirect_uri
  redirects (some items) = do
    guard (not (is_empty items) && leb (length items) 5) invalid_redirect_uri
    collect_redirects [] items

  -- The checks of `register`: the redirects and the name.
  unfoldable pub registration_checks : Registration → Result RegisterError (List String × String)
  registration_checks r = do
    uris ← redirects r.redirect_uris
    name ← checked_name r.client_name
    guard (method_ok r.token_endpoint_auth_method) invalid_client_metadata
    guard (grants_ok r.grant_types) invalid_client_metadata
    guard (responses_ok r.response_types) invalid_client_metadata
    ok (uris, name)

  -- `register` of an object; the client id is drawn.
  unfoldable pub register :
      TextOrder → Registration → Datetime → ℕ → String → OauthStore → Registered × OauthStore
  register precedes r now limit client_id st = elim (registration_checks r) [
    | err invalid_redirect_uri ↦ (not_registered "invalid_redirect_uri" 400, st)
    | err invalid_client_metadata ↦ (not_registered "invalid_client_metadata" 400, st)
    | ok (uris, name) ↦
        let st1 = (prune precedes now registration_window st).1 in
        let (made, st2) =
          register_public_client precedes now registration_window limit client_id name uris
            (later_by client_ttl now) st1 in
        (
          elim made [
            | ok client ↦ registered client
            | err registration_limit ↦ not_registered "too_many_requests" 429
            | err _ ↦ register_crashed
          ],
          st2,
        )
  ]
