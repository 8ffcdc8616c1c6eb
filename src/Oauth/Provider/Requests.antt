-- ===== src/Oauth/Provider/Requests.antt =====
-- Forms, responses, configuration and the checks of texts of
-- src/auth-broker/app/mcp_oauth/provider.py.
use mathai_ai_swarm_memory.Common.{
  ℕ, ◌+◌, Bool, false, ◌&&◌, ◌||◌, List, [], ◌∷◌, Option, none, some, leb, ◌==◌, if◌then◌else◌, all,
  length, String, str_eq, codes,
}
use mathai_ai_swarm_memory.Broker.Store.{Datetime, is_before}
use mathai_ai_swarm_memory.Broker.Grants.{Grant}
use mathai_ai_swarm_memory.Broker.Principals.{Texts}
use mathai_ai_swarm_memory.Oauth.Store.{OauthError, invalid_oauth_grant, oauth_reuse}
use mathai_ai_swarm_memory.Oauth.Tokens.{Issued}

-- A form without repeated keys.
abbrev pub Form : Type 0
Form = List (String × String)

-- `form.get(key)`
abbrev pub field : String → Form → Option String
field key [] = none
field key (pair ∷ form) =
    let rest = field key form in if str_eq pair.0 key then some pair.1 else rest

-- `form.get(key, "")`
abbrev pub field_or_empty : String → Form → String
field_or_empty key form = elim (field key form) [ none ↦ "" | some value ↦ value ]

-- `form.get(key) == value`
abbrev pub is_field : String → String → Form → Bool
is_field key value form = elim (field key form) [ none ↦ false | some v ↦ str_eq v value ]

-- A response: an error with its status, the tokens, a redirect to the client with a code or with an
-- error, the redirect to GitHub, an empty answer, or an exception that nothing catches.
pub data Response : Type 0 where
  failed : String → ℕ → Response
  tokens : Issued → String → Response
  redirect_code : String → String → String → Response
  redirect_denied : String → String → Response
  to_github : String → Response
  emptied crashed : Response

-- The random texts that a request draws.
pub record Draws : Type 0 where
  pub family_id : String
  pub refresh : String
  pub jti : String
  pub code : String

-- The configuration, and what is not written in this repository.
pub record Settings : Type 0 where
  pub texts : Texts
  pub audience : String
  pub workspace_id : String
  pub digest : String → String
  -- The base64url of the SHA-256 of a verifier, without padding.
  pub s256 : String → String
  -- `github.exchange_code`: the account, or none when it raises.
  pub exchange_code : String → Option String

-- Five minutes in microseconds, for codes and access tokens.
abbrev pub five_minutes : ℕ
five_minutes = 300000000

abbrev pub later_by : ℕ → Datetime → Datetime
later_by span now = record now { instant = now.instant + span }

abbrev is_letter_or_digit : ℕ → Bool
is_letter_or_digit c = (leb 48 c && leb c 57) || (leb 65 c && leb c 90) || (leb 97 c && leb c 122)

-- `PKCE_VERIFIER.fullmatch` and `PKCE_S256.fullmatch`
abbrev pub is_verifier : String → Bool
is_verifier s =
    let cs = codes s in
    leb 43 (length cs)
    && leb (length cs) 128
    && all (λ c. is_letter_or_digit c || c == 45 || c == 46 || c == 95 || c == 126) cs

abbrev pub is_challenge : String → Bool
is_challenge s =
    let cs = codes s in length cs == 43 && all (λ c. is_letter_or_digit c || c == 95 || c == 45) cs

-- `classifications_for` of src/auth-broker/app/auth/scopes.py, of a role that is known.
abbrev pub classifications_for : String → List String
classifications_for role =
    if str_eq role "advisor"
    then "public" ∷ "shared" ∷ []
    else "public" ∷ "shared" ∷ "internal" ∷ "restricted" ∷ []

abbrev pub invalid_grant_response : Response
invalid_grant_response = failed "invalid_grant" 400

-- `except InvalidOAuthGrant`, which RefreshReuse is too; other exceptions are not caught.
abbrev pub caught : OauthError → Response
caught invalid_oauth_grant = invalid_grant_response
caught oauth_reuse = invalid_grant_response
caught _ = crashed

-- The earliest of the expiries, the first of those that are.
abbrev pub earliest : Datetime → List Grant → Datetime
earliest d [] = d
earliest d (g ∷ grants) = earliest (if is_before g.expires_at d then g.expires_at else d) grants
