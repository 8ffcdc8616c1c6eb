-- ===== src/Oauth/Tokens.antt =====
-- Access tokens of the remote MCP: src/auth-broker/app/mcp_oauth/tokens.py. Signing and decoding a
-- JWT are parameters: `jwt.decode` with the key, audience and issuer gives the payload, or none when
-- it raises.
pub mod Lifetime
use mathai_ai_swarm_memory.Common.{
  ℕ, ◌+◌, ◌*◌, ◌/◌, ◌≡◌, Bool, true, false, not, ◌&&◌, ◌||◌, List, [], ◌∷◌, Option, none, some, ltb,
  leb, if◌then◌else◌, find, any, String, str_eq, is_unset, Result, ok, err, guard, ◌>>=◌, ◌>>◌,
}
use mathai_ai_swarm_memory.Broker.Store.{Datetime, is_aware, is_before, is_at_most}

pub data TokenError : Type 0 where
  token_value_error token_type_error invalid_token : TokenError

-- A claim: a text, a number or a bool with its `int`, which counts seconds from 1970, a list of texts,
-- or anything else.
pub data Claim : Type 0 where
  text_claim : String → Claim
  seconds_claim : ℕ → Claim
  texts_claim : List String → Claim
  other_claim : Claim

abbrev pub Claims : Type 0
Claims = List (String × Claim)

pub record McpAccessPrincipal : Type 0 where
  pub principal_id : String
  pub workspace_id : String
  pub scopes : List String
  pub classifications : List String
  pub family_id : String
  pub expires_at : Datetime
  pub jti : String

-- `payload.get(name)`
abbrev pub claim : String → Claims → Option Claim
claim name [] = none
claim name (c ∷ claims) = let rest = claim name claims in if str_eq c.0 name then some c.1 else rest

abbrev has_claim : Claims → String → Bool
has_claim claims name = elim (claim name claims) [ none ↦ false | some c ↦ true ]

abbrev pub required_claims : List String
required_claims =
    "iss" ∷ "aud" ∷ "sub" ∷ "workspace_id" ∷ "scope" ∷ "classifications" ∷ "iat" ∷ "nbf" ∷ "exp"
    ∷ "jti" ∷ "sid" ∷ []

-- The seconds of a claim that `int` takes; `int_text` is `int` of a text, none when it raises.
abbrev pub seconds_of : (String → Option ℕ) → String → Claims → Result TokenError ℕ
seconds_of int_text name claims = elim (claim name claims) [
  | some (seconds_claim n) ↦ ok n
  | some (text_claim s) ↦ elim (int_text s) [ none ↦ err invalid_token | some n ↦ ok n ]
  | _ ↦ err invalid_token
]

-- A claim that is a text and not empty.
abbrev pub text_of : String → Claims → Result TokenError String
text_of name claims = elim (claim name claims) [
  | some (text_claim s) ↦ if is_unset s then err invalid_token else ok s
  | _ ↦ err invalid_token
]

abbrev pub texts_of : String → Claims → Result TokenError (List String)
texts_of name claims = elim (claim name claims) [
  | some (texts_claim items) ↦ ok items
  | _ ↦ err invalid_token
]

-- `datetime.fromtimestamp(seconds, tz=timezone.utc)` and `int(now.timestamp())`
abbrev pub from_seconds : ℕ → Datetime
from_seconds n = record { instant = n * 1000000; offset = some 1440 }

abbrev pub to_seconds : Datetime → ℕ
to_seconds d = d.instant / 1000000

-- One hour in microseconds.
abbrev pub max_lifetime : ℕ
max_lifetime = 3600000000

-- What stands in an issued token but the issuer and the audience.
pub record Issued : Type 0 where
  pub principal_id : String
  pub workspace_id : String
  pub scopes : List String
  pub classifications : List String
  pub family_id : String
  pub jti : String
  pub expires_at : Datetime

-- The arguments of `issue` but the time.
pub record TokenRequest : Type 0 where
  pub principal_id : String
  pub workspace_id : String
  pub scopes : List String
  pub classifications : List String
  pub family_id : String
  pub jti : Option String
  pub expires_at : Option Datetime

-- `jti or secrets.token_urlsafe(16)`
abbrev pub chosen_jti : Option String → String → String
chosen_jti none drawn = drawn
chosen_jti (some jti) drawn = if is_unset jti then drawn else jti

-- `expires_at or (now + self.lifetime)`
abbrev pub chosen_expiry : Option Datetime → ℕ → Datetime → Datetime
chosen_expiry none lifetime now = record now { instant = now.instant + lifetime }
chosen_expiry (some expires_at) lifetime now = expires_at

-- The issuer, the audience and the lifetime are of the configuration, `drawn` is the random id, and
-- `encode` is `jwt.encode` with the key, whose signed texts are the type `Jwt`. A naive expiry cannot
-- be compared with an aware time.
module _ {Jwt : Type 0} (issuer audience : String) (lifetime : ℕ) (join : List String → String)
    (encode : Claims → Jwt) where
  abbrev pub payload_of : TokenRequest → Datetime → Datetime → String → Claims
  payload_of token now exp token_jti =
      ("iss", text_claim issuer)
      ∷ ("aud", text_claim audience)
      ∷ ("sub", text_claim token.principal_id)
      ∷ ("workspace_id", text_claim token.workspace_id)
      ∷ ("scope", text_claim (join token.scopes))
      ∷ ("classifications", texts_claim token.classifications)
      ∷ ("iat", seconds_claim (to_seconds now))
      ∷ ("nbf", seconds_claim (to_seconds now))
      ∷ ("exp", seconds_claim (to_seconds exp))
      ∷ ("jti", text_claim token_jti)
      ∷ ("sid", text_claim token.family_id)
      ∷ []

  unfoldable pub issue : TokenRequest → Datetime → String → Result TokenError (Jwt × String)
  issue token now drawn = do
    guard (is_aware now) token_value_error
    guard (is_aware (chosen_expiry token.expires_at lifetime now)) token_type_error
    guard
        (is_before now (chosen_expiry token.expires_at lifetime now)
          && leb (chosen_expiry token.expires_at lifetime now).instant (now.instant + max_lifetime))
        token_value_error
    ok (
      encode (
          payload_of token now (chosen_expiry token.expires_at lifetime now)
            (chosen_jti token.jti drawn)),
      chosen_jti token.jti drawn,
    )

-- `scope.split()`, `not scope.strip()`, `str` of a claim that is no text and `int` of a text are
-- parameters.
module _ (split : String → List String) (is_blank_text : String → Bool) (str : Claim → String)
    (int_text : String → Option ℕ) where
  -- `str(payload[name])`
  abbrev any_text_of : String → Claims → Result TokenError String
  any_text_of name claims = elim (claim name claims) [
    | none ↦ err invalid_token
    | some c ↦ elim c [ text_claim s ↦ ok s | other ↦ ok (str other) ]
  ]

  -- `verify` behind the decoding of the token.
  unfoldable pub verify_claims : Claims → Datetime → Result TokenError McpAccessPrincipal
  verify_claims claims now = do
    guard
        (not (any (λ name. not (has_claim claims name)) required_claims)
          && not (has_claim claims "cnf"))
        invalid_token
    exp ← seconds_of int_text "exp" claims
    nbf ← seconds_of int_text "nbf" claims
    iat ← seconds_of int_text "iat" claims
    guard (leb iat nbf && is_at_most (from_seconds nbf) now && is_before now (from_seconds exp))
        invalid_token
    scope ← text_of "scope" claims
    guard (not (is_blank_text scope)) invalid_token
    classifications ← texts_of "classifications" claims
    workspace_id ← text_of "workspace_id" claims
    family_id ← text_of "sid" claims
    principal_id ← text_of "sub" claims
    jti ← any_text_of "jti" claims
    ok (record {
      principal_id = principal_id;
      workspace_id = workspace_id;
      scopes = split scope;
      classifications = classifications;
      family_id = family_id;
      expires_at = from_seconds exp;
      jti = jti;
    })

  -- `decode` is `jwt.decode` with the key, the audience and the issuer: none when it raises.
  unfoldable pub verify :
      {Jwt : Type 0} → (Jwt → Option Claims) → Jwt → Datetime → Result TokenError McpAccessPrincipal
  verify decode token now = do
    guard (is_aware now) token_value_error
    elim (decode token) [ none ↦ err invalid_token | some claims ↦ verify_claims claims now ]
