-- ===== src/Oauth/Tokens/Lifetime.antt =====
-- Issued tokens read back (src/auth-broker/app/mcp_oauth/tokens.py).
use mathai_ai_swarm_memory.Common.{◌≡◌, Bool, false, List, String, is_unset}
use mathai_ai_swarm_memory.Oauth.Tokens.{TokenRequest}

-- The texts of a token are not empty, and its joined scopes are split into the scopes again.
pub record IsPlain (join : List String → String) (split : String → List String)
    (is_blank_text : String → Bool) (token : TokenRequest) : Type 0 where
  pub principal : is_unset token.principal_id ≡ false
  pub workspace : is_unset token.workspace_id ≡ false
  pub family : is_unset token.family_id ≡ false
  pub scope : is_unset (join token.scopes) ≡ false
  pub visible : is_blank_text (join token.scopes) ≡ false
  pub parts : split (join token.scopes) ≡ token.scopes
