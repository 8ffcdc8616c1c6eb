-- ===== src/Oauth/Families.antt =====
-- The refresh families of src/auth-broker/app/mcp_oauth/store.py. Random ids are arguments.
pub mod Chain
pub mod Views
pub mod Rotates
pub mod Refines
pub mod Present
use mathai_ai_swarm_memory.Common.{
  ◌≡◌, Bool, true, false, not, ◌&&◌, ◌||◌, List, [], ◌∷◌, ◌++◌, Option, none, some, ◌==◌,
  if◌then◌else◌, find, any, count_where, update_where, String, str_eq, Result, ok, err, guard,
  ◌>>=◌, ◌>>◌, committed,
}
use mathai_ai_swarm_memory.Broker.Store.{Datetime, is_before, is_null}
use mathai_ai_swarm_memory.Oauth.Store.{
  OauthError, duplicate_key, invalid_oauth_grant, oauth_reuse, needs_aware, OauthFamilyRow,
  OauthTokenRow, OauthStore, Reply,
}

pub record OauthFamily : Type 0 where
  pub id : String
  pub principal_id : String
  pub client_id : String
  pub resource : String
  pub requested_scopes : List String
  pub expires_at : Datetime
  pub current_access_jti : String

abbrev pub is_family : String → OauthFamilyRow → Bool
is_family family_id f = str_eq f.id family_id

abbrev pub is_token : String → OauthTokenRow → Bool
is_token token_hash r = str_eq r.token_hash token_hash

-- `INSERT INTO mcp_oauth_families` and `INSERT INTO mcp_oauth_refresh_tokens`, with their keys.
unfoldable pub insert_family : OauthFamilyRow → OauthStore → Result OauthError OauthStore
insert_family row st = do
  guard (not (any (is_family row.id) st.families)) duplicate_key
  ok (record st { families = st.families ++ row ∷ [] })

unfoldable pub insert_token : OauthTokenRow → OauthStore → Result OauthError OauthStore
insert_token row st = do
  guard (not (any (is_token row.token_hash) st.refresh_tokens)) duplicate_key
  ok (record st { refresh_tokens = st.refresh_tokens ++ row ∷ [] })

abbrev pub to_family : OauthFamilyRow → OauthFamily
to_family f = record {
  id = f.id;
  principal_id = f.principal_id;
  client_id = f.client_id;
  resource = f.resource;
  requested_scopes = f.requested_scopes;
  expires_at = f.expires_at;
  current_access_jti = f.current_access_jti;
}

-- The row of a new family.
abbrev pub new_family : OauthFamily → String → Datetime → OauthFamilyRow
new_family family refresh_token_hash now = record {
  id = family.id;
  principal_id = family.principal_id;
  client_id = family.client_id;
  resource = family.resource;
  requested_scopes = family.requested_scopes;
  current_token_hash = refresh_token_hash;
  previous_token_hash = none;
  current_access_jti = family.current_access_jti;
  created_at = now;
  expires_at = family.expires_at;
  revoked_at = none;
}

abbrev pub new_token : String → String → Datetime → Datetime → OauthTokenRow
new_token token_hash family_id now expires_at = record {
  token_hash = token_hash;
  family_id = family_id;
  issued_at = now;
  expires_at = expires_at;
  consumed_at = none;
}

-- `create_family`; the family is what the method returns.
unfoldable pub create_family_tx :
    OauthFamily → String → Datetime → OauthStore → Result OauthError (OauthFamily × OauthStore)
create_family_tx family refresh_token_hash now st = do
  needs_aware now
  needs_aware family.expires_at
  st' ← insert_family (new_family family refresh_token_hash now) st
  st'' ← insert_token (new_token refresh_token_hash family.id now family.expires_at) st'
  ok (family, st'')

unfoldable pub create_family : OauthFamily → String → Datetime → OauthStore → Reply OauthFamily
create_family family refresh_token_hash now st =
    committed st (create_family_tx family refresh_token_hash now st)

unfoldable pub family : String → Datetime → OauthStore → Result OauthError (Option OauthFamily)
family family_id now st = do
  needs_aware now
  elim (find (is_family family_id) st.families) [
    | none ↦ ok none
    | some f ↦
        ok (if is_null f.revoked_at && is_before now f.expires_at then some (to_family f) else none)
  ]

-- `WHERE id = ? AND revoked_at IS NULL`
abbrev pub is_unrevoked : String → OauthFamilyRow → Bool
is_unrevoked family_id f = is_family family_id f && is_null f.revoked_at

abbrev pub revoke_row : Datetime → OauthFamilyRow → OauthFamilyRow
revoke_row now f = record f { revoked_at = some now }

abbrev pub consume_token : Datetime → OauthTokenRow → OauthTokenRow
consume_token now r = record r { consumed_at = some now }

-- `_revoke_family_locked`
unfoldable pub revoke_locked : String → Datetime → OauthStore → OauthStore
revoke_locked family_id now st =
    if count_where (is_unrevoked family_id) st.families == 0 then st else record st {
      families = update_where (is_unrevoked family_id) (revoke_row now) st.families;
      refresh_tokens =
          update_where (λ r. str_eq r.family_id family_id && is_null r.consumed_at)
            (consume_token now) st.refresh_tokens;
    }

unfoldable pub revoke_family : String → Datetime → OauthStore → Reply (Unit {0})
revoke_family family_id now st =
    committed st (do needs_aware now; ok (tt, revoke_locked family_id now st))

unfoldable pub family_for_refresh : String → OauthStore → Option String
family_for_refresh token_hash st = elim (find (is_token token_hash) st.refresh_tokens) [
  | none ↦ none
  | some r ↦ some r.family_id
]

-- `WHERE id = ? AND current_token_hash = ? AND revoked_at IS NULL`
abbrev pub is_current : String → String → OauthFamilyRow → Bool
is_current family_id token_hash f =
    is_family family_id f && str_eq f.current_token_hash token_hash && is_null f.revoked_at

abbrev pub advance_row : String → String → OauthFamilyRow → OauthFamilyRow
advance_row new_token_hash new_access_jti f = record f {
  previous_token_hash = some f.current_token_hash;
  current_token_hash = new_token_hash;
  current_access_jti = new_access_jti;
}

-- The arguments of `rotate_refresh` besides the token.
pub record Rotation : Type 0 where
  pub now : Datetime
  pub new_token_hash : String
  pub new_access_jti : String
  pub client_id : String
  pub resource : String

abbrev pub advanced : OauthFamilyRow → String → Rotation → OauthStore → OauthStore
advanced f token_hash r st = record st {
  families =
      update_where (is_current f.id token_hash) (advance_row r.new_token_hash r.new_access_jti)
        st.families;
  refresh_tokens =
      update_where (λ t. is_token token_hash t && is_null t.consumed_at) (consume_token r.now)
        st.refresh_tokens;
}

-- The branch on the current token.
unfoldable pub advance :
    OauthFamilyRow → String → Rotation → OauthStore → Result OauthError (OauthFamily × OauthStore)
advance f token_hash r st = do
  guard (count_where (is_current f.id token_hash) st.families == 1) invalid_oauth_grant
  st' ←
      insert_token (new_token r.new_token_hash f.id r.now f.expires_at) (advanced f token_hash r st)
  ok (record (to_family f) { current_access_jti = r.new_access_jti }, st')

abbrev pub with_family :
    Result OauthError (OauthFamily × OauthStore)
    → Result OauthError (Option OauthFamily × OauthStore)
with_family (ok (x, st)) = ok (some x, st)
with_family (err e) = err e

-- What the transaction does with the joined row; none is a reuse.
unfoldable pub rotate_row :
    OauthTokenRow
    → OauthFamilyRow
    → String
    → Rotation
    → OauthStore
    → Result OauthError (Option OauthFamily × OauthStore)
rotate_row t f token_hash r st = do
  guard (str_eq f.client_id r.client_id && str_eq f.resource r.resource) invalid_oauth_grant
  guard (is_null f.revoked_at && is_before r.now f.expires_at && is_before r.now t.expires_at)
      invalid_oauth_grant
  if str_eq f.current_token_hash token_hash
      then with_family (advance f token_hash r st)
      else ok (none, revoke_locked f.id r.now st)

unfoldable pub rotate_tx :
    String → Rotation → OauthStore → Result OauthError (Option OauthFamily × OauthStore)
rotate_tx token_hash r st = do
  needs_aware r.now
  elim (find (is_token token_hash) st.refresh_tokens) [
    | none ↦ err invalid_oauth_grant
    | some t ↦ elim (find (is_family t.family_id) st.families) [
      | none ↦ err invalid_oauth_grant
      | some f ↦ rotate_row t f token_hash r st
    ]
  ]

-- The reuse is raised behind the transaction, whose writes stay.
abbrev pub raise_reuse : Reply (Option OauthFamily) → Reply OauthFamily
raise_reuse (ok (some x), st) = (ok x, st)
raise_reuse (ok none, st) = (err oauth_reuse, st)
raise_reuse (err e, st) = (err e, st)

unfoldable pub rotate_refresh : String → Rotation → OauthStore → Reply OauthFamily
rotate_refresh token_hash r st = raise_reuse (committed st (rotate_tx token_hash r st))
