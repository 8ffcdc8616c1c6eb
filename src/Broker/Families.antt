-- ===== src/Broker/Families.antt =====
-- Refresh-token families of src/auth-broker/app/adapters/sqlite.py: `create_family`,
-- `family_active` and `revoke_family`. Random ids are arguments. The table holds
-- the requested scopes joined by blanks and a reader splits them: the two are taken as the identity,
-- which they are for scopes that are not empty and have no blank.
pub mod Rotate
pub mod Rotation
pub mod SingleUse
pub mod Revoked
pub mod Reuse
use mathai_ai_swarm_memory.Common.{
  ℕ, suc, ◌≡◌, Bool, true, false, not, ◌&&◌, ◌||◌, List, [], ◌∷◌, ◌++◌, Option, none, some, ◌==◌,
  if◌then◌else◌, is_empty, find, count_where, update_where, String, str_eq, is_unset, Result, ok,
  err, guard, ◌>>=◌, ◌>>◌,
}
use mathai_ai_swarm_memory.Broker.Store.{
  Datetime, is_aware, is_before, aware, Error, value_error, type_error, integrity_error,
  invalid_grant, refresh_reuse, PrincipalRow, GrantAuditRow, family_revoked, FamilyRow, RefreshRow,
  Store, is_null, Outcome, committed,
}

pub record TokenFamily : Type 0 where
  pub id : String
  pub principal_id : String
  pub workspace_id : String
  pub current_token_hash : String
  pub previous_token_hash : Option String
  pub created_at : Datetime
  pub expires_at : Datetime
  pub requested_scopes : List String

abbrev pub is_family : String → FamilyRow → Bool
is_family family_id f = str_eq f.id family_id

abbrev pub is_token : String → RefreshRow → Bool
is_token token_hash r = str_eq r.token_hash token_hash

-- The principal that `active_principal` returns.
unfoldable pub active_principal : Store → String → Option PrincipalRow
active_principal st principal_id =
    elim (find (λ (p : PrincipalRow). str_eq p.id principal_id) st.principals) [
      | none ↦ none
      | some p ↦ if is_null p.revoked_at then some p else none
    ]

-- `INSERT INTO refresh_tokens`, with its primary key.
unfoldable pub insert_refresh : RefreshRow → Store → Result Error Store
insert_refresh row st = elim (find (is_token row.token_hash) st.refresh_tokens) [
  | some r ↦ err integrity_error
  | none ↦ ok (record st { refresh_tokens = st.refresh_tokens ++ row ∷ [] })
]

-- `INSERT INTO token_families`, with its primary key.
unfoldable pub insert_family : FamilyRow → Store → Result Error Store
insert_family row st = elim (find (is_family row.id) st.token_families) [
  | some f ↦ err integrity_error
  | none ↦ ok (record st { token_families = st.token_families ++ row ∷ [] })
]

abbrev has_thumbprint : PrincipalRow → Bool
has_thumbprint p = not (is_unset p.jwk) && not (is_unset p.jwk_thumbprint)

-- The checks of `create_family`.
unfoldable pub family_checks :
    String → String → String → List String → Datetime → Datetime → Store → Result Error (Unit {0})
family_checks principal_id workspace_id token_hash scopes now expires_at st = do
  aware now
  aware expires_at
  guard
      (not (is_unset workspace_id || is_unset token_hash || is_empty scopes)
        && is_before now expires_at)
      value_error
  elim (active_principal st principal_id) [
    | none ↦ err value_error
    | some p ↦ guard (has_thumbprint p) value_error
  ]

abbrev pub new_family :
    String → String → String → String → List String → Datetime → Datetime → FamilyRow
new_family family_id principal_id workspace_id token_hash scopes now expires_at = record {
  id = family_id;
  principal_id = principal_id;
  workspace_id = workspace_id;
  current_token_hash = token_hash;
  previous_token_hash = none;
  requested_scopes = scopes;
  created_at = now;
  expires_at = expires_at;
  revoked_at = none;
}

abbrev pub first_token : String → String → Datetime → Datetime → RefreshRow
first_token family_id token_hash now expires_at = record {
  token_hash = token_hash;
  family_id = family_id;
  issued_at = now;
  expires_at = expires_at;
  consumed_at = none;
}

unfoldable pub create_family_tx :
    String
    → String
    → String
    → String
    → List String
    → Datetime
    → Datetime
    → Store
    → Result Error (TokenFamily × Store)
create_family_tx family_id principal_id workspace_id token_hash scopes now expires_at st = do
  family_checks principal_id workspace_id token_hash scopes now expires_at st
  st' ←
      insert_family
        (new_family family_id principal_id workspace_id token_hash scopes now expires_at) st
  st'' ← insert_refresh (first_token family_id token_hash now expires_at) st'
  ok (
    record {
      id = family_id;
      principal_id = principal_id;
      workspace_id = workspace_id;
      current_token_hash = token_hash;
      previous_token_hash = none;
      created_at = now;
      expires_at = expires_at;
      requested_scopes = scopes;
    },
    st'',
  )

unfoldable pub create_family :
    String
    → String
    → String
    → String
    → List String
    → Datetime
    → Datetime
    → Store
    → Outcome TokenFamily
create_family family_id principal_id workspace_id token_hash scopes now expires_at st =
    committed st
      (create_family_tx family_id principal_id workspace_id token_hash scopes now expires_at st)

-- `family_active`
unfoldable pub is_live : Datetime → FamilyRow → Bool
is_live now f = is_null f.revoked_at && is_before now f.expires_at

unfoldable pub family_active : String → Datetime → Store → Result Error Bool
family_active family_id now st = do
  aware now
  elim (find (is_family family_id) st.token_families) [
    | none ↦ ok false
    | some f ↦ ok (is_live now f)
  ]

-- `WHERE id = ? AND revoked_at IS NULL`
abbrev pub is_unrevoked_family : String → FamilyRow → Bool
is_unrevoked_family family_id f = is_family family_id f && is_null f.revoked_at

abbrev pub revoke_row : Datetime → FamilyRow → FamilyRow
revoke_row now f = record f { revoked_at = some now }

abbrev pub consume_row : Datetime → RefreshRow → RefreshRow
consume_row now r = record r { consumed_at = some now }

-- `_revoke_family_locked`
unfoldable pub revoke_family_locked : String → Datetime → Store → Store
revoke_family_locked family_id now st =
    if count_where (is_unrevoked_family family_id) st.token_families == 0 then st else record st {
      token_families =
          update_where (is_unrevoked_family family_id) (revoke_row now) st.token_families;
      refresh_tokens =
          update_where (λ r. str_eq r.family_id family_id && is_null r.consumed_at)
            (consume_row now) st.refresh_tokens;
      grant_audit_events =
          st.grant_audit_events
          ++ record {
            event_type = family_revoked;
            occurred_at = now;
            principal_id = (elim (find (is_family family_id) st.token_families) [
              | none ↦ none
              | some f ↦ some f.principal_id
            ]);
            scope = none;
            family_id = some family_id;
          }
            ∷ [];
    }

unfoldable pub revoke_family_tx : String → Datetime → Store → Result Error (Unit {0} × Store)
revoke_family_tx family_id now st = do aware now; ok (tt, revoke_family_locked family_id now st)

unfoldable pub revoke_family : String → Datetime → Store → Outcome (Unit {0})
revoke_family family_id now st = committed st (revoke_family_tx family_id now st)
