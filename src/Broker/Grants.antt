-- ===== src/Broker/Grants.antt =====
-- `set_grant`, `_insert_grant_locked` and `revoke_grant` of src/auth-broker/app/adapters/sqlite.py.
pub mod Single
use mathai_ai_swarm_memory.Common.{
  ◌≡◌, Bool, true, false, not, ◌&&◌, List, [], ◌∷◌, ◌++◌, Option, none, some, if◌then◌else◌, ◌==◌,
  any, count_where, update_where, String, str_eq, Result, ok, err, guard, ◌>>=◌, ◌>>◌,
}
use mathai_ai_swarm_memory.Broker.Store.{
  Datetime, aware, Error, value_error, integrity_error, PrincipalRow, GrantRow, GrantEvent,
  grant_set, grant_revoked, GrantAuditRow, Store, is_null, Outcome, committed,
}
use mathai_ai_swarm_memory.Broker.Families.{active_principal}
use mathai_ai_swarm_memory.Broker.Scopes.{validate_scope, validate_grant_ttl}

pub record Grant : Type 0 where
  pub id : String
  pub principal_id : String
  pub scope : String
  pub created_at : Datetime
  pub expires_at : Datetime

abbrev pub is_grant : String → GrantRow → Bool
is_grant id g = str_eq g.id id

-- `WHERE principal_id = ? AND scope = ? AND revoked_at IS NULL`
abbrev pub is_live_grant : String → String → GrantRow → Bool
is_live_grant principal_id scope g =
    str_eq g.principal_id principal_id && str_eq g.scope scope && is_null g.revoked_at

abbrev pub revoke_grant_row : Datetime → GrantRow → GrantRow
revoke_grant_row now g = record g { revoked_at = some now }

-- `_grant_audit` of a principal's scope.
abbrev pub grant_audit : GrantEvent → Datetime → String → String → Store → Store
grant_audit event at principal_id scope st = record st {
  grant_audit_events =
      st.grant_audit_events
      ++ record {
        event_type = event;
        occurred_at = at;
        principal_id = some principal_id;
        scope = some scope;
        family_id = none;
      }
        ∷ [];
}

abbrev pub revoked_grants : String → String → Datetime → Store → List GrantRow
revoked_grants principal_id scope now st =
    update_where (is_live_grant principal_id scope) (revoke_grant_row now) st.grants

abbrev pub new_grant : String → String → String → Datetime → Datetime → GrantRow
new_grant id principal_id scope now expires_at = record {
  id = id;
  principal_id = principal_id;
  scope = scope;
  created_at = now;
  expires_at = expires_at;
  revoked_at = none;
}

-- `_insert_grant_locked`, with the random id as an argument.
unfoldable pub insert_grant_locked :
    String → String → String → Datetime → Datetime → Store → Result Error (Grant × Store)
insert_grant_locked id principal_id scope now expires_at st = do
  guard (not (any (is_grant id) st.grants)) integrity_error
  ok (
    record {
      id = id;
      principal_id = principal_id;
      scope = scope;
      created_at = now;
      expires_at = expires_at;
    },
    grant_audit grant_set now principal_id scope (record st {
      grants =
          revoked_grants principal_id scope now st
          ++ new_grant id principal_id scope now expires_at ∷ [];
    }),
  )

unfoldable pub set_grant_tx :
    String → String → String → Datetime → Datetime → Store → Result Error (Grant × Store)
set_grant_tx id principal_id scope now expires_at st = do
  aware now
  aware expires_at
  validate_grant_ttl now expires_at
  elim (active_principal st principal_id) [
    | none ↦ err value_error
    | some p ↦ do
      checked ← validate_scope scope (some p.role)
      insert_grant_locked id principal_id scope now expires_at st
  ]

unfoldable pub set_grant : String → String → String → Datetime → Datetime → Store → Outcome Grant
set_grant id principal_id scope now expires_at st =
    committed st (set_grant_tx id principal_id scope now expires_at st)

unfoldable pub revoke_grant_tx :
    String → String → Datetime → Store → Result Error (Unit {0} × Store)
revoke_grant_tx principal_id scope now st = do
  aware now
  checked ← validate_scope scope none
  let changed = record st { grants = revoked_grants principal_id scope now st }
  if count_where (is_live_grant principal_id scope) st.grants == 0
      then ok (tt, st)
      else ok (tt, grant_audit grant_revoked now principal_id scope changed)

unfoldable pub revoke_grant : String → String → Datetime → Store → Outcome (Unit {0})
revoke_grant principal_id scope now st = committed st (revoke_grant_tx principal_id scope now st)
