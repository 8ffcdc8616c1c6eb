-- ===== src/Broker/Principals.antt =====
-- Principals and their grants: `add_principal`, `get_principal_by_github_subject`,
-- `allow_github_principal`, `enroll_principal_key`, `list_grants` and `active_grant_scopes` of
-- src/auth-broker/app/adapters/sqlite.py. `public_jwk_thumbprint` and the JSON text of a public key
-- are parameters, and so is the order of the ISO texts of datetimes, by which SQL compares them.
mod Rows
pub mod Keys
pub mod Enrolled
pub mod Subjects
pub mod Granted
unfoldable pub use Rows.*
use Prim.Native.Nat.{Ordering}
use mathai_ai_swarm_memory.Common.{
  ℕ, ◌+◌, ◌≡◌, Bool, true, false, not, ◌&&◌, ◌||◌, List, [], ◌∷◌, ◌++◌, Option, none, some, leb,
  ltb, ◌==◌, if◌then◌else◌, is_empty, length, find, any, all, keep, update_where, map, String,
  str_eq, string_append, is_unset, Codes, codes, is_space, compare_text, Result, ok, err, guard,
  ◌>>=◌, ◌>>◌, committed,
}
use mathai_ai_swarm_memory.Broker.Store.{
  Datetime, is_before, aware, Error, value_error, scope_error, integrity_error, PrincipalRow,
  GrantRow, GrantEvent, principal_added, GrantAuditRow, Store, is_null, Outcome,
}
use mathai_ai_swarm_memory.Broker.Scopes.{
  is_member, validate_role, validate_scope, validate_grant_ttl,
}
use mathai_ai_swarm_memory.Broker.Grants.{Grant, insert_grant_locked}

module _ (texts : Texts) where
  unfoldable pub add_principal_tx :
      String
      → String
      → String
      → Datetime
      → Option Jwk
      → Option String
      → Store
      → Result Error (Principal × Store)
  add_principal_tx principal_id github_subject role now jwk github_login st = do
    aware now
    checked ← validate_role role
    guard (not (is_unset principal_id) && leb (length (codes principal_id)) 64) value_error
    guard (texts.is_digits github_subject) value_error
    login ← cached_login github_login
    columns ← jwk_columns texts jwk
    let row = new_principal texts principal_id github_subject role now columns login
    st' ← insert_principal_locked row st
    ok (principal_row texts row, st')

  unfoldable pub add_principal :
      String → String → String → Datetime → Option Jwk → Option String → Store → Outcome Principal
  add_principal principal_id github_subject role now jwk github_login st =
      committed st (add_principal_tx principal_id github_subject role now jwk github_login st)

  -- `ORDER BY created_at, id`
  abbrev pub listed_before : PrincipalRow → PrincipalRow → Bool
  listed_before a b =
      texts.precedes a.created_at b.created_at
      || (not (texts.precedes b.created_at a.created_at) && text_before a.id b.id)

  unfoldable pub list_principals : Store → List Principal
  list_principals st = map (principal_row texts) (ordered listed_before st.principals)

  -- The choice of `get_principal_by_github_subject` among the active rows.
  unfoldable pub choose_principal : String → List Principal → Option Principal
  choose_principal github_subject principals =
      elim (find (λ (p : Principal). str_eq p.id (canonical_id github_subject)) principals) [
        | some p ↦ some p
        | none ↦ elim principals [ p ∷ rest ↦ if is_empty rest then some p else none | [] ↦ none ]
      ]

  unfoldable pub get_principal_by_github_subject : String → Store → Result Error (Option Principal)
  get_principal_by_github_subject github_subject st = do
    guard (texts.is_digits github_subject) value_error
    ok (
        choose_principal github_subject (
          map (principal_row texts)
            (ordered listed_before (keep (is_active_subject github_subject) st.principals))))

  -- `enroll_principal_key`
  unfoldable pub enroll_tx : String → Jwk → Datetime → Store → Result Error (Principal × Store)
  enroll_tx principal_id jwk now st = do
    aware now
    key ← public_jwk texts jwk
    elim (find (has_id principal_id) st.principals) [
      | none ↦ err value_error
      | some row ↦ do
        guard (is_null row.revoked_at) value_error
        guard
            (is_null (principal_row texts row).jwk
              && is_null (principal_row texts row).jwk_thumbprint)
            value_error
        let enroll =
            λ (p : PrincipalRow). record p { jwk = texts.dumps key.0; jwk_thumbprint = key.1 }
        ok (
          principal_row texts (enroll row),
          record st { principals = update_where (has_id principal_id) enroll st.principals },
        )
    ]

  unfoldable pub enroll_principal_key : String → Jwk → Datetime → Store → Outcome Principal
  enroll_principal_key principal_id jwk now st = committed st (enroll_tx principal_id jwk now st)

  -- The scopes without repetitions, each of them valid for the role.
  unfoldable pub checked_scopes : String → List String → List String → Result Error (List String)
  checked_scopes role checked [] = ok checked
  checked_scopes role checked (scope ∷ scopes) = do
    valid ← validate_scope scope (some role)
    checked_scopes role (if is_member scope checked then checked else checked ++ scope ∷ []) scopes

  -- `_insert_grant_locked` for each scope; the k-th random id is an argument.
  unfoldable pub insert_grants :
      (ℕ → String) → ℕ → String → List String → Datetime → Datetime → Store → Result Error Store
  insert_grants ids k principal_id [] now expires_at st = ok st
  insert_grants ids k principal_id (scope ∷ scopes) now expires_at st = do
    inserted ← insert_grant_locked (ids k) principal_id scope now expires_at st
    insert_grants ids (k + 1) principal_id scopes now expires_at inserted.1

  -- The principal of `allow_github_principal`, new or with the new login and role.
  unfoldable pub upsert_principal :
      String → String → String → String → Datetime → Store → Result Error Store
  upsert_principal principal_id github_subject login role now st =
      elim (find (has_id principal_id) st.principals) [
        | none ↦
            insert_principal_locked
              (new_principal texts principal_id github_subject role now ("", "") (some login)) st
        | some row ↦ do
          guard (is_null row.revoked_at) value_error
          guard (str_eq row.github_subject github_subject) value_error
          ok (record st {
            principals =
                update_where (has_id principal_id)
                  (λ p. record p { github_login = some login; role = role }) st.principals;
          })
      ]

  unfoldable pub allow_tx :
      (ℕ → String)
      → String
      → String
      → String
      → List String
      → Datetime
      → Datetime
      → Store
      → Result Error (Unit {0} × Store)
  allow_tx ids github_subject github_login role scopes now expires_at st = do
    aware now
    aware expires_at
    checked_role ← validate_role role
    guard (texts.is_digits github_subject) value_error
    login ← cached_login (some github_login)
    guard (not (is_empty scopes)) scope_error
    checked ← checked_scopes role [] scopes
    validate_grant_ttl now expires_at
    let principal_id = canonical_id github_subject
    guard (leb (length (codes principal_id)) 64) value_error
    st' ← upsert_principal principal_id github_subject github_login role now st
    st'' ← insert_grants ids 0 principal_id checked now expires_at st'
    ok (tt, st'')

  abbrev read_back : String → Store → Result Error Principal
  read_back principal_id st = elim (get_principal texts principal_id st) [
    | none ↦ err value_error
    | some p ↦ ok p
  ]

  -- `allow_github_principal`: the principal is read again behind the transaction.
  unfoldable pub allow_github_principal :
      (ℕ → String)
      → String
      → String
      → String
      → List String
      → Datetime
      → Datetime
      → Store
      → Outcome Principal
  allow_github_principal ids github_subject github_login role scopes now expires_at st =
      let (result, st') =
        committed st (allow_tx ids github_subject github_login role scopes now expires_at st) in
      (result >>= λ u. read_back (canonical_id github_subject) st', st')

  -- `WHERE principal_id = ? AND revoked_at IS NULL AND expires_at > ?`
  abbrev pub is_listed : String → Datetime → GrantRow → Bool
  is_listed principal_id now g =
      str_eq g.principal_id principal_id && is_null g.revoked_at && texts.precedes now g.expires_at

  abbrev pub to_grant : GrantRow → Grant
  to_grant g = record {
    id = g.id;
    principal_id = g.principal_id;
    scope = g.scope;
    created_at = g.created_at;
    expires_at = g.expires_at;
  }

  unfoldable pub list_grants : String → Datetime → Store → Result Error (List Grant)
  list_grants principal_id now st = do
    aware now
    ok (
        map to_grant (
          ordered (λ (a b : GrantRow). text_before a.scope b.scope)
            (keep (is_listed principal_id now) st.grants)))

  unfoldable pub active_grant_scopes : String → Datetime → Store → Result Error (List String)
  active_grant_scopes principal_id now st = do
    grants ← list_grants principal_id now st
    ok (map (λ (g : Grant). g.scope) grants)
