-- ===== src/Broker/Families/Rotate.antt =====
-- `rotate_refresh` of src/auth-broker/app/adapters/sqlite.py: its transaction, and the error that it
-- raises behind the transaction.
use mathai_ai_swarm_memory.Common.{
  Bool, not, ◌&&◌, ◌||◌, Option, none, some, ◌==◌, if◌then◌else◌, find, count_where, update_where,
  String, str_eq, is_unset, Result, ok, err, guard, ◌>>=◌, ◌>>◌,
}
use mathai_ai_swarm_memory.Broker.Store.{
  Datetime, is_aware, is_before, aware, Error, type_error, invalid_grant, refresh_reuse, FamilyRow,
  RefreshRow, Store, is_null, Outcome, committed,
}
use mathai_ai_swarm_memory.Broker.Families.{
  TokenFamily, is_family, is_token, insert_refresh, consume_row, revoke_family_locked,
}

-- `new_expires_at or family_expires`, not after the family's own end.
unfoldable pub successor_expiry : Option Datetime → Datetime → Datetime
successor_expiry none family_expires = family_expires
successor_expiry (some e) family_expires = if is_before family_expires e then family_expires else e

-- A naive `new_expires_at` cannot be compared.
abbrev comparable : Option Datetime → Result Error (Unit {0})
comparable none = ok tt
comparable (some e) = guard (is_aware e) type_error

-- `WHERE id = ? AND current_token_hash = ? AND revoked_at IS NULL`
abbrev pub is_current_family : String → String → FamilyRow → Bool
is_current_family family_id token_hash f =
    is_family family_id f && str_eq f.current_token_hash token_hash && is_null f.revoked_at

abbrev pub advance_row : String → FamilyRow → FamilyRow
advance_row new_token_hash f = record f {
  current_token_hash = new_token_hash;
  previous_token_hash = some f.current_token_hash;
}

-- The row of the successor token.
abbrev pub successor_row : FamilyRow → Datetime → String → Datetime → RefreshRow
successor_row f now new_token_hash successor = record {
  token_hash = new_token_hash;
  family_id = f.id;
  issued_at = now;
  expires_at = successor;
  consumed_at = none;
}

-- The two updates: consume the presented token, and make the new one the family's current one.
abbrev pub advanced : FamilyRow → String → Datetime → String → Store → Store
advanced f token_hash now new_token_hash st = record st {
  token_families =
      update_where (is_current_family f.id token_hash) (advance_row new_token_hash)
        st.token_families;
  refresh_tokens =
      update_where (λ r. is_token token_hash r && is_null r.consumed_at) (consume_row now)
        st.refresh_tokens;
}

-- The branch on the current token.
unfoldable pub advance_family :
    FamilyRow → String → Datetime → String → Datetime → Store → Result Error (TokenFamily × Store)
advance_family f token_hash now new_token_hash successor st = do
  guard (count_where (is_current_family f.id token_hash) st.token_families == 1) invalid_grant
  st' ←
      insert_refresh (successor_row f now new_token_hash successor)
        (advanced f token_hash now new_token_hash st)
  ok (
    record {
      id = f.id;
      principal_id = f.principal_id;
      workspace_id = f.workspace_id;
      current_token_hash = new_token_hash;
      previous_token_hash = some token_hash;
      created_at = f.created_at;
      expires_at = f.expires_at;
      requested_scopes = f.requested_scopes;
    },
    st',
  )

abbrev pub with_family :
    Result Error (TokenFamily × Store) → Result Error (Option TokenFamily × Store)
with_family (ok (family, st)) = ok (some family, st)
with_family (err e) = err e

-- What the transaction of `rotate_refresh` does with the joined row; none is a reuse.
unfoldable pub rotate_row :
    RefreshRow
    → FamilyRow
    → String
    → Datetime
    → String
    → Option Datetime
    → Store
    → Result Error (Option TokenFamily × Store)
rotate_row r f token_hash now new_token_hash new_expires_at st = do
  guard (is_null f.revoked_at && is_before now f.expires_at && is_before now r.expires_at)
      invalid_grant
  comparable new_expires_at
  guard (is_before now (successor_expiry new_expires_at f.expires_at)) invalid_grant
  if str_eq f.current_token_hash token_hash
      then with_family (
          advance_family f token_hash now new_token_hash
            (successor_expiry new_expires_at f.expires_at) st)
      else ok (none, revoke_family_locked f.id now st)

unfoldable pub rotate_tx :
    String → Datetime → String → Option Datetime → Store → Result Error (Option TokenFamily × Store)
rotate_tx token_hash now new_token_hash new_expires_at st = do
  aware now
  guard (not (is_unset token_hash || is_unset new_token_hash)) invalid_grant
  elim (find (is_token token_hash) st.refresh_tokens) [
    | none ↦ err invalid_grant
    | some r ↦ elim (find (is_family r.family_id) st.token_families) [
      | none ↦ err invalid_grant
      | some f ↦ rotate_row r f token_hash now new_token_hash new_expires_at st
    ]
  ]

-- The reuse is raised behind the transaction, whose writes stay.
abbrev pub raise_reuse : Outcome (Option TokenFamily) → Outcome TokenFamily
raise_reuse (ok (some family), st) = (ok family, st)
raise_reuse (ok none, st) = (err refresh_reuse, st)
raise_reuse (err e, st) = (err e, st)

unfoldable pub rotate_refresh :
    String → Datetime → String → Option Datetime → Store → Outcome TokenFamily
rotate_refresh token_hash now new_token_hash new_expires_at st =
    raise_reuse (committed st (rotate_tx token_hash now new_token_hash new_expires_at st))
