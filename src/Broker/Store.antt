-- ===== src/Broker/Store.antt =====
-- The tables of `SqlitePairingStore` (src/auth-broker/app/adapters/sqlite.py) as lists of rows, and
-- its transactions. A column that holds the ISO text of a datetime holds the datetime; the random
-- primary keys of the two audit tables are left out, and nothing reads them.
pub use mathai_ai_swarm_memory.Common.{committed, committed_keeps, committed-ok, committed-ran}
use mathai_ai_swarm_memory.Common.{
  ℕ, Bool, true, false, List, [], Option, none, some, ltb, leb, String, Codes, Result, guard,
}

-- The instant of a datetime in microseconds, and its UTC offset in minutes above -24 hours; a naive
-- datetime has none.
pub record Datetime : Type 0 where
  pub instant : ℕ
  pub offset : Option ℕ

abbrev pub is_aware : Datetime → Bool
is_aware d = elim d.offset [ none ↦ false | some o ↦ true ]

-- `a < b` and `a <= b` of aware datetimes.
abbrev pub is_before : Datetime → Datetime → Bool
is_before a b = ltb a.instant b.instant

abbrev pub is_at_most : Datetime → Datetime → Bool
is_at_most a b = leb a.instant b.instant

pub data Error : Type 0 where
  value_error scope_error type_error integrity_error : Error
  invalid_pairing_state invalid_pairing_proof pairing_expired : Error
  invalid_grant refresh_reuse : Error

-- `_aware(at)`
abbrev pub aware : Datetime → Result Error (Unit {0})
aware d = guard (is_aware d) value_error

pub data PairingStatus : Type 0 where
  pending proof_verified approved : PairingStatus

pub record PairingRow : Type 0 where
  pub id : String
  pub public_key : String
  pub challenge_hash : String
  pub created_at : Datetime
  pub expires_at : Datetime
  pub status : PairingStatus

pub record AgentRow : Type 0 where
  pub id : String
  pub request_id : String
  pub public_key : String
  pub approved_at : Datetime
  pub expires_at : Datetime
  pub revoked_at : Option Datetime

pub data PairingEvent : Type 0 where
  request_created proof_accepted agent_approved agent_revoked : PairingEvent

pub record AuditRow : Type 0 where
  pub event_type : PairingEvent
  pub occurred_at : Datetime
  pub request_id : String
  pub agent_id : Option String

pub record NonceRow : Type 0 where
  pub agent_id : String
  pub nonce_hash : String
  pub expires_at : Datetime

pub record SessionRow : Type 0 where
  pub token_hash : String
  pub subject : String
  pub scopes : Codes
  pub issued_at : Datetime
  pub expires_at : Datetime
  pub revoked_at : Option Datetime

pub record PrincipalRow : Type 0 where
  pub id : String
  pub github_subject : String
  pub jwk_thumbprint : String
  pub jwk : String
  pub role : String
  pub created_at : Datetime
  pub revoked_at : Option Datetime
  pub github_login : Option String

pub record GrantRow : Type 0 where
  pub id : String
  pub principal_id : String
  pub scope : String
  pub created_at : Datetime
  pub expires_at : Datetime
  pub revoked_at : Option Datetime

pub data GrantEvent : Type 0 where
  principal_added grant_set grant_revoked family_revoked : GrantEvent

pub record GrantAuditRow : Type 0 where
  pub event_type : GrantEvent
  pub occurred_at : Datetime
  pub principal_id : Option String
  pub scope : Option String
  pub family_id : Option String

pub record FamilyRow : Type 0 where
  pub id : String
  pub principal_id : String
  pub workspace_id : String
  pub current_token_hash : String
  pub previous_token_hash : Option String
  pub requested_scopes : List String
  pub created_at : Datetime
  pub expires_at : Datetime
  pub revoked_at : Option Datetime

pub record RefreshRow : Type 0 where
  pub token_hash : String
  pub family_id : String
  pub issued_at : Datetime
  pub expires_at : Datetime
  pub consumed_at : Option Datetime

pub record ReplayRow : Type 0 where
  pub jti_hash : String
  pub expires_at : Datetime

pub record Store : Type 0 where
  pub pairing_requests : List PairingRow
  pub agents : List AgentRow
  pub audit_events : List AuditRow
  pub consumed_nonces : List NonceRow
  pub broker_sessions : List SessionRow
  pub principals : List PrincipalRow
  pub grants : List GrantRow
  pub grant_audit_events : List GrantAuditRow
  pub token_families : List FamilyRow
  pub refresh_tokens : List RefreshRow
  pub dpop_replays : List ReplayRow

abbrev pub empty_store : Store
empty_store = record {
  pairing_requests = [];
  agents = [];
  audit_events = [];
  consumed_nonces = [];
  broker_sessions = [];
  principals = [];
  grants = [];
  grant_audit_events = [];
  token_families = [];
  refresh_tokens = [];
  dpop_replays = [];
}

-- A column that is NULL, such as `revoked_at`.
abbrev pub is_null {ℓ} : {A : Type ℓ} → Option A → Bool
is_null none = true
is_null (some x) = false

-- What a method returns or raises, and the store that it leaves.
abbrev pub Outcome : Type 0 → Type 0
Outcome A = Result Error A × Store
