-- ===== src/Oauth/Store.antt =====
-- The tables of src/auth-broker/app/mcp_oauth/store.py as lists of rows. A column that holds the ISO
-- text of a datetime holds the datetime; a column of scopes joined by blanks holds the scopes, none
-- of which has a blank; the JSON list of redirect addresses is the list.
use mathai_ai_swarm_memory.Common.{
  Bool, false, List, [], Option, none, some, ◌==◌, String, Result, guard,
}
use mathai_ai_swarm_memory.Broker.Store.{Datetime, is_aware}

pub data OauthError : Type 0 where
  naive_datetime duplicate_key : OauthError
  invalid_oauth_grant oauth_reuse registration_limit transaction_limit : OauthError

-- `_aware(at)`
abbrev pub needs_aware : Datetime → Result OauthError (Unit {0})
needs_aware d = guard (is_aware d) naive_datetime

pub record ClientRow : Type 0 where
  pub client_id : String
  pub client_name : String
  pub redirect_uris : List String
  pub issued_at : Datetime
  pub expires_at : Datetime

pub record RegistrationRow : Type 0 where
  pub occurred_at : Datetime

-- The texts of `status` that the program writes.
pub data TransactionStatus : Type 0 where
  pending_consent pending_github exchanging consumed : TransactionStatus

pub record TransactionRow : Type 0 where
  pub id : String
  pub csrf_hash : String
  pub client_id : String
  pub redirect_uri : String
  pub resource : String
  pub client_state : String
  pub code_challenge : String
  pub scopes : List String
  pub status : TransactionStatus
  pub expires_at : Datetime
  pub principal_id : Option String

pub record CodeRow : Type 0 where
  pub code_hash : String
  pub client_id : String
  pub redirect_uri : String
  pub resource : String
  pub code_challenge : String
  pub principal_id : String
  pub scopes : List String
  pub expires_at : Datetime
  pub consumed_at : Option Datetime

pub record OauthFamilyRow : Type 0 where
  pub id : String
  pub principal_id : String
  pub client_id : String
  pub resource : String
  pub requested_scopes : List String
  pub current_token_hash : String
  pub previous_token_hash : Option String
  pub current_access_jti : String
  pub created_at : Datetime
  pub expires_at : Datetime
  pub revoked_at : Option Datetime

pub record OauthTokenRow : Type 0 where
  pub token_hash : String
  pub family_id : String
  pub issued_at : Datetime
  pub expires_at : Datetime
  pub consumed_at : Option Datetime

pub record OauthStore : Type 0 where
  pub clients : List ClientRow
  pub registration_events : List RegistrationRow
  pub transactions : List TransactionRow
  pub codes : List CodeRow
  pub families : List OauthFamilyRow
  pub refresh_tokens : List OauthTokenRow

abbrev pub empty_oauth : OauthStore
empty_oauth = record {
  clients = [];
  registration_events = [];
  transactions = [];
  codes = [];
  families = [];
  refresh_tokens = [];
}

-- What a method returns or raises, and the tables that it leaves.
abbrev pub Reply : Type 0 → Type 0
Reply A = Result OauthError A × OauthStore

-- SQL compares the ISO texts of datetimes: whether the first sorts before the second.
abbrev pub TextOrder : Type 0
TextOrder = Datetime → Datetime → Bool

-- A datetime whose text ends in +00:00.
abbrev pub is_utc : Datetime → Bool
is_utc d = elim d.offset [ none ↦ false | some minutes ↦ minutes == 1440 ]
