-- ===== src/Broker/Sessions.antt =====
-- `create_session`, `active_session`, `revoke_session` and `consume_dpop_jti` of
-- src/auth-broker/app/adapters/sqlite.py.
pub mod Lifetime
pub mod Replay
use mathai_ai_swarm_memory.Common.{
  ◌≡◌, Bool, true, false, not, ◌&&◌, List, [], ◌∷◌, ◌++◌, Option, none, some, if◌then◌else◌, find,
  any, is_empty, delete_where, update_where, String, str_eq, is_unset, Codes, join_words, words,
  Result, ok, err, guard, ◌>>=◌, ◌>>◌,
}
use mathai_ai_swarm_memory.Broker.Store.{
  Datetime, is_before, is_at_most, aware, Error, value_error, integrity_error,
  invalid_pairing_proof, SessionRow, ReplayRow, Store, is_null, Outcome, committed,
}

pub record BrokerSession : Type 0 where
  pub token_hash : String
  pub subject : String
  pub scopes : List Codes
  pub expires_at : Datetime

abbrev pub is_session : String → SessionRow → Bool
is_session token_hash s = str_eq s.token_hash token_hash

-- `WHERE token_hash = ? AND revoked_at IS NULL`
abbrev pub is_unrevoked_session : String → SessionRow → Bool
is_unrevoked_session token_hash s = is_session token_hash s && is_null s.revoked_at

abbrev pub new_session : String → String → List Codes → Datetime → Datetime → SessionRow
new_session token_hash subject scopes issued_at expires_at = record {
  token_hash = token_hash;
  subject = subject;
  scopes = join_words scopes;
  issued_at = issued_at;
  expires_at = expires_at;
  revoked_at = none;
}

unfoldable pub create_session_tx :
    String → String → List Codes → Datetime → Datetime → Store → Result Error (Unit {0} × Store)
create_session_tx token_hash subject scopes issued_at expires_at st = do
  aware issued_at
  aware expires_at
  guard
      (not (is_unset token_hash)
        && not (is_unset subject)
        && not (is_empty scopes)
        && is_before issued_at expires_at)
      value_error
  guard (not (any (is_session token_hash) st.broker_sessions)) integrity_error
  ok (
    tt,
    record st {
      broker_sessions =
          st.broker_sessions ++ new_session token_hash subject scopes issued_at expires_at ∷ [];
    },
  )

unfoldable pub create_session :
    String → String → List Codes → Datetime → Datetime → Store → Outcome (Unit {0})
create_session token_hash subject scopes issued_at expires_at st =
    committed st (create_session_tx token_hash subject scopes issued_at expires_at st)

abbrev pub to_session : SessionRow → BrokerSession
to_session s = record {
  token_hash = s.token_hash;
  subject = s.subject;
  scopes = words s.scopes;
  expires_at = s.expires_at;
}

unfoldable pub active_session : String → Datetime → Store → Result Error (Option BrokerSession)
active_session token_hash now st = do
  aware now
  elim (find (is_unrevoked_session token_hash) st.broker_sessions) [
    | none ↦ ok none
    | some s ↦ ok (
        if is_at_most s.issued_at now && is_before now s.expires_at
        then some (to_session s)
        else none)
  ]

abbrev pub revoke_session_row : Datetime → SessionRow → SessionRow
revoke_session_row now s = record s { revoked_at = some now }

unfoldable pub revoke_session : String → Datetime → Store → Store
revoke_session token_hash now st = record st {
  broker_sessions =
      update_where (is_unrevoked_session token_hash) (revoke_session_row now) st.broker_sessions;
}

abbrev pub is_replay : String → ReplayRow → Bool
is_replay digest r = str_eq r.jti_hash digest

-- The replays without the expired ones.
abbrev pub purged_replays : Datetime → List ReplayRow → List ReplayRow
purged_replays now replays = delete_where (λ (r : ReplayRow). is_at_most r.expires_at now) replays

-- `hashlib.sha256(...).hexdigest()` is a parameter.
module _ (digest : String → String) where
  unfoldable pub consume_dpop_jti_tx :
      String → Datetime → Datetime → Store → Result Error (Unit {0} × Store)
  consume_dpop_jti_tx jti now expires_at st = do
    aware now
    aware expires_at
    guard (not (is_unset jti) && is_before now expires_at) invalid_pairing_proof
    guard (not (any (is_replay (digest jti)) (purged_replays now st.dpop_replays)))
        invalid_pairing_proof
    ok (
      tt,
      record st {
        dpop_replays =
            purged_replays now st.dpop_replays
            ++ record { jti_hash = digest jti; expires_at = expires_at } ∷ [];
      },
    )

  unfoldable pub consume_dpop_jti : String → Datetime → Datetime → Store → Outcome (Unit {0})
  consume_dpop_jti jti now expires_at st = committed st (consume_dpop_jti_tx jti now expires_at st)
