-- ===== src/Broker/Pairing.antt =====
-- Pairing of agents: src/auth-broker/app/domain/pairing.py and the pairing methods of
-- src/auth-broker/app/adapters/sqlite.py. Random ids and challenges are arguments; the digest and
-- the signature scheme are parameters.
pub mod Agents
pub mod Calls
pub mod Audit
pub mod Logged
pub mod Proved
pub mod Status
pub mod Revoked
pub mod Nonces
use mathai_ai_swarm_memory.Common.{
  ℕ, ◌+◌, Bool, true, false, not, ◌&&◌, ◌∷◌, ◌++◌, [], Option, none, some, find, any, update_where,
  String, str_eq, Codes, Result, ok, err, guard, ◌>>=◌, ◌>>◌, List,
}
use mathai_ai_swarm_memory.Broker.Store.{
  Datetime, is_before, aware, Error, value_error, integrity_error, invalid_pairing_state,
  invalid_pairing_proof, pairing_expired, PairingStatus, pending, proof_verified, approved,
  PairingRow, PairingEvent, request_created, proof_accepted, AuditRow, Store, Outcome, committed,
}

-- `hashlib.sha256(...).hexdigest()` and the Ed25519 keys of the `cryptography` package: whether a
-- text encodes a public key, and whether a signature of a message verifies under it.
pub record Crypto : Type 0 where
  pub digest : Codes → String
  pub is_public_key : String → Bool
  pub verifies : String → Codes → Codes → Bool

pub record PairingRequest : Type 0 where
  pub id : String
  pub public_key : String
  pub challenge : Codes
  pub created_at : Datetime
  pub expires_at : Datetime
  pub status : PairingStatus

-- Ten minutes in microseconds.
abbrev pub request_lifetime : ℕ
request_lifetime = 600000000

abbrev pub is_pending : PairingStatus → Bool
is_pending pending = true
is_pending _ = false

abbrev pub is_verified : PairingStatus → Bool
is_verified proof_verified = true
is_verified _ = false

abbrev pub is_approved : PairingStatus → Bool
is_approved approved = true
is_approved _ = false

abbrev pub is_request : String → PairingRow → Bool
is_request request_id r = str_eq r.id request_id

abbrev pub with_status : PairingStatus → PairingRow → PairingRow
with_status status r = record r { status = status }

-- `_audit`
abbrev pub audit : PairingEvent → Datetime → String → Option String → Store → Store
audit event at request_id agent_id st = record st {
  audit_events =
      st.audit_events
      ++ record {
        event_type = event;
        occurred_at = at;
        request_id = request_id;
        agent_id = agent_id;
      }
        ∷ [];
}

-- `_request`
unfoldable pub request_row : String → Datetime → Store → Result Error PairingRow
request_row request_id at st = do
  aware at
  elim (find (is_request request_id) st.pairing_requests) [
    | none ↦ err invalid_pairing_state
    | some row ↦ do
      guard (not (is_before at row.created_at)) value_error
      guard (is_before at row.expires_at) pairing_expired
      ok row
  ]

-- `UPDATE pairing_requests SET status = ? WHERE id = ?`
abbrev pub set_status : String → PairingStatus → Store → Store
set_status request_id status st = record st {
  pairing_requests = update_where (is_request request_id) (with_status status) st.pairing_requests;
}

module _ (crypto : Crypto) where
  -- `create_request`
  unfoldable pub create_request : String → Datetime → String → Codes → Result Error PairingRequest
  create_request public_key now id challenge = do
    aware now
    guard (crypto.is_public_key public_key) value_error
    ok (record {
      id = id;
      public_key = public_key;
      challenge = challenge;
      created_at = now;
      expires_at = record now { instant = now.instant + request_lifetime };
      status = pending;
    })

  -- `verify_proof` of the domain: the request with its new state.
  unfoldable pub verify_request : PairingRequest → Codes → Datetime → Result Error PairingRequest
  verify_request request signature now = do
    aware now
    guard (not (is_before now request.created_at)) value_error
    guard (is_before now request.expires_at) pairing_expired
    guard (is_pending request.status) invalid_pairing_state
    guard
        (crypto.is_public_key request.public_key
          && crypto.verifies request.public_key signature request.challenge)
        invalid_pairing_proof
    ok (record request { status = proof_verified })

  -- `create`
  unfoldable pub create_tx : PairingRequest → Store → Result Error (Unit {0} × Store)
  create_tx request st = do
    guard (is_pending request.status) invalid_pairing_state
    aware request.created_at
    aware request.expires_at
    elim (find (is_request request.id) st.pairing_requests) [
      | some row ↦ err integrity_error
      | none ↦ ok (
        tt,
        audit request_created request.created_at request.id none (record st {
          pairing_requests =
              st.pairing_requests
              ++ record {
                id = request.id;
                public_key = request.public_key;
                challenge_hash = crypto.digest request.challenge;
                created_at = request.created_at;
                expires_at = request.expires_at;
                status = pending;
              }
                ∷ [];
        }),
      )
    ]

  unfoldable pub create : PairingRequest → Store → Outcome (Unit {0})
  create request st = committed st (create_tx request st)

  -- `verify_proof` of the store.
  unfoldable pub verify_tx :
      String → Codes → Codes → Datetime → Store → Result Error (Unit {0} × Store)
  verify_tx request_id challenge signature now st = do
    row ← request_row request_id now st
    guard (is_pending row.status) invalid_pairing_state
    guard (str_eq (crypto.digest challenge) row.challenge_hash) invalid_pairing_proof
    request ←
        verify_request
          (record {
            id = row.id;
            public_key = row.public_key;
            challenge = challenge;
            created_at = row.created_at;
            expires_at = row.expires_at;
            status = row.status;
          })
          signature now
    ok (tt, audit proof_accepted now request_id none (set_status request_id proof_verified st))

  unfoldable pub verify_proof : String → Codes → Codes → Datetime → Store → Outcome (Unit {0})
  verify_proof request_id challenge signature now st =
      committed st (verify_tx request_id challenge signature now st)
