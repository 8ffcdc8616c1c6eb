-- ===== src/Broker/Pairing/Agents.antt =====
-- `approve`, `active_agent`, `revoke` and `consume_nonce` of
-- src/auth-broker/app/adapters/sqlite.py. UTC texts of datetimes compare as their instants do.
use mathai_ai_swarm_memory.Common.{
  Bool, not, ◌&&◌, [], ◌∷◌, ◌++◌, Option, none, some, ◌==◌, if◌then◌else◌, find, any, length,
  count_where, delete_where, update_where, String, str_eq, Codes, Result, ok, err, guard, ◌>>=◌,
  ◌>>◌,
}
use mathai_ai_swarm_memory.Broker.Store.{
  Datetime, is_before, is_at_most, aware, Error, value_error, integrity_error,
  invalid_pairing_state, invalid_pairing_proof, approved, AgentRow, NonceRow, agent_approved,
  agent_revoked, Store, is_null, Outcome, committed,
}
use mathai_ai_swarm_memory.Broker.Pairing.{
  Crypto, is_verified, is_approved, is_request, audit, request_row, set_status,
}

pub record ActiveAgent : Type 0 where
  pub id : String
  pub public_key : String
  pub approved_at : Datetime
  pub expires_at : Datetime

abbrev pub is_agent : String → AgentRow → Bool
is_agent agent_id a = str_eq a.id agent_id

abbrev pub is_agent_of : String → AgentRow → Bool
is_agent_of request_id a = str_eq a.request_id request_id

-- `INSERT INTO agents`, with its two unique columns.
unfoldable pub insert_agent : AgentRow → Store → Result Error Store
insert_agent row st = do
  guard (not (any (is_agent row.id) st.agents) && not (any (is_agent_of row.request_id) st.agents))
      integrity_error
  ok (record st { agents = st.agents ++ row ∷ [] })

-- `approve`
unfoldable pub approve_tx :
    String → Datetime → Datetime → String → Store → Result Error (ActiveAgent × Store)
approve_tx request_id at expires_at agent_id st = do
  aware at
  aware expires_at
  guard (is_before at expires_at) value_error
  row ← request_row request_id at st
  guard (is_verified row.status) invalid_pairing_state
  st' ←
      insert_agent
        (record {
          id = agent_id;
          request_id = request_id;
          public_key = row.public_key;
          approved_at = at;
          expires_at = expires_at;
          revoked_at = none;
        })
        st
  ok (
    record {
      id = agent_id;
      public_key = row.public_key;
      approved_at = at;
      expires_at = expires_at;
    },
    audit agent_approved at request_id (some agent_id) (set_status request_id approved st'),
  )

unfoldable pub approve : String → Datetime → Datetime → String → Store → Outcome ActiveAgent
approve request_id at expires_at agent_id st =
    committed st (approve_tx request_id at expires_at agent_id st)

-- `approved_at <= now < expires_at`
abbrev pub in_lifetime : Datetime → AgentRow → Bool
in_lifetime now a = is_at_most a.approved_at now && is_before now a.expires_at

abbrev to_active : AgentRow → ActiveAgent
to_active a = record {
  id = a.id;
  public_key = a.public_key;
  approved_at = a.approved_at;
  expires_at = a.expires_at;
}

-- The join of `active_agent`.
unfoldable pub joined_agent : String → Store → Option AgentRow
joined_agent agent_id st = elim (find (is_agent agent_id) st.agents) [
  | none ↦ none
  | some a ↦ elim (find (is_request a.request_id) st.pairing_requests) [
    | none ↦ none
    | some p ↦ if is_null a.revoked_at && is_approved p.status then some a else none
  ]
]

unfoldable pub active_agent : String → Datetime → Store → Result Error (Option ActiveAgent)
active_agent agent_id now st = do
  aware now
  elim (joined_agent agent_id st) [
    | none ↦ ok none
    | some a ↦ ok (if in_lifetime now a then some (to_active a) else none)
  ]

-- `WHERE id = ? AND revoked_at IS NULL`
abbrev pub is_unrevoked_agent : String → AgentRow → Bool
is_unrevoked_agent agent_id a = is_agent agent_id a && is_null a.revoked_at

abbrev pub revoke_agent : Datetime → AgentRow → AgentRow
revoke_agent at a = record a { revoked_at = some at }

-- `revoke`
unfoldable pub revoke_tx : String → Datetime → Store → Result Error (Unit {0} × Store)
revoke_tx agent_id at st = do
  aware at
  if count_where (is_unrevoked_agent agent_id) st.agents == 0
      then ok (tt, st)
      else elim (find (is_agent agent_id) st.agents) [
        | none ↦ err value_error
        | some a ↦ ok (
          tt,
          audit agent_revoked at a.request_id (some agent_id) (record st {
            agents = update_where (is_unrevoked_agent agent_id) (revoke_agent at) st.agents;
          }),
        )
      ]

unfoldable pub revoke : String → Datetime → Store → Outcome (Unit {0})
revoke agent_id at st = committed st (revoke_tx agent_id at st)

abbrev pub is_nonce : String → String → NonceRow → Bool
is_nonce agent_id nonce_hash n = str_eq n.agent_id agent_id && str_eq n.nonce_hash nonce_hash

-- `consume_nonce`
module _ (crypto : Crypto) where
  unfoldable pub consume_nonce_tx :
      String → Codes → Datetime → Datetime → Store → Result Error (Unit {0} × Store)
  consume_nonce_tx agent_id nonce now expires_at st = do
    aware now
    aware expires_at
    guard (length nonce == 32 && is_before now expires_at) value_error
    active ← active_agent agent_id now st
    guard (not (is_null active)) invalid_pairing_state
    let kept = delete_where (λ (n : NonceRow). is_at_most n.expires_at now) st.consumed_nonces
    guard (not (any (is_nonce agent_id (crypto.digest nonce)) kept)) invalid_pairing_proof
    ok (
      tt,
      record st {
        consumed_nonces =
            kept
            ++ record {
              agent_id = agent_id;
              nonce_hash = crypto.digest nonce;
              expires_at = expires_at;
            }
              ∷ [];
      },
    )

  unfoldable pub consume_nonce : String → Codes → Datetime → Datetime → Store → Outcome (Unit {0})
  consume_nonce agent_id nonce now expires_at st =
      committed st (consume_nonce_tx agent_id nonce now expires_at st)
