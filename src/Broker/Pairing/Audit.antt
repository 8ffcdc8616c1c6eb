-- ===== src/Broker/Pairing/Audit.antt =====
-- What the transactions of pairing write: each as one equation on the store.
use mathai_ai_swarm_memory.Common.{
  ◌≡◌, true, [], ◌∷◌, ◌++◌, none, some, find, count_where, update_where, String, Codes, ◌⊎◌,
  >>=-eq-ok, guard, ok, inl, inr, arith, Option-cases,
}
use mathai_ai_swarm_memory.Broker.Store.{
  Datetime, is_before, aware, value_error, Store, PairingRow, pending, proof_verified, approved,
  request_created, proof_accepted, agent_approved, agent_revoked, AgentRow,
}
use mathai_ai_swarm_memory.Broker.Pairing.{
  Crypto, PairingRequest, is_request, is_pending, is_verified, audit, set_status, request_row,
  create_tx, verify_tx,
}
use mathai_ai_swarm_memory.Broker.Pairing.Agents.{
  ActiveAgent, is_agent, is_unrevoked_agent, revoke_agent, insert_agent, approve_tx, revoke_tx,
  consume_nonce_tx,
}

-- A request that is used by a transaction that succeeds.
pub record Found (request_id : String) (st : Store) (row : PairingRow) : Type 0 where
  pub found : find (is_request request_id) st.pairing_requests ≡ some row

pub request_row-Found :
    (request_id : String) (at : Datetime) (st : Store) (row : PairingRow)
    → request_row request_id at st ≡ ok row
    → Found request_id st row
unfolding request_row
request_row-Found request_id at st row h =
    elim (Option-cases (find (is_request request_id) st.pairing_requests)) [
      | inl lost ↦ absurd (ground arith)
      | inr (r, found) ↦ record { found = ground arith }
    ]

module _ (crypto : Crypto) where
  abbrev pub new_request : PairingRequest → PairingRow
  new_request request = record {
    id = request.id;
    public_key = request.public_key;
    challenge_hash = crypto.digest request.challenge;
    created_at = request.created_at;
    expires_at = request.expires_at;
    status = pending;
  }

  abbrev pub created_store : PairingRequest → Store → Store
  created_store request st =
      audit request_created request.created_at request.id none
        (record st { pairing_requests = st.pairing_requests ++ new_request request ∷ [] })

  pub create_tx-stores :
      (request : PairingRequest) (st st' : Store) (a : Unit {0})
      → create_tx crypto request st ≡ ok (a, st')
      → (find (is_request request.id) st.pairing_requests ≡ none) × (st' ≡ created_store request st)
  unfolding create_tx
  create_tx-stores request st st' a h =
      elim (Option-cases (find (is_request request.id) st.pairing_requests)) [
        | inl free ↦ (free, ground arith)
        | inr (r, taken) ↦ absurd (ground arith)
      ]

  pub verify_tx-stores :
      (id : String) (challenge signature : Codes) (now : Datetime) (st st' : Store) (a : Unit {0})
      → verify_tx crypto id challenge signature now st ≡ ok (a, st')
      → (row : PairingRow) × (find (is_request id) st.pairing_requests ≡ some row)
        × (is_pending row.status ≡ true)
        × (st' ≡ audit proof_accepted now id none (set_status id proof_verified st))
  unfolding verify_tx
  verify_tx-stores id challenge signature now st st' a h =
      let (row, got, rest) = >>=-eq-ok (request_row id now st) _ h in
      (row, (request_row-Found id now st row got).found, ground arith, ground arith)

  pub consume_nonce_tx-stores :
      (agent_id : String) (nonce : Codes) (now expires_at : Datetime) (st st' : Store)
      (a : Unit {0})
      → consume_nonce_tx crypto agent_id nonce now expires_at st ≡ ok (a, st')
      → (st'.pairing_requests ≡ st.pairing_requests)
        × (st'.agents ≡ st.agents)
        × (st'.audit_events ≡ st.audit_events)
  unfolding consume_nonce_tx
  consume_nonce_tx-stores agent_id nonce now expires_at st st' a h =
      (ground arith, ground arith, ground arith)

abbrev pub new_agent : String → Datetime → Datetime → String → PairingRow → AgentRow
new_agent request_id at expires_at agent_id row = record {
  id = agent_id;
  request_id = request_id;
  public_key = row.public_key;
  approved_at = at;
  expires_at = expires_at;
  revoked_at = none;
}

abbrev pub approved_store : String → Datetime → AgentRow → Store → Store
approved_store request_id at agent st =
    audit agent_approved at request_id (some agent.id)
      (set_status request_id approved (record st { agents = st.agents ++ agent ∷ [] }))

pub approve_tx-stores :
    (id : String) (at expires_at : Datetime) (agent_id : String) (st st' : Store) (a : ActiveAgent)
    → approve_tx id at expires_at agent_id st ≡ ok (a, st')
    → (row : PairingRow) × (find (is_request id) st.pairing_requests ≡ some row)
      × (is_verified row.status ≡ true)
      × (st' ≡ approved_store id at (new_agent id at expires_at agent_id row) st)
unfolding approve_tx insert_agent
approve_tx-stores id at expires_at agent_id st st' a h =
    let (u1, e1, h1) = >>=-eq-ok (aware at) _ h in
    let (u2, e2, h2) = >>=-eq-ok (aware expires_at) _ h1 in
    let (u3, e3, h3) = >>=-eq-ok (guard (is_before at expires_at) value_error) _ h2 in
    let (row, got, rest) = >>=-eq-ok (request_row id at st) _ h3 in
    (row, (request_row-Found id at st row got).found, ground arith, ground arith)

-- What a revocation writes when the agent was live.
abbrev pub revoked_store : String → Datetime → AgentRow → Store → Store
revoked_store agent_id at a st =
    audit agent_revoked at a.request_id (some agent_id) (record st {
      agents = update_where (is_unrevoked_agent agent_id) (revoke_agent at) st.agents;
    })

pub revoke_tx-stores :
    (agent_id : String) (at : Datetime) (st st' : Store) (a : Unit {0})
    → revoke_tx agent_id at st ≡ ok (a, st')
    → ((count_where (is_unrevoked_agent agent_id) st.agents ≡ 0) × (st' ≡ st))
      ⊎ ((x : AgentRow) × (find (is_agent agent_id) st.agents ≡ some x)
          × (st' ≡ revoked_store agent_id at x st))
unfolding revoke_tx
revoke_tx-stores agent_id at st st' a h = elim (Option-cases (find (is_agent agent_id) st.agents)) [
  | inl lost ↦ ground arith
  | inr (x, found) ↦ ground arith
]
