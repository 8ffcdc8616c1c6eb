-- ===== src/Broker/Pairing/Proved.antt =====
-- The audit log and the rows of src/auth-broker/app/adapters/sqlite.py: what `verify_proof`,
-- `approve` and `active_agent` leave and need in it.
use mathai_ai_swarm_memory.Common.{
  ◌≡◌, refl, ◌∙◌, ap, inl, inr, true, ◌&&◌, List, none, some, All-find, find, any, any-append,
  find-holds, String, eq_iff, and_true, sym, ok, arith, Option-cases,
}
use mathai_ai_swarm_memory.Broker.Store.{
  Datetime, PairingRow, proof_verified, approved, proof_accepted, agent_approved, AgentRow, Store,
  empty_store, is_null,
}
use mathai_ai_swarm_memory.Broker.Pairing.{Crypto, is_approved, is_request, audit}
use mathai_ai_swarm_memory.Broker.Pairing.Agents.{
  ActiveAgent, is_agent, in_lifetime, joined_agent, active_agent,
}
use mathai_ai_swarm_memory.Broker.Pairing.Calls.{PairingCall, IsKept, run_calls, run_calls-keeps}
use mathai_ai_swarm_memory.Broker.Pairing.Audit.{
  new_request, new_agent, create_tx-stores, verify_tx-stores, approve_tx-stores, revoke_tx-stores,
  consume_nonce_tx-stores,
}
use mathai_ai_swarm_memory.Broker.Pairing.Logged.{
  is_proof, is_approval, has_approval, IsProved, logged-IsProved, empty-IsProved, request-IsProved,
  status-IsProved, revocation-IsProved, agent-IsProved, proof-logged, approval-logged,
  verified_proof,
}

-- The rows that the join of `active_agent` has found.
pub record Joined (agent_id : String) (st : Store) (a : AgentRow) (p : PairingRow) : Type 0 where
  pub agent : find (is_agent agent_id) st.agents ≡ some a
  pub request : find (is_request a.request_id) st.pairing_requests ≡ some p
  pub live : is_null a.revoked_at ≡ true
  pub approval : is_approved p.status ≡ true

pub joined_agent-found :
    (agent_id : String) (st : Store) (a : AgentRow)
    → joined_agent agent_id st ≡ some a
    → (p : PairingRow) × Joined agent_id st a p
unfolding joined_agent
joined_agent-found agent_id st a h = elim (Option-cases (find (is_agent agent_id) st.agents)) [
  | inl lost ↦ absurd (ground arith)
  | inr (b, found) ↦ elim (Option-cases (find (is_request b.request_id) st.pairing_requests)) [
    | inl lost ↦ absurd (ground arith)
    | inr (p, known) ↦
        let test : (is_null b.revoked_at && is_approved p.status) ≡ true = ground arith in
        let same : b ≡ a = ground arith in
        (
          p,
          record {
            agent = found ∙ ap some same;
            request =
                ap (λ (x : AgentRow). find (is_request x.request_id) st.pairing_requests) (sym same)
                ∙ known;
            live = ap (λ (x : AgentRow). is_null x.revoked_at) (sym same) ∙ (and_true _ _ test).0;
            approval = (and_true _ _ test).1;
          },
        )
  ]
]

pub active_agent-joined :
    (agent_id : String) (now : Datetime) (st : Store) (agent : ActiveAgent)
    → active_agent agent_id now st ≡ ok (some agent)
    → (a : AgentRow) × (joined_agent agent_id st ≡ some a) × (in_lifetime now a ≡ true)
unfolding active_agent
active_agent-joined agent_id now st agent h = elim (Option-cases (joined_agent agent_id st)) [
  | inl lost ↦ absurd (ground arith)
  | inr (a, found) ↦ (a, found, ground arith)
]

module _ (crypto : Crypto) where
  kept : IsKept crypto IsProved
  kept = record {
    by_create = λ request st st' a e h.
        rw ((create_tx-stores crypto request st st' a e).1)
          (logged-IsProved _ _ (request-IsProved st h (new_request crypto request) refl));
    by_verify = λ id challenge signature now st st' a e h.
        let (row, found, status, after) =
          verify_tx-stores crypto id challenge signature now st st' a e in
        rw after (
          status-IsProved (audit proof_accepted now id none st) (logged-IsProved st _ h) id
            proof_verified (proof-logged id now st.audit_events));
    by_approve = λ id at expires_at agent_id st st' a e h.
        let (row, found, status, after) = approve_tx-stores id at expires_at agent_id st st' a e in
        let logged : IsProved (audit agent_approved at id (some agent_id) st) =
          logged-IsProved st _ h in
        let with_agent =
          agent-IsProved (audit agent_approved at id (some agent_id) st) logged
            (new_agent id at expires_at agent_id row)
            (approval-logged id agent_id at st.audit_events) in
        rw after (
          status-IsProved _ with_agent id approved (
            any-append (is_proof id) st.audit_events _
            ∙ rw (verified_proof id st row h found (ground arith)) refl));
    by_revoke = λ agent_id at st st' a e h. elim (revoke_tx-stores agent_id at st st' a e) [
      | inl (nothing, same) ↦ rw same h
      | inr (x, found, after) ↦
          rw after (logged-IsProved _ _ (revocation-IsProved st h agent_id at))
    ];
    by_consume = λ agent_id nonce now expires_at st st' a e h.
        let (requests, agents, events) =
          consume_nonce_tx-stores crypto agent_id nonce now expires_at st st' a e in
        record {
          requests = rw requests (rw events h.requests);
          agents = rw agents (rw events h.agents);
        };
  }

  -- After any calls on a new store, an agent that is active has a request whose proof of the key
  -- is in the audit log, and the owner's approval of that request as this agent is there too.
  pub active_agent_proved :
      (calls : List PairingCall) (agent_id : String) (now : Datetime) (agent : ActiveAgent)
      → active_agent agent_id now (run_calls crypto calls empty_store) ≡ ok (some agent)
      → (request_id : String) × (any
            (is_proof request_id)
            (run_calls crypto calls empty_store).audit_events
          ≡ true)
        × (any (is_approval request_id agent_id) (run_calls crypto calls empty_store).audit_events
            ≡ true)
  active_agent_proved calls agent_id now agent h =
      let st = run_calls crypto calls empty_store in
      let proved : IsProved st =
        run_calls-keeps crypto IsProved kept calls empty_store empty-IsProved in
      let (a, joined, lifetime) = active_agent-joined agent_id now st agent h in
      let (p, rows) = joined_agent-found agent_id st a joined in
      let same : a.id ≡ agent_id =
        (eq_iff a.id agent_id).0 (find-holds (is_agent agent_id) st.agents a rows.agent) in
      (
        a.request_id,
        verified_proof a.request_id st p proved rows.request (ground (arith, rows.approval)),
        ap (λ x. any (is_approval a.request_id x) st.audit_events) (sym same)
            ∙ All-find (λ a. has_approval st.audit_events a ≡ true) (is_agent agent_id) st.agents a
                proved.agents rows.agent,
      )
