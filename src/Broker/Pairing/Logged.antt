-- ===== src/Broker/Pairing/Logged.antt =====
-- The audit log beside the rows of src/auth-broker/app/adapters/sqlite.py: the events that belong to
-- requests and agents.
use mathai_ai_swarm_memory.Common.{
  ◌≡◌, refl, ◌∙◌, ap, Bool, true, false, ◌&&◌, ◌||◌, List, [], ◌∷◌, ◌++◌, none, some, All, All-map,
  All-append, All-find, All-update_where, find, any, any-append, find-holds, update_where, String,
  str_eq, eq_iff, eq_refl, or_true, sym, arith,
}
use mathai_ai_swarm_memory.Broker.Store.{
  Datetime, PairingRow, PairingStatus, proof_accepted, agent_approved, AuditRow, AgentRow, Store,
  empty_store,
}
use mathai_ai_swarm_memory.Broker.Pairing.{is_pending, is_request, with_status, set_status}
use mathai_ai_swarm_memory.Broker.Pairing.Agents.{is_unrevoked_agent, revoke_agent}

-- The event that a proof of the request was accepted.
abbrev pub is_proof : String → AuditRow → Bool
is_proof request_id e =
    (elim e.event_type [ proof_accepted ↦ true | _ ↦ false ]) && str_eq e.request_id request_id

-- The event that the request was approved as this agent.
abbrev pub is_approval : String → String → AuditRow → Bool
is_approval request_id agent_id e =
    (elim e.event_type [ agent_approved ↦ true | _ ↦ false ])
    && str_eq e.request_id request_id
    && (elim e.agent_id [ none ↦ false | some a ↦ str_eq a agent_id ])

abbrev pub has_proof : List AuditRow → PairingRow → Bool
has_proof events r = is_pending r.status || any (is_proof r.id) events

abbrev pub has_approval : List AuditRow → AgentRow → Bool
has_approval events a = any (is_approval a.request_id a.id) events

-- Every request is pending or its proof is in the log, and every agent's approval is.
pub record IsProved (st : Store) : Type 0 where
  pub requests : All (λ r. has_proof st.audit_events r ≡ true) st.pairing_requests
  pub agents : All (λ a. has_approval st.audit_events a ≡ true) st.agents

-- A longer log has the events of the shorter one.
pub logged-IsProved :
    (st : Store) (events : List AuditRow)
    → IsProved st
    → IsProved (record st { audit_events = st.audit_events ++ events })
logged-IsProved st events h = record {
  requests =
      All-map _ _ st.pairing_requests
        (λ r k. ground (arith, any-append (is_proof r.id) st.audit_events events)) h.requests;
  agents =
      All-map _ _ st.agents
        (λ a k. ground (arith, any-append (is_approval a.request_id a.id) st.audit_events events))
        h.agents;
}

pub empty-IsProved : IsProved empty_store
empty-IsProved = record { requests = tt; agents = tt }

module _ (st : Store) (h : IsProved st) where
  -- A new pending request.
  pub request-IsProved :
      (row : PairingRow)
      → is_pending row.status ≡ true
      → IsProved (record st { pairing_requests = st.pairing_requests ++ row ∷ [] })
  request-IsProved row p = record {
    requests =
        All-append (λ r. has_proof st.audit_events r ≡ true) st.pairing_requests (row ∷ [])
          h.requests (rw p refl, tt);
    agents = h.agents;
  }

  -- A new status of a request whose proof is in the log.
  pub status-IsProved :
      (id : String) (status : PairingStatus)
      → any (is_proof id) st.audit_events ≡ true
      → IsProved (set_status id status st)
  status-IsProved id status p = record {
    requests =
        All-update_where (λ r. has_proof st.audit_events r ≡ true) (is_request id)
          (with_status status) st.pairing_requests
          (λ r e k.
            let same : r.id ≡ id = (eq_iff r.id id).0 e in
            let found : any (is_proof r.id) st.audit_events ≡ true =
              ap (λ x. any (is_proof x) st.audit_events) same ∙ p in
            ground (arith, found))
          h.requests;
    agents = h.agents;
  }

  pub revocation-IsProved :
      (agent_id : String) (at : Datetime)
      → IsProved (record st {
        agents = update_where (is_unrevoked_agent agent_id) (revoke_agent at) st.agents;
      })
  revocation-IsProved agent_id at = record {
    requests = h.requests;
    agents =
        All-update_where (λ a. has_approval st.audit_events a ≡ true) (is_unrevoked_agent agent_id)
          (revoke_agent at) st.agents (λ a e k. k) h.agents;
  }

  -- A new agent whose approval is in the log.
  pub agent-IsProved :
      (row : AgentRow)
      → has_approval st.audit_events row ≡ true
      → IsProved (record st { agents = st.agents ++ row ∷ [] })
  agent-IsProved row k = record {
    requests = h.requests;
    agents =
        All-append (λ a. has_approval st.audit_events a ≡ true) st.agents (row ∷ []) h.agents
          (k, tt);
  }

pub proof-logged :
    (id : String) (at : Datetime) (events : List AuditRow)
    → any (is_proof id) (
        events
        ++ record {
          event_type = proof_accepted;
          occurred_at = at;
          request_id = id;
          agent_id = none;
        }
          ∷ [])
      ≡ true
proof-logged id at events = any-append (is_proof id) events _ ∙ rw (eq_refl id) (or_true _)

pub approval-logged :
    (id agent_id : String) (at : Datetime) (events : List AuditRow)
    → any (is_approval id agent_id) (
        events
        ++ record {
          event_type = agent_approved;
          occurred_at = at;
          request_id = id;
          agent_id = some agent_id;
        }
          ∷ [])
      ≡ true
approval-logged id agent_id at events =
    any-append (is_approval id agent_id) events _
    ∙ rw (eq_refl id) (rw (eq_refl agent_id) (or_true _))

-- A verified request has its proof in the log.
pub verified_proof :
    (id : String) (st : Store) (row : PairingRow)
    → IsProved st
    → find (is_request id) st.pairing_requests ≡ some row
    → is_pending row.status ≡ false
    → any (is_proof id) st.audit_events ≡ true
verified_proof id st row h found status =
    let same : row.id ≡ id =
      (eq_iff row.id id).0 (find-holds (is_request id) st.pairing_requests row found) in
    let k : has_proof st.audit_events row ≡ true =
      All-find (λ r. has_proof st.audit_events r ≡ true) (is_request id) st.pairing_requests row
        h.requests found in
    ap (λ x. any (is_proof x) st.audit_events) (sym same) ∙ ground (arith)
