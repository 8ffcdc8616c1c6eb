-- ===== src/Broker/Pairing/Revoked.antt =====
-- Revoked agents under the pairing calls of src/auth-broker/app/adapters/sqlite.py.
use mathai_ai_swarm_memory.Common.{
  ◌≡◌, refl, ◌∙◌, ap, inl, inr, true, false, List, none, some, find, find-append, find-update_where,
  find-holds, find-some-count, update_where, count_where, if◌then◌else◌, ◌==◌, ==→≡, String, ok,
  arith, Bool-cases,
}
use mathai_ai_swarm_memory.Broker.Store.{Datetime, is_aware, AgentRow, Store, is_null}
use mathai_ai_swarm_memory.Broker.Pairing.{Crypto}
use mathai_ai_swarm_memory.Broker.Pairing.Agents.{
  is_agent, is_unrevoked_agent, revoke_agent, revoke, revoke_tx, joined_agent, active_agent,
}
use mathai_ai_swarm_memory.Broker.Pairing.Calls.{PairingCall, IsKept, run_calls, run_calls-keeps}
use mathai_ai_swarm_memory.Broker.Pairing.Audit.{
  revoked_store, create_tx-stores, verify_tx-stores, approve_tx-stores, revoke_tx-stores,
  consume_nonce_tx-stores,
}

-- The agent is there and has been revoked.
pub record IsRevokedAgent (agent_id : String) (st : Store) : Type 0 where
  pub row : AgentRow
  pub found : find (is_agent agent_id) st.agents ≡ some row
  pub revoked : is_null row.revoked_at ≡ false

same_agents-IsRevokedAgent :
    (agent_id : String) (st st' : Store)
    → st'.agents ≡ st.agents
    → IsRevokedAgent agent_id st
    → IsRevokedAgent agent_id st'
same_agents-IsRevokedAgent agent_id st st' e h = record {
  row = h.row;
  found = ap (find (is_agent agent_id)) e ∙ h.found;
  revoked = h.revoked;
}

revoking-IsRevokedAgent :
    (agent_id other : String) (at : Datetime) (st : Store)
    → IsRevokedAgent agent_id st
    → IsRevokedAgent agent_id
        (record st { agents = update_where (is_unrevoked_agent other) (revoke_agent at) st.agents })
revoking-IsRevokedAgent agent_id other at st h = record {
  row = if is_unrevoked_agent other h.row then revoke_agent at h.row else h.row;
  found =
      find-update_where (is_agent agent_id) (is_unrevoked_agent other) (revoke_agent at) st.agents
        (λ x. refl)
      ∙ rw h.found refl;
  revoked = ground (arith, h.revoked);
}

module _ (crypto : Crypto) (agent_id : String) where
  kept : IsKept crypto (IsRevokedAgent agent_id)
  kept = record {
    by_create = λ request st st' a e h.
        same_agents-IsRevokedAgent agent_id st st'
          (ap (λ (s : Store). s.agents) (create_tx-stores crypto request st st' a e).1) h;
    by_verify = λ id challenge signature now st st' a e h.
        let (row, found, status, after) =
          verify_tx-stores crypto id challenge signature now st st' a e in
        same_agents-IsRevokedAgent agent_id st st' (ap (λ (s : Store). s.agents) after) h;
    by_approve = λ id at expires_at new_id st st' a e h.
        let (row, found, status, after) = approve_tx-stores id at expires_at new_id st st' a e in
        record {
          row = h.row;
          found =
              ap (λ (s : Store). find (is_agent agent_id) s.agents) after
              ∙ find-append (is_agent agent_id) st.agents _
              ∙ rw h.found refl;
          revoked = h.revoked;
        };
    by_revoke = λ other at st st' a e h. elim (revoke_tx-stores other at st st' a e) [
      | inl (nothing, same) ↦ rw same h
      | inr (x, found, after) ↦
          same_agents-IsRevokedAgent agent_id _ st' (ap (λ (s : Store). s.agents) after)
            (revoking-IsRevokedAgent agent_id other at st h)
    ];
    by_consume = λ other nonce now expires_at st st' a e h.
        same_agents-IsRevokedAgent agent_id st st'
          ((consume_nonce_tx-stores crypto other nonce now expires_at st st' a e).1) h;
  }

  pub run_calls-IsRevokedAgent :
      (calls : List PairingCall) (st : Store)
      → IsRevokedAgent agent_id st
      → IsRevokedAgent agent_id (run_calls crypto calls st)
  run_calls-IsRevokedAgent calls st h =
      run_calls-keeps crypto (IsRevokedAgent agent_id) kept calls st h

revoke_tx-IsRevokedAgent :
    (agent_id : String) (at : Datetime) (st : Store) (a : AgentRow)
    → is_aware at ≡ true
    → find (is_agent agent_id) st.agents ≡ some a
    → (st' : Store) × (revoke_tx agent_id at st ≡ ok (tt, st')) × IsRevokedAgent agent_id st'
unfolding revoke_tx
revoke_tx-IsRevokedAgent agent_id at st a time found =
    elim (Bool-cases (count_where (is_unrevoked_agent agent_id) st.agents == 0)) [
      | inl nothing ↦ (
        st,
        rw time (rw nothing refl),
        record {
          row = a;
          found = found;
          revoked = elim (Bool-cases (is_null a.revoked_at)) [
            | inl live ↦ absurd (
                find-some-count (is_agent agent_id) (is_unrevoked_agent agent_id) st.agents a found
                  (rw (find-holds (is_agent agent_id) st.agents a found) live) (==→≡ _ 0 nothing))
            | inr revoked ↦ revoked
          ];
        },
      )
      | inr busy ↦ (
        revoked_store agent_id at a st,
        rw time (rw busy (rw found refl)),
        record {
          row = if is_unrevoked_agent agent_id a then revoke_agent at a else a;
          found =
              find-update_where (is_agent agent_id) (is_unrevoked_agent agent_id) (revoke_agent at)
                st.agents (λ x. refl)
              ∙ rw found refl;
          revoked = ground (arith, find-holds (is_agent agent_id) st.agents a found);
        },
      )
    ]

revoked-inactive :
    (agent_id : String) (now : Datetime) (st : Store)
    → is_aware now ≡ true
    → IsRevokedAgent agent_id st
    → active_agent agent_id now st ≡ ok none
unfolding active_agent joined_agent
revoked-inactive agent_id now st time h = ground (arith, h.found, h.revoked)

-- Once a known agent has been revoked at an aware time, it is not active at any aware time,
-- whatever calls follow.
pub revoke_permanent :
    (crypto : Crypto) (agent_id : String) (at : Datetime) (st : Store) (a : AgentRow)
    → is_aware at ≡ true
    → find (is_agent agent_id) st.agents ≡ some a
    → (calls : List PairingCall) (now : Datetime) → is_aware now ≡ true
    → active_agent agent_id now (run_calls crypto calls (revoke agent_id at st).1) ≡ ok none
unfolding revoke
revoke_permanent crypto agent_id at st a time found calls now time' =
    let (st', ran, revoked) = revoke_tx-IsRevokedAgent agent_id at st a time found in
    rw ran (
      revoked-inactive agent_id now (run_calls crypto calls st') time'
        (run_calls-IsRevokedAgent crypto agent_id calls st' revoked))
