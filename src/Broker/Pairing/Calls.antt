-- ===== src/Broker/Pairing/Calls.antt =====
-- Sequences of calls of the pairing methods of src/auth-broker/app/adapters/sqlite.py on one store.
use mathai_ai_swarm_memory.Common.{◌≡◌, List, [], ◌∷◌, String, Codes, ok}
use mathai_ai_swarm_memory.Broker.Store.{Datetime, Store, committed_keeps}
use mathai_ai_swarm_memory.Broker.Pairing.{
  Crypto, PairingRequest, create, create_tx, verify_proof, verify_tx,
}
use mathai_ai_swarm_memory.Broker.Pairing.Agents.{
  ActiveAgent, approve, approve_tx, revoke, revoke_tx, consume_nonce, consume_nonce_tx,
}

-- A call of a method that writes, with the random values that it draws.
pub data PairingCall : Type 0 where
  creating : PairingRequest → PairingCall
  proving : String → Codes → Codes → Datetime → PairingCall
  approving : String → Datetime → Datetime → String → PairingCall
  revoking : String → Datetime → PairingCall
  consuming : String → Codes → Datetime → Datetime → PairingCall

module _ (crypto : Crypto) where
  abbrev pub run_call : PairingCall → Store → Store
  run_call (creating request) st = (create crypto request st).1
  run_call (proving id challenge signature now) st =
      (verify_proof crypto id challenge signature now st).1
  run_call (approving id at expires_at agent_id) st = (approve id at expires_at agent_id st).1
  run_call (revoking agent_id at) st = (revoke agent_id at st).1
  run_call (consuming agent_id nonce now expires_at) st =
      (consume_nonce crypto agent_id nonce now expires_at st).1

  abbrev pub run_calls : List PairingCall → Store → Store
  run_calls [] st = st
  run_calls (call ∷ calls) st = run_calls calls (run_call call st)

  -- What every transaction that succeeds keeps.
  pub record IsKept {ℓ} (P : Store → Type ℓ) : Type ℓ where
    pub by_create :
        (request : PairingRequest) (st st' : Store) (a : Unit {0})
        → create_tx crypto request st ≡ ok (a, st')
        → P st
        → P st'
    pub by_verify :
        (id : String) (challenge signature : Codes) (now : Datetime) (st st' : Store) (a : Unit {0})
        → verify_tx crypto id challenge signature now st ≡ ok (a, st')
        → P st
        → P st'
    pub by_approve :
        (id : String) (at expires_at : Datetime) (agent_id : String) (st st' : Store)
        (a : ActiveAgent)
        → approve_tx id at expires_at agent_id st ≡ ok (a, st')
        → P st
        → P st'
    pub by_revoke :
        (agent_id : String) (at : Datetime) (st st' : Store) (a : Unit {0})
        → revoke_tx agent_id at st ≡ ok (a, st')
        → P st
        → P st'
    pub by_consume :
        (agent_id : String) (nonce : Codes) (now expires_at : Datetime) (st st' : Store)
        (a : Unit {0})
        → consume_nonce_tx crypto agent_id nonce now expires_at st ≡ ok (a, st')
        → P st
        → P st'

  module _ {ℓ} (P : Store → Type ℓ) (kept : IsKept P) where
    pub run_call-keeps : (call : PairingCall) (st : Store) → P st → P (run_call call st)
    unfolding create verify_proof approve revoke consume_nonce
    run_call-keeps (creating request) st h =
        committed_keeps P st (create_tx crypto request st) h
          (λ a st' e. kept.by_create request st st' a e h)
    run_call-keeps (proving id challenge signature now) st h =
        committed_keeps P st (verify_tx crypto id challenge signature now st) h
          (λ a st' e. kept.by_verify id challenge signature now st st' a e h)
    run_call-keeps (approving id at expires_at agent_id) st h =
        committed_keeps P st (approve_tx id at expires_at agent_id st) h
          (λ a st' e. kept.by_approve id at expires_at agent_id st st' a e h)
    run_call-keeps (revoking agent_id at) st h =
        committed_keeps P st (revoke_tx agent_id at st) h
          (λ a st' e. kept.by_revoke agent_id at st st' a e h)
    run_call-keeps (consuming agent_id nonce now expires_at) st h =
        committed_keeps P st (consume_nonce_tx crypto agent_id nonce now expires_at st) h
          (λ a st' e. kept.by_consume agent_id nonce now expires_at st st' a e h)

    pub run_calls-keeps : (calls : List PairingCall) (st : Store) → P st → P (run_calls calls st)
    run_calls-keeps [] st h = h
    run_calls-keeps (call ∷ calls) st h =
        run_calls-keeps calls (run_call call st) (run_call-keeps call st h)
