-- ===== src/Broker/PairingTests.antt =====
-- Runs of the pairing calls of src/auth-broker/app/adapters/sqlite.py on concrete inputs.
use mathai_ai_swarm_memory.Common.{
  ℕ, ◌≡◌, ◌≢◌, refl, arith, true, List, [], ◌∷◌, some, none, if◌then◌else◌, String, Codes, codes_eq,
  str_eq, ok, any,
}
use mathai_ai_swarm_memory.Broker.Store.{
  Datetime, Store, empty_store, AgentRow, PairingRow, pending, proof_verified,
}
use mathai_ai_swarm_memory.Broker.Pairing.{
  Crypto, PairingRequest, create, create_tx, verify_proof, verify_tx, verify_request, request_row,
}
use mathai_ai_swarm_memory.Broker.Pairing.Agents.{
  ActiveAgent, approve, approve_tx, insert_agent, joined_agent, active_agent, revoke, revoke_tx,
  consume_nonce, consume_nonce_tx,
}
use mathai_ai_swarm_memory.Broker.Pairing.Calls.{
  PairingCall, creating, proving, approving, revoking, consuming, run_calls,
}
use mathai_ai_swarm_memory.Broker.Pairing.Logged.{is_proof, is_approval}
use mathai_ai_swarm_memory.Broker.Pairing.Proved.{active_agent_proved}
use mathai_ai_swarm_memory.Broker.Pairing.Status.{
  HasRank, status_rises, verify_proof_once, approve_once,
}
use mathai_ai_swarm_memory.Broker.Pairing.Revoked.{revoke_permanent}
use mathai_ai_swarm_memory.Broker.Pairing.Nonces.{nonce_single_use}

program : Unit {0}
unfolding create create_tx verify_proof verify_tx verify_request request_row approve approve_tx
    insert_agent joined_agent active_agent revoke revoke_tx consume_nonce consume_nonce_tx
program = tt

abbrev at : ℕ → Datetime
at n = record { instant = n; offset = some 1440 }

-- A signature is good when it is the message itself.
abbrev toy : Crypto
toy = record {
  digest = λ message. if codes_eq message (7 ∷ []) then "seven" else "other";
  is_public_key = λ key. str_eq key "pk";
  verifies = λ key signature message. codes_eq signature message;
}

abbrev request : PairingRequest
request = record {
  id = "r";
  public_key = "pk";
  challenge = 7 ∷ [];
  created_at = at 0;
  expires_at = at 600;
  status = pending;
}

abbrev pair : List PairingCall
pair =
    creating request
    ∷ proving "r" (7 ∷ []) (7 ∷ []) (at 1)
    ∷ approving "r" (at 2) (at 1000) "a"
    ∷ []

abbrev paired : Store
paired = run_calls toy pair empty_store

abbrev agent : ActiveAgent
agent = record { id = "a"; public_key = "pk"; approved_at = at 2; expires_at = at 1000 }

is_active : active_agent "a" (at 5) paired ≡ ok (some agent)
unfolding program
is_active = refl

active_agent_proved_example :
    (request_id : String) × (any (is_proof request_id) paired.audit_events ≡ true)
    × (any (is_approval request_id "a") paired.audit_events ≡ true)
active_agent_proved_example = active_agent_proved toy pair "a" (at 5) agent is_active

abbrev created : Store
created = run_calls toy (creating request ∷ []) empty_store

abbrev proved : Store
proved = (verify_proof toy "r" (7 ∷ []) (7 ∷ []) (at 1) created).1

proves : verify_proof toy "r" (7 ∷ []) (7 ∷ []) (at 1) created ≡ (ok tt, proved)
unfolding program
proves = refl

verify_proof_once_example :
    (verify_proof toy "r" (7 ∷ []) (7 ∷ []) (at 3) (run_calls toy (creating request ∷ []) proved)).0
    ≢ ok tt
verify_proof_once_example =
    verify_proof_once toy "r" (7 ∷ []) (7 ∷ []) (at 1) created proved proves (creating request ∷ [])
      (7 ∷ []) (7 ∷ []) (at 3)

approves : approve "r" (at 2) (at 1000) "a" proved ≡ (ok agent, paired)
unfolding program
approves = refl

approve_once_example :
    (approve "r" (at 4) (at 1000) "b" (run_calls toy (revoking "a" (at 3) ∷ []) paired)).0
    ≢ ok (record agent { id = "b" })
approve_once_example =
    approve_once toy "r" (at 2) (at 1000) "a" proved paired agent approves
      (revoking "a" (at 3) ∷ []) (at 4) (at 1000) "b" (record agent { id = "b" })

abbrev proved_row : PairingRow
proved_row = record {
  id = "r";
  public_key = "pk";
  challenge_hash = "seven";
  created_at = at 0;
  expires_at = at 600;
  status = proof_verified;
}

HasRank-proved : HasRank "r" 1 proved
unfolding program
HasRank-proved = record { row = proved_row; found = refl; reached = omega arith }

status_rises_example :
    HasRank "r" 1 (run_calls toy (approving "r" (at 2) (at 1000) "a" ∷ []) proved)
status_rises_example =
    status_rises toy "r" 1 (approving "r" (at 2) (at 1000) "a" ∷ []) proved HasRank-proved

abbrev agent_row : AgentRow
agent_row = record {
  id = "a";
  request_id = "r";
  public_key = "pk";
  approved_at = at 2;
  expires_at = at 1000;
  revoked_at = none;
}

revoke_permanent_example :
    active_agent "a"
      (at 9)
      (run_calls toy (approving "r" (at 8) (at 1000) "a" ∷ []) (revoke "a" (at 6) paired).1)
    ≡ ok none
unfolding program
revoke_permanent_example =
    revoke_permanent toy "a" (at 6) paired agent_row refl refl
      (approving "r" (at 8) (at 1000) "a" ∷ []) (at 9) refl

abbrev nonce : Codes
nonce =
    1 ∷ 2 ∷ 3 ∷ 4 ∷ 5 ∷ 6 ∷ 7 ∷ 8 ∷ 1 ∷ 2 ∷ 3 ∷ 4 ∷ 5 ∷ 6 ∷ 7 ∷ 8 ∷ 1 ∷ 2 ∷ 3 ∷ 4 ∷ 5 ∷ 6 ∷ 7 ∷ 8
    ∷ 1 ∷ 2 ∷ 3 ∷ 4 ∷ 5 ∷ 6 ∷ 7 ∷ 8 ∷ []

abbrev consumed : Store
consumed = (consume_nonce toy "a" nonce (at 5) (at 50) paired).1

consumes : consume_nonce toy "a" nonce (at 5) (at 50) paired ≡ (ok tt, consumed)
unfolding program
consumes = refl

nonce_single_use_example :
    (consume_nonce toy "a" nonce
      (at 9)
      (at 90)
      (run_calls toy (consuming "a" nonce (at 8) (at 80) ∷ []) consumed)).0
    ≢ ok tt
unfolding program
nonce_single_use_example =
    nonce_single_use toy "a" nonce (at 5) (at 50) paired consumed consumes
      (consuming "a" nonce (at 8) (at 80) ∷ []) (refl, tt) (at 9) (at 90) refl
