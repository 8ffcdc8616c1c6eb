-- ===== src/Broker/SessionTests.antt =====
-- Runs of the session and replay methods of src/auth-broker/app/adapters/sqlite.py.
use mathai_ai_swarm_memory.Common.{
  ℕ, ◌≡◌, ◌≢◌, refl, true, List, [], ◌∷◌, some, none, String, Codes, codes, any, ok,
}
use mathai_ai_swarm_memory.Broker.Store.{Datetime, Store, empty_store}
use mathai_ai_swarm_memory.Broker.Sessions.{
  is_session, create_session, create_session_tx, active_session, revoke_session, consume_dpop_jti,
  consume_dpop_jti_tx,
}
use mathai_ai_swarm_memory.Broker.Sessions.Lifetime.{
  creating, revoking, run_calls, create_session-active_session, revoke_session_permanent,
}
use mathai_ai_swarm_memory.Broker.Sessions.Replay.{Check, run_checks, consume_dpop_jti_once}

program : Unit {0}
unfolding create_session create_session_tx active_session revoke_session consume_dpop_jti
    consume_dpop_jti_tx
program = tt

abbrev at : ℕ → Datetime
at n = record { instant = n; offset = some 1440 }

abbrev scopes : List Codes
scopes = codes "ctx:read" ∷ codes "ctx:propose" ∷ []

abbrev created : Store
created = (create_session "t" "s" scopes (at 1) (at 9) empty_store).1

creates : create_session "t" "s" scopes (at 1) (at 9) empty_store ≡ (ok tt, created)
unfolding program
creates = refl

create_session-active_session_example :
    active_session "t" (at 5) created
    ≡ ok (some record { token_hash = "t"; subject = "s"; scopes = scopes; expires_at = at 9 })
create_session-active_session_example =
    create_session-active_session "t" "s" scopes (at 1) (at 9) empty_store created (at 5) creates
      (refl, (refl, tt)) refl refl refl

knows : any (is_session "t") created.broker_sessions ≡ true
unfolding program
knows = refl

revoke_session_permanent_example :
    active_session "t" (at 5) (
      run_calls
        (creating "t" "s" scopes (at 3) (at 9) ∷ revoking "t" (at 4) ∷ [])
        (revoke_session "t" (at 2) created))
    ≡ ok none
revoke_session_permanent_example =
    revoke_session_permanent "t" (at 2) created knows
      (creating "t" "s" scopes (at 3) (at 9) ∷ revoking "t" (at 4) ∷ []) (at 5) refl

abbrev toy : String → String
toy jti = jti

abbrev consumed : Store
consumed = (consume_dpop_jti toy "j" (at 1) (at 9) empty_store).1

consumes : consume_dpop_jti toy "j" (at 1) (at 9) empty_store ≡ (ok tt, consumed)
unfolding program
consumes = refl

abbrev others : List Check
others = record { jti = "k"; now = at 2; expires_at = at 20 } ∷ []

consume_dpop_jti_once_example :
    (consume_dpop_jti toy "j" (at 8) (at 30) (run_checks toy others consumed)).0 ≢ ok tt
consume_dpop_jti_once_example =
    consume_dpop_jti_once toy "j" (at 1) (at 9) empty_store consumed consumes others (refl, tt)
      (at 8) (at 30) refl
