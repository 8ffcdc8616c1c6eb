-- ===== src/Broker/Pairing/Nonces.antt =====
-- Consumed nonces under the pairing calls of src/auth-broker/app/adapters/sqlite.py.
use mathai_ai_swarm_memory.Common.{
  ◌≡◌, ◌≢◌, refl, ◌∙◌, inl, inr, Bool, true, false, ◌&&◌, List, [], ◌∷◌, ◌++◌, All, any, any-append,
  any-delete_where, any_weaken, delete_where, or_true, String, Codes, ok, arith, eq_refl, le→leb,
}
use mathai_ai_swarm_memory.Broker.Store.{
  Datetime, is_before, is_at_most, NonceRow, Store, committed_keeps, committed-ok, committed-ran,
}
use mathai_ai_swarm_memory.Broker.Pairing.{Crypto, create, create_tx, verify_proof, verify_tx}
use mathai_ai_swarm_memory.Broker.Pairing.Agents.{
  is_nonce, approve, approve_tx, revoke, revoke_tx, consume_nonce, consume_nonce_tx,
}
use mathai_ai_swarm_memory.Broker.Pairing.Calls.{
  PairingCall, creating, proving, approving, revoking, consuming, run_call, run_calls,
}
use mathai_ai_swarm_memory.Broker.Pairing.Audit.{
  create_tx-stores, verify_tx-stores, approve_tx-stores, revoke_tx-stores,
}

-- A nonce of the agent that is held at least until then.
abbrev is_held : String → String → Datetime → NonceRow → Bool
is_held agent_id nonce_hash until n =
    is_nonce agent_id nonce_hash n && is_at_most until n.expires_at

-- A call that is not a nonce check at or after the given time.
abbrev pub is_earlier : Datetime → PairingCall → Bool
is_earlier until (consuming agent_id nonce now expires_at) = is_before now until
is_earlier until _ = true

-- The nonces without the expired ones.
abbrev purged : Datetime → List NonceRow → List NonceRow
purged now nonces = delete_where (λ (n : NonceRow). is_at_most n.expires_at now) nonces

purged-held :
    (agent_id nonce_hash : String) (until now : Datetime) (nonces : List NonceRow)
    → is_before now until ≡ true
    → any (is_held agent_id nonce_hash until) nonces ≡ true
    → any (is_held agent_id nonce_hash until) (purged now nonces) ≡ true
purged-held agent_id nonce_hash until now nonces early h =
    any-delete_where (is_held agent_id nonce_hash until)
      (λ (n : NonceRow). is_at_most n.expires_at now) nonces (λ x k. ground arith) h

module _ (crypto : Crypto) where
  consume_nonce_tx-nonces :
      (agent_id : String) (nonce : Codes) (now expires_at : Datetime) (st st' : Store)
      (a : Unit {0})
      → consume_nonce_tx crypto agent_id nonce now expires_at st ≡ ok (a, st')
      → (any (is_nonce agent_id (crypto.digest nonce)) (purged now st.consumed_nonces) ≡ false)
        × (st'.consumed_nonces ≡ (
            purged now st.consumed_nonces
            ++ record {
              agent_id = agent_id;
              nonce_hash = crypto.digest nonce;
              expires_at = expires_at;
            }
              ∷ []))
  unfolding consume_nonce_tx
  consume_nonce_tx-nonces agent_id nonce now expires_at st st' a h = (ground arith, ground arith)

  module _ (agent_id nonce_hash : String) (until : Datetime) where
    -- The nonce is in the table, with an expiry no earlier than that.
    abbrev IsHeld : Store → Type 0
    IsHeld st = any (is_held agent_id nonce_hash until) st.consumed_nonces ≡ true

    run_call-IsHeld :
        (call : PairingCall) (st : Store)
        → is_earlier until call ≡ true
        → IsHeld st
        → IsHeld (run_call crypto call st)
    unfolding create verify_proof approve revoke consume_nonce
    run_call-IsHeld (creating request) st early h =
        committed_keeps IsHeld st (create_tx crypto request st) h
          (λ a st' e. rw ((create_tx-stores crypto request st st' a e).1) h)
    run_call-IsHeld (proving id challenge signature now) st early h =
        committed_keeps IsHeld st (verify_tx crypto id challenge signature now st) h (λ a st' e.
          let (row, found, status, after) =
            verify_tx-stores crypto id challenge signature now st st' a e in
          rw after h)
    run_call-IsHeld (approving id at expires_at new_id) st early h =
        committed_keeps IsHeld st (approve_tx id at expires_at new_id st) h (λ a st' e.
          let (row, found, status, after) = approve_tx-stores id at expires_at new_id st st' a e in
          rw after h)
    run_call-IsHeld (revoking other at) st early h =
        committed_keeps IsHeld st (revoke_tx other at st) h (λ a st' e.
          elim (revoke_tx-stores other at st st' a e) [
            | inl (nothing, same) ↦ rw same h
            | inr (x, found, after) ↦ rw after h
          ])
    run_call-IsHeld (consuming other nonce now expires_at) st early h =
        committed_keeps IsHeld st (consume_nonce_tx crypto other nonce now expires_at st) h
          (λ a st' e. rw ((consume_nonce_tx-nonces other nonce now expires_at st st' a e).1) (
            any-append (is_held agent_id nonce_hash until) (purged now st.consumed_nonces) _
            ∙ rw (purged-held agent_id nonce_hash until now st.consumed_nonces early h) refl))

    run_calls-IsHeld :
        (calls : List PairingCall) (st : Store)
        → All (λ call. is_earlier until call ≡ true) calls
        → IsHeld st
        → IsHeld (run_calls crypto calls st)
    run_calls-IsHeld [] st early h = h
    run_calls-IsHeld (call ∷ calls) st early h =
        run_calls-IsHeld calls (run_call crypto call st) early.1 (run_call-IsHeld call st early.0 h)

  module _ (agent_id : String) (nonce : Codes) (now expires_at : Datetime) (st st' : Store)
      (done : consume_nonce crypto agent_id nonce now expires_at st ≡ (ok tt, st'))
      (calls : List PairingCall)
      (early : All (λ call. is_earlier expires_at call ≡ true) calls) where
    -- A nonce that an agent has used is not accepted from it again before it expires, whatever
    -- calls come in between, as long as no nonce check among them was at or after that time.
    pub nonce_single_use :
        (later expires_later : Datetime)
        → is_before later expires_at ≡ true
        → (consume_nonce crypto agent_id nonce later expires_later (run_calls crypto calls st')).0
          ≢ ok tt
    unfolding consume_nonce
    nonce_single_use later expires_later in_time again =
        let end = run_calls crypto calls st' in
        let ran =
          committed-ok st (consume_nonce_tx crypto agent_id nonce now expires_at st) tt st' done in
        let held : IsHeld agent_id (crypto.digest nonce) expires_at st' =
          rw ((consume_nonce_tx-nonces agent_id nonce now expires_at st st' tt ran).1) (
            any-append (is_held agent_id (crypto.digest nonce) expires_at)
              (purged now st.consumed_nonces) _
            ∙ rw (eq_refl agent_id) (
                rw (eq_refl (crypto.digest nonce))
                  (rw (le→leb expires_at.instant expires_at.instant (omega arith)) (or_true _)))) in
        let (last, ran') =
          committed-ran end (consume_nonce_tx crypto agent_id nonce later expires_later end) tt
            again in
        let kept =
          purged-held agent_id (crypto.digest nonce) expires_at later end.consumed_nonces in_time
            (run_calls-IsHeld agent_id (crypto.digest nonce) expires_at calls st' early held) in
        let present =
          any_weaken (is_held agent_id (crypto.digest nonce) expires_at)
            (is_nonce agent_id (crypto.digest nonce)) (purged later end.consumed_nonces)
            (λ x k. ground arith) kept in
        let absent =
          (consume_nonce_tx-nonces agent_id nonce later expires_later end last tt ran').0 in
        ground arith
