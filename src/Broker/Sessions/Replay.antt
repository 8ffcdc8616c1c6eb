-- ===== src/Broker/Sessions/Replay.antt =====
-- Consumed DPoP proofs (`consume_dpop_jti` of src/auth-broker/app/adapters/sqlite.py).
use mathai_ai_swarm_memory.Common.{
  ◌≡◌, ◌≢◌, refl, ◌∙◌, Bool, true, false, ◌&&◌, List, [], ◌∷◌, ◌++◌, All, any, any-append,
  any-delete_where, any_weaken, le→leb, or_true, String, eq_refl, ok, arith,
}
use mathai_ai_swarm_memory.Broker.Store.{
  Datetime, is_before, is_at_most, ReplayRow, Store, committed_keeps, committed-ok, committed-ran,
}
use mathai_ai_swarm_memory.Broker.Sessions.{
  is_replay, purged_replays, consume_dpop_jti, consume_dpop_jti_tx,
}

-- One check of a proof.
pub record Check : Type 0 where
  pub jti : String
  pub now : Datetime
  pub expires_at : Datetime

-- A digest that is held at least until then.
abbrev is_held : String → Datetime → ReplayRow → Bool
is_held hash until r = is_replay hash r && is_at_most until r.expires_at

module _ (digest : String → String) where
  abbrev pub run_checks : List Check → Store → Store
  run_checks [] st = st
  run_checks (c ∷ checks) st =
      run_checks checks (consume_dpop_jti digest c.jti c.now c.expires_at st).1

  consume_dpop_jti_tx-replays :
      (jti : String) (now expires_at : Datetime) (st st' : Store) (a : Unit {0})
      → consume_dpop_jti_tx digest jti now expires_at st ≡ ok (a, st')
      → (any (is_replay (digest jti)) (purged_replays now st.dpop_replays) ≡ false)
        × (st'.dpop_replays ≡ (
            purged_replays now st.dpop_replays
            ++ record { jti_hash = digest jti; expires_at = expires_at } ∷ []))
  unfolding consume_dpop_jti_tx
  consume_dpop_jti_tx-replays jti now expires_at st st' a h = (ground arith, ground arith)

  module _ (hash : String) (until : Datetime) where
    abbrev IsHeld : Store → Type 0
    IsHeld st = any (is_held hash until) st.dpop_replays ≡ true

    purged-held :
        (now : Datetime) (st : Store)
        → is_before now until ≡ true
        → IsHeld st
        → any (is_held hash until) (purged_replays now st.dpop_replays) ≡ true
    purged-held now st early h =
        any-delete_where (is_held hash until) (λ (r : ReplayRow). is_at_most r.expires_at now)
          st.dpop_replays (λ x k. ground arith) h

    run_checks-IsHeld :
        (checks : List Check) (st : Store)
        → All (λ (c : Check). is_before c.now until ≡ true) checks
        → IsHeld st
        → IsHeld (run_checks checks st)
    unfolding consume_dpop_jti
    run_checks-IsHeld [] st early h = h
    run_checks-IsHeld (c ∷ checks) st early h =
        run_checks-IsHeld checks (consume_dpop_jti digest c.jti c.now c.expires_at st).1 early.1 (
          committed_keeps IsHeld st (consume_dpop_jti_tx digest c.jti c.now c.expires_at st) h
            (λ a st' e. rw ((consume_dpop_jti_tx-replays c.jti c.now c.expires_at st st' a e).1) (
              any-append (is_held hash until) (purged_replays c.now st.dpop_replays) _
              ∙ rw (purged-held c.now st early.0 h) refl)))

  -- A proof whose jti was accepted is not accepted again before it expires, whatever checks come
  -- in between, as long as none of them was at or after that time.
  pub consume_dpop_jti_once :
      (jti : String) (now expires_at : Datetime) (st st' : Store)
      → consume_dpop_jti digest jti now expires_at st ≡ (ok tt, st')
      → (checks : List Check) → All (λ (c : Check). is_before c.now expires_at ≡ true) checks
      → (later expires_later : Datetime) → is_before later expires_at ≡ true
      → (consume_dpop_jti digest jti later expires_later (run_checks checks st')).0 ≢ ok tt
  unfolding consume_dpop_jti
  consume_dpop_jti_once jti now expires_at st st' done checks early later expires_later in_time
        again =
      let end = run_checks checks st' in
      let ran = committed-ok st (consume_dpop_jti_tx digest jti now expires_at st) tt st' done in
      let held : IsHeld (digest jti) expires_at st' =
        rw ((consume_dpop_jti_tx-replays jti now expires_at st st' tt ran).1) (
          any-append (is_held (digest jti) expires_at) (purged_replays now st.dpop_replays) _
          ∙ rw (eq_refl (digest jti))
              (rw (le→leb expires_at.instant expires_at.instant (omega arith)) (or_true _))) in
      let (last, ran') =
        committed-ran end (consume_dpop_jti_tx digest jti later expires_later end) tt again in
      let kept =
        purged-held (digest jti) expires_at later end in_time
          (run_checks-IsHeld (digest jti) expires_at checks st' early held) in
      let present =
        any_weaken (is_held (digest jti) expires_at) (is_replay (digest jti))
          (purged_replays later end.dpop_replays) (λ x k. ground arith) kept in
      let absent = (consume_dpop_jti_tx-replays jti later expires_later end last tt ran').0 in
      ground arith
