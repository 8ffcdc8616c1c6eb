-- ===== src/Broker/Sessions/Lifetime.antt =====
-- The life of a broker session (src/auth-broker/app/adapters/sqlite.py).
use mathai_ai_swarm_memory.Common.{
  ◌≡◌, refl, ap, ◌∙◌, sym, inl, inr, true, false, List, [], ◌∷◌, ◌++◌, none, some, find,
  find-append, any, any-append, update_where, eq_refl, All, is_word, words-join_words, String,
  str_eq, Codes, ok, arith, Bool-cases, eq_iff,
}
use mathai_ai_swarm_memory.Broker.Store.{
  Datetime, is_aware, is_before, is_at_most, SessionRow, Store, committed-ok, committed_keeps,
}
use mathai_ai_swarm_memory.Broker.Sessions.{
  is_session, is_unrevoked_session, new_session, create_session, create_session_tx, active_session,
  revoke_session, revoke_session_row,
}

-- A call that writes sessions.
pub data SessionCall : Type 0 where
  creating : String → String → List Codes → Datetime → Datetime → SessionCall
  revoking : String → Datetime → SessionCall

abbrev pub run_call : SessionCall → Store → Store
run_call (creating token_hash subject scopes issued_at expires_at) st =
    (create_session token_hash subject scopes issued_at expires_at st).1
run_call (revoking token_hash now) st = revoke_session token_hash now st

abbrev pub run_calls : List SessionCall → Store → Store
run_calls [] st = st
run_calls (call ∷ calls) st = run_calls calls (run_call call st)

any-find-none :
    (token_hash : String) (rows : List SessionRow)
    → any (is_session token_hash) rows ≡ false
    → find (is_unrevoked_session token_hash) rows ≡ none
any-find-none token_hash [] h = refl
any-find-none token_hash (s ∷ rows) h = ground (arith, any-find-none token_hash rows)

-- A session that was created is active from its issue to its expiry, with the subject and the very
-- scopes that it was given, when no scope is empty or has white space.
pub create_session-active_session :
    (token_hash subject : String) (scopes : List Codes) (issued_at expires_at : Datetime)
    (st st' : Store) (now : Datetime)
    → create_session token_hash subject scopes issued_at expires_at st ≡ (ok tt, st')
    → All (λ w. is_word w ≡ true) scopes
    → is_aware now ≡ true
    → is_at_most issued_at now ≡ true
    → is_before now expires_at ≡ true
    → active_session token_hash now st'
      ≡ ok (
          some record {
            token_hash = token_hash;
            subject = subject;
            scopes = scopes;
            expires_at = expires_at;
          })
unfolding create_session create_session_tx active_session
create_session-active_session token_hash subject scopes issued_at expires_at st st' now created
      plain time after before =
    let ran =
      committed-ok st (create_session_tx token_hash subject scopes issued_at expires_at st) tt st'
        created in
    let free : any (is_session token_hash) st.broker_sessions ≡ false = ground arith in
    let rows : st'.broker_sessions
        ≡ st.broker_sessions ++ new_session token_hash subject scopes issued_at expires_at ∷ [] =
      ground arith in
    let found : find (is_unrevoked_session token_hash) st'.broker_sessions
        ≡ some (new_session token_hash subject scopes issued_at expires_at) =
      ap (find (is_unrevoked_session token_hash)) rows
      ∙ find-append (is_unrevoked_session token_hash) st.broker_sessions _
      ∙ rw (any-find-none token_hash st.broker_sessions free) (rw (eq_refl token_hash) refl) in
    rw time (rw found (rw after (rw before (rw (words-join_words scopes plain) refl))))

-- The session is there, and every row of its token is revoked.
record IsEnded (token_hash : String) (st : Store) : Type 0 where
  known : any (is_session token_hash) st.broker_sessions ≡ true
  ended : find (is_unrevoked_session token_hash) st.broker_sessions ≡ none

any-update :
    (token_hash other : String) (now : Datetime) (rows : List SessionRow)
    → any
        (is_session token_hash)
        (update_where (is_unrevoked_session other) (revoke_session_row now) rows)
      ≡ any (is_session token_hash) rows
any-update token_hash other now [] = refl
any-update token_hash other now (s ∷ rows) = ground (arith, any-update token_hash other now rows)

find-update-none :
    (token_hash other : String) (now : Datetime) (rows : List SessionRow)
    → find (is_unrevoked_session token_hash) rows ≡ none
    → find
        (is_unrevoked_session token_hash)
        (update_where (is_unrevoked_session other) (revoke_session_row now) rows)
      ≡ none
find-update-none token_hash other now [] h = refl
find-update-none token_hash other now (s ∷ rows) h =
    ground (arith, find-update-none token_hash other now rows)

-- A revocation ends every row of its token.
find-update-own :
    (token_hash : String) (now : Datetime) (rows : List SessionRow)
    → find
        (is_unrevoked_session token_hash)
        (update_where (is_unrevoked_session token_hash) (revoke_session_row now) rows)
      ≡ none
find-update-own token_hash now [] = refl
find-update-own token_hash now (s ∷ rows) = ground (arith, find-update-own token_hash now rows)

create_session_tx-IsEnded :
    (token_hash other subject : String) (scopes : List Codes) (issued_at expires_at : Datetime)
    (st st' : Store) (a : Unit {0})
    → create_session_tx other subject scopes issued_at expires_at st ≡ ok (a, st')
    → IsEnded token_hash st
    → IsEnded token_hash st'
unfolding create_session_tx
create_session_tx-IsEnded token_hash other subject scopes issued_at expires_at st st' a e h =
    let row = new_session other subject scopes issued_at expires_at in
    let rows : st'.broker_sessions ≡ st.broker_sessions ++ row ∷ [] = ground arith in
    let free : any (is_session other) st.broker_sessions ≡ false = ground arith in
    record {
      known =
          ap (any (is_session token_hash)) rows
          ∙ any-append (is_session token_hash) st.broker_sessions (row ∷ [])
          ∙ rw h.known refl;
      ended =
          ap (find (is_unrevoked_session token_hash)) rows
          ∙ find-append (is_unrevoked_session token_hash) st.broker_sessions (row ∷ [])
          ∙ rw h.ended (elim (Bool-cases (str_eq other token_hash)) [
            | inl same ↦
                let name : other ≡ token_hash = (eq_iff other token_hash).0 same in
                let known = h.known in
                let taken : any (is_session token_hash) st.broker_sessions ≡ false =
                  rw (sym name) free in
                absurd (ground arith)
            | inr differs ↦ rw differs refl
          ]);
    }

run_call-IsEnded :
    (token_hash : String) (call : SessionCall) (st : Store)
    → IsEnded token_hash st
    → IsEnded token_hash (run_call call st)
unfolding create_session revoke_session
run_call-IsEnded token_hash (creating other subject scopes issued_at expires_at) st h =
    committed_keeps (IsEnded token_hash) st
      (create_session_tx other subject scopes issued_at expires_at st) h
      (λ a st' e.
        create_session_tx-IsEnded token_hash other subject scopes issued_at expires_at st st' a e h)
run_call-IsEnded token_hash (revoking other now) st h = record {
  known = any-update token_hash other now st.broker_sessions ∙ h.known;
  ended = find-update-none token_hash other now st.broker_sessions h.ended;
}

run_calls-IsEnded :
    (token_hash : String) (calls : List SessionCall) (st : Store)
    → IsEnded token_hash st
    → IsEnded token_hash (run_calls calls st)
run_calls-IsEnded token_hash [] st h = h
run_calls-IsEnded token_hash (call ∷ calls) st h =
    run_calls-IsEnded token_hash calls (run_call call st) (run_call-IsEnded token_hash call st h)

-- Once the session of a known token has been revoked, the token has no active session at any aware
-- time, whatever calls follow.
pub revoke_session_permanent :
    (token_hash : String) (at : Datetime) (st : Store)
    → any (is_session token_hash) st.broker_sessions ≡ true
    → (calls : List SessionCall) (now : Datetime) → is_aware now ≡ true
    → active_session token_hash now (run_calls calls (revoke_session token_hash at st)) ≡ ok none
unfolding active_session revoke_session
revoke_session_permanent token_hash at st known calls now time =
    let revoked = revoke_session token_hash at st in
    let ended : IsEnded token_hash revoked = record {
      known = any-update token_hash token_hash at st.broker_sessions ∙ known;
      ended = find-update-own token_hash at st.broker_sessions;
    } in
    let still = run_calls-IsEnded token_hash calls revoked ended in rw time (rw still.ended refl)
