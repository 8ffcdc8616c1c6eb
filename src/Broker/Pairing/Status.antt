-- ===== src/Broker/Pairing/Status.antt =====
-- The status of a pairing request under the calls of src/auth-broker/app/adapters/sqlite.py.
use mathai_ai_swarm_memory.Common.{
  ℕ, ◌≡◌, ◌≢◌, ◌≤◌, refl, ◌∙◌, ap, sym, inl, inr, List, some, find, find-append, find-update_where,
  find-holds, if◌then◌else◌, String, eq_iff, Codes, ok, arith, Bool-cases,
}
use mathai_ai_swarm_memory.Broker.Store.{
  Datetime, PairingRow, PairingStatus, pending, proof_verified, approved, Store, committed-ok,
  committed-ran,
}
use mathai_ai_swarm_memory.Broker.Pairing.{
  Crypto, is_request, with_status, set_status, verify_proof, verify_tx,
}
use mathai_ai_swarm_memory.Broker.Pairing.Agents.{ActiveAgent, approve, approve_tx}
use mathai_ai_swarm_memory.Broker.Pairing.Calls.{PairingCall, IsKept, run_calls, run_calls-keeps}
use mathai_ai_swarm_memory.Broker.Pairing.Audit.{
  create_tx-stores, verify_tx-stores, approve_tx-stores, revoke_tx-stores, consume_nonce_tx-stores,
}

-- How far a request has come.
abbrev pub rank : PairingStatus → ℕ
rank pending = 0
rank proof_verified = 1
rank approved = 2

-- The request is there and has come at least this far.
pub record HasRank (id : String) (n : ℕ) (st : Store) : Type 0 where
  pub row : PairingRow
  pub found : find (is_request id) st.pairing_requests ≡ some row
  pub reached : n ≤ rank row.status

same_requests-HasRank :
    (id : String) (n : ℕ) (st st' : Store)
    → st'.pairing_requests ≡ st.pairing_requests
    → HasRank id n st
    → HasRank id n st'
same_requests-HasRank id n st st' e h = record {
  row = h.row;
  found = ap (find (is_request id)) e ∙ h.found;
  reached = h.reached;
}

found_after :
    (id other : String) (status : PairingStatus) (st : Store) (row : PairingRow)
    → find (is_request id) st.pairing_requests ≡ some row
    → find (is_request id) (set_status other status st).pairing_requests
      ≡ some (if is_request other row then with_status status row else row)
found_after id other status st row h =
    find-update_where (is_request id) (is_request other) (with_status status) st.pairing_requests
      (λ x. refl)
    ∙ rw h refl

-- A new status of the same or of another request.
set_status-HasRank :
    (id other : String) (n : ℕ) (status : PairingStatus) (st : Store) (row : PairingRow)
    → find (is_request other) st.pairing_requests ≡ some row
    → rank row.status ≤ rank status
    → HasRank id n st
    → HasRank id n (set_status other status st)
set_status-HasRank id other n status st row found up h = record {
  row = if is_request other h.row then with_status status h.row else h.row;
  found = found_after id other status st h.row h.found;
  reached = elim (Bool-cases (is_request other h.row)) [
    | inl same ↦
        let here : id ≡ other =
          sym
            ((eq_iff h.row.id id).0 (find-holds (is_request id) st.pairing_requests h.row h.found))
          ∙ (eq_iff h.row.id other).0 same in
        let both : some row ≡ some h.row =
          sym found ∙ ap (λ x. find (is_request x) st.pairing_requests) (sym here) ∙ h.found in
        let row_same : row ≡ h.row = cc in rw same (ground (arith, h.reached, up))
    | inr differs ↦ rw differs h.reached
  ];
}

module _ (crypto : Crypto) (id : String) (n : ℕ) where
  kept : IsKept crypto (HasRank id n)
  kept = record {
    by_create = λ request st st' a e h. record {
      row = h.row;
      found =
          ap (λ (x : Store). find (is_request id) x.pairing_requests)
            (create_tx-stores crypto request st st' a e).1
          ∙ find-append (is_request id) st.pairing_requests _
          ∙ rw h.found refl;
      reached = h.reached;
    };
    by_verify = λ other challenge signature now st st' a e h.
        let (row, found, status, after) =
          verify_tx-stores crypto other challenge signature now st st' a e in
        same_requests-HasRank id n (set_status other proof_verified st) st'
          (ap (λ (s : Store). s.pairing_requests) after)
          (set_status-HasRank id other n proof_verified st row found (ground arith) h);
    by_approve = λ other at expires_at agent_id st st' a e h.
        let (row, found, status, after) =
          approve_tx-stores other at expires_at agent_id st st' a e in
        same_requests-HasRank id n (set_status other approved st) st'
          (ap (λ (s : Store). s.pairing_requests) after)
          (set_status-HasRank id other n approved st row found (ground arith) h);
    by_revoke = λ agent_id at st st' a e h. elim (revoke_tx-stores agent_id at st st' a e) [
      | inl (nothing, same) ↦ rw same h
      | inr (x, found, after) ↦
          same_requests-HasRank id n st st' (ap (λ (s : Store). s.pairing_requests) after) h
    ];
    by_consume = λ agent_id nonce now expires_at st st' a e h.
        same_requests-HasRank id n st st'
          ((consume_nonce_tx-stores crypto agent_id nonce now expires_at st st' a e).0) h;
  }

  -- The status of a request never goes back, whatever calls follow.
  pub status_rises :
      (calls : List PairingCall) (st : Store)
      → HasRank id n st
      → HasRank id n (run_calls crypto calls st)
  status_rises calls st h = run_calls-keeps crypto (HasRank id n) kept calls st h

verify_tx-HasRank :
    (crypto : Crypto) (id : String) (challenge signature : Codes) (now : Datetime) (st st' : Store)
    → verify_tx crypto id challenge signature now st ≡ ok (tt, st')
    → HasRank id 1 st'
verify_tx-HasRank crypto id challenge signature now st st' e =
    let (row, found, status, after) =
      verify_tx-stores crypto id challenge signature now st st' tt e in
    record {
      row = if is_request id row then with_status proof_verified row else row;
      found =
          ap (λ (s : Store). find (is_request id) s.pairing_requests) after
          ∙ found_after id id proof_verified st row found;
      reached = rw (find-holds (is_request id) st.pairing_requests row found) (omega arith);
    }

approve_tx-HasRank :
    (id : String) (at expires_at : Datetime) (agent_id : String) (st st' : Store) (a : ActiveAgent)
    → approve_tx id at expires_at agent_id st ≡ ok (a, st')
    → HasRank id 2 st'
approve_tx-HasRank id at expires_at agent_id st st' a e =
    let (row, found, status, after) = approve_tx-stores id at expires_at agent_id st st' a e in
    record {
      row = if is_request id row then with_status approved row else row;
      found =
          ap (λ (s : Store). find (is_request id) s.pairing_requests) after
          ∙ found_after id id approved st row found;
      reached = rw (find-holds (is_request id) st.pairing_requests row found) (omega arith);
    }

-- The rank that a found request shows is the one that the store has reached.
rank_found :
    (id : String) (n : ℕ) (st : Store) (row : PairingRow)
    → HasRank id n st
    → find (is_request id) st.pairing_requests ≡ some row
    → n ≤ rank row.status
rank_found id n st row h found =
    let both : some h.row ≡ some row = sym h.found ∙ found in
    let same : h.row ≡ row = cc in ground (arith, h.reached)

module _ (crypto : Crypto) (id : String) (challenge signature : Codes) (now : Datetime)
    (st st' : Store) (done : verify_proof crypto id challenge signature now st ≡ (ok tt, st'))
    (calls : List PairingCall) where
  -- Once a proof for a request has been accepted, no later proof for it is, whatever calls come in
  -- between.
  pub verify_proof_once :
      (challenge' signature' : Codes) (later : Datetime)
      → (verify_proof crypto id challenge' signature' later (run_calls crypto calls st')).0 ≢ ok tt
  unfolding verify_proof
  verify_proof_once challenge' signature' later again =
      let now_verified =
        verify_tx-HasRank crypto id challenge signature now st st'
          (committed-ok st _ tt st' done) in
      let end = run_calls crypto calls st' in
      let h = status_rises crypto id 1 calls st' now_verified in
      let (last, ran) =
        committed-ran end (verify_tx crypto id challenge' signature' later end) tt again in
      let (row, found, status, after) =
        verify_tx-stores crypto id challenge' signature' later end last tt ran in
      let reached = rank_found id 1 end row h found in ground arith

module _ (crypto : Crypto) (id : String) (at expires_at : Datetime) (agent_id : String)
    (st st' : Store) (agent : ActiveAgent)
    (done : approve id at expires_at agent_id st ≡ (ok agent, st')) (calls : List PairingCall) where
  -- Once a request has been approved, no later approval of it gives an agent, whatever calls come
  -- in between.
  pub approve_once :
      (later expires_later : Datetime) (new_id : String) (other : ActiveAgent)
      → (approve id later expires_later new_id (run_calls crypto calls st')).0 ≢ ok other
  unfolding approve
  approve_once later expires_later new_id other again =
      let now_approved =
        approve_tx-HasRank id at expires_at agent_id st st' agent
          (committed-ok st _ agent st' done) in
      let end = run_calls crypto calls st' in
      let h = status_rises crypto id 2 calls st' now_approved in
      let (last, ran) =
        committed-ran end (approve_tx id later expires_later new_id end) other again in
      let (row, found, status, after) =
        approve_tx-stores id later expires_later new_id end last other ran in
      let reached = rank_found id 2 end row h found in ground arith
