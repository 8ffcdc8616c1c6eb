-- ===== src/Proposals/Outbox/Rises.antt =====
-- The states of a proposal (`ProposalStore` of src/auth-broker/app/proposals/store.py).
use mathai_ai_swarm_memory.Common.{
  ℕ, ◌≤◌, ◌≡◌, refl, sym, ap, ◌∙◌, inl, inr, not, ◌&&◌, List, [], ◌∷◌, ◌++◌, some, ltb,
  if◌then◌else◌, ◌==◌, find, find-append, find-update_where, find-holds, map_found, any, String,
  Codes, codes, codes_eq, codes_eq→≡, starts_with, arith, Option-cases, Bool-cases, Result-cases,
}
use mathai_ai_swarm_memory.Broker.Store.{Datetime, is_aware}
use mathai_ai_swarm_memory.Proposals.Outbox.{
  Status, rank, ProposalRecord, Outbox, has_id, has_key, Claim, claim_row, claim_checks, claim,
  advance, mark_branch, mark_commit, mark_pr,
}

-- A call that writes the outbox.
pub data OutboxCall : Type 0 where
  claiming : Claim → Datetime → OutboxCall
  branching : Codes → String → Datetime → OutboxCall
  filing : Codes → String → Datetime → OutboxCall
  opening : Codes → ℕ → Codes → Datetime → OutboxCall

-- The proposal is known, and its status is no lower than this.
pub record IsRanked (proposal_id : Codes) (n : ℕ) (rows : Outbox) : Type 0 where
  pub row : ProposalRecord
  pub found : find (has_id proposal_id) rows ≡ some row
  pub reached : n ≤ rank row.status

module _ (proposal_id : Codes) (n : ℕ) where
  append-IsRanked :
      (row : ProposalRecord) (rows : Outbox)
      → IsRanked proposal_id n rows
      → IsRanked proposal_id n (rows ++ row ∷ [])
  append-IsRanked row rows h = record {
    row = h.row;
    found = find-append (has_id proposal_id) rows (row ∷ []) ∙ rw (h.found) refl;
    reached = h.reached;
  }

  claim_row-IsRanked :
      (c : Claim) (row : ProposalRecord) (rows : Outbox)
      → IsRanked proposal_id n rows
      → IsRanked proposal_id n (claim_row c row rows).1
  unfolding claim_row
  claim_row-IsRanked c row rows h =
      elim (Option-cases (find (has_key c.workspace_id c.principal_id c.idempotency_key) rows)) [
        | inr (r, known) ↦ rw (known, claim_row) h
        | inl fresh ↦ elim (Bool-cases (any (has_id c.proposal_id) rows)) [
          | inl taken ↦ rw (fresh, taken, claim_row) h
          | inr unused ↦ rw (fresh, unused, claim_row) (append-IsRanked row rows h)
        ]
      ]

  advance-IsRanked :
      (other : Codes) (now : Datetime) (status : Status) (change : ProposalRecord → ProposalRecord)
      (rows : Outbox)
      → ((x : ProposalRecord) → (change x).proposal_id ≡ x.proposal_id)
      → IsRanked proposal_id n rows
      → IsRanked proposal_id n (advance other now status change rows).1
  unfolding advance
  advance-IsRanked other now status change rows same h =
      let next : ProposalRecord → ProposalRecord =
        λ x. record (change x) { status = status; updated_at = now } in
      let at =
        find-update_where (has_id proposal_id) (has_id other) next rows
          (λ x. ap (λ i. codes_eq i proposal_id) (same x))
        ∙ ap (map_found (λ x. if has_id other x then next x else x)) h.found in
      elim (Bool-cases (is_aware now)) [
        | inr naive ↦ rw (naive, advance) h
        | inl known ↦ elim (Option-cases (find (has_id other) rows)) [
          | inl lost ↦ rw (known, lost, advance) h
          | inr (r, there) ↦ elim (Bool-cases (ltb (rank status) (rank r.status))) [
            | inl back ↦ rw (known, there, back, advance) h
            | inr forward ↦
                rw (known, there, forward, advance)
                  (elim (Bool-cases (has_id other h.row)) [
                    | inr miss ↦ record {
                      row = h.row;
                      found = at ∙ rw miss refl;
                      reached = h.reached;
                    }
                    | inl hit ↦
                        let own = find-holds (has_id proposal_id) rows h.row h.found in
                        let named : other ≡ proposal_id =
                          sym (codes_eq→≡ h.row.proposal_id other hit)
                          ∙ codes_eq→≡ h.row.proposal_id proposal_id own in
                        let same_row : r ≡ h.row =
                          let one = sym there ∙ ap (λ i. find (has_id i) rows) named ∙ h.found in
                          cc in
                        let high : rank r.status ≡ rank h.row.status =
                          ap (λ (x : ProposalRecord). rank x.status) same_row in
                        let reached = h.reached in
                        record {
                          row = next h.row;
                          found = at ∙ rw hit refl;
                          reached = ground (arith, forward, high, reached);
                        }
                  ])
          ]
        ]
      ]

  mark_pr-IsRanked :
      (other : Codes) (number : ℕ) (url : Codes) (now : Datetime) (rows : Outbox)
      → IsRanked proposal_id n rows
      → IsRanked proposal_id n (mark_pr other number url now rows).1
  unfolding mark_pr
  mark_pr-IsRanked other number url now rows h =
      elim (Bool-cases (not (number == 0) && starts_with url (codes "https://"))) [
        | inr bad ↦ rw (bad, mark_pr) h
        | inl good ↦ rw (good, mark_pr) (advance-IsRanked other now _ _ rows (λ x. refl) h)
      ]

module _ (date_text : Datetime → Codes) where
  abbrev pub run_call : OutboxCall → Outbox → Outbox
  run_call (claiming c now) rows = (claim date_text c now rows).1
  run_call (branching proposal_id sha now) rows = (mark_branch proposal_id sha now rows).1
  run_call (filing proposal_id sha now) rows = (mark_commit proposal_id sha now rows).1
  run_call (opening proposal_id number url now) rows = (mark_pr proposal_id number url now rows).1

  abbrev pub run_calls : List OutboxCall → Outbox → Outbox
  run_calls [] rows = rows
  run_calls (call ∷ calls) rows = run_calls calls (run_call call rows)

  claim-IsRanked :
      (proposal_id : Codes) (n : ℕ) (c : Claim) (now : Datetime) (rows : Outbox)
      → IsRanked proposal_id n rows
      → IsRanked proposal_id n (claim date_text c now rows).1
  unfolding claim
  claim-IsRanked proposal_id n c now rows h = elim (Result-cases (claim_checks date_text c now)) [
    | inr (e, refused) ↦ rw (refused, claim) h
    | inl (row, checked) ↦ rw (checked, claim) (claim_row-IsRanked proposal_id n c row rows h)
  ]

  run_call-IsRanked :
      (proposal_id : Codes) (n : ℕ) (call : OutboxCall) (rows : Outbox)
      → IsRanked proposal_id n rows
      → IsRanked proposal_id n (run_call call rows)
  unfolding mark_branch mark_commit
  run_call-IsRanked proposal_id n (claiming c now) rows h =
      claim-IsRanked proposal_id n c now rows h
  run_call-IsRanked proposal_id n (branching other sha now) rows h =
      advance-IsRanked proposal_id n other now _ _ rows (λ x. refl) h
  run_call-IsRanked proposal_id n (filing other sha now) rows h =
      advance-IsRanked proposal_id n other now _ _ rows (λ x. refl) h
  run_call-IsRanked proposal_id n (opening other number url now) rows h =
      mark_pr-IsRanked proposal_id n other number url now rows h

  -- A known proposal stays known and its status never goes back, whatever calls claim or mark
  -- proposals.
  pub advance_rises :
      (proposal_id : Codes) (n : ℕ) (calls : List OutboxCall) (rows : Outbox)
      → IsRanked proposal_id n rows
      → IsRanked proposal_id n (run_calls calls rows)
  advance_rises proposal_id n [] rows h = h
  advance_rises proposal_id n (call ∷ calls) rows h =
      advance_rises proposal_id n calls (run_call call rows)
        (run_call-IsRanked proposal_id n call rows h)
