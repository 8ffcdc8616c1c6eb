-- ===== src/Proposals/Publish/Held.antt =====
-- What claims and marks of other proposals leave of a published one (`claim` and `_advance` of
-- src/auth-broker/app/proposals/store.py).
use mathai_ai_swarm_memory.Common.{
  ◌≡◌, refl, sym, ap, ◌∙◌, inl, inr, Bool, false, [], ◌∷◌, some, ltb, if◌then◌else◌, find,
  find-append, find-update_where, find-holds, map_found, any, String, Codes, codes_eq, codes_eq→≡,
  Result, ok, ok-injective, arith, Option-cases, Bool-cases,
}
use mathai_ai_swarm_memory.Broker.Store.{Datetime, is_aware}
use mathai_ai_swarm_memory.Proposals.Schema.{ProposalError}
use mathai_ai_swarm_memory.Proposals.Outbox.{
  Status, rank, ProposalRecord, Outbox, has_id, has_key, Claim, read_back, claim_row, asserted,
  advance,
}

-- The row that an advance returns has its id.
read_back-id :
    (proposal_id : Codes) (rows : Outbox) (r : ProposalRecord)
    → asserted (read_back proposal_id rows) ≡ ok r
    → r.proposal_id ≡ proposal_id
unfolding asserted
read_back-id proposal_id rows r h = elim (Option-cases (find (has_id proposal_id) rows)) [
  | inl lost ↦ absurd (ground (arith, lost))
  | inr (x, found) ↦
      let same : x ≡ r = ground (arith, found) in
      sym (ap (λ (y : ProposalRecord). y.proposal_id) same)
      ∙ codes_eq→≡ x.proposal_id proposal_id (find-holds (has_id proposal_id) rows x found)
]

-- The key of a proposal.
pub record Key : Type 0 where
  pub workspace_id : String
  pub principal_id : String
  pub idempotency_key : String

abbrev pub is_of : Key → ProposalRecord → Bool
is_of k = has_key k.workspace_id k.principal_id k.idempotency_key

-- This row is found by the key and by its id.
pub record IsHeld (k : Key) (row : ProposalRecord) (rows : Outbox) : Type 0 where
  pub by_key : find (is_of k) rows ≡ some row
  pub by_id : find (has_id row.proposal_id) rows ≡ some row

module _ (k : Key) (row : ProposalRecord) where
  pub claim_row-IsHeld :
      (c : Claim) (new : ProposalRecord) (rows : Outbox)
      → IsHeld k row rows
      → IsHeld k row (claim_row c new rows).1
  unfolding claim_row
  claim_row-IsHeld c new rows h =
      elim (Option-cases (find (has_key c.workspace_id c.principal_id c.idempotency_key) rows)) [
        | inr (r, known) ↦ rw (known, claim_row) h
        | inl fresh ↦ elim (Bool-cases (any (has_id c.proposal_id) rows)) [
          | inl taken ↦ rw (fresh, taken, claim_row) h
          | inr unused ↦
              rw (fresh, unused, claim_row)
                (record {
                  by_key = find-append (is_of k) rows (new ∷ []) ∙ rw (h.by_key) refl;
                  by_id = find-append (has_id row.proposal_id) rows (new ∷ []) ∙ rw (h.by_id) refl;
                })
        ]
      ]

  -- What an advance of another proposal returns and leaves.
  abbrev pub IsKept : Codes → Result ProposalError ProposalRecord × Outbox → Type 0
  IsKept other o = IsHeld k row o.1 × ((r : ProposalRecord) → o.0 ≡ ok r → r.proposal_id ≡ other)

  pub advance-IsKept :
      (other : Codes) (now : Datetime) (status : Status) (change : ProposalRecord → ProposalRecord)
      (rows : Outbox)
      → ((x : ProposalRecord) → (change x).proposal_id ≡ x.proposal_id)
      → ((x : ProposalRecord) → is_of k (change x) ≡ is_of k x)
      → codes_eq row.proposal_id other ≡ false
      → IsHeld k row rows
      → IsKept other (advance other now status change rows)
  unfolding advance
  advance-IsKept other now status change rows same_id same_key apart h =
      let next : ProposalRecord → ProposalRecord =
        λ x. record (change x) { status = status; updated_at = now } in
      let step = λ (x : ProposalRecord). if has_id other x then next x else x in
      elim (Bool-cases (is_aware now)) [
        | inr naive ↦ rw (naive, advance) (h, λ r e. absurd (ground (arith, e)))
        | inl known ↦ elim (Option-cases (find (has_id other) rows)) [
          | inl lost ↦ rw (known, lost, advance) (h, λ r e. absurd (ground (arith, e)))
          | inr (x, there) ↦ elim (Bool-cases (ltb (rank status) (rank x.status))) [
            | inl back ↦
                rw (known, there, back, advance)
                  (
                    h,
                    λ r e.
                        sym (ap (λ (y : ProposalRecord). y.proposal_id) (ok-injective e))
                        ∙ codes_eq→≡ x.proposal_id other (find-holds (has_id other) rows x there),
                  )
            | inr forward ↦
                rw (known, there, forward, advance)
                  (
                    record {
                      by_key =
                          find-update_where (is_of k) (has_id other) next rows same_key
                          ∙ ap (map_found step) h.by_key
                          ∙ rw apart refl;
                      by_id =
                          find-update_where (has_id row.proposal_id) (has_id other) next rows
                            (λ y. ap (λ i. codes_eq i row.proposal_id) (same_id y))
                          ∙ ap (map_found step) h.by_id
                          ∙ rw apart refl;
                    },
                    λ r e. read_back-id other _ r e,
                  )
          ]
        ]
      ]
