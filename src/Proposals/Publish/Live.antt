-- ===== src/Proposals/Publish/Live.antt =====
-- Retries of a publication (`publish` of src/auth-broker/app/proposals/router.py): whatever an earlier
-- attempt has done, an attempt at which GitHub answers ends with a pull request.
use mathai_ai_swarm_memory.Common.{
  ℕ, ◌≡◌, refl, ap, ◌∙◌, inl, inr, true, false, not, ◌&&◌, ◌++◌, some, ltb, if◌then◌else◌, ◌==◌,
  find, find-update_where, map_found, update_where, String, Codes, codes, codes_eq, codes_eq_refl,
  starts_with, ok, err, ok-injective, arith, Bool-cases,
}
use mathai_ai_swarm_memory.Broker.Store.{Datetime, is_aware, is_null}
use mathai_ai_swarm_memory.Proposals.Schema.{assert_write_path, assert_branch}
use mathai_ai_swarm_memory.Proposals.Outbox.{
  Status, rank, pr_opened, ProposalRecord, Outbox, has_id, get, read_back, asserted, advance,
  mark_branch, mark_commit, mark_pr,
}
use mathai_ai_swarm_memory.Proposals.Publish.{
  Github, from_store, has_url, Published, review_card, branch_step, file_step, pr_step, continue,
  steps, publish,
}

-- The row is in the outbox, with a path and a branch that may be written.
pub record IsStored (r : ProposalRecord) (rows : Outbox) : Type 0 where
  pub found : find (has_id r.proposal_id) rows ≡ some r
  pub path_ok : assert_write_path r.path ≡ ok r.path
  pub branch_ok : assert_branch r.branch ≡ ok r.branch

-- Each call to GitHub succeeds, with a pull request that has a number and an https address.
pub record IsWorking {W : Type 0} (github : Github W) : Type 0 where
  pub branches :
      (branch : Codes) (w : W) → (sha : String) × ((github.ensure_branch branch w).0 ≡ ok sha)
  pub files :
      (branch path content message : Codes) (w : W)
      → (sha : String) × ((github.ensure_file branch path content message w).0 ≡ ok sha)
  pub prs :
      (branch title body : Codes) (w : W)
      → (number : ℕ) × (url : Codes) × ((github.ensure_draft_pr branch title body w).0
          ≡ ok (number, url))
        × ((not (number == 0) && starts_with url (codes "https://")) ≡ true)

asserted_at :
    (proposal_id : Codes) (rows : Outbox) (x : ProposalRecord)
    → find (has_id proposal_id) rows ≡ some x
    → assert_write_path x.path ≡ ok x.path
    → assert_branch x.branch ≡ ok x.branch
    → asserted (read_back proposal_id rows) ≡ ok x
unfolding asserted
asserted_at proposal_id rows x at path_ok branch_ok =
    rw (at, asserted) (rw path_ok (rw branch_ok refl))

module _ (now : Datetime) (known : is_aware now ≡ true) where
  advance-forward :
      (r : ProposalRecord) (status : Status) (change : ProposalRecord → ProposalRecord)
      (rows : Outbox)
      → (change r).path ≡ r.path
      → (change r).branch ≡ r.branch
      → ((x : ProposalRecord) → (change x).proposal_id ≡ x.proposal_id)
      → ltb (rank status) (rank r.status) ≡ false
      → IsStored r rows
      → (let next = record (change r) { status = status; updated_at = now } in
          ((advance r.proposal_id now status change rows).0 ≡ ok next)
          × IsStored next (advance r.proposal_id now status change rows).1)
  unfolding advance
  advance-forward r status change rows same_path same_branch same_id forward h =
      let next : ProposalRecord → ProposalRecord =
        λ x. record (change x) { status = status; updated_at = now } in
      let at : find (has_id r.proposal_id) (update_where (has_id r.proposal_id) next rows)
          ≡ some (next r) =
        find-update_where (has_id r.proposal_id) (has_id r.proposal_id) next rows
          (λ x. ap (λ i. codes_eq i r.proposal_id) (same_id x))
        ∙ ap (map_found (λ x. if has_id r.proposal_id x then next x else x)) h.found
        ∙ rw (codes_eq_refl r.proposal_id) refl in
      let path_ok : assert_write_path (change r).path ≡ ok (change r).path =
        rw same_path (h.path_ok) in
      let branch_ok : assert_branch (change r).branch ≡ ok (change r).branch =
        rw same_branch (h.branch_ok) in
      rw (known, h.found, forward, advance)
        (
          asserted_at r.proposal_id _ (next r) at path_ok branch_ok,
          record {
            found =
                ap (λ i. find (has_id i) (update_where (has_id r.proposal_id) next rows))
                  (same_id r)
                ∙ at;
            path_ok = path_ok;
            branch_ok = branch_ok;
          },
        )

  -- An advance returns a row that is stored.
  advance-ready :
      (r : ProposalRecord) (status : Status) (change : ProposalRecord → ProposalRecord)
      (rows : Outbox)
      → (change r).path ≡ r.path
      → (change r).branch ≡ r.branch
      → ((x : ProposalRecord) → (change x).proposal_id ≡ x.proposal_id)
      → IsStored r rows
      → (x : ProposalRecord) × ((advance r.proposal_id now status change rows).0 ≡ ok x)
        × IsStored x (advance r.proposal_id now status change rows).1
  unfolding advance
  advance-ready r status change rows same_path same_branch same_id h =
      elim (Bool-cases (ltb (rank status) (rank r.status))) [
        | inr forward ↦
            let went =
              advance-forward r status change rows same_path same_branch same_id forward h in
            (record (change r) { status = status; updated_at = now }, went.0, went.1)
        | inl back ↦
            (r, rw (known, h.found, back, advance) refl, rw (known, h.found, back, advance) h)
      ]

  module _ {W : Type 0} (github : Github W) (working : IsWorking github) where
    -- A step that has returned a stored row.
    abbrev IsReady : Published github → Type 0
    IsReady o = (x : ProposalRecord) × (o.0 ≡ ok x) × IsStored x o.1.0

    branch_step-IsReady :
        (r : ProposalRecord) (rows : Outbox) (w : W)
        → IsStored r rows
        → IsReady (branch_step github now r rows w)
    unfolding branch_step mark_branch
    branch_step-IsReady r rows w h = elim (Bool-cases (is_null r.branch_sha)) [
      | inr done ↦ rw (done, branch_step) (r, refl, h)
      | inl missing ↦
          let (sha, made) = working.branches r.branch w in
          let (x, is, stored) =
            advance-ready r _ (λ y. record y { branch_sha = some sha }) rows refl refl (λ y. refl)
              h in
          rw (missing, made, branch_step) (x, ap from_store is, stored)
    ]

    file_step-IsReady :
        (r : ProposalRecord) (rows : Outbox) (w : W)
        → IsStored r rows
        → IsReady (file_step github now r rows w)
    unfolding file_step mark_commit
    file_step-IsReady r rows w h = elim (Bool-cases (is_null r.commit_sha)) [
      | inr done ↦ rw (done, file_step) (r, refl, h)
      | inl missing ↦
          let (sha, made) =
            working.files r.branch r.path r.note (codes "T2 proposal " ++ r.proposal_id) w in
          let (x, is, stored) =
            advance-ready r _ (λ y. record y { commit_sha = some sha }) rows refl refl (λ y. refl)
              h in
          rw (missing, made, file_step) (x, ap from_store is, stored)
    ]

    -- The last step returns a row with a pull request.
    pr_step-opens :
        (r : ProposalRecord) (rows : Outbox) (w : W)
        → IsStored r rows
        → (x : ProposalRecord) × ((pr_step github now r rows w).0 ≡ ok x)
          × (is_null x.pr_url ≡ false)
          × IsStored x (pr_step github now r rows w).1.0
    unfolding pr_step mark_pr
    pr_step-opens r rows w h = elim (Bool-cases (is_null r.pr_url)) [
      | inr done ↦ rw (done, pr_step) (r, refl, done, h)
      | inl missing ↦
          let (number, url, made, valid) = working.prs r.branch r.title (review_card r) w in
          let opened =
            advance-forward r pr_opened
              (λ y. record y { pr_number = some number; pr_url = some url }) rows refl refl
              (λ y. refl) (not_beyond r.status) h in
          rw (missing, made, pr_step)
            (rw (valid, mark_pr) (_, ap from_store opened.0, refl, opened.1))
    ]
      where
        not_beyond : (status : Status) → ltb 3 (rank status) ≡ false
        not_beyond status = ground arith

    continue-IsReady :
        (o : Published github) (next : ProposalRecord → Outbox → W → Published github)
        → IsReady o
        → ((r : ProposalRecord) (rows : Outbox) (w : W) → IsStored r rows → IsReady (next r rows w))
        → IsReady (continue github o next)
    unfolding continue
    continue-IsReady (ok r, (rows, w)) next (x, is, stored) step =
        step r rows w (rw (ok-injective is) stored)
    continue-IsReady (err e, (rows, w)) next (x, is, stored) step = absurd (ground (arith, is))

    -- The row that a publication returns has a pull request.
    abbrev IsOpened : Published github → Type 0
    IsOpened o = (x : ProposalRecord) × (o.0 ≡ ok x) × (is_null x.pr_url ≡ false)

    continue-IsOpened :
        (o : Published github) (next : ProposalRecord → Outbox → W → Published github)
        → IsReady o
        → ((r : ProposalRecord) (rows : Outbox) (w : W)
            → IsStored r rows
            → IsOpened (next r rows w))
        → IsOpened (continue github o next)
    unfolding continue
    continue-IsOpened (ok r, (rows, w)) next (x, is, stored) step =
        step r rows w (rw (ok-injective is) stored)
    continue-IsOpened (err e, (rows, w)) next (x, is, stored) step = absurd (ground (arith, is))

    -- Whatever earlier attempts have done for a stored proposal, an attempt at an aware time at which
    -- GitHub's calls succeed returns a row with a pull request.
    pub publish_completes :
        (r : ProposalRecord) (rows : Outbox) (w : W)
        → IsStored r rows
        → IsOpened (publish github r now rows w)
    unfolding publish steps get
    publish_completes r rows w h = elim (Bool-cases (has_url r)) [
      | inl there ↦ rw (h.found, there, publish) (r, refl, ground (arith, there))
      | inr missing ↦
          rw (h.found, missing, publish)
            (continue-IsOpened _ (pr_step github now)
              (continue-IsReady _ (file_step github now) (branch_step-IsReady r rows w h)
                file_step-IsReady)
              (λ x rows' w' stored.
                let (y, is, opened, kept) = pr_step-opens x rows' w' stored in (y, is, opened)))
    ]
