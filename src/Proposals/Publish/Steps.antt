-- ===== src/Proposals/Publish/Steps.antt =====
-- What publications of other proposals leave of a published one (`publish` of
-- src/auth-broker/app/proposals/router.py).
use mathai_ai_swarm_memory.Common.{
  ℕ, ◌≡◌, refl, sym, ap, ◌∙◌, inl, inr, true, false, not, ◌&&◌, ◌++◌, some, ◌==◌, find, find-holds,
  Codes, codes, codes_eq, codes_eq→≡, starts_with, Result, ok, err, ok-injective, arith,
  Option-cases, Bool-cases, Result-cases,
}
use mathai_ai_swarm_memory.Broker.Store.{Datetime, is_null}
use mathai_ai_swarm_memory.Proposals.Schema.{ProposalError}
use mathai_ai_swarm_memory.Proposals.Outbox.{
  ProposalRecord, Outbox, has_id, get, mark_branch, mark_commit, mark_pr,
}
use mathai_ai_swarm_memory.Proposals.Publish.{
  Github, from_store, has_url, Published, review_card, branch_step, file_step, pr_step, continue,
  steps, publish,
}
use mathai_ai_swarm_memory.Proposals.Publish.Held.{Key, IsHeld, IsKept, advance-IsKept}

from_store-ok :
    (m : Result ProposalError ProposalRecord) (r : ProposalRecord) → from_store m ≡ ok r → m ≡ ok r
from_store-ok (ok x) r h = ap ok (ok-injective h)
from_store-ok (err e) r h = absurd (ground (arith, h))

module _ {W : Type 0} (github : Github W) (k : Key) (row : ProposalRecord) where
  -- The same of a step of the publication.
  abbrev IsStep : Codes → Published github → Type 0
  IsStep other o = IsHeld k row o.1.0 × ((r : ProposalRecord) → o.0 ≡ ok r → r.proposal_id ≡ other)

  abbrev IsApart : ProposalRecord → Type 0
  IsApart current = codes_eq row.proposal_id current.proposal_id ≡ false

  branch_step-IsStep :
      (now : Datetime) (current : ProposalRecord) (rows : Outbox) (w : W)
      → IsApart current
      → IsHeld k row rows
      → IsStep current.proposal_id (branch_step github now current rows w)
  unfolding branch_step mark_branch
  branch_step-IsStep now current rows w apart h =
      let called = github.ensure_branch current.branch w in
      elim (Bool-cases (is_null current.branch_sha)) [
        | inr done ↦
            rw (done, branch_step)
              (h, λ r e. sym (ap (λ (y : ProposalRecord). y.proposal_id) (ok-injective e)))
        | inl missing ↦ elim (Result-cases called.0) [
          | inr (e, failed) ↦
              rw (missing, failed, branch_step) (h, λ r e. absurd (ground (arith, e)))
          | inl (sha, made) ↦
              let kept =
                advance-IsKept k row current.proposal_id now _ _ rows (λ x. refl) (λ x. refl) apart
                  h in
              rw (missing, made, branch_step) (kept.0, λ r e. kept.1 r (from_store-ok _ r e))
        ]
      ]

  file_step-IsStep :
      (now : Datetime) (current : ProposalRecord) (rows : Outbox) (w : W)
      → IsApart current
      → IsHeld k row rows
      → IsStep current.proposal_id (file_step github now current rows w)
  unfolding file_step mark_commit
  file_step-IsStep now current rows w apart h =
      let called =
        github.ensure_file current.branch current.path current.note
          (codes "T2 proposal " ++ current.proposal_id) w in
      elim (Bool-cases (is_null current.commit_sha)) [
        | inr done ↦
            rw (done, file_step)
              (h, λ r e. sym (ap (λ (y : ProposalRecord). y.proposal_id) (ok-injective e)))
        | inl missing ↦ elim (Result-cases called.0) [
          | inr (e, failed) ↦ rw (missing, failed, file_step) (h, λ r e. absurd (ground (arith, e)))
          | inl (sha, made) ↦
              let kept =
                advance-IsKept k row current.proposal_id now _ _ rows (λ x. refl) (λ x. refl) apart
                  h in
              rw (missing, made, file_step) (kept.0, λ r e. kept.1 r (from_store-ok _ r e))
        ]
      ]

  mark_pr-IsKept :
      (other : Codes) (number : ℕ) (url : Codes) (now : Datetime) (rows : Outbox)
      → codes_eq row.proposal_id other ≡ false
      → IsHeld k row rows
      → IsKept k row other (mark_pr other number url now rows)
  unfolding mark_pr
  mark_pr-IsKept other number url now rows apart h =
      elim (Bool-cases (not (number == 0) && starts_with url (codes "https://"))) [
        | inr bad ↦ rw (bad, mark_pr) (h, λ r e. absurd (ground (arith, e)))
        | inl good ↦
            rw (good, mark_pr)
              (advance-IsKept k row other now _ _ rows (λ x. refl) (λ x. refl) apart h)
      ]

  pr_step-IsStep :
      (now : Datetime) (current : ProposalRecord) (rows : Outbox) (w : W)
      → IsApart current
      → IsHeld k row rows
      → IsStep current.proposal_id (pr_step github now current rows w)
  unfolding pr_step
  pr_step-IsStep now current rows w apart h =
      let called = github.ensure_draft_pr current.branch current.title (review_card current) w in
      elim (Bool-cases (is_null current.pr_url)) [
        | inr done ↦
            rw (done, pr_step)
              (h, λ r e. sym (ap (λ (y : ProposalRecord). y.proposal_id) (ok-injective e)))
        | inl missing ↦ elim (Result-cases called.0) [
          | inr (e, failed) ↦ rw (missing, failed, pr_step) (h, λ r e. absurd (ground (arith, e)))
          | inl ((number, url), made) ↦
              let kept = mark_pr-IsKept current.proposal_id number url now rows apart h in
              rw (missing, made, pr_step) (kept.0, λ r e. kept.1 r (from_store-ok _ r e))
        ]
      ]

  continue-IsStep :
      (other : Codes) (o : Published github) (next : ProposalRecord → Outbox → W → Published github)
      → IsStep other o
      → ((r : ProposalRecord) (rows : Outbox) (w : W)
          → r.proposal_id ≡ other
          → IsHeld k row rows
          → IsStep other (next r rows w))
      → IsStep other (continue github o next)
  unfolding continue
  continue-IsStep other (err e, (rows, w)) next h step = h
  continue-IsStep other (ok r, (rows, w)) next h step = step r rows w (h.1 r refl) h.0

  steps-IsStep :
      (now : Datetime) (current : ProposalRecord) (rows : Outbox) (w : W)
      → IsApart current
      → IsHeld k row rows
      → IsStep current.proposal_id (steps github now current rows w)
  unfolding steps
  steps-IsStep now current rows w apart h =
      let other = current.proposal_id in
      continue-IsStep other _ (pr_step github now)
        (continue-IsStep other _ (file_step github now)
          (branch_step-IsStep now current rows w apart h)
          (λ r rows' w' named held.
            rw (sym named)
              (file_step-IsStep now r rows' w' (ap (codes_eq row.proposal_id) named ∙ apart) held)))
        (λ r rows' w' named held.
          rw (sym named)
            (pr_step-IsStep now r rows' w' (ap (codes_eq row.proposal_id) named ∙ apart) held))

  module _ (published : has_url row ≡ true) where
    -- A row that the publication goes on with, found by its id or not in the outbox.
    unpublished-IsApart :
        (current : ProposalRecord) (rows : Outbox)
        → has_url current ≡ false
        → ((x : ProposalRecord)
            → find (has_id current.proposal_id) rows ≡ some x
            → has_url x ≡ false)
        → IsHeld k row rows
        → IsApart current
    unpublished-IsApart current rows missing other h =
        elim (Bool-cases (codes_eq row.proposal_id current.proposal_id)) [
          | inr apart ↦ apart
          | inl same ↦
              let named = codes_eq→≡ row.proposal_id current.proposal_id same in
              absurd (
                ground (
                  arith,
                  published,
                  other row (ap (λ i. find (has_id i) rows) (sym named) ∙ h.by_id),
                ))
        ]

    pub publish-IsHeld :
        (r : ProposalRecord) (now : Datetime) (rows : Outbox) (w : W)
        → has_url r ≡ false
        → IsHeld k row rows
        → IsHeld k row (publish github r now rows w).1.0
    unfolding publish get
    publish-IsHeld r now rows w unpublished h =
        elim (Option-cases (find (has_id r.proposal_id) rows)) [
          | inl lost ↦
              let apart =
                unpublished-IsApart r rows unpublished (λ x e. absurd (ground (arith, lost, e)))
                  h in
              rw (lost, unpublished, publish) ((steps-IsStep now r rows w apart h).0)
          | inr (x, found) ↦ elim (Bool-cases (has_url x)) [
            | inl there ↦ rw (found, there, publish) h
            | inr missing ↦
                let named =
                  codes_eq→≡ x.proposal_id r.proposal_id
                    (find-holds (has_id r.proposal_id) rows x found) in
                let at : find (has_id x.proposal_id) rows ≡ some x =
                  ap (λ i. find (has_id i) rows) named ∙ found in
                let apart =
                  unpublished-IsApart x rows missing
                    (λ y e.
                      let same : x ≡ y = let one = sym at ∙ e in cc in
                      ap has_url (sym same) ∙ missing)
                    h in
                rw (found, missing, publish) ((steps-IsStep now x rows w apart h).0)
          ]
        ]
