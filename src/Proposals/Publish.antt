-- ===== src/Proposals/Publish.antt =====
-- `publish` and `submit_proposal` of src/auth-broker/app/proposals/router.py. The GitHub adapter is a
-- parameter, with a state of its own that each of its calls may change.
pub mod Held
pub mod Steps
pub mod Live
pub mod Replay
use mathai_ai_swarm_memory.Common.{
  ℕ, ◌≡◌, Bool, true, false, not, ◌&&◌, ◌||◌, List, [], ◌∷◌, ◌++◌, Option, none, some, leb,
  if◌then◌else◌, any, is_empty, length, String, string_append, is_unset, Codes, codes, is_blank,
  Result, ok, err, guard, ◌>>=◌, ◌>>◌,
}
use mathai_ai_swarm_memory.Broker.Store.{Datetime, is_aware, is_before, is_null}
use mathai_ai_swarm_memory.Broker.Scopes.{is_member}
use mathai_ai_swarm_memory.Proposals.Schema.{
  payload_hash, ProposalError, conflict, ProposalInput, has_char, join_lines, render_note,
}
use mathai_ai_swarm_memory.Proposals.Outbox.{
  ProposalRecord, Outbox, Claim, get, claim, mark_branch, mark_commit, mark_pr,
}

-- `ProposalGitHubError` and its timeout; the handler answers both alike.
pub data GithubError : Type 0 where
  github_error github_timeout : GithubError

-- `ProposalGitHub`: each call gives its result and the state of GitHub behind it.
pub record Github (W : Type 0) : Type 0 where
  pub ensure_branch : Codes → W → Result GithubError String × W
  pub ensure_file : Codes → Codes → Codes → Codes → W → Result GithubError String × W
  pub ensure_draft_pr : Codes → Codes → Codes → W → Result GithubError (ℕ × Codes) × W

pub data PublishError : Type 0 where
  github_failed : GithubError → PublishError
  store_failed : ProposalError → PublishError

abbrev pub from_store : Result ProposalError ProposalRecord → Result PublishError ProposalRecord
from_store (ok r) = ok r
from_store (err e) = err (store_failed e)

abbrev pub review_line : String → Codes → Codes
review_line name value = codes name ++ value

-- `_review_card`
unfoldable pub review_card : ProposalRecord → Codes
review_card r = join_lines (
    codes "T2 proposal. Human confirmation pending."
    ∷ codes "Does not promote to wiki T1/T0, fontes/, or main."
    ∷ codes "Do not merge automatically."
    ∷ review_line "proposal_id: " r.proposal_id
    ∷ review_line "principal_id: " (codes r.principal_id)
    ∷ review_line "workspace_id: " (codes r.workspace_id)
    ∷ review_line "path: " r.path
    ∷ [])

-- What `submit_proposal` answers.
pub data Answer : Type 0 where
  created : Codes → Codes → Codes → Answer
  refused : String → ℕ → Answer
  raised : ProposalError → Answer

-- The principal mapping, whose types have been checked.
pub record Auth : Type 0 where
  pub principal_id : String
  pub workspace_id : String
  pub scopes : List String
  pub family_id : String
  pub expires_at : Datetime

-- `_auth_mapping` on such a mapping, and the check of its expiry.
unfoldable pub has_session : Auth → Datetime → Bool
has_session auth now =
    not (is_blank (codes auth.principal_id))
    && not (is_blank (codes auth.workspace_id))
    && not (is_blank (codes auth.family_id))
    && is_aware auth.expires_at
    && is_before now auth.expires_at

unfoldable pub valid_idempotency_key : String → Bool
valid_idempotency_key key =
    not (is_unset key)
    && leb (length (codes key)) 128
    && not (has_char 10 (codes key))
    && not (has_char 13 (codes key))

-- `propose_scope`
abbrev pub propose_scope : ProposalInput → String
propose_scope payload = string_append "ctx:propose:" payload.namespace

-- `_created`
unfoldable pub created_answer : ProposalRecord → Answer
created_answer r = elim r.pr_url [
  | none ↦ refused "Proposal publishing is not configured" 503
  | some url ↦
      if is_empty url || is_empty r.branch
      then refused "Proposal publishing is not configured" 503
      else created r.proposal_id r.branch url
]

-- The answer behind `publish`.
unfoldable pub published_answer : Result PublishError ProposalRecord → Answer
published_answer (ok r) = created_answer r
published_answer (err (github_failed e)) = refused "GitHub proposal adapter unavailable" 503
published_answer (err (store_failed e)) = raised e

-- `record.pr_url`, read as a truth value.
abbrev pub has_url : ProposalRecord → Bool
has_url r = elim r.pr_url [ none ↦ false | some url ↦ not (is_empty url) ]

module _ {W : Type 0} (github : Github W) where
  abbrev pub Published : Type 0
  Published = Result PublishError ProposalRecord × (Outbox × W)

  unfoldable pub branch_step : Datetime → ProposalRecord → Outbox → W → Published
  branch_step now current rows w =
      if is_null current.branch_sha
      then (let (made, w') = github.ensure_branch current.branch w in
          elim made [
            | err e ↦ (err (github_failed e), (rows, w'))
            | ok sha ↦
                let (marked, rows') = mark_branch current.proposal_id sha now rows in
                (from_store marked, (rows', w'))
          ])
      else (ok current, (rows, w))

  unfoldable pub file_step : Datetime → ProposalRecord → Outbox → W → Published
  file_step now current rows w =
      if is_null current.commit_sha
      then (let (made, w') =
            github.ensure_file current.branch current.path current.note
              (codes "T2 proposal " ++ current.proposal_id) w in
          elim made [
            | err e ↦ (err (github_failed e), (rows, w'))
            | ok sha ↦
                let (marked, rows') = mark_commit current.proposal_id sha now rows in
                (from_store marked, (rows', w'))
          ])
      else (ok current, (rows, w))

  unfoldable pub pr_step : Datetime → ProposalRecord → Outbox → W → Published
  pr_step now current rows w =
      if is_null current.pr_url
      then (let (made, w') =
            github.ensure_draft_pr current.branch current.title (review_card current) w in
          elim made [
            | err e ↦ (err (github_failed e), (rows, w'))
            | ok (number, url) ↦
                let (marked, rows') = mark_pr current.proposal_id number url now rows in
                (from_store marked, (rows', w'))
          ])
      else (ok current, (rows, w))

  -- The next step, unless the one before has raised.
  unfoldable pub continue : Published → (ProposalRecord → Outbox → W → Published) → Published
  continue (err e, (rows, w)) step = (err e, (rows, w))
  continue (ok r, (rows, w)) step = step r rows w

  -- The steps of `publish` on the row that was read.
  unfoldable pub steps : Datetime → ProposalRecord → Outbox → W → Published
  steps now current rows w =
      continue (continue (branch_step now current rows w) (file_step now)) (pr_step now)

  unfoldable pub publish : ProposalRecord → Datetime → Outbox → W → Published
  publish r now rows w =
      let current : ProposalRecord = elim (get r.proposal_id rows) [
        | none ↦ r
        | some found ↦ found
      ] in
      if has_url current then (ok current, (rows, w)) else steps now current rows w

  module _ (date_text : Datetime → Codes) (yaml_string : Codes → Codes)
      (json_string : Codes → Codes) (digest : Codes → String) where
    -- The claim that a submission makes.
    abbrev pub claim_of : Auth → ProposalInput → String → Codes → Datetime → Claim
    claim_of auth payload key proposal_id now = record {
      workspace_id = auth.workspace_id;
      principal_id = auth.principal_id;
      idempotency_key = key;
      payload_hash = payload_hash json_string digest payload;
      proposal_id = proposal_id;
      namespace = payload.namespace;
      title = payload.title;
      note =
          render_note yaml_string date_text proposal_id auth.principal_id auth.workspace_id now
            payload;
    }

    -- The end of `submit_proposal`, behind the claim.
    unfoldable pub claimed_answer :
        Result ProposalError ProposalRecord → Datetime → Outbox → W → Answer × (Outbox × W)
    claimed_answer (err conflict) now rows w =
        (refused "Idempotency key reused with a different payload" 409, (rows, w))
    claimed_answer (err e) now rows w = (raised e, (rows, w))
    claimed_answer (ok r) now rows w =
        if has_url r
        then (created_answer r, (rows, w))
        else (let (published, after) = publish r now rows w in (published_answer published, after))

    -- `submit_proposal`, with an adapter.
    unfoldable pub submit_proposal :
        Auth → ProposalInput → String → Codes → Datetime → Outbox → W → Answer × (Outbox × W)
    submit_proposal auth payload key proposal_id now rows w =
        if not (has_session auth now)
        then (refused "Missing session" 401, (rows, w))
        else if not (valid_idempotency_key key)
        then (refused "Invalid Idempotency-Key" 400, (rows, w))
        else if not (is_member (propose_scope payload) auth.scopes)
        then (refused "Proposal is outside the granted scope" 403, (rows, w))
        else (let (claimed, rows') =
              claim date_text (claim_of auth payload key proposal_id now) now rows in
            claimed_answer claimed now rows' w)
