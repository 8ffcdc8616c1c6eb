-- ===== src/Proposals/Outbox.antt =====
-- `ProposalStore` of src/auth-broker/app/proposals/store.py: the outbox is a list of rows. A method
-- that raises leaves the rows as they were, unless its transaction has ended.
pub mod Rises
use mathai_ai_swarm_memory.Common.{
  ℕ, ◌≡◌, Bool, true, false, not, ◌&&◌, ◌||◌, List, [], ◌∷◌, ◌++◌, Option, none, some, ltb, leb,
  ◌==◌, if◌then◌else◌, find, any, update_where, String, str_eq, is_unset, Codes, codes, codes_eq,
  starts_with, Result, ok, err, guard, ◌>>=◌, ◌>>◌,
}
use mathai_ai_swarm_memory.Broker.Store.{Datetime, is_aware}
use mathai_ai_swarm_memory.Proposals.Schema.{
  ProposalError, conflict, value_error, vanished, integrity_error, payload_error, proposal_id_ok,
  assert_write_path, assert_branch, derive_branch, derive_path,
}

-- `STATUSES`; the third is `committed`.
pub data Status : Type 0 where
  pending branch_created file_committed pr_opened : Status

-- `STATUSES.index(status)`
abbrev pub rank : Status → ℕ
rank pending = 0
rank branch_created = 1
rank file_committed = 2
rank pr_opened = 3

-- A row of `proposal_outbox`, which `_row` reads as it is.
pub record ProposalRecord : Type 0 where
  pub proposal_id : Codes
  pub workspace_id : String
  pub principal_id : String
  pub idempotency_key : String
  pub payload_hash : String
  pub namespace : String
  pub title : Codes
  pub path : Codes
  pub branch : Codes
  pub note : Codes
  pub status : Status
  pub branch_sha : Option String
  pub commit_sha : Option String
  pub pr_number : Option ℕ
  pub pr_url : Option Codes
  pub created_at : Datetime
  pub updated_at : Datetime

abbrev pub Outbox : Type 0
Outbox = List ProposalRecord

-- What a method returns or raises, and the rows that it leaves.
abbrev pub Outcome : Type 0
Outcome = Result ProposalError ProposalRecord × Outbox

abbrev pub has_id : Codes → ProposalRecord → Bool
has_id proposal_id r = codes_eq r.proposal_id proposal_id

-- `WHERE workspace_id = ? AND principal_id = ? AND idempotency_key = ?`
abbrev pub has_key : String → String → String → ProposalRecord → Bool
has_key workspace_id principal_id idempotency_key r =
    str_eq r.workspace_id workspace_id
    && str_eq r.principal_id principal_id
    && str_eq r.idempotency_key idempotency_key

unfoldable pub get : Codes → Outbox → Option ProposalRecord
get proposal_id rows = find (has_id proposal_id) rows

-- The arguments of `claim`.
pub record Claim : Type 0 where
  pub workspace_id : String
  pub principal_id : String
  pub idempotency_key : String
  pub payload_hash : String
  pub proposal_id : Codes
  pub namespace : String
  pub title : Codes
  pub note : Codes

-- The row of a new claim.
abbrev pub new_record : Claim → Codes → Codes → Datetime → ProposalRecord
new_record c path branch now = record {
  proposal_id = c.proposal_id;
  workspace_id = c.workspace_id;
  principal_id = c.principal_id;
  idempotency_key = c.idempotency_key;
  payload_hash = c.payload_hash;
  namespace = c.namespace;
  title = c.title;
  path = path;
  branch = branch;
  note = c.note;
  status = pending;
  branch_sha = none;
  commit_sha = none;
  pr_number = none;
  pr_url = none;
  created_at = now;
  updated_at = now;
}

-- The row that a claim finds by its key.
abbrev pub replayed : Claim → ProposalRecord → Result ProposalError ProposalRecord
replayed c r = if str_eq r.payload_hash c.payload_hash then ok r else err conflict

-- The row behind a write; none has vanished.
abbrev pub read_back : Codes → Outbox → Result ProposalError ProposalRecord
read_back proposal_id rows = elim (find (has_id proposal_id) rows) [
  | none ↦ err vanished
  | some r ↦ ok r
]

-- The transaction of `claim`: when the key is new, so is the row, unless its id is taken.
unfoldable pub claim_row : Claim → ProposalRecord → Outbox → Outcome
claim_row c row rows = elim (find (has_key c.workspace_id c.principal_id c.idempotency_key) rows) [
  | some r ↦ (replayed c r, rows)
  | none ↦
      if any (has_id c.proposal_id) rows
      then (err integrity_error, rows)
      else (read_back c.proposal_id (rows ++ row ∷ []), rows ++ row ∷ [])
]

module _ (date_text : Datetime → Codes) where
  -- The checks of `claim`, and its row.
  unfoldable pub claim_checks : Claim → Datetime → Result ProposalError ProposalRecord
  claim_checks c now = do
    guard (is_aware now) value_error
    guard
        (not (
          is_unset c.workspace_id
          || is_unset c.principal_id
          || is_unset c.idempotency_key
          || is_unset c.payload_hash))
        value_error
    guard (proposal_id_ok c.proposal_id) payload_error
    path ← derive_path date_text c.namespace c.proposal_id now
    branch ← derive_branch c.proposal_id
    ok (new_record c path branch now)

  unfoldable pub claim : Claim → Datetime → Outbox → Outcome
  claim c now rows = elim (claim_checks c now) [
    | err e ↦ (err e, rows)
    | ok row ↦ claim_row c row rows
  ]

-- The assertions of `_advance` on the row that it returns.
unfoldable pub asserted : Result ProposalError ProposalRecord → Result ProposalError ProposalRecord
asserted (err e) = err e
asserted (ok r) = do path ← assert_write_path r.path; branch ← assert_branch r.branch; ok r

-- `_advance`; the change is of the columns that the caller names.
unfoldable pub advance :
    Codes → Datetime → Status → (ProposalRecord → ProposalRecord) → Outbox → Outcome
advance proposal_id now status change rows =
    if is_aware now
    then (elim (find (has_id proposal_id) rows) [
      | none ↦ (err value_error, rows)
      | some r ↦
          if ltb (rank status) (rank r.status)
          then (ok r, rows)
          else (let rows' =
                update_where (has_id proposal_id)
                  (λ x. record (change x) { status = status; updated_at = now }) rows in
              (asserted (read_back proposal_id rows'), rows'))
    ])
    else (err value_error, rows)

unfoldable pub mark_branch : Codes → String → Datetime → Outbox → Outcome
mark_branch proposal_id sha now =
    advance proposal_id now branch_created (λ r. record r { branch_sha = some sha })

unfoldable pub mark_commit : Codes → String → Datetime → Outbox → Outcome
mark_commit proposal_id sha now =
    advance proposal_id now file_committed (λ r. record r { commit_sha = some sha })

unfoldable pub mark_pr : Codes → ℕ → Codes → Datetime → Outbox → Outcome
mark_pr proposal_id number url now rows =
    if not (number == 0) && starts_with url (codes "https://")
    then advance proposal_id now pr_opened
        (λ r. record r { pr_number = some number; pr_url = some url }) rows
    else (err value_error, rows)
