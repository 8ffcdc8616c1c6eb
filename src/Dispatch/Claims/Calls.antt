-- ===== src/Dispatch/Claims/Calls.antt =====
-- The methods of `ClaimStore` that write (src/reports/swarm_reports/dispatch/claims.py). A method
-- that raises leaves the files as they were: each writes once, at its end.
use mathai_ai_swarm_memory.Common.{
  ℕ, ◌+◌, Bool, true, false, not, ◌||◌, [], ◌∷◌, Option, none, some, zero, suc, ◌==◌, codes_eq,
  if◌then◌else◌, Codes, Result, ok, err, guard, ◌>>=◌, ◌>>◌,
}
use mathai_ai_swarm_memory.Dispatch.State.{
  ℤ, Error, duplicate_launch, recovery_required, stale_completion, lookup_error, Formats,
  validate_id, validate_iso_date, state_key,
}
use mathai_ai_swarm_memory.Dispatch.Claims.{
  Status, pending, running, done, failed, DispatchClaim, Directory, Probe, load, write,
}

-- True: the same process is running. False: it is gone. None: nobody can tell.
unfoldable pub still_alive : Probe → DispatchClaim → Option Bool
still_alive probe claim = elim claim.pid [
  | none ↦ none
  | some pid ↦ elim claim.process_token [
    | none ↦ none
    | some token ↦ elim (probe pid) [
      | none ↦ none
      | some none ↦ some false
      | some (some now_token) ↦ some (codes_eq now_token token)
    ]
  ]
]

-- The guards of `try_claim` on the claim that is there, and the number of the next attempt.
unfoldable pub next_attempt : Probe → Bool → Option DispatchClaim → Result Error ℕ
next_attempt probe allow_takeover none = ok 1
next_attempt probe allow_takeover (some existing) = elim existing.status [
  | done ↦ err duplicate_launch
  | running ↦ elim (still_alive probe existing) [
    | some true ↦ err duplicate_launch
    | some false ↦ ok (existing.attempt + 1)
    | none ↦ if allow_takeover then ok (existing.attempt + 1) else err recovery_required
  ]
  | _ ↦ ok (existing.attempt + 1)
]

abbrev pub new_claim : Codes → Codes → Codes → Codes → Option ℤ → Option Codes → ℕ → DispatchClaim
new_claim date task_id provider now pid process_token attempt = record {
  date = date;
  task_id = task_id;
  provider = provider;
  status = running;
  attempt = attempt;
  updated_at = now;
  pid = pid;
  process_token = process_token;
  error = none;
}

abbrev pub is_closed : Status → Bool
is_closed done = true
is_closed failed = true
is_closed _ = false

abbrev pub same_status : Status → Status → Bool
same_status pending pending = true
same_status running running = true
same_status done done = true
same_status failed failed = true
same_status _ _ = false

-- The first n of a text.
abbrev pub take : ℕ → Codes → Codes
take n [] = []
take zero (c ∷ s) = []
take (suc n) (c ∷ s) = c ∷ take n s

module _ (formats : Formats) where
  unfoldable pub try_claim :
      Codes
      → Codes
      → Codes
      → Codes
      → Option ℤ
      → Option Codes
      → Bool
      → Probe
      → Directory
      → Result Error (DispatchClaim × Directory)
  try_claim date task_id provider now pid process_token allow_takeover probe files = do
    valid ← validate_id provider
    key ← state_key formats date task_id
    existing ← load formats date task_id files
    attempt ← next_attempt probe allow_takeover existing
    valid_date ← validate_iso_date formats date
    valid_id ← validate_id task_id
    let claim = new_claim date task_id provider now pid process_token attempt
    files' ← write formats claim files
    ok (claim, files')

  -- `_close` on the claim that was found.
  unfoldable pub close_claim :
      ℕ
      → Status
      → Codes
      → Option Codes
      → Directory
      → DispatchClaim
      → Result Error (DispatchClaim × Directory)
  close_claim attempt status now error files claim = do
    guard (attempt == claim.attempt) stale_completion
    guard (not (is_closed claim.status) || same_status claim.status status) stale_completion
    let closed = record claim { status = status; error = error; updated_at = now }
    files' ← write formats closed files
    ok (closed, files')

  -- `_close`
  unfoldable pub close :
      Codes
      → Codes
      → ℕ
      → Status
      → Codes
      → Option Codes
      → Directory
      → Result Error (DispatchClaim × Directory)
  close date task_id attempt status now error files = do
    key ← state_key formats date task_id
    found ← load formats date task_id files
    elim found [
      | none ↦ err lookup_error
      | some claim ↦ close_claim attempt status now error files claim
    ]

  abbrev pub mark_done :
      Codes → Codes → ℕ → Codes → Directory → Result Error (DispatchClaim × Directory)
  mark_done date task_id attempt now files = close date task_id attempt done now none files

  abbrev pub mark_failed :
      Codes → Codes → Codes → ℕ → Codes → Directory → Result Error (DispatchClaim × Directory)
  mark_failed date task_id error attempt now files =
      close date task_id attempt failed now (some (take 500 error)) files
