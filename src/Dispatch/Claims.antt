-- ===== src/Dispatch/Claims.antt =====
-- src/reports/swarm_reports/dispatch/claims.py: one claim file for each (date, task_id). The state
-- directory is a list of named JSON objects; the lock of a file makes each method one step. The
-- time is given by its ISO text.
pub mod Calls
pub mod Files
pub mod Once
pub mod Tidy
pub mod Done
pub mod Relaunch
mod Tests
use mathai_ai_swarm_memory.Common.{
  ℕ, ◌+◌, Bool, true, false, not, ◌&&◌, ◌||◌, List, [], ◌∷◌, Option, none, some, leb, ◌==◌,
  if◌then◌else◌, String, Codes, codes, codes_eq, Result, ok, err, guard, ◌>>=◌, ◌>>◌,
}
use mathai_ai_swarm_memory.Dispatch.State.{
  ℤ, pos, negsuc, Json, null, float_value, array, object, boolean, integer, text, Payload, Error,
  value_error, state_error, lookup_error, duplicate_launch, recovery_required, stale_completion,
  Formats, get, require_int, require_text, validate_id, validate_iso_date, state_key,
}

pub data Status : Type 0 where
  pending running done failed : Status

pub record DispatchClaim : Type 0 where
  pub date : Codes
  pub task_id : Codes
  pub provider : Codes
  pub status : Status
  pub attempt : ℕ
  pub updated_at : Codes
  pub pid : Option ℤ
  pub process_token : Option Codes
  pub error : Option Codes

abbrev pub status_text : Status → Codes
status_text pending = codes "pending"
status_text running = codes "running"
status_text done = codes "done"
status_text failed = codes "failed"

unfoldable pub read_status : Codes → Result Error Status
read_status s =
    if codes_eq s (codes "pending")
    then ok pending
    else if codes_eq s (codes "running")
    then ok running
    else if codes_eq s (codes "done")
    then ok done
    else if codes_eq s (codes "failed")
    then ok failed
    else err state_error

-- `attempt < 1` is refused.
abbrev pub read_attempt : ℤ → Result Error ℕ
read_attempt (pos n) = if leb 1 n then ok n else err state_error
read_attempt (negsuc n) = err state_error

abbrev pub read_version : ℤ → Result Error (Unit {0})
read_version (pos n) = guard (n == 1) state_error
read_version (negsuc n) = err state_error

abbrev pub read_pid : Option Json → Result Error (Option ℤ)
read_pid none = ok none
read_pid (some null) = ok none
read_pid (some (integer (pos n))) = if leb 1 n then ok (some (pos n)) else err state_error
read_pid (some _) = err state_error

abbrev pub read_optional_text : Option Json → Result Error (Option Codes)
read_optional_text none = ok none
read_optional_text (some null) = ok none
read_optional_text (some (text s)) = ok (some s)
read_optional_text (some _) = err state_error

abbrev pub optional_text : Option Codes → Json
optional_text none = null
optional_text (some s) = text s

abbrev pub optional_int : Option ℤ → Json
optional_int none = null
optional_int (some n) = integer n

-- `asdict(claim)`
abbrev pub to_payload : DispatchClaim → Payload
to_payload c =
    ("date", text c.date)
    ∷ ("task_id", text c.task_id)
    ∷ ("provider", text c.provider)
    ∷ ("status", text (status_text c.status))
    ∷ ("attempt", integer (pos c.attempt))
    ∷ ("updated_at", text c.updated_at)
    ∷ ("pid", optional_int c.pid)
    ∷ ("process_token", optional_text c.process_token)
    ∷ ("error", optional_text c.error)
    ∷ ("version", integer (pos 1))
    ∷ []

-- The files of the claim directory, by their names.
abbrev pub Directory : Type 0
Directory = List (Codes × Payload)

-- `read_json`
abbrev pub read_json : Codes → Directory → Option Payload
read_json key [] = none
read_json key (file ∷ files) =
    let rest = read_json key files in if codes_eq file.0 key then some file.1 else rest

-- `write_json_atomic`
abbrev pub write_json : Codes → Payload → Directory → Directory
write_json key payload [] = (key, payload) ∷ []
write_json key payload (file ∷ files) =
    let rest = write_json key payload files in
    if codes_eq file.0 key then (key, payload) ∷ files else file ∷ rest

-- What the process probe says of a pid: it could not answer, or the start token of the process, if
-- there is one.
abbrev pub Probe : Type 0
Probe = ℤ → Option (Option Codes)

module _ (formats : Formats) where
  unfoldable pub parse_claim : Payload → Result Error DispatchClaim
  parse_claim payload = do
    version ← require_int "version" payload
    read_version version
    status_name ← require_text "status" payload
    status ← read_status status_name
    number ← require_int "attempt" payload
    attempt ← read_attempt number
    pid ← read_pid (get "pid" payload)
    token ← read_optional_text (get "process_token" payload)
    error ← read_optional_text (get "error" payload)
    updated_at ← require_text "updated_at" payload
    guard (formats.is_datetime updated_at) value_error
    date_text ← require_text "date" payload
    date ← validate_iso_date formats date_text
    id_text ← require_text "task_id" payload
    task_id ← validate_id id_text
    provider_text ← require_text "provider" payload
    provider ← validate_id provider_text
    ok (record {
      date = date;
      task_id = task_id;
      provider = provider;
      status = status;
      attempt = attempt;
      updated_at = updated_at;
      pid = pid;
      process_token = token;
      error = error;
    })

  unfoldable pub load : Codes → Codes → Directory → Result Error (Option DispatchClaim)
  load date task_id files = do
    key ← state_key formats date task_id
    elim (read_json key files) [
      | none ↦ ok none
      | some payload ↦ do claim ← parse_claim payload; ok (some claim)
    ]

  unfoldable pub write : DispatchClaim → Directory → Result Error Directory
  write claim files = do
    key ← state_key formats claim.date claim.task_id
    ok (write_json key (to_payload claim) files)
