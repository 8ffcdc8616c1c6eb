-- ===== src/Dispatch/Claims/Tests.antt =====
-- Runs of src/reports/swarm_reports/dispatch/claims.py on concrete inputs.
use mathai_ai_swarm_memory.Common.{
  ℕ, ◌≡◌, ◌≢◌, refl, true, false, List, [], ◌∷◌, Option, none, some, Codes, codes, ok,
}
use mathai_ai_swarm_memory.Dispatch.State.{Formats, pos, validate_id, validate_iso_date, state_key}
use mathai_ai_swarm_memory.Dispatch.Claims.{
  Status, running, done, failed, DispatchClaim, Directory, Probe, read_status, parse_claim, load,
  write, to_payload,
}
use mathai_ai_swarm_memory.Dispatch.Claims.Calls.{
  still_alive, next_attempt, try_claim, close, close_claim, mark_done,
}
use mathai_ai_swarm_memory.Dispatch.Claims.Files.{IsValid, parse_claim-to_payload}
use mathai_ai_swarm_memory.Dispatch.Claims.Once.{try_claim-Evidence, Evidence}
use mathai_ai_swarm_memory.Dispatch.Claims.Tidy.{ClaimCall, claiming, closing, run_calls}
use mathai_ai_swarm_memory.Dispatch.Claims.Relaunch.{done_never_relaunched, straggler_refused}

program : Unit {0}
unfolding validate_id validate_iso_date state_key read_status parse_claim load write still_alive
    next_attempt try_claim close close_claim
program = tt

-- Every text is a date, and the digest is the text itself.
abbrev toy : Formats
toy = record { is_date = λ s. true; is_datetime = λ s. true; digest = λ s. s }

abbrev day : Codes
day = codes "2026-09-14"

abbrev task : Codes
task = codes "MAT-1"

abbrev claim : ℕ → Status → DispatchClaim
claim attempt status = record {
  date = day;
  task_id = task;
  provider = codes "claude";
  status = status;
  attempt = attempt;
  updated_at = codes "6h";
  pid = some (pos 7);
  process_token = some (codes "tok");
  error = none;
}

-- No process is running.
abbrev idle : Probe
idle pid = some none

abbrev files_with : DispatchClaim → Directory
files_with c = (codes "2026-09-14__MAT-1", to_payload c) ∷ []

launches :
    try_claim toy day task
      (codes "claude")
      (codes "6h")
      (some (pos 7))
      (some (codes "tok"))
      false
      idle
      []
    ≡ ok (claim 1 running, files_with (claim 1 running))
unfolding program
launches = refl

relaunches :
    try_claim toy day task
      (codes "claude")
      (codes "6h")
      (some (pos 7))
      (some (codes "tok"))
      false
      idle
      (files_with (claim 1 running))
    ≡ ok (claim 2 running, files_with (claim 2 running))
unfolding program
relaunches = refl

try_claim-Evidence_example :
    (existing : Option DispatchClaim) × (load toy day task (files_with (claim 1 running))
      ≡ ok existing)
    × Evidence idle false existing 2
try_claim-Evidence_example =
    try_claim-Evidence toy day task (codes "claude") (codes "6h") (some (pos 7))
      (some (codes "tok")) false idle (files_with (claim 1 running)) (files_with (claim 2 running))
      (claim 2 running) relaunches

loads : load toy day task (files_with (claim 1 running)) ≡ ok (some (claim 1 running))
unfolding program
loads = refl

straggler_refused_example :
    close toy day task 1 done (codes "6h") none (files_with (claim 2 running))
    ≢ ok (claim 1 done, files_with (claim 1 done))
straggler_refused_example =
    straggler_refused toy day task (codes "claude") (codes "6h") (some (pos 7)) (some (codes "tok"))
      false idle (files_with (claim 1 running)) (files_with (claim 2 running)) (claim 1 running)
      (claim 2 running) loads relaunches done (codes "6h") none (claim 1 done)
      (files_with (claim 1 done))

abbrev before : List ClaimCall
before =
    claiming day task (codes "claude") (codes "6h") (some (pos 7)) (some (codes "tok")) false idle
    ∷ []

closes :
    mark_done toy day task 1 (codes "6h") (run_calls toy before [])
    ≡ ok (claim 1 done, files_with (claim 1 done))
unfolding program
closes = refl

done_never_relaunched_example :
    try_claim toy day task
      (codes "cursor")
      (codes "9h")
      none
      none
      true
      idle
      (run_calls toy (closing day task 1 failed (codes "8h") none ∷ []) (files_with (claim 1 done)))
    ≢ ok (claim 2 running, files_with (claim 2 running))
done_never_relaunched_example =
    done_never_relaunched toy before day task 1 (codes "6h") (claim 1 done)
      (files_with (claim 1 done)) closes (closing day task 1 failed (codes "8h") none ∷ [])
      (codes "cursor") (codes "9h") none none true idle (claim 2 running)
      (files_with (claim 2 running))

IsValid-claim : IsValid toy (claim 1 running)
unfolding program
IsValid-claim = record {
  date = refl;
  task_id = refl;
  provider = refl;
  attempt = refl;
  updated_at = refl;
  pid = refl;
}

parse_claim-to_payload_example :
    parse_claim toy (to_payload (claim 1 running)) ≡ ok (claim 1 running)
parse_claim-to_payload_example = parse_claim-to_payload toy (claim 1 running) IsValid-claim
