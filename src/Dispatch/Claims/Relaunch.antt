-- ===== src/Dispatch/Claims/Relaunch.antt =====
-- Relaunches and stragglers of one task (src/reports/swarm_reports/dispatch/claims.py).
use mathai_ai_swarm_memory.Common.{
  ℕ, ◌+◌, ◌≡◌, ◌≢◌, refl, ap, ◌∙◌, sym, Bool, List, [], ◌∷◌, Option, none, some, Codes, ok,
  ok-injective, arith,
}
use mathai_ai_swarm_memory.Dispatch.State.{Formats, ℤ, state_key}
use mathai_ai_swarm_memory.Dispatch.Claims.{
  Status, done, DispatchClaim, Directory, Probe, to_payload, parse_claim, read_json, load,
}
use mathai_ai_swarm_memory.Dispatch.Claims.Calls.{try_claim, close, mark_done}
use mathai_ai_swarm_memory.Dispatch.Claims.Files.{
  read_json-write_json, parse_claim-IsSame, load-some,
}
use mathai_ai_swarm_memory.Dispatch.Claims.Once.{
  try_claim-Launched, try_claim-Evidence, close-Closed, Evidence, not_running, process_gone,
  takeover,
}
use mathai_ai_swarm_memory.Dispatch.Claims.Tidy.{
  ClaimCall, files_after, closing, run_calls, run_call, IsTidy, empty-IsTidy, IsDone,
  to_payload-done,
}
use mathai_ai_swarm_memory.Dispatch.Claims.Done.{
  run_call-IsTidy, run_call-IsDone, done_refused, loaded_key,
}

module _ (formats : Formats) where
  run_calls-IsTidy :
      (calls : List ClaimCall) (files : Directory)
      → IsTidy formats files
      → IsTidy formats (run_calls formats calls files)
  run_calls-IsTidy [] files h = h
  run_calls-IsTidy (call ∷ calls) files h =
      run_calls-IsTidy calls (run_call formats call files) (run_call-IsTidy formats call files h)

  run_calls-IsDone :
      (calls : List ClaimCall) (key : Codes) (files : Directory)
      → IsTidy formats files
      → IsDone formats key files
      → IsDone formats key (run_calls formats calls files)
  run_calls-IsDone [] key files tidy h = h
  run_calls-IsDone (call ∷ calls) key files tidy h =
      run_calls-IsDone calls key (run_call formats call files)
        (run_call-IsTidy formats call files tidy) (run_call-IsDone formats call key files tidy h)

  mark_done-IsDone :
      (date task_id key : Codes) (attempt : ℕ) (now : Codes) (files files' : Directory)
      (c : DispatchClaim)
      → IsTidy formats files
      → state_key formats date task_id ≡ ok key
      → mark_done formats date task_id attempt now files ≡ ok (c, files')
      → IsDone formats key files'
  mark_done-IsDone date task_id key attempt now files files' c tidy own h =
      let k = close-Closed formats date task_id attempt done now none files files' c h in
      let there = loaded_key formats date task_id k.key files k.old tidy k.loaded k.has_key in
      let same : k.key ≡ key = ok-injective (sym there ∙ own) in
      rw k.written (
        rw same (record {
          payload = to_payload k.new;
          found = read_json-write_json key (to_payload k.new) files;
          done_file = to_payload-done formats k.new k.status_set;
        }))

  module _ (before : List ClaimCall) (date task_id : Codes) (attempt : ℕ) (finished : Codes)
      (c : DispatchClaim) (files : Directory)
      (closes : mark_done formats date task_id attempt finished (run_calls formats before [])
        ≡ ok (c, files))
      (after : List ClaimCall) where
    -- A task that was marked done is never launched again for its date: whatever calls made the
    -- files and whatever calls follow, no later claim of that task for that date succeeds, at any
    -- time, by any provider and with or without a takeover.
    pub done_never_relaunched :
        (provider now : Codes) (pid : Option ℤ) (token : Option Codes) (allow_takeover : Bool)
        (probe : Probe) (c' : DispatchClaim) (files' : Directory)
        → try_claim formats date task_id provider now pid token allow_takeover probe
            (run_calls formats after files)
          ≢ ok (c', files')
    done_never_relaunched provider now pid token allow_takeover probe c' files' =
        let start = run_calls formats before [] in
        let tidy : IsTidy formats start = run_calls-IsTidy before [] (empty-IsTidy formats) in
        let k = close-Closed formats date task_id attempt done finished none start files c closes in
        let (key, payload, has_key, found, read) =
          load-some formats date task_id start k.old k.loaded in
        let ended =
          mark_done-IsDone date task_id key attempt finished start files c tidy has_key closes in
        let tidy' =
          run_call-IsTidy formats (closing date task_id attempt done finished none) start tidy in
        done_refused formats date task_id key (run_calls formats after files)
          (run_calls-IsDone after key files (rw (sym (ap (files_after start) closes)) tidy') ended)
          has_key provider now pid token allow_takeover probe c' files'

  -- The attempt of a launch is above the one that it found.
  Evidence-attempt :
      (probe : Probe) (allow_takeover : Bool) (e : DispatchClaim) (n : ℕ)
      → Evidence probe allow_takeover (some e) n
      → n ≡ e.attempt + 1
  Evidence-attempt probe allow_takeover _ _ (not_running e status) = refl
  Evidence-attempt probe allow_takeover _ _ (process_gone e pid token status own known gone) = refl
  Evidence-attempt probe allow_takeover _ _ (takeover e status unknown allowed) = refl

  -- After a relaunch, a completion of the attempt before it, on the files that the relaunch left, is
  -- refused, whatever it reports.
  pub straggler_refused :
      (date task_id provider now : Codes) (pid : Option ℤ) (token : Option Codes)
      (allow_takeover : Bool) (probe : Probe) (files files' : Directory) (old new : DispatchClaim)
      → load formats date task_id files ≡ ok (some old)
      → try_claim formats date task_id provider now pid token allow_takeover probe files
        ≡ ok (new, files')
      → (status : Status) (later : Codes) (error : Option Codes) (c : DispatchClaim)
        (files'' : Directory)
      → close formats date task_id old.attempt status later error files' ≢ ok (c, files'')
  straggler_refused date task_id provider now pid token allow_takeover probe files files' old new
        found launch status later error c files'' ended =
      let (existing, loaded, evidence) =
        try_claim-Evidence formats date task_id provider now pid token allow_takeover probe files
          files' new launch in
      let l =
        try_claim-Launched formats date task_id provider now pid token allow_takeover probe files
          files' new launch in
      let k =
        close-Closed formats date task_id old.attempt status later error files' files'' c ended in
      let (key, payload, has_key, stored, read) =
        load-some formats date task_id files' k.old k.loaded in
      let same_key : key ≡ l.key = ok-injective (sym has_key ∙ l.has_key) in
      let both : some payload ≡ some (to_payload new) =
        sym stored
        ∙ ap (λ x. read_json x files') same_key
        ∙ ap (read_json l.key) l.written
        ∙ read_json-write_json l.key (to_payload new) files in
      let same : payload ≡ to_payload new = cc in
      let attempt =
        (parse_claim-IsSame formats new k.old
          (ap (parse_claim formats) (sym same) ∙ read)).attempt in
      let there : existing ≡ some old = ok-injective (sym loaded ∙ found) in
      let next = Evidence-attempt probe allow_takeover old new.attempt (rw (sym there) evidence) in
      let current = k.current in omega arith
