-- ===== src/Dispatch/Claims/Tidy.antt =====
-- Claim files that hold the claims of their own names, and files of finished tasks:
-- src/reports/swarm_reports/dispatch/claims.py.
use mathai_ai_swarm_memory.Common.{
  ℕ, ◌≡◌, ◌∙◌, sym, ◌⊎◌, inl, inr, Bool, true, false, List, [], ◌∷◌, Option, some, Bool-cases,
  Result-cases, All, Codes, codes_eq, codes_eq→≡, Result, ok, err, arith,
}
use mathai_ai_swarm_memory.Dispatch.State.{Formats, Payload, ℤ, Error, state_key}
use mathai_ai_swarm_memory.Dispatch.Claims.{
  Status, done, DispatchClaim, Directory, Probe, to_payload, read_json, write_json, parse_claim,
}
use mathai_ai_swarm_memory.Dispatch.Claims.Calls.{try_claim, close}
use mathai_ai_swarm_memory.Dispatch.Claims.Files.{
  read_json-write_json, read_json-write_json_other, parse_claim-IsSame,
}

-- A call of a method that writes.
pub data ClaimCall : Type 0 where
  claiming : Codes → Codes → Codes → Codes → Option ℤ → Option Codes → Bool → Probe → ClaimCall
  closing : Codes → Codes → ℕ → Status → Codes → Option Codes → ClaimCall

-- The files after a method: those before it when it raises.
abbrev pub files_after : Directory → Result Error (DispatchClaim × Directory) → Directory
files_after files (ok (c, files')) = files'
files_after files (err e) = files

module _ (formats : Formats) where
  abbrev pub run_call : ClaimCall → Directory → Directory
  run_call (claiming date task_id provider now pid token allow_takeover probe) files =
      files_after files
        (try_claim formats date task_id provider now pid token allow_takeover probe files)
  run_call (closing date task_id attempt status now error) files =
      files_after files (close formats date task_id attempt status now error files)

  abbrev pub run_calls : List ClaimCall → Directory → Directory
  run_calls [] files = files
  run_calls (call ∷ calls) files = run_calls calls (run_call call files)

  -- A file that can be read holds the claim of its own name.
  unfoldable pub IsOwn : Codes → Payload → Type 0
  IsOwn key payload =
      ((e : Error) × (parse_claim formats payload ≡ err e))
      ⊎ ((c : DispatchClaim) × (parse_claim formats payload ≡ ok c)
          × (state_key formats c.date c.task_id ≡ ok key))

  -- Every file does.
  pub IsTidy : Directory → Type 0
  IsTidy files = All (λ file. IsOwn file.0 file.1) files

  pub empty-IsTidy : IsTidy []
  unfolding IsTidy
  empty-IsTidy = tt

  pub to_payload-IsOwn :
      (c : DispatchClaim) (key : Codes)
      → state_key formats c.date c.task_id ≡ ok key
      → IsOwn key (to_payload c)
  unfolding IsOwn
  to_payload-IsOwn c key h = elim (Result-cases (parse_claim formats (to_payload c))) [
    | inr (e, raised) ↦ inl (e, raised)
    | inl (c', read) ↦
        let same = parse_claim-IsSame formats c c' read in
        inr (c', read, rw same.date (rw same.task_id h))
  ]

  pub write_json-IsTidy :
      (key : Codes) (payload : Payload) (files : Directory)
      → IsOwn key payload
      → IsTidy files
      → IsTidy (write_json key payload files)
  unfolding IsTidy
  write_json-IsTidy key payload [] own h = (own, tt)
  write_json-IsTidy key payload (file ∷ files) own h = elim (Bool-cases (codes_eq file.0 key)) [
    | inl same ↦ rw same (own, h.1)
    | inr differs ↦ rw differs (h.0, write_json-IsTidy key payload files own h.1)
  ]

  pub read_json-IsOwn :
      (key : Codes) (files : Directory) (payload : Payload)
      → IsTidy files
      → read_json key files ≡ some payload
      → IsOwn key payload
  unfolding IsTidy
  read_json-IsOwn key [] payload h found = cc
  read_json-IsOwn key (file ∷ files) payload h found = elim (Bool-cases (codes_eq file.0 key)) [
    | inl same ↦
        let name : file.0 ≡ key = codes_eq→≡ file.0 key same in
        let here : file.1 ≡ payload = ground arith in rw (sym name) (rw (sym here) h.0)
    | inr differs ↦ read_json-IsOwn key files payload h.1 (ground arith)
  ]

  -- The claim of this name is done, or nobody can read it.
  unfoldable pub is_done_file : Payload → Bool
  is_done_file payload = elim (parse_claim formats payload) [
    | err e ↦ true
    | ok c ↦ elim c.status [ done ↦ true | _ ↦ false ]
  ]

  pub record IsDone (key : Codes) (files : Directory) : Type 0 where
    pub payload : Payload
    pub found : read_json key files ≡ some payload
    pub done_file : is_done_file payload ≡ true

  pub to_payload-done : (c : DispatchClaim) → c.status ≡ done → is_done_file (to_payload c) ≡ true
  unfolding is_done_file
  to_payload-done c h = elim (Result-cases (parse_claim formats (to_payload c))) [
    | inr (e, raised) ↦ ground arith
    | inl (c', read) ↦
        let finished : c'.status ≡ done = (parse_claim-IsSame formats c c' read).status ∙ h in
        ground arith
  ]

  -- A write under another name, or of a claim that is done.
  pub write_json-IsDone :
      (key name : Codes) (c : DispatchClaim) (files : Directory)
      → (codes_eq name key ≡ false) ⊎ (c.status ≡ done)
      → IsDone key files
      → IsDone key (write_json name (to_payload c) files)
  write_json-IsDone key name c files (inl differs) h = record {
    payload = h.payload;
    found = read_json-write_json_other key name (to_payload c) files differs ∙ h.found;
    done_file = h.done_file;
  }
  write_json-IsDone key name c files (inr finished) h = elim (Bool-cases (codes_eq name key)) [
    | inl same ↦
        let here : name ≡ key = codes_eq→≡ name key same in
        record {
          payload = to_payload c;
          found = rw (sym here) (read_json-write_json name (to_payload c) files);
          done_file = to_payload-done c finished;
        }
    | inr differs ↦ record {
      payload = h.payload;
      found = read_json-write_json_other key name (to_payload c) files differs ∙ h.found;
      done_file = h.done_file;
    }
  ]
