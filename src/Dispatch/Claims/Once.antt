-- ===== src/Dispatch/Claims/Once.antt =====
-- Launches of one task (`try_claim`, `mark_done` and `mark_failed` of
-- src/reports/swarm_reports/dispatch/claims.py).
use mathai_ai_swarm_memory.Common.{
  ℕ, ◌+◌, ◌≡◌, ◌≢◌, refl, ap, ◌∙◌, sym, ◌⊎◌, inl, inr, Bool, true, false, Option, none, some,
  Bool-cases, Option-cases, Codes, not, ◌||◌, ◌==◌, codes_eq, codes_eq_refl, guard, ok,
  ok-injective, >>=-eq-ok, arith,
}
use mathai_ai_swarm_memory.Dispatch.State.{
  stale_completion, Formats, ℤ, validate_id, validate_iso_date, state_key,
}
use mathai_ai_swarm_memory.Dispatch.Claims.{
  Status, pending, running, done, failed, DispatchClaim, Directory, Probe, to_payload, write_json,
  load, write,
}
use mathai_ai_swarm_memory.Dispatch.Claims.Calls.{
  still_alive, next_attempt, new_claim, is_closed, same_status, try_claim, close, close_claim,
}

differs : (token now_token : Codes) → now_token ≡ token → codes_eq now_token token ≢ false
differs token now_token same h = cc (codes_eq_refl token)

Status-cases : (s : Status) → ((s ≡ pending) ⊎ (s ≡ failed)) ⊎ ((s ≡ done) ⊎ (s ≡ running))
Status-cases pending = inl (inl refl)
Status-cases failed = inl (inr refl)
Status-cases done = inr (inl refl)
Status-cases running = inr (inr refl)

-- Nobody can tell whether the process of a claim runs: the claim names no process, or no start token
-- of it, or the probe has no answer.
pub data IsUntold (probe : Probe) (e : DispatchClaim) : Type 0 where
  no_pid : e.pid ≡ none → IsUntold probe e
  no_token : e.process_token ≡ none → IsUntold probe e
  no_answer : (pid : ℤ) → e.pid ≡ some pid → probe pid ≡ none → IsUntold probe e

still_alive-none :
    (probe : Probe) (e : DispatchClaim) → still_alive probe e ≡ none → IsUntold probe e
unfolding still_alive
still_alive-none probe e h = elim (Option-cases e.pid) [
  | inl missing ↦ no_pid missing
  | inr (pid, own) ↦ elim (Option-cases e.process_token) [
    | inl missing ↦ no_token missing
    | inr (token, known) ↦ elim (Option-cases (probe pid)) [
      | inl silent ↦ no_answer pid own silent
      | inr (answer, told) ↦ elim (Option-cases answer) [
        | inl gone ↦ absurd (ground arith)
        | inr (now_token, there) ↦ absurd (ground arith)
      ]
    ]
  ]
]

still_alive-gone :
    (probe : Probe) (e : DispatchClaim)
    → still_alive probe e ≡ some false
    → (pid : ℤ) × (token : Codes) × (e.pid ≡ some pid)
      × (e.process_token ≡ some token)
      × ((probe pid ≡ some none)
          ⊎ ((now_token : Codes) × (probe pid ≡ some (some now_token)) × (now_token ≢ token)))
unfolding still_alive
still_alive-gone probe e h = elim (Option-cases e.pid) [
  | inl missing ↦ absurd (ground arith)
  | inr (pid, own) ↦ elim (Option-cases e.process_token) [
    | inl missing ↦ absurd (ground arith)
    | inr (token, known) ↦ elim (Option-cases (probe pid)) [
      | inl silent ↦ absurd (ground arith)
      | inr (answer, told) ↦ elim (Option-cases answer) [
        | inl gone ↦ (pid, token, own, known, inl (told ∙ ap some gone))
        | inr (now_token, there) ↦
            let other : codes_eq now_token token ≡ false = ground arith in
            (
              pid,
              token,
              own,
              known,
              inr (now_token, told ∙ ap some there, λ same. differs token now_token same other),
            )
      ]
    ]
  ]
]

-- What allows a launch when this claim, or none, is there.
pub data Evidence (probe : Probe) (allow_takeover : Bool) : Option DispatchClaim → ℕ → Type 0 where
  first : Evidence probe allow_takeover none 1
  not_running :
      (e : DispatchClaim)
      → (e.status ≡ pending) ⊎ (e.status ≡ failed)
      → Evidence probe allow_takeover (some e) (e.attempt + 1)
  process_gone :
      (e : DispatchClaim) (pid : ℤ) (token : Codes)
      → e.status ≡ running
      → e.pid ≡ some pid
      → e.process_token ≡ some token
      → (probe pid ≡ some none)
        ⊎ ((now_token : Codes) × (probe pid ≡ some (some now_token)) × (now_token ≢ token))
      → Evidence probe allow_takeover (some e) (e.attempt + 1)
  takeover :
      (e : DispatchClaim)
      → e.status ≡ running
      → IsUntold probe e
      → allow_takeover ≡ true
      → Evidence probe allow_takeover (some e) (e.attempt + 1)

next_attempt-Evidence :
    (probe : Probe) (allow_takeover : Bool) (existing : Option DispatchClaim) (n : ℕ)
    → next_attempt probe allow_takeover existing ≡ ok n
    → Evidence probe allow_takeover existing n
unfolding next_attempt
next_attempt-Evidence probe allow_takeover none n h = rw (sym (ok-injective h)) first
next_attempt-Evidence probe allow_takeover (some e) n h = elim (Status-cases e.status) [
  | inl (inl is_pending) ↦
      let same : e.attempt + 1 ≡ n = ground arith in rw (sym same) (not_running e (inl is_pending))
  | inl (inr is_failed) ↦
      let same : e.attempt + 1 ≡ n = ground arith in rw (sym same) (not_running e (inr is_failed))
  | inr (inl is_done) ↦ absurd (ground arith)
  | inr (inr is_running) ↦ elim (Option-cases (still_alive probe e)) [
    | inl unknown ↦ elim (Bool-cases allow_takeover) [
      | inl allowed ↦
          let same : e.attempt + 1 ≡ n = ground arith in
          rw (sym same) (takeover e is_running (still_alive-none probe e unknown) allowed)
      | inr refused ↦ absurd (ground arith)
    ]
    | inr (alive, known) ↦ elim (Bool-cases alive) [
      | inl lives ↦ absurd (ground arith)
      | inr gone ↦
          let same : e.attempt + 1 ≡ n = ground arith in
          let (pid, token, own, started, lost) = still_alive-gone probe e (known ∙ ap some gone) in
          rw (sym same) (process_gone e pid token is_running own started lost)
    ]
  ]
]

module _ (formats : Formats) where
  -- What a launch has read and written.
  pub record Launched (date task_id : Codes) (allow_takeover : Bool) (probe : Probe)
      (files files' : Directory) (c : DispatchClaim) : Type 0 where
    pub key : Codes
    pub existing : Option DispatchClaim
    pub has_key : state_key formats date task_id ≡ ok key
    pub loaded : load formats date task_id files ≡ ok existing
    pub next : next_attempt probe allow_takeover existing ≡ ok c.attempt
    pub own : (c.date ≡ date) × (c.task_id ≡ task_id) × (c.status ≡ running)
    pub written : files' ≡ write_json key (to_payload c) files

  pub try_claim-Launched :
      (date task_id provider now : Codes) (pid : Option ℤ) (token : Option Codes)
      (allow_takeover : Bool) (probe : Probe) (files files' : Directory) (c : DispatchClaim)
      → try_claim formats date task_id provider now pid token allow_takeover probe files
        ≡ ok (c, files')
      → Launched date task_id allow_takeover probe files files' c
  unfolding try_claim write
  try_claim-Launched date task_id provider now pid token allow_takeover probe files files' c h =
      let (v1, e1, h1) = >>=-eq-ok (validate_id provider) _ h in
      let (key, e2, h2) = >>=-eq-ok (state_key formats date task_id) _ h1 in
      let (existing, e3, h3) = >>=-eq-ok (load formats date task_id files) _ h2 in
      let (n, e4, h4) = >>=-eq-ok (next_attempt probe allow_takeover existing) _ h3 in
      let (v5, e5, h5) = >>=-eq-ok (validate_iso_date formats date) _ h4 in
      let (v6, e6, h6) = >>=-eq-ok (validate_id task_id) _ h5 in
      let (out, e7, h7) =
        >>=-eq-ok (write formats (new_claim date task_id provider now pid token n) files) _ h6 in
      let both : (new_claim date task_id provider now pid token n, out) ≡ (c, files') =
        ok-injective h7 in
      let claim : new_claim date task_id provider now pid token n ≡ c =
        ap (λ (x : DispatchClaim × Directory). x.0) both in
      let stored : write_json key (to_payload (new_claim date task_id provider now pid token n))
            files
          ≡ out =
        ground arith in
      record {
        key = key;
        existing = existing;
        has_key = e2;
        loaded = e3;
        next = e4 ∙ ap (λ (x : DispatchClaim). ok x.attempt) claim;
        own = (
          sym (ap (λ (x : DispatchClaim). x.date) claim),
          sym (ap (λ (x : DispatchClaim). x.task_id) claim),
          sym (ap (λ (x : DispatchClaim). x.status) claim),
        );
        written =
            sym (ap (λ (x : DispatchClaim × Directory). x.1) both)
            ∙ sym stored
            ∙ ap (λ (x : DispatchClaim). write_json key (to_payload x) files) claim;
      }

  -- A launch has found no claim, or one that was pending or has failed, or a running one that names
  -- a process and its start token where the probe answers that there is no such process or one with
  -- another token, or a running one that names no process or no token or for which the probe has no
  -- answer, which the operator takes over; its attempt is one more than the one found, and the first
  -- is 1.
  pub try_claim-Evidence :
      (date task_id provider now : Codes) (pid : Option ℤ) (token : Option Codes)
      (allow_takeover : Bool) (probe : Probe) (files files' : Directory) (c : DispatchClaim)
      → try_claim formats date task_id provider now pid token allow_takeover probe files
        ≡ ok (c, files')
      → (existing : Option DispatchClaim) × (load formats date task_id files ≡ ok existing)
        × Evidence probe allow_takeover existing c.attempt
  try_claim-Evidence date task_id provider now pid token allow_takeover probe files files' c h =
      let l =
        try_claim-Launched date task_id provider now pid token allow_takeover probe files files' c
          h in
      (l.existing, l.loaded, next_attempt-Evidence probe allow_takeover l.existing c.attempt l.next)

  -- What a completion has read and written.
  pub record Closed (date task_id : Codes) (attempt : ℕ) (status : Status)
      (files files' : Directory) : Type 0 where
    pub old : DispatchClaim
    pub new : DispatchClaim
    pub key : Codes
    pub loaded : load formats date task_id files ≡ ok (some old)
    pub current : attempt ≡ old.attempt
    pub fits : (not (is_closed old.status) || same_status old.status status) ≡ true
    pub status_set : new.status ≡ status
    pub has_key : state_key formats old.date old.task_id ≡ ok key
    pub keeps : (new.date ≡ old.date) × (new.task_id ≡ old.task_id)
    pub written : files' ≡ write_json key (to_payload new) files

  pub close-Closed :
      (date task_id : Codes) (attempt : ℕ) (status : Status) (now : Codes) (error : Option Codes)
      (files files' : Directory) (c : DispatchClaim)
      → close formats date task_id attempt status now error files ≡ ok (c, files')
      → Closed date task_id attempt status files files'
  unfolding close close_claim write
  close-Closed date task_id attempt status now error files files' c h =
      let (key, e1, h1) = >>=-eq-ok (state_key formats date task_id) _ h in
      let (found, e2, h2) = >>=-eq-ok (load formats date task_id files) _ h1 in
      elim (Option-cases found) [
        | inl lost ↦ absurd (ground arith)
        | inr (old, there) ↦
            let h2' : close_claim formats attempt status now error files old ≡ ok (c, files') =
              ground arith in
            let (u3, e3, h3) = >>=-eq-ok (guard (attempt == old.attempt) stale_completion) _ h2' in
            let (u4, e4, h4) =
              >>=-eq-ok
                (guard (not (is_closed old.status) || same_status old.status status)
                  stale_completion)
                _ h3 in
            let closed = record old { status = status; error = error; updated_at = now } in
            let (out, e5, h5) = >>=-eq-ok (write formats closed files) _ h4 in
            let (own_key, e6, h6) = >>=-eq-ok (state_key formats old.date old.task_id) _ e5 in
            record {
              old = old;
              new = closed;
              key = own_key;
              loaded = e2 ∙ ap ok there;
              current = ground arith;
              fits = ground arith;
              status_set = refl;
              has_key = e6;
              keeps = (refl, refl);
              written =
                  sym (ap (λ (x : DispatchClaim × Directory). x.1) (ok-injective h5))
                  ∙ sym (ok-injective h6);
            }
      ]
