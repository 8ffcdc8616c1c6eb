-- ===== src/Dispatch/Claims/Done.antt =====
-- What the calls do to the files of finished tasks: src/reports/swarm_reports/dispatch/claims.py.
use mathai_ai_swarm_memory.Common.{
  ◌≡◌, ◌≢◌, ap, ◌∙◌, sym, inl, inr, Bool, Option, none, some, Bool-cases, Option-cases,
  Result-cases, Codes, codes_eq, codes_eq→≡, ok, ok-injective, arith,
}
use mathai_ai_swarm_memory.Dispatch.State.{Formats, ℤ, state_key}
use mathai_ai_swarm_memory.Dispatch.Claims.{
  done, DispatchClaim, Directory, Probe, to_payload, read_json, parse_claim, load,
}
use mathai_ai_swarm_memory.Dispatch.Claims.Calls.{next_attempt, try_claim, close}
use mathai_ai_swarm_memory.Dispatch.Claims.Files.{load-some}
use mathai_ai_swarm_memory.Dispatch.Claims.Tidy.{
  ClaimCall, claiming, closing, run_call, IsOwn, IsTidy, to_payload-IsOwn, write_json-IsTidy,
  read_json-IsOwn, is_done_file, IsDone, write_json-IsDone,
}
use mathai_ai_swarm_memory.Dispatch.Claims.Once.{try_claim-Launched, close-Closed}

module _ (formats : Formats) where
  -- The key of a claim that was loaded is the one it was loaded by.
  pub loaded_key :
      (date task_id key : Codes) (files : Directory) (c : DispatchClaim)
      → IsTidy formats files
      → load formats date task_id files ≡ ok (some c)
      → state_key formats c.date c.task_id ≡ ok key
      → state_key formats date task_id ≡ ok key
  unfolding IsOwn
  loaded_key date task_id key files c tidy loaded own =
      let (key', payload, has_key, found, read) = load-some formats date task_id files c loaded in
      elim (read_json-IsOwn formats key' files payload tidy found) [
        | inl (e, raised) ↦ absurd (ground arith)
        | inr (c', read', own') ↦
            let same : c' ≡ c = ok-injective (sym read' ∙ read) in
            has_key
            ∙ sym own'
            ∙ ap (λ (x : DispatchClaim). state_key formats x.date x.task_id) same
            ∙ own
      ]

  loaded_done :
      (date task_id key : Codes) (files : Directory) (c : DispatchClaim)
      → IsDone formats key files
      → load formats date task_id files ≡ ok (some c)
      → state_key formats date task_id ≡ ok key
      → c.status ≡ done
  unfolding is_done_file
  loaded_done date task_id key files c h loaded own =
      let (key', payload, has_key, found, read) = load-some formats date task_id files c loaded in
      let same_key : key' ≡ key = ok-injective (sym has_key ∙ own) in
      let both : some payload ≡ some h.payload =
        sym found ∙ ap (λ k. read_json k files) same_key ∙ h.found in
      let same : payload ≡ h.payload = cc in let finished = h.done_file in ground arith

  done_found :
      (date task_id key : Codes) (files : Directory)
      → IsDone formats key files
      → state_key formats date task_id ≡ ok key
      → load formats date task_id files ≢ ok none
  unfolding load
  done_found date task_id key files h own lost =
      let found = h.found in
      elim (Result-cases (parse_claim formats h.payload)) [
        | inl (c, read) ↦ ground arith
        | inr (e, raised) ↦ ground arith
      ]

  -- A task that is done is not launched.
  pub done_refused :
      (date task_id key : Codes) (files : Directory)
      → IsDone formats key files
      → state_key formats date task_id ≡ ok key
      → (provider now : Codes) (pid : Option ℤ) (token : Option Codes) (allow_takeover : Bool)
        (probe : Probe) (c : DispatchClaim) (files' : Directory)
      → try_claim formats date task_id provider now pid token allow_takeover probe files
        ≢ ok (c, files')
  unfolding next_attempt
  done_refused date task_id key files h own provider now pid token allow_takeover probe c files'
        launch =
      let l =
        try_claim-Launched formats date task_id provider now pid token allow_takeover probe files
          files' c launch in
      elim (Option-cases l.existing) [
        | inl lost ↦ done_found date task_id key files h own (l.loaded ∙ ap ok lost)
        | inr (old, there) ↦
            let finished = loaded_done date task_id key files old h (l.loaded ∙ ap ok there) own in
            let next : next_attempt probe allow_takeover (some old) ≡ ok c.attempt =
              ap (next_attempt probe allow_takeover) (sym there) ∙ l.next in
            ground arith
      ]

  pub run_call-IsTidy :
      (call : ClaimCall) (files : Directory)
      → IsTidy formats files
      → IsTidy formats (run_call formats call files)
  run_call-IsTidy (claiming date task_id provider now pid token allow_takeover probe) files h =
      elim (Result-cases
        (try_claim formats date task_id provider now pid token allow_takeover probe files)) [
          | inr (e, raised) ↦ rw raised h
          | inl (out, launch) ↦
              let l =
                try_claim-Launched formats date task_id provider now pid token allow_takeover probe
                  files out.1 out.0 launch in
              let own : state_key formats out.0.date out.0.task_id ≡ ok l.key =
                rw (l.own.0) (rw (l.own.1) l.has_key) in
              rw launch (
                rw l.written (
                  write_json-IsTidy formats l.key (to_payload out.0) files
                    (to_payload-IsOwn formats out.0 l.key own) h))
        ]
  run_call-IsTidy (closing date task_id attempt status now error) files h =
      elim (Result-cases (close formats date task_id attempt status now error files)) [
        | inr (e, raised) ↦ rw raised h
        | inl (out, ended) ↦
            let k =
              close-Closed formats date task_id attempt status now error files out.1 out.0 ended in
            let own : state_key formats k.new.date k.new.task_id ≡ ok k.key =
              rw (k.keeps.0) (rw (k.keeps.1) k.has_key) in
            rw ended (
              rw k.written (
                write_json-IsTidy formats k.key (to_payload k.new) files
                  (to_payload-IsOwn formats k.new k.key own) h))
      ]

  pub run_call-IsDone :
      (call : ClaimCall) (key : Codes) (files : Directory)
      → IsTidy formats files
      → IsDone formats key files
      → IsDone formats key (run_call formats call files)
  run_call-IsDone (claiming date task_id provider now pid token allow_takeover probe) key files tidy
        h =
      elim (Result-cases
        (try_claim formats date task_id provider now pid token allow_takeover probe files)) [
          | inr (e, raised) ↦ rw raised h
          | inl (out, launch) ↦
              let l =
                try_claim-Launched formats date task_id provider now pid token allow_takeover probe
                  files out.1 out.0 launch in
              elim (Bool-cases (codes_eq l.key key)) [
                | inl same ↦ absurd (
                    done_refused date task_id key files h
                      (l.has_key ∙ ap ok (codes_eq→≡ l.key key same)) provider now pid token
                      allow_takeover probe out.0 out.1 launch)
                | inr differs ↦
                    rw launch (
                      rw l.written
                        (write_json-IsDone formats key l.key out.0 files (inl differs) h))
              ]
        ]
  run_call-IsDone (closing date task_id attempt status now error) key files tidy h =
      elim (Result-cases (close formats date task_id attempt status now error files)) [
        | inr (e, raised) ↦ rw raised h
        | inl (out, ended) ↦
            let k =
              close-Closed formats date task_id attempt status now error files out.1 out.0 ended in
            rw ended (
              rw k.written (
                write_json-IsDone formats key k.key k.new files
                  (elim (Bool-cases (codes_eq k.key key)) [
                    | inl same ↦
                        let own =
                          loaded_key date task_id k.key files k.old tidy k.loaded k.has_key in
                        let finished =
                          loaded_done date task_id key files k.old h k.loaded
                            (own ∙ ap ok (codes_eq→≡ k.key key same)) in
                        inr (ground (arith, k.fits, k.status_set))
                    | inr differs ↦ inl differs
                  ])
                  h))
      ]
