-- ===== src/Oauth/Codes/Once.antt =====
-- Single use of authorization codes (`consume_code` of src/auth-broker/app/mcp_oauth/store.py).
use mathai_ai_swarm_memory.Common.{
  ℕ, ◌≡◌, ◌≢◌, sym, ap, ◌∙◌, inl, inr, Bool, true, false, not, ◌||◌, List, [], ◌∷◌, ◌++◌, some, All,
  find, any, any-append, any-delete_false, any-update_false, any-update_own, find-holds,
  find-holds_any, update_where, String, str_eq, ok, ◌>>◌, arith, Option-cases, committed_keeps,
  committed-ok, committed-ran,
}
use mathai_ai_swarm_memory.Broker.Store.{Datetime, is_null, is_before}
use mathai_ai_swarm_memory.Oauth.Store.{OauthStore, CodeRow, TextOrder, needs_aware}
use mathai_ai_swarm_memory.Oauth.Clients.{prune, pruned, has_lapsed}
use mathai_ai_swarm_memory.Oauth.Codes.{
  OauthCode, is_code, is_unused_code, consume_code_row, new_code, to_code, put_code, put_code_tx,
  consume_code, consume_code_tx,
}

-- A call of a method that writes codes.
pub data CodeCall : Type 0 where
  putting : String → OauthCode → Datetime → CodeCall
  taking : String → Datetime → CodeCall
  pruning : Datetime → ℕ → CodeCall

-- A call that does not issue this very code again; codes are random.
abbrev pub is_other_code : String → CodeCall → Bool
is_other_code code_hash (putting other code expires_at) = not (str_eq other code_hash)
is_other_code code_hash _ = true

-- No code of this hash is unused.
abbrev pub is_used_up : String → OauthStore → Bool
is_used_up code_hash st = not (any (is_unused_code code_hash) st.codes)

put_code_tx-codes :
    (code_hash : String) (code : OauthCode) (expires_at : Datetime) (st st' : OauthStore)
    (a : Unit {0})
    → put_code_tx code_hash code expires_at st ≡ ok (a, st')
    → st'.codes ≡ st.codes ++ new_code code_hash code expires_at ∷ []
unfolding put_code_tx
put_code_tx-codes code_hash code expires_at st st' a h = ground arith

-- What a consumption that succeeds has found and left.
pub consume_code_tx-codes :
    (code_hash : String) (now : Datetime) (st st' : OauthStore) (code : OauthCode)
    → consume_code_tx code_hash now st ≡ ok (code, st')
    → (c : CodeRow) × (find (is_code code_hash) st.codes ≡ some c)
      × (is_null c.consumed_at ≡ true)
      × (is_before now c.expires_at ≡ true)
      × (code ≡ to_code c)
      × (st' ≡ record st {
        codes = update_where (is_unused_code code_hash) (consume_code_row now) st.codes;
      })
unfolding consume_code_tx
consume_code_tx-codes code_hash now st st' code h =
    elim (Option-cases (find (is_code code_hash) st.codes)) [
      | inl lost ↦ absurd (ground arith)
      | inr (c, found) ↦ (c, found, ground arith, ground arith, ground arith, ground arith)
    ]

consumed_is_used :
    (code_hash : String) (now : Datetime) (x : CodeRow)
    → is_unused_code code_hash (consume_code_row now x) ≡ false
consumed_is_used code_hash now x = ground arith

module _ (precedes : TextOrder) where
  abbrev pub run_call : CodeCall → OauthStore → OauthStore
  run_call (putting code_hash code expires_at) st = (put_code code_hash code expires_at st).1
  run_call (taking code_hash now) st = (consume_code code_hash now st).1
  run_call (pruning now window) st = (prune precedes now window st).1

  abbrev pub run_calls : List CodeCall → OauthStore → OauthStore
  run_calls [] st = st
  run_calls (call ∷ calls) st = run_calls calls (run_call call st)

  module _ (code_hash : String) where
    abbrev IsUsed : OauthStore → Type 0
    IsUsed st = any (is_unused_code code_hash) st.codes ≡ false

    pub run_call-IsUsed :
        (call : CodeCall) (st : OauthStore)
        → is_other_code code_hash call ≡ true
        → IsUsed st
        → IsUsed (run_call call st)
    unfolding put_code consume_code prune
    run_call-IsUsed (putting other code expires_at) st fresh h =
        committed_keeps IsUsed st (put_code_tx other code expires_at st) h (λ a st' e.
          ap (any (is_unused_code code_hash)) (put_code_tx-codes other code expires_at st st' a e)
          ∙ any-append (is_unused_code code_hash) st.codes (new_code other code expires_at ∷ [])
          ∙ ground (arith, h, fresh))
    run_call-IsUsed (taking other now) st fresh h =
        committed_keeps IsUsed st (consume_code_tx other now st) h (λ code st' e.
          let (c, found, unused, in_time, same, after) =
            consume_code_tx-codes other now st st' code e in
          rw after (
            any-update_false (is_unused_code code_hash) (is_unused_code other)
              (consume_code_row now) st.codes (consumed_is_used code_hash now) h))
    run_call-IsUsed (pruning now window) st fresh h =
        committed_keeps IsUsed st (needs_aware now >> ok (tt, pruned precedes now window st)) h
          (λ a st' e.
            let after : pruned precedes now window st ≡ st' = ground arith in
            rw (sym after) (
              any-delete_false (is_unused_code code_hash)
                (λ (c : CodeRow).
                  has_lapsed precedes now c.expires_at || not (is_null c.consumed_at))
                st.codes h))

    pub run_calls-IsUsed :
        (calls : List CodeCall) (st : OauthStore)
        → All (λ call. is_other_code code_hash call ≡ true) calls
        → IsUsed st
        → IsUsed (run_calls calls st)
    run_calls-IsUsed [] st fresh h = h
    run_calls-IsUsed (call ∷ calls) st fresh h =
        run_calls-IsUsed calls (run_call call st) fresh.1 (run_call-IsUsed call st fresh.0 h)

    -- A consumption leaves no unused code of the hash.
    pub consume_code-IsUsed :
        (now : Datetime) (st st' : OauthStore) (code : OauthCode)
        → consume_code code_hash now st ≡ (ok code, st')
        → IsUsed st'
    unfolding consume_code
    consume_code-IsUsed now st st' code h =
        let (c, found, unused, in_time, same, after) =
          consume_code_tx-codes code_hash now st st' code
            (committed-ok st (consume_code_tx code_hash now st) code st' h) in
        rw after (
          any-update_own (is_unused_code code_hash) (consume_code_row now) st.codes
            (consumed_is_used code_hash now))

    pub IsUsed-refused :
        (now : Datetime) (st : OauthStore) (code : OauthCode)
        → IsUsed st
        → (consume_code code_hash now st).0 ≢ ok code
    unfolding consume_code
    IsUsed-refused now st code used h =
        let (st', ran) = committed-ran st (consume_code_tx code_hash now st) code h in
        let (c, found, unused, in_time, same, after) =
          consume_code_tx-codes code_hash now st st' code ran in
        let there =
          find-holds_any (is_code code_hash) (is_unused_code code_hash) st.codes c found
            (rw (find-holds (is_code code_hash) st.codes c found) unused) in
        ground arith

  -- A code that was consumed is not consumed again, at any time, whatever calls that issue other
  -- codes, consume codes or prune the tables come in between.
  consume_code_once :
      (code_hash : String) (now : Datetime) (st st' : OauthStore) (code : OauthCode)
      → consume_code code_hash now st ≡ (ok code, st')
      → (calls : List CodeCall) → All (λ call. is_other_code code_hash call ≡ true) calls
      → (later : Datetime) (again : OauthCode)
      → (consume_code code_hash later (run_calls calls st')).0 ≢ ok again
  consume_code_once code_hash now st st' code h calls fresh later again =
      IsUsed-refused code_hash later (run_calls calls st') again (
        run_calls-IsUsed code_hash calls st' fresh
          (consume_code-IsUsed code_hash now st st' code h))
