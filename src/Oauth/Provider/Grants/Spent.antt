-- ===== src/Oauth/Provider/Grants/Spent.antt =====
-- One exchange for each code (`token` and `revoke` of src/auth-broker/app/mcp_oauth/provider.py).
use mathai_ai_swarm_memory.Common.{
  ◌≡◌, refl, ap, ◌∙◌, inl, inr, Bool, true, false, List, [], ◌∷◌, All, any, String, ok, Bool-cases,
  Result-cases,
}
use mathai_ai_swarm_memory.Broker.Store.{Datetime, Store}
use mathai_ai_swarm_memory.Oauth.Store.{Reply, OauthStore}
use mathai_ai_swarm_memory.Oauth.Codes.{OauthCode, is_unused_code, consume_code}
use mathai_ai_swarm_memory.Oauth.Codes.Once.{
  CodeCall, taking, is_other_code, run_call, run_call-IsUsed, consume_code-IsUsed, IsUsed-refused,
}
use mathai_ai_swarm_memory.Oauth.Provider.{
  Form, field_or_empty, is_field, Draws, Settings, code_grant, refresh_grant, revoke,
}
use mathai_ai_swarm_memory.Oauth.Provider.Grants.{has_tokens, caught-has_tokens}
use mathai_ai_swarm_memory.Oauth.Provider.Grants.Unchanged.{
  code_grant-codes, refresh_grant-codes, revoke-codes,
}

-- A request to the token and revocation endpoints, or another call that writes codes.
pub data GrantCall : Type 0 where
  exchanging_code : Form → Datetime → Draws → Store → GrantCall
  refreshing : Form → Datetime → Draws → Store → GrantCall
  revoking : Form → Datetime → GrantCall
  storing : CodeCall → GrantCall

-- A call that does not issue this very code again; codes are random.
abbrev pub is_other_grant : String → GrantCall → Bool
is_other_grant code_hash (storing call) = is_other_code code_hash call
is_other_grant code_hash _ = true

module _ (settings : Settings) where
  abbrev pub run_grant : GrantCall → OauthStore → OauthStore
  run_grant (exchanging_code form now draws ps) st = (code_grant settings form now draws ps st).1
  run_grant (refreshing form now draws ps) st = (refresh_grant settings form now draws ps st).1
  run_grant (revoking form now) st = (revoke settings form now st).1
  run_grant (storing call) st = run_call settings.texts.precedes call st

  abbrev pub run_grants : List GrantCall → OauthStore → OauthStore
  run_grants [] st = st
  run_grants (call ∷ calls) st = run_grants calls (run_grant call st)

  -- No code of the hash is unused.
  abbrev IsSpentCode : String → OauthStore → Type 0
  IsSpentCode code_hash st = any (is_unused_code code_hash) st.codes ≡ false

  same-IsSpentCode :
      (code_hash : String) (st st' : OauthStore)
      → st'.codes ≡ st.codes
      → IsSpentCode code_hash st
      → IsSpentCode code_hash st'
  same-IsSpentCode code_hash st st' e h = ap (any (is_unused_code code_hash)) e ∙ h

  code_grant-IsSpentCode :
      (code_hash : String) (form : Form) (now : Datetime) (draws : Draws) (ps : Store)
      (st : OauthStore)
      → IsSpentCode code_hash st
      → IsSpentCode code_hash (code_grant settings form now draws ps st).1
  unfolding code_grant
  code_grant-IsSpentCode code_hash form now draws ps st h =
      let presented = settings.digest (field_or_empty "code" form) in
      elim (Bool-cases (is_field "resource" settings.audience form)) [
        | inr other ↦ rw (other, code_grant) h
        | inl resource ↦
            same-IsSpentCode code_hash (consume_code presented now st).1
              (code_grant settings form now draws ps st).1
              (code_grant-codes settings form now draws ps st resource)
              (run_call-IsUsed settings.texts.precedes code_hash (taking presented now) st refl h)
      ]

  run_grant-IsSpentCode :
      (code_hash : String) (call : GrantCall) (st : OauthStore)
      → is_other_grant code_hash call ≡ true
      → IsSpentCode code_hash st
      → IsSpentCode code_hash (run_grant call st)
  run_grant-IsSpentCode code_hash (exchanging_code form now draws ps) st fresh h =
      code_grant-IsSpentCode code_hash form now draws ps st h
  run_grant-IsSpentCode code_hash (refreshing form now draws ps) st fresh h =
      same-IsSpentCode code_hash st (refresh_grant settings form now draws ps st).1
        (refresh_grant-codes settings form now draws ps st) h
  run_grant-IsSpentCode code_hash (revoking form now) st fresh h =
      same-IsSpentCode code_hash st (revoke settings form now st).1
        (revoke-codes settings form now st) h
  run_grant-IsSpentCode code_hash (storing call) st fresh h =
      run_call-IsUsed settings.texts.precedes code_hash call st fresh h

  run_grants-IsSpentCode :
      (code_hash : String) (calls : List GrantCall) (st : OauthStore)
      → All (λ call. is_other_grant code_hash call ≡ true) calls
      → IsSpentCode code_hash st
      → IsSpentCode code_hash (run_grants calls st)
  run_grants-IsSpentCode code_hash [] st fresh h = h
  run_grants-IsSpentCode code_hash (call ∷ calls) st fresh h =
      run_grants-IsSpentCode code_hash calls (run_grant call st) fresh.1
        (run_grant-IsSpentCode code_hash call st fresh.0 h)

  spent-refused :
      (form : Form) (now : Datetime) (draws : Draws) (ps : Store) (st : OauthStore)
      → IsSpentCode (settings.digest (field_or_empty "code" form)) st
      → has_tokens (code_grant settings form now draws ps st).0 ≡ false
  unfolding code_grant
  spent-refused form now draws ps st h =
      let code_hash = settings.digest (field_or_empty "code" form) in
      elim (Bool-cases (is_field "resource" settings.audience form)) [
        | inr other ↦ rw (other, code_grant) refl
        | inl resource ↦ elim (Result-cases (consume_code code_hash now st).0) [
          | inr (e, raised) ↦ rw (resource, raised, code_grant) (caught-has_tokens e)
          | inl (code, ran) ↦
              absurd (IsUsed-refused settings.texts.precedes code_hash now st code h ran)
        ]
      ]

  -- After a form with the resource has presented a code that was stored, unused and in time, no
  -- form gets tokens for that code, at any time and whatever the first form was answered, whatever
  -- exchanges, refreshes, revocations and calls that store other codes come in between.
  pub code_grant_once :
      (form : Form) (now : Datetime) (draws : Draws) (ps : Store) (st st' : OauthStore)
      (code : OauthCode)
      → is_field "resource" settings.audience form ≡ true
      → consume_code (settings.digest (field_or_empty "code" form)) now st ≡ (ok code, st')
      → (calls : List GrantCall)
      → All
          (λ call. is_other_grant (settings.digest (field_or_empty "code" form)) call ≡ true)
          calls
      → (again : Form) (later : Datetime) (draws' : Draws) (ps' : Store)
      → field_or_empty "code" again ≡ field_or_empty "code" form
      → has_tokens
          (code_grant settings again later draws' ps'
            (run_grants calls (code_grant settings form now draws ps st).1)).0
        ≡ false
  code_grant_once form now draws ps st st' code resource took calls fresh again later draws' ps'
        same =
      let code_hash = settings.digest (field_or_empty "code" form) in
      let after = (code_grant settings form now draws ps st).1 in
      let spent : IsSpentCode code_hash after =
        same-IsSpentCode code_hash st' after
          (code_grant-codes settings form now draws ps st resource
            ∙ ap (λ (o : Reply OauthCode). o.1.codes) took)
          (consume_code-IsUsed settings.texts.precedes code_hash now st st' code took) in
      spent-refused again later draws' ps' (run_grants calls after)
        (rw same (run_grants-IsSpentCode code_hash calls after fresh spent))
