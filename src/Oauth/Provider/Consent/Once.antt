-- ===== src/Oauth/Provider/Consent/Once.antt =====
-- One code for each transaction (`github_callback` of src/auth-broker/app/mcp_oauth/provider.py).
use mathai_ai_swarm_memory.Common.{
  ℕ, ◌≡◌, refl, sym, ap, ◌∙◌, inl, inr, ◌⊎◌, Bool, true, false, not, ◌&&◌, List, [], ◌∷◌, some, All,
  find, find-holds, find-holds_any, String, str_eq, eq_iff, Result, ok, err, arith, Option-cases,
  Bool-cases, Result-cases,
}
use mathai_ai_swarm_memory.Broker.Store.{Datetime, Store}
use mathai_ai_swarm_memory.Oauth.Store.{
  OauthError, pending_github, exchanging, TransactionRow, OauthStore,
}
use mathai_ai_swarm_memory.Oauth.Clients.{get_client}
use mathai_ai_swarm_memory.Oauth.Transactions.{
  is_transaction, has_status, get_transaction, transition_transaction,
}
use mathai_ai_swarm_memory.Oauth.Provider.{
  Form, field_or_empty, Response, redirect_code, Draws, Settings,
}
use mathai_ai_swarm_memory.Oauth.Provider.Consent.{
  TransactionDraws, authorize_endpoint, consent, exchanged, answered, principal_for_subject,
  github_callback,
}
use mathai_ai_swarm_memory.Oauth.Provider.Consent.Exchange.{
  is_open, IsSpent, consume-spends, authorize_endpoint-IsSpent, consent-IsSpent,
  github_callback-IsSpent,
}

-- A request of the flow.
pub data FlowCall : Type 0 where
  authorizing : Form → Datetime → ℕ → TransactionDraws → FlowCall
  consenting : Form → String → Datetime → FlowCall
  returning : Form → String → Datetime → Draws → Store → FlowCall

-- A request that does not draw this very transaction id again; ids are random.
abbrev pub is_other_flow : String → FlowCall → Bool
is_other_flow tx_id (authorizing params now max_pending draws) = not (str_eq draws.tx_id tx_id)
is_other_flow tx_id _ = true

-- The response carries a code.
abbrev pub has_code : Response → Bool
has_code (redirect_code uri code state) = true
has_code _ = false

get_transaction-found :
    (tx_id : String) (now : Datetime) (st : OauthStore) (tx : TransactionRow)
    → get_transaction tx_id now st ≡ ok (some tx)
    → find (is_transaction tx_id) st.transactions ≡ some tx
unfolding get_transaction
get_transaction-found tx_id now st tx h =
    elim (Option-cases (find (is_transaction tx_id) st.transactions)) [
      | inl lost ↦ absurd (ground arith)
      | inr (row, found) ↦ ground arith
    ]

get_transaction-names :
    (tx_id : String) (now : Datetime) (st : OauthStore) (tx : TransactionRow)
    → get_transaction tx_id now st ≡ ok (some tx)
    → tx.id ≡ tx_id
get_transaction-names tx_id now st tx h =
    let found =
      find-holds (is_transaction tx_id) st.transactions tx
        (get_transaction-found tx_id now st tx h) in
    (eq_iff tx.id tx_id).0 found

answered-spends :
    (put : Result OauthError (Unit {0})) (tx : TransactionRow) (code : String) (st : OauthStore)
    → (has_code (answered put tx code st).0 ≡ false) ⊎ IsSpent tx.id (answered put tx code st).1
answered-spends (ok u) tx code st = inr (consume-spends tx.id st)
answered-spends (err e) tx code st = inl refl

module _ (settings : Settings) (split : String → List String) where
  abbrev pub run_flow_call : FlowCall → OauthStore → OauthStore
  run_flow_call (authorizing params now max_pending draws) st =
      (authorize_endpoint settings split params now max_pending draws st).1
  run_flow_call (consenting form cookie now) st = (consent settings split form cookie now st).1
  run_flow_call (returning params cookie now draws ps) st =
      (github_callback settings split params cookie now draws ps st).1

  abbrev pub run_flow : List FlowCall → OauthStore → OauthStore
  run_flow [] st = st
  run_flow (call ∷ calls) st = run_flow calls (run_flow_call call st)

  run_flow-IsSpent :
      (tx_id : String) (calls : List FlowCall) (st : OauthStore)
      → All (λ call. is_other_flow tx_id call ≡ true) calls
      → IsSpent tx_id st
      → IsSpent tx_id (run_flow calls st)
  run_flow-IsSpent tx_id [] st fresh h = h
  run_flow-IsSpent tx_id (authorizing params now max_pending draws ∷ calls) st fresh h =
      run_flow-IsSpent tx_id calls _ fresh.1 (
        authorize_endpoint-IsSpent tx_id settings split params now max_pending draws st
          (ground (arith, fresh.0)) h)
  run_flow-IsSpent tx_id (consenting form cookie now ∷ calls) st fresh h =
      run_flow-IsSpent tx_id calls _ fresh.1
        (consent-IsSpent tx_id settings split form cookie now st h)
  run_flow-IsSpent tx_id (returning params cookie now draws ps ∷ calls) st fresh h =
      run_flow-IsSpent tx_id calls _ fresh.1
        (github_callback-IsSpent tx_id settings split params cookie now draws ps st h)

  exchanged-spends :
      (tx : TransactionRow) (code : String) (now : Datetime) (draws : Draws) (ps : Store)
      (st : OauthStore)
      → (has_code (exchanged settings split tx code now draws ps st).0 ≡ false)
        ⊎ IsSpent tx.id (exchanged settings split tx code now draws ps st).1
  unfolding exchanged
  exchanged-spends tx code now draws ps st = elim (Result-cases (get_client tx.client_id now st)) [
    | inr (e, raised) ↦ rw (raised, exchanged) (inl refl)
    | inl (found, read) ↦ elim (Option-cases found) [
      | inl lost ↦ rw (read, lost, exchanged) (inl refl)
      | inr (client, there) ↦ elim (Option-cases (settings.exchange_code code)) [
        | inl denied ↦ rw (read, there, denied, exchanged) (inl refl)
        | inr (subject, given) ↦
            elim (Option-cases (principal_for_subject settings split subject tx.scopes now ps)) [
              | inl unknown ↦ rw (read, there, given, unknown, exchanged) (inl refl)
              | inr (who, resolved) ↦
                  rw (read, there, given, resolved, exchanged) (answered-spends _ tx draws.code _)
            ]
      ]
    ]
  ]

  github_callback-spends :
      (params : Form) (cookie : String) (now : Datetime) (draws : Draws) (ps : Store)
      (st : OauthStore)
      → (has_code (github_callback settings split params cookie now draws ps st).0 ≡ false)
        ⊎ IsSpent
            (field_or_empty "state" params)
            (github_callback settings split params cookie now draws ps st).1
  unfolding github_callback
  github_callback-spends params cookie now draws ps st =
      elim (Result-cases (get_transaction (field_or_empty "state" params) now st)) [
        | inr (e, raised) ↦ rw (raised, github_callback) (inl refl)
        | inl (found, read) ↦ elim (Option-cases found) [
          | inl lost ↦ rw (read, lost, github_callback) (inl refl)
          | inr (tx, there) ↦
              let moved = transition_transaction tx.id pending_github exchanging st in
              elim (Bool-cases (has_status pending_github tx.status && str_eq tx.id cookie)) [
                | inr other ↦ rw (read, there, other, github_callback) (inl refl)
                | inl waiting ↦ elim (Bool-cases moved.0) [
                  | inr lost ↦ rw (read, there, waiting, lost, github_callback) (inl refl)
                  | inl changed ↦
                      let state = field_or_empty "state" params in
                      let named : tx.id ≡ state =
                        get_transaction-names state now st tx (read ∙ ap ok there) in
                      rw (read, there, waiting, changed, github_callback)
                        (rw (sym named)
                          (exchanged-spends tx (field_or_empty "code" params) now draws ps moved.1))
                ]
              ]
        ]
      ]

  spent-refused :
      (params : Form) (cookie : String) (now : Datetime) (draws : Draws) (ps : Store)
      (st : OauthStore)
      → IsSpent (field_or_empty "state" params) st
      → has_code (github_callback settings split params cookie now draws ps st).0 ≡ false
  unfolding github_callback
  spent-refused params cookie now draws ps st h =
      elim (Result-cases (get_transaction (field_or_empty "state" params) now st)) [
        | inr (e, raised) ↦ rw (raised, github_callback) refl
        | inl (found, read) ↦ elim (Option-cases found) [
          | inl lost ↦ rw (read, lost, github_callback) refl
          | inr (tx, there) ↦
              elim (Bool-cases (has_status pending_github tx.status && str_eq tx.id cookie)) [
                | inr other ↦ rw (read, there, other, github_callback) refl
                | inl waiting ↦
                    let state = field_or_empty "state" params in
                    let at = get_transaction-found state now st tx (read ∙ ap ok there) in
                    let there_open =
                      find-holds_any (is_transaction state) (is_open state) st.transactions tx at (
                        rw (find-holds (is_transaction state) st.transactions tx at)
                          (ground (arith, waiting))) in
                    absurd (ground (arith, there_open, h))
              ]
        ]
      ]

  -- After the callback has sent a code for a transaction, no callback for it sends a code again, at
  -- any time, whatever authorizations with other ids, consents and callbacks come in between.
  pub github_callback_once :
      (params : Form) (cookie : String) (now : Datetime) (draws : Draws) (ps : Store)
      (st : OauthStore)
      → has_code (github_callback settings split params cookie now draws ps st).0 ≡ true
      → (calls : List FlowCall)
      → All (λ call. is_other_flow (field_or_empty "state" params) call ≡ true) calls
      → (again : Form) (cookie' : String) (later : Datetime) (draws' : Draws) (ps' : Store)
      → field_or_empty "state" again ≡ field_or_empty "state" params
      → has_code
          (github_callback settings split again cookie' later draws' ps'
            (run_flow calls (github_callback settings split params cookie now draws ps st).1)).0
        ≡ false
  github_callback_once params cookie now draws ps st h calls fresh again cookie' later draws' ps'
        same =
      let after = (github_callback settings split params cookie now draws ps st).1 in
      spent-refused again cookie' later draws' ps' (run_flow calls after) (
        rw same (
          run_flow-IsSpent (field_or_empty "state" params) calls after fresh
            (elim (github_callback-spends params cookie now draws ps st) [
              | inl none_sent ↦ absurd (ground (arith, none_sent, h))
              | inr spent ↦ spent
            ])))
