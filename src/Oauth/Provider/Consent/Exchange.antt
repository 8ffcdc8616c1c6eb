-- ===== src/Oauth/Provider/Consent/Exchange.antt =====
-- Transactions that are spent under the consent flow of src/auth-broker/app/mcp_oauth/provider.py.
use mathai_ai_swarm_memory.Common.{
  ℕ, ◌≡◌, refl, sym, ap, ◌∙◌, inl, inr, Bool, false, not, ◌&&◌, List, [], ◌∷◌, ◌++◌, any,
  any-append, any-delete_false, any-update_false, any-update_guarded, update_where, String, str_eq,
  Result, ok, err, ◌>>◌, arith, Option-cases, Bool-cases, Result-cases, committed_keeps,
}
use mathai_ai_swarm_memory.Broker.Store.{Datetime, Store}
use mathai_ai_swarm_memory.Oauth.Store.{
  OauthError, TransactionStatus, pending_consent, pending_github, exchanging, consumed,
  TransactionRow, OauthStore, needs_aware,
}
use mathai_ai_swarm_memory.Broker.Scopes.{is_member}
use mathai_ai_swarm_memory.Oauth.Clients.{prune, pruned, has_lapsed, get_client}
use mathai_ai_swarm_memory.Oauth.Transactions.{
  is_transaction, has_status, with_status, is_in_status, new_transaction, put_transaction,
  put_transaction_tx, get_transaction, transition_transaction, consume_transaction,
}
use mathai_ai_swarm_memory.Oauth.Codes.{OauthCode, put_code, put_code_tx}
use mathai_ai_swarm_memory.Oauth.Provider.{Form, field_or_empty, is_field, Draws, Settings}
use mathai_ai_swarm_memory.Oauth.Provider.Consent.{
  TransactionDraws, registration_window, authorize_checks, authorize_endpoint, consent, exchanged,
  answered, principal_for_subject, github_callback,
}

-- A row of the transaction that is not consumed.
abbrev pub is_open : String → TransactionRow → Bool
is_open tx_id t = is_transaction tx_id t && not (has_status consumed t.status)

-- The transaction is spent: none of its rows is open.
abbrev pub IsSpent : String → OauthStore → Type 0
IsSpent tx_id st = any (is_open tx_id) st.transactions ≡ false

module _ (tx_id : String) where
  same-IsSpent :
      (st st' : OauthStore)
      → st'.transactions ≡ st.transactions
      → IsSpent tx_id st
      → IsSpent tx_id st'
  same-IsSpent st st' e h = ap (any (is_open tx_id)) e ∙ h

  consume-IsSpent :
      (other : String) (st : OauthStore)
      → IsSpent tx_id st
      → IsSpent tx_id (consume_transaction other st)
  unfolding consume_transaction
  consume-IsSpent other st h =
      any-update_false (is_open tx_id) (is_transaction other) (with_status consumed) st.transactions
        (λ x. ground arith) h

  transition-IsSpent :
      (other : String) (from_status to_status : TransactionStatus) (st : OauthStore)
      → has_status consumed from_status ≡ false
      → IsSpent tx_id st
      → IsSpent tx_id (transition_transaction other from_status to_status st).1
  unfolding transition_transaction
  transition-IsSpent other from_status to_status st waiting h =
      any-update_guarded (is_open tx_id) (is_in_status other from_status) (with_status to_status)
        st.transactions (λ x k p. ground (arith, waiting)) h

  put_code-IsSpent :
      (code_hash : String) (code : OauthCode) (expires_at : Datetime) (st : OauthStore)
      → IsSpent tx_id st
      → IsSpent tx_id (put_code code_hash code expires_at st).1
  unfolding put_code put_code_tx
  put_code-IsSpent code_hash code expires_at st h =
      committed_keeps (IsSpent tx_id) st (put_code_tx code_hash code expires_at st) h
        (λ a st' e. same-IsSpent st st' (ground arith) h)

  -- A consumption spends its own transaction.
  pub consume-spends : (st : OauthStore) → IsSpent tx_id (consume_transaction tx_id st)
  unfolding consume_transaction
  consume-spends st = spends st.transactions
    where
      spends :
          (rows : List TransactionRow)
          → any (is_open tx_id) (update_where (is_transaction tx_id) (with_status consumed) rows)
            ≡ false
      spends [] = refl
      spends (t ∷ rows) = ground (arith, spends rows)

  module _ (settings : Settings) where
    prune-IsSpent :
        (now : Datetime) (window : ℕ) (st : OauthStore)
        → IsSpent tx_id st
        → IsSpent tx_id (prune settings.texts.precedes now window st).1
    unfolding prune
    prune-IsSpent now window st h =
        committed_keeps (IsSpent tx_id) st
          (needs_aware now >> ok (tt, pruned settings.texts.precedes now window st)) h
          (λ a st' e.
            let after : pruned settings.texts.precedes now window st ≡ st' = ground arith in
            rw (sym after) (
              any-delete_false (is_open tx_id)
                (λ (t : TransactionRow). has_lapsed settings.texts.precedes now t.expires_at)
                st.transactions h))

    put_transaction-IsSpent :
        (other csrf_hash client_id redirect_uri resource client_state code_challenge : String)
        (scopes : List String) (now expires_at : Datetime) (max_pending : ℕ) (st : OauthStore)
        → str_eq other tx_id ≡ false
        → IsSpent tx_id st
        → IsSpent tx_id
            (put_transaction settings.texts.precedes other csrf_hash client_id redirect_uri resource
              client_state code_challenge scopes now expires_at max_pending st).1
    unfolding put_transaction put_transaction_tx
    put_transaction-IsSpent other csrf_hash client_id redirect_uri resource client_state
          code_challenge scopes now expires_at max_pending st fresh h =
        let row =
          new_transaction other csrf_hash client_id redirect_uri resource client_state
            code_challenge scopes expires_at in
        committed_keeps (IsSpent tx_id) st
          (put_transaction_tx settings.texts.precedes row now max_pending st) h
          (λ a st' e.
            let rows : st'.transactions ≡ st.transactions ++ row ∷ [] = ground arith in
            ap (any (is_open tx_id)) rows
            ∙ any-append (is_open tx_id) st.transactions (row ∷ [])
            ∙ ground (arith, h, fresh))

    answered-IsSpent :
        (put : Result OauthError (Unit {0})) (tx : TransactionRow) (code : String) (st : OauthStore)
        → IsSpent tx_id st
        → IsSpent tx_id (answered put tx code st).1
    answered-IsSpent (ok u) tx code st h = consume-IsSpent tx.id st h
    answered-IsSpent (err e) tx code st h = h

    exchanged-IsSpent :
        (split : String → List String) (tx : TransactionRow) (code : String) (now : Datetime)
        (draws : Draws) (ps : Store) (st : OauthStore)
        → IsSpent tx_id st
        → IsSpent tx_id (exchanged settings split tx code now draws ps st).1
    unfolding exchanged
    exchanged-IsSpent split tx code now draws ps st h =
        elim (Result-cases (get_client tx.client_id now st)) [
          | inr (e, raised) ↦ rw (raised, exchanged) h
          | inl (found, read) ↦ elim (Option-cases found) [
            | inl lost ↦ rw (read, lost, exchanged) (consume-IsSpent tx.id st h)
            | inr (client, there) ↦ elim (Option-cases (settings.exchange_code code)) [
              | inl denied ↦ rw (read, there, denied, exchanged) (consume-IsSpent tx.id st h)
              | inr (subject, given) ↦
                  elim (Option-cases
                    (principal_for_subject settings split subject tx.scopes now ps)) [
                      | inl unknown ↦
                          rw (read, there, given, unknown, exchanged) (consume-IsSpent tx.id st h)
                      | inr (who, resolved) ↦
                          rw (read, there, given, resolved, exchanged)
                            (answered-IsSpent _ tx draws.code _ (put_code-IsSpent _ _ _ st h))
                    ]
            ]
          ]
        ]

    pub github_callback-IsSpent :
        (split : String → List String) (params : Form) (cookie : String) (now : Datetime)
        (draws : Draws) (ps : Store) (st : OauthStore)
        → IsSpent tx_id st
        → IsSpent tx_id (github_callback settings split params cookie now draws ps st).1
    unfolding github_callback
    github_callback-IsSpent split params cookie now draws ps st h =
        elim (Result-cases (get_transaction (field_or_empty "state" params) now st)) [
          | inr (e, raised) ↦ rw (raised, github_callback) h
          | inl (found, read) ↦ elim (Option-cases found) [
            | inl lost ↦ rw (read, lost, github_callback) h
            | inr (tx, there) ↦
                let moved = transition-IsSpent tx.id pending_github exchanging st refl h in
                elim (Bool-cases (has_status pending_github tx.status && str_eq tx.id cookie)) [
                  | inr other ↦ rw (read, there, other, github_callback) h
                  | inl waiting ↦
                      elim (Bool-cases
                        (transition_transaction tx.id pending_github exchanging st).0) [
                          | inr lost ↦ rw (read, there, waiting, lost, github_callback) moved
                          | inl changed ↦
                              rw (read, there, waiting, changed, github_callback)
                                (exchanged-IsSpent split tx (field_or_empty "code" params) now draws
                                  ps (transition_transaction tx.id pending_github exchanging st).1
                                  moved)
                        ]
                ]
          ]
        ]

    pub consent-IsSpent :
        (split : String → List String) (form : Form) (cookie : String) (now : Datetime)
        (st : OauthStore)
        → IsSpent tx_id st
        → IsSpent tx_id (consent settings split form cookie now st).1
    unfolding consent
    consent-IsSpent split form cookie now st h =
        elim (Result-cases (get_transaction cookie now st)) [
          | inr (e, raised) ↦ rw (raised, consent) h
          | inl (found, read) ↦ elim (Option-cases found) [
            | inl lost ↦ rw (read, lost, consent) h
            | inr (tx, there) ↦
                let right = str_eq tx.csrf_hash (settings.digest (field_or_empty "csrf" form)) in
                elim (Bool-cases (has_status pending_consent tx.status && right)) [
                  | inr other ↦ rw (read, there, other, consent) h
                  | inl waiting ↦ elim (Bool-cases (is_field "decision" "allow" form)) [
                    | inr denied ↦
                        rw (read, there, waiting, denied, consent)
                          (transition-IsSpent tx.id pending_consent consumed st refl h)
                    | inl allowed ↦
                        rw (read, there, waiting, allowed, consent)
                          (transition-IsSpent tx.id pending_consent pending_github st refl h)
                  ]
                ]
          ]
        ]

    pub authorize_endpoint-IsSpent :
        (split : String → List String) (params : Form) (now : Datetime) (max_pending : ℕ)
        (draws : TransactionDraws) (st : OauthStore)
        → str_eq draws.tx_id tx_id ≡ false
        → IsSpent tx_id st
        → IsSpent tx_id (authorize_endpoint settings split params now max_pending draws st).1
    unfolding authorize_endpoint
    authorize_endpoint-IsSpent split params now max_pending draws st fresh h =
        let pruned_store = (prune settings.texts.precedes now registration_window st).1 in
        let kept = prune-IsSpent now registration_window st h in
        elim (Result-cases (get_client (field_or_empty "client_id" params) now pruned_store)) [
          | inr (e, raised) ↦ rw (raised, authorize_endpoint) kept
          | inl (found, read) ↦ elim (Option-cases found) [
            | inl lost ↦ rw (read, lost, authorize_endpoint) kept
            | inr (client, there) ↦
                elim (Bool-cases
                  (is_member (field_or_empty "redirect_uri" params) client.redirect_uris)) [
                    | inr other ↦ rw (read, there, other, authorize_endpoint) kept
                    | inl known ↦ elim (Result-cases (authorize_checks settings split params)) [
                      | inr (e, refused) ↦ rw (read, there, known, refused, authorize_endpoint) kept
                      | inl (scopes, checked) ↦
                          rw (read, there, known, checked, authorize_endpoint)
                            (put_transaction-IsSpent draws.tx_id _ _ _ _ _ _ scopes now _
                              max_pending pruned_store fresh kept)
                    ]
                  ]
          ]
        ]
