-- ===== src/Oauth/Provider/Consent.antt =====
-- The consent flow of src/auth-broker/app/mcp_oauth/provider.py: `authorize_endpoint`, `consent` and
-- `github_callback`.
pub mod Exchange
pub mod Once
use mathai_ai_swarm_memory.Common.{
  ℕ, ◌+◌, ◌≡◌, Bool, true, false, not, ◌&&◌, ◌||◌, List, [], ◌∷◌, Option, none, some, leb, ◌==◌,
  if◌then◌else◌, any, length, map, String, str_eq, is_unset, codes, Result, ok, err,
}
use mathai_ai_swarm_memory.Broker.Store.{Datetime, Store, Error}
use mathai_ai_swarm_memory.Broker.Scopes.{is_member, requested_scopes, effective_scopes}
use mathai_ai_swarm_memory.Broker.Principals.{
  Principal, active_grant_scopes, get_principal_by_github_subject,
}
use mathai_ai_swarm_memory.Oauth.Store.{
  OauthError, transaction_limit, TransactionStatus, pending_consent, pending_github, exchanging,
  consumed, TransactionRow, OauthStore,
}
use mathai_ai_swarm_memory.Oauth.Clients.{OauthClient, prune, get_client}
use mathai_ai_swarm_memory.Oauth.Transactions.{
  has_status, put_transaction, get_transaction, transition_transaction, consume_transaction,
}
use mathai_ai_swarm_memory.Oauth.Codes.{OauthCode, put_code}
use mathai_ai_swarm_memory.Oauth.Provider.{
  Form, field, field_or_empty, is_field, Response, failed, redirect_code, redirect_denied,
  to_github, crashed, Draws, Settings, five_minutes, later_by, is_challenge,
}

-- The random texts of a new transaction.
pub record TransactionDraws : Type 0 where
  pub tx_id : String
  pub csrf : String

-- What `authorize_endpoint` answers: an error with its status, or the consent page with the cookie.
pub data Page : Type 0 where
  page_failed : String → ℕ → Page
  consent_page : String → String → Page
  page_crashed : Page

-- One hour and ten minutes in microseconds.
abbrev pub registration_window : ℕ
registration_window = 3600000000

abbrev pub tx_ttl : ℕ
tx_ttl = 600000000

-- An error of the parameters of `authorize_endpoint`, or their scopes.
abbrev pub check : Bool → String → Result String (List String) → Result String (List String)
check test e rest = if test then rest else err e

-- The end of `github_callback` behind `put_code`.
abbrev pub answered :
    Result OauthError (Unit {0}) → TransactionRow → String → OauthStore → Response × OauthStore
answered (err e) tx code st = (crashed, st)
answered (ok u) tx code st =
    (redirect_code tx.redirect_uri code tx.client_state, consume_transaction tx.id st)

-- `SCOPE_ORDER`
abbrev pub scope_order : List String
scope_order = "ctx:read:pesquisa.tcc" ∷ "ctx:propose:pesquisa.tcc" ∷ []

module _ (settings : Settings) (split : String → List String) where
  -- `_scopes`
  unfoldable pub scopes_of : Option String → Result Error (List String)
  scopes_of none = ok scope_order
  scopes_of (some raw) =
      if is_unset raw then ok scope_order else requested_scopes (some (map some (split raw)))

  -- The checks of the parameters, in their order.
  unfoldable pub authorize_checks : Form → Result String (List String)
  authorize_checks params = check (is_field "response_type" "code" params) "invalid_request" (
      check (is_field "resource" settings.audience params) "invalid_target" (
        check (is_field "code_challenge_method" "S256" params) "invalid_request" (
          check (is_challenge (field_or_empty "code_challenge" params)) "invalid_request"
            (elim (scopes_of (field "scope" params)) [
              | err e ↦ err "invalid_scope"
              | ok scopes ↦
                  check (leb (length (codes (field_or_empty "state" params))) 512) "invalid_request"
                    (ok scopes)
            ]))))

  -- `authorize_endpoint`, of a query without repeated keys.
  unfoldable pub authorize_endpoint :
      Form → Datetime → ℕ → TransactionDraws → OauthStore → Page × OauthStore
  authorize_endpoint params now max_pending draws st =
      let st1 = (prune settings.texts.precedes now registration_window st).1 in
      let redirect_uri = field_or_empty "redirect_uri" params in
      elim (get_client (field_or_empty "client_id" params) now st1) [
        | err e ↦ (page_crashed, st1)
        | ok none ↦ (page_failed "invalid_request" 400, st1)
        | ok (some client) ↦
            if is_member redirect_uri client.redirect_uris
            then (elim (authorize_checks params) [
              | err e ↦ (page_failed e 400, st1)
              | ok scopes ↦
                  let (put, st2) =
                    put_transaction settings.texts.precedes draws.tx_id (settings.digest draws.csrf)
                      client.client_id redirect_uri settings.audience
                      (field_or_empty "state" params) (field_or_empty "code_challenge" params)
                      scopes now (later_by tx_ttl now) max_pending st1 in
                  (
                    elim put [
                      | ok u ↦ consent_page draws.tx_id draws.csrf
                      | err transaction_limit ↦ page_failed "too_many_requests" 429
                      | err _ ↦ page_crashed
                    ],
                    st2,
                  )
            ])
            else (page_failed "invalid_request" 400, st1)
      ]

  -- `consent`, with the transaction of the cookie.
  unfoldable pub consent : Form → String → Datetime → OauthStore → Response × OauthStore
  consent form cookie now st = elim (get_transaction cookie now st) [
    | err e ↦ (crashed, st)
    | ok none ↦ (failed "invalid_csrf" 403, st)
    | ok (some tx) ↦
        if has_status pending_consent tx.status
          && str_eq tx.csrf_hash (settings.digest (field_or_empty "csrf" form))
        then (if is_field "decision" "allow" form
            then (let (changed, st') =
                  transition_transaction tx.id pending_consent pending_github st in
                (if changed then to_github tx.id else failed "invalid_csrf" 403, st'))
            else (let (changed, st') = transition_transaction tx.id pending_consent consumed st in
                (
                  if changed
                      then redirect_denied tx.redirect_uri tx.client_state
                      else failed "invalid_csrf" 403,
                  st',
                )))
        else (failed "invalid_csrf" 403, st)
  ]

  -- `_principal_for_subject`
  unfoldable pub principal_for_subject :
      String → List String → Datetime → Store → Option (Principal × List String)
  principal_for_subject subject requested now ps =
      elim (get_principal_by_github_subject settings.texts subject ps) [
        | err e ↦ none
        | ok none ↦ none
        | ok (some p) ↦ elim (active_grant_scopes settings.texts p.id now ps) [
          | err e ↦ none
          | ok granted ↦ elim (effective_scopes requested granted p.role) [
            | err e ↦ none
            | ok scopes ↦ some (p, scopes)
          ]
        ]
      ]

  -- `github_callback` behind the transition to `exchanging`: the response, and whether a code is
  -- put, for whom.
  unfoldable pub exchanged :
      TransactionRow → String → Datetime → Draws → Store → OauthStore → Response × OauthStore
  exchanged tx code now draws ps st =
      let denied : Response × OauthStore =
        (redirect_denied tx.redirect_uri tx.client_state, consume_transaction tx.id st) in
      elim (get_client tx.client_id now st) [
        | err e ↦ (crashed, st)
        | ok none ↦ (failed "invalid_client" 400, consume_transaction tx.id st)
        | ok (some client) ↦ elim (settings.exchange_code code) [
          | none ↦ denied
          | some subject ↦ elim (principal_for_subject subject tx.scopes now ps) [
            | none ↦ denied
            | some found ↦
                let (put, st') =
                  put_code (settings.digest draws.code)
                    (record {
                      client_id = tx.client_id;
                      redirect_uri = tx.redirect_uri;
                      resource = tx.resource;
                      code_challenge = tx.code_challenge;
                      principal_id = found.0.id;
                      scopes = found.1;
                    })
                    (later_by five_minutes now) st in
                answered put tx draws.code st'
          ]
        ]
      ]

  -- `github_callback`, of a query without repeated keys and a cookie in ASCII.
  unfoldable pub github_callback :
      Form → String → Datetime → Draws → Store → OauthStore → Response × OauthStore
  github_callback params cookie now draws ps st =
      elim (get_transaction (field_or_empty "state" params) now st) [
        | err e ↦ (crashed, st)
        | ok none ↦ (failed "invalid_request" 400, st)
        | ok (some tx) ↦
            if has_status pending_github tx.status && str_eq tx.id cookie
            then (let (changed, st') = transition_transaction tx.id pending_github exchanging st in
                if changed
                then exchanged tx (field_or_empty "code" params) now draws ps st'
                else (failed "invalid_request" 400, st'))
            else (failed "invalid_request" 400, st)
      ]
