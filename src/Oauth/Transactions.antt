-- ===== src/Oauth/Transactions.antt =====
-- The authorization transactions of src/auth-broker/app/mcp_oauth/store.py.
use mathai_ai_swarm_memory.Common.{
  ℕ, Bool, true, false, not, ◌&&◌, List, [], ◌∷◌, ◌++◌, Option, none, some, ltb, ◌==◌,
  if◌then◌else◌, find, any, count_where, update_where, String, str_eq, Result, ok, guard, ◌>>◌,
  committed,
}
use mathai_ai_swarm_memory.Broker.Store.{Datetime, is_before}
use mathai_ai_swarm_memory.Oauth.Store.{
  OauthError, duplicate_key, transaction_limit, needs_aware, TransactionStatus, pending_consent,
  pending_github, exchanging, consumed, TransactionRow, OauthStore, Reply, TextOrder,
}

abbrev pub is_transaction : String → TransactionRow → Bool
is_transaction tx_id t = str_eq t.id tx_id

abbrev pub has_status : TransactionStatus → TransactionStatus → Bool
has_status pending_consent pending_consent = true
has_status pending_github pending_github = true
has_status exchanging exchanging = true
has_status consumed consumed = true
has_status _ _ = false

abbrev pub with_status : TransactionStatus → TransactionRow → TransactionRow
with_status status t = record t { status = status }

abbrev pub or_else : Option String → Option String → Option String
or_else none old = old
or_else (some new) old = some new

-- The row of a new transaction; its arguments are the columns.
abbrev pub new_transaction :
    String
    → String
    → String
    → String
    → String
    → String
    → String
    → List String
    → Datetime
    → TransactionRow
new_transaction tx_id csrf_hash client_id redirect_uri resource client_state code_challenge scopes
      expires_at =
    record {
      id = tx_id;
      csrf_hash = csrf_hash;
      client_id = client_id;
      redirect_uri = redirect_uri;
      resource = resource;
      client_state = client_state;
      code_challenge = code_challenge;
      scopes = scopes;
      status = pending_consent;
      expires_at = expires_at;
      principal_id = none;
    }

module _ (precedes : TextOrder) where
  -- `WHERE expires_at > ? AND status != 'consumed'`
  abbrev pub is_pending_at : Datetime → TransactionRow → Bool
  is_pending_at now t = precedes now t.expires_at && not (has_status consumed t.status)

  -- `put_transaction`, of the row that `new_transaction` makes.
  unfoldable pub put_transaction_tx :
      TransactionRow → Datetime → ℕ → OauthStore → Result OauthError (Unit {0} × OauthStore)
  put_transaction_tx row now max_pending st = do
    needs_aware now
    needs_aware row.expires_at
    guard (ltb (count_where (is_pending_at now) st.transactions) max_pending) transaction_limit
    guard (not (any (is_transaction row.id) st.transactions)) duplicate_key
    ok (tt, record st { transactions = st.transactions ++ row ∷ [] })

  unfoldable pub put_transaction :
      String
      → String
      → String
      → String
      → String
      → String
      → String
      → List String
      → Datetime
      → Datetime
      → ℕ
      → OauthStore
      → Reply (Unit {0})
  put_transaction tx_id csrf_hash client_id redirect_uri resource client_state code_challenge scopes
        now expires_at max_pending st =
      committed st (
        put_transaction_tx
          (new_transaction tx_id csrf_hash client_id redirect_uri resource client_state
            code_challenge scopes expires_at)
          now max_pending st)

-- `get_transaction`; the row is the OAuthTransaction.
unfoldable pub get_transaction :
    String → Datetime → OauthStore → Result OauthError (Option TransactionRow)
get_transaction tx_id now st = do
  needs_aware now
  elim (find (is_transaction tx_id) st.transactions) [
    | none ↦ ok none
    | some t ↦ ok (if is_before now t.expires_at then some t else none)
  ]

unfoldable pub set_transaction_status :
    String → TransactionStatus → Option String → OauthStore → OauthStore
set_transaction_status tx_id status principal_id st = record st {
  transactions =
      update_where (is_transaction tx_id)
        (λ t. record t { status = status; principal_id = or_else principal_id t.principal_id })
        st.transactions;
}

-- `WHERE id = ? AND status = ?`
abbrev pub is_in_status : String → TransactionStatus → TransactionRow → Bool
is_in_status tx_id status t = is_transaction tx_id t && has_status status t.status

-- Whether one row has changed, and the tables.
unfoldable pub transition_transaction :
    String → TransactionStatus → TransactionStatus → OauthStore → Bool × OauthStore
transition_transaction tx_id from_status to_status st = (
  count_where (is_in_status tx_id from_status) st.transactions == 1,
  record st {
    transactions =
        update_where (is_in_status tx_id from_status) (with_status to_status) st.transactions;
  },
)

unfoldable pub consume_transaction : String → OauthStore → OauthStore
consume_transaction tx_id st = record st {
  transactions = update_where (is_transaction tx_id) (with_status consumed) st.transactions;
}
