-- ===== src/Oauth/Clients/Pruned.antt =====
-- What can still be read after `prune` (src/auth-broker/app/mcp_oauth/store.py).
use mathai_ai_swarm_memory.Common.{
  ℕ, ◌≤◌, ◌≡◌, refl, inl, inr, true, false, All, All-find, find, find-delete_where, count_where,
  String, arith, Bool-cases, Option-cases,
}
use mathai_ai_swarm_memory.Broker.Store.{Datetime, is_aware, is_before, is_at_most}
use mathai_ai_swarm_memory.Oauth.Store.{ClientRow, TransactionRow, OauthStore, TextOrder, is_utc}
use mathai_ai_swarm_memory.Oauth.Clients.{is_client, get_client, pruned, prune, has_lapsed}
use mathai_ai_swarm_memory.Oauth.Transactions.{is_transaction, get_transaction}

-- The ISO texts of datetimes in UTC sort as the instants do.
pub record SortsUtc (precedes : TextOrder) : Type 0 where
  pub agrees : (a b : Datetime) → is_utc a ≡ true → is_utc b ≡ true → precedes a b ≡ is_before a b

-- Primary keys are unique, and all datetimes are in UTC.
pub record IsSound (st : OauthStore) : Type 0 where
  pub client_ids : (id : String) → count_where (is_client id) st.clients ≤ 1
  pub transaction_ids : (id : String) → count_where (is_transaction id) st.transactions ≤ 1
  pub client_times : All (λ (c : ClientRow). is_utc c.expires_at ≡ true) st.clients
  pub transaction_times : All (λ (t : TransactionRow). is_utc t.expires_at ≡ true) st.transactions

module _ (precedes : TextOrder) (sorts : SortsUtc precedes) (pruned_at now : Datetime) (window : ℕ)
    (st : OauthStore) (sound : IsSound st) (utc : is_utc pruned_at ≡ true)
    (earlier : is_at_most pruned_at now ≡ true) where
  -- What has lapsed at the pruning has expired now.
  lapsed-expired :
      (expires_at : Datetime)
      → is_utc expires_at ≡ true
      → has_lapsed precedes pruned_at expires_at ≡ true
      → is_before now expires_at ≡ false
  lapsed-expired expires_at known lapsed =
      ground (arith, sorts.agrees pruned_at expires_at utc known, earlier)

  get_client-pruned :
      (client_id : String)
      → get_client client_id now (pruned precedes pruned_at window st) ≡ get_client client_id now st
  unfolding get_client
  get_client-pruned client_id =
      let lapsed = λ (c : ClientRow). has_lapsed precedes pruned_at c.expires_at in
      let after =
        find-delete_where (is_client client_id) lapsed st.clients (sound.client_ids client_id) in
      elim (Option-cases (find (is_client client_id) st.clients)) [
        | inl lost ↦ ground (arith, after)
        | inr (c, found) ↦
            let time =
              All-find (λ (x : ClientRow). is_utc x.expires_at ≡ true) (is_client client_id)
                st.clients c sound.client_times found in
            ground (arith, after, lapsed-expired c.expires_at time)
      ]

  get_transaction-pruned :
      (tx_id : String)
      → get_transaction tx_id now (pruned precedes pruned_at window st)
        ≡ get_transaction tx_id now st
  unfolding get_transaction
  get_transaction-pruned tx_id =
      let lapsed = λ (t : TransactionRow). has_lapsed precedes pruned_at t.expires_at in
      let after =
        find-delete_where (is_transaction tx_id) lapsed st.transactions
          (sound.transaction_ids tx_id) in
      elim (Option-cases (find (is_transaction tx_id) st.transactions)) [
        | inl lost ↦ ground (arith, after)
        | inr (t, found) ↦
            let time =
              All-find (λ (x : TransactionRow). is_utc x.expires_at ≡ true) (is_transaction tx_id)
                st.transactions t sound.transaction_times found in
            ground (arith, after, lapsed-expired t.expires_at time)
      ]

  -- Pruning at a time in UTC is not seen in tables whose primary keys are unique and whose expiries
  -- are in UTC, when texts in UTC sort as their instants do: at any time from the pruning on, a client
  -- and a transaction are read as they would have been without it.
  pub prune_unseen :
      (client_id tx_id : String)
      → (get_client client_id now (prune precedes pruned_at window st).1
          ≡ get_client client_id now st)
        × (get_transaction tx_id now (prune precedes pruned_at window st).1
            ≡ get_transaction tx_id now st)
  unfolding prune
  prune_unseen client_id tx_id = elim (Bool-cases (is_aware pruned_at)) [
    | inl known ↦ rw known (get_client-pruned client_id, get_transaction-pruned tx_id)
    | inr naive ↦ rw naive (refl, refl)
  ]
