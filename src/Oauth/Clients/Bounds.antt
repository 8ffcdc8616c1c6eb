-- ===== src/Oauth/Clients/Bounds.antt =====
-- The limits of src/auth-broker/app/mcp_oauth/store.py on registrations and pending transactions.
use mathai_ai_swarm_memory.Common.{
  ℕ, ◌+◌, ◌≤◌, ◌≡◌, ap, ◌∙◌, Bool, true, false, ◌&&◌, List, [], ◌∷◌, ◌++◌, ltb, count_where,
  count-append, String, ok, arith, committed-ok,
}
use mathai_ai_swarm_memory.Broker.Store.{Datetime}
use mathai_ai_swarm_memory.Oauth.Store.{
  RegistrationRow, TransactionStatus, pending_consent, pending_github, exchanging, consumed,
  TransactionRow, OauthStore, TextOrder,
}
use mathai_ai_swarm_memory.Oauth.Clients.{
  OauthClient, before_by, insert_client, put_client_tx, recent_registrations, register_tx,
  register_public_client,
}

-- The consent of a transaction in this state has not been completed.
abbrev pub is_open : TransactionStatus → Bool
is_open pending_github = true
is_open pending_consent = true
is_open exchanging = true
is_open consumed = false

-- A transaction that has not expired and is not consumed.
abbrev pub waits : TextOrder → Datetime → TransactionRow → Bool
waits precedes now t = is_open t.status && precedes now t.expires_at

module _ (precedes : TextOrder) where
  register_tx-events :
      (now : Datetime) (window limit : ℕ) (client_id client_name : String)
      (redirect_uris : List String) (expires_at : Datetime) (st st' : OauthStore) (c : OauthClient)
      → register_tx precedes now window limit client_id client_name redirect_uris expires_at st
        ≡ ok (c, st')
      → (ltb (recent_registrations precedes now window st) limit ≡ true)
        × (st'.registration_events ≡ st.registration_events ++ record { occurred_at = now } ∷ [])
  unfolding register_tx put_client_tx insert_client
  register_tx-events now window limit client_id client_name redirect_uris expires_at st st' c h =
      (ground arith, ground arith)

  -- A registration that succeeds leaves at most the limit of registrations in the window.
  register_public_client-le-limit :
      (now : Datetime) (window limit : ℕ) (client_id client_name : String)
      (redirect_uris : List String) (expires_at : Datetime) (st st' : OauthStore) (c : OauthClient)
      → register_public_client precedes now window limit client_id client_name redirect_uris
          expires_at st
        ≡ (ok c, st')
      → recent_registrations precedes now window st' ≤ limit
  unfolding register_public_client
  register_public_client-le-limit now window limit client_id client_name redirect_uris expires_at st
        st' c h =
      let (below, rows) =
        register_tx-events now window limit client_id client_name redirect_uris expires_at st st' c
          (committed-ok st
            (register_tx precedes now window limit client_id client_name redirect_uris expires_at
              st)
            c st' h) in
      let recent = λ (e : RegistrationRow). precedes (before_by window now) e.occurred_at in
      let total : recent_registrations precedes now window st'
          ≡ count_where recent st.registration_events
            + count_where recent (record { occurred_at = now } ∷ []) =
        ap (count_where recent) rows ∙ count-append recent st.registration_events _ in
      ground (arith, total, below)
