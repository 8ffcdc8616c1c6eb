-- ===== src/Oauth/Clients.antt =====
-- `prune`, `registration_count`, `record_registration`, `register_public_client`, `put_client` and
-- `get_client` of src/auth-broker/app/mcp_oauth/store.py. Random ids of events are left out.
pub mod Bounds
pub mod Pruned
use mathai_ai_swarm_memory.Common.{
  ℕ, ◌-◌, ◌≡◌, Bool, true, false, not, ◌&&◌, ◌||◌, List, [], ◌∷◌, ◌++◌, Option, none, some, ltb,
  leb, if◌then◌else◌, find, any, count_where, delete_where, String, str_eq, Result, ok, err, guard,
  ◌>>=◌, ◌>>◌, committed,
}
use mathai_ai_swarm_memory.Broker.Store.{Datetime, is_before, is_null}
use mathai_ai_swarm_memory.Oauth.Store.{
  OauthError, duplicate_key, registration_limit, needs_aware, ClientRow, RegistrationRow,
  TransactionRow, CodeRow, OauthStore, Reply, TextOrder,
}

pub record OauthClient : Type 0 where
  pub client_id : String
  pub client_name : String
  pub redirect_uris : List String
  pub expires_at : Datetime

abbrev pub is_client : String → ClientRow → Bool
is_client client_id c = str_eq c.client_id client_id

-- `now - window`; no datetime lies before instant 0.
abbrev pub before_by : ℕ → Datetime → Datetime
before_by window now = record now { instant = now.instant - window }

-- `INSERT INTO mcp_oauth_clients`, with its primary key.
unfoldable pub insert_client : ClientRow → OauthStore → Result OauthError OauthStore
insert_client row st = do
  guard (not (any (is_client row.client_id) st.clients)) duplicate_key
  ok (record st { clients = st.clients ++ row ∷ [] })

abbrev pub insert_registration : Datetime → OauthStore → OauthStore
insert_registration now st = record st {
  registration_events = st.registration_events ++ record { occurred_at = now } ∷ [];
}

unfoldable pub record_registration : Datetime → OauthStore → Reply (Unit {0})
record_registration now st = committed st (do needs_aware now; ok (tt, insert_registration now st))

unfoldable pub put_client_tx :
    String
    → String
    → List String
    → Datetime
    → Datetime
    → OauthStore
    → Result OauthError (OauthClient × OauthStore)
put_client_tx client_id client_name redirect_uris now expires_at st = do
  needs_aware now
  needs_aware expires_at
  st' ←
      insert_client
        (record {
          client_id = client_id;
          client_name = client_name;
          redirect_uris = redirect_uris;
          issued_at = now;
          expires_at = expires_at;
        })
        st
  ok (
    record {
      client_id = client_id;
      client_name = client_name;
      redirect_uris = redirect_uris;
      expires_at = expires_at;
    },
    st',
  )

unfoldable pub put_client :
    String → String → List String → Datetime → Datetime → OauthStore → Reply OauthClient
put_client client_id client_name redirect_uris now expires_at st =
    committed st (put_client_tx client_id client_name redirect_uris now expires_at st)

unfoldable pub get_client : String → Datetime → OauthStore → Result OauthError (Option OauthClient)
get_client client_id now st = do
  needs_aware now
  elim (find (is_client client_id) st.clients) [
    | none ↦ ok none
    | some c ↦ ok (
        if is_before now c.expires_at
        then some (record {
          client_id = c.client_id;
          client_name = c.client_name;
          redirect_uris = c.redirect_uris;
          expires_at = c.expires_at;
        })
        else none)
  ]

module _ (precedes : TextOrder) where
  -- The events of the window, `WHERE occurred_at > ?`.
  abbrev pub recent_registrations : Datetime → ℕ → OauthStore → ℕ
  recent_registrations now window st =
      count_where (λ (e : RegistrationRow). precedes (before_by window now) e.occurred_at)
        st.registration_events

  unfoldable pub registration_count : Datetime → ℕ → OauthStore → Result OauthError ℕ
  registration_count now window st = do needs_aware now; ok (recent_registrations now window st)

  unfoldable pub register_tx :
      Datetime
      → ℕ
      → ℕ
      → String
      → String
      → List String
      → Datetime
      → OauthStore
      → Result OauthError (OauthClient × OauthStore)
  register_tx now window limit client_id client_name redirect_uris expires_at st = do
    needs_aware now
    needs_aware expires_at
    guard (ltb (recent_registrations now window st) limit) registration_limit
    put_client_tx client_id client_name redirect_uris now expires_at (insert_registration now st)

  unfoldable pub register_public_client :
      Datetime → ℕ → ℕ → String → String → List String → Datetime → OauthStore → Reply OauthClient
  register_public_client now window limit client_id client_name redirect_uris expires_at st =
      committed st (register_tx now window limit client_id client_name redirect_uris expires_at st)

  -- `WHERE expires_at <= ?`
  abbrev pub has_lapsed : Datetime → Datetime → Bool
  has_lapsed now expires_at = not (precedes now expires_at)

  abbrev pub pruned : Datetime → ℕ → OauthStore → OauthStore
  pruned now window st = record st {
    transactions =
        delete_where (λ (t : TransactionRow). has_lapsed now t.expires_at) st.transactions;
    codes =
        delete_where (λ (c : CodeRow). has_lapsed now c.expires_at || not (is_null c.consumed_at))
          st.codes;
    clients = delete_where (λ (c : ClientRow). has_lapsed now c.expires_at) st.clients;
    registration_events =
        delete_where (λ (e : RegistrationRow). has_lapsed (before_by window now) e.occurred_at)
          st.registration_events;
  }

  unfoldable pub prune : Datetime → ℕ → OauthStore → Reply (Unit {0})
  prune now window st = committed st (do needs_aware now; ok (tt, pruned now window st))
