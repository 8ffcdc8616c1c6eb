-- ===== src/Lib.antt =====
-- Verification of the swarm memory's programs: the auth broker (src/auth-broker) and the daily
-- reports' dispatcher (src/reports/swarm_reports/dispatch).
--
-- Common holds what the parts share: Boolean tests on numbers, list searches and updates, results
-- that may be errors, and texts.
--
-- Dispatch.Merge models src/reports/swarm_reports/dispatch/merge_policy.py, which decides whether a
-- pull request may be merged without the owner: Paths is `normalize_path`, Glob is `_match` and
-- `matches_any`, Tiers is `classify_path`, and Decision is `_effective_paths`, `_signal_ok` and
-- `evaluate_merge`. Paths and patterns are lists of code points. The standard library's `str`,
-- `posixpath` and `re` are written out as far as the module calls them. A datetime is a number of
-- microseconds, a date the number of its day, and a decision's reason is data in place of a message.
--
-- Broker models src/auth-broker/app/adapters/sqlite.py. Store has its tables as lists of rows and its
-- transactions, which roll back when their body raises; Families and its child Rotate have the
-- methods on token families. Random ids are arguments. Datetimes carry their instant and whether
-- they are aware; the ISO texts of the columns stand for the datetimes themselves.
--
-- Broker.Pairing models the pairing of agents: src/auth-broker/app/domain/pairing.py and the methods
-- create, verify_proof, approve, revoke, active_agent and consume_nonce of the store. The digest and
-- the Ed25519 keys are a parameter. Its child Calls has sequences of these calls.
--
-- Broker.Sessions models the store's create_session, active_session, revoke_session and
-- consume_dpop_jti. A session's scopes are joined by blanks when it is stored and split when it is
-- read.
--
-- Broker.Scopes models src/auth-broker/app/auth/scopes.py, and Broker.Grants the store's set_grant,
-- _insert_grant_locked and revoke_grant. Broker.Principals has the methods on principals, and
-- list_grants and active_grant_scopes; SQL compares the ISO texts of instants that may have different
-- offsets, so the order of these texts is a parameter, as are the JSON text of a public key, its
-- thumbprint and Python's isdigit.
--
-- Oauth models src/auth-broker/app/mcp_oauth, the authorization server of the remote MCP. Store has
-- the tables of store.py, and Clients, Transactions, Codes and Families its methods, one module for
-- each kind of row. Tokens models tokens.py on the claims of a token; signing and decoding a JWT are
-- parameters. Provider models provider.py: the grants of the token endpoint, revoke and authorize,
-- with mint and the opening of families; its child Requests has forms, responses and the configuration,
-- Register the registration of clients, and Consent the authorization endpoint, the consent form and
-- the GitHub callback. The handlers call the store, the principals and the scopes as
-- the source does, so what a handler leaves is what these methods leave. A form or a query is the list
-- of its decoded pairs, without repeated keys; the digest, SHA-256, the exchange of a code with GitHub
-- and the splitting of texts are parameters, and random texts are arguments; in Tokens so are the
-- signing and the decoding of a token. Families.Chain is the abstract specification of a refresh family,
-- as steps that the answers of the calls tell; Families.Views says what the answers tell and how a row
-- is viewed, and Families.Refines, with Families.Rotates, and Families.Present compare the store with
-- the specification.
--
-- Dispatch.State models src/reports/swarm_reports/dispatch/statefile.py, with the formats of dates
-- and the digest as a parameter, and Dispatch.Claims models claims.py beside it: the parser of claim
-- files, and Calls with try_claim, _close, mark_done and mark_failed. The directory of claim files
-- is a list of named JSON objects, and the file lock makes each method one step.
--
-- Proposals models src/auth-broker/app/proposals. Schema has the checks of schema.py on payloads, paths
-- and branches and the text of a note, Outbox the methods of store.py on a list of rows, and Publish
-- `publish` and `submit_proposal` of router.py. The GitHub adapter is a parameter with a state of its
-- own; the JSON texts of a string, `urlparse`, the date of an instant and the SHA-256 digest are
-- parameters too. The text that `payload_hash` hashes is a definition, and Hashing compares the texts
-- of two payloads. Paths, branches and notes are lists of code points.
--
-- No loop runs on fuel: every recursion is structural.
--
-- Not modelled: the reading of HTTP bodies, the other HTTP handlers, the network clients, the
-- rendering of reports and the processes that the dispatcher starts.
pub mod Common
pub mod Dispatch
pub mod Broker
pub mod Oauth
pub mod Proposals
