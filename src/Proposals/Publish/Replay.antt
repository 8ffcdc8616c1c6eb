-- ===== src/Proposals/Publish/Replay.antt =====
-- Replays of a published proposal (`submit_proposal` of src/auth-broker/app/proposals/router.py).
use mathai_ai_swarm_memory.Common.{
  ◌≡◌, true, List, [], ◌∷◌, if◌then◌else◌, String, str_eq, Codes, ok,
}
use mathai_ai_swarm_memory.Broker.Store.{Datetime}
use mathai_ai_swarm_memory.Broker.Scopes.{is_member}
use mathai_ai_swarm_memory.Proposals.Schema.{payload_hash, ProposalInput}
use mathai_ai_swarm_memory.Proposals.Outbox.{ProposalRecord, Outbox, Claim, claim_checks, claim}
use mathai_ai_swarm_memory.Proposals.Publish.{
  Github, Auth, has_session, valid_idempotency_key, propose_scope, claim_of, Answer, refused,
  created_answer, submit_proposal,
}
use mathai_ai_swarm_memory.Proposals.Publish.Held.{Key}

-- A submission: the principal, the payload, the idempotency key, the id that is drawn, and the time.
pub record Submission : Type 0 where
  pub auth : Auth
  pub payload : ProposalInput
  pub key : String
  pub proposal_id : Codes
  pub now : Datetime

abbrev pub key_of : Submission → Key
key_of s = record {
  workspace_id = s.auth.workspace_id;
  principal_id = s.auth.principal_id;
  idempotency_key = s.key;
}

module _ {W : Type 0} (github : Github W) (date_text : Datetime → Codes)
    (yaml_string : Codes → Codes) (json_string : Codes → Codes) (digest : Codes → String) where
  abbrev pub submit : Submission → Outbox → W → Answer × (Outbox × W)
  submit s rows w =
      submit_proposal github date_text yaml_string json_string digest s.auth s.payload s.key
        s.proposal_id s.now rows w

  abbrev pub submit_all : List Submission → Outbox × W → Outbox × W
  submit_all [] o = o
  submit_all (s ∷ submissions) o = submit_all submissions (submit s o.0 o.1).1

  -- The claim that a submission makes.
  abbrev pub its_claim : Submission → Claim
  its_claim s =
      claim_of github date_text yaml_string json_string digest s.auth s.payload s.key s.proposal_id
        s.now

  -- The checks that a submission has to pass before its key is looked up.
  pub record IsChecked (s : Submission) : Type 0 where
    pub row : ProposalRecord
    pub session : has_session s.auth s.now ≡ true
    pub key : valid_idempotency_key s.key ≡ true
    pub scope : is_member (propose_scope s.payload) s.auth.scopes ≡ true
    pub claim : claim_checks date_text (its_claim s) s.now ≡ ok row

  -- The answer to a submission whose key has a published row.
  abbrev pub replay_of : Submission → ProposalRecord → Answer
  replay_of s row =
      if str_eq row.payload_hash (payload_hash json_string digest s.payload)
      then created_answer row
      else refused "Idempotency key reused with a different payload" 409
