-- ===== src/Proposals/Tests.antt =====
-- Runs of src/auth-broker/app/proposals on concrete inputs.
use mathai_ai_swarm_memory.Common.{
  ℕ, ◌+◌, ◌≡◌, if◌then◌else◌, leb, length, refl, Option, List, [], ◌∷◌, ◌++◌, some, none, String,
  Codes, codes, ok, err, false, arith,
}
use mathai_ai_swarm_memory.Broker.Store.{Datetime, is_null}
use mathai_ai_swarm_memory.Dispatch.Merge.Paths.{
  split, join, norm_step, norm_loop, normpath, is_special_part,
}
use mathai_ai_swarm_memory.Proposals.Schema.{
  ProposalInput, blob, UrlParts, text_field, sources_field, proposal_id_ok, assert_write_path,
  assert_branch, derive_branch, derive_path, payload_error, parse_source, parse_sources,
  parse_proposal, render_note,
}
use mathai_ai_swarm_memory.Proposals.Outbox.{
  pr_opened, ProposalRecord, Outbox, Claim, get, claim_row, claim_checks, claim, asserted, advance,
  mark_branch, mark_commit, mark_pr,
}
use mathai_ai_swarm_memory.Proposals.Outbox.Rises.{
  OutboxCall, claiming, branching, filing, opening, IsRanked, run_calls, advance_rises,
}
use mathai_ai_swarm_memory.Proposals.Publish.{
  Github, review_card, Auth, has_session, valid_idempotency_key, created_answer, published_answer,
  branch_step, file_step, pr_step, continue, steps, publish, claim_of, claimed_answer, Answer,
  created, submit_proposal,
}
use mathai_ai_swarm_memory.Proposals.Publish.Live.{IsStored, IsWorking, publish_completes}
use mathai_ai_swarm_memory.Proposals.Publish.Replay.{Submission, submit}

program : Unit {0}
unfolding split join norm_step norm_loop normpath is_special_part proposal_id_ok assert_write_path
    assert_branch derive_branch derive_path parse_source parse_sources parse_proposal render_note
    get claim_row claim_checks claim asserted advance mark_branch mark_commit mark_pr review_card
    has_session valid_idempotency_key created_answer published_answer branch_step file_step pr_step
    blob continue steps publish claimed_answer submit_proposal
program = tt

abbrev at : ℕ → Datetime
at n = record { instant = n; offset = some 1440 }

abbrev day : Datetime → Codes
day d = codes "2026-07-28"

abbrev quoted : Codes → Codes
quoted s = 34 ∷ s ++ 34 ∷ []

abbrev input : ProposalInput
input = record {
  namespace = "pesquisa.tcc";
  title = codes "A title";
  body_markdown = codes "text";
  sources = [];
}

-- A text as JSON: a one before each code point, and a zero at the end.
abbrev json : Codes → Codes
json [] = 0 ∷ []
json (c ∷ cs) = 1 ∷ c ∷ json cs

-- Texts of another length class have another digest.
abbrev digest : Codes → String
digest s = if leb (length s) 200 then "short" else "long"

abbrev url : Codes
url = codes "https://github.com/o/r/pull/3"

-- GitHub as the number of its calls, each of which succeeds.
abbrev hub : Github ℕ
hub = record {
  ensure_branch = λ branch w. (ok "b", w + 1);
  ensure_file = λ branch path content message w. (ok "c", w + 1);
  ensure_draft_pr = λ branch title body w. (ok (3, url), w + 1);
}

abbrev auth : Auth
auth = record {
  principal_id = "github:7";
  workspace_id = "ws";
  scopes = "ctx:propose:pesquisa.tcc" ∷ [];
  family_id = "f1";
  expires_at = at 90;
}

abbrev first_id : Codes
first_id = codes "abcdefgh"

abbrev second_id : Codes
second_id = codes "ABCDEFGH"

abbrev submission : String → Codes → ℕ → Submission
submission key proposal_id n = record {
  auth = auth;
  payload = input;
  key = key;
  proposal_id = proposal_id;
  now = at n;
}

derived :
    derive_path day "pesquisa.tcc" first_id (at 1)
    ≡ ok (codes "pesquisa/tcc/inbox/2026-07-28-abcdefgh.md")
unfolding program
derived = refl

blocked : assert_write_path (codes "pesquisa/tcc/inbox/wiki/a.md") ≡ err payload_error
unfolding program
blocked = refl

climbing : assert_write_path (codes "pesquisa/tcc/inbox/../a.md") ≡ err payload_error
unfolding program
climbing = refl

abbrev web : Codes → Option UrlParts
web u = some (record { scheme = codes "https"; netloc = codes "a"; has_credentials = false })

abbrev bytes : Codes → ℕ
bytes s = 4

parses :
    parse_proposal web bytes
      (text_field (codes "pesquisa.tcc"))
      (text_field (codes " A title "))
      (text_field (codes "text"))
      (sources_field [])
    ≡ ok input
unfolding program
parses = refl

abbrev first_submit : Answer × (Outbox × ℕ)
first_submit = submit hub day quoted json digest (submission "k1" first_id 1) [] 0

creates : first_submit.0 ≡ created first_id (codes "swarm/proposal-abcdefgh") url
unfolding program
creates = refl

three_calls : first_submit.1.1 ≡ 3
unfolding program
three_calls = refl

abbrev stored : Codes → ProposalRecord
stored note = record {
  proposal_id = first_id;
  workspace_id = "ws";
  principal_id = "github:7";
  idempotency_key = "k1";
  payload_hash = "short";
  namespace = "pesquisa.tcc";
  title = codes "A title";
  path = codes "pesquisa/tcc/inbox/2026-07-28-abcdefgh.md";
  branch = codes "swarm/proposal-abcdefgh";
  note = note;
  status = pr_opened;
  branch_sha = some "b";
  commit_sha = some "c";
  pr_number = some 3;
  pr_url = some url;
  created_at = at 1;
  updated_at = at 1;
}

abbrev row : ProposalRecord
row = stored (codes "note")

abbrev rows : Outbox
rows = row ∷ []

abbrev long_input : ProposalInput
long_input = record input {
  body_markdown =
      codes
        "a text that is longer than the first one, so that its hash is another one than that of it";
}

abbrev reusing : Submission
reusing = record (submission "k1" second_id 5) { payload = long_input }

abbrev first_checked : Claim
first_checked = claim_of hub day quoted json digest auth long_input "k1" second_id (at 5)

abbrev others : List Submission
others = submission "k2" second_id 2 ∷ submission "k1" second_id 3 ∷ []

abbrev first_claim : Claim
first_claim = claim_of hub day quoted json digest auth input "k2" second_id (at 2)

abbrev outbox_calls : List OutboxCall
outbox_calls =
    claiming first_claim (at 2)
    ∷ branching first_id "z" (at 3)
    ∷ filing first_id "y" (at 4)
    ∷ opening second_id 4 url (at 5)
    ∷ []

ranked : IsRanked first_id 1 rows
ranked = record { row = row; found = refl; reached = omega arith }

advance_rises_example : IsRanked first_id 1 (run_calls day outbox_calls rows)
advance_rises_example = advance_rises day first_id 1 outbox_calls rows ranked

abbrev halfway : ProposalRecord
halfway = record row { commit_sha = none; pr_number = none; pr_url = none }

half-IsStored : IsStored halfway (halfway ∷ [])
unfolding program
half-IsStored = record { found = refl; path_ok = refl; branch_ok = refl }

hub_works : IsWorking hub
hub_works = record {
  branches = λ branch w. ("b", refl);
  files = λ branch path content message w. ("c", refl);
  prs = λ branch title body w. (3, url, refl, refl);
}

publish_completes_example :
    (x : ProposalRecord) × ((publish hub halfway (at 9) (halfway ∷ []) 0).0 ≡ ok x)
    × (is_null x.pr_url ≡ false)
publish_completes_example =
    publish_completes (at 9) refl hub hub_works halfway (halfway ∷ []) 0 half-IsStored
