-- ===== src/Dispatch/Merge/Decision.antt =====
-- `_effective_paths`, `_signal_ok` and `evaluate_merge` of
-- src/reports/swarm_reports/dispatch/merge_policy.py. A `datetime` is a number of microseconds, a
-- `date` is the number of its day, and the reason of a decision is data in place of a message.
pub mod Pairs
pub mod Files
pub mod Signals
pub mod Safety
use mathai_ai_swarm_memory.Common.{
  ℕ, ◌+◌, ◌-◌, ◌*◌, ◌/◌, ◌≡◌, refl, Bool, true, false, not, ◌&&◌, ◌||◌, List, [], ◌∷◌, ◌++◌, Option,
  none, some, ltb, if◌then◌else◌, any, find, is_empty, map, String, str_eq, is_unset, Codes,
  is_blank, Result, ok, err, ◌>>=◌,
}
use mathai_ai_swarm_memory.Dispatch.Merge.Paths.{normalize_path, MalformedPath}
use mathai_ai_swarm_memory.Dispatch.Merge.Glob.{matches_any}
use mathai_ai_swarm_memory.Dispatch.Merge.Tiers.{
  FileStatus, removed, RepoKind, wiki, Tier, t0, t1, skills_weights, unknown, RepoPolicy, tier_of,
  classify_path,
}

pub data Action : Type 0 where
  merge draft pr_review block suggestion_only : Action

pub data CheckState : Type 0 where
  success failure pending none_reported error : CheckState

pub record ChangedFile : Type 0 where
  pub path : Codes
  pub status : FileStatus
  pub previous_filename : Option Codes

pub record CheckSignal : Type 0 where
  pub state : CheckState
  pub head_sha : String
  pub observed_at : ℕ
  pub required_contexts_met : Bool

pub record PullRequest : Type 0 where
  pub repo : String
  pub head_sha : String
  pub files : List ChangedFile
  pub checks : Option CheckSignal
  pub lint : Option CheckSignal

pub record TauIntentState : Type 0 where
  pub activated_on : Option ℕ
  pub digest_proved : Bool
  pub digest_evidence : Codes

-- Why a signal blocks.
pub data SignalReason : Type 0 where
  missing other_head not_green contexts_missing in_future stale : SignalReason

pub data Reason : Type 0 where
  repo_not_covered head_unknown head_stale no_files : Reason
  malformed : MalformedPath → Reason
  touches_t0 : Reason
  unknown_tier outside_allowlist protected_path : Codes → Reason
  activation_unknown within_hold no_digest_evidence : Reason
  skills_or_weights compiled_wiki : Reason
  lint_blocks checks_block : SignalReason → Reason
  lint_green checks_green : Reason

pub record MergeDecision : Type 0 where
  pub action : Action
  pub reason : Reason
  pub tiers : List Tier

abbrev pub decide : Action → Reason → List Tier → MergeDecision
decide action reason tiers = record { action = action; reason = reason; tiers = tiers }

-- Microseconds of a day; `TAU_INTENT_MERGE_HOLD` in days.
abbrev pub day_length : ℕ
day_length = 24 * 60 * 60 * 1000000

abbrev pub tau_intent_merge_hold : ℕ
tau_intent_merge_hold = 14

abbrev pub Pairs : Type 0
Pairs = List (Codes × FileStatus)

-- `if file.previous_filename:`
abbrev pub previous_pair : Option Codes → Result MalformedPath Pairs
previous_pair none = ok []
previous_pair (some []) = ok []
previous_pair (some (c ∷ cs)) = do old ← normalize_path (c ∷ cs); ok ((old, removed) ∷ [])

unfoldable pub effective_paths : ChangedFile → Result MalformedPath Pairs
effective_paths file = do
  path ← normalize_path file.path
  rest ← previous_pair file.previous_filename
  ok ((path, file.status) ∷ rest)

-- The loop that extends `pairs`.
unfoldable pub collect_pairs : List ChangedFile → Result MalformedPath Pairs
collect_pairs [] = ok []
collect_pairs (file ∷ files) = do
  pairs ← effective_paths file
  rest ← collect_pairs files
  ok (pairs ++ rest)

abbrev pub is_success : CheckState → Bool
is_success success = true
is_success _ = false

-- `_signal_ok`: none when the signal is green, current and fresh.
unfoldable pub signal_ok : Option CheckSignal → String → ℕ → ℕ → Option SignalReason
signal_ok none head now max_age = some missing
signal_ok (some signal) head now max_age =
    if is_unset signal.head_sha || not (str_eq signal.head_sha head)
    then some other_head
    else if not (is_success signal.state)
    then some not_green
    else if not signal.required_contexts_met
    then some contexts_missing
    else if ltb now signal.observed_at
    then some in_future
    else if ltb max_age (now - signal.observed_at)
    then some stale
    else none

abbrev pub is_t0 : Tier → Bool
is_t0 t0 = true
is_t0 _ = false

abbrev pub is_t1 : Tier → Bool
is_t1 t1 = true
is_t1 _ = false

abbrev pub is_unknown : Tier → Bool
is_unknown unknown = true
is_unknown _ = false

abbrev pub is_skills_weights : Tier → Bool
is_skills_weights skills_weights = true
is_skills_weights _ = false

-- The last two branches: the signal of the kind of repository.
unfoldable pub signal_decision :
    PullRequest → RepoPolicy → String → ℕ → ℕ → List Tier → MergeDecision
signal_decision pr policy head now max_age tiers = elim policy.kind [
  | wiki ↦ elim (signal_ok pr.lint head now max_age) [
    | none ↦ decide merge lint_green tiers
    | some reason ↦ decide block (lint_blocks reason) tiers
  ]
  | RepoKind.code ↦ elim (signal_ok pr.checks head now max_age) [
    | none ↦ decide merge checks_green tiers
    | some reason ↦ decide block (checks_block reason) tiers
  ]
]

-- The hold of the tau-intent repository; none where it lets the decision go on. `today` and
-- `activated` are days.
unfoldable pub tau_intent_hold : ℕ → TauIntentState → Option (Action × Reason)
tau_intent_hold today state = elim state.activated_on [
  | none ↦ some (block, activation_unknown)
  | some activated ↦
      if ltb today (activated + tau_intent_merge_hold)
      then some (pr_review, within_hold)
      else if not state.digest_proved || is_blank state.digest_evidence
      then some (pr_review, no_digest_evidence)
      else none
]

abbrev pub no_tau_intent_state : TauIntentState
no_tau_intent_state = record { activated_on = none; digest_proved = false; digest_evidence = [] }

-- `tau_intent or TauIntentState()`, under `if policy.is_tau_intent`
unfoldable pub tau_intent_gate : RepoPolicy → ℕ → Option TauIntentState → Option (Action × Reason)
tau_intent_gate policy today tau_intent =
    if policy.is_tau_intent
    then (elim tau_intent [
      | none ↦ tau_intent_hold today no_tau_intent_state
      | some state ↦ tau_intent_hold today state
    ])
    else none

-- The tuple of tiers. `classify_path` normalises again, outside the `try`.
unfoldable pub classify_all : RepoPolicy → Pairs → Result MalformedPath (List Tier)
classify_all policy [] = ok []
classify_all policy ((path, status) ∷ pairs) = do
  tier ← classify_path path policy.kind status (some policy)
  rest ← classify_all policy pairs
  ok (tier ∷ rest)

-- `[p for p, t in zip(paths, tiers) if t == "unknown"]`, its first
unfoldable pub first_unknown : Pairs → List Tier → Option Codes
first_unknown [] tiers = none
first_unknown (pair ∷ pairs) [] = none
first_unknown ((path, _) ∷ pairs) (tier ∷ tiers) =
    let rest = first_unknown pairs tiers in if is_unknown tier then some path else rest

abbrev pub is_outside : RepoPolicy → Codes × FileStatus → Bool
is_outside policy (path, _) = not (matches_any path policy.allowed_paths)

abbrev pub is_protected : RepoPolicy → Codes × FileStatus → Bool
is_protected policy (path, _) = matches_any path policy.protected_paths

-- The branches behind the tests of the paths.
unfoldable pub decide_tiers :
    PullRequest → RepoPolicy → String → ℕ → Option TauIntentState → ℕ → List Tier → MergeDecision
decide_tiers pr policy head now tau_intent max_age tiers =
    elim (tau_intent_gate policy (now / day_length) tau_intent) [
      | some (action, reason) ↦ decide action reason tiers
      | none ↦
          if any is_skills_weights tiers
          then decide draft skills_or_weights tiers
          else if any is_t1 tiers
          then decide pr_review compiled_wiki tiers
          else signal_decision pr policy head now max_age tiers
    ]

-- The branches behind the classification.
unfoldable pub decide_pairs :
    PullRequest
    → RepoPolicy
    → String
    → ℕ
    → Option TauIntentState
    → ℕ
    → Pairs
    → List Tier
    → MergeDecision
decide_pairs pr policy head now tau_intent max_age pairs tiers =
    if any is_t0 tiers
    then decide suggestion_only touches_t0 tiers
    else elim (first_unknown pairs tiers) [
      | some path ↦ decide block (unknown_tier path) tiers
      | none ↦ elim (find (is_outside policy) pairs) [
        | some (path, _) ↦ decide block (outside_allowlist path) tiers
        | none ↦ elim (find (is_protected policy) pairs) [
          | some (path, _) ↦ decide pr_review (protected_path path) tiers
          | none ↦ decide_tiers pr policy head now tau_intent max_age tiers
        ]
      ]
    ]

-- The decision, or the exception that leaves the function. The time is in UTC, so that its day is
-- `now.date()`.
unfoldable pub evaluate_merge :
    PullRequest
    → RepoPolicy
    → String
    → ℕ
    → Option TauIntentState
    → ℕ
    → Result MalformedPath MergeDecision
evaluate_merge pr policy head now tau_intent max_age =
    if not (str_eq pr.repo policy.repo)
    then ok (decide block repo_not_covered [])
    else if is_unset pr.head_sha || is_unset head
    then ok (decide block head_unknown [])
    else if not (str_eq pr.head_sha head)
    then ok (decide block head_stale [])
    else if is_empty pr.files
    then ok (decide block no_files [])
    else elim (collect_pairs pr.files) [
      | err e ↦ ok (decide block (malformed e) [])
      | ok pairs ↦ do
        tiers ← classify_all policy pairs
        ok (decide_pairs pr policy head now tau_intent max_age pairs tiers)
    ]
