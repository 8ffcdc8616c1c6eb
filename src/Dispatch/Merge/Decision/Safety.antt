-- ===== src/Dispatch/Merge/Decision/Safety.antt =====
-- When `evaluate_merge` of src/reports/swarm_reports/dispatch/merge_policy.py merges, and that it
-- always decides.
use mathai_ai_swarm_memory.Common.{
  ℕ, ◌/◌, ◌≡◌, ◌≢◌, inl, inr, false, Option, some, is_empty, map, String, All, Result-cases, ok,
  err, arith,
}
use mathai_ai_swarm_memory.Dispatch.Merge.Paths.{MalformedPath}
use mathai_ai_swarm_memory.Dispatch.Merge.Tiers.{RepoKind, wiki, RepoPolicy}
use mathai_ai_swarm_memory.Dispatch.Merge.Decision.{
  PullRequest, CheckSignal, TauIntentState, MergeDecision, Pairs, collect_pairs, classify_all,
  decide_pairs, day_length, evaluate_merge,
}
use mathai_ai_swarm_memory.Dispatch.Merge.Decision.Pairs.{
  pair_tier, collect_pairs-IsNormal, classify_all-IsNormal,
}
use mathai_ai_swarm_memory.Dispatch.Merge.Decision.Files.{FileCleared}
use mathai_ai_swarm_memory.Dispatch.Merge.Decision.Signals.{IsGreen, TauIntentReleased}

-- The signal that counts for the kind of repository: the lint of a wiki, the checks of code.
abbrev pub deciding_signal : RepoKind → PullRequest → Option CheckSignal
deciding_signal wiki pr = pr.lint
deciding_signal RepoKind.code pr = pr.checks

-- All that the policy asks before a pull request is merged without the owner.
pub record MayMerge (pr : PullRequest) (policy : RepoPolicy) (head : String) (now : ℕ)
    (tau_intent : Option TauIntentState) (max_age : ℕ) : Type 0 where
  pub covered : pr.repo ≡ policy.repo
  pub current : pr.head_sha ≡ head
  pub known : head ≢ ""
  pub some_file : is_empty pr.files ≡ false
  pub paths : All (FileCleared policy) pr.files
  pub released : TauIntentReleased policy.is_tau_intent tau_intent (now / day_length)
  pub signal :
      (s : CheckSignal) × (deciding_signal policy.kind pr ≡ some s) × IsGreen s head now max_age

module _ (pr : PullRequest) (policy : RepoPolicy) (head : String) (now : ℕ)
    (tau_intent : Option TauIntentState) (max_age : ℕ) where
  -- The decision on pairs that have been classified.
  abbrev on_pairs : Pairs → MergeDecision
  on_pairs pairs =
      decide_pairs pr policy head now tau_intent max_age pairs (map (pair_tier policy) pairs)

  classified :
      (pairs : Pairs)
      → collect_pairs pr.files ≡ ok pairs
      → classify_all policy pairs ≡ ok (map (pair_tier policy) pairs)
  classified pairs e = classify_all-IsNormal policy pairs (collect_pairs-IsNormal pr.files pairs e)

  -- The exception of the second normalisation, which no handler would catch, cannot happen.
  pub evaluate_merge-ne-err :
      (e : MalformedPath) → evaluate_merge pr policy head now tau_intent max_age ≢ err e
  unfolding evaluate_merge
  evaluate_merge-ne-err e h = elim (Result-cases (collect_pairs pr.files)) [
    | inl (pairs, collected) ↦ ground (arith, classified pairs collected)
    | inr (malformed_path, refused) ↦ ground arith
  ]
