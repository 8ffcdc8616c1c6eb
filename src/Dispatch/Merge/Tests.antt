-- ===== src/Dispatch/Merge/Tests.antt =====
-- Runs of src/reports/swarm_reports/dispatch/merge_policy.py on concrete inputs.
use mathai_ai_swarm_memory.Common.{
  ◌≡◌, ◌≢◌, refl, ◌↔◌, true, false, [], ◌∷◌, ◌++◌, none, some, codes, codes_eq, starts_with, ok,
  err,
}
use mathai_ai_swarm_memory.Dispatch.Merge.Paths.{
  normalize_path, absolute, non_canonical, split, join, norm_step, norm_loop, normpath,
  rstrip_slash, ends_with_slash, is_first_char, is_path_char, is_safe_rest, matches_safe_path,
  has_drive_letter, is_special_part,
}
use mathai_ai_swarm_memory.Dispatch.Merge.Paths.Plain.{IsPlain}
use mathai_ai_swarm_memory.Dispatch.Merge.Paths.Accepts.{normalize_path_iff}
use mathai_ai_swarm_memory.Dispatch.Merge.Glob.{
  glob_match, glob_items, single_item, re_match, matches_any,
}
use mathai_ai_swarm_memory.Dispatch.Merge.Glob.Laws.{
  glob_match-slashes, slashes, glob_match-prefix, glob_match-literal,
}
use mathai_ai_swarm_memory.Dispatch.Merge.Tiers.{
  RepoPolicy, wiki, modified, t3, tier_of, classify_path, wiki_tier, is_authority_file,
  is_skills_or_weights, is_principle, in_fontes, is_compiled, is_navigation, basename_from,
  contains,
}
use mathai_ai_swarm_memory.Dispatch.Merge.Decision.{
  PullRequest, CheckSignal, success, evaluate_merge, merge, lint_green, decide, decide_pairs,
  decide_tiers, signal_decision, signal_ok, tau_intent_gate, collect_pairs, effective_paths,
  classify_all, first_unknown,
}
use mathai_ai_swarm_memory.Dispatch.Merge.Decision.Safety.{evaluate_merge-ne-err}

program : Unit {0}
unfolding normalize_path normpath rstrip_slash ends_with_slash is_first_char is_path_char
    is_safe_rest matches_safe_path has_drive_letter is_special_part split join norm_step norm_loop
    glob_match glob_items single_item re_match matches_any tier_of classify_path wiki_tier
    is_authority_file is_skills_or_weights is_principle in_fontes is_compiled is_navigation
    basename_from contains evaluate_merge decide_pairs decide_tiers signal_decision signal_ok
    tau_intent_gate collect_pairs effective_paths classify_all first_unknown
program = tt

normalizes : normalize_path (codes "wiki/log-2026.md") ≡ ok (codes "wiki/log-2026.md")
unfolding program
normalizes = refl

rejects :
    (normalize_path (codes "/etc/passwd") ≡ err absolute)
    × (normalize_path (codes "wiki/../secret") ≡ err non_canonical)
    × (normalize_path (codes "daily/") ≡ err non_canonical)
unfolding program
rejects = (refl, refl, refl)

normalize_path_iff_example :
    (normalize_path (codes "daily/x.md") ≡ ok (codes "daily/x.md"))
    ↔ ((codes "daily/x.md" ≡ codes "daily/x.md") × IsPlain (codes "daily/x.md"))
normalize_path_iff_example = normalize_path_iff (codes "daily/x.md") (codes "daily/x.md")

glob_match-slashes_example : slashes (codes "daily/x.md") ≡ slashes (codes "daily/*")
unfolding program
glob_match-slashes_example = glob_match-slashes (codes "daily/x.md") (codes "daily/*") refl refl

star_stays_in_directory : glob_match (codes "daily/x/deep.md") (codes "daily/*") ≡ false
unfolding program
star_stays_in_directory = refl

stars_cross :
    (glob_match (codes "skills/a/b.md") (codes "skills/**/*.md") ≡ true)
    × (glob_match (codes "skills/b.md") (codes "skills/**/*.md") ≡ true)
unfolding program
stars_cross = (refl, refl)

glob_match-prefix_example :
    glob_match (codes "skills/a/b.md") (codes "skills/" ++ codes "**")
    ≡ starts_with (codes "skills/a/b.md") (codes "skills/")
glob_match-prefix_example = glob_match-prefix (codes "skills/a/b.md") (codes "skills/") refl refl

glob_match-literal_example :
    glob_match (codes "README.md") (codes "README.md")
    ≡ codes_eq (codes "README.md") (codes "README.md")
glob_match-literal_example = glob_match-literal (codes "README.md") (codes "README.md") refl refl

abbrev vault : RepoPolicy
vault = record {
  repo = "owner/wiki";
  kind = wiki;
  allowed_paths = codes "daily/**" ∷ codes "wiki/*.md" ∷ [];
  protected_paths = [];
  is_tau_intent = false;
  skills_paths = codes "skills/**" ∷ [];
  weights_paths = [];
}

abbrev lint : CheckSignal
lint = record {
  state = success;
  head_sha = "abc";
  observed_at = 1000;
  required_contexts_met = true;
}

abbrev pull : PullRequest
pull = record {
  repo = "owner/wiki";
  head_sha = "abc";
  files = record { path = codes "daily/x.md"; status = modified; previous_filename = none } ∷ [];
  checks = none;
  lint = some lint;
}

merges_daily :
    evaluate_merge pull vault "abc" 2000 none 5000 ≡ ok (decide merge lint_green (t3 ∷ []))
unfolding program
merges_daily = refl

evaluate_merge-ne-err_example : evaluate_merge pull vault "abc" 2000 none 5000 ≢ err absolute
evaluate_merge-ne-err_example = evaluate_merge-ne-err pull vault "abc" 2000 none 5000 absolute
