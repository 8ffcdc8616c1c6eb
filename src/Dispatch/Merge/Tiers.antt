-- ===== src/Dispatch/Merge/Tiers.antt =====
-- `classify_path` of src/reports/swarm_reports/dispatch/merge_policy.py: the tier of one path.
use mathai_ai_swarm_memory.Common.{
  ℕ, Bool, true, false, ◌&&◌, ◌||◌, List, [], ◌∷◌, ◌++◌, Option, none, some, ◌==◌, leb,
  if◌then◌else◌, any, is_empty, String, Codes, codes, codes_eq, starts_with, Result, ok, ◌>>=◌,
}
use mathai_ai_swarm_memory.Dispatch.Merge.Paths.{normalize_path, MalformedPath}
use mathai_ai_swarm_memory.Dispatch.Merge.Glob.{matches_any}

pub data FileStatus : Type 0 where
  added modified removed renamed copied changed : FileStatus

pub data RepoKind : Type 0 where
  wiki code : RepoKind

pub data Tier : Type 0 where
  t0 t1 t2 t3 skills_weights code unknown : Tier

pub record RepoPolicy : Type 0 where
  pub repo : String
  pub kind : RepoKind
  pub allowed_paths : List Codes
  pub protected_paths : List Codes
  pub is_tau_intent : Bool
  pub skills_paths : List Codes
  pub weights_paths : List Codes

-- `posixpath.basename(path)`: what follows the last slash.
unfoldable pub basename_from : Codes → Codes → Codes
basename_from last [] = last
basename_from last (x ∷ xs) = basename_from (if x == b'/' then [] else last ++ x ∷ []) xs

unfoldable pub is_authority_file : Codes → Bool
unfolding basename_from
is_authority_file path =
    let name = basename_from [] path in
    codes_eq name (codes "CLAUDE.md") || codes_eq name (codes "AGENTS.md")

-- `needle in path`
unfoldable pub contains : Codes → Codes → Bool
contains [] needle = is_empty needle
contains (x ∷ xs) needle = starts_with (x ∷ xs) needle || contains xs needle

unfoldable pub in_fontes : Codes → Bool
unfolding contains
in_fontes path = contains (b'/' ∷ path) (codes "/fontes/")

-- `_under(path, prefixes)`
abbrev pub under : Codes → List Codes → Bool
under path prefixes = any (λ prefix. starts_with path prefix) prefixes

abbrev wiki_t0_prefixes : List Codes
wiki_t0_prefixes = codes "wiki/principles/" ∷ []

abbrev wiki_t1_prefixes : List Codes
wiki_t1_prefixes = codes "wiki/concepts/" ∷ codes "wiki/entities/" ∷ codes "wiki/case-studies/" ∷ []

abbrev wiki_t3_prefixes : List Codes
wiki_t3_prefixes = codes "wiki/MOC/" ∷ codes "daily/" ∷ []

abbrev wiki_t2_prefixes : List Codes
wiki_t2_prefixes = codes "estudos/" ∷ codes "pesquisa/" ∷ codes "brand/" ∷ []

abbrev is_digit : ℕ → Bool
is_digit c = leb b'0' c && leb c b'9'

-- `\d{4}\.md$` on what follows `wiki/log-`; the paths that reach the test are ASCII.
abbrev is_log_year : Codes → Bool
is_log_year (a ∷ b ∷ c ∷ d ∷ rest) =
    is_digit a
    && is_digit b
    && is_digit c
    && is_digit d
    && (codes_eq rest (codes ".md") || codes_eq rest (codes ".md" ++ 10 ∷ []))
is_log_year _ = false

-- The rest of a text after a prefix.
abbrev pub after_prefix : Codes → Codes → Codes
after_prefix s [] = s
after_prefix [] (y ∷ ys) = []
after_prefix (x ∷ xs) (y ∷ ys) = after_prefix xs ys

-- `_WIKI_T3_FILES`, `_WIKI_T3_PREFIXES` and `_WIKI_T3_PATTERNS`
unfoldable pub is_navigation : Codes → Bool
is_navigation path =
    codes_eq path (codes "wiki/index.md")
    || codes_eq path (codes "wiki/log.md")
    || under path wiki_t3_prefixes
    || (starts_with path (codes "wiki/log-") && is_log_year (after_prefix path (codes "wiki/log-")))

-- `wiki/principles/`
unfoldable pub is_principle : Codes → Bool
is_principle path = under path wiki_t0_prefixes

unfoldable pub is_compiled : Codes → Bool
is_compiled path = under path wiki_t1_prefixes

unfoldable pub is_working_note : Codes → Bool
is_working_note path = under path wiki_t2_prefixes

unfoldable pub in_wiki : Codes → Bool
in_wiki path = starts_with path (codes "wiki/")

-- `status == "removed"`
abbrev pub is_removed : FileStatus → Bool
is_removed removed = true
is_removed _ = false

-- `status in ("added", "copied")`
abbrev pub is_ingest : FileStatus → Bool
is_ingest added = true
is_ingest copied = true
is_ingest _ = false

-- The tier of a path of a wiki repository, behind the two tests that all repositories share.
unfoldable pub wiki_tier : FileStatus → Codes → Tier
wiki_tier status path =
    if is_removed status
    then t0
    else if is_principle path
    then t0
    else if in_fontes path
    then (if is_ingest status then t2 else t0)
    else if is_compiled path
    then t1
    else if is_navigation path
    then t3
    else if is_working_note path
    then t2
    else if in_wiki path
    then t1
    else unknown

abbrev kind_tier : RepoKind → FileStatus → Codes → Tier
kind_tier RepoKind.code status path = Tier.code
kind_tier wiki status path = wiki_tier status path

-- `policy is not None and matches_any(path, weights_paths + skills_paths)`
unfoldable pub is_skills_or_weights : Option RepoPolicy → Codes → Bool
is_skills_or_weights none path = false
is_skills_or_weights (some policy) path =
    matches_any path (policy.weights_paths ++ policy.skills_paths)

-- The tier of a path that `normalize_path` has accepted.
unfoldable pub tier_of : RepoKind → FileStatus → Option RepoPolicy → Codes → Tier
tier_of kind status policy path =
    if is_authority_file path
    then t0
    else if is_skills_or_weights policy path
    then skills_weights
    else kind_tier kind status path

unfoldable pub classify_path :
    Codes → RepoKind → FileStatus → Option RepoPolicy → Result MalformedPath Tier
unfolding tier_of
classify_path path kind status policy = do
  plain ← normalize_path path
  ok (tier_of kind status policy plain)
