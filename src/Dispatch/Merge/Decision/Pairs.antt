-- ===== src/Dispatch/Merge/Decision/Pairs.antt =====
-- The pairs of paths and states of a pull request (src/reports/swarm_reports/dispatch/merge_policy.py,
-- `_effective_paths` and the tuple of tiers): what the tests of the decision say of each pair.
use mathai_ai_swarm_memory.Common.{
  ◌≡◌, refl, Bool, true, false, List, [], ◌∷◌, Option, none, some, any, find, map, Codes, All,
  All-append, ok, >>=-eq-ok, ok-injective, arith,
}
use mathai_ai_swarm_memory.Dispatch.Merge.Paths.{normalize_path}
use mathai_ai_swarm_memory.Dispatch.Merge.Paths.Accepts.{normalize_path_iff}
use mathai_ai_swarm_memory.Dispatch.Merge.Glob.{matches_any}
use mathai_ai_swarm_memory.Dispatch.Merge.Tiers.{
  FileStatus, removed, Tier, t2, t3, RepoPolicy, tier_of, classify_path,
}
use mathai_ai_swarm_memory.Dispatch.Merge.Decision.{
  ChangedFile, Pairs, effective_paths, previous_pair, collect_pairs, classify_all, first_unknown,
  is_t0, is_t1, is_unknown, is_skills_weights, is_outside, is_protected,
}

-- The tier of a pair under the policy.
abbrev pub pair_tier : RepoPolicy → Codes × FileStatus → Tier
pair_tier policy pair = tier_of policy.kind pair.1 (some policy) pair.0

abbrev pub IsNormal : Codes × FileStatus → Type 0
IsNormal pair = normalize_path pair.0 ≡ ok pair.0

-- What `normalize_path` returns is a fixed point of it.
normalize_path_idem : (path q : Codes) → normalize_path path ≡ ok q → normalize_path q ≡ ok q
normalize_path_idem path q h = rw (← ((normalize_path_iff path q).0 h).0) at h

previous_pair-IsNormal :
    (previous : Option Codes) (pairs : Pairs)
    → previous_pair previous ≡ ok pairs
    → All IsNormal pairs
previous_pair-IsNormal none pairs h = rw (← ok-injective h) tt
previous_pair-IsNormal (some []) pairs h = rw (← ok-injective h) tt
previous_pair-IsNormal (some (c ∷ cs)) pairs h =
    let (old, e, r) = >>=-eq-ok (normalize_path (c ∷ cs)) (λ old. ok ((old, removed) ∷ [])) h in
    rw (← ok-injective r) (normalize_path_idem (c ∷ cs) old e, tt)

effective_paths-IsNormal :
    (file : ChangedFile) (pairs : Pairs) → effective_paths file ≡ ok pairs → All IsNormal pairs
unfolding effective_paths
effective_paths-IsNormal file pairs h =
    let (path, e, r) = >>=-eq-ok (normalize_path file.path) _ h in
    let (rest, e', r') = >>=-eq-ok (previous_pair file.previous_filename) _ r in
    rw (← ok-injective r')
      (normalize_path_idem file.path path e, previous_pair-IsNormal file.previous_filename rest e')

pub collect_pairs-IsNormal :
    (files : List ChangedFile) (pairs : Pairs) → collect_pairs files ≡ ok pairs → All IsNormal pairs
unfolding collect_pairs
collect_pairs-IsNormal [] pairs h = rw (← ok-injective h) tt
collect_pairs-IsNormal (file ∷ files) pairs h =
    let (first, e, r) = >>=-eq-ok (effective_paths file) _ h in
    let (rest, e', r') = >>=-eq-ok (collect_pairs files) _ r in
    rw (← ok-injective r') (
      All-append IsNormal first rest (effective_paths-IsNormal file first e)
        (collect_pairs-IsNormal files rest e'))

pub classify_all-IsNormal :
    (policy : RepoPolicy) (pairs : Pairs)
    → All IsNormal pairs
    → classify_all policy pairs ≡ ok (map (pair_tier policy) pairs)
unfolding classify_all classify_path
classify_all-IsNormal policy [] h = refl
classify_all-IsNormal policy (pair ∷ pairs) h = rw h.0 (rw (classify_all-IsNormal policy pairs h.1))

-- The tiers that may be merged without the owner.
abbrev pub is_mergeable : Tier → Bool
is_mergeable t2 = true
is_mergeable t3 = true
is_mergeable Tier.code = true
is_mergeable _ = false

-- What the path tests of the decision ask of one pair.
pub record IsCleared (policy : RepoPolicy) (pair : Codes × FileStatus) : Type 0 where
  pub normal : IsNormal pair
  pub mergeable : is_mergeable (pair_tier policy pair) ≡ true
  pub allowed : matches_any pair.0 policy.allowed_paths ≡ true
  pub unprotected : matches_any pair.0 policy.protected_paths ≡ false

-- The tests over all the pairs.
pub record PassesTests (policy : RepoPolicy) (pairs : Pairs) : Type 0 where
  pub no_t0 : any is_t0 (map (pair_tier policy) pairs) ≡ false
  pub no_unknown : first_unknown pairs (map (pair_tier policy) pairs) ≡ none
  pub inside : find (is_outside policy) pairs ≡ none
  pub unprotected : find (is_protected policy) pairs ≡ none
  pub no_skills : any is_skills_weights (map (pair_tier policy) pairs) ≡ false
  pub no_t1 : any is_t1 (map (pair_tier policy) pairs) ≡ false

mergeable_of_tests :
    (tier : Tier)
    → is_t0 tier ≡ false
    → is_unknown tier ≡ false
    → is_skills_weights tier ≡ false
    → is_t1 tier ≡ false
    → is_mergeable tier ≡ true
mergeable_of_tests t2 a b c d = refl
mergeable_of_tests t a b c d = ground arith

tests_of_mergeable :
    (tier : Tier)
    → is_mergeable tier ≡ true
    → (is_t0 tier ≡ false)
      × (is_unknown tier ≡ false)
      × (is_skills_weights tier ≡ false)
      × (is_t1 tier ≡ false)
tests_of_mergeable t2 h = (refl, refl, refl, refl)
tests_of_mergeable t h = ground arith

pub PassesTests-IsCleared :
    (policy : RepoPolicy) (pairs : Pairs)
    → All IsNormal pairs
    → PassesTests policy pairs
    → All (IsCleared policy) pairs
unfolding first_unknown
PassesTests-IsCleared policy [] n t = tt
PassesTests-IsCleared policy (pair ∷ pairs) n t = (
  record {
    normal = n.0;
    mergeable =
        mergeable_of_tests (pair_tier policy pair) (ground arith) (ground arith) (ground arith)
          (ground arith);
    allowed = ground arith;
    unprotected = ground arith;
  },
  PassesTests-IsCleared policy pairs n.1 (record {
    no_t0 = ground arith;
    no_unknown = ground arith;
    inside = ground arith;
    unprotected = ground arith;
    no_skills = ground arith;
    no_t1 = ground arith;
  }),
)

pub IsCleared-PassesTests :
    (policy : RepoPolicy) (pairs : Pairs) → All (IsCleared policy) pairs → PassesTests policy pairs
unfolding first_unknown
IsCleared-PassesTests policy [] c = record {
  no_t0 = refl;
  no_unknown = refl;
  inside = refl;
  unprotected = refl;
  no_skills = refl;
  no_t1 = refl;
}
IsCleared-PassesTests policy (pair ∷ pairs) c =
    let rest = IsCleared-PassesTests policy pairs c.1 in
    let (a, b, d, e) = tests_of_mergeable (pair_tier policy pair) c.0.mergeable in
    record {
      no_t0 = rw a rest.no_t0;
      no_unknown = rw b rest.no_unknown;
      inside = rw c.0.allowed rest.inside;
      unprotected = rw c.0.unprotected rest.unprotected;
      no_skills = rw d rest.no_skills;
      no_t1 = rw e rest.no_t1;
    }
