-- ===== src/Dispatch/Merge/Decision/Files.antt =====
-- The changed files of a pull request (src/reports/swarm_reports/dispatch/merge_policy.py): what a
-- merge asks of each of them, said without `_effective_paths`.
use mathai_ai_swarm_memory.Common.{
  ℕ, ◌≡◌, refl, sym, ap, ◌∙◌, List, [], ◌∷◌, ◌++◌, Option, none, some, Codes, All, All-append, ok,
  >>=-eq-ok, ok-injective,
}
use mathai_ai_swarm_memory.Dispatch.Merge.Paths.{normalize_path}
use mathai_ai_swarm_memory.Dispatch.Merge.Paths.Accepts.{normalize_path_iff}
use mathai_ai_swarm_memory.Dispatch.Merge.Tiers.{removed, RepoPolicy}
use mathai_ai_swarm_memory.Dispatch.Merge.Decision.{
  ChangedFile, Pairs, effective_paths, previous_pair, collect_pairs,
}
use mathai_ai_swarm_memory.Dispatch.Merge.Decision.Pairs.{IsCleared}

-- The path of a file is cleared in its state, and the path it was renamed from, when it names one,
-- is cleared as a removed one.
pub record FileCleared (policy : RepoPolicy) (file : ChangedFile) : Type 0 where
  pub own : IsCleared policy (file.path, file.status)
  pub old :
      (c : ℕ) (cs : Codes)
      → file.previous_filename ≡ some (c ∷ cs)
      → IsCleared policy (c ∷ cs, removed)

All-split {ℓ ℓ'} :
    {A : Type ℓ} (P : A → Type ℓ') (xs ys : List A) → All P (xs ++ ys) → All P xs × All P ys
All-split P [] ys h = (tt, h)
All-split P (x ∷ xs) ys h = let (l, r) = All-split P xs ys h.1 in ((h.0, l), r)

same_path : (path q : Codes) → normalize_path path ≡ ok q → path ≡ q
same_path path q h = sym ((normalize_path_iff path q).0 h).0

module _ (policy : RepoPolicy) where
  previous_old :
      (previous : Option Codes) (pairs : Pairs)
      → previous_pair previous ≡ ok pairs
      → All (IsCleared policy) pairs
      → (c : ℕ) (cs : Codes) → previous ≡ some (c ∷ cs)
      → IsCleared policy (c ∷ cs, removed)
  previous_old previous pairs h all c cs named =
      let (old, e, r) =
        >>=-eq-ok (normalize_path (c ∷ cs)) (λ old. ok ((old, removed) ∷ []))
          (sym (ap previous_pair named) ∙ h) in
      let cleared : All (IsCleared policy) ((old, removed) ∷ []) = rw (← ok-injective r) at all in
      rw (same_path (c ∷ cs) old e) cleared.0

  effective_paths-FileCleared :
      (file : ChangedFile) (pairs : Pairs)
      → effective_paths file ≡ ok pairs
      → All (IsCleared policy) pairs
      → FileCleared policy file
  unfolding effective_paths
  effective_paths-FileCleared file pairs h all =
      let (path, e, r) = >>=-eq-ok (normalize_path file.path) _ h in
      let (rest, e', r') = >>=-eq-ok (previous_pair file.previous_filename) _ r in
      let cleared : All (IsCleared policy) ((path, file.status) ∷ rest) =
        rw (← ok-injective r') at all in
      record {
        own = rw (same_path file.path path e) cleared.0;
        old = previous_old file.previous_filename rest e' cleared.1;
      }

  pub collect_pairs-FileCleared :
      (files : List ChangedFile) (pairs : Pairs)
      → collect_pairs files ≡ ok pairs
      → All (IsCleared policy) pairs
      → All (FileCleared policy) files
  unfolding collect_pairs
  collect_pairs-FileCleared [] pairs h all = tt
  collect_pairs-FileCleared (file ∷ files) pairs h all =
      let (first, e, r) = >>=-eq-ok (effective_paths file) _ h in
      let (rest, e', r') = >>=-eq-ok (collect_pairs files) _ r in
      let both : All (IsCleared policy) (first ++ rest) = rw (← ok-injective r') at all in
      let (l, m) = All-split (IsCleared policy) first rest both in
      (effective_paths-FileCleared file first e l, collect_pairs-FileCleared files rest e' m)

  IsCleared-previous :
      (previous : Option Codes)
      → ((c : ℕ) (cs : Codes) → previous ≡ some (c ∷ cs) → IsCleared policy (c ∷ cs, removed))
      → (pairs : Pairs) × (previous_pair previous ≡ ok pairs) × All (IsCleared policy) pairs
  IsCleared-previous none h = ([], refl, tt)
  IsCleared-previous (some []) h = ([], refl, tt)
  IsCleared-previous (some (c ∷ cs)) h =
      let old = h c cs refl in ((c ∷ cs, removed) ∷ [], rw old.normal refl, (old, tt))

  IsCleared-paths :
      (file : ChangedFile)
      → FileCleared policy file
      → (pairs : Pairs) × (effective_paths file ≡ ok pairs) × All (IsCleared policy) pairs
  unfolding effective_paths
  IsCleared-paths file h =
      let (rest, e, all) = IsCleared-previous file.previous_filename h.old in
      ((file.path, file.status) ∷ rest, rw h.own.normal (rw e refl), (h.own, all))

  pub IsCleared-pairs :
      (files : List ChangedFile)
      → All (FileCleared policy) files
      → (pairs : Pairs) × (collect_pairs files ≡ ok pairs) × All (IsCleared policy) pairs
  unfolding collect_pairs
  IsCleared-pairs [] h = ([], refl, tt)
  IsCleared-pairs (file ∷ files) h =
      let (first, e, l) = IsCleared-paths file h.0 in
      let (rest, e', r) = IsCleared-pairs files h.1 in
      (first ++ rest, rw e (rw e' refl), All-append (IsCleared policy) first rest l r)
