-- ===== src/Dispatch/Merge/Glob/Laws.antt =====
-- What the allowlist globs of src/reports/swarm_reports/dispatch/merge_policy.py accept.
use mathai_ai_swarm_memory.Common.{
  ℕ, ◌+◌, ◌≡◌, refl, ap, Bool, true, false, not, ◌&&◌, ◌||◌, List, [], ◌∷◌, ◌++◌, ◌==◌,
  if◌then◌else◌, all, Codes, codes_eq, starts_with, arith,
}
use mathai_ai_swarm_memory.Dispatch.Merge.Glob.{
  Item, dirs, any_text, segment_text, segment_char, lit, single_item, glob_items, star_then,
  not_slash, not_newline, char_then, re_match, glob_match,
}

-- ------------------------------------------------------------------ slashes

abbrev pub slashes : Codes → ℕ
slashes [] = 0
slashes (x ∷ s) = let n = slashes s in if x == b'/' then n + 1 else n

abbrev pub has_double_star : Codes → Bool
has_double_star [] = false
has_double_star (x ∷ []) = false
has_double_star (x ∷ y ∷ s) = (x == b'*' && y == b'*') || has_double_star (y ∷ s)

-- Items that stay in one segment, and the slashes that they spell out.
abbrev is_local : Item → Bool
is_local dirs = false
is_local any_text = false
is_local _ = true

abbrev item_slashes : List Item → ℕ
item_slashes [] = 0
item_slashes (lit c ∷ items) = let n = item_slashes items in if c == b'/' then n + 1 else n
item_slashes (_ ∷ items) = item_slashes items

single_item-slashes :
    (x : ℕ) (items : List Item)
    → (item_slashes (single_item x ∷ items)
        ≡ (if x == b'/' then item_slashes items + 1 else item_slashes items))
unfolding single_item
single_item-slashes x items = ground arith

single_item-is_local : (x : ℕ) → is_local (single_item x) ≡ true
unfolding single_item
single_item-is_local x = ground arith

glob_items-slashes :
    (p : Codes) → has_double_star p ≡ false → item_slashes (glob_items p) ≡ slashes p
unfolding glob_items single_item
glob_items-slashes [] h = refl
glob_items-slashes (a ∷ []) h = ground arith
glob_items-slashes (a ∷ b ∷ []) h = ground arith
glob_items-slashes (a ∷ b ∷ c ∷ rest) h = ground (arith, glob_items-slashes (b ∷ c ∷ rest))

glob_items-is_local : (p : Codes) → has_double_star p ≡ false → all is_local (glob_items p) ≡ true
unfolding glob_items single_item
glob_items-is_local [] h = refl
glob_items-is_local (a ∷ []) h = ground arith
glob_items-is_local (a ∷ b ∷ []) h = ground arith
glob_items-is_local (a ∷ b ∷ c ∷ rest) h = ground (arith, glob_items-is_local (b ∷ c ∷ rest))

star_then-slashes :
    (next : Codes → Bool) (n : ℕ) (s : Codes)
    → ((t : Codes) → next t ≡ true → slashes t ≡ n)
    → star_then not_slash next s ≡ true
    → slashes s ≡ n
unfolding star_then
star_then-slashes next n [] k h = k [] h
star_then-slashes next n (x ∷ s) k h = ground (arith, k (x ∷ s), star_then-slashes next n s k)

re_match-slashes :
    (items : List Item) (s : Codes)
    → all is_local items ≡ true
    → re_match items s ≡ true
    → slashes s ≡ item_slashes items
unfolding re_match
re_match-slashes [] [] l h = refl
re_match-slashes [] (x ∷ []) l h = ground arith
re_match-slashes [] (x ∷ y ∷ s) l h = ground arith
re_match-slashes (dirs ∷ items) s l h = cc
re_match-slashes (any_text ∷ items) s l h = cc
re_match-slashes (segment_text ∷ items) s l h =
    star_then-slashes (re_match items) (item_slashes items) s (λ t e. re_match-slashes items t l e)
      h
re_match-slashes (segment_char ∷ items) [] l h = cc
re_match-slashes (segment_char ∷ items) (x ∷ s) l h = ground (arith, re_match-slashes items s)
re_match-slashes (lit c ∷ items) [] l h = cc
re_match-slashes (lit c ∷ items) (x ∷ s) l h = ground (arith, re_match-slashes items s)

-- A pattern with no `**` matches only paths that have as many slashes as the pattern: a single
-- star never crosses a directory.
pub glob_match-slashes :
    (path p : Codes)
    → has_double_star p ≡ false
    → glob_match path p ≡ true
    → slashes path ≡ slashes p
unfolding glob_match
glob_match-slashes path p h m =
    rw (re_match-slashes (glob_items p) path (glob_items-is_local p h) m) (glob_items-slashes p h)

-- ------------------------------------------------------------------ literal prefixes

abbrev pub is_literal : ℕ → Bool
is_literal c = not (c == b'*') && not (c == b'?')

glob_items-literal :
    (x : ℕ) (p : Codes) → is_literal x ≡ true → glob_items (x ∷ p) ≡ lit x ∷ glob_items p
unfolding glob_items single_item
glob_items-literal x [] h = ground arith
glob_items-literal x (y ∷ []) h = ground arith
glob_items-literal x (y ∷ z ∷ p) h = ground arith

star_then-any :
    (s : Codes) → all not_newline s ≡ true → star_then not_newline (re_match []) s ≡ true
unfolding star_then re_match
star_then-any [] h = refl
star_then-any (x ∷ s) h = ground (arith, star_then-any s)

-- A literal first character is matched by itself.
glob_match-cons :
    (path : Codes) (c : ℕ) (p : Codes)
    → is_literal c ≡ true
    → glob_match path (c ∷ p) ≡ char_then (λ x. x == c) (λ s. glob_match s p) path
unfolding glob_match re_match
glob_match-cons path c p h = rw (glob_items-literal c p h)

all-not_newline_tail :
    (x : ℕ) (s : Codes) → all not_newline (x ∷ s) ≡ true → all not_newline s ≡ true
all-not_newline_tail x s h = ground arith

-- A pattern that is a literal prefix and `**` matches exactly the paths that begin with the prefix
-- (paths without line feeds, which `normalize_path` has refused).
pub glob_match-prefix :
    (path prefix : Codes)
    → all is_literal prefix ≡ true
    → all not_newline path ≡ true
    → glob_match path (prefix ++ b'*' ∷ b'*' ∷ []) ≡ starts_with path prefix
glob_match-prefix path [] l h = unfold glob_match glob_items re_match in star_then-any path h
glob_match-prefix [] (c ∷ prefix) l h = glob_match-cons [] c _ (ground arith)
glob_match-prefix (x ∷ path) (c ∷ prefix) l h =
    rw (glob_match-cons (x ∷ path) c (prefix ++ b'*' ∷ b'*' ∷ []) (ground arith)) (
      ap (λ b. x == c && b)
        (glob_match-prefix path prefix (ground arith) (all-not_newline_tail x path h)))

-- A pattern with no wildcard matches exactly itself (among paths without line feeds).
pub glob_match-literal :
    (path p : Codes)
    → all is_literal p ≡ true
    → all not_newline path ≡ true
    → glob_match path p ≡ codes_eq path p
glob_match-literal [] [] l h = unfold glob_match glob_items re_match in refl
glob_match-literal (x ∷ path) [] l h = unfold glob_match glob_items re_match in ground arith
glob_match-literal [] (c ∷ p) l h = glob_match-cons [] c _ (ground arith)
glob_match-literal (x ∷ path) (c ∷ p) l h = rw (glob_match-cons (x ∷ path) c p (ground arith)) (
    ap (λ b. x == c && b)
      (glob_match-literal path p (ground arith) (all-not_newline_tail x path h)))
