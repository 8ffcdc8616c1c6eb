-- ===== src/Dispatch/Merge/Glob.antt =====
-- `_match` and `matches_any` of src/reports/swarm_reports/dispatch/merge_policy.py: a pattern is
-- compiled to a regular expression of five kinds of items, which is matched by backtracking.
pub mod Laws
use mathai_ai_swarm_memory.Common.{
  ℕ, ◌≡◌, Bool, true, false, not, ◌&&◌, ◌||◌, List, [], ◌∷◌, ◌==◌, if◌then◌else◌, any, is_empty,
  Codes,
}

-- The pieces that the loop appends to `regex`: `(?:.*/)?`, `.*`, `[^/]*`, `[^/]` and an escaped
-- character.
pub data Item : Type 0 where
  dirs any_text segment_text segment_char : Item
  lit : ℕ → Item

-- The item of a single character of the pattern.
unfoldable pub single_item : ℕ → Item
single_item ch = if ch == b'*' then segment_text else if ch == b'?' then segment_char else lit ch

-- The loop over the pattern.
unfoldable pub glob_items : Codes → List Item
unfolding single_item
glob_items [] = []
glob_items (a ∷ []) = single_item a ∷ []
glob_items (a ∷ b ∷ []) =
    if a == b'*' && b == b'*' then any_text ∷ [] else single_item a ∷ single_item b ∷ []
glob_items (a ∷ b ∷ c ∷ rest) =
    let after_three = dirs ∷ glob_items rest in
    let after_two = any_text ∷ glob_items (c ∷ rest) in
    let after_one = single_item a ∷ glob_items (b ∷ c ∷ rest) in
    if a == b'*' && b == b'*' then (if c == b'/' then after_three else after_two) else after_one

-- `[...]*` and then what follows, for a class of characters.
unfoldable pub star_then : (ℕ → Bool) → (Codes → Bool) → Codes → Bool
star_then p next [] = next []
star_then p next (x ∷ s) = next (x ∷ s) || (p x && star_then p next s)

abbrev pub not_slash : ℕ → Bool
not_slash x = not (x == b'/')

-- The dot of a regular expression.
abbrev pub not_newline : ℕ → Bool
not_newline x = not (x == 10)

-- `.*/` and then what follows.
unfoldable pub dirs_then : (Codes → Bool) → Codes → Bool
dirs_then next [] = false
dirs_then next (x ∷ s) = (x == b'/' && next s) || (not_newline x && dirs_then next s)

abbrev pub char_then : (ℕ → Bool) → (Codes → Bool) → Codes → Bool
char_then p next [] = false
char_then p next (x ∷ s) = p x && next s

-- The dollar: the end, or before a last line feed.
unfoldable pub at_end : Codes → Bool
at_end [] = true
at_end (x ∷ s) = x == 10 && is_empty s

unfoldable pub re_match : List Item → Codes → Bool
unfolding star_then dirs_then at_end
re_match [] s = at_end s
re_match (dirs ∷ items) s = re_match items s || dirs_then (re_match items) s
re_match (any_text ∷ items) s = star_then not_newline (re_match items) s
re_match (segment_text ∷ items) s = star_then not_slash (re_match items) s
re_match (segment_char ∷ items) s = char_then not_slash (re_match items) s
re_match (lit c ∷ items) s = char_then (λ x. x == c) (re_match items) s

unfoldable pub glob_match : Codes → Codes → Bool
glob_match path pattern_text = re_match (glob_items pattern_text) path

unfoldable pub matches_any : Codes → List Codes → Bool
matches_any path patterns = any (glob_match path) patterns
