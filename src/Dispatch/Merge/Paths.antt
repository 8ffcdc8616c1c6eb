-- ===== src/Dispatch/Merge/Paths.antt =====
-- `normalize_path` of src/reports/swarm_reports/dispatch/merge_policy.py, over code points, with
-- the parts of `str` and `posixpath` that it calls.
pub mod Plain
pub mod Accepts
use mathai_ai_swarm_memory.Common.{
  ℕ, ◌≡◌, Bool, true, false, not, ◌&&◌, ◌||◌, List, [], ◌∷◌, ◌++◌, ◌==◌, ltb, leb, if◌then◌else◌,
  any, all, is_empty, Codes, codes_eq, is_blank, starts_with, Result, ok, err, guard, ◌>>=◌, ◌>>◌,
}
use mathlib.Core.List.{reverse}

-- The messages of `MalformedPath`.
pub data MalformedPath : Type 0 where
  empty_path control_character absolute drive_letter backslash : MalformedPath
  unsupported_characters non_canonical escapes : MalformedPath

abbrev cons_head : ℕ → List Codes → List Codes
cons_head x [] = (x ∷ []) ∷ []
cons_head x (part ∷ parts) = (x ∷ part) ∷ parts

-- `path.split("/")`
unfoldable pub split : Codes → List Codes
split [] = [] ∷ []
split (x ∷ xs) = let parts = split xs in if x == b'/' then [] ∷ parts else cons_head x parts

-- `"/".join(parts)`
unfoldable pub join : List Codes → Codes
join [] = []
join (part ∷ []) = part
join (part ∷ next ∷ parts) = part ++ b'/' ∷ join (next ∷ parts)

abbrev pub is_dot : Codes → Bool
is_dot part = codes_eq part (b'.' ∷ [])

abbrev pub is_dot_dot : Codes → Bool
is_dot_dot part = codes_eq part (b'.' ∷ b'.' ∷ [])

-- One round of the loop of `posixpath.normpath` on a relative path; the components kept so far
-- stand in reverse.
unfoldable pub norm_step : List Codes → Codes → List Codes
norm_step [] comp = if is_empty comp || is_dot comp then [] else comp ∷ []
norm_step (last ∷ kept) comp =
    if is_empty comp || is_dot comp
    then last ∷ kept
    else if not (is_dot_dot comp) || is_dot_dot last
    then comp ∷ last ∷ kept
    else kept

unfoldable pub norm_loop : List Codes → List Codes → List Codes
norm_loop kept [] = kept
norm_loop kept (comp ∷ comps) = norm_loop (norm_step kept comp) comps

abbrev pub or_dot : Codes → Codes
or_dot [] = b'.' ∷ []
or_dot (x ∷ xs) = x ∷ xs

-- `posixpath.normpath(path)` for a path that does not begin with a slash.
unfoldable pub normpath : Codes → Codes
unfolding split join norm_loop norm_step
normpath path = or_dot (join (reverse (norm_loop [] (split path))))

-- `path.rstrip("/")`
unfoldable pub rstrip_slash : Codes → Codes
rstrip_slash [] = []
rstrip_slash (x ∷ xs) =
    let rest = rstrip_slash xs in if x == b'/' && is_empty rest then [] else x ∷ rest

-- `path.endswith("/")`
unfoldable pub ends_with_slash : Codes → Bool
ends_with_slash [] = false
ends_with_slash (x ∷ []) = x == b'/'
ends_with_slash (x ∷ y ∷ xs) = ends_with_slash (y ∷ xs)

abbrev is_letter : ℕ → Bool
is_letter c = (leb b'A' c && leb c b'Z') || (leb b'a' c && leb c b'z')

abbrev is_digit : ℕ → Bool
is_digit c = leb b'0' c && leb c b'9'

-- `[A-Za-z0-9._]`
unfoldable pub is_first_char : ℕ → Bool
is_first_char c = is_letter c || is_digit c || c == b'.' || c == b'_'

-- `[A-Za-z0-9._\- /]`
unfoldable pub is_path_char : ℕ → Bool
unfolding is_first_char
is_path_char c = is_first_char c || c == b'-' || c == b' ' || c == b'/'

-- `[A-Za-z0-9._\- /]*$`: the dollar also matches before a last line feed.
unfoldable pub is_safe_rest : Codes → Bool
unfolding is_path_char
is_safe_rest [] = true
is_safe_rest (c ∷ cs) = (c == 10 && is_empty cs) || (is_path_char c && is_safe_rest cs)

-- `_SAFE_PATH_RE.match(path)`
unfoldable pub matches_safe_path : Codes → Bool
unfolding is_first_char is_safe_rest
matches_safe_path [] = false
matches_safe_path (c ∷ cs) = is_first_char c && is_safe_rest cs

-- `re.match(r"^[A-Za-z]:[\\/]", path)`
unfoldable pub has_drive_letter : Codes → Bool
has_drive_letter (a ∷ b ∷ c ∷ rest) = is_letter a && b == b':' && (c == 92 || c == b'/')
has_drive_letter _ = false

-- `part in ("", ".", "..")`
unfoldable pub is_special_part : Codes → Bool
is_special_part part = is_empty part || is_dot part || is_dot_dot part

unfoldable pub normalize_path : Codes → Result MalformedPath Codes
unfolding normpath rstrip_slash ends_with_slash matches_safe_path has_drive_letter is_special_part
    split
normalize_path path = do
  guard (not (is_blank path)) empty_path
  guard (not (any (λ c. ltb c 0x20) path)) control_character
  guard (not (starts_with path (b'/' ∷ []))) absolute
  guard (not (has_drive_letter path)) drive_letter
  guard (not (any (λ c. c == 92) path)) backslash
  guard (matches_safe_path path) unsupported_characters
  guard (codes_eq (normpath path) (rstrip_slash path) && not (ends_with_slash path)) non_canonical
  guard (not (any is_special_part (split path))) escapes
  ok path
