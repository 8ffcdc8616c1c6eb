-- ===== src/Common/Words.antt =====
-- `" ".join(words)` and `text.split()`.
use mathlib.Core.Path.{◌≡◌, refl, ◌∙◌, ap}
use mathlib.Core.Bool.{Bool, true, false, not, ◌&&◌}
use mathlib.Core.List.{List, [], ◌∷◌, ◌++◌}
use native.Mathlib.Omega.{arith}
use mathai_ai_swarm_memory.Common.Tests.{if◌then◌else◌}
use mathai_ai_swarm_memory.Common.Lists.{All, all, is_empty}
use mathai_ai_swarm_memory.Common.Text.{Codes, is_space}
use Prim.Native.Nat.{ℕ}

abbrev pub join_words : List Codes → Codes
join_words [] = []
join_words (w ∷ ws) = let rest = join_words ws in if is_empty ws then w else w ++ 32 ∷ rest

-- The text goes on with a word.
abbrev pub starts_word : Codes → Bool
starts_word [] = false
starts_word (c ∷ s) = not (is_space c)

abbrev pub extend_first : ℕ → List Codes → List Codes
extend_first c [] = (c ∷ []) ∷ []
extend_first c (w ∷ ws) = (c ∷ w) ∷ ws

abbrev pub words : Codes → List Codes
words [] = []
words (c ∷ s) =
    let rest = words s in
    if is_space c then rest else if starts_word s then extend_first c rest else (c ∷ []) ∷ rest

-- A word of such a text: not empty, and without white space.
abbrev pub is_word : Codes → Bool
is_word w = not (is_empty w) && all (λ c. not (is_space c)) w

words-last : (w : Codes) → is_word w ≡ true → words w ≡ w ∷ []
words-last [] h = cc
words-last (c ∷ []) h = ground arith
words-last (c ∷ d ∷ w) h = ground (arith, words-last (d ∷ w))

words-append : (w rest : Codes) → is_word w ≡ true → words (w ++ 32 ∷ rest) ≡ w ∷ words rest
words-append [] rest h = cc
words-append (c ∷ []) rest h = ground arith
words-append (c ∷ d ∷ w) rest h = ground (arith, words-append (d ∷ w) rest)

-- Words that were joined are split again into the same words.
pub words-join_words :
    (ws : List Codes) → All (λ w. is_word w ≡ true) ws → words (join_words ws) ≡ ws
words-join_words [] h = refl
words-join_words (w ∷ []) h = words-last w h.0
words-join_words (w ∷ v ∷ ws) h =
    words-append w (join_words (v ∷ ws)) h.0 ∙ ap (λ rest. w ∷ rest) (words-join_words (v ∷ ws) h.1)
