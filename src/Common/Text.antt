-- ===== src/Common/Text.antt =====
-- Text two ways: a list of code points where the program walks the characters, and the native
-- `String` where it only compares whole texts.
use Prim.Native.Nat.{ℕ}
use Prim.Native.Char.{code}
use Prim.Native.String.{String}
use mathlib.Core.Path.{◌≡◌, refl}
use mathlib.Core.Bool.{Bool, true, false, ◌&&◌, ◌||◌}
use mathlib.Core.List.{List, [], ◌∷◌}
use native.Mathlib.Omega.{arith}
use mathai_ai_swarm_memory.Common.Tests.{◌==◌, leb}
use mathai_ai_swarm_memory.Common.Lists.{all}
pub use text.Mathlib.Text.{◌==◌ as str_eq}
pub use text.Mathlib.TextEquality.{eq_iff}
pub use text.Mathlib.TextPositions.{eq_refl}

abbrev pub Codes : Type 0
Codes = List ℕ

abbrev pub codes : String → Codes
codes String.[] = []
codes (String.◌∷◌ c s) = code c ∷ codes s

abbrev pub codes_eq : Codes → Codes → Bool
codes_eq [] [] = true
codes_eq (x ∷ xs) (y ∷ ys) = x == y && codes_eq xs ys
codes_eq _ _ = false

pub codes_eq→≡ : (s t : Codes) → codes_eq s t ≡ true → s ≡ t
codes_eq→≡ [] [] h = refl
codes_eq→≡ [] (y ∷ t) h = cc
codes_eq→≡ (x ∷ s) [] h = cc
codes_eq→≡ (x ∷ s) (y ∷ t) h = ground (arith, codes_eq→≡ s t)

pub codes_eq_refl : (s : Codes) → codes_eq s s ≡ true
codes_eq_refl [] = refl
codes_eq_refl (x ∷ s) = ground (arith, codes_eq_refl s)

-- `s.startswith(prefix)`
abbrev pub starts_with : Codes → Codes → Bool
starts_with s [] = true
starts_with [] (y ∷ ys) = false
starts_with (x ∷ xs) (y ∷ ys) = x == y && starts_with xs ys

-- `ch.isspace()` over code points.
abbrev pub is_space : ℕ → Bool
is_space c =
    (leb 9 c && leb c 13)
    || (leb 28 c && leb c 32)
    || c == 133
    || c == 160
    || c == 5760
    || (leb 8192 c && leb c 8202)
    || c == 8232
    || c == 8233
    || c == 8239
    || c == 8287
    || c == 12288

-- `not s.strip()`
abbrev pub is_blank : Codes → Bool
is_blank s = all is_space s

-- `not text`
abbrev pub is_unset : String → Bool
is_unset s = str_eq s ""
