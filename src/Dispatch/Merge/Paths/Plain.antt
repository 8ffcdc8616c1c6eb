-- ===== src/Dispatch/Merge/Paths/Plain.antt =====
-- The paths that `normalize_path` of src/reports/swarm_reports/dispatch/merge_policy.py accepts,
-- described without its checks.
use mathlib.Core.List.{reverse, tail, reverse-reverse, append-nil, append_assoc, reverse-append}
use mathai_ai_swarm_memory.Common.{
  ℕ, ◌≡◌, ◌≢◌, refl, sym, ap, ◌∙◌, true, false, List, [], ◌∷◌, ◌++◌, ◌==◌, ltb, any, All, is_empty,
  Codes, codes_eq→≡, is_space, arith, or_false, Bool-cases, inl, inr,
}
use mathai_ai_swarm_memory.Dispatch.Merge.Paths.{
  split, join, norm_loop, norm_step, normpath, rstrip_slash, ends_with_slash, is_first_char,
  is_path_char, is_safe_rest, has_drive_letter, is_special_part, or_dot,
}

-- A component of a path that names neither nothing, nor this directory, nor the one above.
abbrev pub IsPlainPart : Codes → Type 0
IsPlainPart part = (part ≢ []) × (part ≢ b'.' ∷ []) × (part ≢ b'.' ∷ b'.' ∷ [])

abbrev pub StartsPlain : Codes → Type 0
StartsPlain [] = ⊥
StartsPlain (c ∷ cs) = is_first_char c ≡ true

-- A repository-relative path of plain components over the safe characters.
pub record IsPlain (path : Codes) : Type 0 where
  pub starts : StartsPlain path
  pub chars : All (λ c. is_path_char c ≡ true) path
  pub parts : All IsPlainPart (split path)

pub special_part_false : (part : Codes) → is_special_part part ≡ false → IsPlainPart part
unfolding is_special_part
special_part_false [] h = cc
special_part_false (x ∷ []) h = (λ e. cc, λ e. ground arith, λ e. cc)
special_part_false (x ∷ y ∷ []) h = (λ e. cc, λ e. cc, λ e. ground arith)
special_part_false (x ∷ y ∷ z ∷ l) h = (λ e. cc, λ e. cc, λ e. cc)

plain_part_not_special : (part : Codes) → IsPlainPart part → is_special_part part ≡ false
unfolding is_special_part
plain_part_not_special [] h = absurd (h.0 refl)
plain_part_not_special (x ∷ xs) h =
    ground (arith, codes_eq→≡ (x ∷ xs) (b'.' ∷ []), codes_eq→≡ (x ∷ xs) (b'.' ∷ b'.' ∷ []))

pub parts_plain : (parts : List Codes) → any is_special_part parts ≡ false → All IsPlainPart parts
parts_plain [] h = tt
parts_plain (part ∷ parts) h =
    let (first, rest) = or_false (is_special_part part) (any is_special_part parts) h in
    (special_part_false part first, parts_plain parts rest)

pub parts_not_special :
    (parts : List Codes) → All IsPlainPart parts → any is_special_part parts ≡ false
parts_not_special [] h = refl
parts_not_special (part ∷ parts) h =
    rw (plain_part_not_special part h.0) (parts_not_special parts h.1)

-- ------------------------------------------------------------------ split and join

split-cases : (path : Codes) → (p : Codes) × (ps : List Codes) × (split path ≡ p ∷ ps)
unfolding split
split-cases [] = ([], [], refl)
split-cases (x ∷ xs) =
    let (p, ps, e) = split-cases xs in
    elim (Bool-cases (x == b'/')) [
      | inl slash ↦ ([], p ∷ ps, rw (slash, e))
      | inr other ↦ (x ∷ p, ps, rw (other, e))
    ]

join-cons : (x : ℕ) (p : Codes) (ps : List Codes) → join ((x ∷ p) ∷ ps) ≡ x ∷ join (p ∷ ps)
unfolding join
join-cons x p [] = refl
join-cons x p (q ∷ ps) = refl

join-split : (path : Codes) → join (split path) ≡ path
unfolding split join
join-split [] = refl
join-split (x ∷ xs) =
    let (p, ps, e) = split-cases xs in
    let ih : join (p ∷ ps) ≡ xs = rw (← e) (join-split xs) in
    elim (Bool-cases (x == b'/')) [
      | inl slash ↦ rw (slash, e) (ground (arith, ih))
      | inr other ↦ rw (other, e) (join-cons x p ps ∙ ap (◌∷◌ x) ih)
    ]

-- ------------------------------------------------------------------ the last slash

pub rstrip_slash-eq : (path : Codes) → ends_with_slash path ≡ false → rstrip_slash path ≡ path
unfolding rstrip_slash ends_with_slash
rstrip_slash-eq [] h = refl
rstrip_slash-eq (x ∷ []) h = ground arith
rstrip_slash-eq (x ∷ y ∷ xs) h = ground (arith, rstrip_slash-eq (y ∷ xs) h)

ends_with_slash-tail :
    (path : Codes) → ends_with_slash path ≡ true → any is_empty (tail (split path)) ≡ true
unfolding split ends_with_slash
ends_with_slash-tail [] h = cc
ends_with_slash-tail (x ∷ []) h = ground arith
ends_with_slash-tail (x ∷ y ∷ xs) h =
    let (p, ps, e) = split-cases (y ∷ xs) in
    let ih : any is_empty ps ≡ true = rw e at (ends_with_slash-tail (y ∷ xs) h) in
    elim (Bool-cases (x == b'/')) [
      | inl slash ↦ rw (slash, e) (ground arith)
      | inr other ↦ rw (other, e) ih
    ]

special_of_empty :
    (parts : List Codes) → any is_empty parts ≡ true → any is_special_part parts ≡ true
unfolding is_special_part
special_of_empty [] h = cc
special_of_empty (part ∷ parts) h = ground (arith, special_of_empty parts)

pub ends_with_slash-split :
    (path : Codes) → any is_special_part (split path) ≡ false → ends_with_slash path ≡ false
ends_with_slash-split path h = elim (Bool-cases (ends_with_slash path)) [
  | inr open_end ↦ open_end
  | inl slash ↦
      let (p, ps, e) = split-cases path in
      let empty_part = ends_with_slash-tail path slash in
      absurd (ground (arith, special_of_empty ps))
]

-- ------------------------------------------------------------------ normpath

norm_step-plain :
    (kept : List Codes) (part : Codes)
    → is_special_part part ≡ false
    → norm_step kept part ≡ part ∷ kept
unfolding norm_step is_special_part
norm_step-plain [] part h = ground arith
norm_step-plain (last ∷ kept) part h = ground arith

norm_loop-plain :
    (kept parts : List Codes)
    → any is_special_part parts ≡ false
    → norm_loop kept parts ≡ reverse parts ++ kept
unfolding norm_loop
norm_loop-plain kept [] h = refl
norm_loop-plain kept (part ∷ parts) h =
    let (first, rest) = or_false (is_special_part part) (any is_special_part parts) h in
    rw (norm_step-plain kept part first) (
      norm_loop-plain (part ∷ kept) parts rest
      ∙ sym (
          ap (λ l. l ++ kept) (reverse-append (part ∷ []) parts)
          ∙ append_assoc (reverse parts) (part ∷ []) kept))

pub normpath-plain :
    (path : Codes) → path ≢ [] → any is_special_part (split path) ≡ false → normpath path ≡ path
unfolding normpath
normpath-plain [] nonempty h = absurd (nonempty refl)
normpath-plain (x ∷ xs) nonempty h =
    simp (norm_loop-plain [] (split (x ∷ xs)) h, append-nil, reverse-reverse)
      (ap or_dot (join-split (x ∷ xs)))

-- ------------------------------------------------------------------ the characters

pub first_is_path_char : (c : ℕ) → is_first_char c ≡ true → is_path_char c ≡ true
unfolding is_path_char
first_is_path_char c h = ground arith

path_char_range :
    (c : ℕ)
    → is_path_char c ≡ true
    → (ltb c 0x20 ≡ false) × ((c == 92) ≡ false) × ((c == b':') ≡ false)
unfolding is_path_char
path_char_range c h = ground arith

pub safe_rest_chars :
    (s : Codes)
    → any (λ c. ltb c 0x20) s ≡ false
    → is_safe_rest s ≡ true
    → All (λ c. is_path_char c ≡ true) s
unfolding is_safe_rest
safe_rest_chars [] h safe = tt
safe_rest_chars (c ∷ cs) h safe = (ground arith, safe_rest_chars cs (ground arith) (ground arith))

pub chars_safe_rest : (s : Codes) → All (λ c. is_path_char c ≡ true) s → is_safe_rest s ≡ true
unfolding is_safe_rest
chars_safe_rest [] h = refl
chars_safe_rest (c ∷ cs) h = ground (arith, chars_safe_rest cs)

pub no_control : (s : Codes) → All (λ c. is_path_char c ≡ true) s → any (λ c. ltb c 0x20) s ≡ false
no_control [] h = refl
no_control (c ∷ cs) h = ground (arith, path_char_range c, no_control cs)

pub no_backslash : (s : Codes) → All (λ c. is_path_char c ≡ true) s → any (λ c. c == 92) s ≡ false
no_backslash [] h = refl
no_backslash (c ∷ cs) h = ground (arith, path_char_range c, no_backslash cs)

pub no_drive_letter : (s : Codes) → All (λ c. is_path_char c ≡ true) s → has_drive_letter s ≡ false
unfolding has_drive_letter
no_drive_letter (a ∷ b ∷ c ∷ rest) h = ground (arith, path_char_range b)
no_drive_letter (a ∷ b ∷ []) h = refl
no_drive_letter (a ∷ []) h = refl
no_drive_letter [] h = refl

pub first_char_range :
    (c : ℕ) → is_first_char c ≡ true → (is_space c ≡ false) × ((c == b'/') ≡ false)
unfolding is_first_char
first_char_range c h = ground arith
