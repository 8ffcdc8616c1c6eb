-- ===== src/Dispatch/Merge/Paths/Accepts.antt =====
-- `normalize_path` of src/reports/swarm_reports/dispatch/merge_policy.py accepts the plain paths,
-- returns them as they are, and accepts no other.
use mathai_ai_swarm_memory.Common.{
  ◌≡◌, ◌↔◌, true, false, [], ◌∷◌, ltb, any, Codes, codes_eq_refl, ok, arith,
}
use mathai_ai_swarm_memory.Dispatch.Merge.Paths.{
  normalize_path, split, matches_safe_path, is_special_part,
}
use mathai_ai_swarm_memory.Dispatch.Merge.Paths.Plain.{
  IsPlain, parts_plain, parts_not_special, rstrip_slash-eq, ends_with_slash-split, normpath-plain,
  safe_rest_chars, chars_safe_rest, no_control, no_backslash, no_drive_letter, first_char_range,
  first_is_path_char,
}

-- What the eight guards say of an accepted path.
record Guards (path : Codes) : Type 0 where
  visible : any (λ c. ltb c 0x20) path ≡ false
  safe : matches_safe_path path ≡ true
  parts : any is_special_part (split path) ≡ false

Guards-of_ok : (path : Codes) {q : Codes} → normalize_path path ≡ ok q → Guards path × (q ≡ path)
unfolding normalize_path
Guards-of_ok path h =
    (record { visible = ground arith; safe = ground arith; parts = ground arith }, ground arith)

IsPlain-of_Guards : (path : Codes) → Guards path → IsPlain path
unfolding matches_safe_path
IsPlain-of_Guards [] g = absurd (ground arith)
IsPlain-of_Guards (c ∷ cs) g = record {
  starts = ground arith;
  chars = (first_is_path_char c (ground arith), safe_rest_chars cs (ground arith) (ground arith));
  parts = parts_plain (split (c ∷ cs)) g.parts;
}

ok_of_plain : (path : Codes) → IsPlain path → normalize_path path ≡ ok path
unfolding normalize_path matches_safe_path
ok_of_plain [] p = absurd p.starts
ok_of_plain (c ∷ cs) p =
    let plain = parts_not_special (split (c ∷ cs)) p.parts in
    let canonical = normpath-plain (c ∷ cs) (λ e. cc) plain in
    let closed = ends_with_slash-split (c ∷ cs) plain in
    let stripped = rstrip_slash-eq (c ∷ cs) closed in
    ground (
      arith,
      plain,
      canonical,
      closed,
      stripped,
      codes_eq_refl (c ∷ cs),
      no_control (c ∷ cs) p.chars,
      no_backslash (c ∷ cs) p.chars,
      no_drive_letter (c ∷ cs) p.chars,
      first_char_range c,
      chars_safe_rest cs,
    )

-- `normalize_path` returns a path exactly when it is the argument itself and the argument is plain:
-- it begins with a letter, a digit, a dot or an underscore, has only the safe characters, and no
-- component of it is empty, `.` or `..`.
pub normalize_path_iff :
    (path q : Codes) → (normalize_path path ≡ ok q) ↔ ((q ≡ path) × IsPlain path)
normalize_path_iff path q = (
  λ h. let (g, e) = Guards-of_ok path h in (e, IsPlain-of_Guards path g),
  λ (e, p). rw e (ok_of_plain path p),
)
