-- ===== src/Broker/Principals/Subjects.antt =====
-- Which principal an account names (`get_principal_by_github_subject` of
-- src/auth-broker/app/adapters/sqlite.py).
use mathai_ai_swarm_memory.Common.{
  ◌≡◌, sym, inl, inr, Bool, true, List, [], ◌∷◌, some, All, All-find, is_empty, find, keep, map,
  String, str_eq, eq_iff, ok, guard, arith, Bool-cases, Option-cases, and_true, >>=-eq-ok,
  ok-injective,
}
use mathai_ai_swarm_memory.Broker.Store.{PrincipalRow, Store, is_null, value_error}
use mathai_ai_swarm_memory.Broker.Principals.{
  Texts, Principal, principal_row, canonical_id, is_active_subject, insert_ordered, ordered,
  listed_before, choose_principal, get_principal_by_github_subject,
}

module _ {ℓ κ} {A : Type ℓ} (P : A → Type κ) where
  All-keep : (p : A → Bool) (xs : List A) → ((x : A) → p x ≡ true → P x) → All P (keep p xs)
  All-keep p [] k = tt
  All-keep p (x ∷ xs) k = elim (Bool-cases (p x)) [
    | inl passes ↦ rw passes (k x passes, All-keep p xs k)
    | inr fails ↦ rw fails (All-keep p xs k)
  ]

  All-insert_ordered :
      (r : A → A → Bool) (x : A) (ys : List A) → P x → All P ys → All P (insert_ordered r x ys)
  All-insert_ordered r x [] h hs = (h, tt)
  All-insert_ordered r x (y ∷ ys) h hs = elim (Bool-cases (r y x)) [
    | inl after ↦ rw after (hs.0, All-insert_ordered r x ys h hs.1)
    | inr before ↦ rw before (h, hs)
  ]

  All-ordered : (r : A → A → Bool) (xs : List A) → All P xs → All P (ordered r xs)
  All-ordered r [] h = tt
  All-ordered r (x ∷ xs) h = All-insert_ordered r x (ordered r xs) h.0 (All-ordered r xs h.1)

module _ {ℓ κ μ} {A : Type ℓ} {B : Type μ} (P : B → Type κ) where
  All-of_map : (f : A → B) (xs : List A) → All (λ x. P (f x)) xs → All P (map f xs)
  All-of_map f [] h = tt
  All-of_map f (x ∷ xs) h = (h.0, All-of_map f xs h.1)

-- The account of a principal that is not revoked.
abbrev pub IsOf : String → Principal → Type 0
IsOf github_subject p = (p.github_subject ≡ github_subject) × (is_null p.revoked_at ≡ true)

module _ (texts : Texts) (github_subject : String) where
  row-IsOf :
      (row : PrincipalRow)
      → is_active_subject github_subject row ≡ true
      → IsOf github_subject (principal_row texts row)
  unfolding principal_row
  row-IsOf row h =
      let both = and_true _ _ h in ((eq_iff row.github_subject github_subject).0 both.0, both.1)

  chosen-IsOf :
      (principals : List Principal) (p : Principal)
      → choose_principal texts github_subject principals ≡ some p
      → All (IsOf github_subject) principals
      → IsOf github_subject p
  unfolding choose_principal
  chosen-IsOf [] p h all = cc
  chosen-IsOf (q ∷ rest) p h all =
      elim (Option-cases
        (find (λ (x : Principal). str_eq x.id (canonical_id github_subject)) (q ∷ rest))) [
          | inr (c, found) ↦
              let same : c ≡ p = ground arith in
              rw (sym same) (
                All-find (IsOf github_subject)
                  (λ (x : Principal). str_eq x.id (canonical_id github_subject)) (q ∷ rest) c all
                  found)
          | inl none_found ↦ elim (Bool-cases (is_empty rest)) [
            | inl alone ↦ let same : q ≡ p = ground arith in rw (sym same) all.0
            | inr several ↦ absurd (ground arith)
          ]
        ]

  -- The principal that an account names has that account and is not revoked, whatever logins are
  -- cached.
  pub get_principal_by_github_subject-IsOf :
      (st : Store) (p : Principal)
      → get_principal_by_github_subject texts github_subject st ≡ ok (some p)
      → IsOf github_subject p
  unfolding get_principal_by_github_subject
  get_principal_by_github_subject-IsOf st p h =
      let (u, digits, h1) = >>=-eq-ok (guard (texts.is_digits github_subject) value_error) _ h in
      let rows = keep (is_active_subject github_subject) st.principals in
      chosen-IsOf (map (principal_row texts) (ordered (listed_before texts) rows)) p
        (ok-injective h1)
        (All-of_map (IsOf github_subject) (principal_row texts) (ordered (listed_before texts) rows)
          (All-ordered (λ row. IsOf github_subject (principal_row texts row)) (listed_before texts)
            rows
            (All-keep (λ row. IsOf github_subject (principal_row texts row))
              (is_active_subject github_subject) st.principals row-IsOf)))
