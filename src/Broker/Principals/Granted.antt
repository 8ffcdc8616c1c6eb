-- ===== src/Broker/Principals/Granted.antt =====
-- The rows behind `active_principal` and `active_grant_scopes` of
-- src/auth-broker/app/adapters/sqlite.py.
use mathai_ai_swarm_memory.Common.{
  ◌≡◌, refl, ap, ◌∙◌, sym, inl, inr, Bool, true, ◌&&◌, ◌||◌, List, [], ◌∷◌, Option, none, some, any,
  keep, find, map, String, str_eq, ok, arith, Option-cases, Bool-cases, >>=-eq-ok, ok-injective,
}
use mathai_ai_swarm_memory.Broker.Store.{Datetime, Store, PrincipalRow, GrantRow, is_null, aware}
use mathai_ai_swarm_memory.Broker.Families.{active_principal}
use mathai_ai_swarm_memory.Broker.Grants.{Grant}
use mathai_ai_swarm_memory.Broker.Scopes.{is_member}
use mathai_ai_swarm_memory.Broker.Principals.{
  Texts, insert_ordered, ordered, text_before, is_listed, to_grant, list_grants,
  active_grant_scopes,
}

pub null_none {ℓ} : {A : Type ℓ} (x : Option A) → is_null x ≡ true → x ≡ none
null_none none h = refl
null_none (some x) h = cc

pub active_principal-some :
    (st : Store) (principal_id : String) (p : PrincipalRow)
    → active_principal st principal_id ≡ some p
    → (find (λ (q : PrincipalRow). str_eq q.id principal_id) st.principals ≡ some p)
      × (p.revoked_at ≡ none)
unfolding active_principal
active_principal-some st principal_id p h =
    elim (Option-cases (find (λ (q : PrincipalRow). str_eq q.id principal_id) st.principals)) [
      | inl lost ↦ absurd (ground arith)
      | inr (q, found) ↦ elim (Bool-cases (is_null q.revoked_at)) [
        | inr revoked ↦ absurd (ground arith)
        | inl enabled ↦
            let same : q ≡ p = ground arith in
            (
              found ∙ ap some same,
              null_none p.revoked_at
                  (sym (ap (λ (x : PrincipalRow). is_null x.revoked_at) same) ∙ enabled),
            )
      ]
    ]

module _ {ℓ} {A : Type ℓ} (p : A → Bool) where
  any-insert_ordered :
      (r : A → A → Bool) (x : A) (ys : List A) → any p (insert_ordered r x ys) ≡ (p x || any p ys)
  any-insert_ordered r x [] = refl
  any-insert_ordered r x (y ∷ ys) = ground (arith, any-insert_ordered r x ys)

  any-ordered : (r : A → A → Bool) (xs : List A) → any p (ordered r xs) ≡ any p xs
  any-ordered r [] = refl
  any-ordered r (x ∷ xs) =
      any-insert_ordered r x (ordered r xs) ∙ ap (λ b. p x || b) (any-ordered r xs)

  any-keep : (q : A → Bool) (xs : List A) → any p (keep q xs) ≡ any (λ x. q x && p x) xs
  any-keep q [] = refl
  any-keep q (x ∷ xs) = ground (arith, any-keep q xs)

any-map {ℓ κ} :
    {A : Type ℓ} {B : Type κ} (p : B → Bool) (f : A → B) (xs : List A)
    → any p (map f xs) ≡ any (λ x. p (f x)) xs
any-map p f [] = refl
any-map p f (x ∷ xs) = ap (λ b. p (f x) || b) (any-map p f xs)

module _ (texts : Texts) where
  -- A row that grants the scope to the principal at this time.
  abbrev pub is_granted : String → String → Datetime → GrantRow → Bool
  is_granted principal_id scope now g =
      str_eq g.principal_id principal_id
      && is_null g.revoked_at
      && texts.precedes now g.expires_at
      && str_eq g.scope scope

  same_tests :
      (principal_id scope : String) (now : Datetime) (rows : List GrantRow)
      → any (λ (g : GrantRow). is_listed texts principal_id now g && str_eq g.scope scope) rows
        ≡ any (is_granted principal_id scope now) rows
  same_tests principal_id scope now [] = refl
  same_tests principal_id scope now (g ∷ rows) =
      ground (arith, same_tests principal_id scope now rows)

  pub active_grant_scopes-any :
      (principal_id scope : String) (now : Datetime) (st : Store) (granted : List String)
      → active_grant_scopes texts principal_id now st ≡ ok granted
      → is_member scope granted ≡ true
      → any (is_granted principal_id scope now) st.grants ≡ true
  unfolding active_grant_scopes list_grants
  active_grant_scopes-any principal_id scope now st granted h member =
      let (grants, e, r) = >>=-eq-ok (list_grants texts principal_id now st) _ h in
      let (u, e', r') = >>=-eq-ok (aware now) _ e in
      let rows = keep (is_listed texts principal_id now) st.grants in
      let listed = ordered (λ (a b : GrantRow). text_before a.scope b.scope) rows in
      let is : map (λ (g : Grant). g.scope) (map (to_grant texts) listed) ≡ granted =
        ap (map (λ (g : Grant). g.scope)) (ok-injective r') ∙ ok-injective r in
      let named = λ (g : GrantRow). str_eq g.scope scope in
      sym (
        any-map (λ y. str_eq y scope) (λ (g : Grant). g.scope) (map (to_grant texts) listed)
        ∙ any-map (λ (g : Grant). str_eq g.scope scope) (to_grant texts) listed
        ∙ any-ordered named (λ (a b : GrantRow). text_before a.scope b.scope) rows
        ∙ any-keep named (is_listed texts principal_id now) st.grants
        ∙ same_tests principal_id scope now st.grants)
      ∙ ap (is_member scope) is
      ∙ member
