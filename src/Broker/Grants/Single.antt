-- ===== src/Broker/Grants/Single.antt =====
-- Live grants of one scope (src/auth-broker/app/adapters/sqlite.py).
use mathai_ai_swarm_memory.Common.{
  ℕ, not, leb, length, is_empty, codes, find, guard, >>=-eq-ok, ok-injective, ◌≤◌, ◌≡◌, refl, ap,
  ◌∙◌, sym, ◌+◌, and_true, inl, inr, ◌&&◌, List, [], ◌∷◌, some, ◌++◌, ◌==◌, count_where,
  count-append, update_where, String, str_eq, eq_iff, ok, arith, Bool-cases, Option-cases,
}
use mathai_ai_swarm_memory.Broker.Store.{
  Datetime, GrantRow, Store, aware, value_error, scope_error, committed_keeps,
}
use mathai_ai_swarm_memory.Broker.Scopes.{validate_role, validate_grant_ttl}
use mathai_ai_swarm_memory.Broker.Principals.{
  Texts, has_id, canonical_id, cached_login, checked_scopes, insert_principal_locked, insert_grants,
  upsert_principal, allow_tx, allow_github_principal,
}
use mathai_ai_swarm_memory.Broker.Families.{active_principal}
use mathai_ai_swarm_memory.Broker.Grants.{
  Grant, is_live_grant, revoke_grant_row, revoked_grants, new_grant, insert_grant_locked,
  set_grant_tx, set_grant, revoke_grant_tx, revoke_grant,
}

-- A call that sets, revokes or allows grants.
pub data GrantCall : Type 0 where
  setting : String → String → String → Datetime → Datetime → GrantCall
  revoking : String → String → Datetime → GrantCall
  allowing : (ℕ → String) → String → String → String → List String → Datetime → Datetime → GrantCall

abbrev pub run_call : Texts → GrantCall → Store → Store
run_call texts (setting id principal_id scope now expires_at) st =
    (set_grant id principal_id scope now expires_at st).1
run_call texts (revoking principal_id scope now) st = (revoke_grant principal_id scope now st).1
run_call texts (allowing ids github_subject github_login role scopes now expires_at) st =
    (allow_github_principal texts ids github_subject github_login role scopes now expires_at st).1

abbrev pub run_calls : Texts → List GrantCall → Store → Store
run_calls texts [] st = st
run_calls texts (call ∷ calls) st = run_calls texts calls (run_call texts call st)

-- The number of live grants of a scope to a principal.
abbrev pub live_grants : String → String → Store → ℕ
live_grants principal_id scope st = count_where (is_live_grant principal_id scope) st.grants

revoked-none :
    (principal_id scope : String) (now : Datetime) (rows : List GrantRow)
    → count_where
        (is_live_grant principal_id scope)
        (update_where (is_live_grant principal_id scope) (revoke_grant_row now) rows)
      ≡ 0
revoked-none principal_id scope now [] = refl
revoked-none principal_id scope now (g ∷ rows) =
    ground (arith, revoked-none principal_id scope now rows)

revoked-fewer :
    (p s principal_id scope : String) (now : Datetime) (rows : List GrantRow)
    → count_where
        (is_live_grant p s)
        (update_where (is_live_grant principal_id scope) (revoke_grant_row now) rows)
      ≤ count_where (is_live_grant p s) rows
revoked-fewer p s principal_id scope now [] = omega arith
revoked-fewer p s principal_id scope now (g ∷ rows) =
    ground (arith, revoked-fewer p s principal_id scope now rows)

insert_grant_locked-stores :
    (id principal_id scope : String) (now expires_at : Datetime) (st st' : Store) (a : Grant)
    → insert_grant_locked id principal_id scope now expires_at st ≡ ok (a, st')
    → st'.grants
      ≡ revoked_grants principal_id scope now st
        ++ new_grant id principal_id scope now expires_at ∷ []
unfolding insert_grant_locked
insert_grant_locked-stores id principal_id scope now expires_at st st' a h = ground arith

insert_grant_locked-live_grants :
    (p s id principal_id scope : String) (now expires_at : Datetime) (st st' : Store) (a : Grant)
    → insert_grant_locked id principal_id scope now expires_at st ≡ ok (a, st')
    → live_grants p s st ≤ 1
    → live_grants p s st' ≤ 1
insert_grant_locked-live_grants p s id principal_id scope now expires_at st st' a h few =
    let row = new_grant id principal_id scope now expires_at in
    let kept = revoked_grants principal_id scope now st in
    let total : live_grants p s st'
        ≡ count_where (is_live_grant p s) kept + count_where (is_live_grant p s) (row ∷ []) =
      ap (count_where (is_live_grant p s))
        (insert_grant_locked-stores id principal_id scope now expires_at st st' a h)
      ∙ count-append (is_live_grant p s) kept (row ∷ []) in
    elim (Bool-cases (str_eq principal_id p && str_eq scope s)) [
      | inl same ↦
          let owner : principal_id ≡ p = (eq_iff principal_id p).0 ((and_true _ _ same).0) in
          let named : scope ≡ s = (eq_iff scope s).0 ((and_true _ _ same).1) in
          let none_left : count_where (is_live_grant p s) kept ≡ 0 =
            rw (sym owner) (rw (sym named) (revoked-none principal_id scope now st.grants)) in
          ground (arith, total, none_left)
      | inr differs ↦ ground (arith, total, few, revoked-fewer p s principal_id scope now st.grants)
    ]

set_grant_tx-live_grants :
    (p s id principal_id scope : String) (now expires_at : Datetime) (st st' : Store) (a : Grant)
    → set_grant_tx id principal_id scope now expires_at st ≡ ok (a, st')
    → live_grants p s st ≤ 1
    → live_grants p s st' ≤ 1
unfolding set_grant_tx
set_grant_tx-live_grants p s id principal_id scope now expires_at st st' a h few =
    elim (Option-cases (active_principal st principal_id)) [
      | inl lost ↦ absurd (ground arith)
      | inr (owner, found) ↦
          insert_grant_locked-live_grants p s id principal_id scope now expires_at st st' a
            (ground arith) few
    ]

revoke_grant_tx-live_grants :
    (p s principal_id scope : String) (now : Datetime) (st st' : Store) (a : Unit {0})
    → revoke_grant_tx principal_id scope now st ≡ ok (a, st')
    → live_grants p s st' ≤ live_grants p s st
unfolding revoke_grant_tx
revoke_grant_tx-live_grants p s principal_id scope now st st' a h =
    elim (Bool-cases (count_where (is_live_grant principal_id scope) st.grants == 0)) [
      | inl nothing ↦ let same : st'.grants ≡ st.grants = ground arith in rw same (omega arith)
      | inr busy ↦
          let written : st'.grants ≡ revoked_grants principal_id scope now st = ground arith in
          rw written (revoked-fewer p s principal_id scope now st.grants)
    ]

insert_grants-live_grants :
    (p s : String) (texts : Texts) (ids : ℕ → String) (k : ℕ) (principal_id : String)
    (scopes : List String) (now expires_at : Datetime) (st st' : Store)
    → insert_grants texts ids k principal_id scopes now expires_at st ≡ ok st'
    → live_grants p s st ≤ 1
    → live_grants p s st' ≤ 1
unfolding insert_grants
insert_grants-live_grants p s texts ids k principal_id [] now expires_at st st' h few =
    rw (sym (ok-injective h)) few
insert_grants-live_grants p s texts ids k principal_id (scope ∷ scopes) now expires_at st st' h
      few =
    let ((a, st1), e, r) =
      >>=-eq-ok (insert_grant_locked (ids k) principal_id scope now expires_at st) _ h in
    insert_grants-live_grants p s texts ids (k + 1) principal_id scopes now expires_at st1 st' r
      (insert_grant_locked-live_grants p s (ids k) principal_id scope now expires_at st st1 a e few)

upsert_principal-grants :
    (texts : Texts) (principal_id github_subject login role : String) (now : Datetime)
    (st st' : Store)
    → upsert_principal texts principal_id github_subject login role now st ≡ ok st'
    → st'.grants ≡ st.grants
unfolding upsert_principal insert_principal_locked
upsert_principal-grants texts principal_id github_subject login role now st st' h =
    elim (Option-cases (find (has_id principal_id) st.principals)) [
      | inl lost ↦ ground arith
      | inr (row, found) ↦ ground arith
    ]

allow_tx-live_grants :
    (p s : String) (texts : Texts) (ids : ℕ → String) (github_subject github_login role : String)
    (scopes : List String) (now expires_at : Datetime) (st st' : Store) (a : Unit {0})
    → allow_tx texts ids github_subject github_login role scopes now expires_at st ≡ ok (a, st')
    → live_grants p s st ≤ 1
    → live_grants p s st' ≤ 1
unfolding allow_tx
allow_tx-live_grants p s texts ids github_subject github_login role scopes now expires_at st st' a h
      few =
    let (u1, e1, h1) = >>=-eq-ok (aware now) _ h in
    let (u2, e2, h2) = >>=-eq-ok (aware expires_at) _ h1 in
    let (u3, e3, h3) = >>=-eq-ok (validate_role role) _ h2 in
    let (u4, e4, h4) = >>=-eq-ok (guard (texts.is_digits github_subject) value_error) _ h3 in
    let (login, e5, h5) = >>=-eq-ok (cached_login (some github_login)) _ h4 in
    let (u6, e6, h6) = >>=-eq-ok (guard (not (is_empty scopes)) scope_error) _ h5 in
    let (checked, e7, h7) = >>=-eq-ok (checked_scopes texts role [] scopes) _ h6 in
    let (u8, e8, h8) = >>=-eq-ok (validate_grant_ttl now expires_at) _ h7 in
    let principal_id = canonical_id github_subject in
    let (u9, e9, h9) = >>=-eq-ok (guard (leb (length (codes principal_id)) 64) value_error) _ h8 in
    let (st1, e10, h10) =
      >>=-eq-ok (upsert_principal texts principal_id github_subject github_login role now st) _
        h9 in
    let (st2, e11, h11) =
      >>=-eq-ok (insert_grants texts ids 0 principal_id checked now expires_at st1) _ h10 in
    let same : st2 ≡ st' = ap (λ (x : Unit × Store). x.1) (ok-injective h11) in
    let before : live_grants p s st1 ≤ 1 =
      rw
        (upsert_principal-grants texts principal_id github_subject github_login role now st st1 e10)
        few in
    rw (sym same) (
      insert_grants-live_grants p s texts ids 0 principal_id checked now expires_at st1 st2 e11
        before)

run_call-live_grants :
    (p s : String) (texts : Texts) (call : GrantCall) (st : Store)
    → live_grants p s st ≤ 1
    → live_grants p s (run_call texts call st) ≤ 1
unfolding set_grant revoke_grant allow_github_principal
run_call-live_grants p s texts (setting id principal_id scope now expires_at) st h =
    committed_keeps (λ x. live_grants p s x ≤ 1) st
      (set_grant_tx id principal_id scope now expires_at st) h
      (λ a st' e. set_grant_tx-live_grants p s id principal_id scope now expires_at st st' a e h)
run_call-live_grants p s texts (revoking principal_id scope now) st h =
    committed_keeps (λ x. live_grants p s x ≤ 1) st (revoke_grant_tx principal_id scope now st) h
      (λ a st' e.
        let fewer = revoke_grant_tx-live_grants p s principal_id scope now st st' a e in
        omega arith)
run_call-live_grants p s texts (allowing ids github_subject github_login role scopes now expires_at)
      st h =
    committed_keeps (λ x. live_grants p s x ≤ 1) st
      (allow_tx texts ids github_subject github_login role scopes now expires_at st) h
      (λ a st' e.
        allow_tx-live_grants p s texts ids github_subject github_login role scopes now expires_at st
          st' a e h)

-- A principal has at most one live grant of a scope after any calls that set or revoke a grant or
-- allow a principal with scopes, when it has at most one before them.
pub one_live_grant :
    (p s : String) (texts : Texts) (calls : List GrantCall) (st : Store)
    → live_grants p s st ≤ 1
    → live_grants p s (run_calls texts calls st) ≤ 1
one_live_grant p s texts [] st h = h
one_live_grant p s texts (call ∷ calls) st h =
    one_live_grant p s texts calls (run_call texts call st)
      (run_call-live_grants p s texts call st h)
