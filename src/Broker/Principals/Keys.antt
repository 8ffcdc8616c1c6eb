-- ===== src/Broker/Principals/Keys.antt =====
-- Enrolled keys under the calls of src/auth-broker/app/adapters/sqlite.py that write principals.
use mathai_ai_swarm_memory.Common.{
  ℕ, ◌+◌, ◌≡◌, refl, sym, ap, ◌∙◌, inl, inr, Bool, false, not, ◌&&◌, List, [], ◌∷◌, ◌++◌, Option,
  some, if◌then◌else◌, is_empty, find, find-append, find-update_where, find-holds, update_where,
  String, eq_iff, is_unset, ok, guard, >>=-eq-ok, ok-injective, arith, Bool-cases, Option-cases,
  leb, length, codes,
}
use mathai_ai_swarm_memory.Broker.Store.{
  Datetime, aware, value_error, scope_error, PrincipalRow, Store,
}
use mathai_ai_swarm_memory.Broker.Scopes.{validate_role, validate_grant_ttl}
use mathai_ai_swarm_memory.Broker.Grants.{insert_grant_locked}
use mathai_ai_swarm_memory.Broker.Principals.{
  Texts, Jwk, Principal, has_id, canonical_id, cached_login, insert_principal_locked, public_jwk,
  principal_row, jwk_columns, new_principal, add_principal_tx, enroll_tx, checked_scopes,
  insert_grants, upsert_principal, allow_tx,
}

-- The columns of the enrolled key of a principal.
pub record HasKey (principal_id jwk thumbprint : String) (st : Store) : Type 0 where
  pub row : PrincipalRow
  pub found : find (has_id principal_id) st.principals ≡ some row
  pub key : row.jwk ≡ jwk
  pub print : row.jwk_thumbprint ≡ thumbprint

module _ (principal_id jwk thumbprint : String) where
  abbrev Keeps : Store → Type 0
  Keeps st = HasKey principal_id jwk thumbprint st

  same_principals-HasKey : (st st' : Store) → st'.principals ≡ st.principals → Keeps st → Keeps st'
  same_principals-HasKey st st' e h = record {
    row = h.row;
    found = ap (find (has_id principal_id)) e ∙ h.found;
    key = h.key;
    print = h.print;
  }

  insert-HasKey :
      (row : PrincipalRow) (st st' : Store)
      → insert_principal_locked row st ≡ ok st'
      → Keeps st
      → Keeps st'
  unfolding insert_principal_locked
  insert-HasKey row st st' e h =
      let rows : st'.principals ≡ st.principals ++ row ∷ [] = ground arith in
      record {
        row = h.row;
        found =
            ap (find (has_id principal_id)) rows
            ∙ find-append (has_id principal_id) st.principals (row ∷ [])
            ∙ rw h.found refl;
        key = h.key;
        print = h.print;
      }

  -- An update that leaves the ids and the key columns of the rows that it changes.
  update-HasKey :
      (q : PrincipalRow → Bool) (f : PrincipalRow → PrincipalRow) (st : Store)
      → ((x : PrincipalRow) → has_id principal_id (f x) ≡ has_id principal_id x)
      → (h : Keeps st) → (if q h.row then f h.row else h.row).jwk ≡ jwk
      → (if q h.row then f h.row else h.row).jwk_thumbprint ≡ thumbprint
      → Keeps (record st { principals = update_where q f st.principals })
  update-HasKey q f st ids h k p = record {
    row = if q h.row then f h.row else h.row;
    found = find-update_where (has_id principal_id) q f st.principals ids ∙ rw h.found refl;
    key = k;
    print = p;
  }

  insert_grants-principals :
      (texts : Texts) (ids : ℕ → String) (k : ℕ) (owner : String) (scopes : List String)
      (now expires_at : Datetime) (st st' : Store)
      → insert_grants texts ids k owner scopes now expires_at st ≡ ok st'
      → st'.principals ≡ st.principals
  unfolding insert_grants insert_grant_locked
  insert_grants-principals texts ids k owner [] now expires_at st st' e = ground arith
  insert_grants-principals texts ids k owner (scope ∷ scopes) now expires_at st st' e =
      let (one, first, rest) =
        >>=-eq-ok (insert_grant_locked (ids k) owner scope now expires_at st) _ e in
      let before : one.1.principals ≡ st.principals = ground arith in
      insert_grants-principals texts ids (k + 1) owner scopes now expires_at one.1 st' rest ∙ before

  upsert-HasKey :
      (texts : Texts) (owner github_subject login role : String) (now : Datetime) (st st' : Store)
      → upsert_principal texts owner github_subject login role now st ≡ ok st'
      → Keeps st
      → Keeps st'
  unfolding upsert_principal
  upsert-HasKey texts owner github_subject login role now st st' e h =
      elim (Option-cases (find (has_id owner) st.principals)) [
        | inl lost ↦
            insert-HasKey (new_principal texts owner github_subject role now ("", "") (some login))
              st st' (ground arith) h
        | inr (row, found) ↦
            let change =
              λ (p : PrincipalRow). record p { github_login = some login; role = role } in
            let changed : record st {
              principals = update_where (has_id owner) change st.principals;
            }
                ≡ st' =
              ground arith in
            rw (sym changed) (
              update-HasKey (has_id owner) change st (λ x. refl) h (ground (arith, h.key))
                (ground (arith, h.print)))
      ]

  pub allow_tx-HasKey :
      (texts : Texts) (ids : ℕ → String) (github_subject login role : String) (scopes : List String)
      (now expires_at : Datetime) (st st' : Store) (a : Unit {0})
      → allow_tx texts ids github_subject login role scopes now expires_at st ≡ ok (a, st')
      → Keeps st
      → Keeps st'
  unfolding allow_tx
  allow_tx-HasKey texts ids github_subject login role scopes now expires_at st st' a e h =
      let (v1, e1, h1) = >>=-eq-ok (aware now) _ e in
      let (v2, e2, h2) = >>=-eq-ok (aware expires_at) _ h1 in
      let (v3, e3, h3) = >>=-eq-ok (validate_role role) _ h2 in
      let (v4, e4, h4) = >>=-eq-ok (guard (texts.is_digits github_subject) value_error) _ h3 in
      let (v5, e5, h5) = >>=-eq-ok (cached_login (some login)) _ h4 in
      let (v6, e6, h6) = >>=-eq-ok (guard (not (is_empty scopes)) scope_error) _ h5 in
      let (checked, e7, h7) = >>=-eq-ok (checked_scopes texts role [] scopes) _ h6 in
      let (v8, e8, h8) = >>=-eq-ok (validate_grant_ttl now expires_at) _ h7 in
      let (v9, e9, h9) =
        >>=-eq-ok (guard (leb (length (codes (canonical_id github_subject))) 64) value_error) _
          h8 in
      let (mid, upserted, h10) =
        >>=-eq-ok
          (upsert_principal texts (canonical_id github_subject) github_subject login role now st) _
          h9 in
      let (last, granted, h11) =
        >>=-eq-ok
          (insert_grants texts ids 0 (canonical_id github_subject) checked now expires_at mid) _
          h10 in
      let ends : last ≡ st' = ap (λ (x : Unit {0} × Store). x.1) (ok-injective h11) in
      rw (sym ends) (
        same_principals-HasKey mid last
          (insert_grants-principals texts ids 0 (canonical_id github_subject) checked now expires_at
            mid last granted)
          (upsert-HasKey texts (canonical_id github_subject) github_subject login role now st mid
            upserted h))

  pub add_tx-HasKey :
      (texts : Texts) (owner github_subject role : String) (now : Datetime) (key : Option Jwk)
      (login : Option String) (st st' : Store) (a : Principal)
      → add_principal_tx texts owner github_subject role now key login st ≡ ok (a, st')
      → Keeps st
      → Keeps st'
  unfolding add_principal_tx
  add_tx-HasKey texts owner github_subject role now key login st st' a e h =
      let (v1, e1, h1) = >>=-eq-ok (aware now) _ e in
      let (v2, e2, h2) = >>=-eq-ok (validate_role role) _ h1 in
      let (v3, e3, h3) =
        >>=-eq-ok (guard (not (is_unset owner) && leb (length (codes owner)) 64) value_error) _
          h2 in
      let (v4, e4, h4) = >>=-eq-ok (guard (texts.is_digits github_subject) value_error) _ h3 in
      let (cached, e5, h5) = >>=-eq-ok (cached_login login) _ h4 in
      let (columns, e6, h6) = >>=-eq-ok (jwk_columns texts key) _ h5 in
      let row = new_principal texts owner github_subject role now columns cached in
      let (last, inserted, h7) = >>=-eq-ok (insert_principal_locked row st) _ h6 in
      let ends : last ≡ st' = ap (λ (x : Principal × Store). x.1) (ok-injective h7) in
      rw (sym ends) (insert-HasKey row st last inserted h)

  -- A key is enrolled only where there is none.
  pub enroll_tx-HasKey :
      (texts : Texts) (owner : String) (key : Jwk) (now : Datetime) (st st' : Store) (a : Principal)
      → is_unset jwk ≡ false
      → enroll_tx texts owner key now st ≡ ok (a, st')
      → Keeps st
      → Keeps st'
  unfolding enroll_tx principal_row
  enroll_tx-HasKey texts owner key now st st' a set e h =
      let (v1, e1, h1) = >>=-eq-ok (aware now) _ e in
      let (stored, e2, h2) = >>=-eq-ok (public_jwk texts key) _ h1 in
      elim (Option-cases (find (has_id owner) st.principals)) [
        | inl lost ↦ absurd (ground arith)
        | inr (row, found) ↦ elim (Bool-cases (has_id owner h.row)) [
          | inl own ↦
              let mine : principal_id ≡ owner =
                sym (
                  (eq_iff h.row.id principal_id).0
                    (find-holds (has_id principal_id) st.principals h.row h.found))
                ∙ (eq_iff h.row.id owner).0 own in
              let both : some row ≡ some h.row =
                sym found ∙ ap (λ x. find (has_id x) st.principals) (sym mine) ∙ h.found in
              let same : row ≡ h.row = cc in
              let taken : is_unset row.jwk ≡ false =
                ap (λ (x : PrincipalRow). is_unset x.jwk) same ∙ ap is_unset h.key ∙ set in
              absurd (ground (arith, taken))
          | inr other ↦
              let enroll = λ (p : PrincipalRow). record p {
                jwk = texts.dumps stored.0;
                jwk_thumbprint = stored.1;
              } in
              let rows : st'.principals ≡ update_where (has_id owner) enroll st.principals =
                ground arith in
              same_principals-HasKey
                (record st { principals = update_where (has_id owner) enroll st.principals }) st'
                rows
                (update-HasKey (has_id owner) enroll st (λ x. refl) h (rw other h.key)
                  (rw other h.print))
        ]
      ]
