-- ===== src/Broker/Principals/Enrolled.antt =====
-- Calls that write principals (src/auth-broker/app/adapters/sqlite.py), and the key that a principal
-- has enrolled.
use mathai_ai_swarm_memory.Common.{
  ℕ, ◌≡◌, refl, sym, ap, ◌∙◌, inl, inr, false, List, [], ◌∷◌, Option, none, some, if◌then◌else◌,
  find, find-update_where, find-holds, update_where, String, is_unset, ok, >>=-eq-ok, arith,
  Option-cases, committed_keeps, committed-ok,
}
use mathai_ai_swarm_memory.Broker.Store.{Datetime, aware, PrincipalRow, Store}
use mathai_ai_swarm_memory.Broker.Principals.{
  Texts, Jwk, KeyMembers, Principal, has_id, public_jwk, principal_row, get_principal,
  add_principal, add_principal_tx, enroll_principal_key, enroll_tx, allow_tx,
  allow_github_principal,
}
use mathai_ai_swarm_memory.Broker.Principals.Keys.{
  HasKey, add_tx-HasKey, allow_tx-HasKey, enroll_tx-HasKey,
}

-- A call that writes principals, with the random ids that it draws.
pub data PrincipalCall : Type 0 where
  adding : String → String → String → Datetime → Option Jwk → Option String → PrincipalCall
  allowing :
      (ℕ → String) → String → String → String → List String → Datetime → Datetime → PrincipalCall
  enrolling : String → Jwk → Datetime → PrincipalCall

module _ (texts : Texts) where
  abbrev pub run_call : PrincipalCall → Store → Store
  run_call (adding id subject role now key login) st =
      (add_principal texts id subject role now key login st).1
  run_call (allowing ids subject login role scopes now expires_at) st =
      (allow_github_principal texts ids subject login role scopes now expires_at st).1
  run_call (enrolling id key now) st = (enroll_principal_key texts id key now st).1

  abbrev pub run_calls : List PrincipalCall → Store → Store
  run_calls [] st = st
  run_calls (call ∷ calls) st = run_calls calls (run_call call st)

  module _ (principal_id jwk thumbprint : String) (set : is_unset jwk ≡ false) where
    run_call-HasKey :
        (call : PrincipalCall) (st : Store)
        → HasKey principal_id jwk thumbprint st
        → HasKey principal_id jwk thumbprint (run_call call st)
    unfolding add_principal allow_github_principal enroll_principal_key
    run_call-HasKey (adding id subject role now key login) st h =
        committed_keeps (HasKey principal_id jwk thumbprint) st
          (add_principal_tx texts id subject role now key login st) h
          (λ a st' e.
            add_tx-HasKey principal_id jwk thumbprint texts id subject role now key login st st' a e
              h)
    run_call-HasKey (allowing ids subject login role scopes now expires_at) st h =
        committed_keeps (HasKey principal_id jwk thumbprint) st
          (allow_tx texts ids subject login role scopes now expires_at st) h
          (λ a st' e.
            allow_tx-HasKey principal_id jwk thumbprint texts ids subject login role scopes now
              expires_at st st' a e h)
    run_call-HasKey (enrolling id key now) st h =
        committed_keeps (HasKey principal_id jwk thumbprint) st (enroll_tx texts id key now st) h
          (λ a st' e.
            enroll_tx-HasKey principal_id jwk thumbprint texts id key now st st' a set e h)

    run_calls-HasKey :
        (calls : List PrincipalCall) (st : Store)
        → HasKey principal_id jwk thumbprint st
        → HasKey principal_id jwk thumbprint (run_calls calls st)
    run_calls-HasKey [] st h = h
    run_calls-HasKey (call ∷ calls) st h =
        run_calls-HasKey calls (run_call call st) (run_call-HasKey call st h)

  -- A principal with the columns of a key, as it is read.
  HasKey-read :
      (principal_id jwk thumbprint : String) (st : Store) (p : PrincipalRow)
      → HasKey principal_id jwk thumbprint st
      → p.jwk ≡ jwk
      → p.jwk_thumbprint ≡ thumbprint
      → (q : Principal) × (get_principal texts principal_id st ≡ some q)
        × (q.jwk ≡ (principal_row texts p).jwk)
        × (q.jwk_thumbprint ≡ (principal_row texts p).jwk_thumbprint)
  unfolding get_principal principal_row
  HasKey-read principal_id jwk thumbprint st p h key print = (
    principal_row texts h.row,
    rw (h.found, get_principal) refl,
    ap (λ x. if is_unset x then none else some (texts.loads x)) (h.key ∙ sym key),
    ground (arith, h.key, h.print),
  )

  module _ (nonempty : (members : KeyMembers) → is_unset (texts.dumps members) ≡ false) where
    enroll_tx-stores :
        (principal_id : String) (key : Jwk) (now : Datetime) (st st' : Store) (p : Principal)
        → enroll_tx texts principal_id key now st ≡ ok (p, st')
        → (row : PrincipalRow) × (p ≡ principal_row texts row)
          × (is_unset row.jwk ≡ false)
          × HasKey principal_id row.jwk row.jwk_thumbprint st'
    unfolding enroll_tx
    enroll_tx-stores principal_id key now st st' p h =
        let (v1, e1, h1) = >>=-eq-ok (aware now) _ h in
        let (stored, e2, h2) = >>=-eq-ok (public_jwk texts key) _ h1 in
        elim (Option-cases (find (has_id principal_id) st.principals)) [
          | inl lost ↦ absurd (ground arith)
          | inr (row, found) ↦
              let enroll = λ (x : PrincipalRow). record x {
                jwk = texts.dumps stored.0;
                jwk_thumbprint = stored.1;
              } in
              let rows : st'.principals ≡ update_where (has_id principal_id) enroll st.principals =
                ground arith in
              (
                enroll row,
                ground arith,
                nonempty stored.0,
                record {
                  row = enroll row;
                  found =
                      ap (find (has_id principal_id)) rows
                      ∙ find-update_where (has_id principal_id) (has_id principal_id) enroll
                          st.principals (λ x. refl)
                      ∙ rw found
                          (rw (find-holds (has_id principal_id) st.principals row found) refl);
                  key = refl;
                  print = refl;
                },
              )
        ]

    -- Once a principal has enrolled a key, it keeps this key and its thumbprint, whatever calls that
    -- add, allow or enroll principals follow, when the JSON text of a key is never empty.
    pub enrolled_key_stays :
        (principal_id : String) (key : Jwk) (now : Datetime) (st st' : Store) (p : Principal)
        → enroll_principal_key texts principal_id key now st ≡ (ok p, st')
        → (calls : List PrincipalCall)
        → (q : Principal) × (get_principal texts principal_id (run_calls calls st') ≡ some q)
          × (q.jwk ≡ p.jwk)
          × (q.jwk_thumbprint ≡ p.jwk_thumbprint)
    unfolding enroll_principal_key
    enrolled_key_stays principal_id key now st st' p h calls =
        let ran = committed-ok st (enroll_tx texts principal_id key now st) p st' h in
        let (row, same, set, has) = enroll_tx-stores principal_id key now st st' p ran in
        let (q, found, keys, prints) =
          HasKey-read principal_id row.jwk row.jwk_thumbprint (run_calls calls st') row
            (run_calls-HasKey principal_id row.jwk row.jwk_thumbprint set calls st' has) refl
            refl in
        (
          q,
          found,
          keys ∙ ap (λ (x : Principal). x.jwk) (sym same),
          prints ∙ ap (λ (x : Principal). x.jwk_thumbprint) (sym same),
        )
