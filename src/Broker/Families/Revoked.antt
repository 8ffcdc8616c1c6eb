-- ===== src/Broker/Families/Revoked.antt =====
-- Revoked families under the calls of `create_family`, `revoke_family` and `rotate_refresh`
-- (src/auth-broker/app/adapters/sqlite.py).
use mathai_ai_swarm_memory.Common.{
  ◌≡◌, refl, ◌∙◌, ap, inl, inr, Bool, true, false, List, [], ◌∷◌, ◌++◌, Option, none, some,
  if◌then◌else◌, find, count_where, update_where, find-update_where, find-append, find-holds,
  find-some-count, String, ok, err, >>=-eq-ok, arith, Option-cases, Bool-cases, ◌==◌,
}
use mathai_ai_swarm_memory.Broker.Store.{
  Datetime, FamilyRow, RefreshRow, Store, is_null, Outcome, committed_keeps,
}
use mathai_ai_swarm_memory.Broker.Families.{
  TokenFamily, is_family, is_unrevoked_family, revoke_row, revoke_family_locked, create_family,
  create_family_tx, revoke_family, revoke_family_tx, insert_family, insert_refresh, new_family,
  first_token, family_checks,
}
use mathai_ai_swarm_memory.Broker.Families.Rotate.{
  is_current_family, advance_row, rotate_row, rotate_tx, rotate_refresh, raise_reuse,
}
use mathai_ai_swarm_memory.Broker.Families.Rotation.{
  find_family, find_token, rotate_row-some, rotate_row-none,
}

-- A call of one of the methods that write families.
pub data Call : Type 0 where
  create : String → String → String → String → List String → Datetime → Datetime → Call
  revoke : String → Datetime → Call
  rotate : String → Datetime → String → Option Datetime → Call

unfoldable pub run_call : Call → Store → Store
run_call (create family_id principal_id workspace_id token_hash scopes now expires_at) st =
    (create_family family_id principal_id workspace_id token_hash scopes now expires_at st).1
run_call (revoke family_id now) st = (revoke_family family_id now st).1
run_call (rotate token_hash now new_token_hash e) st =
    (rotate_refresh token_hash now new_token_hash e st).1

unfoldable pub run_calls : List Call → Store → Store
unfolding run_call
run_calls [] st = st
run_calls (c ∷ calls) st = run_calls calls (run_call c st)

-- The family is there and has been revoked.
pub record IsRevoked (family_id : String) (st : Store) : Type 0 where
  pub row : FamilyRow
  pub found : find_family family_id st ≡ some row
  pub revoked : is_null row.revoked_at ≡ false

IsRevoked-update :
    (family_id : String) (q : FamilyRow → Bool) (g : FamilyRow → FamilyRow) (rows : List FamilyRow)
    (row : FamilyRow)
    → ((x : FamilyRow) → is_family family_id (g x) ≡ is_family family_id x)
    → ((x : FamilyRow) → is_null x.revoked_at ≡ false → is_null (g x).revoked_at ≡ false)
    → find (is_family family_id) rows ≡ some row
    → is_null row.revoked_at ≡ false
    → (row' : FamilyRow) × (find (is_family family_id) (update_where q g rows) ≡ some row')
      × (is_null row'.revoked_at ≡ false)
IsRevoked-update family_id q g rows row keeps stays found revoked = (
  (if q row then g row else row),
  find-update_where (is_family family_id) q g rows keeps ∙ rw found,
  ground (arith, stays row),
)

revoke_family_locked-IsRevoked :
    (family_id other : String) (now : Datetime) (st : Store)
    → IsRevoked family_id st
    → IsRevoked family_id (revoke_family_locked other now st)
unfolding revoke_family_locked
revoke_family_locked-IsRevoked family_id other now st h =
    let (row, found, revoked) =
      IsRevoked-update family_id (is_unrevoked_family other) (revoke_row now) st.token_families
        h.row (λ x. refl) (λ x e. refl) h.found h.revoked in
    elim (Bool-cases (count_where (is_unrevoked_family other) st.token_families == 0)) [
      | inl nothing ↦ rw nothing h
      | inr some_row ↦ rw some_row (record { row = row; found = found; revoked = revoked })
    ]

-- The row that reuse revokes.
pub revoke_family_locked-revokes :
    (family_id : String) (now : Datetime) (st : Store) (f : FamilyRow)
    → find_family family_id st ≡ some f
    → is_null f.revoked_at ≡ true
    → IsRevoked family_id (revoke_family_locked family_id now st)
unfolding revoke_family_locked
revoke_family_locked-revokes family_id now st f found live =
    let some_row =
      find-some-count (is_family family_id) (is_unrevoked_family family_id) st.token_families f
        found (ground (arith, find-holds (is_family family_id) st.token_families f)) in
    elim (Bool-cases (count_where (is_unrevoked_family family_id) st.token_families == 0)) [
      | inl nothing ↦ absurd (some_row (ground arith))
      | inr busy ↦ rw busy (record {
        row = revoke_row now f;
        found =
            find-update_where (is_family family_id) (is_unrevoked_family family_id) (revoke_row now)
              st.token_families (λ x. refl)
            ∙ rw found (ground (arith, find-holds (is_family family_id) st.token_families f));
        revoked = refl;
      })
    ]

insert_family-IsRevoked :
    (family_id : String) (row : FamilyRow) (st st' : Store)
    → insert_family row st ≡ ok st'
    → IsRevoked family_id st
    → IsRevoked family_id st'
unfolding insert_family
insert_family-IsRevoked family_id row st st' e h = record {
  row = h.row;
  found =
      let appended : st'.token_families ≡ st.token_families ++ row ∷ [] = ground arith in
      ap (find (is_family family_id)) appended
      ∙ find-append (is_family family_id) st.token_families (row ∷ [])
      ∙ rw h.found;
  revoked = h.revoked;
}

same_families-IsRevoked :
    (family_id : String) (st st' : Store)
    → st'.token_families ≡ st.token_families
    → IsRevoked family_id st
    → IsRevoked family_id st'
same_families-IsRevoked family_id st st' e h = record {
  row = h.row;
  found = ap (find (is_family family_id)) e ∙ h.found;
  revoked = h.revoked;
}

insert_refresh-families :
    (row : RefreshRow) (st st' : Store)
    → insert_refresh row st ≡ ok st'
    → st'.token_families ≡ st.token_families
unfolding insert_refresh
insert_refresh-families row st st' e = ground arith

create_family-IsRevoked :
    (family_id id principal_id workspace_id token_hash : String) (scopes : List String)
    (now expires_at : Datetime) (st : Store)
    → IsRevoked family_id st
    → IsRevoked family_id
        (create_family id principal_id workspace_id token_hash scopes now expires_at st).1
unfolding create_family create_family_tx
create_family-IsRevoked family_id id principal_id workspace_id token_hash scopes now expires_at st
      h =
    let row : FamilyRow =
      new_family id principal_id workspace_id token_hash scopes now expires_at in
    let token : RefreshRow = first_token id token_hash now expires_at in
    committed_keeps (IsRevoked family_id) st
      (create_family_tx id principal_id workspace_id token_hash scopes now expires_at st) h
      λ x st' e.
        let (unit, _, e') =
          >>=-eq-ok (family_checks principal_id workspace_id token_hash scopes now expires_at st) _
            e in
        let (mid, inserted, e'') = >>=-eq-ok (insert_family row st) _ e' in
        let (last, written, e3) = >>=-eq-ok (insert_refresh token mid) _ e'' in
        same_families-IsRevoked family_id mid st'
          (ground (arith, insert_refresh-families token mid last))
          (insert_family-IsRevoked family_id row st mid inserted h)

raise_reuse-store : (o : Outcome (Option TokenFamily)) → (raise_reuse o).1 ≡ o.1
raise_reuse-store (ok (some x), st) = refl
raise_reuse-store (ok none, st) = refl
raise_reuse-store (err e, st) = refl

rotate_row-IsRevoked :
    (family_id : String) (r : RefreshRow) (f : FamilyRow) (token_hash : String) (now : Datetime)
    (new_token_hash : String) (e : Option Datetime) (st st' : Store) (o : Option TokenFamily)
    → rotate_row r f token_hash now new_token_hash e st ≡ ok (o, st')
    → IsRevoked family_id st
    → IsRevoked family_id st'
rotate_row-IsRevoked family_id r f token_hash now new_token_hash e st st' none h revoked =
    rw ((rotate_row-none r f token_hash now new_token_hash e st st' h).2)
      (revoke_family_locked-IsRevoked family_id f.id now st revoked)
rotate_row-IsRevoked family_id r f token_hash now new_token_hash e st st' (some x) h revoked =
    let a = (rotate_row-some r f token_hash now new_token_hash e st st' x h).2 in
    let (row, found, still) =
      IsRevoked-update family_id (is_current_family f.id token_hash) (advance_row new_token_hash)
        st.token_families revoked.row (λ x. refl) (λ x e. e) revoked.found revoked.revoked in
    rw a.after (record { row = row; found = found; revoked = still })

rotate_tx-IsRevoked :
    (family_id token_hash : String) (now : Datetime) (new_token_hash : String) (e : Option Datetime)
    (st st' : Store) (o : Option TokenFamily)
    → rotate_tx token_hash now new_token_hash e st ≡ ok (o, st')
    → IsRevoked family_id st
    → IsRevoked family_id st'
unfolding rotate_tx
rotate_tx-IsRevoked family_id token_hash now new_token_hash e st st' o h revoked =
    elim (Option-cases (find_token token_hash st)) [
      | inl lost ↦ absurd (ground arith)
      | inr (r, found) ↦ elim (Option-cases (find_family r.family_id st)) [
        | inl lost ↦ absurd (ground arith)
        | inr (f, family) ↦
            rotate_row-IsRevoked family_id r f token_hash now new_token_hash e st st' o
              (ground arith) revoked
      ]
    ]

rotate_refresh-IsRevoked :
    (family_id token_hash : String) (now : Datetime) (new_token_hash : String) (e : Option Datetime)
    (st : Store)
    → IsRevoked family_id st
    → IsRevoked family_id (rotate_refresh token_hash now new_token_hash e st).1
unfolding rotate_refresh
rotate_refresh-IsRevoked family_id token_hash now new_token_hash e st h = rw raise_reuse-store (
    committed_keeps (IsRevoked family_id) st (rotate_tx token_hash now new_token_hash e st) h
      λ o st' eq. rotate_tx-IsRevoked family_id token_hash now new_token_hash e st st' o eq h)

revoke_family-IsRevoked :
    (family_id other : String) (now : Datetime) (st : Store)
    → IsRevoked family_id st
    → IsRevoked family_id (revoke_family other now st).1
unfolding revoke_family revoke_family_tx
revoke_family-IsRevoked family_id other now st h =
    committed_keeps (IsRevoked family_id) st (revoke_family_tx other now st) h λ x st' e.
      let written : st' ≡ revoke_family_locked other now st = ground arith in
      rw written (revoke_family_locked-IsRevoked family_id other now st h)

run_call-IsRevoked :
    (family_id : String) (c : Call) (st : Store)
    → IsRevoked family_id st
    → IsRevoked family_id (run_call c st)
unfolding run_call revoke_family
run_call-IsRevoked family_id (create id principal workspace token scopes now expires_at) st h =
    create_family-IsRevoked family_id id principal workspace token scopes now expires_at st h
run_call-IsRevoked family_id (rotate token_hash now new_token_hash e) st h =
    rotate_refresh-IsRevoked family_id token_hash now new_token_hash e st h
run_call-IsRevoked family_id (revoke other now) st h =
    revoke_family-IsRevoked family_id other now st h

pub run_calls-IsRevoked :
    (family_id : String) (calls : List Call) (st : Store)
    → IsRevoked family_id st
    → IsRevoked family_id (run_calls calls st)
unfolding run_calls
run_calls-IsRevoked family_id [] st h = h
run_calls-IsRevoked family_id (c ∷ calls) st h =
    run_calls-IsRevoked family_id calls (run_call c st) (run_call-IsRevoked family_id c st h)
