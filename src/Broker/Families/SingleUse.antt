-- ===== src/Broker/Families/SingleUse.antt =====
-- Single use of refresh tokens and the answer to reuse (`rotate_refresh` of
-- src/auth-broker/app/adapters/sqlite.py).
use mathai_ai_swarm_memory.Common.{
  ◌≡◌, ◌≢◌, refl, ◌∙◌, ap, inl, inr, Bool, true, false, ◌&&◌, List, [], ◌∷◌, Option, none, some,
  if◌then◌else◌, find, update_where, find-update_where, find-append, find-holds, String, str_eq,
  eq_iff, eq_refl, ok, err, arith, Option-cases, Bool-cases,
}
use mathai_ai_swarm_memory.Broker.Store.{
  Datetime, refresh_reuse, FamilyRow, RefreshRow, Store, is_null,
}
use mathai_ai_swarm_memory.Broker.Families.{TokenFamily, is_family, is_token, consume_row}
use mathai_ai_swarm_memory.Broker.Families.Rotate.{
  is_current_family, advance_row, successor_row, successor_expiry, rotate_row, rotate_tx,
  rotate_refresh,
}
use mathai_ai_swarm_memory.Broker.Families.Rotation.{
  find_family, find_token, Advanced, rotate_row-some, rotate_row-ne-reuse,
}

-- The rows that a presented token names.
pub record Names (token_hash : String) (st : Store) (r : RefreshRow) (f : FamilyRow) : Type 0 where
  pub token : find_token token_hash st ≡ some r
  pub family : find_family r.family_id st ≡ some f

-- The key of a row that was found by it.
pub found_id :
    (family_id : String) (rows : List FamilyRow) (f : FamilyRow)
    → find (is_family family_id) rows ≡ some f
    → f.id ≡ family_id
found_id family_id rows f h = (eq_iff f.id family_id).0 (find-holds (is_family family_id) rows f h)

-- A call that gives a family has found its rows and taken the branch on the current token.
pub rotate-found :
    (token_hash : String) (now : Datetime) (new_token_hash : String) (e : Option Datetime)
    (st st' : Store) (x : TokenFamily)
    → rotate_refresh token_hash now new_token_hash e st ≡ (ok x, st')
    → (r : RefreshRow) × (f : FamilyRow) × Names token_hash st r f
      × (rotate_row r f token_hash now new_token_hash e st ≡ ok (some x, st'))
unfolding rotate_refresh rotate_tx
rotate-found token_hash now new_token_hash e st st' x h =
    elim (Option-cases (find_token token_hash st)) [
      | inl lost ↦ absurd (ground arith)
      | inr (r, found) ↦ elim (Option-cases (find_family r.family_id st)) [
        | inl lost ↦ absurd (ground arith)
        | inr (f, family) ↦ (r, f, record { token = found; family = family }, ground arith)
      ]
    ]

-- A call that raises the reuse has found its rows and taken the other branch.
pub reuse-found :
    (token_hash : String) (now : Datetime) (new_token_hash : String) (e : Option Datetime)
    (st st' : Store)
    → rotate_refresh token_hash now new_token_hash e st ≡ (err refresh_reuse, st')
    → (r : RefreshRow) × (f : FamilyRow) × Names token_hash st r f
      × (rotate_row r f token_hash now new_token_hash e st ≡ ok (none, st'))
unfolding rotate_refresh rotate_tx
reuse-found token_hash now new_token_hash e st st' h =
    elim (Option-cases (find_token token_hash st)) [
      | inl lost ↦ absurd (ground arith)
      | inr (r, found) ↦ elim (Option-cases (find_family r.family_id st)) [
        | inl lost ↦ absurd (ground arith)
        | inr (f, family) ↦ (
          r,
          f,
          record { token = found; family = family },
          ground (arith, rotate_row-ne-reuse r f token_hash now new_token_hash e st),
        )
      ]
    ]

-- A token that is not its family's current one, or whose family is revoked, gives no family.
pub stale_refused :
    (token_hash : String) (now : Datetime) (new_token_hash : String) (e : Option Datetime)
    (st : Store) (r : RefreshRow) (f : FamilyRow)
    → Names token_hash st r f
    → (str_eq f.current_token_hash token_hash && is_null f.revoked_at) ≡ false
    → (x : TokenFamily) → (rotate_refresh token_hash now new_token_hash e st).0 ≢ ok x
unfolding rotate_refresh rotate_tx rotate_row
stale_refused token_hash now new_token_hash e st r f n stale x h = ground arith

module _ (token_hash : String) (now : Datetime) (new_token_hash : String) (successor : Datetime)
    (st st' : Store) (r : RefreshRow) (f : FamilyRow) (n : Names token_hash st r f)
    (current : str_eq f.current_token_hash token_hash ≡ true) (live : is_null f.revoked_at ≡ true)
    (a : Advanced f token_hash new_token_hash now successor st st') where
  family_after : find_family r.family_id st' ≡ some (advance_row new_token_hash f)
  family_after =
      ap (find_family r.family_id) a.after
      ∙ find-update_where (is_family r.family_id) (is_current_family f.id token_hash)
          (advance_row new_token_hash) st.token_families (λ x. refl)
      ∙ rw n.family (ground (arith, eq_refl f.id))

  abbrev was_presented : RefreshRow → Bool
  was_presented x = is_token token_hash x && is_null x.consumed_at

  abbrev presented : RefreshRow
  presented = if was_presented r then consume_row now r else r

  token_kept :
      find (is_token token_hash) (update_where was_presented (consume_row now) st.refresh_tokens)
      ≡ some presented
  token_kept =
      find-update_where (is_token token_hash) was_presented (consume_row now) st.refresh_tokens
        (λ x. refl)
      ∙ rw n.token

  token_after :
      (r' : RefreshRow) × (find_token token_hash st' ≡ some r') × (r'.family_id ≡ r.family_id)
  token_after = (
    presented,
    ap (find_token token_hash) a.after
        ∙ find-append (is_token token_hash) _ (successor_row f now new_token_hash successor ∷ [])
        ∙ rw token_kept,
    ground arith,
  )

  new_is_other : str_eq new_token_hash token_hash ≡ false
  new_is_other = elim (Bool-cases (str_eq new_token_hash token_hash)) [
    | inr other ↦ other
    | inl same ↦ absurd (lost_and_found (rw ((eq_iff new_token_hash token_hash).0 same) at a.fresh))
  ]
    where
      lost_and_found :
          find
              (is_token token_hash)
              (update_where was_presented (consume_row now) st.refresh_tokens)
            ≡ none
          → ⊥
      lost_and_found lost = cc (token_kept)

-- A refresh token is good for one rotation: after it has given a family, no later call with the
-- same token gives one, at any time and for any successor.
pub rotate_refresh_single_use :
    (token_hash : String) (now : Datetime) (new_token_hash : String) (e : Option Datetime)
    (st st' : Store) (x : TokenFamily)
    → rotate_refresh token_hash now new_token_hash e st ≡ (ok x, st')
    → (later : Datetime) (next_hash : String) (e' : Option Datetime) (y : TokenFamily)
    → (rotate_refresh token_hash later next_hash e' st').0 ≢ ok y
rotate_refresh_single_use token_hash now new_token_hash e st st' x h later next_hash e' y =
    let (r, f, n, row) = rotate-found token_hash now new_token_hash e st st' x h in
    let (current, live, a) = rotate_row-some r f token_hash now new_token_hash e st st' x row in
    let s = successor_expiry e f.expires_at in
    let (r', found, same) =
      token_after token_hash now new_token_hash s st st' r f n current live a in
    let family = family_after token_hash now new_token_hash s st st' r f n current live a in
    let other = new_is_other token_hash now new_token_hash s st st' r f n current live a in
    stale_refused token_hash later next_hash e' st' r' (advance_row new_token_hash f)
      (record { token = found; family = rw same family }) (rw other) y
