-- ===== src/Broker/Families/Rotation.antt =====
-- The branches of `rotate_refresh` (src/auth-broker/app/adapters/sqlite.py) inverted: what each
-- has found and written.
use mathai_ai_swarm_memory.Common.{
  ◌≡◌, ◌≢◌, true, false, [], ◌∷◌, ◌++◌, Option, none, some, find, String, str_eq, ok, err, arith,
}
use mathai_ai_swarm_memory.Broker.Store.{
  Datetime, refresh_reuse, FamilyRow, RefreshRow, Store, is_null,
}
use mathai_ai_swarm_memory.Broker.Families.{
  TokenFamily, is_family, is_token, insert_refresh, revoke_family_locked,
}
use mathai_ai_swarm_memory.Broker.Families.Rotate.{
  successor_row, successor_expiry, advanced, advance_family, rotate_row,
}

abbrev pub find_family : String → Store → Option FamilyRow
find_family family_id st = find (is_family family_id) st.token_families

abbrev pub find_token : String → Store → Option RefreshRow
find_token token_hash st = find (is_token token_hash) st.refresh_tokens

-- ------------------------------------------------------------------ what the parts do

insert_refresh-ok :
    (row : RefreshRow) (st st' : Store)
    → insert_refresh row st ≡ ok st'
    → (find_token row.token_hash st ≡ none)
      × (st' ≡ record st { refresh_tokens = st.refresh_tokens ++ row ∷ [] })
unfolding insert_refresh
insert_refresh-ok row st st' h = ground arith

-- What a successful advance has found and written.
pub record Advanced (f : FamilyRow) (token_hash new_token_hash : String) (now successor : Datetime)
    (st st' : Store) : Type 0 where
  pub fresh : find_token new_token_hash (advanced f token_hash now new_token_hash st) ≡ none
  pub after : st' ≡ record (advanced f token_hash now new_token_hash st) {
    refresh_tokens =
        (advanced f token_hash now new_token_hash st).refresh_tokens
        ++ successor_row f now new_token_hash successor ∷ [];
  }

advance_family-ok :
    (f : FamilyRow) (token_hash : String) (now : Datetime) (new_token_hash : String)
    (successor : Datetime) (st st' : Store) (family : TokenFamily)
    → advance_family f token_hash now new_token_hash successor st ≡ ok (family, st')
    → Advanced f token_hash new_token_hash now successor st st'
unfolding advance_family
advance_family-ok f token_hash now new_token_hash successor st st' family h =
    let row : RefreshRow = successor_row f now new_token_hash successor in
    let mid : Store = advanced f token_hash now new_token_hash st in
    let inserted : insert_refresh row mid ≡ ok st' = ground arith in
    let (fresh, e) = insert_refresh-ok row mid st' inserted in record { fresh = fresh; after = e }

-- ------------------------------------------------------------------ the branches of the transaction

pub rotate_row-some :
    (r : RefreshRow) (f : FamilyRow) (token_hash : String) (now : Datetime)
    (new_token_hash : String) (e : Option Datetime) (st st' : Store) (family : TokenFamily)
    → rotate_row r f token_hash now new_token_hash e st ≡ ok (some family, st')
    → (str_eq f.current_token_hash token_hash ≡ true)
      × (is_null f.revoked_at ≡ true)
      × Advanced f token_hash new_token_hash now (successor_expiry e f.expires_at) st st'
unfolding rotate_row
rotate_row-some r f token_hash now new_token_hash e st st' family h = (
  ground arith,
  ground arith,
  advance_family-ok f token_hash now new_token_hash (successor_expiry e f.expires_at) st st' family
      (ground arith),
)

pub rotate_row-none :
    (r : RefreshRow) (f : FamilyRow) (token_hash : String) (now : Datetime)
    (new_token_hash : String) (e : Option Datetime) (st st' : Store)
    → rotate_row r f token_hash now new_token_hash e st ≡ ok (none, st')
    → (str_eq f.current_token_hash token_hash ≡ false)
      × (is_null f.revoked_at ≡ true)
      × (st' ≡ revoke_family_locked f.id now st)
unfolding rotate_row
rotate_row-none r f token_hash now new_token_hash e st st' h =
    (ground arith, ground arith, ground arith)

pub rotate_row-ne-reuse :
    (r : RefreshRow) (f : FamilyRow) (token_hash : String) (now : Datetime)
    (new_token_hash : String) (e : Option Datetime) (st : Store)
    → rotate_row r f token_hash now new_token_hash e st ≢ err refresh_reuse
unfolding rotate_row advance_family insert_refresh
rotate_row-ne-reuse r f token_hash now new_token_hash e st h = ground arith
