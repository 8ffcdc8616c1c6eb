-- ===== src/Broker/Families/Reuse.antt =====
-- What follows the reuse of a refresh token, over any later calls of `create_family`,
-- `revoke_family` and `rotate_refresh` (src/auth-broker/app/adapters/sqlite.py).
use mathlib.Core.Path.{subst}
use mathai_ai_swarm_memory.Common.{
  false, ◌≡◌, ◌≢◌, true, false, List, Option, some, String, ok, err, arith,
}
use mathai_ai_swarm_memory.Broker.Store.{Datetime, is_aware, refresh_reuse, RefreshRow, Store}
use mathai_ai_swarm_memory.Broker.Families.{TokenFamily, family_active, is_live}
use mathai_ai_swarm_memory.Broker.Families.Rotate.{rotate_refresh}
use mathai_ai_swarm_memory.Broker.Families.Rotation.{find_token, rotate_row-none}
use mathai_ai_swarm_memory.Broker.Families.SingleUse.{found_id, reuse-found, stale_refused}
use mathai_ai_swarm_memory.Broker.Families.Revoked.{
  Call, run_calls, run_calls-IsRevoked, IsRevoked, revoke_family_locked-revokes,
}

IsRevoked-inactive :
    (family_id : String) (st : Store) (later : Datetime)
    → IsRevoked family_id st
    → is_aware later ≡ true
    → family_active family_id later st ≡ ok false
unfolding family_active is_live
IsRevoked-inactive family_id st later h e = rw (e, h.found, h.revoked)

reuse-IsRevoked :
    (token_hash : String) (now : Datetime) (new_token_hash : String) (e : Option Datetime)
    (st st' : Store) (r : RefreshRow)
    → rotate_refresh token_hash now new_token_hash e st ≡ (err refresh_reuse, st')
    → find_token token_hash st ≡ some r
    → IsRevoked r.family_id st'
reuse-IsRevoked token_hash now new_token_hash e st st' r h found =
    let (s, f, n, row) = reuse-found token_hash now new_token_hash e st st' h in
    let (stale, live, after) = rotate_row-none s f token_hash now new_token_hash e st st' row in
    let same : s ≡ r = cc (n.token, found) in
    let revoked : IsRevoked s.family_id st' =
      rw (after, found_id s.family_id st.token_families f n.family)
        (revoke_family_locked-revokes s.family_id now st f n.family live) in
    subst (λ x. IsRevoked x.family_id st') same revoked

-- Once a presented token has been answered by the reuse error, the family of the token is inactive
-- at every aware time, whatever calls that create, revoke or rotate families come in between.
pub reuse_ends_family :
    (token_hash : String) (now : Datetime) (new_token_hash : String) (e : Option Datetime)
    (st st' : Store) (r : RefreshRow)
    → rotate_refresh token_hash now new_token_hash e st ≡ (err refresh_reuse, st')
    → find_token token_hash st ≡ some r
    → (calls : List Call) (later : Datetime) → is_aware later ≡ true
    → family_active r.family_id later (run_calls calls st') ≡ ok false
reuse_ends_family token_hash now new_token_hash e st st' r h found calls later aware_later =
    IsRevoked-inactive r.family_id (run_calls calls st') later
      (run_calls-IsRevoked r.family_id calls st'
        (reuse-IsRevoked token_hash now new_token_hash e st st' r h found))
      aware_later

-- Once a presented token has been answered by the reuse error, no token of its family gives a
-- family again, whatever calls that create, revoke or rotate families come in between.
pub reuse_ends_tokens :
    (token_hash : String) (now : Datetime) (new_token_hash : String) (e : Option Datetime)
    (st st' : Store) (r : RefreshRow)
    → rotate_refresh token_hash now new_token_hash e st ≡ (err refresh_reuse, st')
    → find_token token_hash st ≡ some r
    → (calls : List Call) (other next_hash : String) (later : Datetime) (e' : Option Datetime)
      (s : RefreshRow)
    → find_token other (run_calls calls st') ≡ some s
    → s.family_id ≡ r.family_id
    → (y : TokenFamily) → (rotate_refresh other later next_hash e' (run_calls calls st')).0 ≢ ok y
reuse_ends_tokens token_hash now new_token_hash e st st' r h found calls other next_hash later e' s
      found' same y =
    let still =
      run_calls-IsRevoked r.family_id calls st'
        (reuse-IsRevoked token_hash now new_token_hash e st st' r h found) in
    stale_refused other later next_hash e' (run_calls calls st') s still.row
      (record { token = found'; family = rw same still.found }) (ground arith) y
