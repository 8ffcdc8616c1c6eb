-- ===== src/Broker/Tests.antt =====
-- Runs of src/auth-broker/app/adapters/sqlite.py on concrete inputs.
use mathai_ai_swarm_memory.Common.{
  ℕ, ◌≡◌, ◌≢◌, refl, false, [], ◌∷◌, Option, none, some, String, ok, err,
}
use mathai_ai_swarm_memory.Broker.Store.{
  Datetime, Store, empty_store, refresh_reuse, FamilyRow, RefreshRow, Outcome,
}
use mathai_ai_swarm_memory.Broker.Families.{
  TokenFamily, create_family, create_family_tx, family_checks, active_principal, insert_family,
  insert_refresh, revoke_family_locked, family_active, is_live,
}
use mathai_ai_swarm_memory.Broker.Families.Rotate.{
  rotate_refresh, rotate_tx, rotate_row, successor_expiry, advance_family,
}
use mathai_ai_swarm_memory.Broker.Families.Rotation.{find_token}
use mathai_ai_swarm_memory.Broker.Families.SingleUse.{rotate_refresh_single_use, Names}
use mathai_ai_swarm_memory.Broker.Families.Revoked.{run_calls, revoke}
use mathai_ai_swarm_memory.Broker.Families.Reuse.{reuse_ends_family, reuse_ends_tokens}

program : Unit {0}
unfolding create_family create_family_tx family_checks active_principal insert_family insert_refresh
    revoke_family_locked family_active is_live rotate_refresh rotate_tx rotate_row successor_expiry
    advance_family
program = tt

abbrev at : ℕ → Datetime
at n = record { instant = n; offset = some 1440 }

abbrev with_principal : Store
with_principal = record empty_store {
  principals =
      record {
        id = "p";
        github_subject = "7";
        jwk_thumbprint = "thumb";
        jwk = "key";
        role = "advisor";
        created_at = at 0;
        revoked_at = none;
        github_login = none;
      }
      ∷ [];
}

abbrev created : Outcome TokenFamily
created = create_family "f" "p" "w" "t1" ("ctx" ∷ []) (at 10) (at 100) with_principal

abbrev family_at : String → Option String → TokenFamily
family_at current previous = record {
  id = "f";
  principal_id = "p";
  workspace_id = "w";
  current_token_hash = current;
  previous_token_hash = previous;
  created_at = at 10;
  expires_at = at 100;
  requested_scopes = "ctx" ∷ [];
}

creates : created.0 ≡ ok (family_at "t1" none)
unfolding program
creates = refl

abbrev rotated : Outcome TokenFamily
rotated = rotate_refresh "t1" (at 20) "t2" none created.1

rotates : rotated ≡ (ok (family_at "t2" (some "t1")), rotated.1)
unfolding program
rotates = refl

rotate_refresh_single_use_example :
    (rotate_refresh "t1" (at 30) "t3" none rotated.1).0 ≢ ok (family_at "t3" (some "t1"))
rotate_refresh_single_use_example =
    rotate_refresh_single_use "t1" (at 20) "t2" none created.1 rotated.1
      (family_at "t2" (some "t1")) rotates (at 30) "t3" none (family_at "t3" (some "t1"))

abbrev reused : Outcome TokenFamily
reused = rotate_refresh "t1" (at 30) "t3" none rotated.1

reuse_raises : reused ≡ (err refresh_reuse, reused.1)
unfolding program
reuse_raises = refl

abbrev old_token : RefreshRow
old_token = record {
  token_hash = "t1";
  family_id = "f";
  issued_at = at 10;
  expires_at = at 100;
  consumed_at = some (at 20);
}

finds_old : find_token "t1" rotated.1 ≡ some old_token
unfolding program
finds_old = refl

reuse_ends_family_example :
    family_active "f" (at 40) (run_calls (revoke "f" (at 35) ∷ []) reused.1) ≡ ok false
reuse_ends_family_example =
    reuse_ends_family "t1" (at 30) "t3" none rotated.1 reused.1 old_token reuse_raises finds_old
      (revoke "f" (at 35) ∷ []) (at 40) refl

abbrev new_token : RefreshRow
new_token = record {
  token_hash = "t2";
  family_id = "f";
  issued_at = at 20;
  expires_at = at 100;
  consumed_at = some (at 30);
}

finds_new : find_token "t2" (run_calls [] reused.1) ≡ some new_token
unfolding program run_calls
finds_new = refl

reuse_ends_tokens_example :
    (rotate_refresh "t2" (at 40) "t4" none (run_calls [] reused.1)).0
    ≢ ok (family_at "t4" (some "t2"))
reuse_ends_tokens_example =
    reuse_ends_tokens "t1" (at 30) "t3" none rotated.1 reused.1 old_token reuse_raises finds_old []
      "t2" "t4" (at 40) none new_token finds_new refl (family_at "t4" (some "t2"))

abbrev family_now : FamilyRow
family_now = record {
  id = "f";
  principal_id = "p";
  workspace_id = "w";
  current_token_hash = "t2";
  previous_token_hash = some "t1";
  requested_scopes = "ctx" ∷ [];
  created_at = at 10;
  expires_at = at 100;
  revoked_at = none;
}

Names-old : Names "t1" rotated.1 old_token family_now
unfolding program
Names-old = record { token = refl; family = refl }
