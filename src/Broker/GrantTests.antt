-- ===== src/Broker/GrantTests.antt =====
-- Runs of the grants of src/auth-broker/app/adapters/sqlite.py and of the scopes of
-- src/auth-broker/app/auth/scopes.py.
use mathai_ai_swarm_memory.Common.{ℕ, ◌≡◌, ◌≤◌, refl, arith, true, List, [], ◌∷◌, some, String, ok}
use mathai_ai_swarm_memory.Broker.Store.{Datetime, is_before, empty_store}
use mathai_ai_swarm_memory.Broker.Families.{active_principal}
use mathai_ai_swarm_memory.Broker.Scopes.{
  is_member, roles, allowed_scopes, validate_role, eligibility, validate_scope, effective_scopes,
  validate_grant_ttl, effective_scopes-within,
}
use mathai_ai_swarm_memory.Broker.Grants.{
  insert_grant_locked, set_grant, set_grant_tx, revoke_grant, revoke_grant_tx,
}
use mathai_ai_swarm_memory.Broker.Grants.Single.{
  GrantCall, setting, allowing, run_calls, live_grants, one_live_grant,
}
use mathai_ai_swarm_memory.Broker.Principals.{
  Texts, cached_login, insert_principal_locked, checked_scopes, insert_grants, upsert_principal,
  allow_tx, allow_github_principal,
}

program : Unit {0}
unfolding active_principal validate_role eligibility validate_scope effective_scopes
    validate_grant_ttl insert_grant_locked set_grant set_grant_tx revoke_grant revoke_grant_tx
    cached_login insert_principal_locked checked_scopes insert_grants upsert_principal allow_tx
    allow_github_principal
program = tt

abbrev at : ℕ → Datetime
at n = record { instant = n; offset = some 1440 }

abbrev read_scope : String
read_scope = "ctx:read:pesquisa.tcc"

-- Every text is of digits, and the times are the order of the texts.
abbrev toy : Texts
toy = record {
  is_digits = λ s. true;
  precedes = is_before;
  dumps = λ members. "key";
  loads = λ s. [];
  thumbprint = λ s. "print";
}

abbrev drawn : ℕ → String
drawn n = "g"

abbrev twice : List GrantCall
twice =
    allowing drawn "7" "ada" "advisor" (read_scope ∷ []) (at 1) (at 9)
    ∷ setting "h" "github:7" read_scope (at 2) (at 9)
    ∷ []

grants_twice : live_grants "github:7" read_scope (run_calls toy twice empty_store) ≡ 1
unfolding program
grants_twice = refl

one_live_grant_example : live_grants "github:7" read_scope (run_calls toy twice empty_store) ≤ 1
one_live_grant_example = one_live_grant "github:7" read_scope toy twice empty_store (omega arith)

narrows :
    effective_scopes (read_scope ∷ "ctx:propose:pesquisa.tcc" ∷ []) (read_scope ∷ []) "advisor"
    ≡ ok (read_scope ∷ [])
unfolding program
narrows = refl

effective_scopes-within_example :
    (is_member read_scope (read_scope ∷ "ctx:propose:pesquisa.tcc" ∷ []) ≡ true)
    × (is_member read_scope (read_scope ∷ []) ≡ true)
    × (is_member read_scope allowed_scopes ≡ true)
    × (is_member "advisor" roles ≡ true)
effective_scopes-within_example =
    effective_scopes-within (read_scope ∷ "ctx:propose:pesquisa.tcc" ∷ []) (read_scope ∷ [])
      "advisor" (read_scope ∷ []) narrows read_scope refl
