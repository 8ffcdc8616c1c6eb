-- ===== src/Broker/PrincipalTests.antt =====
-- Runs of the principals of src/auth-broker/app/adapters/sqlite.py on concrete inputs.
use mathai_ai_swarm_memory.Common.{ℕ, ◌≡◌, refl, List, [], ◌∷◌, some, none, String, ok, true}
use mathai_ai_swarm_memory.Broker.Store.{Datetime, is_before, Store, empty_store}
use mathai_ai_swarm_memory.Broker.Scopes.{
  validate_role, eligibility, validate_scope, validate_grant_ttl,
}
use mathai_ai_swarm_memory.Broker.Grants.{insert_grant_locked}
use mathai_ai_swarm_memory.Broker.Principals.{
  Texts, Jwk, jwk_text, Principal, principal_row, cached_login, insert_principal_locked,
  public_members, public_jwk, get_principal, jwk_columns, add_principal, add_principal_tx,
  choose_principal, get_principal_by_github_subject, enroll_tx, enroll_principal_key,
  checked_scopes, insert_grants, upsert_principal, allow_tx, allow_github_principal, list_grants,
  active_grant_scopes,
}
use mathai_ai_swarm_memory.Broker.Principals.Enrolled.{
  PrincipalCall, enrolling, allowing, run_calls, enrolled_key_stays,
}
use mathai_ai_swarm_memory.Broker.Principals.Subjects.{IsOf, get_principal_by_github_subject-IsOf}

program : Unit {0}
unfolding validate_role eligibility validate_scope validate_grant_ttl insert_grant_locked
    principal_row cached_login insert_principal_locked public_members public_jwk get_principal
    jwk_columns add_principal add_principal_tx choose_principal get_principal_by_github_subject
    enroll_tx enroll_principal_key checked_scopes insert_grants upsert_principal allow_tx
    allow_github_principal list_grants active_grant_scopes
program = tt

abbrev at : ℕ → Datetime
at n = record { instant = n; offset = some 1440 }

abbrev toy : Texts
toy = record {
  is_digits = λ s. true;
  precedes = is_before;
  dumps = λ members. "key";
  loads = λ s. [];
  thumbprint = λ s. "print";
}

abbrev read_scope : String
read_scope = "ctx:read:pesquisa.tcc"

abbrev ids : ℕ → String
ids n = "grant"

abbrev allowed : Store
allowed =
    (allow_github_principal toy ids "7" "ada" "advisor" (read_scope ∷ []) (at 1) (at 9)
      empty_store).1

abbrev principal : Principal
principal = record {
  id = "github:7";
  github_subject = "7";
  jwk_thumbprint = none;
  jwk = none;
  role = "advisor";
  created_at = at 1;
  revoked_at = none;
  github_login = some "ada";
}

finds : get_principal_by_github_subject toy "7" allowed ≡ ok (some principal)
unfolding program
finds = refl

grants : active_grant_scopes toy "github:7" (at 5) allowed ≡ ok (read_scope ∷ [])
unfolding program
grants = refl

get_principal_by_github_subject-IsOf_example : IsOf "7" principal
get_principal_by_github_subject-IsOf_example =
    get_principal_by_github_subject-IsOf toy "7" allowed principal finds

abbrev public_key : Jwk
public_key = ("kty", jwk_text "OKP") ∷ ("crv", jwk_text "Ed25519") ∷ ("x", jwk_text "abc") ∷ []

abbrev enrolled : Principal
enrolled = record principal { jwk_thumbprint = some "print"; jwk = some [] }

abbrev with_key : Store
with_key = (enroll_principal_key toy "github:7" public_key (at 2) allowed).1

enrolls : enroll_principal_key toy "github:7" public_key (at 2) allowed ≡ (ok enrolled, with_key)
unfolding program
enrolls = refl

abbrev later_calls : List PrincipalCall
later_calls =
    enrolling "github:7" public_key (at 3)
    ∷ allowing ids "7" "eve" "owner" (read_scope ∷ []) (at 4) (at 9)
    ∷ []

enrolled_key_stays_example :
    (q : Principal) × (get_principal toy "github:7" (run_calls toy later_calls with_key) ≡ some q)
    × (q.jwk ≡ some [])
    × (q.jwk_thumbprint ≡ some "print")
enrolled_key_stays_example =
    enrolled_key_stays toy (λ members. refl) "github:7" public_key (at 2) allowed with_key enrolled
      enrolls later_calls
