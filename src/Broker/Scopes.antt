-- ===== src/Broker/Scopes.antt =====
-- src/auth-broker/app/auth/scopes.py: roles, scopes and the lifetime of a grant.
use mathai_ai_swarm_memory.Common.{
  ℕ, ◌+◌, ◌≡◌, refl, ap, ◌∙◌, sym, inl, inr, Bool, true, not, ◌&&◌, List, [], ◌∷◌, ◌++◌, Option,
  none, some, if◌then◌else◌, any, keep, is_empty, leb, String, str_eq, Result, ok, err, guard,
  ◌>>=◌, ◌>>◌, arith, Bool-cases, and_true, eq_iff, ok-injective, guard-passed, >>=-eq-ok,
}
use mathai_ai_swarm_memory.Broker.Store.{Datetime, is_before, Error, scope_error}

-- `scope in scopes`
abbrev pub is_member : String → List String → Bool
is_member x xs = any (λ y. str_eq y x) xs

abbrev pub roles : List String
roles = "owner" ∷ "self-harness" ∷ "advisor" ∷ []

abbrev pub allowed_scopes : List String
allowed_scopes = "ctx:read:pesquisa.tcc" ∷ "ctx:propose:pesquisa.tcc" ∷ []

-- 90 days in microseconds.
abbrev pub max_grant_ttl : ℕ
max_grant_ttl = 7776000000000

unfoldable pub validate_role : String → Result Error String
validate_role role = do guard (is_member role roles) scope_error; ok role

unfoldable pub eligibility : String → Result Error (List String)
eligibility role = do checked ← validate_role role; ok allowed_scopes

-- `validate_scope(scope, role=role)`; without a role, only the grammar.
unfoldable pub validate_scope : String → Option String → Result Error String
validate_scope scope none = do guard (is_member scope allowed_scopes) scope_error; ok scope
validate_scope scope (some role) = do
  guard (is_member scope allowed_scopes) scope_error
  eligible ← eligibility role
  guard (is_member scope eligible) scope_error
  ok scope

-- The loop of `requested_scopes`; an item that is not a string is none.
unfoldable pub collect_scopes : List String → List (Option String) → Result Error (List String)
collect_scopes seen [] = ok seen
collect_scopes seen (none ∷ items) = err scope_error
collect_scopes seen (some item ∷ items) = do
  scope ← validate_scope item none
  collect_scopes (if is_member scope seen then seen else seen ++ scope ∷ []) items

-- `requested_scopes(raw)`; what is no list is none.
unfoldable pub requested_scopes : Option (List (Option String)) → Result Error (List String)
requested_scopes none = err scope_error
requested_scopes (some items) = do guard (not (is_empty items)) scope_error; collect_scopes [] items

unfoldable pub effective_scopes : List String → List String → String → Result Error (List String)
effective_scopes requested granted role = do
  allowed ← eligibility role
  let matched = keep (λ scope. is_member scope granted && is_member scope allowed) requested
  guard (not (is_empty matched)) scope_error
  ok matched

unfoldable pub validate_grant_ttl : Datetime → Datetime → Result Error (Unit {0})
validate_grant_ttl now expires_at = do
  guard (is_before now expires_at) scope_error
  guard (leb expires_at.instant (now.instant + max_grant_ttl)) scope_error

keep-member :
    (p : String → Bool) (x : String) (xs : List String)
    → is_member x (keep p xs) ≡ true
    → (is_member x xs ≡ true) × (p x ≡ true)
keep-member p x [] h = cc
keep-member p x (y ∷ ys) h = elim (Bool-cases (p y)) [
  | inl passes ↦ elim (Bool-cases (str_eq y x)) [
    | inl same ↦ let name : y ≡ x = (eq_iff y x).0 same in (rw same refl, ap p (sym name) ∙ passes)
    | inr differs ↦
        let rest : is_member x (keep p ys) ≡ true = ground arith in
        let found = keep-member p x ys rest in (rw differs found.0, found.1)
  ]
  | inr fails ↦
      let rest : is_member x (keep p ys) ≡ true = ground arith in
      let found = keep-member p x ys rest in (ground (arith, found.0), found.1)
]

-- Every effective scope was requested, is granted and is one of the allowed scopes, and the role is
-- a known one.
pub effective_scopes-within :
    (requested granted : List String) (role : String) (scopes : List String)
    → effective_scopes requested granted role ≡ ok scopes
    → (scope : String) → is_member scope scopes ≡ true
    → (is_member scope requested ≡ true)
      × (is_member scope granted ≡ true)
      × (is_member scope allowed_scopes ≡ true)
      × (is_member role roles ≡ true)
unfolding effective_scopes eligibility validate_role
effective_scopes-within requested granted role scopes h scope member =
    let test = λ (s : String). is_member s granted && is_member s allowed_scopes in
    let (allowed, e1, h1) = >>=-eq-ok (eligibility role) _ h in
    let (known, e2, h2) = >>=-eq-ok (validate_role role) _ e1 in
    let (u, e3, h3) = >>=-eq-ok (guard (is_member role roles) scope_error) _ e2 in
    let lists : allowed_scopes ≡ allowed = ok-injective h2 in
    let next : List String → Result Error (List String) = λ names.
      let kept = keep (λ scope. is_member scope granted && is_member scope names) requested in
      guard (not (is_empty kept)) scope_error >> ok kept in
    let h1' : next allowed_scopes ≡ ok scopes = ap next lists ∙ h1 in
    let (v, e4, h4) = >>=-eq-ok (guard (not (is_empty (keep test requested))) scope_error) _ h1' in
    let matched : keep test requested ≡ scopes = ok-injective h4 in
    let found = keep-member test scope requested (ap (is_member scope) matched ∙ member) in
    let both = and_true _ _ found.1 in (found.0, both.0, both.1, guard-passed _ scope_error u e3)
