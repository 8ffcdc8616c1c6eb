-- ===== src/Broker/Principals/Rows.antt =====
-- The rows of principals and their public keys: `_principal_row`, `_public_jwk`, `_cached_login` and
-- `_insert_principal_locked` of src/auth-broker/app/adapters/sqlite.py.
use Prim.Native.Nat.{Ordering}
use mathai_ai_swarm_memory.Common.{
  Bool, true, false, not, ◌&&◌, List, [], ◌∷◌, ◌++◌, Option, none, some, ◌==◌, if◌then◌else◌, find,
  any, String, str_eq, string_append, is_unset, codes, is_space, compare_text, Result, ok, err,
  guard, ◌>>=◌, ◌>>◌,
}
use mathai_ai_swarm_memory.Broker.Store.{
  Datetime, Error, value_error, integrity_error, PrincipalRow, principal_added, Store, is_null,
}
use mathai_ai_swarm_memory.Broker.Scopes.{is_member}

-- A public key in JSON: its members, of which those that are not strings are never read.
pub data JwkValue : Type 0 where
  jwk_text : String → JwkValue
  jwk_other : JwkValue

abbrev pub Jwk : Type 0
Jwk = List (String × JwkValue)

-- The members that are stored, all of them strings.
abbrev pub KeyMembers : Type 0
KeyMembers = List (String × String)

-- What the standard library does with texts: `str.isdigit`, the order of the ISO texts of datetimes,
-- the sorted and compact JSON text of a key and its reading, and the base64url of the SHA-256 of
-- such a text.
pub record Texts : Type 0 where
  pub is_digits : String → Bool
  pub precedes : Datetime → Datetime → Bool
  pub dumps : KeyMembers → String
  pub loads : String → KeyMembers
  pub thumbprint : String → String

-- `Principal`: a key that is not enrolled is none.
pub record Principal : Type 0 where
  pub id : String
  pub github_subject : String
  pub jwk_thumbprint : Option String
  pub jwk : Option KeyMembers
  pub role : String
  pub created_at : Datetime
  pub revoked_at : Option Datetime
  pub github_login : Option String

-- `text or None`
abbrev pub or_none : String → Option String
or_none s = if is_unset s then none else some s

abbrev pub has_id : String → PrincipalRow → Bool
has_id principal_id p = str_eq p.id principal_id

-- `_cached_login`
unfoldable pub cached_login : Option String → Result Error (Option String)
cached_login none = ok none
cached_login (some login) = do
  guard
      (not (is_unset login)
        && not (any (λ c. c == 47) (codes login))
        && not (any is_space (codes login)))
      value_error
  ok (some login)

-- `_grant_audit` of a principal.
abbrev pub principal_audit : Datetime → String → Store → Store
principal_audit at principal_id st = record st {
  grant_audit_events =
      st.grant_audit_events
      ++ record {
        event_type = principal_added;
        occurred_at = at;
        principal_id = some principal_id;
        scope = none;
        family_id = none;
      }
        ∷ [];
}

-- `_insert_principal_locked`
unfoldable pub insert_principal_locked : PrincipalRow → Store → Result Error Store
insert_principal_locked row st = do
  guard (not (any (has_id row.id) st.principals)) integrity_error
  ok (principal_audit row.created_at row.id (record st { principals = st.principals ++ row ∷ [] }))

-- `github:{subject}`
abbrev pub canonical_id : String → String
canonical_id github_subject = string_append "github:" github_subject

-- `WHERE github_subject = ? AND revoked_at IS NULL`
abbrev pub is_active_subject : String → PrincipalRow → Bool
is_active_subject github_subject p = str_eq p.github_subject github_subject && is_null p.revoked_at

-- `ORDER BY created_at, id`, by a stable insertion of the rows.
abbrev pub insert_ordered {ℓ} : {A : Type ℓ} → (A → A → Bool) → A → List A → List A
insert_ordered sorts_before x [] = x ∷ []
insert_ordered sorts_before x (y ∷ ys) =
    let rest = insert_ordered sorts_before x ys in if sorts_before y x then y ∷ rest else x ∷ y ∷ ys

abbrev pub ordered {ℓ} : {A : Type ℓ} → (A → A → Bool) → List A → List A
ordered sorts_before [] = []
ordered sorts_before (x ∷ xs) = insert_ordered sorts_before x (ordered sorts_before xs)

-- `a < b` of texts in SQLite's binary collation.
abbrev pub text_before : String → String → Bool
text_before a b = elim (compare_text a b) [ Ordering.lt ↦ true | _ ↦ false ]

abbrev private_members : List String
private_members = "d" ∷ "p" ∷ "q" ∷ "dp" ∷ "dq" ∷ "qi" ∷ "oth" ∷ "priv" ∷ "k" ∷ []

-- `jwk.get(name)`, when it is a string.
abbrev pub member : String → Jwk → Option String
member name [] = none
member name (m ∷ jwk) =
    let rest = member name jwk in
    if str_eq m.0 name then (elim m.1 [ jwk_text s ↦ some s | jwk_other ↦ none ]) else rest

-- The public members that `public_jwk_thumbprint` accepts, and `_public_jwk` stores.
unfoldable pub public_members : Jwk → Result Error KeyMembers
public_members jwk = do
  guard (not (any (λ (m : String × JwkValue). is_member m.0 private_members) jwk)) value_error
  elim (member "kty" jwk) [
    | none ↦ err value_error
    | some kty ↦ elim (member "crv" jwk) [
      | none ↦ err value_error
      | some crv ↦ elim (member "x" jwk) [
        | none ↦ err value_error
        | some x ↦
            if str_eq kty "EC"
            then (elim (member "y" jwk) [
              | none ↦ err value_error
              | some y ↦
                  if str_eq crv "P-256"
                  then ok (("crv", crv) ∷ ("kty", "EC") ∷ ("x", x) ∷ ("y", y) ∷ [])
                  else err value_error
            ])
            else if str_eq kty "OKP" && str_eq crv "Ed25519"
            then ok (("crv", crv) ∷ ("kty", "OKP") ∷ ("x", x) ∷ [])
            else err value_error
      ]
    ]
  ]

module _ (texts : Texts) where
  -- `_public_jwk`
  unfoldable pub public_jwk : Jwk → Result Error (KeyMembers × String)
  public_jwk jwk = do
    stored ← public_members jwk
    ok (stored, texts.thumbprint (texts.dumps stored))

  -- `_principal_row`
  unfoldable pub principal_row : PrincipalRow → Principal
  principal_row row = record {
    id = row.id;
    github_subject = row.github_subject;
    jwk_thumbprint = if is_unset row.jwk then none else or_none row.jwk_thumbprint;
    jwk = if is_unset row.jwk then none else some (texts.loads row.jwk);
    role = row.role;
    created_at = row.created_at;
    revoked_at = row.revoked_at;
    github_login = (elim row.github_login [ none ↦ none | some login ↦ or_none login ]);
  }

  unfoldable pub get_principal : String → Store → Option Principal
  get_principal principal_id st = elim (find (has_id principal_id) st.principals) [
    | none ↦ none
    | some row ↦ some (principal_row row)
  ]

  -- The columns of `_jwk_columns`: the JSON text and the thumbprint, empty without a key.
  unfoldable pub jwk_columns : Option Jwk → Result Error (String × String)
  jwk_columns none = ok ("", "")
  jwk_columns (some jwk) = do key ← public_jwk jwk; ok (texts.dumps key.0, key.1)

  abbrev pub new_principal :
      String → String → String → Datetime → String × String → Option String → PrincipalRow
  new_principal principal_id github_subject role now columns login = record {
    id = principal_id;
    github_subject = github_subject;
    jwk_thumbprint = columns.1;
    jwk = columns.0;
    role = role;
    created_at = now;
    revoked_at = none;
    github_login = login;
  }
