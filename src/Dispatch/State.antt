-- ===== src/Dispatch/State.antt =====
-- src/reports/swarm_reports/dispatch/statefile.py: validation of dates, ids and of the fields of a
-- JSON object. `date.fromisoformat`, `datetime.fromisoformat` and the digest are parameters.
use mathai_ai_swarm_memory.Common.{
  ℕ, Bool, false, not, ◌&&◌, ◌||◌, List, [], ◌∷◌, ◌++◌, Option, none, some, ltb, leb, ◌==◌, find,
  any, length, String, str_eq, Codes, codes, is_blank, Result, ok, err, guard, ◌>>=◌, ◌>>◌,
}

-- An integer of the program.
pub data ℤ : Type 0 where
  pos : ℕ → ℤ
  negsuc : ℕ → ℤ

-- A value of a JSON object; what is inside a nested one is never read.
pub data Json : Type 0 where
  null float_value array object : Json
  boolean : Bool → Json
  integer : ℤ → Json
  text : Codes → Json

abbrev pub Payload : Type 0
Payload = List (String × Json)

pub data Error : Type 0 where
  value_error state_error lookup_error duplicate_launch recovery_required stale_completion : Error

pub record Formats : Type 0 where
  -- `date.fromisoformat` and `datetime.fromisoformat` accept the text.
  pub is_date : Codes → Bool
  pub is_datetime : Codes → Bool
  -- The first 32 hexadecimal digits of the SHA-256 digest.
  pub digest : Codes → Codes

abbrev is_digit : ℕ → Bool
is_digit c = leb 48 c && leb c 57

-- `re.match(r"^\d{4}-\d{2}-\d{2}$", value)`, where other digits than the ASCII ones, which
-- `date.fromisoformat` refuses with the same error, are left out; `$` also matches before a last line
-- feed.
abbrev pub has_date_form : Codes → Bool
has_date_form (a ∷ b ∷ c ∷ d ∷ e ∷ f ∷ g ∷ h ∷ i ∷ j ∷ []) =
    is_digit a
    && is_digit b
    && is_digit c
    && is_digit d
    && e == 45
    && is_digit f
    && is_digit g
    && h == 45
    && is_digit i
    && is_digit j
has_date_form (a ∷ b ∷ c ∷ d ∷ e ∷ f ∷ g ∷ h ∷ i ∷ j ∷ k ∷ []) =
    is_digit a
    && is_digit b
    && is_digit c
    && is_digit d
    && e == 45
    && is_digit f
    && is_digit g
    && h == 45
    && is_digit i
    && is_digit j
    && k == 10
has_date_form _ = false

abbrev pub max_id_len : ℕ
max_id_len = 200

abbrev pub is_control : ℕ → Bool
is_control c = ltb c 32 || c == 127

unfoldable pub validate_id : Codes → Result Error Codes
validate_id value = do
  guard (not (is_blank value)) value_error
  guard (leb (length value) max_id_len) value_error
  guard (not (any is_control value)) value_error
  ok value

-- `payload.get(name)`, a missing field apart.
abbrev pub get : String → Payload → Option Json
get name payload = elim (find (λ (entry : String × Json). str_eq entry.0 name) payload) [
  | none ↦ none
  | some entry ↦ some entry.1
]

-- `require(payload, name, (int,))`: a bool is refused.
abbrev pub require_int : String → Payload → Result Error ℤ
require_int name payload = elim (get name payload) [ some (integer n) ↦ ok n | _ ↦ err state_error ]

-- `require(payload, name, (str,))`
abbrev pub require_text : String → Payload → Result Error Codes
require_text name payload = elim (get name payload) [ some (text s) ↦ ok s | _ ↦ err state_error ]

module _ (formats : Formats) where
  unfoldable pub validate_iso_date : Codes → Result Error Codes
  validate_iso_date value = do
    guard (has_date_form value) value_error
    guard (formats.is_date value) value_error
    ok value

  unfoldable pub state_key : Codes → Codes → Result Error Codes
  state_key date task_id = do
    valid_date ← validate_iso_date date
    valid_id ← validate_id task_id
    ok (date ++ codes "__" ++ formats.digest task_id)
