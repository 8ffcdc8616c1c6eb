-- ===== src/Dispatch/Claims/Files.antt =====
-- The claim files of src/reports/swarm_reports/dispatch/claims.py: what `_parse_claim` reads of what
-- `_write` has written, and the files of other claims.
use mathai_ai_swarm_memory.Common.{
  ◌≡◌, refl, ap, ◌∙◌, sym, Bool, true, false, not, ◌&&◌, any, length, is_blank, [], ◌∷◌, Option,
  none, some, inl, inr, Bool-cases, Option-cases, ◌>>=◌, leb, if◌then◌else◌, Codes, codes_eq,
  codes_eq→≡, codes_eq_refl, Result, ok, err, guard, ok-injective, >>=-eq-ok, arith,
}
use mathai_ai_swarm_memory.Dispatch.State.{
  Formats, Payload, ℤ, pos, negsuc, is_control, has_date_form, Error, validate_id,
  validate_iso_date, state_key,
}
use mathai_ai_swarm_memory.Dispatch.Claims.{
  Status, pending, running, done, failed, DispatchClaim, Directory, status_text, read_status,
  read_attempt, read_pid, read_optional_text, optional_text, optional_int, to_payload, read_json,
  write_json, parse_claim, load,
}

pub read_json-write_json :
    (key : Codes) (payload : Payload) (files : Directory)
    → read_json key (write_json key payload files) ≡ some payload
read_json-write_json key payload [] = rw (codes_eq_refl key) refl
read_json-write_json key payload (file ∷ files) = elim (Bool-cases (codes_eq file.0 key)) [
  | inl same ↦ rw same (rw (codes_eq_refl key) refl)
  | inr differs ↦ rw differs (rw differs (read_json-write_json key payload files))
]

-- A write leaves the files of other names.
pub read_json-write_json_other :
    (key other : Codes) (payload : Payload) (files : Directory)
    → codes_eq other key ≡ false
    → read_json key (write_json other payload files) ≡ read_json key files
read_json-write_json_other key other payload [] differs = rw differs refl
read_json-write_json_other key other payload (file ∷ files) differs =
    elim (Bool-cases (codes_eq file.0 other)) [
      | inl same ↦
          let name : file.0 ≡ other = codes_eq→≡ file.0 other same in
          rw same (rw differs (rw name (rw differs refl)))
      | inr not_it ↦ rw not_it (
          ap (λ rest. if codes_eq file.0 key then some file.1 else rest)
            (read_json-write_json_other key other payload files differs))
    ]

read_status-status_text : (status : Status) → read_status (status_text status) ≡ ok status
unfolding read_status
read_status-status_text pending = refl
read_status-status_text running = refl
read_status-status_text done = refl
read_status-status_text failed = refl

read_optional_text-optional_text :
    (s : Option Codes) → read_optional_text (some (optional_text s)) ≡ ok s
read_optional_text-optional_text none = refl
read_optional_text-optional_text (some s) = refl

-- A pid is missing or positive.
abbrev pub is_pid : Option ℤ → Bool
is_pid none = true
is_pid (some (pos n)) = leb 1 n
is_pid (some (negsuc n)) = false

read_pid-optional_int :
    (pid : Option ℤ) → is_pid pid ≡ true → read_pid (some (optional_int pid)) ≡ ok pid
read_pid-optional_int none h = refl
read_pid-optional_int (some (pos n)) h = rw h refl
read_pid-optional_int (some (negsuc n)) h = absurd (ground arith)

-- A text that can be an id: it is short, not blank and has no control character.
abbrev pub is_id : Codes → Bool
is_id value = not (is_blank value) && leb (length value) 200 && not (any is_control value)

is_id-ok : (value : Codes) → is_id value ≡ true → validate_id value ≡ ok value
unfolding validate_id
is_id-ok value h = ground arith

pub validate_id-ok : (value result : Codes) → validate_id value ≡ ok result → result ≡ value
unfolding validate_id
validate_id-ok value result h = ground arith

module _ (formats : Formats) where
  is_date-ok :
      (value : Codes)
      → (has_date_form value && formats.is_date value) ≡ true
      → validate_iso_date formats value ≡ ok value
  unfolding validate_iso_date
  is_date-ok value h = ground arith

  pub validate_iso_date-ok :
      (value result : Codes) → validate_iso_date formats value ≡ ok result → result ≡ value
  unfolding validate_iso_date
  validate_iso_date-ok value result h = ground arith

  -- What a claim needs to be read again: a date of ten places and a time of the formats, names that are short and
  -- not blank and have no control character, an attempt, and no pid or a positive one.
  pub record IsValid (c : DispatchClaim) : Type 0 where
    pub date : (has_date_form c.date && formats.is_date c.date) ≡ true
    pub task_id : is_id c.task_id ≡ true
    pub provider : is_id c.provider ≡ true
    pub attempt : leb 1 c.attempt ≡ true
    pub updated_at : formats.is_datetime c.updated_at ≡ true
    pub pid : is_pid c.pid ≡ true

  -- A claim that is written is read back as itself when its date has the form of a day and is a
  -- date of the formats, its time is of the formats,
  -- its task and its provider are not blank, at most 200 characters long and without control
  -- characters, its attempt is at least 1, and it names no pid or a positive one.
  pub parse_claim-to_payload :
      (c : DispatchClaim) → IsValid c → parse_claim formats (to_payload c) ≡ ok c
  unfolding parse_claim
  parse_claim-to_payload c v = rw (read_status-status_text c.status) (
      rw v.attempt (
        rw (read_pid-optional_int c.pid v.pid) (
          rw (read_optional_text-optional_text c.process_token) (
            rw (read_optional_text-optional_text c.error) (
              rw v.updated_at (
                rw (is_date-ok c.date v.date) (
                  rw (is_id-ok c.task_id v.task_id)
                    (rw (is_id-ok c.provider v.provider) refl))))))))

  -- What a claim that was read has passed.
  record Passed (c c' : DispatchClaim) : Type 0 where
    date : validate_iso_date formats c.date ≡ ok c'.date
    task_id : validate_id c.task_id ≡ ok c'.task_id
    provider : validate_id c.provider ≡ ok c'.provider
    status : c'.status ≡ c.status
    attempt : c'.attempt ≡ c.attempt

  parse_claim-Passed :
      (c c' : DispatchClaim) → parse_claim formats (to_payload c) ≡ ok c' → Passed c c'
  unfolding parse_claim
  parse_claim-Passed c c' h =
      let (status, e1, h1) = >>=-eq-ok (read_status (status_text c.status)) _ h in
      let (attempt, e2, h2) = >>=-eq-ok (read_attempt (pos c.attempt)) _ h1 in
      let (pid, e3, h3) = >>=-eq-ok (read_pid (some (optional_int c.pid))) _ h2 in
      let (token, e4, h4) =
        >>=-eq-ok (read_optional_text (some (optional_text c.process_token))) _ h3 in
      let (error, e5, h5) = >>=-eq-ok (read_optional_text (some (optional_text c.error))) _ h4 in
      let (u, e6, h6) = >>=-eq-ok (guard (formats.is_datetime c.updated_at) _) _ h5 in
      let (date, e7, h7) = >>=-eq-ok (validate_iso_date formats c.date) _ h6 in
      let (task_id, e8, h8) = >>=-eq-ok (validate_id c.task_id) _ h7 in
      let (provider, e9, h9) = >>=-eq-ok (validate_id c.provider) _ h8 in
      let same : status ≡ c.status = ok-injective (sym e1 ∙ read_status-status_text c.status) in
      record {
        date =
            e7
            ∙ ap (λ (r : Result Error DispatchClaim). elim r [ err e ↦ err e | ok x ↦ ok x.date ])
                h9;
        task_id =
            e8
            ∙ ap
                (λ (r : Result Error DispatchClaim). elim r [ err e ↦ err e | ok x ↦ ok x.task_id ])
                h9;
        provider =
            e9
            ∙ ap
                (λ (r : Result Error DispatchClaim). elim r [
                  | err e ↦ err e
                  | ok x ↦ ok x.provider
                ])
                h9;
        status = ground (arith);
        attempt = ground (arith);
      }

  -- What was written is read back with its date, task, status and attempt, or not at all.
  pub record IsSame (c c' : DispatchClaim) : Type 0 where
    pub date : c'.date ≡ c.date
    pub task_id : c'.task_id ≡ c.task_id
    pub status : c'.status ≡ c.status
    pub attempt : c'.attempt ≡ c.attempt

  pub parse_claim-IsSame :
      (c c' : DispatchClaim) → parse_claim formats (to_payload c) ≡ ok c' → IsSame c c'
  parse_claim-IsSame c c' h =
      let passed = parse_claim-Passed c c' h in
      record {
        date = validate_iso_date-ok c.date c'.date passed.date;
        task_id = validate_id-ok c.task_id c'.task_id passed.task_id;
        status = passed.status;
        attempt = passed.attempt;
      }

  -- A claim that is loaded is what its file says.
  pub load-some :
      (date task_id : Codes) (files : Directory) (c : DispatchClaim)
      → load formats date task_id files ≡ ok (some c)
      → (key : Codes) × (payload : Payload) × (state_key formats date task_id ≡ ok key)
        × (read_json key files ≡ some payload)
        × (parse_claim formats payload ≡ ok c)
  unfolding load
  load-some date task_id files c h =
      let (key, e1, h1) = >>=-eq-ok (state_key formats date task_id) _ h in
      elim (Option-cases (read_json key files)) [
        | inl lost ↦ absurd (ground arith)
        | inr (payload, found) ↦
            let h2 : (parse_claim formats payload >>= λ claim. ok (some claim)) ≡ ok (some c) =
              ground arith in
            let (claim, e3, h3) = >>=-eq-ok (parse_claim formats payload) _ h2 in
            (key, payload, e1, found, e3 ∙ ground arith)
      ]
