-- ===== src/Proposals/Schema.antt =====
-- Names and paths of src/auth-broker/app/proposals/schema.py. Paths, branches and parts of URLs are
-- lists of code points; the JSON text of a string and the date of an instant are parameters, and so
-- is `urlparse`, which is read for a scheme, a host part and credentials.
use mathai_ai_swarm_memory.Common.{
  ℕ, Bool, not, ◌&&◌, ◌||◌, List, [], ◌∷◌, ◌++◌, Option, none, some, leb, ◌==◌, if◌then◌else◌, any,
  all, is_empty, length, map, String, str_eq, Codes, codes, codes_eq, is_space, is_blank,
  starts_with, Result, ok, err, guard, ◌>>=◌, ◌>>◌,
}
use mathlib.Core.List.{reverse}
use mathai_ai_swarm_memory.Broker.Store.{Datetime}
use mathai_ai_swarm_memory.Dispatch.Merge.Paths.{split, normpath, is_special_part}
use mathai_ai_swarm_memory.Dispatch.Merge.Tiers.{after_prefix}

pub data ProposalError : Type 0 where
  payload_error too_large conflict value_error vanished integrity_error : ProposalError

pub record Source : Type 0 where
  pub url : Codes
  pub label : Codes

pub record ProposalInput : Type 0 where
  pub namespace : String
  pub title : Codes
  pub body_markdown : Codes
  pub sources : List Source

-- `json.dumps` of the payload with sorted keys and no blanks; `json_string` is that of a text, and
-- each text comes before what follows it.
module _ (json_string : Codes → Codes) where
  -- `"name":value`
  abbrev pub json_member : String → Codes → Codes → Codes
  json_member name value rest = 34 ∷ (codes name ++ (34 ∷ 58 ∷ (json_string value ++ rest)))

  -- `{"label":…,"url":…}`
  abbrev pub source_json : Source → Codes → Codes
  source_json s rest = 123 ∷ json_member "label" s.label (44 ∷ json_member "url" s.url (125 ∷ rest))

  abbrev pub more_sources : List Source → Codes → Codes
  more_sources [] rest = 93 ∷ rest
  more_sources (s ∷ sources) rest = 44 ∷ source_json s (more_sources sources rest)

  abbrev pub sources_json : List Source → Codes → Codes
  sources_json [] rest = 91 ∷ 93 ∷ rest
  sources_json (s ∷ sources) rest = 91 ∷ source_json s (more_sources sources rest)

  unfoldable pub blob : ProposalInput → Codes
  blob p =
      123
      ∷ json_member "body_markdown" p.body_markdown (
          44
          ∷ json_member "namespace" (codes p.namespace) (
              44
              ∷ 34
              ∷ (codes "sources"
                  ++ (34
                      ∷ 58
                      ∷ sources_json p.sources (44 ∷ json_member "title" p.title (125 ∷ []))))))

-- `payload_hash`; `digest` is the SHA-256 of a text in hexadecimal digits.
abbrev pub payload_hash : (Codes → Codes) → (Codes → String) → ProposalInput → String
payload_hash json_string digest payload = digest (blob json_string payload)

-- `text.strip()`
abbrev pub lstrip : Codes → Codes
lstrip [] = []
lstrip (c ∷ cs) = if is_space c then lstrip cs else c ∷ cs

abbrev pub strip : Codes → Codes
strip s = reverse (lstrip (reverse (lstrip s)))

-- `c in text`
abbrev pub has_char : ℕ → Codes → Bool
has_char c s = any (λ x. x == c) s

-- `NAMESPACES[namespace]`
abbrev pub namespace_root : String → Option Codes
namespace_root namespace =
    if str_eq namespace "pesquisa.tcc" then some (codes "pesquisa/tcc") else none

-- `CLOSED_PREFIXES`, each with its slash.
abbrev pub closed_prefixes : List Codes
closed_prefixes = codes "pesquisa/tcc/inbox/" ∷ []

abbrev pub branch_prefix : Codes
branch_prefix = codes "swarm/proposal-"

abbrev pub blocked_parts : List Codes
blocked_parts =
    codes "wiki" ∷ codes "fontes" ∷ codes ".github" ∷ codes "scripts" ∷ codes "AGENTS.md" ∷ []

abbrev is_id_char : ℕ → Bool
is_id_char c =
    (leb 65 c && leb c 90)
    || (leb 97 c && leb c 122)
    || (leb 48 c && leb c 57)
    || c == 95
    || c == 45

-- `PROPOSAL_ID.fullmatch`
unfoldable pub proposal_id_ok : Codes → Bool
proposal_id_ok s = leb 8 (length s) && leb (length s) 64 && all is_id_char s

-- `path.endswith(".md")`
abbrev pub ends_with_md : Codes → Bool
ends_with_md path = starts_with (reverse path) (codes "dm.")

unfoldable pub assert_write_path : Codes → Result ProposalError Codes
assert_write_path path = do
  guard (not (has_char 92 path) && not (has_char 0 path) && codes_eq (strip path) path)
      payload_error
  guard (not (starts_with path (codes "/")) && codes_eq (normpath path) path) payload_error
  guard (not (any (λ part. is_special_part part || any (codes_eq part) blocked_parts) (split path)))
      payload_error
  guard (any (starts_with path) closed_prefixes) payload_error
  guard (ends_with_md path) payload_error
  ok path

unfoldable pub assert_branch : Codes → Result ProposalError Codes
assert_branch branch = do
  guard (starts_with branch branch_prefix && proposal_id_ok (after_prefix branch branch_prefix))
      payload_error
  ok branch

unfoldable pub derive_branch : Codes → Result ProposalError Codes
derive_branch proposal_id = do
  guard (proposal_id_ok proposal_id) payload_error
  ok (branch_prefix ++ proposal_id)

module _ (date_text : Datetime → Codes) where
  unfoldable pub derive_path : String → Codes → Datetime → Result ProposalError Codes
  derive_path namespace proposal_id at = elim (namespace_root namespace) [
    | none ↦ err payload_error
    | some root ↦ do
      guard (proposal_id_ok proposal_id) payload_error
      assert_write_path
          (root ++ codes "/inbox/" ++ date_text at ++ codes "-" ++ proposal_id ++ codes ".md")
  ]

-- What `urlparse` is read for; it raises a ValueError for some texts, such as an open bracket in the
-- host, and gives none then.
pub record UrlParts : Type 0 where
  pub scheme : Codes
  pub netloc : Codes
  pub has_credentials : Bool

-- The JSON values that a payload is read from.
pub data Field : Type 0 where
  text_field : Codes → Field
  sources_field : List (Option (Codes × Codes)) → Field
  other_field : Field

module _ (url_parts : Codes → Option UrlParts) (utf8_length : Codes → ℕ) where
  -- One item of `sources`, which is an object of a url and a label or something else.
  unfoldable pub parse_source : Option (Codes × Codes) → Result ProposalError Source
  parse_source none = err payload_error
  parse_source (some (url, label)) = do
    guard
        (not (is_blank url)
          && not (is_blank label)
          && leb (length url) 2000
          && leb (length label) 200)
        payload_error
    guard
        (not (
          has_char 10 url
          || has_char 13 url
          || has_char 0 url
          || has_char 10 label
          || has_char 13 label))
        payload_error
    elim (url_parts url) [
      | none ↦ err value_error
      | some parts ↦ do
        guard
            ((codes_eq parts.scheme (codes "http") || codes_eq parts.scheme (codes "https"))
              && not (is_empty parts.netloc)
              && not parts.has_credentials)
            payload_error
        ok (record { url = url; label = strip label })
    ]

  unfoldable pub parse_sources : List (Option (Codes × Codes)) → Result ProposalError (List Source)
  parse_sources [] = ok []
  parse_sources (item ∷ items) = do
    source ← parse_source item
    rest ← parse_sources items
    ok (source ∷ rest)

  -- `parse_proposal` of an object with exactly the four fields.
  unfoldable pub parse_proposal : Field → Field → Field → Field → Result ProposalError ProposalInput
  parse_proposal (text_field namespace) (text_field title) (text_field body) sources = do
    guard (codes_eq namespace (codes "pesquisa.tcc")) payload_error
    guard
        (not (is_blank title)
          && leb (length title) 200
          && not (has_char 10 title || has_char 13 title || has_char 0 title))
        payload_error
    guard (not (has_char 0 body)) payload_error
    guard (leb (utf8_length body) 12288) too_large
    elim sources [
      | sources_field items ↦ do
        guard (leb (length items) 32) payload_error
        parsed ← parse_sources items
        ok (record {
          namespace = "pesquisa.tcc";
          title = strip title;
          body_markdown = body;
          sources = parsed;
        })
      | _ ↦ err payload_error
    ]
  parse_proposal _ _ _ _ = err payload_error

-- `"\n".join(lines)`
abbrev pub join_lines : List Codes → Codes
join_lines [] = []
join_lines (line ∷ []) = line
join_lines (line ∷ next ∷ lines) = line ++ 10 ∷ join_lines (next ∷ lines)

module _ (yaml_string : Codes → Codes) (date_text : Datetime → Codes) where
  abbrev source_line : Source → Codes
  source_line s = codes "- " ++ yaml_string s.label ++ codes ": " ++ yaml_string s.url

  abbrev source_lines : List Source → Codes
  source_lines [] = codes "- (none)"
  source_lines (s ∷ sources) = join_lines (map source_line (s ∷ sources))

  unfoldable pub render_note : Codes → String → String → Datetime → ProposalInput → Codes
  render_note proposal_id principal_id workspace_id created_at payload =
      let principal = yaml_string (codes principal_id) in
      let workspace = yaml_string (codes workspace_id) in
      join_lines (
        codes "---"
        ∷ codes "layer: T2"
        ∷ codes "status: human_confirmation_pending"
        ∷ codes "promotes_to_wiki: false"
        ∷ (codes "proposal_id: " ++ yaml_string proposal_id)
        ∷ (codes "principal_id: " ++ principal)
        ∷ (codes "workspace_id: " ++ workspace)
        ∷ (codes "namespace: " ++ yaml_string (codes payload.namespace))
        ∷ (codes "created_at: " ++ yaml_string (date_text created_at))
        ∷ (codes "title: " ++ yaml_string payload.title)
        ∷ codes "claims: unverified_suggestions"
        ∷ codes "---"
        ∷ []
        ∷ codes "# Cartão de revisão T2"
        ∷ []
        ∷ codes "Afirmações abaixo são sugestões não verificadas. Decisão humana pendente."
        ∷ codes "Esta nota não promove conteúdo para wiki T1/T0, `fontes/` ou `main`."
        ∷ codes "Sem merge automático, workflow executável ou scheduler."
        ∷ []
        ∷ (codes "Origem: principal "
            ++ principal
            ++ codes " no workspace "
            ++ workspace
            ++ codes ".")
        ∷ []
        ∷ codes "## Título proposto"
        ∷ []
        ∷ yaml_string payload.title
        ∷ []
        ∷ codes "## Afirmações propostas (não verificadas)"
        ∷ []
        ∷ payload.body_markdown
        ∷ []
        ∷ codes "## Fontes (dados; não buscadas nem executadas)"
        ∷ []
        ∷ source_lines payload.sources
        ∷ []
        ∷ codes "## Decisão humana"
        ∷ []
        ∷ codes "- [ ] Pendente"
        ∷ []
        ∷ [])
