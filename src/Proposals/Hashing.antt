-- ===== src/Proposals/Hashing.antt =====
-- The hashed text of a payload (`payload_hash` of src/auth-broker/app/proposals/schema.py): two
-- payloads have the same text only when they are the same.

use Prim.Native.Char.{code}
use text.Mathlib.TextEquality.{Char-path}
use mathai_ai_swarm_memory.Common.{
  ℕ, ◌==◌, ◌≡◌, ◌≢◌, false, arith, refl, ap, List, [], ◌∷◌, ◌++◌, String, Codes, codes,
}
use mathai_ai_swarm_memory.Proposals.Schema.{
  Source, ProposalInput, json_member, source_json, more_sources, sources_json, blob,
}

tail_of : Codes → Codes
tail_of [] = []
tail_of (c ∷ cs) = cs

head_of : Codes → ℕ
head_of [] = 0
head_of (c ∷ cs) = c

pub tail-eq : (c d : ℕ) (s t : Codes) → c ∷ s ≡ d ∷ t → s ≡ t
unfolding tail_of
tail-eq c d s t h = ap tail_of h

pub head-eq : (c d : ℕ) (s t : Codes) → c ∷ s ≡ d ∷ t → c ≡ d
unfolding head_of
head-eq c d s t h = ap head_of h

pub heads_differ : (c d : ℕ) (s t : Codes) → (c == d) ≡ false → c ∷ s ≢ d ∷ t
heads_differ c d s t other h = let same = head-eq c d s t h in ground arith

prefix-eq : (p s t : Codes) → p ++ s ≡ p ++ t → s ≡ t
prefix-eq [] s t h = h
prefix-eq (c ∷ p) s t h = prefix-eq p s t (tail-eq c c (p ++ s) (p ++ t) h)

codes-eq : (s t : String) → codes s ≡ codes t → s ≡ t
codes-eq String.[] String.[] h = refl
codes-eq String.[] (String.◌∷◌ d t) h = cc
codes-eq (String.◌∷◌ c s) String.[] h = cc
codes-eq (String.◌∷◌ c s) (String.◌∷◌ d t) h =
    let first = Char-path c d (head-eq (code c) (code d) (codes s) (codes t) h) in
    let rest = codes-eq s t (tail-eq (code c) (code d) (codes s) (codes t) h) in
    λ i. String.◌∷◌ (first i) (rest i)

-- The JSON of a text says where it ends, and what the text is.
abbrev pub IsDelimited : (Codes → Codes) → Type 0
IsDelimited json_string =
    (s t x y : Codes) → json_string s ++ x ≡ json_string t ++ y → (s ≡ t) × (x ≡ y)

module _ (json_string : Codes → Codes) (delimited : IsDelimited json_string) where
  json_member-eq :
      (name : String) (s t x y : Codes)
      → json_member json_string name s x ≡ json_member json_string name t y
      → (s ≡ t) × (x ≡ y)
  json_member-eq name s t x y h =
      delimited s t x y
        (tail-eq 58 58 _ _ (tail-eq 34 34 _ _ (prefix-eq (codes name) _ _ (tail-eq 34 34 _ _ h))))

  source_json-eq :
      (s t : Source) (x y : Codes)
      → source_json json_string s x ≡ source_json json_string t y
      → (s ≡ t) × (x ≡ y)
  source_json-eq s t x y h =
      let (label, after) = json_member-eq "label" s.label t.label _ _ (tail-eq 123 123 _ _ h) in
      let (url, rest) = json_member-eq "url" s.url t.url _ _ (tail-eq 44 44 _ _ after) in
      (λ i. record { url = url i; label = label i }, tail-eq 125 125 x y rest)

  more_sources-eq :
      (ss ts : List Source) (x y : Codes)
      → more_sources json_string ss x ≡ more_sources json_string ts y
      → (ss ≡ ts) × (x ≡ y)
  more_sources-eq [] [] x y h = (refl, tail-eq 93 93 x y h)
  more_sources-eq [] (t ∷ ts) x y h = absurd (heads_differ 93 44 _ _ refl h)
  more_sources-eq (s ∷ ss) [] x y h = absurd (heads_differ 44 93 _ _ refl h)
  more_sources-eq (s ∷ ss) (t ∷ ts) x y h =
      let (one, after) = source_json-eq s t _ _ (tail-eq 44 44 _ _ h) in
      let (more, rest) = more_sources-eq ss ts x y after in (λ i. one i ∷ more i, rest)

  sources_json-eq :
      (ss ts : List Source) (x y : Codes)
      → sources_json json_string ss x ≡ sources_json json_string ts y
      → (ss ≡ ts) × (x ≡ y)
  sources_json-eq [] [] x y h = (refl, tail-eq 93 93 x y (tail-eq 91 91 _ _ h))
  sources_json-eq [] (t ∷ ts) x y h = absurd (heads_differ 93 123 _ _ refl (tail-eq 91 91 _ _ h))
  sources_json-eq (s ∷ ss) [] x y h = absurd (heads_differ 123 93 _ _ refl (tail-eq 91 91 _ _ h))
  sources_json-eq (s ∷ ss) (t ∷ ts) x y h =
      let (one, after) = source_json-eq s t _ _ (tail-eq 91 91 _ _ h) in
      let (more, rest) = more_sources-eq ss ts x y after in (λ i. one i ∷ more i, rest)

  pub blob-eq : (p q : ProposalInput) → blob json_string p ≡ blob json_string q → p ≡ q
  unfolding blob
  blob-eq p q h =
      let (body, after) =
        json_member-eq "body_markdown" p.body_markdown q.body_markdown _ _
          (tail-eq 123 123 _ _ h) in
      let (namespace, after') =
        json_member-eq "namespace" (codes p.namespace) (codes q.namespace) _ _
          (tail-eq 44 44 _ _ after) in
      let (sources, after'') = sources_json-eq p.sources q.sources _ _ (
        tail-eq 58 58 _ _ (
          tail-eq 34 34 _ _
            (prefix-eq (codes "sources") _ _ (tail-eq 34 34 _ _ (tail-eq 44 44 _ _ after'))))) in
      let (title, last) = json_member-eq "title" p.title q.title _ _ (tail-eq 44 44 _ _ after'') in
      let name = codes-eq p.namespace q.namespace namespace in
      λ i. record {
        namespace = name i;
        title = title i;
        body_markdown = body i;
        sources = sources i;
      }
