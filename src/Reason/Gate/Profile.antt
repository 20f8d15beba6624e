-- ===== src/Reason/Gate/Profile.antt =====
-- What a document says of itself: `_matches` and `profile` of src/findociq/reason/evidence_gate.py.
use fin_docs_analysis_evals.Common.{
  string_eq, nat_eq, ℕ, ltb, String, Bool, not, ◌==◌, Option, none, some, List, [], ◌∷◌, ◌++◌, map,
  any, keep, contains, length, if◌then◌else◌,
}
use fin_docs_analysis_evals.Ingest.Schema.{
  Text, Provenance, Chunk, text_chunk, table_chunk, text_of,
}
use fin_docs_analysis_evals.Ingest.Chunker.Blocks.{join_with}
use fin_docs_analysis_evals.Reason.Decimal.{Decimal}
use fin_docs_analysis_evals.Reason.Gate.Policy.{MetricRule, EvidencePolicy, PatternGroups}

-- What regular expressions, hashing and the calendar tell of a text.
pub record Reader : Type 0 where
  -- `re.search(pattern, text, re.I)`
  pub search : String → Text → Bool
  -- `re.search(pattern, text, re.I | re.M)`
  pub search_lines : String → Text → Bool
  -- `_identity`
  pub identity : Text → String
  -- the first groups of `re.finditer(pattern, text)`
  pub names_in : String → Text → List Text
  -- `_report_years`
  pub report_years : Text → List ℕ
  -- `_numeric_cell`
  pub numeric_cell : Text → Option Decimal
  -- `incorporation_date(text).isoformat()`; `none` is its `ValueError`
  pub iso_date : Text → Option Text
  -- the label of the rule followed by `%` on one line
  pub has_percent : MetricRule → Text → Bool

abbrev pub newline : Text
newline = 10 ∷ []

abbrev pub joined : List Chunk → Text
joined cs = join_with newline (map text_of cs)

abbrev pub provenance_of : Chunk → List Provenance
provenance_of (text_chunk c) = c.text_provenance
provenance_of (table_chunk c) = c.provenances

-- `set(xs)`, in the order of the first places
abbrev pub distinct {ℓ} : {A : Type ℓ} → (A → A → Bool) → List A → List A
distinct same [] = []
distinct same (x ∷ xs) = x ∷ keep (λ y. not (same x y)) (distinct same xs)

abbrev pub same_text : String → String → Bool
same_text a b = a == b

pub record DocumentProfile : Type 0 where
  pub profile_id : String
  pub types : List String
  pub entity_hash : Option String
  pub entity_ambiguous : Bool

abbrev pub on_page : ℕ → Chunk → Bool
on_page n c = any (λ p. p.page_number == n) (provenance_of c)

abbrev pub sole : List String → Option String
sole [] = none
sole (x ∷ []) = some x
sole (x ∷ (y ∷ ys)) = none

-- Types that a vendor's report may mention without being one.
abbrev pub mentioned_types : List String
mentioned_types =
    "audited_financials" ∷ "registration" ∷ "agreement" ∷ "utility_bill" ∷ "no_dues" ∷ []

abbrev pub own_types : List String → List String
own_types ts =
    if contains "financial_information_report" ts
    then keep (λ t. not (contains t mentioned_types)) ts
    else ts

module _ (r : Reader) where
  abbrev pub matches_any : List String → Text → Bool
  matches_any patterns text = any (λ p. r.search p text) patterns

  -- One of the patterns is found, where a line's ends count.
  abbrev pub declares : List String → Text → Bool
  declares patterns text = any (λ p. r.search_lines p text) patterns

  -- `_matches`: the names of the groups with a pattern that is found, in the order of the policy.
  unfoldable pub matches : Text → PatternGroups → List String
  matches text [] = []
  matches text ((key, patterns) ∷ groups) =
      let rest = matches text groups in if matches_any patterns text then key ∷ rest else rest

  abbrev pub identities_in : List String → Text → List String
  identities_in [] text = []
  identities_in (p ∷ ps) text = map r.identity (r.names_in p text) ++ identities_in ps text

  abbrev pub or_heading : List String → List String → List String
  or_heading [] heading = heading
  or_heading (x ∷ xs) heading = x ∷ xs

  abbrev pub first_pattern : List String → List String
  first_pattern [] = []
  first_pattern (p ∷ ps) = p ∷ []

  abbrev pub other_patterns : List String → List String
  other_patterns [] = []
  other_patterns (p ∷ ps) = ps

  -- The first pattern is an owner field anywhere; the others are read on the first page only.
  unfoldable pub identities : List Chunk → EvidencePolicy → List String
  identities chunks policy = distinct same_text (
      or_heading (identities_in (first_pattern policy.entity_patterns) (joined chunks))
        (identities_in (other_patterns policy.entity_patterns) (joined (keep (on_page 1) chunks))))

  -- `profile`; the policy has a first entity pattern
  unfoldable pub profile : String → List Chunk → EvidencePolicy → DocumentProfile
  unfolding matches identities
  profile document_id chunks policy = record {
    profile_id = document_id;
    types = own_types (matches (joined chunks) policy.document_types);
    entity_hash = sole (identities chunks policy);
    entity_ambiguous = ltb 1 (length (identities chunks policy));
  }
