-- ===== src/Reason/Gate/Selection.antt =====
-- The choice of `_direct` of src/findociq/reason/evidence_gate.py among what its loops give, and the whole
-- of it.
pub mod Rows
pub mod Laws
pub mod Choice
pub mod Grouping
pub mod Support
use fin_docs_analysis_evals.Common.{
  string_eq, nat_eq, str_lt, sorted, nat_beq, ℕ, ltb, max, String, Bool, true, false, not, ◌&&◌,
  ◌||◌, ◌==◌, Option, none, some, List, [], ◌∷◌, ◌++◌, map, all, any, keep, is_empty, is_some,
  contains, length, Result, ok, err, ◌>>=◌, ◌>>◌, raise_if, if◌then◌else◌,
}
use fin_docs_analysis_evals.Common.Dict.{Dict, lookup}
use fin_docs_analysis_evals.Ingest.Schema.{Text, Chunk, text_of, id_of}
use fin_docs_analysis_evals.Reason.Decimal.{Decimal, one_decimal}
use fin_docs_analysis_evals.Common.Int.{eqb_ℤ}
use fin_docs_analysis_evals.Reason.Exec.{
  Code, metric_missing, metric_not_allowed, latest_period_missing, conflicting_values, Raised,
  evidence, key_error, value_error,
}
use fin_docs_analysis_evals.Reason.Gate.Policy.{Kind, MetricRule}
use fin_docs_analysis_evals.Reason.Gate.Profile.{DocumentProfile, joined, distinct, sole, matches}
use fin_docs_analysis_evals.Reason.Gate.Sections.{SectionClassification, classify_sections}
use fin_docs_analysis_evals.Reason.Gate.Basis.{BasisResolution, sharing_page, resolve_basis}
use fin_docs_analysis_evals.Reason.Gate.Sources.{
  BasisInterpretation, Row, Gate, document_ambiguous, entity_ambiguous_error, period_ambiguous,
  Documents, group_documents, rule_for, shares, profiles, choose_sources, chunks_of, latest_year,
}
use fin_docs_analysis_evals.Reason.Gate.Direct.{
  Value, number, words, Evidence, Context, or_empty_text, unit_ambiguous, incompatible, is_money,
  is_percent, unit_of, same_period, recent_rows, had_older, on_section, evidence_of,
}
use fin_docs_analysis_evals.Reason.Gate.Selection.Rows.{
  Found, optional_text, basis_name, read_sources,
}

abbrev pub later_period : ℕ → Option ℕ → ℕ
later_period y none = y
later_period y (some z) = max y z

abbrev pub newest : Option ℕ → List Evidence → Option ℕ
newest y [] = y
newest none (e ∷ es) = newest e.period es
newest (some y) (e ∷ es) = newest (some (later_period y e.period)) es

abbrev pub same_codes : Text → Text → Bool
same_codes [] [] = true
same_codes (a ∷ s) (b ∷ t) = nat_beq a b && same_codes s t
same_codes _ _ = false

-- Equality of the texts of two values: `format(x, "f")` prints every digit that is kept.
abbrev pub same_print : Value → Value → Bool
same_print (number a) (number b) = eqb_ℤ a.coefficient b.coefficient && nat_beq a.scale b.scale
same_print (words s) (words t) = same_codes s t
same_print _ _ = false

module _ (g : Gate) (is_whole : Decimal → Bool) (region_of : Value → Result Raised Value)
    (resolve_link : BasisInterpretation
      → Chunk
      → List Chunk
      → Option ℕ
      → Result Raised BasisResolution) where
  -- A specific activity outranks a generic one.
  abbrev pub preferred : List Evidence → List Evidence → List Evidence
  preferred [] es = es
  preferred (n ∷ ns) es = n ∷ ns

  -- The evidence of the newest period, which is the latest of the sources.
  abbrev pub of_year : Option ℕ → Option ℕ → List Evidence → Result Raised (List Evidence)
  of_year latest none es = err value_error
  of_year latest (some y) es =
      raise_if (is_some latest && not (same_period latest (some y)))
        (evidence latest_period_missing)
      >> ok (keep (λ e. same_period e.period (some y)) es)

  unfoldable pub of_newest : MetricRule → Option ℕ → List Evidence → Result Raised (List Evidence)
  of_newest rule latest es =
      if rule.require_period then of_year latest (newest none es) es else ok es

  -- A borrower's names are compared as identities.
  abbrev pub same_shown : String → Value → Value → Bool
  same_shown metric a b =
      if metric == "borrower_name"
      then g.reader.identity (or_empty_text g is_whole a)
        == g.reader.identity (or_empty_text g is_whole b)
      else same_print a b

  abbrev pub agrees : String → Evidence → Evidence → Bool
  agrees metric a b =
      same_shown metric a.value b.value
      && a.unit == b.unit
      && same_period a.period b.period
      && optional_text (basis_name a.basis) (basis_name b.basis)

  abbrev pub cited_before : Evidence → Evidence → Bool
  cited_before a b =
      str_lt a.citation.document_id b.citation.document_id
      || (a.citation.document_id == b.citation.document_id
          && ltb a.citation.page_number b.citation.page_number)

  abbrev pub head_of : List Evidence → Result Raised Evidence
  head_of [] = err (evidence metric_missing)
  head_of (e ∷ es) = ok e

  -- All agree, and the one that is cited first stands for them.
  abbrev pub unanimous : String → List Evidence → Result Raised Evidence
  unanimous metric [] = err (evidence conflicting_values)
  unanimous metric (e ∷ es) =
      raise_if (not (all (agrees metric e) es)) (evidence conflicting_values)
      >> head_of (sorted cited_before (e ∷ es))

  unfoldable pub select : String → MetricRule → Option ℕ → Found → Result Raised Evidence
  unfolding of_newest
  select metric rule latest (older, []) =
      err (evidence (if older then latest_period_missing else metric_missing))
  select metric rule latest (older, e ∷ es) = do
    kept ← of_newest rule latest (preferred (keep (λ x. x.from_activities) (e ∷ es)) (e ∷ es))
    unanimous metric kept

  abbrev pub with_rule : Option MetricRule → Result Raised MetricRule
  with_rule none = err (evidence metric_not_allowed)
  with_rule (some rule) = ok rule

  -- `_direct`
  unfoldable pub direct_evidence : String → List Chunk → Result Raised Evidence
  unfolding read_sources select group_documents choose_sources latest_year classify_sections
  direct_evidence metric chunks = do
    rule ← with_rule (rule_for g.policy metric)
    docs ← group_documents chunks []
    sections ← classify_sections g.reader g.dump g.cite chunks g.policy.section_patterns
    chosen ← choose_sources g rule (profiles g docs)
    latest ← latest_year g rule docs chosen.0
    found ←
        read_sources g is_whole region_of resolve_link metric rule chosen.1 latest sections docs
          chosen.0
    select metric rule latest found
