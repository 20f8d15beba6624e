-- ===== src/Reason/Passes.antt =====
-- The two passes of the language model, src/findociq/reason/pass1_extract.py, pass2_reason.py and
-- pipeline.py: what it writes is checked against the chunks that were retrieved. The model, its prompts
-- and JSON are parameters, and so is what regular expressions find in a text.
pub mod Answer
pub mod Single
pub mod Laws
pub mod Runs
use fin_docs_analysis_evals.Common.{
  string_eq, nat_eq, ℕ, ◌+◌, String, Bool, true, false, not, ◌&&◌, ◌||◌, ◌==◌, Option, none, some,
  List, [], ◌∷◌, ◌++◌, map, all, any, keep, is_empty, contains, codes_eq, length, Result, ok, err,
  ◌>>=◌, ◌>>◌, raise_if, if◌then◌else◌,
}
use fin_docs_analysis_evals.Common.Dict.{Dict, lookup}
use fin_docs_analysis_evals.Ingest.Schema.{Text, Provenance, Chunk, text_of}
use fin_docs_analysis_evals.Ingest.Chunker.Split.{strip}
use fin_docs_analysis_evals.Ingest.Chunker.Blocks.{join_with}
use fin_docs_analysis_evals.Reason.Decimal.{Decimal, same_value}
use fin_docs_analysis_evals.Reason.Figure.{SourceCitation}
use fin_docs_analysis_evals.Reason.Gate.Profile.{provenance_of, distinct, same_text}
use fin_docs_analysis_evals.Reason.Gate.Citations.{
  Fraction, on_same_page, ground_citation, ground_citation_within, same_citation,
}
use fin_docs_analysis_evals.Retrieve.Keys.{occurs}

-- An extracted figure; the value is the text that the model gave.
pub record PassFigure : Type 0 where
  pub label : Text
  pub value : Text
  pub unit : Option Text
  pub period : Option Text
  pub citation : SourceCitation

-- `Pass1Extraction`
pub record Extraction : Type 0 where
  pub question : Text
  pub figures : List PassFigure

-- `Pass2EvidenceSelection`
pub record Selection : Type 0 where
  pub answer : Text
  pub evidence_ids : List String

pub record ReasonedAnswer : Type 0 where
  pub answer : Text
  pub citations : List SourceCitation

-- What a pass raises: `ValueError`, or an error of the client.
pub data PassError : Type 0 where
  value_error client_error : PassError

pub data Stage : Type 0 where
  single_pass pass1 pass2 pass2_retry : Stage

-- A JSON object of the model's response, with the type of its figures.
pub record Response (Item : Type 0) : Type 0 where
  -- the list under `figures`, where it is one
  pub items : Option (List Item)

-- The language model and what reads its words.
pub record Model (Item Prompt : Type 0) : Type 0 where
  pub complete : Stage → Prompt → Result PassError Text
  -- the question and the evidence, for a single pass too
  pub prompt1 : Text → List Chunk → Prompt
  pub prompt2 : Text → Extraction → Prompt
  -- the question, the extraction and the invalid response
  pub prompt_retry : Text → Extraction → Text → Prompt
  -- `_parse_json`; `none` is its `ValueError`
  pub parse_json : Text → Option (Response Item)
  -- `item.get("value")` where it is a text
  pub item_value : Item → Option Text
  -- `item.get("citation")` where it validates as a citation
  pub item_citation : Item → Option SourceCitation
  pub with_citation : SourceCitation → Item → Item
  -- `Pass1Extraction.model_validate`, with the question put in
  pub validate1 : Text → Response Item → Option Extraction
  -- `Pass2EvidenceSelection.model_validate(_parse_json(raw))`
  pub validate2 : Text → Option Selection
  -- `ReasonedAnswer.model_validate(_parse_json(raw))`
  pub validate_answer : Text → Option ReasonedAnswer
  -- `f"evidence_{index}"`
  pub evidence_id : ℕ → String
  pub cite : Provenance → SourceCitation
  pub casefold : Text → Text
  -- `_normalized_numbers`
  pub normalized_numbers : Text → List Decimal
  -- `_numeric_groups`: a number with its scaled variant
  pub numeric_groups : Text → List (List Decimal)
  -- `_grounding_terms`
  pub grounding_terms : Text → List Text

abbrev pub is_blank : Text → Bool
is_blank t = is_empty (strip t)

abbrev pub meets : List Decimal → List Decimal → Bool
meets xs ys = any (λ x. any (same_value x) ys) xs

abbrev pub concatenated : List (List Decimal) → List Decimal
concatenated [] = []
concatenated (g ∷ gs) = g ++ concatenated gs

abbrev pub loose_iou : Fraction
loose_iou = (1, 100)

abbrev pub space : Text
space = 32 ∷ []

abbrev pub or_invalid : {A : Type 0} → Option A → Result PassError A
or_invalid none = err value_error
or_invalid (some a) = ok a

module _ {Item Prompt : Type 0} (m : Model Item Prompt) where
  -- `_numeric_variants`
  abbrev pub numeric_variants : Text → List Decimal
  numeric_variants t = concatenated (m.numeric_groups t)

  abbrev pub allowed_citations : List Chunk → List SourceCitation
  allowed_citations [] = []
  allowed_citations (c ∷ hits) = map m.cite (provenance_of c) ++ allowed_citations hits

  -- The text occurs in the other, whatever the case.
  abbrev pub folded_in : Text → Text → Bool
  folded_in part whole = occurs (m.casefold part) (m.casefold whole)

  abbrev pub states_number : Text → Chunk → Bool
  states_number value c =
      length (m.normalized_numbers value) == 1
      && meets (numeric_variants value) (numeric_variants (text_of c))

  -- The chunk states the proposed value.
  abbrev pub text_matches : Text → Chunk → Bool
  text_matches value c =
      states_number value c
      || (is_empty (m.normalized_numbers value) && folded_in (strip value) (text_of c))

  -- The citation among the candidates: the only one, or the closest on the page that is proposed.
  abbrev pub snapped : Option SourceCitation → List SourceCitation → Option SourceCitation
  snapped none candidates = none
  snapped (some proposed) [] = none
  snapped (some proposed) (c ∷ []) = some c
  snapped (some proposed) (c ∷ (d ∷ cs)) = ground_citation_within loose_iou proposed (c ∷ (d ∷ cs))

  abbrev pub on_page_of : Option SourceCitation → List SourceCitation → List SourceCitation
  on_page_of none candidates = []
  on_page_of (some proposed) candidates = keep (on_same_page proposed) candidates

  abbrev pub unique_or_snapped : Option SourceCitation → List SourceCitation → Option SourceCitation
  unique_or_snapped proposed [] = none
  unique_or_snapped proposed (c ∷ []) = some c
  unique_or_snapped proposed (c ∷ (d ∷ cs)) = snapped proposed (on_page_of proposed (c ∷ (d ∷ cs)))

  -- `_unique_value_citation`
  abbrev pub unique_value_citation :
      Option Text → List Chunk → Option SourceCitation → Option SourceCitation
  unique_value_citation none hits proposed = none
  unique_value_citation (some value) hits proposed =
      if is_blank value
      then none
      else unique_or_snapped proposed
          (distinct same_citation (allowed_citations (keep (text_matches value) hits)))

  -- `_canonical_evidence_citation`
  abbrev pub canonical_evidence_citation :
      Option SourceCitation → List Chunk → Option SourceCitation
  canonical_evidence_citation proposed hits =
      snapped proposed (distinct same_citation (on_page_of proposed (allowed_citations hits)))

  abbrev pub or_canonical : Option SourceCitation → Option SourceCitation → Option SourceCitation
  or_canonical (some c) other = some c
  or_canonical none other = other

  abbrev pub replaced : Option SourceCitation → Item → Item
  replaced none item = item
  replaced (some c) item = m.with_citation c item

  abbrev pub repaired_item : List Chunk → Item → Item
  repaired_item hits item =
      replaced
        (or_canonical (unique_value_citation (m.item_value item) hits (m.item_citation item))
          (canonical_evidence_citation (m.item_citation item) hits))
        item

  abbrev pub repaired_items : List Chunk → Option (List Item) → Option (List Item)
  repaired_items hits none = none
  repaired_items hits (some items) = some (map (repaired_item hits) items)

  -- `_repair_grounded_output`
  unfoldable pub repair_grounded_output : List Chunk → Response Item → Response Item
  unfolding ground_citation_within
  repair_grounded_output hits response = record { items = repaired_items hits response.items }

  abbrev pub cited_by : SourceCitation → Chunk → Bool
  cited_by citation c = any (λ p. same_citation (m.cite p) citation) (provenance_of c)

  -- The words of the chunk support the value.
  abbrev pub supports : Text → Chunk → Bool
  supports value c =
      if is_empty (m.normalized_numbers value)
      then folded_in (strip value) (text_of c)
      else all (λ g. meets g (numeric_variants (text_of c))) (m.numeric_groups value)

  -- `_value_supported_by_citation`
  unfoldable pub value_supported_by_citation : Text → SourceCitation → List Chunk → Bool
  value_supported_by_citation value citation hits =
      any (λ c. cited_by citation c && supports value c) hits

  -- `_ground_citations`
  unfoldable pub ground_citations :
      List PassFigure → List Chunk → Result PassError (List PassFigure)
  unfolding ground_citation value_supported_by_citation
  ground_citations [] hits = ok []
  ground_citations (f ∷ fs) hits = do
    citation ← or_invalid (ground_citation f.citation (allowed_citations hits))
    raise_if (not (value_supported_by_citation f.value citation hits)) value_error
    rest ← ground_citations fs hits
    ok (record f { citation = citation } ∷ rest)

  -- `Pass1Extractor.extract`
  unfoldable pub extract_figures : Text → List Chunk → Result PassError Extraction
  unfolding ground_citations repair_grounded_output
  extract_figures question hits = do
    raise_if (is_blank question || is_empty hits) value_error
    raw ← m.complete pass1 (m.prompt1 question hits)
    response ← or_invalid (m.parse_json raw)
    extraction ← or_invalid (m.validate1 question (repair_grounded_output hits response))
    figures ← ground_citations extraction.figures hits
    ok (record { question = extraction.question; figures = figures })
