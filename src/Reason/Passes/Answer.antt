-- ===== src/Reason/Passes/Answer.antt =====
-- `Pass2Reasoner` of src/findociq/reason/pass2_reason.py and the branch of two passes of
-- `ReasoningPipeline.run` of src/findociq/reason/pipeline.py. Spans of the observer are left out.
use fin_docs_analysis_evals.Common.{
  string_eq, nat_eq, ℕ, ◌+◌, String, Bool, not, ◌&&◌, Option, none, some, List, [], ◌∷◌, ◌++◌, map,
  all, any, keep, is_empty, contains, codes_eq, Result, ok, ◌>>=◌, ◌>>◌, raise_if, if◌then◌else◌,
}
use fin_docs_analysis_evals.Common.Dict.{Dict, lookup}
use fin_docs_analysis_evals.Ingest.Schema.{Text, Chunk}
use fin_docs_analysis_evals.Ingest.Chunker.Blocks.{join_with}
use fin_docs_analysis_evals.Reason.Gate.Profile.{distinct, same_text}
use fin_docs_analysis_evals.Reason.Gate.Citations.{}
use fin_docs_analysis_evals.Reason.Passes.{
  PassFigure, Extraction, Selection, ReasonedAnswer, PassError, value_error, pass2, pass2_retry,
  Model, is_blank, meets, space, or_invalid, numeric_variants, folded_in, extract_figures,
}

-- A figure is shown by its texts that are there.
abbrev pub present_text : Option Text → List Text
present_text none = []
present_text (some t) = if is_empty t then [] else t ∷ []

abbrev pub shown : PassFigure → Text
shown f = join_with space (
    present_text (some f.label)
    ++ (present_text (some f.value) ++ (present_text f.unit ++ present_text f.period)))

module _ {Item Prompt : Type 0} (m : Model Item Prompt) where
  -- The figures under their ids, from an index on.
  abbrev pub evidence_from : ℕ → List PassFigure → Dict String PassFigure
  evidence_from n [] = []
  evidence_from n (f ∷ fs) = (m.evidence_id n, f) ∷ evidence_from (n + 1) fs

  abbrev pub add_found : Option PassFigure → Option (List PassFigure) → Option (List PassFigure)
  add_found none fs = none
  add_found (some f) none = none
  add_found (some f) (some fs) = some (f ∷ fs)

  -- The figures of the ids; `none` when an id is unknown.
  unfoldable pub figures_at : Dict String PassFigure → List String → Option (List PassFigure)
  figures_at evidence [] = some []
  figures_at evidence (id ∷ ids) = add_found (lookup id evidence) (figures_at evidence ids)

  abbrev pub evidence_text : List PassFigure → Text
  evidence_text selected = join_with space (map shown selected)

  -- The numbers of the answer are those of the figures; without numbers it quotes a value.
  unfoldable pub is_stated : Text → List PassFigure → Bool
  is_stated answer selected =
      if is_empty (m.numeric_groups answer)
      then any (λ f. folded_in m f.value answer) selected
      else all (λ g. meets g (numeric_variants m (evidence_text selected)))
          (m.numeric_groups answer)

  -- `_unsupported_answer_terms`
  abbrev pub unsupported_terms : Text → Text → List Text
  unsupported_terms answer trusted =
      keep (λ t. not (contains t (m.grounding_terms trusted))) (m.grounding_terms answer)

  -- `_validate_answer_support`
  unfoldable pub is_supported : Text → Text → List PassFigure → Bool
  unfolding is_stated
  is_supported question answer selected =
      is_stated answer selected
      && is_empty (unsupported_terms answer (question ++ (space ++ evidence_text selected)))

  abbrev pub when_supported :
      Text → Selection → Option (List PassFigure) → Option (Selection × List PassFigure)
  when_supported question selection none = none
  when_supported question selection (some selected) =
      if is_supported question selection.answer selected then some (selection, selected) else none

  abbrev pub checked_selection :
      Text → Dict String PassFigure → Option Selection → Option (Selection × List PassFigure)
  checked_selection question evidence none = none
  checked_selection question evidence (some selection) =
      when_supported question selection
        (figures_at evidence (distinct same_text selection.evidence_ids))

  -- The selection of a response, with its figures; `none` is a `ValueError` of the two checks.
  unfoldable pub selected_from :
      Text → List PassFigure → Text → Option (Selection × List PassFigure)
  unfolding figures_at is_supported
  selected_from question figures raw =
      checked_selection question (evidence_from 1 figures) (m.validate2 raw)

  -- A second try, when the first response is refused.
  abbrev pub or_retried :
      Text
      → Extraction
      → Text
      → Option (Selection × List PassFigure)
      → Result PassError (Selection × List PassFigure)
  or_retried question extraction raw (some found) = ok found
  or_retried question extraction raw none = do
    again ← m.complete pass2_retry (m.prompt_retry question extraction raw)
    or_invalid (selected_from question extraction.figures again)

  -- `Pass2Reasoner.reason`
  unfoldable pub reason : Text → Extraction → Result PassError ReasonedAnswer
  unfolding selected_from
  reason question extraction = do
    raise_if (is_blank question) value_error
    raw ← m.complete pass2 (m.prompt2 question extraction)
    raise_if (is_empty extraction.figures) value_error
    found ← or_retried question extraction raw (selected_from question extraction.figures raw)
    ok (record { answer = found.0.answer; citations = map (λ f. f.citation) found.1 })

  -- Two passes of `ReasoningPipeline.run`
  unfoldable pub run_two_passes : Text → List Chunk → Result PassError (Extraction × ReasonedAnswer)
  unfolding extract_figures reason
  run_two_passes question hits = do
    extraction ← extract_figures m question hits
    answer ← reason question extraction
    ok (extraction, answer)
