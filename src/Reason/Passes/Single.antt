-- ===== src/Reason/Passes/Single.antt =====
-- `SinglePassReasoner` of src/findociq/reason/single_pass.py, and `ReasoningPipeline.run` of
-- src/findociq/reason/pipeline.py. Spans of the observer are left out.
use fin_docs_analysis_evals.Common.{
  string_eq, nat_eq, not, ◌||◌, Option, none, some, List, [], ◌∷◌, ◌++◌, map, any, keep, is_empty,
  codes_eq, Result, ok, ◌>>=◌, ◌>>◌, raise_if,
}
use fin_docs_analysis_evals.Ingest.Schema.{Text, Chunk, text_of}
use fin_docs_analysis_evals.Ingest.Chunker.Blocks.{join_with}
use fin_docs_analysis_evals.Reason.Figure.{SourceCitation}
use fin_docs_analysis_evals.Reason.Gate.Citations.{ground_citation}
use fin_docs_analysis_evals.Reason.Passes.{
  Extraction, ReasonedAnswer, PassError, value_error, single_pass, Model, is_blank, meets, space,
  or_invalid, numeric_variants, allowed_citations, cited_by,
}
use fin_docs_analysis_evals.Reason.Passes.Answer.{unsupported_terms, run_two_passes}

-- `passes`, which is 1 or 2
pub data Passes : Type 0 where
  one two : Passes

pub record ReasoningRun : Type 0 where
  pub result : ReasonedAnswer
  pub extraction : Option Extraction

module _ {Item Prompt : Type 0} (m : Model Item Prompt) where
  unfoldable pub ground_all :
      List SourceCitation → List Chunk → Result PassError (List SourceCitation)
  unfolding ground_citation
  ground_all [] hits = ok []
  ground_all (c ∷ cs) hits = do
    canonical ← or_invalid (ground_citation c (allowed_citations m hits))
    rest ← ground_all cs hits
    ok (canonical ∷ rest)

  -- The words of the chunks that are cited.
  abbrev pub cited_text : List SourceCitation → List Chunk → Text
  cited_text citations hits =
      join_with space (map text_of (keep (λ c. any (λ s. cited_by m s c) citations) hits))

  -- `SinglePassReasoner.reason`
  unfoldable pub reason_once : Text → List Chunk → Result PassError ReasonedAnswer
  unfolding ground_all
  reason_once question hits = do
    raise_if (is_blank question || is_empty hits) value_error
    raw ← m.complete single_pass (m.prompt1 question hits)
    proposed ← or_invalid (m.validate_answer raw)
    citations ← ground_all proposed.citations hits
    raise_if
        (any (λ g. not (meets g (numeric_variants m (cited_text citations hits))))
          (m.numeric_groups proposed.answer))
        value_error
    raise_if
        (not (
          is_empty (
            unsupported_terms m proposed.answer
              (question ++ (space ++ cited_text citations hits)))))
        value_error
    ok (record { answer = proposed.answer; citations = citations })

  -- `ReasoningPipeline.run`
  unfoldable pub run : Passes → Text → List Chunk → Result PassError ReasoningRun
  unfolding reason_once run_two_passes
  run one question hits = do
    a ← reason_once question hits
    ok (record { result = a; extraction = none })
  run two question hits = do
    both ← run_two_passes m question hits
    ok (record { result = both.1; extraction = some both.0 })
