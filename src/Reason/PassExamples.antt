-- ===== src/Reason/PassExamples.antt =====
-- The theorem of the passes at a concrete input: one chunk that states 1, and a model that answers 1.
use fin_docs_analysis_evals.Common.{
  string_eq, nat_eq, ℕ, ◌≡◌, refl, false, ◌==◌, none, some, [], ◌∷◌, contains, ok, if◌then◌else◌,
}
use fin_docs_analysis_evals.Common.Int.{◌*ℤ◌}
use fin_docs_analysis_evals.Ingest.Schema.{Provenance, Chunk, text_chunk}
use fin_docs_analysis_evals.Reason.Decimal.{one_decimal}
use fin_docs_analysis_evals.Reason.Figure.{BoundingBox, SourceCitation}
use fin_docs_analysis_evals.Reason.Passes.{PassFigure, Model}
use fin_docs_analysis_evals.Reason.Passes.Single.{two, ReasoningRun, run}
use fin_docs_analysis_evals.Reason.Passes.Runs.{IsGroundedRun, run-IsGroundedRun}

abbrev page_place : Provenance
page_place = record { document_id = "d"; source_path = "d.pdf"; page_number = 2; geometry = "g" }

abbrev page_box : BoundingBox
page_box = record { x0 = 0; y0 = 0; x1 = 10; y1 = 10 }

abbrev page_citation : Provenance → SourceCitation
page_citation p = record {
  document_id = p.document_id;
  page_number = p.page_number;
  bbox = page_box;
}

abbrev one_chunk : Chunk
one_chunk = text_chunk (record {
  text_id = "c";
  body = 49 ∷ [];
  text_provenance = page_place ∷ [];
  text_metadata = record {
    block_kind = none;
    part = none;
    table_name = none;
    atomic = false;
    page_spanning = false;
    parts = none;
    continued = false;
    config_hash = none;
    application_id = none;
  };
})

abbrev one_figure : PassFigure
one_figure = record {
  label = 76 ∷ [];
  value = 49 ∷ [];
  unit = none;
  period = none;
  citation = page_citation page_place;
}

abbrev test_model : Model ℕ ℕ
test_model = record {
  complete = λ stage prompt. ok (123 ∷ []);
  prompt1 = λ q hits. 1;
  prompt2 = λ q e. 2;
  prompt_retry = λ q e raw. 3;
  parse_json = λ raw. some (record { items = some (7 ∷ []) });
  item_value = λ item. some (49 ∷ []);
  item_citation = λ item. some (page_citation page_place);
  with_citation = λ c item. item;
  validate1 = λ q response. some (record { question = q; figures = one_figure ∷ [] });
  validate2 = λ raw. some (record { answer = 49 ∷ []; evidence_ids = "evidence_1" ∷ [] });
  validate_answer =
      λ raw. some (record { answer = 49 ∷ []; citations = page_citation page_place ∷ [] });
  evidence_id = λ n. if n == 1 then "evidence_1" else "evidence_2";
  cite = page_citation;
  casefold = λ t. t;
  normalized_numbers = λ t. if contains 49 t then one_decimal ∷ [] else [];
  numeric_groups = λ t. if contains 49 t then (one_decimal ∷ []) ∷ [] else [];
  grounding_terms = λ t. if contains 84 t then (84 ∷ []) ∷ [] else [];
}

abbrev two_pass_run : ReasoningRun
two_pass_run = record {
  result = record { answer = 49 ∷ []; citations = page_citation page_place ∷ [] };
  extraction = some (record { question = 81 ∷ []; figures = one_figure ∷ [] });
}

run_returns : run test_model two (81 ∷ []) (one_chunk ∷ []) ≡ ok two_pass_run
unfolding run ◌*ℤ◌
run_returns = refl

run-IsGroundedRun_example : IsGroundedRun test_model two (81 ∷ []) (one_chunk ∷ []) two_pass_run
run-IsGroundedRun_example =
    run-IsGroundedRun test_model two (81 ∷ []) (one_chunk ∷ []) two_pass_run run_returns
