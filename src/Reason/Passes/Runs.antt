-- ===== src/Reason/Passes/Runs.antt =====
-- An answer of one or two passes rests on the chunks, whatever the language model writes.
use fin_docs_analysis_evals.Common.{
  string_eq, nat_eq, ◌≡◌, subst, All, Has, bind-ok, bind-raise_if, ok_injective, arith, true, false,
  not, ◌||◌, List, [], ◌∷◌, ◌++◌, any, is_empty, codes_eq, ok,
}
use fin_docs_analysis_evals.Ingest.Schema.{Text, Chunk}
use fin_docs_analysis_evals.Reason.Figure.{SourceCitation}
use fin_docs_analysis_evals.Reason.Gate.Citations.{ground_citation}
use fin_docs_analysis_evals.Reason.Gate.Citations.Laws.{ground_citation-IsGrounded}
use fin_docs_analysis_evals.Reason.Passes.{
  ReasonedAnswer, value_error, Model, is_blank, or_invalid, allowed_citations, single_pass, meets,
  numeric_variants, space,
}
use fin_docs_analysis_evals.Reason.Passes.Answer.{unsupported_terms, run_two_passes}
use fin_docs_analysis_evals.Reason.Passes.Single.{
  Passes, one, two, ReasoningRun, ground_all, cited_text, reason_once, run,
}
use fin_docs_analysis_evals.Reason.Passes.Laws.{
  or_invalid-ok, IsAnswered, run_two_passes-IsAnswered,
}

module _ {Item Prompt : Type 0} (m : Model Item Prompt) where
  -- The citations are places of the chunks, and the cited words have the numbers and the terms.
  pub record IsCovered (question : Text) (hits : List Chunk) (a : ReasonedAnswer) : Type 0 where
    pub retrieved : All (λ c. Has c (allowed_citations m hits)) a.citations
    pub numbers :
        any
          (λ g. not (meets g (numeric_variants m (cited_text m a.citations hits))))
          (m.numeric_groups a.answer)
        ≡ false
    pub terms :
        is_empty
          (unsupported_terms m a.answer (question ++ (space ++ cited_text m a.citations hits)))
        ≡ true

  ground_all-retrieved :
      (cs : List SourceCitation) (hits : List Chunk) (out : List SourceCitation)
      → ground_all m cs hits ≡ ok out
      → All (λ c. Has c (allowed_citations m hits)) out
  unfolding ground_all
  ground_all-retrieved [] hits out h =
      subst (All (λ c. Has c (allowed_citations m hits))) (ok_injective [] out h) tt
  ground_all-retrieved (c ∷ cs) hits out h =
      let (best, h1, k1) =
        bind-ok (or_invalid (ground_citation c (allowed_citations m hits))) _ out h in
      let (rest, h2, k2) = bind-ok (ground_all m cs hits) _ out k1 in
      let grounded =
        ground_citation-IsGrounded c (allowed_citations m hits) best
          (or_invalid-ok m (ground_citation c (allowed_citations m hits)) best h1) in
      subst (All (λ s. Has s (allowed_citations m hits))) (ok_injective _ out k2)
        (grounded.allowed, ground_all-retrieved cs hits rest h2)

  reason_once-IsCovered :
      (question : Text) (hits : List Chunk) (a : ReasonedAnswer)
      → reason_once m question hits ≡ ok a
      → IsCovered question hits a
  unfolding reason_once
  reason_once-IsCovered question hits a h =
      let (h1, k1) = bind-raise_if (is_blank question || is_empty hits) value_error _ a h in
      let (raw, h2, k2) = bind-ok (m.complete single_pass (m.prompt1 question hits)) _ a k1 in
      let (proposed, h3, k3) = bind-ok (or_invalid (m.validate_answer raw)) _ a k2 in
      let (citations, h4, k4) = bind-ok (ground_all m proposed.citations hits) _ a k3 in
      let (h5, k5) =
        bind-raise_if
          (any (λ g. not (meets g (numeric_variants m (cited_text m citations hits))))
            (m.numeric_groups proposed.answer))
          value_error _ a k4 in
      let (h6, k6) =
        bind-raise_if
          (not (
            is_empty (
              unsupported_terms m proposed.answer
                (question ++ (space ++ cited_text m citations hits)))))
          value_error _ a k5 in
      subst (IsCovered question hits) (ok_injective _ a k6) (record {
        retrieved = ground_all-retrieved proposed.citations hits citations h4;
        numbers = h5;
        terms = ground arith;
      })

  -- What a run rests on, by its passes.
  abbrev pub IsGroundedRun : Passes → Text → List Chunk → ReasoningRun → Type 0
  IsGroundedRun one question hits r = IsCovered question hits r.result
  IsGroundedRun two question hits r = IsAnswered m question hits r.result

  -- Whatever the language model writes, a run that returns is grounded. With two passes the answer is
  -- supported by figures that it cites, each cited to a place of the retrieved chunks where a chunk
  -- states its value; with one pass its citations are such places and the cited words have all its
  -- numbers. Either way it has no other terms than those words and the question.
  pub run-IsGroundedRun :
      (passes : Passes) (question : Text) (hits : List Chunk) (r : ReasoningRun)
      → run m passes question hits ≡ ok r
      → IsGroundedRun passes question hits r
  unfolding run
  run-IsGroundedRun one question hits r h =
      let (a, h1, k1) = bind-ok (reason_once m question hits) _ r h in
      subst (IsGroundedRun one question hits) (ok_injective _ r k1)
        (reason_once-IsCovered question hits a h1)
  run-IsGroundedRun two question hits r h =
      let (both, h1, k1) = bind-ok (run_two_passes m question hits) _ r h in
      subst (IsGroundedRun two question hits) (ok_injective _ r k1)
        (run_two_passes-IsAnswered m question hits both.0 both.1 h1)
