-- ===== src/Reason/Passes/Laws.antt =====
-- An answer of the two passes rests on the chunks, whatever the language model writes.
use fin_docs_analysis_evals.Common.{
  string_eq, nat_eq, ℕ, ◌+◌, String, Bool, ◌≡◌, refl, subst, All, Has, bind-ok, bind-raise_if,
  ok_injective, arith, true, false, not, ◌||◌, Option, none, some, List, [], ◌∷◌, map, is_empty,
  codes_eq, ok, if◌then◌else◌,
}
use fin_docs_analysis_evals.Common.Dict.{Dict, lookup, All-lookup}
use fin_docs_analysis_evals.Ingest.Schema.{Text, Chunk}
use fin_docs_analysis_evals.Reason.Gate.Profile.{distinct, same_text}
use fin_docs_analysis_evals.Reason.Gate.Citations.{ground_citation}
use fin_docs_analysis_evals.Reason.Gate.Citations.Laws.{ground_citation-IsGrounded}
use fin_docs_analysis_evals.Reason.Passes.{
  PassFigure, Extraction, Selection, ReasonedAnswer, value_error, pass1, pass2, pass2_retry, Model,
  is_blank, or_invalid, allowed_citations, repair_grounded_output, value_supported_by_citation,
  ground_citations, extract_figures,
}
use fin_docs_analysis_evals.Reason.Passes.Answer.{
  evidence_from, add_found, figures_at, is_supported, when_supported, checked_selection,
  selected_from, or_retried, reason, run_two_passes,
}
use fin_docs_analysis_evals.Reason.Passes.Single.{}

module _ {Item Prompt : Type 0} (m : Model Item Prompt) where
  pub or_invalid-ok : {A : Type 0} (o : Option A) (a : A) → or_invalid o ≡ ok a → o ≡ some a
  or_invalid-ok none a h = cc
  or_invalid-ok (some b) a h = cc

  -- A figure is cited to a place of the chunks, and a chunk with that place states its value.
  pub record IsRead (hits : List Chunk) (f : PassFigure) : Type 0 where
    pub retrieved : Has f.citation (allowed_citations m hits)
    pub stated : value_supported_by_citation m f.value f.citation hits ≡ true

  ground_citations-IsRead :
      (fs : List PassFigure) (hits : List Chunk) (out : List PassFigure)
      → ground_citations m fs hits ≡ ok out
      → All (IsRead hits) out
  unfolding ground_citations
  ground_citations-IsRead [] hits out h = subst (All (IsRead hits)) (ok_injective [] out h) tt
  ground_citations-IsRead (f ∷ fs) hits out h =
      let (c, h1, k1) =
        bind-ok (or_invalid (ground_citation f.citation (allowed_citations m hits))) _ out h in
      let (h2, k2) =
        bind-raise_if (not (value_supported_by_citation m f.value c hits)) value_error _ out k1 in
      let (rest, h3, k3) = bind-ok (ground_citations m fs hits) _ out k2 in
      let grounded =
        ground_citation-IsGrounded f.citation (allowed_citations m hits) c
          (or_invalid-ok (ground_citation f.citation (allowed_citations m hits)) c h1) in
      subst (All (IsRead hits)) (ok_injective _ out k3) (
        record { retrieved = grounded.allowed; stated = ground arith },
        ground_citations-IsRead fs hits rest h3,
      )

  extract_figures-IsRead :
      (question : Text) (hits : List Chunk) (extraction : Extraction)
      → extract_figures m question hits ≡ ok extraction
      → All (IsRead hits) extraction.figures
  unfolding extract_figures
  extract_figures-IsRead question hits extraction h =
      let (h1, k1) =
        bind-raise_if (is_blank question || is_empty hits) value_error _ extraction h in
      let (raw, h2, k2) = bind-ok (m.complete pass1 (m.prompt1 question hits)) _ extraction k1 in
      let (response, h3, k3) = bind-ok (or_invalid (m.parse_json raw)) _ extraction k2 in
      let (e, h4, k4) =
        bind-ok (or_invalid (m.validate1 question (repair_grounded_output m hits response))) _
          extraction k3 in
      let (figures, h5, k5) = bind-ok (ground_citations m e.figures hits) _ extraction k4 in
      subst (λ x. All (IsRead hits) x.figures) (ok_injective _ extraction k5)
        (ground_citations-IsRead e.figures hits figures h5)

  some_eq : {A : Type 0} (a b : A) → ◌≡◌ {A = Option A} (some a) (some b) → a ≡ b
  some_eq a b h = cc

  module _ (P : PassFigure → Type 0) where
    All-evidence_from :
        (n : ℕ) (fs : List PassFigure) → All P fs → All (λ e. P e.1) (evidence_from m n fs)
    All-evidence_from n [] h = tt
    All-evidence_from n (f ∷ fs) h = (h.0, All-evidence_from (n + 1) fs h.1)

    figures_at-All :
        (evidence : Dict String PassFigure) (ids : List String) (out : List PassFigure)
        → All (λ e. P e.1) evidence
        → figures_at m evidence ids ≡ some out
        → All P out
    unfolding figures_at
    figures_at-All evidence [] out h k = subst (All P) (some_eq [] out k) tt
    figures_at-All evidence (id ∷ ids) out h k =
        by_parts (lookup id evidence) refl (figures_at m evidence ids) k
          (λ fs q. figures_at-All evidence ids fs h q)
      where
        by_parts :
            (o : Option PassFigure)
            → lookup id evidence ≡ o
            → (rest : Option (List PassFigure)) → add_found m o rest ≡ some out
            → ((fs : List PassFigure) → rest ≡ some fs → All P fs)
            → All P out
        by_parts none e rest q later = cc
        by_parts (some f) e none q later = cc
        by_parts (some f) e (some fs) q later =
            subst (All P) (some_eq (f ∷ fs) out q)
              (All-lookup (λ x. P x.1) id evidence f h e, later fs refl)

  -- Figures that support the answer, among those that have the property.
  abbrev IsChosen : (PassFigure → Type 0) → Text → Selection × List PassFigure → Type 0
  IsChosen P question found =
      All P found.1 × (is_supported m question found.0.answer found.1 ≡ true)

  selected_from-IsChosen :
      (P : PassFigure → Type 0) (question : Text) (figures : List PassFigure) (raw : Text)
      (found : Selection × List PassFigure)
      → All P figures
      → selected_from m question figures raw ≡ some found
      → IsChosen P question found
  unfolding selected_from
  selected_from-IsChosen P question figures raw found h k = by_selection (m.validate2 raw) k
    where
      evidence : Dict String PassFigure
      evidence = evidence_from m 1 figures

      by_support :
          (s : Selection) (fs : List PassFigure) (b : Bool)
          → is_supported m question s.answer fs ≡ b
          → All P fs
          → ◌≡◌ {A = Option (Selection × List PassFigure)}
              (if b then some (s, fs) else none)
              (some found)
          → IsChosen P question found
      by_support s fs true e inside q =
          subst (IsChosen P question) (some_eq (s, fs) found q) (inside, e)
      by_support s fs false e inside q = cc

      by_figures :
          (s : Selection) (o : Option (List PassFigure))
          → ((fs : List PassFigure) → o ≡ some fs → All P fs)
          → when_supported m question s o ≡ some found
          → IsChosen P question found
      by_figures s none later q = cc
      by_figures s (some fs) later q =
          by_support s fs (is_supported m question s.answer fs) refl (later fs refl) q

      by_selection :
          (o : Option Selection)
          → checked_selection m question evidence o ≡ some found
          → IsChosen P question found
      by_selection none q = cc
      by_selection (some s) q =
          by_figures s (figures_at m evidence (distinct same_text s.evidence_ids))
            (λ fs e.
              figures_at-All P evidence (distinct same_text s.evidence_ids) fs
                (All-evidence_from P 1 figures h) e)
            q

  or_retried-IsChosen :
      (P : PassFigure → Type 0) (question : Text) (extraction : Extraction) (raw : Text)
      (o : Option (Selection × List PassFigure)) (found : Selection × List PassFigure)
      → All P extraction.figures
      → ((f : Selection × List PassFigure) → o ≡ some f → IsChosen P question f)
      → or_retried m question extraction raw o ≡ ok found
      → IsChosen P question found
  or_retried-IsChosen P question extraction raw (some f) found h first q =
      subst (IsChosen P question) (ok_injective f found q) (first f refl)
  or_retried-IsChosen P question extraction raw none found h first q =
      let (again, h1, k1) =
        bind-ok (m.complete pass2_retry (m.prompt_retry question extraction raw)) _ found q in
      selected_from-IsChosen P question extraction.figures again found h
        (or_invalid-ok (selected_from m question extraction.figures again) found k1)

  -- What an answer rests on.
  pub record IsAnswered (question : Text) (hits : List Chunk) (answer : ReasonedAnswer)
      : Type 0 where
    pub selected : List PassFigure
    pub read : All (IsRead hits) selected
    pub cited : answer.citations ≡ map (λ f. f.citation) selected
    pub supported : is_supported m question answer.answer selected ≡ true

  reason-IsAnswered :
      (question : Text) (hits : List Chunk) (extraction : Extraction) (answer : ReasonedAnswer)
      → All (IsRead hits) extraction.figures
      → reason m question extraction ≡ ok answer
      → IsAnswered question hits answer
  unfolding reason
  reason-IsAnswered question hits extraction answer read h =
      let (h1, k1) = bind-raise_if (is_blank question) value_error _ answer h in
      let (raw, h2, k2) = bind-ok (m.complete pass2 (m.prompt2 question extraction)) _ answer k1 in
      let (h3, k3) = bind-raise_if (is_empty extraction.figures) value_error _ answer k2 in
      let first = selected_from m question extraction.figures raw in
      let (found, h4, k4) = bind-ok (or_retried m question extraction raw first) _ answer k3 in
      let (inside, supported) =
        or_retried-IsChosen (IsRead hits) question extraction raw first found read
          (λ f e. selected_from-IsChosen (IsRead hits) question extraction.figures raw f read e)
          h4 in
      subst (IsAnswered question hits) (ok_injective _ answer k4)
        (record { selected = found.1; read = inside; cited = refl; supported = supported })

  pub run_two_passes-IsAnswered :
      (question : Text) (hits : List Chunk) (extraction : Extraction) (answer : ReasonedAnswer)
      → run_two_passes m question hits ≡ ok (extraction, answer)
      → IsAnswered question hits answer
  unfolding run_two_passes
  run_two_passes-IsAnswered question hits extraction answer h =
      let (e, h1, k1) = bind-ok (extract_figures m question hits) _ (extraction, answer) h in
      let (a, h2, k2) = bind-ok (reason m question e) _ (extraction, answer) k1 in
      subst (λ p. IsAnswered question hits p.1) (ok_injective (e, a) (extraction, answer) k2)
        (reason-IsAnswered question hits e a (extract_figures-IsRead question hits e h1) h2)
