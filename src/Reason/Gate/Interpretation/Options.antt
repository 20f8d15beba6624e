-- ===== src/Reason/Gate/Interpretation/Options.antt =====
-- The links that src/findociq/reason/interpretations.py offers to a reviewer. A loop that returns at its
-- hundredth option is the list of all options, cut at a hundred: its body has no other effect.
use fin_docs_analysis_evals.Common.{
  string_eq, nat_eq, str_lt, sorted, ℕ, ◌-◌, ltb, String, Bool, true, false, not, ◌&&◌, ◌||◌, ◌==◌,
  Option, none, some, List, [], ◌∷◌, ◌++◌, map, any, keep, is_empty, take, length, Result, ok, err,
  ◌>>=◌, if◌then◌else◌,
}
use fin_docs_analysis_evals.Common.Dict.{Dict}
use fin_docs_analysis_evals.Ingest.Schema.{Provenance, Chunk, text_of, id_of}
use fin_docs_analysis_evals.Reason.Exec.{Code, Raised}
use fin_docs_analysis_evals.Reason.Figure.{SourceCitation}
use fin_docs_analysis_evals.Reason.Gate.Policy.{MetricRule, EvidencePolicy, PatternGroups}
use fin_docs_analysis_evals.Reason.Gate.Profile.{
  Reader, DocumentProfile, provenance_of, distinct, same_text, sole, on_page, matches, matches_any,
  declares, profile,
}
use fin_docs_analysis_evals.Reason.Gate.Basis.{BasisResolution, documents_of, cited_once}
use fin_docs_analysis_evals.Reason.Gate.Sources.{BasisInterpretation, Row}
use fin_docs_analysis_evals.Reason.Gate.Direct.{only, evidence_provenance, same_period}
use fin_docs_analysis_evals.Reason.Gate.Selection.Rows.{optional_text}
use fin_docs_analysis_evals.Reason.Gate.Interpretation.{resolve_interpretation}

-- A chunk that declares one basis for one year.
pub record Declaration : Type 0 where
  pub declaring : Chunk
  pub place : Provenance
  pub declared_basis : String
  pub declared_year : ℕ

abbrev pub same_number : ℕ → ℕ → Bool
same_number a b = a == b

abbrev pub sole_year : List ℕ → Option ℕ
sole_year (y ∷ []) = some y
sole_year _ = none

abbrev pub declaration_of : Chunk → Option Provenance → Option String → Option ℕ → List Declaration
declaration_of c (some p) (some b) (some y) =
    record { declaring = c; place = p; declared_basis = b; declared_year = y } ∷ []
declaration_of c _ _ _ = []

abbrev pub first_of : (Chunk → Bool) → List Chunk → List Chunk
first_of p [] = []
first_of p (c ∷ cs) = let rest = first_of p cs in if p c then c ∷ [] else rest

abbrev pub append_result :
    {A : Type 0} → Result Code (List A) → Result Code (List A) → Result Code (List A)
append_result (err e) more = err e
append_result (ok xs) more = more >>= λ ys. ok (xs ++ ys)

abbrev pub periods_of : Result Code (List Row) → Result Code (List (Option ℕ))
periods_of (err e) = err e
periods_of (ok rows) = ok (map (λ row. row.1) rows)

abbrev pub all_rules : Dict String MetricRule → List MetricRule
all_rules rules = map (λ e. e.1) rules

abbrev pub has_period : ℕ → List (Option ℕ) → Bool
has_period y periods = any (λ p. same_period p (some y)) periods

-- `len(periods) != 1 or None in periods`: the only period
abbrev pub only_period : List (Option ℕ) → Option ℕ
only_period (some y ∷ []) = some y
only_period _ = none

module _ (r : Reader) (cite : Provenance → SourceCitation) (same_chunk : Chunk → Chunk → Bool)
    (policy : EvidencePolicy) (rows_of : Chunk → MetricRule → Result Code (List Row)) where
  abbrev pub declaration_in : Chunk → List Declaration
  declaration_in c =
      if declares r policy.basis_declaration_patterns (text_of c)
      then declaration_of c (only (provenance_of c))
          (sole (matches r (text_of c) policy.basis_patterns))
          (sole_year (distinct same_number (r.report_years (text_of c))))
      else []

  abbrev pub declarations_in : List Chunk → List Declaration
  declarations_in [] = []
  declarations_in (c ∷ cs) = declaration_in c ++ declarations_in cs

  -- The periods of the rows of the rules that ask for a basis.
  abbrev pub periods_by : Chunk → List MetricRule → Result Code (List (Option ℕ))
  periods_by target [] = ok []
  periods_by target (rule ∷ rules) =
      let rest = periods_by target rules in
      if rule.require_basis then append_result (periods_of (rows_of target rule)) rest else rest

  abbrev pub periods_in : Chunk → Result Code (List (Option ℕ))
  periods_in target = periods_by target (all_rules policy.metrics ++ all_rules policy.operands)

  abbrev pub context_link : Chunk → Provenance → Declaration → BasisInterpretation
  context_link target p d = record {
    linked_document = p.document_id;
    target_chunk_id = id_of target;
    target_citation = cite p;
    linked_basis = d.declared_basis;
    linked_period = d.declared_year;
    linked_policy = policy.policy_hash;
    context_citations = cite d.place ∷ [];
    is_reporting_scope = false;
    linked_entity = none;
  }

  abbrev pub fits : Chunk → Provenance → List (Option ℕ) → Declaration → Bool
  fits target p periods d =
      d.place.document_id == p.document_id
      && not (same_chunk d.declaring target)
      && has_period d.declared_year periods

  abbrev pub links_to :
      List Declaration
      → Chunk
      → Option Provenance
      → Result Code (List (Option ℕ))
      → List BasisInterpretation
  links_to ds target (some p) (ok periods) =
      map (context_link target p) (keep (fits target p periods) ds)
  links_to ds target _ _ = []

  abbrev pub context_links : List Declaration → List Chunk → List BasisInterpretation
  context_links ds [] = []
  context_links ds (target ∷ cs) =
      links_to ds target (only (evidence_provenance target)) (periods_in target)
      ++ context_links ds cs

  -- `(c.provenance[0].page_number, c.provenance[0].bbox.y0, c.chunk_id)`, compared
  abbrev pub place_before : Provenance → Provenance → String → String → Bool
  place_before p q i j =
      ltb p.page_number q.page_number
      || (p.page_number == q.page_number
          && (ltb (cite p).bbox.y0 (cite q).bbox.y0
              || ((cite p).bbox.y0 == (cite q).bbox.y0 && str_lt i j)))

  abbrev pub places_before : List Provenance → List Provenance → String → String → Bool
  places_before (p ∷ ps) (q ∷ qs) i j = place_before p q i j
  places_before _ _ i j = false

  abbrev pub reads_before : Chunk → Chunk → Bool
  reads_before c d = places_before (provenance_of c) (provenance_of d) (id_of c) (id_of d)

  abbrev pub is_of : String → Chunk → Bool
  is_of document c = optional_text (sole (documents_of c)) (some document)

  -- The chunks of a document, as they are read.
  unfoldable pub source_of_document : String → List Chunk → List Chunk
  unfolding sorted str_lt
  source_of_document document chunks = sorted reads_before (keep (is_of document) chunks)

  abbrev pub owner_in : String → List Chunk → DocumentProfile
  owner_in document source = profile r document source policy

  abbrev pub first_matches : PatternGroups → List Chunk → List Chunk
  first_matches [] source = []
  first_matches ((name, patterns) ∷ groups) source =
      first_of (λ c. matches_any r patterns (text_of c)) source ++ first_matches groups source

  -- The bounded packet: a chunk for each group, and the identity and a year on the first page.
  abbrev pub packet : String → List Chunk → List Chunk
  packet document source =
      first_matches policy.reporting_scope_patterns source
      ++ (first_of
            (λ c.
              optional_text (owner_in document (c ∷ [])).entity_hash
                (owner_in document source).entity_hash)
            (keep (on_page 1) source)
          ++ first_of (λ c. not (is_empty (r.report_years (text_of c)))) (keep (on_page 1) source))

  abbrev pub scope_link :
      String → Option String → List SourceCitation → Chunk → Provenance → ℕ → BasisInterpretation
  scope_link document entity context target p year = record {
    linked_document = document;
    target_chunk_id = id_of target;
    target_citation = cite p;
    linked_basis = "standalone";
    linked_period = year;
    linked_policy = policy.policy_hash;
    context_citations = context;
    is_reporting_scope = true;
    linked_entity = entity;
  }

  -- A link is offered when it would be accepted.
  abbrev pub if_accepted :
      BasisInterpretation → Result Raised BasisResolution → List BasisInterpretation
  if_accepted link (err e) = []
  if_accepted link (ok b) = link ∷ []

  abbrev pub scope_link_for :
      String
      → Option String
      → List SourceCitation
      → List Chunk
      → Chunk
      → Option Provenance
      → Option ℕ
      → List BasisInterpretation
  scope_link_for document entity context source target (some p) (some year) =
      if_accepted (scope_link document entity context target p year) (
        resolve_interpretation r cite policy (scope_link document entity context target p year)
          target source (some year))
  scope_link_for document entity context source target _ _ = []

  abbrev pub period_in : Result Code (List (Option ℕ)) → Option ℕ
  period_in (err e) = none
  period_in (ok periods) = only_period (distinct same_period periods)

  abbrev pub scope_links :
      String
      → Option String
      → List SourceCitation
      → List Chunk
      → List Chunk
      → List BasisInterpretation
  scope_links document entity context source [] = []
  scope_links document entity context source (target ∷ cs) =
      scope_link_for document entity context source target (only (evidence_provenance target))
        (period_in (periods_in target))
      ++ scope_links document entity context source cs

  abbrev pub scope_links_of :
      String → List Chunk → Option String → List SourceCitation → List BasisInterpretation
  scope_links_of document source none context = []
  scope_links_of document source (some entity) context =
      if is_empty context || ltb 8 (length context)
      then []
      else scope_links document (some entity) context source source

  abbrev pub document_scope_links : String → List Chunk → List BasisInterpretation
  document_scope_links document source =
      scope_links_of document source (owner_in document source).entity_hash
        (cited_once r cite same_chunk policy (packet document source))

  abbrev pub all_scope_links : List Chunk → List String → List BasisInterpretation
  all_scope_links chunks [] = []
  all_scope_links chunks (d ∷ ds) =
      document_scope_links d (source_of_document d chunks) ++ all_scope_links chunks ds

  abbrev pub all_documents : List Chunk → List String
  all_documents [] = []
  all_documents (c ∷ cs) = map (λ p. p.document_id) (provenance_of c) ++ all_documents cs

  -- `reporting_scope_options`
  unfoldable pub reporting_scope_options : List Chunk → ℕ → List BasisInterpretation
  unfolding resolve_interpretation source_of_document sorted str_lt
  reporting_scope_options chunks budget =
      take budget
        (all_scope_links chunks (sorted str_lt (distinct same_text (all_documents chunks))))

  -- `interpretation_options`
  unfoldable pub interpretation_options : List Chunk → List BasisInterpretation
  unfolding reporting_scope_options
  interpretation_options chunks =
      let links = take 100 (context_links (declarations_in chunks) chunks) in
      links ++ reporting_scope_options chunks (100 - length links)
