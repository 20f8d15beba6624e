-- ===== src/Reason/Gate/Basis.antt =====
-- `resolve_basis` of src/findociq/reason/basis.py: the accounting basis of a figure, with its citations.
pub mod Laws
use fin_docs_analysis_evals.Common.{
  string_eq, nat_eq, ℕ, ltb, String, Bool, true, false, not, ◌&&◌, ◌||◌, ◌==◌, Option, none, some,
  List, [], ◌∷◌, ◌++◌, map, all, any, keep, is_empty, contains, length, Result, ok, err, ◌>>=◌,
  ◌>>◌, raise_if, if◌then◌else◌,
}
use fin_docs_analysis_evals.Ingest.Schema.{Text, Provenance, Chunk, text_of}
use fin_docs_analysis_evals.Reason.Exec.{Code, Raised, evidence, scope_violation, other_code}
use fin_docs_analysis_evals.Reason.Figure.{SourceCitation}
use fin_docs_analysis_evals.Reason.Gate.Policy.{EvidencePolicy}
use fin_docs_analysis_evals.Reason.Gate.Citations.{same_citation}
use fin_docs_analysis_evals.Reason.Gate.Profile.{
  Reader, provenance_of, joined, distinct, same_text, sole, matches, matches_any, declares,
}

abbrev pub basis_ambiguous : Raised
basis_ambiguous = evidence (other_code "evidence_basis_ambiguous")

pub record BasisResolution : Type 0 where
  pub basis : String
  pub resolution : String
  pub context : List SourceCitation

abbrev pub documents_of : Chunk → List String
documents_of c = distinct same_text (map (λ p. p.document_id) (provenance_of c))

abbrev pub pages_of : Chunk → List ℕ
pages_of c = map (λ p. p.page_number) (provenance_of c)

-- The chunks that share a page with the given one.
abbrev pub sharing_page : Chunk → List Chunk → List Chunk
sharing_page target source =
    keep (λ c. any (λ p. contains p.page_number (pages_of target)) (provenance_of c)) source

abbrev pub outside : List String → List Chunk → Bool
outside documents source =
    any (λ c. any (λ p. not (contains p.document_id documents)) (provenance_of c)) source

abbrev pub first_basis : List (String × Chunk) → String
first_basis [] = ""
first_basis ((b, c) ∷ ds) = b

module _ (r : Reader) (cite : Provenance → SourceCitation) (same_chunk : Chunk → Chunk → Bool)
    (policy : EvidencePolicy) where
  abbrev pub bases_in : Text → List String
  bases_in text = matches r text policy.basis_patterns

  abbrev pub cite_all : List Chunk → List SourceCitation
  cite_all [] = []
  cite_all (c ∷ cs) = map cite (provenance_of c) ++ cite_all cs

  -- `tuple({c.model_dump_json(): c for c in citations}.values())`
  abbrev pub cited_once : List Chunk → List SourceCitation
  cited_once cs = distinct same_citation (cite_all cs)

  abbrev pub in_years : Option ℕ → List ℕ → Bool
  in_years none years = false
  in_years (some year) years = contains year years

  -- What a declaration carries: itself and the headings of its period, on its pages.
  abbrev pub declared_with : Chunk → Option ℕ → List Chunk → List Chunk
  declared_with chunk period around =
      keep (λ c. same_chunk c chunk || in_years period (r.report_years (text_of c))) around

  abbrev pub tagged : String → List Chunk → List (String × Chunk)
  tagged basis cs = map (λ c. (basis, c)) cs

  -- The declarations of one chunk, given the bases that it names.
  abbrev pub declaration :
      Chunk → List Chunk → Option ℕ → Option String → Result Raised (List (String × Chunk))
  declaration chunk around period none = err basis_ambiguous
  declaration chunk around period (some basis) =
      if in_years period (r.report_years (joined around))
      then ok (tagged basis (declared_with chunk period around))
      else ok []

  abbrev pub declarations_of : Chunk → List Chunk → Option ℕ → Result Raised (List (String × Chunk))
  declarations_of chunk source period =
      if declares r policy.basis_declaration_patterns (text_of chunk)
      then declaration chunk (sharing_page chunk source) period (sole (bases_in (text_of chunk)))
      else ok []

  -- The loop over the chunks of the source.
  unfoldable pub all_declarations :
      List Chunk → List Chunk → Option ℕ → Result Raised (List (String × Chunk))
  unfolding matches
  all_declarations source [] period = ok []
  all_declarations source (c ∷ cs) period = do
    here ← declarations_of c source period
    rest ← all_declarations source cs period
    ok (here ++ rest)

  abbrev pub declared : List Chunk → List (String × Chunk) → Result Raised BasisResolution
  declared source ds =
      raise_if
        (ltb 1 (length (bases_in (joined source)))
          || not (length (distinct same_text (map (λ d. d.0) ds)) == 1))
        basis_ambiguous
      >> ok (record {
        basis = first_basis ds;
        resolution = "report_declaration";
        context = cited_once (map (λ d. d.1) ds);
      })

  abbrev pub on_bases :
      List Chunk → List Chunk → Option ℕ → List String → Result Raised BasisResolution
  on_bases source local period [] = do
    ds ← all_declarations source source period
    declared source ds
  on_bases source local period (basis ∷ []) = ok (record {
    basis = basis;
    resolution = "same_page";
    context = cited_once (keep (λ c. contains basis (bases_in (text_of c))) local);
  })
  on_bases source local period (b ∷ (c ∷ cs)) = err basis_ambiguous

  unfoldable pub resolve_basis : Chunk → List Chunk → Option ℕ → Result Raised BasisResolution
  unfolding all_declarations
  resolve_basis target source period =
      raise_if (not (length (documents_of target) == 1) || outside (documents_of target) source)
        (evidence scope_violation)
      >> on_bases source (sharing_page target source) period
          (bases_in (joined (sharing_page target source)))
