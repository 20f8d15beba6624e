-- ===== src/Reason/Gate/Sections.antt =====
-- `classify_sections` of src/findociq/reason/classification.py.
pub mod Laws
use fin_docs_analysis_evals.Common.{
  string_eq, nat_eq, str_lt, sorted, ℕ, suc, ◌+◌, ltb, String, Bool, true, false, not, ◌&&◌, ◌||◌,
  ◌==◌, Option, none, some, List, [], ◌∷◌, ◌++◌, map, all, any, keep, is_empty, contains, Result,
  ok, err, ◌>>=◌, if◌then◌else◌,
}
use fin_docs_analysis_evals.Common.Dict.{Dict, lookup, insert}
use fin_docs_analysis_evals.Ingest.Schema.{Text, Provenance, Chunk, text_of}
use fin_docs_analysis_evals.Ingest.Chunker.Blocks.{unique_provenance}
use fin_docs_analysis_evals.Reason.Figure.{SourceCitation}
use fin_docs_analysis_evals.Reason.Exec.{Raised, value_error}
use fin_docs_analysis_evals.Reason.Gate.Policy.{EvidencePolicy, PatternGroups}
use fin_docs_analysis_evals.Reason.Gate.Profile.{
  Reader, provenance_of, distinct, same_text, sole, matches_any,
}

pub data SectionStatus : Type 0 where
  confirmed ambiguous unknown : SectionStatus

pub record SectionClassification : Type 0 where
  pub section_document : String
  pub page_start : ℕ
  pub page_end : ℕ
  pub section_types : List String
  pub status : SectionStatus
  pub citations : List SourceCitation

-- A page of a document.
abbrev pub PageKey : Type 0
PageKey = String × ℕ

abbrev pub page_of : Provenance → PageKey
page_of p = (p.document_id, p.page_number)

abbrev pub same_page : PageKey → PageKey → Bool
same_page (d, n) (e, m) = d == e && n == m

-- `<` on the pairs
unfoldable pub page_lt : PageKey → PageKey → Bool
page_lt (d, n) (e, m) = str_lt d e || (d == e && ltb n m)

abbrev pub Pages : Type 0
Pages = List (PageKey × List Chunk)

-- `pages[key].append(chunk)` of a `defaultdict(list)`
abbrev pub append_at : PageKey → Chunk → Pages → Pages
append_at k c [] = (k, c ∷ []) ∷ []
append_at k c ((j, cs) ∷ pages) =
    let rest = append_at k c pages in
    if same_page j k then (j, cs ++ (c ∷ [])) ∷ pages else (j, cs) ∷ rest

abbrev pub append_pages : List Provenance → Chunk → Pages → Pages
append_pages [] c pages = pages
append_pages (p ∷ ps) c pages = append_pages ps c (append_at (page_of p) c pages)

-- `{p.document_id for p in chunk.provenance}`
abbrev pub owners : Chunk → List String
owners c = distinct same_text (map (λ p. p.document_id) (provenance_of c))

abbrev pub when_owned : Option String → Pages → Result Raised Pages
when_owned none pages = err value_error
when_owned (some d) pages = ok pages

unfoldable pub group_pages : List Chunk → Pages → Result Raised Pages
group_pages [] pages = ok pages
group_pages (c ∷ cs) pages = do
  next ← when_owned (sole (owners c)) (append_pages (provenance_of c) c pages)
  group_pages cs next

abbrev pub entry_lt : PageKey × List Chunk → PageKey × List Chunk → Bool
entry_lt (j, cs) (k, ds) = page_lt j k

abbrev pub Hits : Type 0
Hits = List (String × List Chunk)

abbrev pub without : String → Hits → Hits
without name hits = keep (λ h. not (h.0 == name)) hits

abbrev pub has_hit : String → Hits → Bool
has_hit name hits = any (λ h. h.0 == name) hits

-- A more specific heading contains the more general ones.
abbrev pub without_vendor : Hits → Hits
without_vendor hits =
    if has_hit "financial_information_report" hits then without "audited_financials" hits else hits

abbrev pub without_generic : Hits → Hits
without_generic hits =
    if has_hit "audited_financials" hits then without "financial_statement" hits else hits

abbrev pub or_unknown : List String → List String
or_unknown [] = "unknown" ∷ []
or_unknown (t ∷ ts) = t ∷ ts

abbrev pub status_of : Hits → SectionStatus
status_of [] = unknown
status_of (h ∷ []) = confirmed
status_of (h ∷ (g ∷ hs)) = ambiguous

abbrev pub page_provenances : PageKey → List Chunk → List Provenance
page_provenances k [] = []
page_provenances k (c ∷ cs) =
    keep (λ p. same_page (page_of p) k) (provenance_of c) ++ page_provenances k cs

abbrev pub hit_provenances : PageKey → Hits → List Provenance
hit_provenances k [] = []
hit_provenances k ((name, cs) ∷ hits) = page_provenances k cs ++ hit_provenances k hits

abbrev pub same_list : List String → List String → Bool
same_list [] [] = true
same_list (a ∷ xs) (b ∷ ys) = a == b && same_list xs ys
same_list _ _ = false

abbrev pub same_status : SectionStatus → SectionStatus → Bool
same_status confirmed confirmed = true
same_status ambiguous ambiguous = true
same_status unknown unknown = true
same_status _ _ = false

-- The next section goes on from the last one.
abbrev pub continues : SectionClassification → SectionClassification → Bool
continues old s =
    old.section_document == s.section_document
    && suc old.page_end == s.page_start
    && same_list old.section_types s.section_types
    && same_status old.status s.status

-- The sections so far, the last first.
abbrev pub add_section :
    SectionClassification → List SectionClassification → List SectionClassification
add_section s [] = s ∷ []
add_section s (old ∷ rest) =
    if continues old s
    then record old { page_end = s.page_end; citations = old.citations ++ s.citations } ∷ rest
    else s ∷ old ∷ rest

abbrev pub in_order :
    List SectionClassification → List SectionClassification → List SectionClassification
in_order [] done = done
in_order (s ∷ ss) done = in_order ss (s ∷ done)

module _ (r : Reader) (dump : Provenance → String) (cite : Provenance → SourceCitation) where
  -- `{name: chunks that have a pattern}`, without the empty ones
  unfoldable pub hits_of : PatternGroups → List Chunk → Hits
  hits_of [] items = []
  hits_of ((name, patterns) ∷ groups) items =
      let rest = hits_of groups items in
      let found = keep (λ c. matches_any r patterns (text_of c)) items in
      if is_empty found then rest else (name, found) ∷ rest

  -- The classification of one page.
  unfoldable pub section_of : PatternGroups → PageKey → List Chunk → SectionClassification
  unfolding hits_of sorted str_lt
  section_of groups (document, page) items =
      let hits = without_generic (without_vendor (hits_of groups items)) in
      record {
        section_document = document;
        page_start = page;
        page_end = page;
        section_types = or_unknown (sorted str_lt (map (λ h. h.0) hits));
        status = status_of hits;
        citations = map cite (unique_provenance dump (hit_provenances (document, page) hits));
      }

  unfoldable pub add_sections :
      PatternGroups → Pages → List SectionClassification → List SectionClassification
  unfolding section_of
  add_sections groups [] sections = sections
  add_sections groups ((k, items) ∷ pages) sections =
      add_sections groups pages (add_section (section_of groups k items) sections)

  unfoldable pub classify_sections :
      List Chunk → PatternGroups → Result Raised (List SectionClassification)
  unfolding group_pages add_sections sorted page_lt
  classify_sections chunks groups = do
    pages ← group_pages chunks []
    ok (in_order (add_sections groups (sorted entry_lt pages) []) [])
