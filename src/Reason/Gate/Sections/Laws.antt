-- ===== src/Reason/Gate/Sections/Laws.antt =====
-- The sections cover the pages of the chunks.
use fin_docs_analysis_evals.Common.{
  string_eq, nat_eq, ◌≤◌, leb, String, ◌≡◌, refl, ◌∙◌, subst, Bool, ◌&&◌, ◌||◌, ◌==◌, Option, none,
  some, List, [], ◌∷◌, ◌++◌, any, All, Result, ok, err, ◌>>=◌, sorted, any-sorted, arith,
  Bool-cases, inl, inr,
}
use text.Mathlib.TextEquality.{eq_iff}
use fin_docs_analysis_evals.Ingest.Schema.{Provenance, Chunk}
use fin_docs_analysis_evals.Reason.Figure.{SourceCitation}
use fin_docs_analysis_evals.Reason.Exec.{Raised}
use fin_docs_analysis_evals.Reason.Gate.Policy.{PatternGroups}
use fin_docs_analysis_evals.Reason.Gate.Profile.{Reader, provenance_of, sole}
use fin_docs_analysis_evals.Reason.Gate.Sections.{
  SectionClassification, PageKey, page_of, same_page, Pages, append_at, append_pages, owners,
  when_owned, group_pages, entry_lt, continues, add_section, in_order, section_of, add_sections,
  classify_sections,
}

any-append :
    {A : Type 0} (p : A → Bool) (xs ys : List A) → any p (xs ++ ys) ≡ (any p xs || any p ys)
any-append p [] ys = refl
any-append p (x ∷ xs) ys = ground (arith, any-append p xs ys)

-- The section has the page.
abbrev pub holds : PageKey → SectionClassification → Bool
holds (d, n) s = s.section_document == d && leb s.page_start n && leb n s.page_end

-- A chunk has evidence on the page.
abbrev pub is_on : PageKey → Chunk → Bool
is_on k c = any (λ p. same_page (page_of p) k) (provenance_of c)

abbrev IsOrdered : List SectionClassification → Type 0
IsOrdered = All (λ s. s.page_start ≤ s.page_end)

-- The section of one page.
abbrev IsPage : PageKey → SectionClassification → Type 0
IsPage k s = (s.section_document ≡ k.0) × (s.page_start ≡ k.1) × (s.page_end ≡ k.1)

add_section-IsOrdered :
    (k : PageKey) (s : SectionClassification) (acc : List SectionClassification)
    → IsPage k s
    → IsOrdered acc
    → IsOrdered (add_section s acc)
add_section-IsOrdered k s [] h o = ground arith
add_section-IsOrdered k s (old ∷ rest) h o = elim (Bool-cases (continues old s)) [
  | inl e ↦ rw e (ground (arith, e), o.1)
  | inr e ↦ rw e (omega (arith, h), o)
]

any-add_section :
    (j k : PageKey) (s : SectionClassification) (acc : List SectionClassification)
    → IsPage k s
    → IsOrdered acc
    → any (holds j) (add_section s acc) ≡ (any (holds j) acc || same_page k j)
any-add_section (d, n) (e, m) s [] h o = ground (arith, eq_iff e d, eq_iff s.section_document d)
any-add_section (d, n) (e, m) s (old ∷ rest) h o = elim (Bool-cases (continues old s)) [
  | inl q ↦ rw q (
      ground (
        arith,
        q,
        eq_iff e d,
        eq_iff old.section_document d,
        eq_iff old.section_document s.section_document,
      ))
  | inr q ↦ rw q (ground (arith, eq_iff e d, eq_iff s.section_document d))
]

any-in_order :
    (p : SectionClassification → Bool) (ss done : List SectionClassification)
    → any p (in_order ss done) ≡ (any p ss || any p done)
any-in_order p [] done = refl
any-in_order p (s ∷ ss) done = ground (arith, any-in_order p ss (s ∷ done))

abbrev is_entry : PageKey → PageKey × List Chunk → Bool
is_entry k e = same_page e.0 k

any-append_at :
    (j k : PageKey) (c : Chunk) (pages : Pages)
    → any (is_entry j) (append_at k c pages) ≡ (any (is_entry j) pages || same_page k j)
any-append_at (d, n) (e, m) c [] = ground arith
any-append_at (d, n) (e, m) c (((f, l), cs) ∷ pages) =
    ground (arith, any-append_at (d, n) (e, m) c pages, eq_iff f e, eq_iff f d, eq_iff e d)

any-append_pages :
    (j : PageKey) (ps : List Provenance) (c : Chunk) (pages : Pages)
    → any (is_entry j) (append_pages ps c pages)
      ≡ (any (is_entry j) pages || any (λ p. same_page (page_of p) j) ps)
any-append_pages j [] c pages = ground arith
any-append_pages j (p ∷ ps) c pages = ground (
  arith,
  any-append_pages j ps c (append_at (page_of p) c pages),
  any-append_at j (page_of p) c pages,
)

any-group_pages :
    (j : PageKey) (cs : List Chunk) (pages grouped : Pages)
    → group_pages cs pages ≡ ok grouped
    → any (is_entry j) grouped ≡ (any (is_entry j) pages || any (is_on j) cs)
unfolding group_pages
any-group_pages j [] pages grouped e = ground (arith, e)
any-group_pages j (c ∷ cs) pages grouped e =
    by_owner (sole (owners c))
      (any-group_pages j cs (append_pages (provenance_of c) c pages) grouped) e
  where
    by_owner :
        (o : Option String)
        → (group_pages cs (append_pages (provenance_of c) c pages) ≡ ok grouped
            → any (is_entry j) grouped
              ≡ (any (is_entry j) (append_pages (provenance_of c) c pages) || any (is_on j) cs))
        → (when_owned o (append_pages (provenance_of c) c pages) >>= λ next. group_pages cs next)
          ≡ ok grouped
        → any (is_entry j) grouped ≡ (any (is_entry j) pages || any (is_on j) (c ∷ cs))
    by_owner none rest e = cc
    by_owner (some d) rest e = ground (arith, rest e, any-append_pages j (provenance_of c) c pages)

module _ (r : Reader) (dump : Provenance → String) (cite : Provenance → SourceCitation)
    (groups : PatternGroups) where
  section_of-IsPage :
      (k : PageKey) (items : List Chunk) → IsPage k (section_of r dump cite groups k items)
  unfolding section_of
  section_of-IsPage (d, n) items = (refl, refl, refl)

  any-add_sections :
      (j : PageKey) (pages : Pages) (acc : List SectionClassification)
      → IsOrdered acc
      → any (holds j) (add_sections r dump cite groups pages acc)
        ≡ (any (holds j) acc || any (is_entry j) pages)
  unfolding add_sections
  any-add_sections j [] acc o = ground arith
  any-add_sections j ((k, items) ∷ pages) acc o =
      let s = section_of r dump cite groups k items in
      ground (
        arith,
        any-add_sections j pages (add_section s acc)
            (add_section-IsOrdered k s acc (section_of-IsPage k items) o),
        any-add_section j k s acc (section_of-IsPage k items) o,
      )

  -- When the chunks can be classified, a page is in some section exactly when some chunk has evidence
  -- on it.
  pub classify_sections-covers :
      (chunks : List Chunk) (sections : List SectionClassification) (j : PageKey)
      → classify_sections r dump cite chunks groups ≡ ok sections
      → any (holds j) sections ≡ any (is_on j) chunks
  unfolding classify_sections
  classify_sections-covers chunks sections j e =
      by_pages (group_pages chunks []) (any-group_pages j chunks []) e
    where
      by_pages :
          (g : Result Raised Pages)
          → ((grouped : Pages) → g ≡ ok grouped → any (is_entry j) grouped ≡ any (is_on j) chunks)
          → (g >>= λ pages.
              ok (in_order (add_sections r dump cite groups (sorted entry_lt pages) []) []))
            ≡ ok sections
          → any (holds j) sections ≡ any (is_on j) chunks
      by_pages (err f) known e = cc
      by_pages (ok pages) known e =
          subst (λ ss. any (holds j) ss ≡ any (is_on j) chunks) (injective e)
            (any-in_order (holds j) (add_sections r dump cite groups (sorted entry_lt pages) []) []
              ∙ (ground (
                arith,
                any-add_sections j (sorted entry_lt pages) [] tt,
                any-sorted entry_lt (is_entry j) pages,
                known pages refl,
              )))
        where
          injective :
              {a b : List SectionClassification}
              → ◌≡◌ {A = Result Raised (List SectionClassification)} (ok a) (ok b)
              → a ≡ b
          injective q = cc
