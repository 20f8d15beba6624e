-- ===== src/Reason/Gate/Selection/Laws.antt =====
-- What a figure that was read rests on.
use fin_docs_analysis_evals.Common.{
  string_eq, nat_eq, ℕ, String, ◌≡◌, refl, subst, inl, inr, Bool, true, false, ◌==◌, Option, none,
  some, List, [], ◌∷◌, any, All, All-append, Has, Result, ok, err, raise_if, if◌then◌else◌, bind-ok,
  ok_injective,
}
use fin_docs_analysis_evals.Common.Dict.{lookup}
use fin_docs_analysis_evals.Ingest.Schema.{Provenance, Chunk, id_of}
use fin_docs_analysis_evals.Reason.Decimal.{Decimal}
use fin_docs_analysis_evals.Reason.Exec.{Raised}
use fin_docs_analysis_evals.Reason.Figure.{SourceCitation}
use fin_docs_analysis_evals.Reason.Gate.Policy.{MetricRule}
use fin_docs_analysis_evals.Reason.Gate.Profile.{DocumentProfile, provenance_of}
use fin_docs_analysis_evals.Reason.Gate.Sections.{SectionClassification}
use fin_docs_analysis_evals.Reason.Gate.Basis.{BasisResolution}
use fin_docs_analysis_evals.Reason.Gate.Sources.{
  BasisInterpretation, Row, Gate, document_ambiguous, entity_ambiguous_error, Documents, chunks_of,
}
use fin_docs_analysis_evals.Reason.Gate.Direct.{
  Value, Evidence, Context, evidence_provenance, only, value_of, check_name, citation_ambiguous,
  cited_provenance, evidence_of,
}
use fin_docs_analysis_evals.Reason.Gate.Selection.Rows.{
  Found, basis_for, unit_for, off_topic, not_owned, mixed_source, each_row, read_rows, read_chunk,
  read_chunks, read_sources,
}
use fin_docs_analysis_evals.Reason.Gate.Selection.{recent_rows}

-- The evidence is cited to the one place of a chunk of the list.
pub record IsCited (g : Gate) (metric entity : String) (chunks : List Chunk) (e : Evidence)
    : Type 0 where
  pub chunk : Chunk
  pub in_chunks : Has chunk chunks
  pub named : e.chunk_id ≡ id_of chunk
  pub place : Provenance
  pub only_place : only (evidence_provenance chunk) ≡ some place
  pub cited : e.citation ≡ g.cite place
  pub of_metric : e.metric ≡ metric
  pub of_entity : e.entity ≡ entity
  pub of_policy : e.policy_hash ≡ g.policy.policy_hash

IsCited-within :
    (g : Gate) (metric entity : String) (cs ds : List Chunk) (e : Evidence)
    → ((c : Chunk) → Has c cs → Has c ds)
    → IsCited g metric entity cs e
    → IsCited g metric entity ds e
IsCited-within g metric entity cs ds e sub h = record {
  chunk = h.chunk;
  in_chunks = sub h.chunk h.in_chunks;
  named = h.named;
  place = h.place;
  only_place = h.only_place;
  cited = h.cited;
  of_metric = h.of_metric;
  of_entity = h.of_entity;
  of_policy = h.of_policy;
}

All-within :
    (g : Gate) (metric entity : String) (cs ds : List Chunk) (es : List Evidence)
    → ((c : Chunk) → Has c cs → Has c ds)
    → All (IsCited g metric entity cs) es
    → All (IsCited g metric entity ds) es
All-within g metric entity cs ds [] sub h = tt
All-within g metric entity cs ds (e ∷ es) sub h =
    (IsCited-within g metric entity cs ds e sub h.0, All-within g metric entity cs ds es sub h.1)

module _ (g : Gate) (is_whole : Decimal → Bool) (region_of : Value → Result Raised Value) where
  cited_provenance-ok :
      (c : Chunk) (o : Option Provenance) (citation : SourceCitation)
      → cited_provenance g is_whole c o ≡ ok citation
      → (p : Provenance) × (o ≡ some p) × (citation ≡ g.cite p)
  cited_provenance-ok c none citation h = cc
  cited_provenance-ok c (some p) citation h =
      (p, refl, by_test (any (λ q. g.dump q == g.dump p) (provenance_of c)) h)
    where
      by_test :
          (b : Bool)
          → ◌≡◌ {A = Result Raised SourceCitation}
              (if b then ok (g.cite p) else err citation_ambiguous)
              (ok citation)
          → citation ≡ g.cite p
      by_test true q = cc
      by_test false q = cc

  evidence_of-IsCited :
      (k : Context) (row : Row) (cs : List Chunk) (e : Evidence)
      → Has k.chunk cs
      → evidence_of g is_whole region_of k row ≡ ok e
      → IsCited g k.metric_id k.entity_hash cs e
  unfolding evidence_of
  evidence_of-IsCited k (raw, period) cs e there h =
      let (read, h1, k1) = bind-ok (value_of g is_whole k.rule.kind k.row_factor raw) _ e h in
      let (u, h2, k2) = bind-ok (check_name g is_whole k.metric_id k.entity_hash read) _ e k1 in
      let (value, h3, k3) =
        bind-ok (if k.metric_id == "region" then region_of read else ok read) _ e k2 in
      let (citation, h4, k4) =
        bind-ok (cited_provenance g is_whole k.chunk (only (evidence_provenance k.chunk))) _ e k3 in
      let (p, only_place, cited) =
        cited_provenance-ok k.chunk (only (evidence_provenance k.chunk)) citation h4 in
      subst (IsCited g k.metric_id k.entity_hash cs) (ok_injective _ e k4) (record {
        chunk = k.chunk;
        in_chunks = there;
        named = refl;
        place = p;
        only_place = only_place;
        cited = cited;
        of_metric = refl;
        of_entity = refl;
        of_policy = refl;
      })

module _ (g : Gate) (is_whole : Decimal → Bool) (region_of : Value → Result Raised Value)
    (resolve_link : BasisInterpretation
      → Chunk
      → List Chunk
      → Option ℕ
      → Result Raised BasisResolution) where
  each_row-IsCited :
      (k : Context) (rows : List Row) (cs : List Chunk) (es : List Evidence)
      → Has k.chunk cs
      → each_row g is_whole region_of resolve_link k rows ≡ ok es
      → All (IsCited g k.metric_id k.entity_hash cs) es
  each_row-IsCited k [] cs es there h =
      subst (All (IsCited g k.metric_id k.entity_hash cs)) (ok_injective [] es h) tt
  each_row-IsCited k (row ∷ rows) cs es there h =
      let (e, h1, k1) = bind-ok (evidence_of g is_whole region_of k row) _ es h in
      let (more, h2, k2) = bind-ok (each_row g is_whole region_of resolve_link k rows) _ es k1 in
      subst (All (IsCited g k.metric_id k.entity_hash cs)) (ok_injective (e ∷ more) es k2) (
        evidence_of-IsCited g is_whole region_of k row cs e there h1,
        each_row-IsCited k rows cs more there h2,
      )

  module _ (metric : String) (rule : MetricRule) (entity : String) (latest : Option ℕ)
      (sections : List SectionClassification) where
    read_rows-IsCited :
        (p : DocumentProfile) (source : List Chunk) (c : Chunk) (rows : List Row)
        (es : List Evidence)
        → Has c source
        → read_rows g is_whole region_of resolve_link metric rule entity sections p source c rows
          ≡ ok es
        → All (IsCited g metric entity source) es
    read_rows-IsCited p source c [] es there h =
        subst (All (IsCited g metric entity source)) (ok_injective [] es h) tt
    read_rows-IsCited p source c (row ∷ rows) es there h =
        let (u1, h1, k1) =
          bind-ok
            (raise_if (off_topic g is_whole region_of resolve_link rule p.profile_id c sections)
              document_ambiguous)
            _ es h in
        let (u2, h2, k2) =
          bind-ok
            (raise_if (not_owned g is_whole region_of resolve_link p entity) entity_ambiguous_error)
            _ es k1 in
        let (basis, h3, k3) =
          bind-ok
            (basis_for g is_whole region_of resolve_link rule p.profile_id c source (row ∷ rows)) _
            es k2 in
        let (unit, h4, k4) =
          bind-ok (unit_for g is_whole region_of resolve_link rule c source) _ es k3 in
        each_row-IsCited _ (row ∷ rows) source es there k4

    read_chunk-IsCited :
        (p : DocumentProfile) (source : List Chunk) (c : Chunk) (found : Found)
        → Has c source
        → read_chunk g is_whole region_of resolve_link metric rule entity latest sections p source c
          ≡ ok found
        → All (IsCited g metric entity source) found.1
    unfolding read_chunk
    read_chunk-IsCited p source c found there h =
        let (rows, h1, k1) = bind-ok (g.rows_of c rule entity) _ found h in
        let (es, h2, k2) =
          bind-ok
            (read_rows g is_whole region_of resolve_link metric rule entity sections p source c
              (recent_rows rule latest rows))
            _ found k1 in
        subst (λ f. All (IsCited g metric entity source) f.1) (ok_injective _ found k2)
          (read_rows-IsCited p source c (recent_rows rule latest rows) es there h2)

    read_chunks-IsCited :
        (p : DocumentProfile) (source cs : List Chunk) (found : Found)
        → ((c : Chunk) → Has c cs → Has c source)
        → read_chunks g is_whole region_of resolve_link metric rule entity latest sections p source
            cs
          ≡ ok found
        → All (IsCited g metric entity source) found.1
    unfolding read_chunks
    read_chunks-IsCited p source [] found sub h =
        subst (λ f. All (IsCited g metric entity source) f.1) (ok_injective (false, []) found h) tt
    read_chunks-IsCited p source (c ∷ cs) found sub h =
        let (first, h1, k1) =
          bind-ok
            (read_chunk g is_whole region_of resolve_link metric rule entity latest sections p
              source c)
            _ found h in
        let (rest, h2, k2) =
          bind-ok
            (read_chunks g is_whole region_of resolve_link metric rule entity latest sections p
              source cs)
            _ found k1 in
        subst (λ f. All (IsCited g metric entity source) f.1) (ok_injective _ found k2)
          (All-append (IsCited g metric entity source) first.1 rest.1
            (read_chunk-IsCited p source c first (sub c (inl refl)) h1)
            (read_chunks-IsCited p source cs rest (λ d i. sub d (inr i)) h2))

    pub read_sources-IsCited :
        (docs : Documents) (ps : List DocumentProfile) (chunks : List Chunk) (found : Found)
        → ((d : String) (c : Chunk) → Has c (chunks_of g (lookup d docs)) → Has c chunks)
        → read_sources g is_whole region_of resolve_link metric rule entity latest sections docs ps
          ≡ ok found
        → All (IsCited g metric entity chunks) found.1
    unfolding read_sources
    read_sources-IsCited docs [] chunks found sub h =
        subst (λ f. All (IsCited g metric entity chunks) f.1) (ok_injective (false, []) found h) tt
    read_sources-IsCited docs (p ∷ ps) chunks found sub h =
        let (u0, h0, k0) =
          bind-ok (raise_if (mixed_source g is_whole region_of resolve_link p) document_ambiguous) _
            found h in
        let source = chunks_of g (lookup p.profile_id docs) in
        let (first, h1, k1) =
          bind-ok
            (read_chunks g is_whole region_of resolve_link metric rule entity latest sections p
              source source)
            _ found k0 in
        let (rest, h2, k2) =
          bind-ok
            (read_sources g is_whole region_of resolve_link metric rule entity latest sections docs
              ps)
            _ found k1 in
        subst (λ f. All (IsCited g metric entity chunks) f.1) (ok_injective _ found k2)
          (All-append (IsCited g metric entity chunks) first.1 rest.1
            (All-within g metric entity source chunks first.1 (sub p.profile_id)
              (read_chunks-IsCited p source source first (λ c i. i) h1))
            (read_sources-IsCited docs ps chunks rest sub h2))
