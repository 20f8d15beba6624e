-- ===== src/Reason/Gate/Basis/Laws.antt =====
-- A basis is never chosen between two.
use fin_docs_analysis_evals.Common.{
  string_eq, nat_eq, ℕ, ltb, String, ◌≡◌, refl, subst, sym, ◌⊎◌, inl, inr, Bool, true, false, not,
  ◌||◌, ◌==◌, Option, none, some, List, [], ◌∷◌, ◌++◌, map, contains, length, Has, Result, ok, err,
  ◌>>=◌, ◌>>◌, raise_if, if◌then◌else◌, arith,
}
use fin_docs_analysis_evals.Ingest.Schema.{Provenance, Chunk, text_of}
use fin_docs_analysis_evals.Reason.Exec.{Raised, evidence, scope_violation}
use fin_docs_analysis_evals.Reason.Figure.{SourceCitation}
use fin_docs_analysis_evals.Reason.Gate.Policy.{EvidencePolicy}
use fin_docs_analysis_evals.Reason.Gate.Profile.{
  Reader, joined, distinct, same_text, declares, sole,
}
use fin_docs_analysis_evals.Reason.Gate.Basis.{
  BasisResolution, basis_ambiguous, documents_of, sharing_page, outside, bases_in, first_basis,
  in_years, declared_with, tagged, declaration, declarations_of, all_declarations, declared,
  on_bases, resolve_basis, cited_once,
}

module _ (r : Reader) (cite : Provenance → SourceCitation) (same_chunk : Chunk → Chunk → Bool)
    (policy : EvidencePolicy) where
  sole-eq : (xs : List String) (x : String) → sole xs ≡ some x → xs ≡ x ∷ []
  sole-eq [] x e = cc
  sole-eq (y ∷ []) x e = cc
  sole-eq (y ∷ (z ∷ zs)) x e = cc

  Has-tagged :
      (basis : String) (cs : List Chunk) (d : String × Chunk)
      → Has d (tagged r cite same_chunk policy basis cs)
      → d.0 ≡ basis
  Has-tagged basis [] d h = absurd h
  Has-tagged basis (c ∷ cs) d (inl e) = cc
  Has-tagged basis (c ∷ cs) d (inr h) = Has-tagged basis cs d h

  Has-append : {A : Type 0} (xs ys : List A) (a : A) → Has a (xs ++ ys) → Has a xs ⊎ Has a ys
  Has-append [] ys a h = inr h
  Has-append (x ∷ xs) ys a (inl e) = inl (inl e)
  Has-append (x ∷ xs) ys a (inr h) = moved (Has-append xs ys a h)
    where
      moved : Has a xs ⊎ Has a ys → ((x ≡ a) ⊎ Has a xs) ⊎ Has a ys
      moved (inl k) = inl (inr k)
      moved (inr k) = inr k

  abbrev bases : Chunk → List String
  bases c = bases_in r cite same_chunk policy (text_of c)

  abbrev is_heading_of : Chunk → Bool
  is_heading_of c = declares r policy.basis_declaration_patterns (text_of c)

  abbrev years_around : Chunk → List Chunk → List ℕ
  years_around c source = r.report_years (joined (sharing_page c source))

  -- A declaration that was found comes from a chunk of `cs` that declares it for the year.
  pub record Found (source cs : List Chunk) (period : Option ℕ) (basis : String) : Type 0 where
    pub year : ℕ
    pub of_period : period ≡ some year
    pub chunk : Chunk
    pub listed : Has chunk cs
    pub heading : is_heading_of chunk ≡ true
    pub named : bases chunk ≡ basis ∷ []
    pub dated : contains year (years_around chunk source) ≡ true

  abbrev AllFound : List Chunk → List Chunk → Option ℕ → List (String × Chunk) → Type 0
  AllFound source cs period ds = (d : String × Chunk) → Has d ds → Found source cs period d.0

  Found-cons :
      (source cs : List Chunk) (c : Chunk) (period : Option ℕ) (basis : String)
      → Found source cs period basis
      → Found source (c ∷ cs) period basis
  Found-cons source cs c period basis f = record {
    year = f.year;
    of_period = f.of_period;
    chunk = f.chunk;
    listed = inr f.listed;
    heading = f.heading;
    named = f.named;
    dated = f.dated;
  }

  in_years-some :
      (period : Option ℕ) (years : List ℕ)
      → in_years r cite same_chunk policy period years ≡ true
      → (year : ℕ) × (period ≡ some year) × (contains year years ≡ true)
  in_years-some none years e = cc
  in_years-some (some year) years e = (year, refl, e)

  declarations_of-Found :
      (c : Chunk) (source cs : List Chunk) (period : Option ℕ) (ds : List (String × Chunk))
      → declarations_of r cite same_chunk policy c source period ≡ ok ds
      → AllFound source (c ∷ cs) period ds
  declarations_of-Found c source cs period ds e = by_heading (is_heading_of c) refl e
    where
      nothing :
          ◌≡◌ {A = Result Raised (List (String × Chunk))} (ok []) (ok ds)
          → AllFound source (c ∷ cs) period ds
      nothing q d h = absurd (subst (λ l. Has d l) (empty q) h)
        where
          empty : ◌≡◌ {A = Result Raised (List (String × Chunk))} (ok []) (ok ds) → ds ≡ []
          empty q = cc

      by_year :
          (basis : String) (b : Bool)
          → is_heading_of c ≡ true
          → bases c ≡ basis ∷ []
          → in_years r cite same_chunk policy period (years_around c source) ≡ b
          → ◌≡◌ {A = Result Raised (List (String × Chunk))}
              (if b
                then ok (
                    tagged r cite same_chunk policy basis
                      (declared_with r cite same_chunk policy c period (sharing_page c source)))
                else ok [])
              (ok ds)
          → AllFound source (c ∷ cs) period ds
      by_year basis false headed named dated q = nothing q
      by_year basis true headed named dated q = λ d h.
          let (year, of_period, known) = in_years-some period (years_around c source) dated in
          let same = Has-tagged basis _ d (subst (λ l. Has d l) (listed q) h) in
          record {
            year = year;
            of_period = of_period;
            chunk = c;
            listed = inl refl;
            heading = headed;
            named = subst (λ x. bases c ≡ x ∷ []) (sym same) named;
            dated = known;
          }
        where
          listed :
              ◌≡◌ {A = Result Raised (List (String × Chunk))}
                (ok (
                  tagged r cite same_chunk policy basis
                    (declared_with r cite same_chunk policy c period (sharing_page c source))))
                (ok ds)
              → ds
                ≡ tagged r cite same_chunk policy basis
                    (declared_with r cite same_chunk policy c period (sharing_page c source))
          listed q = cc

      by_basis :
          (o : Option String)
          → is_heading_of c ≡ true
          → sole (bases c) ≡ o
          → declaration r cite same_chunk policy c (sharing_page c source) period o ≡ ok ds
          → AllFound source (c ∷ cs) period ds
      by_basis none headed named q = cc
      by_basis (some basis) headed named q =
          by_year basis _ headed (sole-eq (bases c) basis named) refl q

      by_heading :
          (b : Bool)
          → is_heading_of c ≡ b
          → (if b
              then declaration r cite same_chunk policy c
                  (sharing_page c source)
                  period
                  (sole (bases c))
              else ok [])
            ≡ ok ds
          → AllFound source (c ∷ cs) period ds
      by_heading false headed q = nothing q
      by_heading true headed q = by_basis (sole (bases c)) headed refl q

  all_declarations-Found :
      (source cs : List Chunk) (period : Option ℕ) (ds : List (String × Chunk))
      → all_declarations r cite same_chunk policy source cs period ≡ ok ds
      → AllFound source cs period ds
  unfolding all_declarations
  all_declarations-Found source [] period ds e = λ d h. absurd (subst (λ l. Has d l) (empty e) h)
    where
      empty : ◌≡◌ {A = Result Raised (List (String × Chunk))} (ok []) (ok ds) → ds ≡ []
      empty q = cc
  all_declarations-Found source (c ∷ cs) period ds e =
      by_parts (declarations_of r cite same_chunk policy c source period) refl
        (all_declarations r cite same_chunk policy source cs period)
        (λ rest. all_declarations-Found source cs period rest) e
    where
      by_parts :
          (here : Result Raised (List (String × Chunk)))
          → declarations_of r cite same_chunk policy c source period ≡ here
          → (more : Result Raised (List (String × Chunk)))
          → ((rest : List (String × Chunk)) → more ≡ ok rest → AllFound source cs period rest)
          → (here >>= λ xs. more >>= λ ys. ok (xs ++ ys)) ≡ ok ds
          → AllFound source (c ∷ cs) period ds
      by_parts (err f) got more known q = cc
      by_parts (ok xs) got (err f) known q = cc
      by_parts (ok xs) got (ok ys) known q =
          λ d h. either d (Has-append xs ys d (subst (λ l. Has d l) (split q) h))
        where
          split :
              ◌≡◌ {A = Result Raised (List (String × Chunk))} (ok (xs ++ ys)) (ok ds)
              → ds ≡ xs ++ ys
          split q = cc

          either : (d : String × Chunk) → Has d xs ⊎ Has d ys → Found source (c ∷ cs) period d.0
          either d (inl k) = declarations_of-Found c source cs period xs got d k
          either d (inr k) = Found-cons source cs c period d.0 (known ys refl d k)

  -- Where a basis comes from.
  pub data IsResolved (target : Chunk) (source : List Chunk) (period : Option ℕ)
      : BasisResolution → Type 0 where
    on_the_page :
        (b : BasisResolution)
        → bases_in r cite same_chunk policy (joined (sharing_page target source)) ≡ b.basis ∷ []
        → IsResolved target source period b
    by_declaration :
        (b : BasisResolution)
        → bases_in r cite same_chunk policy (joined (sharing_page target source)) ≡ []
        → ltb 1 (length (bases_in r cite same_chunk policy (joined source))) ≡ false
        → Found source source period b.basis
        → IsResolved target source period b

  -- A basis that is resolved is the only one that the target's pages name; or these name none, the
  -- whole source names one at most, and a heading of the source declares the basis alone, on pages
  -- that report the period.
  pub resolve_basis-IsResolved :
      (target : Chunk) (source : List Chunk) (period : Option ℕ) (b : BasisResolution)
      → resolve_basis r cite same_chunk policy target source period ≡ ok b
      → IsResolved target source period b
  unfolding resolve_basis
  resolve_basis-IsResolved target source period b e =
      by_scope (not (length (documents_of target) == 1) || outside (documents_of target) source) e
    where
      local : List Chunk
      local = sharing_page target source

      injective :
          (a : BasisResolution) → ◌≡◌ {A = Result Raised BasisResolution} (ok a) (ok b) → a ≡ b
      injective a q = cc

      by_declared :
          (ds : List (String × Chunk)) (unclear : Bool)
          → (ltb 1 (length (bases_in r cite same_chunk policy (joined source)))
              || not (length (distinct same_text (map (λ d. d.0) ds)) == 1))
            ≡ unclear
          → bases_in r cite same_chunk policy (joined local) ≡ []
          → AllFound source source period ds
          → (raise_if unclear basis_ambiguous
              >> ok (record {
                basis = first_basis ds;
                resolution = "report_declaration";
                context = cited_once r cite same_chunk policy (map (λ d. d.1) ds);
              }))
            ≡ ok b
          → IsResolved target source period b
      by_declared ds true clear none_local found q = cc
      by_declared [] false clear none_local found q = absurd (ground (arith, clear))
      by_declared (d ∷ ds) false clear none_local found q =
          subst (IsResolved target source period) (injective _ q)
            (by_declaration _ none_local (ground (arith, clear)) (found d (inl refl)))

      by_declarations :
          (out : Result Raised (List (String × Chunk)))
          → ((ds : List (String × Chunk)) → out ≡ ok ds → AllFound source source period ds)
          → bases_in r cite same_chunk policy (joined local) ≡ []
          → (out >>= λ ds. declared r cite same_chunk policy source ds) ≡ ok b
          → IsResolved target source period b
      by_declarations (err f) known none_local q = cc
      by_declarations (ok ds) known none_local q =
          by_declared ds _ refl none_local (known ds refl) q

      by_bases :
          (found : List String)
          → bases_in r cite same_chunk policy (joined local) ≡ found
          → on_bases r cite same_chunk policy source local period found ≡ ok b
          → IsResolved target source period b
      by_bases [] known q =
          by_declarations (all_declarations r cite same_chunk policy source source period)
            (all_declarations-Found source source period) known q
      by_bases (x ∷ []) known q =
          subst (IsResolved target source period) (injective _ q) (on_the_page _ known)
      by_bases (x ∷ (y ∷ ys)) known q = cc

      by_scope :
          (wrong : Bool)
          → (raise_if wrong (evidence scope_violation)
              >> on_bases r cite same_chunk policy source local period
                  (bases_in r cite same_chunk policy (joined local)))
            ≡ ok b
          → IsResolved target source period b
      by_scope true q = cc
      by_scope false q = by_bases _ refl q
