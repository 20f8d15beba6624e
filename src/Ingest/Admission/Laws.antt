-- ===== src/Ingest/Admission/Laws.antt =====
-- What is known of a file that passed the checks.
use fin_docs_analysis_evals.Common.{
  string_eq, ℕ, ◌≤◌, ◌≡◌, refl, subst, ◌⊎◌, inl, inr, ltb, String, Bool, true, false, not, Option,
  none, some, List, [], ◌∷◌, ◌==◌, length, Result, ok, err, if◌then◌else◌, arith,
}
use fin_docs_analysis_evals.Ingest.Run.{Failure}
use fin_docs_analysis_evals.Ingest.Admission.{
  Bytes, IngestDocumentRequest, Policy, Checks, is_pdf, unless_error, ◌then_check◌, reject_if,
  size_limit, check_type, check_contract, check_content, check_decoded, decode_and_validate,
  decode_all, and_rest, returning,
}
use text.Mathlib.TextEquality.{eq_iff}

reject_if-ok : (c : Bool) (message : String) → reject_if c message ≡ ok tt → c ≡ false
reject_if-ok true message e = cc
reject_if-ok false message e = refl

then_check-ok :
    (r s : Result Failure (Unit {0})) → (r then_check s) ≡ ok tt → (r ≡ ok tt) × (s ≡ ok tt)
then_check-ok (ok u) s e = (refl, e)
then_check-ok (err f) s e = cc

module _ (checks : Checks) (policy : Option Policy) (max_bytes : ℕ) where
  -- What the service relies on for one file of an accepted batch.
  pub record IsAccepted (request : IngestDocumentRequest) (content : Bytes) : Type 0 where
    pub decoded : checks.b64decode request.content_base64 ≡ some content
    pub hash_matches : checks.digest content ≡ request.sha256
    pub within_limit : length content ≤ size_limit checks policy max_bytes policy
    pub typed : (checks.is_image request.filename ≡ true) ⊎ (is_pdf content ≡ true)
    pub contract : check_contract checks policy max_bytes policy request ≡ ok tt

  check_type-ok :
      (request : IngestDocumentRequest) (content : Bytes)
      → check_type checks policy max_bytes request content ≡ ok tt
      → (checks.is_image request.filename ≡ true) ⊎ (is_pdf content ≡ true)
  check_type-ok request content e = by_kind (checks.is_image request.filename) refl e
    where
      by_kind :
          (b : Bool)
          → checks.is_image request.filename ≡ b
          → (if b
              then unless_error (checks.image_error content request.filename)
              else reject_if (not (is_pdf content)) "document is not a PDF")
            ≡ ok tt
          → (checks.is_image request.filename ≡ true) ⊎ (is_pdf content ≡ true)
      by_kind true q e = inl q
      by_kind false q e =
          let no = reject_if-ok (not (is_pdf content)) "document is not a PDF" e in
          inr (ground (arith, no))

  from_checks :
      (request : IngestDocumentRequest) (c : Bytes)
      → check_content checks policy max_bytes request c ≡ ok tt
      → checks.b64decode request.content_base64 ≡ some c
      → IsAccepted request c
  from_checks request c got from =
      let (three, contracted) =
        then_check-ok
          (reject_if (ltb (size_limit checks policy max_bytes policy) (length c))
              "document exceeds the configured size limit"
            then_check check_type checks policy max_bytes request c
            then_check reject_if (not (checks.digest c == request.sha256))
                "document SHA-256 does not match content")
          (check_contract checks policy max_bytes policy request) got in
      let (two, hashed) =
        then_check-ok
          (reject_if (ltb (size_limit checks policy max_bytes policy) (length c))
              "document exceeds the configured size limit"
            then_check check_type checks policy max_bytes request c)
          (reject_if (not (checks.digest c == request.sha256))
            "document SHA-256 does not match content")
          three in
      let (sized, of_type) =
        then_check-ok
          (reject_if (ltb (size_limit checks policy max_bytes policy) (length c))
            "document exceeds the configured size limit")
          (check_type checks policy max_bytes request c) two in
      let small =
        reject_if-ok (ltb (size_limit checks policy max_bytes policy) (length c)) _ sized in
      let same = reject_if-ok (not (checks.digest c == request.sha256)) _ hashed in
      record {
        decoded = from;
        hash_matches = ground (arith, same, eq_iff (checks.digest c) request.sha256);
        within_limit = ground (arith, small);
        typed = check_type-ok request c of_type;
        contract = contracted;
      }

  pub decode_and_validate-ok :
      (request : IngestDocumentRequest) (content : Bytes)
      → decode_and_validate checks policy max_bytes request ≡ ok content
      → IsAccepted request content
  unfolding decode_and_validate
  decode_and_validate-ok request content e =
      by_bytes (checks.b64decode request.content_base64) refl e
    where
      accepted :
          (c : Bytes) (r : Result Failure (Unit {0}))
          → check_content checks policy max_bytes request c ≡ r
          → checks.b64decode request.content_base64 ≡ some c
          → returning checks policy max_bytes c r ≡ ok content
          → IsAccepted request content
      accepted c (err f) got from e = cc
      accepted c (ok u) got from e =
          subst (IsAccepted request) (injective e) (from_checks request c got from)
        where
          injective : ◌≡◌ {A = Result Failure Bytes} (ok c) (ok content) → c ≡ content
          injective q = cc

      by_bytes :
          (o : Option Bytes)
          → checks.b64decode request.content_base64 ≡ o
          → check_decoded checks policy max_bytes request o ≡ ok content
          → IsAccepted request content
      by_bytes none from e = cc
      by_bytes (some c) from e =
          accepted c (check_content checks policy max_bytes request c) refl from e

  -- The contents are those of the requests, one for one.
  abbrev pub AllAccepted : List IngestDocumentRequest → List Bytes → Type 0
  AllAccepted [] [] = Unit
  AllAccepted (request ∷ requests) (content ∷ contents) =
      IsAccepted request content × AllAccepted requests contents
  AllAccepted _ _ = ⊥

  pub decode_all-ok :
      (requests : List IngestDocumentRequest) (contents : List Bytes)
      → decode_all checks policy max_bytes requests ≡ ok contents
      → AllAccepted requests contents
  unfolding decode_all
  decode_all-ok [] [] e = tt
  decode_all-ok [] (content ∷ contents) e = cc
  decode_all-ok (request ∷ requests) contents e =
      by_results (decode_and_validate checks policy max_bytes request) refl
        (decode_all checks policy max_bytes requests) (λ cs. decode_all-ok requests cs) contents e
    where
      by_results :
          (r : Result Failure Bytes)
          → decode_and_validate checks policy max_bytes request ≡ r
          → (rs : Result Failure (List Bytes))
          → ((cs : List Bytes) → rs ≡ ok cs → AllAccepted requests cs)
          → (contents : List Bytes) → and_rest checks policy max_bytes r rs ≡ ok contents
          → AllAccepted (request ∷ requests) contents
      by_results (err f) got rs rest contents e = cc
      by_results (ok c) got (err f) rest contents e = cc
      by_results (ok c) got (ok cs) rest [] e = cc
      by_results (ok c) got (ok cs) rest (d ∷ ds) e =
          let (first, others) = injective e in
          (
            subst (IsAccepted request) first (decode_and_validate-ok request c got),
            subst (AllAccepted requests) others (rest cs refl),
          )
        where
          injective :
              ◌≡◌ {A = Result Failure (List Bytes)} (ok (c ∷ cs)) (ok (d ∷ ds))
              → (c ≡ d) × (cs ≡ ds)
          injective q = (cc, cc)
