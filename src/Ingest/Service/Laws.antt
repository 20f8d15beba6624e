-- ===== src/Ingest/Service/Laws.antt =====
-- An accepted batch.
use fin_docs_analysis_evals.Common.{
  string_eq, ℕ, String, Bool, ◌≡◌, refl, ◌∙◌, Option, List, [], ◌∷◌, map, Result, ok, err,
}
use fin_docs_analysis_evals.Ingest.Run.{
  Failure, Process, Run, finally, done, from_result, perform, release_models, ◌>>=◌, ◌>>◌,
}
use fin_docs_analysis_evals.Ingest.Run.Returning.{
  Returns, bind-Returns, bind-Returns-Returns, from_result-Returns, done-Returns,
}
use fin_docs_analysis_evals.Ingest.GpuLease.{GpuLeaseConfig, Requester, ingestion_batch}
use fin_docs_analysis_evals.Ingest.Engines.{Engines, IngestDocumentResponse}
use fin_docs_analysis_evals.Ingest.Admission.{
  Bytes, IngestDocumentRequest, Policy, Checks, decode_all,
}
use fin_docs_analysis_evals.Ingest.Admission.Laws.{AllAccepted, decode_all-ok}
use fin_docs_analysis_evals.Ingest.Service.{
  when_ok, sized, check_batch, scan_before_gpu, report, admit, index_document, response_of,
  ingest_one, ingest_each, on_gpu, after_failure, reporting_failure, ingest_admitted, ingest_batch,
}
use fin_docs_analysis_evals.Common.Dict.{lookup}
use fin_docs_analysis_evals.Ingest.GpuLease.Returning.{finally-Returns, ingestion_batch-Returns}

abbrev hashes_of : List IngestDocumentResponse → List String
hashes_of rs = map (λ r. r.response_sha256) rs

-- One response for each request, with its hash, in their order.
abbrev pub IsAnswer : List IngestDocumentRequest → List IngestDocumentResponse → Type 0
IsAnswer requests rs = hashes_of rs ≡ map (λ r. r.sha256) requests

cons_eq : {a b : String} {xs ys : List String} → a ≡ b → xs ≡ ys → a ∷ xs ≡ b ∷ ys
cons_eq p q = cc

module _ (checks : Checks) (policy : Option Policy) (max_bytes : ℕ) (engines : Engines)
    (lease : GpuLeaseConfig) (requester : Requester) (config_hash : String) (reporter : Bool) where
  ingest_one-hash :
      (request : IngestDocumentRequest) (content : Bytes) (receipt : Option String)
      → Returns
          (λ r. r.response_sha256 ≡ checks.digest content)
          (ingest_one checks policy max_bytes engines lease requester config_hash reporter request
            content receipt)
  unfolding ingest_one
  ingest_one-hash request content receipt =
      bind-Returns (λ r. r.response_sha256 ≡ checks.digest content)
        (index_document checks policy max_bytes engines lease requester config_hash reporter request
          content)
        (λ indexed. done (
          response_of checks policy max_bytes engines lease requester config_hash reporter request
            (checks.digest content) indexed.0 indexed.1.0 indexed.1.1.0 indexed.1.1.1 receipt))
        λ indexed. done-Returns (λ r. r.response_sha256 ≡ checks.digest content) _ refl

  abbrev each :
      List (String × String)
      → List IngestDocumentRequest
      → List Bytes
      → Run (List IngestDocumentResponse)
  each = ingest_each checks policy max_bytes engines lease requester config_hash reporter

  ingest_each-hashes :
      (receipts : List (String × String)) (requests : List IngestDocumentRequest)
      (contents : List Bytes)
      → AllAccepted checks policy max_bytes requests contents
      → Returns (IsAnswer requests) (each receipts requests contents)
  unfolding ingest_each
  ingest_each-hashes receipts [] [] h = done-Returns (IsAnswer []) [] refl
  ingest_each-hashes receipts [] (content ∷ contents) h = elim h [ ]
  ingest_each-hashes receipts (request ∷ requests) [] h = elim h [ ]
  ingest_each-hashes receipts (request ∷ requests) (content ∷ contents) (first, others) =
      bind-Returns-Returns (λ r. r.response_sha256 ≡ checks.digest content)
        (IsAnswer (request ∷ requests))
        (ingest_one checks policy max_bytes engines lease requester config_hash reporter request
          content (lookup request.sha256 receipts))
        (λ r. each receipts requests contents >>= λ rs. done (r ∷ rs))
        (ingest_one-hash request content (lookup request.sha256 receipts))
        λ r hash.
          bind-Returns-Returns (IsAnswer requests) (IsAnswer (request ∷ requests))
            (each receipts requests contents) (λ rs. done (r ∷ rs))
            (ingest_each-hashes receipts requests contents others)
            λ rs same.
              done-Returns (IsAnswer (request ∷ requests)) (r ∷ rs)
                (cons_eq (hash ∙ first.hash_matches) same)

  abbrev IsAdmitted : List IngestDocumentRequest → List Bytes × List (String × String) → Type 0
  IsAdmitted requests (contents, receipts) = AllAccepted checks policy max_bytes requests contents

  check_batch-AllAccepted :
      (requests : List IngestDocumentRequest) (contents : List Bytes)
      → check_batch checks policy max_bytes engines lease requester config_hash reporter requests
        ≡ ok contents
      → AllAccepted checks policy max_bytes requests contents
  unfolding check_batch
  check_batch-AllAccepted requests contents e =
      decode_all-ok checks policy max_bytes requests contents
        (of_sized (decode_all checks policy max_bytes requests) contents (of_when _ _ contents e))
    where
      of_when :
          (g : Result Failure (Unit {0})) (r : Result Failure (List Bytes)) (contents : List Bytes)
          → when_ok checks policy max_bytes engines lease requester config_hash reporter g r
            ≡ ok contents
          → r ≡ ok contents
      of_when (ok u) r contents e = e
      of_when (err f) r contents e = cc

      of_sized :
          (r : Result Failure (List Bytes)) (contents : List Bytes)
          → sized checks policy max_bytes engines lease requester config_hash reporter r
            ≡ ok contents
          → r ≡ ok contents
      of_sized (ok cs) contents e = of_when _ _ contents e
      of_sized (err f) contents e = cc

  admit-IsAdmitted :
      (requests : List IngestDocumentRequest)
      → Returns
          (IsAdmitted requests)
          (admit checks policy max_bytes engines lease requester config_hash reporter requests)
  unfolding admit
  admit-IsAdmitted requests =
      bind-Returns-Returns
        (λ cs.
          check_batch checks policy max_bytes engines lease requester config_hash reporter requests
          ≡ ok cs)
        (IsAdmitted requests)
        (from_result (
          check_batch checks policy max_bytes engines lease requester config_hash reporter
            requests))
        (λ cs.
          scan_before_gpu checks policy max_bytes engines lease requester config_hash reporter
            policy requests cs
          >>= λ rs. done (cs, rs))
        (from_result-Returns (
          check_batch checks policy max_bytes engines lease requester config_hash reporter
            requests))
        λ cs accepted.
          bind-Returns (IsAdmitted requests)
            (scan_before_gpu checks policy max_bytes engines lease requester config_hash reporter
              policy requests cs)
            (λ rs. done (cs, rs))
            λ rs.
              done-Returns (IsAdmitted requests) (cs, rs)
                (check_batch-AllAccepted requests cs accepted)

  on_gpu-IsAnswer :
      (receipts : List (String × String)) (requests : List IngestDocumentRequest)
      (contents : List Bytes)
      → AllAccepted checks policy max_bytes requests contents
      → Returns (IsAnswer requests) (
          on_gpu checks policy max_bytes engines lease requester config_hash reporter receipts
            requests contents)
  unfolding on_gpu
  on_gpu-IsAnswer receipts requests contents h =
      bind-Returns (IsAnswer requests)
        (report checks policy max_bytes engines lease requester config_hash reporter
          "gpu_ingestion_ready")
        (λ _. finally (each receipts requests contents) (
          report checks policy max_bytes engines lease requester config_hash reporter
            "releasing_gpu"
          >> perform release_models))
        λ _.
          finally-Returns (IsAnswer requests) (each receipts requests contents)
            (report checks policy max_bytes engines lease requester config_hash reporter
                "releasing_gpu"
              >> perform release_models)
            (ingest_each-hashes receipts requests contents h)

  after_failure-ok :
      {B : Type 0} (r : Result Failure B) (q : Process) (b : B)
      → (after_failure checks policy max_bytes engines lease requester config_hash reporter r q).0
        ≡ ok b
      → r ≡ ok b
  after_failure-ok (ok a) q b e = e
  after_failure-ok (err f) q b e = cc

  reporting_failure-Returns :
      {B : Type 0} (P : B → Type 0) (m : Run B)
      → Returns P m
      → Returns P
          (reporting_failure checks policy max_bytes engines lease requester config_hash reporter m)
  reporting_failure-Returns P m h p b e = h p b (after_failure-ok (m p).0 (m p).1 b e)

  ingest_admitted-IsAnswer :
      (requests : List IngestDocumentRequest) (admitted : List Bytes × List (String × String))
      → IsAdmitted requests admitted
      → Returns (IsAnswer requests) (
          ingest_admitted checks policy max_bytes engines lease requester config_hash reporter
            requests admitted)
  unfolding ingest_admitted
  ingest_admitted-IsAnswer requests (contents, receipts) h =
      bind-Returns (IsAnswer requests)
        (report checks policy max_bytes engines lease requester config_hash reporter "waiting_gpu")
        (λ _.
          reporting_failure checks policy max_bytes engines lease requester config_hash reporter
            leased_run)
        λ _. reporting_failure-Returns (IsAnswer requests) leased_run (
          bind-Returns-Returns (IsAnswer requests) (IsAnswer requests)
            (ingestion_batch requester lease (
              on_gpu checks policy max_bytes engines lease requester config_hash reporter receipts
                requests contents))
            (λ results.
              report checks policy max_bytes engines lease requester config_hash reporter
                "vllm_ready"
              >> done results)
            (ingestion_batch-Returns (IsAnswer requests) requester lease
              (on_gpu checks policy max_bytes engines lease requester config_hash reporter receipts
                requests contents)
              (on_gpu-IsAnswer receipts requests contents h))
            λ results answer.
              bind-Returns (IsAnswer requests)
                (report checks policy max_bytes engines lease requester config_hash reporter
                  "vllm_ready")
                (λ _. done results) λ _. done-Returns (IsAnswer requests) results answer)
    where
      leased_run : Run (List IngestDocumentResponse)
      leased_run =
          ingestion_batch requester lease (
            on_gpu checks policy max_bytes engines lease requester config_hash reporter receipts
              requests contents)
          >>= λ results.
              report checks policy max_bytes engines lease requester config_hash reporter
                "vllm_ready"
              >> done results

  -- A batch that returns has one response for each request, in their order and with the hash that the
  -- request gives.
  pub ingest_batch-IsAnswer :
      (requests : List IngestDocumentRequest) (p : Process) (rs : List IngestDocumentResponse)
      → (ingest_batch checks policy max_bytes engines lease requester config_hash reporter requests
          p).0
        ≡ ok rs
      → IsAnswer requests rs
  unfolding ingest_batch
  ingest_batch-IsAnswer requests p rs e =
      bind-Returns-Returns (IsAdmitted requests) (IsAnswer requests)
        (admit checks policy max_bytes engines lease requester config_hash reporter requests)
        (λ admitted.
          ingest_admitted checks policy max_bytes engines lease requester config_hash reporter
            requests admitted)
        (admit-IsAdmitted requests) (ingest_admitted-IsAnswer requests) p rs e
