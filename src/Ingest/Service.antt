-- ===== src/Ingest/Service.antt =====
-- `ingest_batch` of src/findociq/api/ingestion.py.
pub mod Laws
use fin_docs_analysis_evals.Common.{
  string_eq, ℕ, ◌+◌, ltb, String, Bool, true, false, not, ◌&&◌, ◌||◌, Option, none, some, List, [],
  ◌∷◌, ◌++◌, map, ◌==◌, length, is_some, is_empty, Result, ok, err, if◌then◌else◌,
}
use fin_docs_analysis_evals.Common.Dict.{lookup, insert}
use fin_docs_analysis_evals.Reason.Calculate.{truthy}
use fin_docs_analysis_evals.Ingest.Run.{
  Effect, emit, store, scan, parse, embed, upsert, release_models, Failure, ingestion_error,
  other_error, Process, Run, perform, fail, done, from_result, raise_when, finally, ◌>>=◌, ◌>>◌,
}
use fin_docs_analysis_evals.Ingest.GpuLease.{GpuLeaseConfig, Requester, ingestion_batch}
use fin_docs_analysis_evals.Ingest.Schema.{
  Text, ParsedPage, ParsedDocument, Metadata, TextChunk, TableChunk, Chunk, text_chunk, table_chunk,
  id_of, text_of, with_metadata,
}
use fin_docs_analysis_evals.Ingest.Engines.{
  ParseOutcome, parsed_as, parse_timeout, parse_failed, Inspection, Engines, IngestDocumentResponse,
  or_empty, redact_all, protect,
}
use fin_docs_analysis_evals.Ingest.Admission.{
  Bytes, IngestDocumentRequest, Policy, Verdict, clean, unsafe_document, Checks, decode_all,
  reject_if, ◌then_check◌, validate_page_counts,
}

module _ (checks : Checks) (policy : Option Policy) (max_bytes : ℕ) (engines : Engines)
    (lease : GpuLeaseConfig) (requester : Requester) (config_hash : String) (reporter : Bool) where
  -- `_emit`
  abbrev pub report : String → Run (Unit {0})
  report stage = if reporter then perform (emit stage) else done tt

  abbrev pub stored_name : Option String → Run String
  stored_name none = fail (other_error "storage")
  stored_name (some name) = done name

  -- `self.encrypted_store.store(…)`
  abbrev pub store_encrypted :
      (String → String → Bytes → Option String) → String → String → String → Bytes → Run String
  store_encrypted write application digest state content =
      perform (store digest state) >> stored_name (write application digest content)

  abbrev pub quarantine :
      Option (String → String → Bytes → Option String)
      → IngestDocumentRequest
      → Bytes
      → Run (Unit {0})
  quarantine none request content = done tt
  quarantine (some write) request content =
      if truthy request.application_id
      then (store_encrypted write (or_empty request.application_id) request.sha256 "quarantined"
            content
          >>= λ _. done tt)
      else done tt

  abbrev pub scanned : IngestDocumentRequest → Bytes → Verdict → Run String
  scanned request content (clean receipt) = done receipt
  scanned request content (unsafe_document message) =
      quarantine engines.encrypted_store request content >> fail (ingestion_error message)

  -- The loop of `_scan_before_gpu`, with the receipts so far.
  unfoldable pub scan_all :
      (Bytes → Verdict)
      → List IngestDocumentRequest
      → List Bytes
      → List (String × String)
      → Run (List (String × String))
  scan_all scanner (request ∷ requests) (content ∷ contents) receipts =
      perform (scan request.sha256)
      >> (scanned request content (scanner content) >>= λ receipt.
          scan_all scanner requests contents (insert request.sha256 receipt receipts))
  scan_all scanner _ _ receipts = done receipts

  abbrev pub scan_with :
      Option (Bytes → Verdict)
      → List IngestDocumentRequest
      → List Bytes
      → Run (List (String × String))
  scan_with none requests contents = fail (ingestion_error "malware_scanner_unavailable")
  scan_with (some scanner) requests contents = scan_all scanner requests contents []

  -- `_scan_before_gpu`
  abbrev pub scan_before_gpu :
      Option Policy → List IngestDocumentRequest → List Bytes → Run (List (String × String))
  scan_before_gpu none requests contents = done []
  scan_before_gpu (some rules) requests contents = scan_with checks.scanner requests contents

  abbrev pub over_count : Option Policy → ℕ → Bool
  over_count none n = false
  over_count (some rules) n = ltb rules.max_batch_documents n

  abbrev pub total_bytes : List Bytes → ℕ
  total_bytes [] = 0
  total_bytes (content ∷ contents) = length content + total_bytes contents

  abbrev pub over_bytes : Option Policy → List Bytes → Bool
  over_bytes none contents = false
  over_bytes (some rules) contents = ltb rules.max_batch_bytes (total_bytes contents)

  abbrev pub when_ok :
      Result Failure (Unit {0}) → Result Failure (List Bytes) → Result Failure (List Bytes)
  when_ok (err e) r = err e
  when_ok (ok _) r = r

  abbrev pub check_sizes : List Bytes → Result Failure (Unit {0})
  check_sizes contents =
      reject_if (over_bytes policy contents) "document batch exceeds configured byte limit"
      then_check validate_page_counts checks policy max_bytes policy contents

  abbrev pub sized : Result Failure (List Bytes) → Result Failure (List Bytes)
  sized (err e) = err e
  sized (ok contents) = when_ok (check_sizes contents) (ok contents)

  -- `ingest_batch` up to the scan.
  unfoldable pub check_batch : List IngestDocumentRequest → Result Failure (List Bytes)
  check_batch requests =
      when_ok
        (reject_if (is_empty requests) "ingestion batch must contain at least one document"
          then_check reject_if (over_count policy (length requests))
              "document batch exceeds configured count limit")
        (sized (decode_all checks policy max_bytes requests))

  -- The checks and the scan.
  unfoldable pub admit : List IngestDocumentRequest → Run (List Bytes × List (String × String))
  unfolding scan_all
  admit requests = do
    contents ← from_result (check_batch requests)
    receipts ← scan_before_gpu policy requests contents
    done (contents, receipts)

  -- `_parse`; only a production parser has a timeout
  abbrev pub parse_result : Option Policy → ParseOutcome → Result Failure ParsedDocument
  parse_result rules (parsed_as document) = ok document
  parse_result none parse_timeout = err (other_error "TimeoutError")
  parse_result (some rules) parse_timeout = err (ingestion_error "document_parse_timeout")
  parse_result rules parse_failed = err (other_error "parser")

  abbrev pub over_pages : Option Policy → ParsedDocument → Bool
  over_pages none document = false
  over_pages (some rules) document = ltb rules.max_pages (length document.pages)

  abbrev pub owned_by : Option String → Metadata → Metadata
  owned_by application m =
      if truthy application
      then record m { config_hash = some config_hash; application_id = application }
      else record m { config_hash = some config_hash }

  abbrev pub dlp_for : Option (Text → Inspection) → String → Option (Text → Inspection)
  dlp_for (some inspect) filename = some inspect
  dlp_for none filename = if checks.is_image filename then some engines.image_dlp else none

  abbrev pub store_file :
      Option (String → String → Bytes → Option String)
      → Option String
      → String
      → Bytes
      → Run (Option String)
  store_file none application digest content = perform (store digest "plain") >> done none
  store_file (some write) application digest content =
      if truthy application
      then (store_encrypted write (or_empty application) digest "active" content >>= λ name.
          done (some name))
      else perform (store digest "plain") >> done none

  abbrev pub hash_of_scan : String → Option String → Option String → Option String
  hash_of_scan digest policy_hash none = none
  hash_of_scan digest policy_hash (some receipt) =
      some (engines.hash_scan receipt digest policy_hash)

  abbrev pub name_or_plain : Option String → String
  name_or_plain none = "local_plaintext"
  name_or_plain (some name) = name

  abbrev pub response_of :
      IngestDocumentRequest
      → String
      → Option String
      → ParsedDocument
      → List Chunk
      → List String
      → Option String
      → IngestDocumentResponse
  response_of request digest file document chunks receipts scan_receipt = record {
    document_id = document.parsed_id;
    response_filename = request.filename;
    response_sha256 = digest;
    page_total = length document.pages;
    chunk_count = length chunks;
    chunk_ids = map id_of chunks;
    response_config_hash = config_hash;
    response_application = request.application_id;
    response_policy = request.policy_hash;
    scan_status = if is_some checks.scanner then some "clean" else none;
    scan_receipt = hash_of_scan digest request.policy_hash scan_receipt;
    dlp_receipt = if is_empty receipts then none else some (engines.hash_receipts receipts);
    storage_receipt =
        if truthy request.application_id
        then some (
            engines.hash_joined (
              or_empty request.application_id
              ∷ document.parsed_id
              ∷ digest
              ∷ name_or_plain file
              ∷ or_empty request.policy_hash
              ∷ []))
        else none;
  }

  -- `_ingest_one` up to its response, of a content that was decoded
  unfoldable pub index_document :
      IngestDocumentRequest
      → Bytes
      → Run (Option String × (ParsedDocument × (List Chunk × List String)))
  unfolding redact_all
  index_document request content = do
    report "validating_document"
    file ← store_file engines.encrypted_store request.application_id (checks.digest content) content
    report "parsing_document"
    perform (parse request.filename)
    document ← from_result (parse_result policy (engines.parse_file request.filename content))
    raise_when (over_pages policy document)
        (ingestion_error "document exceeds configured page limit")
    report "chunking_document"
    found ← from_result (engines.chunk document)
    raise_when (is_empty found) (ingestion_error "document produced no evidence chunks")
    protected ←
        protect (dlp_for engines.dlp request.filename)
          (map (with_metadata (owned_by request.application_id)) found)
    report "embedding_document"
    perform (embed (map id_of protected.0))
    raise_when (not (engines.embeddable (map text_of protected.0))) (other_error "embedder")
    report "indexing_document"
    perform (upsert (map id_of protected.0))
    raise_when (not (engines.upsertable protected.0)) (other_error "store")
    report "document_completed"
    done (file, (document, protected))

  unfoldable pub ingest_one :
      IngestDocumentRequest → Bytes → Option String → Run IngestDocumentResponse
  unfolding index_document
  ingest_one request content scan_receipt = do
    indexed ← index_document request content
    done (
        response_of request (checks.digest content) indexed.0 indexed.1.0 indexed.1.1.0
          indexed.1.1.1 scan_receipt)

  unfoldable pub ingest_each :
      List (String × String)
      → List IngestDocumentRequest
      → List Bytes
      → Run (List IngestDocumentResponse)
  unfolding ingest_one
  ingest_each receipts (request ∷ requests) (content ∷ contents) = do
    first ← ingest_one request content (lookup request.sha256 receipts)
    rest ← ingest_each receipts requests contents
    done (first ∷ rest)
  ingest_each receipts _ _ = done []

  -- The body of the `with`: the models are released whatever happens.
  unfoldable pub on_gpu :
      List (String × String)
      → List IngestDocumentRequest
      → List Bytes
      → Run (List IngestDocumentResponse)
  unfolding ingest_each
  on_gpu receipts requests contents =
      report "gpu_ingestion_ready"
      >> finally (ingest_each receipts requests contents)
          (report "releasing_gpu" >> perform release_models)

  -- `except Exception: _emit(…, "failed", …); raise`
  abbrev pub after_failure : {A : Type 0} → Result Failure A → Run A
  after_failure (ok a) p = (ok a, p)
  after_failure (err e) p = (err e, (report "failed" p).1)

  abbrev pub reporting_failure : {A : Type 0} → Run A → Run A
  reporting_failure m p = let (r, q) = m p in after_failure r q

  unfoldable pub ingest_admitted :
      List IngestDocumentRequest
      → List Bytes × List (String × String)
      → Run (List IngestDocumentResponse)
  unfolding on_gpu
  ingest_admitted requests (contents, receipts) =
      report "waiting_gpu"
      >> reporting_failure (
          ingestion_batch requester lease (on_gpu receipts requests contents) >>= λ results.
          report "vllm_ready" >> done results)

  unfoldable pub ingest_batch : List IngestDocumentRequest → Run (List IngestDocumentResponse)
  ingest_batch requests = admit requests >>= λ admitted. ingest_admitted requests admitted
