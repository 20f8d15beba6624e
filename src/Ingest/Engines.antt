-- ===== src/Ingest/Engines.antt =====
-- What the ingestion service of src/findociq/api/ingestion.py calls and answers, and `_redact_chunk`.
use fin_docs_analysis_evals.Common.{
  ℕ, String, Bool, Option, none, some, List, [], ◌∷◌, ◌++◌, Result, ok, err, if◌then◌else◌,
}
use fin_docs_analysis_evals.Ingest.Run.{Failure, ingestion_error, Run, done, from_result, ◌>>=◌}
use fin_docs_analysis_evals.Ingest.Schema.{Text, ParsedDocument, Chunk, text_chunk, table_chunk}
use fin_docs_analysis_evals.Ingest.Admission.{Bytes}

pub data ParseOutcome : Type 0 where
  parsed_as : ParsedDocument → ParseOutcome
  parse_timeout parse_failed : ParseOutcome

pub record Inspection : Type 0 where
  pub redacted_text : Text
  pub instruction_risk : Bool
  pub receipt : String

-- What the service calls: the parser, the chunker, the data-loss check, the embedder and the index.
pub record Engines : Type 0 where
  pub parse_file : String → Bytes → ParseOutcome
  pub chunk : ParsedDocument → Result Failure (List Chunk)
  pub dlp : Option (Text → Inspection)
  -- the check that images have when `dlp` is not set
  pub image_dlp : Text → Inspection
  pub embeddable : List Text → Bool
  pub upsertable : List Chunk → Bool
  -- an encrypted store is set, and the name of the file that it writes
  pub encrypted_store : Option (String → String → Bytes → Option String)
  -- SHA-256 of the canonical JSON of receipts, and of texts joined by `|`
  pub hash_scan : String → String → Option String → String
  pub hash_receipts : List String → String
  pub hash_joined : List String → String

pub record IngestDocumentResponse : Type 0 where
  pub document_id : String
  pub response_filename : String
  pub response_sha256 : String
  pub page_total : ℕ
  pub chunk_count : ℕ
  pub chunk_ids : List String
  pub response_config_hash : String
  pub response_application : Option String
  pub response_policy : Option String
  pub scan_status : Option String
  pub scan_receipt : Option String
  pub dlp_receipt : Option String
  pub storage_receipt : Option String

abbrev pub or_empty : Option String → String
or_empty none = ""
or_empty (some s) = s

-- One field of `_redact_chunk`, with the receipts so far.
abbrev pub redacted : Inspection → Result Failure (Text × List String)
redacted result =
    if result.instruction_risk
    then err (ingestion_error "document_prompt_injection_risk")
    else ok (result.redacted_text, result.receipt ∷ [])

abbrev pub redact_optional : (Text → Inspection) → Option Text → Run (Option Text × List String)
redact_optional inspect none = done (none, [])
redact_optional inspect (some value) = do
  new ← from_result (redacted (inspect value))
  done (some new.0, new.1)

-- `_redact_chunk`
unfoldable pub redact_chunk : (Text → Inspection) → Chunk → Run (Chunk × List String)
redact_chunk inspect (text_chunk c) = do
  text ← from_result (redacted (inspect c.body))
  done (text_chunk (record c { body = text.0 }), text.1)
redact_chunk inspect (table_chunk c) = do
  text ← from_result (redacted (inspect c.full_text))
  table ← from_result (redacted (inspect c.table_text))
  caption ← redact_optional inspect c.table_caption
  context ← redact_optional inspect c.preceding_context
  done (
    table_chunk (record c {
      full_text = text.0;
      table_text = table.0;
      table_caption = caption.0;
      preceding_context = context.0;
    }),
    text.1 ++ (table.1 ++ (caption.1 ++ context.1)),
  )

unfoldable pub redact_all : (Text → Inspection) → List Chunk → Run (List Chunk × List String)
unfolding redact_chunk
redact_all inspect [] = done ([], [])
redact_all inspect (c ∷ cs) = do
  first ← redact_chunk inspect c
  rest ← redact_all inspect cs
  done (first.0 ∷ rest.0, first.1 ++ rest.1)

abbrev pub protect : Option (Text → Inspection) → List Chunk → Run (List Chunk × List String)
protect none chunks = done (chunks, [])
protect (some inspect) chunks = redact_all inspect chunks
