-- ===== src/Ingest/Examples.antt =====
-- Tests of the ingestion modules, and concrete inputs of their theorems.
use fin_docs_analysis_evals.Common.{
  string_eq, ℕ, ◌≡◌, refl, Bool, true, false, none, some, List, [], ◌∷◌, ◌++◌, ◌==◌, ok, arith,
}
use fin_docs_analysis_evals.Ingest.Run.{
  get, post, Effect, http, other_error, Process, Run, fail, done,
}
use fin_docs_analysis_evals.Ingest.GpuLease.{
  GpuLeaseConfig, Requester, boolean, call, sleep_state, sleep, wake, restored, ingestion_batch,
}
use fin_docs_analysis_evals.Ingest.GpuLease.Laws.{ingestion_batch-wakes}
use fin_docs_analysis_evals.Ingest.Schema.{Text, Chunk, text_chunk}
use fin_docs_analysis_evals.Ingest.Chunker.Blocks.{no_metadata}
use fin_docs_analysis_evals.Ingest.Chunker.Split.{ChunkerConfig, spans}
use fin_docs_analysis_evals.Ingest.Chunker.Split.Laws.{Covers, spans-Covers}
use fin_docs_analysis_evals.Ingest.Admission.{
  Bytes, IngestDocumentRequest, Checks, decode_all, decode_and_validate,
}
use fin_docs_analysis_evals.Ingest.Engines.{Engines, parsed_as, IngestDocumentResponse}
use fin_docs_analysis_evals.Ingest.Service.{
  scan_all, check_batch, admit, index_document, ingest_one, ingest_each, on_gpu, ingest_admitted,
  ingest_batch,
}
use fin_docs_analysis_evals.Ingest.Service.Laws.{IsAnswer, ingest_batch-IsAnswer}
use fin_docs_analysis_evals.Ingest.Activity.{Activity}

abbrev gpu : GpuLeaseConfig
gpu = record { enabled = true; base_url = "http://127.0.0.1:8900"; timeout_seconds = 600 }

-- A server that sleeps once it is told to.
abbrev is_asleep : List Effect → Bool
is_asleep [] = false
is_asleep (http post path ∷ h) = path == "/sleep?level=1"
is_asleep (e ∷ h) = is_asleep h

abbrev server : Requester
server h m path = some (boolean (is_asleep h))

abbrev fresh : Process
fresh = record { effects = []; batch_sleeping = false }

abbrev put_to_sleep : Process
put_to_sleep = record {
  effects = http get "/is_sleeping" ∷ http post "/sleep?level=1" ∷ [];
  batch_sleeping = false;
}

abbrev failing : Run ℕ
failing = fail (other_error "parser")

falls_asleep : sleep server fresh ≡ (ok tt, put_to_sleep)
unfolding sleep sleep_state call
falls_asleep = refl

ingestion_batch-wakes_example :
    ((later : List Effect) × ((ingestion_batch server gpu failing fresh).1.effects
        ≡ later
          ++ (http post "/wake_up"
              ∷ (failing (record put_to_sleep { batch_sleeping = true })).1.effects)))
    × ((ingestion_batch server gpu failing fresh).1.batch_sleeping ≡ false)
ingestion_batch-wakes_example =
    ingestion_batch-wakes server gpu failing fresh put_to_sleep refl falls_asleep

abbrev returning : Run ℕ
returning = done 7

abbrev pdf : Bytes
pdf = 37 ∷ 80 ∷ 68 ∷ 70 ∷ 45 ∷ 49 ∷ []

abbrev file_checks : Checks
file_checks = record {
  b64decode = λ s. some pdf;
  digest = λ content. "5e";
  is_image = λ name. false;
  image_error = λ content name. none;
  page_count = λ content. some 1;
  scanner = none;
}

abbrev upload : IngestDocumentRequest
upload = record {
  contract_version = "2.0";
  filename = "accounts.pdf";
  sha256 = "5e";
  content_base64 = "JVBERi0x";
  application_id = none;
  policy_hash = none;
}

abbrev chunk_one : Chunk
chunk_one = text_chunk (record {
  text_id = "c1";
  body = 72 ∷ 105 ∷ [];
  text_provenance = [];
  text_metadata = no_metadata;
})

abbrev stub_engines : Engines
stub_engines = record {
  parse_file = λ name content.
      parsed_as
        (record { parsed_id = "5e"; pages = record { page_index = 1; page_blocks = [] } ∷ [] });
  chunk = λ document. ok (chunk_one ∷ []);
  dlp = none;
  image_dlp = λ text. record { redacted_text = text; instruction_risk = false; receipt = "" };
  embeddable = λ texts. true;
  upsertable = λ chunks. true;
  encrypted_store = none;
  hash_scan = λ receipt digest policy. receipt;
  hash_receipts = λ receipts. "";
  hash_joined = λ parts. "";
}

abbrev answer : IngestDocumentResponse
answer = record {
  document_id = "5e";
  response_filename = "accounts.pdf";
  response_sha256 = "5e";
  page_total = 1;
  chunk_count = 1;
  chunk_ids = "c1" ∷ [];
  response_config_hash = "cfg";
  response_application = none;
  response_policy = none;
  scan_status = none;
  scan_receipt = none;
  dlp_receipt = none;
  storage_receipt = none;
}

ingests :
    (ingest_batch file_checks none 10 stub_engines gpu server "cfg" true (upload ∷ []) fresh).0
    ≡ ok (answer ∷ [])
unfolding ingest_batch admit scan_all check_batch decode_all decode_and_validate ingest_admitted
    ingestion_batch restored sleep wake sleep_state call on_gpu ingest_each ingest_one
    index_document
ingests = refl

ingest_batch-IsAnswer_example : IsAnswer (upload ∷ []) (answer ∷ [])
ingest_batch-IsAnswer_example =
    ingest_batch-IsAnswer file_checks none 10 stub_engines gpu server "cfg" true (upload ∷ []) fresh
      (answer ∷ []) ingests

abbrev wrong_hash : IngestDocumentRequest
wrong_hash = record upload { sha256 = "00" }

abbrev small : ChunkerConfig
small = record { max_text_characters = 4; overlap_characters = 1; max_table_characters = 10 }

-- "ab cd ef"
abbrev words : Text
words = 97 ∷ 98 ∷ 32 ∷ 99 ∷ 100 ∷ 32 ∷ 101 ∷ 102 ∷ []

spans-Covers_example :
    (ws : List (ℕ × ℕ)) × (spans small words 9 0 ≡ some ws) × Covers small words 0 ws
spans-Covers_example = spans-Covers small words 8 0 (omega arith) (omega arith) (omega arith)

abbrev activity : Activity
activity = record {
  max_batches = 2;
  max_events_per_batch = 1;
  events = ("b", record { sequence = 1; stage = "waiting_gpu"; message = "" } ∷ []) ∷ [];
  statuses = [];
  sequences = ("b", 1) ∷ [];
  applications = [];
}
