-- ===== src/Ingest/Admission.antt =====
-- The checks of src/findociq/api/ingestion.py before a batch takes the GPU.
pub mod Laws
use fin_docs_analysis_evals.Common.{
  string_eq, ℕ, ◌+◌, ltb, String, Bool, true, false, not, ◌&&◌, ◌||◌, Option, none, some, List, [],
  ◌∷◌, ◌==◌, nat_beq, length, Result, ok, err, if◌then◌else◌,
}
use fin_docs_analysis_evals.Reason.Calculate.{opt_eq, truthy}
use fin_docs_analysis_evals.Ingest.Run.{
  Effect, store, scan, Failure, ingestion_error, other_error, Run, perform, fail, done, from_result,
  raise_when, ◌>>=◌, ◌>>◌,
}

-- The bytes of a file.
abbrev pub Bytes : Type 0
Bytes = List ℕ

pub record IngestDocumentRequest : Type 0 where
  pub contract_version : String
  pub filename : String
  pub sha256 : String
  pub content_base64 : String
  pub application_id : Option String
  pub policy_hash : Option String

-- The limits of `ProductionGuardrailPolicy`
pub record Policy : Type 0 where
  pub max_batch_documents : ℕ
  pub max_batch_bytes : ℕ
  pub max_pdf_bytes : ℕ
  pub max_pages : ℕ
  pub production_hash : String

pub data Verdict : Type 0 where
  clean : String → Verdict
  unsafe_document : String → Verdict

-- What the checks call: decoding, hashing, the image and PDF readers and the malware scanner.
pub record Checks : Type 0 where
  -- `b64decode(…, validate=True)`; `none` is its exception
  pub b64decode : String → Option Bytes
  pub digest : Bytes → String
  -- `Path(name).suffix.lower() in {".jpg", ".jpeg", ".png"}`
  pub is_image : String → Bool
  -- `validate_image`; the message of its `ValueError`
  pub image_error : Bytes → String → Option String
  -- the page count that PyMuPDF reads; `none` is its exception
  pub page_count : Bytes → Option ℕ
  pub scanner : Option (Bytes → Verdict)

-- `content.startswith(b"%PDF-")`
abbrev pub is_pdf : Bytes → Bool
is_pdf (a ∷ b ∷ c ∷ d ∷ e ∷ rest) =
    nat_beq a 37 && nat_beq b 80 && nat_beq c 68 && nat_beq d 70 && nat_beq e 45
is_pdf _ = false

abbrev pub unless_error : Option String → Result Failure (Unit {0})
unless_error none = ok tt
unless_error (some message) = err (ingestion_error message)

infixl 5 ◌then_check◌
abbrev pub ◌then_check◌ :
    Result Failure (Unit {0}) → Result Failure (Unit {0}) → Result Failure (Unit {0})
◌then_check◌ (err e) r = err e
◌then_check◌ (ok _) r = r

abbrev pub reject_if : Bool → String → Result Failure (Unit {0})
reject_if c message = if c then err (ingestion_error message) else ok tt

module _ (checks : Checks) (policy : Option Policy) (max_bytes : ℕ) where
  abbrev pub size_limit : Option Policy → ℕ
  size_limit none = max_bytes
  size_limit (some rules) = rules.max_pdf_bytes

  abbrev pub check_type : IngestDocumentRequest → Bytes → Result Failure (Unit {0})
  check_type request content =
      if checks.is_image request.filename
      then unless_error (checks.image_error content request.filename)
      else reject_if (not (is_pdf content)) "document is not a PDF"

  abbrev pub check_contract : Option Policy → IngestDocumentRequest → Result Failure (Unit {0})
  check_contract none request = ok tt
  check_contract (some rules) request =
      reject_if (not (request.contract_version == "2.0"))
        "production ingestion requires contract version 2.0"
      then_check reject_if (not (opt_eq request.policy_hash (some rules.production_hash)))
          "guardrail policy hash mismatch"

  -- After decoding.
  abbrev pub check_content : IngestDocumentRequest → Bytes → Result Failure (Unit {0})
  check_content request content =
      reject_if (ltb (size_limit policy) (length content))
        "document exceeds the configured size limit"
      then_check check_type request content
      then_check reject_if (not (checks.digest content == request.sha256))
          "document SHA-256 does not match content"
      then_check check_contract policy request

  abbrev pub returning : Bytes → Result Failure (Unit {0}) → Result Failure Bytes
  returning content (ok _) = ok content
  returning content (err e) = err e

  abbrev pub check_decoded : IngestDocumentRequest → Option Bytes → Result Failure Bytes
  check_decoded request none = err (ingestion_error "document content is not valid base64")
  check_decoded request (some content) = returning content (check_content request content)

  -- `_decode_and_validate`
  unfoldable pub decode_and_validate : IngestDocumentRequest → Result Failure Bytes
  decode_and_validate request = check_decoded request (checks.b64decode request.content_base64)

  abbrev pub prepend : Bytes → Result Failure (List Bytes) → Result Failure (List Bytes)
  prepend content (ok contents) = ok (content ∷ contents)
  prepend content (err e) = err e

  abbrev pub and_rest :
      Result Failure Bytes → Result Failure (List Bytes) → Result Failure (List Bytes)
  and_rest (err e) rest = err e
  and_rest (ok content) rest = prepend content rest

  -- `tuple(self._decode_and_validate(request) for request in requests)`
  unfoldable pub decode_all : List IngestDocumentRequest → Result Failure (List Bytes)
  unfolding decode_and_validate
  decode_all [] = ok []
  decode_all (request ∷ requests) = and_rest (decode_and_validate request) (decode_all requests)

  abbrev pub pages_within : ℕ → Option ℕ → Result Failure (Unit {0})
  pages_within maximum none = err (ingestion_error "malformed_pdf")
  pages_within maximum (some n) = reject_if (ltb maximum n) "document exceeds configured page limit"

  abbrev pub page_check : ℕ → Bytes → Result Failure (Unit {0})
  page_check maximum content =
      if is_pdf content then pages_within maximum (checks.page_count content) else ok tt

  abbrev pub page_checks : ℕ → List Bytes → Result Failure (Unit {0})
  page_checks maximum [] = ok tt
  page_checks maximum (content ∷ contents) =
      page_check maximum content then_check page_checks maximum contents

  -- `_validate_page_counts`
  abbrev pub validate_page_counts : Option Policy → List Bytes → Result Failure (Unit {0})
  validate_page_counts none contents = ok tt
  validate_page_counts (some rules) contents = page_checks rules.max_pages contents
