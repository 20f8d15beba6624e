-- ===== src/Lib.antt =====
-- FinDocIQ: a verification library.
--
-- FinDocIQ takes financial documents of a borrower, cuts them into cited chunks, and answers a lender's
-- metrics from them. Four parts of it are modelled here.
--
-- Ingest, src/findociq/ingest and src/findociq/api: a batch of files is checked, scanned, parsed,
-- chunked and indexed while it has the GPU to itself.
--   Ingest/Run.antt        an action on what the process has done so far, which may fail; the effects
--                          are a list, the latest first, and a failure keeps those before it
--   Ingest/GpuLease.antt   VllmGpuLease of src/findociq/ingest/gpu_lease.py; a requester's reply may
--                          depend on all the effects before it
--   Ingest/Schema.antt     blocks, documents and chunks of src/findociq/ingest/schema.py
--   Ingest/Chunker.antt    LayoutAwareChunker of src/findociq/ingest/chunker.py; what it reads of
--                          the blocks around a table is Ingest/Chunker/Blocks.antt, and its loop over a
--                          text is Ingest/Chunker/Split.antt
--   Ingest/Admission.antt, Ingest/Engines.antt, Ingest/Service.antt
--                          DocumentIngestionService of src/findociq/api/ingestion.py: the checks of one
--                          file, what the service calls, and ingest_batch. In the source the admission
--                          of a batch stands inside ingest_batch; here it is check_batch and admit.
--   Ingest/Activity.antt   IngestionActivityRegistry of src/findociq/api/activity.py
--
-- Security, src/findociq/security: who owns a document, and who may ask.
--   Security/Record.antt, Security/Registry.antt, Security/Postgres.antt
--                          DocumentRecord, the in-memory and the production registry of registry.py
--   Security/Local.antt    LocalDocumentRegistry of local_registry.py
--   Security/DocumentSets.antt  freeze and DocumentSetStore of document_sets.py
--   Security/Auth.antt, Security/Replay.antt
--                          ServiceJwtVerifier and InMemoryReplayLedger of auth.py
--
-- Reason, src/findociq/reason: which figures the chunks state, what is calculated from them, and how an
-- answer in words is held to the chunks.
--   Reason/Decimal.antt, Reason/Formulas.antt   accounting_formulas.py, on decimals of 28 digits
--   Reason/Exec.antt, Reason/Figure.antt        exceptions, figures and receipts (schema.py)
--   Reason/Calculate.antt, Reason/DebtService.antt, Reason/Dscr.antt
--                          calculations.py, debt_service.py and dscr.py; the cache of dscr.py is state
--   Reason/Gate.antt       extract of BorrowerEvidenceGate in evidence_gate.py; reading a figure from
--                          the chunks is the argument `direct`
--   Reason/Gate/Policy.antt, Reason/Gate/Profile.antt
--                          EvidencePolicy with its validation, _matches and profile
--   Reason/Gate/Sources.antt, Reason/Gate/Direct.antt, Reason/Gate/Selection/Rows.antt,
--   Reason/Gate/Selection.antt
--                          _direct, in the order of the source: the documents and the borrower, one
--                          row, the loops, and the choice at their end. What regular expressions
--                          and hashes tell of a text is the record Reader; _rows, the region of an
--                          address and the activities of a table are parameters. An Evidence is the
--                          figure with its receipt; the command of a reviewer and the list of
--                          activities are not kept in it.
--   Reason/Gate/Sections.antt, Reason/Gate/Basis.antt, Reason/Gate/Citations.antt
--                          classification.py, basis.py, and the grounding of citations in schema.py
--   Reason/Gate/Interpretation.antt, Reason/Gate/Interpretation/Options.antt
--                          interpretations.py: resolving a reviewer's link, which _direct calls, and
--                          the links that are offered; a loop that returns at its hundredth option
--                          is the list of all options cut at a hundred
--   Reason/Gate/Assess.antt   assess of BorrowerEvidenceGate
--   Reason/Passes.antt, Reason/Passes/Answer.antt, Reason/Passes/Single.antt
--                          pass1_extract.py, pass2_reason.py, single_pass.py and ReasoningPipeline.run of
--                          pipeline.py: the language model is the record Model, with what regular
--                          expressions find in a text; of the hits only the chunks are read
--   Reason/Age.antt        completed_years of company_age.py
--
-- Retrieve, src/findociq/retrieve: the hits for a query.
--   Retrieve/Keys.antt     the keys of the query cache and the marker of an application in them
--   Retrieve/Pipeline.antt RetrievalPipeline of pipeline.py: the cache is a list from the least to the
--                          most recently used entry; the embedder, the store, the reranker and the
--                          order of scores are the record Adapters
--   Retrieve/Fusion.antt   reciprocal_rank_fusion of hybrid.py, over any numbers with the operations
--                          that it uses
--
-- Common.antt holds what the parts share: lists, dictionaries in insertion order, results, sorting.
-- A method under a lock is one function on the state. Laws.antt beside a module proves what its
-- operations do; the Examples modules run them on concrete inputs.
--
-- Bounds and fuel. Digits of a decimal are counted with as much fuel as the number, and a result is
-- rounded to 28 digits as in the source; exponents are not bounded. The loop that splits a text has
-- one unit of fuel more than the text has characters: each turn starts further on.
--
-- Not modelled: parsers, language and embedding models, the vector index, HTTP routing, cryptography,
-- regular expressions over page text, and the evaluation harness, which call other libraries. What the
-- modelled code needs of them is a parameter: base64, JSON, hashes, the requester, the parser, the
-- scanner, the embedder. The text of a date, and details of an event, are not kept.
pub mod Common
pub mod Ingest
pub mod Security
pub mod Reason
pub mod Retrieve
