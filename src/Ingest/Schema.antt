-- ===== src/Ingest/Schema.antt =====
-- src/findociq/ingest/schema.py. A text is the list of its code points.
use fin_docs_analysis_evals.Common.{ℕ, String, Bool, Option, List, [], ◌∷◌, ◌++◌}

abbrev pub Text : Type 0
Text = List ℕ

pub data BlockType : Type 0 where
  heading paragraph caption table image : BlockType

pub record Provenance : Type 0 where
  pub document_id : String
  pub source_path : String
  pub page_number : ℕ
  -- the bounding box and the size of the page, as they are dumped
  pub geometry : String

pub record DocumentBlock : Type 0 where
  pub block_type : BlockType
  pub text : Text
  pub provenance : Provenance
  pub table_id : Option String

pub record ParsedPage : Type 0 where
  pub page_index : ℕ
  pub page_blocks : List DocumentBlock

pub record ParsedDocument : Type 0 where
  pub parsed_id : String
  pub pages : List ParsedPage

-- `tuple(block for page in self.pages for block in page.blocks)`
abbrev pub blocks_of : List ParsedPage → List DocumentBlock
blocks_of [] = []
blocks_of (page ∷ pages) = page.page_blocks ++ blocks_of pages

-- The entries of `metadata` that the code writes or reads.
pub record Metadata : Type 0 where
  pub block_kind : Option BlockType
  pub part : Option ℕ
  pub table_name : Option String
  pub atomic : Bool
  pub page_spanning : Bool
  pub parts : Option ℕ
  pub continued : Bool
  pub config_hash : Option String
  pub application_id : Option String

pub record TextChunk : Type 0 where
  pub text_id : String
  pub body : Text
  pub text_provenance : List Provenance
  pub text_metadata : Metadata

pub record TableChunk : Type 0 where
  pub table_chunk_id : String
  pub full_text : Text
  pub table_text : Text
  pub table_caption : Option Text
  pub preceding_context : Option Text
  pub provenances : List Provenance
  pub table_provenance : List Provenance
  pub table_metadata : Metadata

pub data Chunk : Type 0 where
  text_chunk : TextChunk → Chunk
  table_chunk : TableChunk → Chunk

abbrev pub id_of : Chunk → String
id_of (text_chunk c) = c.text_id
id_of (table_chunk c) = c.table_chunk_id

abbrev pub text_of : Chunk → Text
text_of (text_chunk c) = c.body
text_of (table_chunk c) = c.full_text

abbrev pub with_metadata : (Metadata → Metadata) → Chunk → Chunk
with_metadata f (text_chunk c) = text_chunk (record c { text_metadata = f c.text_metadata })
with_metadata f (table_chunk c) = table_chunk (record c { table_metadata = f c.table_metadata })
