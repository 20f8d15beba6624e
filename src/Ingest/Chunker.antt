-- ===== src/Ingest/Chunker.antt =====
-- `LayoutAwareChunker` of src/findociq/ingest/chunker.py.
pub mod Split
pub mod Blocks
use fin_docs_analysis_evals.Common.{
  nat_eq, string_eq, ℕ, zero, suc, ◌+◌, ◌-◌, ltb, leb, String, Bool, true, false, not, ◌&&◌, ◌||◌,
  ◌==◌, Option, none, some, List, [], ◌∷◌, ◌++◌, length, get_elem?, set, is_empty, contains, Result,
  ok, err, nat_beq, if◌then◌else◌,
}
use fin_docs_analysis_evals.Ingest.Schema.{
  Text, BlockType, heading, paragraph, caption, table, image, Provenance, DocumentBlock,
  ParsedDocument, blocks_of, Metadata, TextChunk, TableChunk, Chunk, text_chunk, table_chunk,
}
use fin_docs_analysis_evals.Ingest.Chunker.Split.{
  ChunkerConfig, is_prefix, blank_line, strip, split_text,
}
use fin_docs_analysis_evals.Ingest.Chunker.Blocks.{
  is_paragraph_like, is_caption, no_metadata, page_of, caption_on, or_else, block_before,
  adjacent_caption, context_of, is_some_block, preceding_paragraph, text_of_block, join_with,
  present, source_of, unique_from, unique_provenance, has_part, continued_word, or_no_text,
  nonempty, one_more,
}

-- The `ValueError`s of the chunker; `out_of_fuel` is none of them.
pub data ChunkError : Type 0 where
  table_too_long merged_table_too_long out_of_fuel : ChunkError

-- The code calls `casefold`, the JSON dump of a provenance and `stable_chunk_id`.
module _ (config : ChunkerConfig) (casefold : Text → Text) (dump : Provenance → String)
    (stable_chunk_id : String → Text → List Provenance → String) where
  abbrev pub build_table :
      DocumentBlock → Option DocumentBlock → Option DocumentBlock → Result ChunkError TableChunk
  build_table block titled before =
      let text = join_with blank_line (
        present (text_of_block before)
        ++ (present (text_of_block titled) ++ present (some block.text))) in
      let provenance =
        unique_provenance dump (source_of before ++ (source_of titled ++ source_of (some block))) in
      if ltb config.max_table_characters (length block.text)
      then err table_too_long
      else ok (record {
        table_chunk_id = stable_chunk_id "table" text provenance;
        full_text = text;
        table_text = block.text;
        table_caption = text_of_block titled;
        preceding_context = text_of_block before;
        provenances = provenance;
        table_provenance = block.provenance ∷ [];
        table_metadata = record no_metadata { table_name = block.table_id; atomic = true };
      })

  -- `_table_chunk`
  unfoldable pub make_table : List DocumentBlock → ℕ → DocumentBlock → Result ChunkError TableChunk
  make_table blocks index block =
      build_table block (adjacent_caption blocks index (page_of block))
        (preceding_paragraph blocks index (page_of block))

  abbrev pub number_parts : DocumentBlock → ℕ → List Text → List Chunk
  number_parts block n [] = []
  number_parts block n (part ∷ parts) =
      text_chunk (record {
        text_id = stable_chunk_id "text" part (block.provenance ∷ []);
        body = part;
        text_provenance = block.provenance ∷ [];
        text_metadata = record no_metadata { block_kind = some block.block_type; part = some n };
      })
      ∷ number_parts block (suc n) parts

  abbrev pub chunks_of_parts : DocumentBlock → Option (List Text) → Result ChunkError (List Chunk)
  chunks_of_parts block none = err out_of_fuel
  chunks_of_parts block (some parts) = ok (number_parts block 0 parts)

  -- `_text_chunks`
  unfoldable pub text_chunks : DocumentBlock → Result ChunkError (List Chunk)
  text_chunks block =
      if is_empty (strip block.text)
      then ok []
      else chunks_of_parts block (split_text config (strip block.text))

  -- `_is_continuation`
  unfoldable pub is_continuation : TableChunk → Bool
  is_continuation c =
      has_part continued_word (casefold (or_no_text c.table_caption)) || c.table_metadata.continued

  -- `_merge_table_parts`
  unfoldable pub merge_table_parts : TableChunk → TableChunk → Result ChunkError TableChunk
  merge_table_parts first next =
      let joined = first.table_text ++ (blank_line ++ next.table_text) in
      let titles = nonempty (
        join_with (32 ∷ 47 ∷ 32 ∷ [])
          (present first.table_caption ++ present next.table_caption)) in
      let text =
        join_with blank_line
          (present first.preceding_context ++ (present titles ++ present (some joined))) in
      let provenance = unique_provenance dump (first.provenances ++ next.provenances) in
      if ltb config.max_table_characters (length joined)
      then err merged_table_too_long
      else ok (record {
        table_chunk_id = stable_chunk_id "table" text provenance;
        full_text = text;
        table_text = joined;
        table_caption = titles;
        preceding_context = first.preceding_context;
        provenances = provenance;
        table_provenance = first.table_provenance ++ next.table_provenance;
        table_metadata = record first.table_metadata {
          atomic = true;
          page_spanning = true;
          parts = one_more first.table_metadata.parts;
        };
      })

  -- The chunks so far, and the place of the last table chunk among them.
  pub record Progress : Type 0 where
    pub chunks : List Chunk
    pub last_table_position : Option ℕ

  abbrev pub appended : Progress → TableChunk → Progress
  appended s t = record {
    chunks = s.chunks ++ (table_chunk t ∷ []);
    last_table_position = some (length s.chunks);
  }

  abbrev pub replaced : Progress → ℕ → Result ChunkError TableChunk → Result ChunkError Progress
  replaced s position (err e) = err e
  replaced s position (ok t) = ok (record s { chunks = set s.chunks position (table_chunk t) })

  abbrev pub merged_into : Progress → TableChunk → ℕ → Option Chunk → Result ChunkError Progress
  merged_into s t position (some (table_chunk previous)) =
      replaced s position (merge_table_parts previous t)
  merged_into s t position _ = ok (appended s t)

  abbrev pub merged_at : Progress → TableChunk → Option ℕ → Result ChunkError Progress
  merged_at s t none = ok (appended s t)
  merged_at s t (some position) = merged_into s t position (get_elem? s.chunks position)

  abbrev pub placed : Progress → Result ChunkError TableChunk → Result ChunkError Progress
  placed s (err e) = err e
  placed s (ok t) =
      if is_continuation t then merged_at s t s.last_table_position else ok (appended s t)

  abbrev pub extended : Progress → Result ChunkError (List Chunk) → Result ChunkError Progress
  extended s (err e) = err e
  extended s (ok cs) = ok (record s { chunks = s.chunks ++ cs })

  -- The body of the loop of `chunk`.
  unfoldable pub add_block :
      List DocumentBlock → ℕ → DocumentBlock → BlockType → Progress → Result ChunkError Progress
  unfolding make_table text_chunks
  add_block blocks index block table s = placed s (make_table blocks index block)
  add_block blocks index block caption s = ok s
  add_block blocks index block image s = ok s
  add_block blocks index block heading s = extended s (text_chunks block)
  add_block blocks index block paragraph s = extended s (text_chunks block)

  abbrev pub and_then_chunks :
      Result ChunkError Progress
      → (Progress → Result ChunkError Progress)
      → Result ChunkError Progress
  and_then_chunks (err e) k = err e
  and_then_chunks (ok s) k = k s

  unfoldable pub chunk_from :
      List DocumentBlock → ℕ → List DocumentBlock → Progress → Result ChunkError Progress
  unfolding add_block
  chunk_from blocks index [] s = ok s
  chunk_from blocks index (block ∷ rest) s =
      and_then_chunks (add_block blocks index block block.block_type s)
        (chunk_from blocks (suc index) rest)

  abbrev pub chunks_of : Result ChunkError Progress → Result ChunkError (List Chunk)
  chunks_of (err e) = err e
  chunks_of (ok s) = ok s.chunks

  unfoldable pub chunk : ParsedDocument → Result ChunkError (List Chunk)
  unfolding chunk_from
  chunk document =
      let blocks = blocks_of document.pages in
      chunks_of (chunk_from blocks 0 blocks (record { chunks = []; last_table_position = none }))
