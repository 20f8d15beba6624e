-- ===== src/Ingest/Chunker/Blocks.antt =====
-- What the chunker of src/findociq/ingest/chunker.py reads of the blocks around a table, and of texts.
use fin_docs_analysis_evals.Common.{
  nat_eq, string_eq, ℕ, zero, suc, ◌+◌, ◌-◌, ltb, String, Bool, true, false, not, ◌&&◌, ◌||◌, ◌==◌,
  Option, none, some, List, [], ◌∷◌, ◌++◌, get_elem?, is_empty, contains, if◌then◌else◌,
}
use fin_docs_analysis_evals.Ingest.Schema.{
  Text, BlockType, heading, paragraph, caption, Provenance, DocumentBlock, Metadata,
}
use fin_docs_analysis_evals.Ingest.Chunker.Split.{is_prefix}

abbrev pub is_paragraph_like : BlockType → Bool
is_paragraph_like paragraph = true
is_paragraph_like heading = true
is_paragraph_like _ = false

abbrev pub is_caption : BlockType → Bool
is_caption caption = true
is_caption _ = false

abbrev pub no_metadata : Metadata
no_metadata = record {
  block_kind = none;
  part = none;
  table_name = none;
  atomic = false;
  page_spanning = false;
  parts = none;
  continued = false;
  config_hash = none;
  application_id = none;
}

abbrev pub page_of : DocumentBlock → ℕ
page_of b = b.provenance.page_number

abbrev pub caption_on : ℕ → Option DocumentBlock → Option DocumentBlock
caption_on page none = none
caption_on page (some b) = if is_caption b.block_type && page_of b == page then some b else none

abbrev pub or_else : Option DocumentBlock → Option DocumentBlock → Option DocumentBlock
or_else none b = b
or_else (some a) b = some a

-- The block before; there is none before the first.
abbrev pub block_before : List DocumentBlock → ℕ → Option DocumentBlock
block_before blocks zero = none
block_before blocks (suc i) = get_elem? blocks i

-- `_adjacent(blocks, index, BlockType.CAPTION)`
unfoldable pub adjacent_caption : List DocumentBlock → ℕ → ℕ → Option DocumentBlock
adjacent_caption blocks index page =
    or_else (caption_on page (block_before blocks index))
      (caption_on page (get_elem? blocks (suc index)))

abbrev pub context_of : ℕ → Option DocumentBlock → Option DocumentBlock
context_of page none = none
context_of page (some b) =
    if is_paragraph_like b.block_type && not (ltb 1 (page - page_of b)) then some b else none

abbrev pub is_some_block : Option DocumentBlock → Bool
is_some_block none = false
is_some_block (some b) = true

-- `_preceding_paragraph`: one block further back where the caption is the block before.
unfoldable pub preceding_paragraph : List DocumentBlock → ℕ → ℕ → Option DocumentBlock
preceding_paragraph blocks index page =
    if is_some_block (caption_on page (block_before blocks index))
    then context_of page (block_before blocks (index - 1))
    else context_of page (block_before blocks index)

abbrev pub text_of_block : Option DocumentBlock → Option Text
text_of_block none = none
text_of_block (some b) = some b.text

-- `"\n\n".join(…)` of the parts that are not empty
abbrev pub join_with : Text → List Text → Text
join_with separator [] = []
join_with separator (t ∷ []) = t
join_with separator (t ∷ (u ∷ us)) = t ++ (separator ++ join_with separator (u ∷ us))

abbrev pub present : Option Text → List Text
present none = []
present (some t) = if is_empty t then [] else t ∷ []

abbrev pub source_of : Option DocumentBlock → List Provenance
source_of none = []
source_of (some b) = b.provenance ∷ []

-- Each provenance once, in order, by its JSON text.
abbrev pub unique_from : (Provenance → String) → List String → List Provenance → List Provenance
unique_from dump seen [] = []
unique_from dump seen (p ∷ ps) =
    let rest = unique_from dump (if contains (dump p) seen then seen else dump p ∷ seen) ps in
    if contains (dump p) seen then rest else p ∷ rest

-- `_unique_provenance`
abbrev pub unique_provenance : (Provenance → String) → List Provenance → List Provenance
unique_provenance dump ps = unique_from dump [] ps

abbrev pub has_part : Text → Text → Bool
has_part part [] = is_prefix part []
has_part part (c ∷ text) = is_prefix part (c ∷ text) || has_part part text

-- The code points of "continued"
abbrev pub continued_word : Text
continued_word = 99 ∷ 111 ∷ 110 ∷ 116 ∷ 105 ∷ 110 ∷ 117 ∷ 101 ∷ 100 ∷ []

abbrev pub or_no_text : Option Text → Text
or_no_text none = []
or_no_text (some t) = t

abbrev pub nonempty : Text → Option Text
nonempty t = if is_empty t then none else some t

abbrev pub one_more : Option ℕ → Option ℕ
one_more none = some 2
one_more (some n) = some (n + 1)
