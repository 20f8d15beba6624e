-- ===== src/Ingest/Chunker/Split.antt =====
-- `LayoutAwareChunker._split_text` of src/findociq/ingest/chunker.py.
pub mod Laws
use Prim.Native.Nat.{min, max}
use fin_docs_analysis_evals.Common.{
  nat_eq, ℕ, zero, suc, ◌+◌, ◌-◌, ltb, leb, Bool, true, false, not, ◌&&◌, ◌||◌, Option, none, some,
  List, [], ◌∷◌, ◌++◌, map, length, take, drop, keep, is_empty, nat_beq, any, if◌then◌else◌,
}
use fin_docs_analysis_evals.Ingest.Schema.{Text}

pub record ChunkerConfig : Type 0 where
  pub max_text_characters : ℕ
  pub overlap_characters : ℕ
  pub max_table_characters : ℕ

-- `ChunkerConfig.__post_init__` raises nothing.
abbrev pub is_valid : ChunkerConfig → Bool
is_valid c =
    ltb 0 c.max_text_characters
    && ltb c.overlap_characters c.max_text_characters
    && ltb 0 c.max_table_characters

abbrev pub is_prefix : Text → Text → Bool
is_prefix [] s = true
is_prefix (c ∷ p) [] = false
is_prefix (c ∷ p) (d ∷ s) = nat_beq c d && is_prefix p s

-- `text[first:last]`
abbrev pub slice : Text → ℕ → ℕ → Text
slice text first last = take (last - first) (drop first text)

-- `sub` stands at `i` and ends by `upper`.
abbrev pub stands_at : Text → Text → ℕ → ℕ → Bool
stands_at sub text upper i = leb (i + length sub) upper && is_prefix sub (drop i text)

-- The last place of `sub` from `start` to `start + k`.
unfoldable pub last_place : Text → Text → ℕ → ℕ → ℕ → Option ℕ
last_place sub text start upper zero = if stands_at sub text upper start then some start else none
last_place sub text start upper (suc k) =
    let rest = last_place sub text start upper k in
    if stands_at sub text upper (start + suc k) then some (start + suc k) else rest

-- `text.rfind(sub, start, upper)`, where `none` is -1
unfoldable pub rfind : Text → Text → ℕ → ℕ → Option ℕ
unfolding last_place
rfind sub text start upper = last_place sub text start upper (upper - start)

abbrev pub blank_line : Text
blank_line = 10 ∷ 10 ∷ []

abbrev pub sentence_end : Text
sentence_end = 46 ∷ 32 ∷ []

abbrev pub space : Text
space = 32 ∷ []

-- A candidate that is greater than `start`.
abbrev pub above : ℕ → Option ℕ → List ℕ
above start none = []
above start (some c) = if ltb start c then c ∷ [] else []

unfoldable pub viable : Text → ℕ → ℕ → List ℕ
viable text start upper =
    above start (rfind blank_line text start upper)
    ++ (above start (rfind sentence_end text start upper)
        ++ above start (rfind space text start upper))

abbrev pub greatest : ℕ → List ℕ → ℕ
greatest v [] = v
greatest v (w ∷ ws) = greatest (max v w) ws

abbrev pub after_sentence : Text → ℕ → ℕ
after_sentence text end = if is_prefix sentence_end (drop end text) then end + 1 else end

abbrev pub chosen : Text → ℕ → List ℕ → ℕ
chosen text upper [] = upper
chosen text upper (v ∷ vs) = after_sentence text (greatest v vs)

abbrev pub past : ℕ → ℕ → ℕ → ℕ
past start upper end = if leb end start then upper else end

module _ (config : ChunkerConfig) (text : Text) where
  abbrev pub upper_of : ℕ → ℕ
  upper_of start = min (start + config.max_text_characters) (length text)

  -- The end of the piece that starts at `start`.
  unfoldable pub piece_end : ℕ → ℕ
  unfolding viable
  piece_end start = past start (upper_of start) (
      if ltb (upper_of start) (length text)
      then chosen text (upper_of start) (viable text start (upper_of start))
      else upper_of start)

  abbrev pub next_start : ℕ → ℕ → ℕ
  next_start start end =
      if leb (end - config.overlap_characters) start then end else end - config.overlap_characters

  abbrev pub prepend_span : ℕ × ℕ → Option (List (ℕ × ℕ)) → Option (List (ℕ × ℕ))
  prepend_span s none = none
  prepend_span s (some rest) = some (s ∷ rest)

  -- The bounds of the pieces of the loop from `start`; `none` is out of fuel.
  unfoldable pub spans : ℕ → ℕ → Option (List (ℕ × ℕ))
  spans zero start = none
  spans (suc n) start =
      let rest = spans n (next_start start (piece_end start)) in
      if ltb start (length text)
      then (if leb (length text) (piece_end start)
          then some ((start, piece_end start) ∷ [])
          else prepend_span (start, piece_end start) rest)
      else some []

-- The characters that `str.strip` takes away.
abbrev pub is_space : ℕ → Bool
is_space c =
    (leb 9 c && leb c 13)
    || (leb 28 c && leb c 32)
    || (leb 8192 c && leb c 8202)
    || any (nat_beq c) (133 ∷ 160 ∷ 5760 ∷ 8232 ∷ 8233 ∷ 8239 ∷ 8287 ∷ 12288 ∷ [])

abbrev pub strip_left : Text → Text
strip_left [] = []
strip_left (c ∷ s) = let rest = strip_left s in if is_space c then rest else c ∷ s

abbrev pub reversed : Text → Text → Text
reversed [] done = done
reversed (c ∷ s) done = reversed s (c ∷ done)

abbrev pub strip : Text → Text
strip text = reversed (strip_left (reversed (strip_left text) [])) []

abbrev pub pieces_of : Text → Option (List (ℕ × ℕ)) → Option (List Text)
pieces_of text none = none
pieces_of text (some ws) =
    some (keep (λ piece. not (is_empty piece)) (map (λ w. strip (slice text w.0 w.1)) ws))

-- `_split_text`, with fuel for every character
unfoldable pub split_text : ChunkerConfig → Text → Option (List Text)
unfolding spans
split_text config text =
    if leb (length text) config.max_text_characters
    then some (text ∷ [])
    else pieces_of text (spans config text (suc (length text)) 0)
