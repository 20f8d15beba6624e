-- ===== src/Ingest/Chunker/Split/Laws.antt =====
-- The loop that splits a text ends, and leaves nothing out.
use Prim.Native.Nat.{max}
use fin_docs_analysis_evals.Common.{
  ℕ, zero, suc, ◌+◌, ◌-◌, ◌≤◌, ◌<◌, ltb, leb, ◌≡◌, refl, inl, inr, true, false, Option, none, some,
  List, [], ◌∷◌, ◌++◌, length, drop, All, Bool-cases, arith,
}
use fin_docs_analysis_evals.Ingest.Schema.{Text}
use fin_docs_analysis_evals.Ingest.Chunker.Split.{
  ChunkerConfig, is_prefix, last_place, rfind, blank_line, sentence_end, space, above, viable,
  greatest, chosen, upper_of, piece_end, next_start, spans,
}

-- A cut inside a piece: after its start, with a character left before its upper bound.
abbrev IsCut : ℕ → ℕ → ℕ → Type 0
IsCut start upper c = (start < c) × (c + 1 ≤ upper)

last_place-bound :
    (sub text : Text) (start upper k c : ℕ)
    → last_place sub text start upper k ≡ some c
    → c + length sub ≤ upper
unfolding last_place
last_place-bound sub text start upper zero c e = ground arith
last_place-bound sub text start upper (suc k) c e =
    ground (arith, last_place-bound sub text start upper k c)

above-IsCut :
    (start upper n : ℕ) (o : Option ℕ)
    → 1 ≤ n
    → ((c : ℕ) → o ≡ some c → c + n ≤ upper)
    → All (IsCut start upper) (above start o)
above-IsCut start upper n none h b = tt
above-IsCut start upper n (some c) h b = elim (Bool-cases (ltb start c)) [
  | inl e ↦ rw e ((ground (arith, e), let q = b c refl in omega (arith, h, q)), tt)
  | inr e ↦ rw e tt
]

All-append : (P : ℕ → Type 0) (xs ys : List ℕ) → All P xs → All P ys → All P (xs ++ ys)
All-append P [] ys h k = k
All-append P (x ∷ xs) ys h k = (h.0, All-append P xs ys h.1 k)

rfind-IsCut :
    (sub text : Text) (start upper : ℕ)
    → 1 ≤ length sub
    → All (IsCut start upper) (above start (rfind sub text start upper))
unfolding rfind
rfind-IsCut sub text start upper h =
    above-IsCut start upper (length sub) (last_place sub text start upper (upper - start)) h
      (last_place-bound sub text start upper (upper - start))

viable-IsCut : (text : Text) (start upper : ℕ) → All (IsCut start upper) (viable text start upper)
unfolding viable
viable-IsCut text start upper =
    All-append (IsCut start upper) (above start (rfind blank_line text start upper)) _
      (rfind-IsCut blank_line text start upper (omega arith))
      (All-append (IsCut start upper) (above start (rfind sentence_end text start upper)) _
        (rfind-IsCut sentence_end text start upper (omega arith))
        (rfind-IsCut space text start upper (omega arith)))

greatest-IsCut :
    (start upper v : ℕ) (vs : List ℕ)
    → IsCut start upper v
    → All (IsCut start upper) vs
    → IsCut start upper (greatest v vs)
greatest-IsCut start upper v [] h k = h
greatest-IsCut start upper v (w ∷ ws) h k =
    greatest-IsCut start upper (max v w) ws (omega arith, omega arith) k.1

chosen-bounds :
    (text : Text) (start upper : ℕ) (vs : List ℕ)
    → start < upper
    → All (IsCut start upper) vs
    → (start < chosen text upper vs) × (chosen text upper vs ≤ upper)
chosen-bounds text start upper [] h k = (h, omega arith)
chosen-bounds text start upper (v ∷ vs) h k =
    let (low, high) = greatest-IsCut start upper v vs k.0 k.1 in
    elim (Bool-cases (is_prefix sentence_end (drop (greatest v vs) text))) [
      | inl e ↦ rw e (omega (arith, low), high)
      | inr e ↦ rw e (low, omega (arith, high))
    ]

module _ (config : ChunkerConfig) (text : Text) where
  pub piece_end-bounds :
      (start : ℕ)
      → 0 < config.max_text_characters
      → start < length text
      → (start < piece_end config text start)
        × (piece_end config text start ≤ start + config.max_text_characters)
        × (piece_end config text start ≤ length text)
  unfolding piece_end
  piece_end-bounds start m h =
      let lower : start < upper_of config text start = omega (arith, m, h) in
      let (low, high) =
        chosen-bounds text start (upper_of config text start)
          (viable text start (upper_of config text start)) lower
          (viable-IsCut text start (upper_of config text start)) in
      ground (arith, lower, low, high)

  -- The spans cover the text from `start` on: each starts in the one before, after its start.
  pub data Covers : ℕ → List (ℕ × ℕ) → Type 0 where
    last_span :
        (start : ℕ)
        → start < length text
        → length text ≤ start + config.max_text_characters
        → Covers start ((start, length text) ∷ [])
    next_span :
        (start end next : ℕ) (rest : List (ℕ × ℕ))
        → start < end
        → end ≤ start + config.max_text_characters
        → start < next
        → next ≤ end
        → Covers next rest
        → Covers start ((start, end) ∷ rest)

  next_start-bounds :
      (start end : ℕ)
      → start < end
      → (start < next_start config text start end) × (next_start config text start end ≤ end)
  next_start-bounds start end h = ground (arith, h)

  -- One turn of the loop.
  on_step :
      (n start : ℕ)
      → start < length text
      → start < piece_end config text start
      → piece_end config text start ≤ start + config.max_text_characters
      → piece_end config text start ≤ length text
      → (next : ℕ) → next_start config text start (piece_end config text start) ≡ next
      → start < next
      → next ≤ piece_end config text start
      → (piece_end config text start < length text
          → (ws : List (ℕ × ℕ)) × (spans config text n next ≡ some ws) × Covers next ws)
      → (ws : List (ℕ × ℕ)) × (spans config text (suc n) start ≡ some ws) × Covers start ws
  unfolding spans
  on_step n start h low size high next e more within rest =
      elim (Bool-cases (leb (length text) (piece_end config text start))) [
        | inl over ↦ (
          (start, length text) ∷ [],
          last_turn over,
          last_span start h (ground (arith, over, size)),
        )
        | inr under ↦
            let left : piece_end config text start < length text = ground (arith, under) in
            let (ws, ran, covered) = rest left in
            (
              (start, piece_end config text start) ∷ ws,
              another_turn ws under ran,
              next_span start (piece_end config text start) next ws low size more within covered,
            )
      ]
    where
      inside : ltb start (length text) ≡ true
      inside = ground (arith, h)

      last_turn :
          leb (length text) (piece_end config text start) ≡ true
          → spans config text (suc n) start ≡ some ((start, length text) ∷ [])
      last_turn over =
          let same : piece_end config text start ≡ length text = ground (arith, over, high) in
          rw (inside, over, same) refl

      another_turn :
          (ws : List (ℕ × ℕ))
          → leb (length text) (piece_end config text start) ≡ false
          → spans config text n next ≡ some ws
          → spans config text (suc n) start ≡ some ((start, piece_end config text start) ∷ ws)
      another_turn ws under ran = rw (inside, under, e, ran) refl

  -- With a positive maximum and with fuel for every character that is left, the loop ends and its
  -- spans cover the text: none is longer than the maximum, each starts after the start of the one
  -- before and not after its end, and the last ends with the text.
  pub spans-Covers :
      (n start : ℕ)
      → 0 < config.max_text_characters
      → start < length text
      → length text ≤ start + n
      → (ws : List (ℕ × ℕ)) × (spans config text (suc n) start ≡ some ws) × Covers start ws
  spans-Covers zero start m h enough = absurd (omega (arith, h, enough))
  spans-Covers (suc n) start m h enough =
      let (low, size, high) = piece_end-bounds start m h in
      let (more, within) = next_start-bounds start (piece_end config text start) low in
      on_step (suc n) start h low size high
        (next_start config text start (piece_end config text start)) refl more within
        λ left.
          spans-Covers n (next_start config text start (piece_end config text start)) m
            (omega (arith, within, left)) (omega (arith, more, enough))
