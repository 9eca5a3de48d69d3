-- ===== src/Workers/Chunk/Cover.antt =====
-- The chunks cover the text, each is a piece of it, and the loop ends.
use ai_de.Common.{
  ℕ, zero, suc, ◌+◌, ◌-◌, ◌/◌, ◌≤◌, ◌<◌, min, max, String, ◌≡◌, refl, sym, subst, inl, inr, Bool,
  true, ◌&&◌, some, or_else, List, [], ◌∷◌, arith, length, take, drop, any, All, ltb, leb, ◌==◌,
  Option-cases, Bool-cases,
}
use ai_de.Workers.Chunk.{
  ChunkOptions, TranscriptChunk, range_error, chunks, last_newline, window_end, slice, chunk_at,
  chunk_loop, chunk_transcript,
}

last_newline_le :
    (limit i : ℕ) (cs : List ℕ) (j : ℕ)
    → last_newline limit i cs ≡ some j
    → (j ≤ limit) × (j < i + length cs)
unfolding last_newline
last_newline_le limit i [] j h = ground arith
last_newline_le limit i (c ∷ cs) j h = ground (arith, last_newline_le limit (suc i) cs j)

window_end_lem :
    (max_chars : ℕ) (text : List ℕ) (start : ℕ)
    → 0 < max_chars
    → start < length text
    → (start < window_end max_chars text start)
      × (window_end max_chars text start ≤ length text)
      × (window_end max_chars text start ≤ start + max_chars + 1)
unfolding window_end
window_end_lem max_chars text start p s =
    let end = min (start + max_chars) (length text) in
    elim (Option-cases (last_newline end 0 text)) [
      | inl e ↦ ground (arith, e)
      | inr (nl, e) ↦ ground (arith, e, last_newline_le end 0 text nl e)
    ]

length-take : (n : ℕ) (xs : List ℕ) → n ≤ length xs → length (take n xs) ≡ n
length-take zero xs h = refl
length-take (suc n) [] h = ground arith
length-take (suc n) (x ∷ xs) h = ground (arith, length-take n xs)

length-drop : (n : ℕ) (xs : List ℕ) → length (drop n xs) ≡ length xs - n
length-drop zero xs = ground arith
length-drop (suc n) [] = ground arith
length-drop (suc n) (x ∷ xs) = ground (arith, length-drop n xs)

length-slice :
    (start end : ℕ) (text : List ℕ)
    → end ≤ length text
    → length (slice start end text) ≡ end - start
length-slice start end text h =
    ground (arith, length-take (end - start) (drop start text), length-drop start text)

-- Some chunk holds the code unit at `k`.
abbrev pub covered : ℕ → List TranscriptChunk → Bool
covered k cs = any (λ c. leb c.offset k && ltb k (c.offset + length c.text)) cs

-- The chunk is a piece of the text, with at least one code unit and at most one above the ceiling.
abbrev pub IsPiece : ℕ → List ℕ → TranscriptChunk → Type 0
IsPiece max_chars text c =
    (c.text ≡ slice c.offset (c.offset + length c.text) text)
    × (0 < length c.text)
    × (c.offset + length c.text ≤ length text)
    × (length c.text ≤ max_chars + 1)

abbrev pub IsChunking : ℕ → List ℕ → ℕ → List TranscriptChunk → Type 0
IsChunking max_chars text start cs =
    ((k : ℕ) → start ≤ k → k < length text → covered k cs ≡ true) × All (IsPiece max_chars text) cs

module _ (max_chars overlap : ℕ) (digest : String) (text : List ℕ) (p : 0 < max_chars) where
  chunk_at-IsPiece :
      (i start : ℕ)
      → start < length text
      → IsPiece max_chars text (chunk_at digest i start (window_end max_chars text start) text)
  chunk_at-IsPiece i start s =
      let end = window_end max_chars text start in
      let facts = window_end_lem max_chars text start p s in
      let size = length-slice start end text facts.1 in
      let same : start + length (slice start end text) ≡ end = omega (arith, facts, size) in
      (
        rw same refl,
        omega (arith, facts, size),
        omega (arith, facts, size),
        omega (arith, facts, size),
      )

  chunk_loop-IsChunking :
      (fuel i start : ℕ)
      → start < length text
      → length text ≤ start + fuel
      → (cs : List TranscriptChunk) × (chunk_loop fuel max_chars overlap digest text i start
          ≡ some cs)
        × IsChunking max_chars text start cs
  unfolding chunk_loop
  chunk_loop-IsChunking zero i start s f = absurd (omega (arith, s, f))
  chunk_loop-IsChunking (suc fuel) i start s f =
      let end = window_end max_chars text start in
      let facts = window_end_lem max_chars text start p s in
      let size = length-slice start end text facts.1 in
      let piece = chunk_at-IsPiece i start s in
      elim (Bool-cases (leb (length text) end)) [
        | inl e ↦ (
          chunk_at digest i start end text ∷ [],
          ground (arith, s, e),
          (λ k a b. ground (arith, size, facts, e), (piece, tt)),
        )
        | inr e ↦
            let next = max (end - overlap) (start + 1) in
            let (cs, q, (cover, pieces)) =
              chunk_loop-IsChunking fuel (suc i) next (ground (arith, facts, e))
                (omega (arith, f)) in
            (
              chunk_at digest i start end text ∷ cs,
              ground (arith, s, e, q),
              (λ k a b. ground (arith, size, facts, cover k), (piece, pieces)),
            )
      ]

abbrev pub max_of : ChunkOptions → ℕ
max_of opts = or_else opts.max_chars 4000

abbrev pub overlap_of : ChunkOptions → ℕ
overlap_of opts = or_else opts.overlap_chars (min 200 (max_of opts / 4))

take-all : (xs : List ℕ) → take (length xs) xs ≡ xs
take-all [] = refl
take-all (x ∷ xs) = ground (arith, take-all xs)

slice-all : (text : List ℕ) → text ≡ slice 0 (0 + length text) text
slice-all text =
    let n : length text ≡ 0 + length text - 0 = omega arith in
    subst (λ (m : ℕ). text ≡ take m text) n (sym (take-all text))

-- For a positive window and an overlap below it the loop ends with its fuel, every code unit of the
-- text is in some chunk, and each chunk is a piece of the text at its offset, not empty, and at
-- most one code unit longer than the window.
pub chunk_transcript-IsChunking :
    (digest : String) (text : List ℕ) (opts : ChunkOptions)
    → 0 < max_of opts
    → overlap_of opts < max_of opts
    → (cs : List TranscriptChunk) × (chunk_transcript digest text opts ≡ chunks cs)
      × IsChunking (max_of opts) text 0 cs
unfolding chunk_transcript
chunk_transcript-IsChunking digest text opts p o = elim (Bool-cases (length text == 0)) [
  | inl e ↦ ([], ground (arith, p, o, e), (λ k a b. ground (arith, e), tt))
  | inr e ↦ elim (Bool-cases (leb (length text) (max_of opts))) [
    | inl q ↦ (
      record { ref = (digest, 0); text = text; offset = 0 } ∷ [],
      ground (arith, p, o, e, q),
      (
        λ k a b. ground arith,
        ((slice-all text, ground (arith, e), omega arith, ground (arith, q)), tt),
      ),
    )
    | inr q ↦
        let (cs, run, good) =
          chunk_loop-IsChunking (max_of opts) (overlap_of opts) digest text p (length text) 0 0
            (ground (arith, e)) (omega arith) in
        (cs, ground (arith, p, o, e, q, run), good)
  ]
]

-- An overlap that is not below the window is refused for every text.
pub chunk_transcript-range_error :
    (digest : String) (text : List ℕ) (opts : ChunkOptions)
    → max_of opts ≤ overlap_of opts
    → chunk_transcript digest text opts ≡ range_error
unfolding chunk_transcript
chunk_transcript-range_error digest text opts h = ground arith
