-- ===== src/Workers/Chunk.antt =====
-- apps/workers/src/activities/chunk-transcript.ts: a text is the list of its code units, and the
-- digest that the references start with is an argument. The loop takes fuel, and gets one round for
-- each code unit of the text; `none` says that it ran out.
pub mod Cover
use ai_de.Common.{
  ℕ, zero, suc, ◌+◌, ◌-◌, ◌*◌, ◌/◌, min, max, String, Bool, true, false, ◌&&◌, Option, none, some,
  or_else, List, [], ◌∷◌, length, take, drop, ltb, leb, ◌==◌, if◌then◌else◌,
}

pub record ChunkOptions : Type 0 where
  pub max_chars : Option ℕ
  pub overlap_chars : Option ℕ

-- `ref` is the digest and the index of the chunk.
pub record TranscriptChunk : Type 0 where
  pub ref : String × ℕ
  pub text : List ℕ
  pub offset : ℕ

pub data Outcome : Type 0 where
  range_error : Outcome
  out_of_fuel : Outcome
  chunks : List TranscriptChunk → Outcome

-- `text.lastIndexOf('\n', limit)`, for the text from index `i` on
unfoldable pub last_newline : ℕ → ℕ → List ℕ → Option ℕ
last_newline limit i [] = none
last_newline limit i (c ∷ cs) = elim (last_newline limit (suc i) cs) [
  | some j ↦ some j
  | none ↦ if c == 10 && leb i limit then some i else none
]

-- the end of the window that starts at `start`, moved back behind a line break
unfoldable pub window_end : ℕ → List ℕ → ℕ → ℕ
window_end max_chars text start =
    let end = min (start + max_chars) (length text) in
    if ltb end (length text)
    then elim (last_newline end 0 text) [
      | none ↦ end
      | some nl ↦ if ltb start nl && leb max_chars (2 * (nl - start)) then nl + 1 else end
    ]
    else end

-- `text.slice(start, end)`
abbrev pub slice : ℕ → ℕ → List ℕ → List ℕ
slice start end text = take (end - start) (drop start text)

abbrev pub chunk_at : String → ℕ → ℕ → ℕ → List ℕ → TranscriptChunk
chunk_at digest i start end text = record {
  ref = (digest, i);
  text = slice start end text;
  offset = start;
}

abbrev pub then_more :
    TranscriptChunk → Option (List TranscriptChunk) → Option (List TranscriptChunk)
then_more c none = none
then_more c (some cs) = some (c ∷ cs)

-- the loop of `chunkTranscript`, with the index and the start of the next chunk
unfoldable pub chunk_loop : ℕ → ℕ → ℕ → String → List ℕ → ℕ → ℕ → Option (List TranscriptChunk)
chunk_loop zero max_chars overlap digest text i start = none
chunk_loop (suc fuel) max_chars overlap digest text i start =
    let end = window_end max_chars text start in
    let rest =
      chunk_loop fuel max_chars overlap digest text (suc i) (max (end - overlap) (start + 1)) in
    if ltb start (length text)
    then if leb (length text) end
      then some (chunk_at digest i start end text ∷ [])
      else then_more (chunk_at digest i start end text) rest
    else some []

abbrev of_loop : Option (List TranscriptChunk) → Outcome
of_loop none = out_of_fuel
of_loop (some cs) = chunks cs

-- `chunkTranscript`
unfoldable pub chunk_transcript : String → List ℕ → ChunkOptions → Outcome
chunk_transcript digest text opts =
    let max_chars = or_else opts.max_chars 4000 in
    let overlap = or_else opts.overlap_chars (min 200 (max_chars / 4)) in
    if max_chars == 0
    then range_error
    else if leb max_chars overlap
    then range_error
    else if length text == 0
    then chunks []
    else if leb (length text) max_chars
    then chunks (record { ref = (digest, 0); text = text; offset = 0 } ∷ [])
    else of_loop (chunk_loop (length text) max_chars overlap digest text 0 0)
