-- ===== src/Review/Diff.antt =====
-- tools/review/src/diff.ts: `truncateDiff`, which keeps the chunks of whole files that fit into a
-- byte budget. The number of bytes of a text (`Buffer.byteLength`) and the split of a diff into the
-- chunks of its files, a regular expression, are arguments.
use ai_de.Common.{
  ap, ℕ, String, ◌≡◌, ◌⊎◌, inl, inr, ◌+◌, ◌≤◌, ◌<◌, List, [], ◌∷◌, Memᴰ, leb, if◌then◌else◌,
  if_elim, text_append, map, arith,
}
use mathlib.Core.List.Memᴰ
use mathlib.Core.Logic.{⊎_elim}

pub record Chunk : Type 0 where
  pub file : String
  pub content : String

pub record Packed : Type 0 where
  pub kept : List Chunk
  pub dropped : List Chunk

pub record Truncated : Type 0 where
  pub diff : String
  pub truncated_files : List String

-- `kept.join('')`
unfoldable pub join_chunks : List Chunk → String
join_chunks [] = ""
join_chunks (c ∷ cs) = text_append c.content (join_chunks cs)

module _ (bytes : String → ℕ) (max_bytes : ℕ) where
  -- The loop over the chunks, with the bytes used so far.
  unfoldable pub pack : ℕ → List Chunk → Packed
  pack used [] = record { kept = []; dropped = [] }
  pack used (c ∷ cs) =
      let fitting = pack (used + bytes c.content) cs in
      let rest = pack used cs in
      if leb (used + bytes c.content) max_bytes
      then record fitting { kept = c ∷ fitting.kept }
      else record rest { dropped = c ∷ rest.dropped }

  -- `truncateDiff`
  unfoldable pub truncate_diff : (String → List Chunk) → String → Truncated
  truncate_diff split diff =
      let packed = pack 0 (split diff) in
      if leb (bytes diff) max_bytes then record { diff = diff; truncated_files = [] } else record {
        diff = join_chunks packed.kept;
        truncated_files = map (λ (c : Chunk). c.file) packed.dropped;
      }

mem-map {ℓ κ} :
    {A : Type ℓ} {B : Type κ} (f : A → B) {x : A} {xs : List A} → Memᴰ x xs → Memᴰ (f x) (map f xs)
mem-map f (Memᴰ.head e) = Memᴰ.head (ap f e)
mem-map f (Memᴰ.tail m) = Memᴰ.tail (mem-map f m)

module _ (bytes : String → ℕ) (max_bytes : ℕ) (bytes_empty : bytes "" ≡ 0)
    (bytes_append : (a b : String) → bytes (text_append a b) ≡ bytes a + bytes b) where
  pack-Fits :
      (used : ℕ) (cs : List Chunk)
      → used ≤ max_bytes
      → used + bytes (join_chunks (pack bytes max_bytes used cs).kept) ≤ max_bytes
  unfolding pack join_chunks
  pack-Fits used [] h = omega (arith, bytes_empty)
  pack-Fits used (c ∷ cs) h =
      let fitting = pack bytes max_bytes (used + bytes c.content) cs in
      let rest = pack bytes max_bytes used cs in
      if_elim (λ (p : Packed). used + bytes (join_chunks p.kept) ≤ max_bytes)
        (leb (used + bytes c.content) max_bytes) {x = record fitting { kept = c ∷ fitting.kept }}
        {y = record rest { dropped = c ∷ rest.dropped }}
        (λ q. ground (
          arith,
          pack-Fits (used + bytes c.content) cs,
          bytes_append c.content (join_chunks fitting.kept),
        ))
        (λ q. pack-Fits used cs h)

  -- A chunk is kept, or does not fit behind those that are kept.
  pack-mem :
      (used : ℕ) (cs : List Chunk) (c : Chunk)
      → Memᴰ c cs
      → let p = pack bytes max_bytes used cs in
        Memᴰ c p.kept
        ⊎ (Memᴰ c p.dropped × (max_bytes < used + bytes (join_chunks p.kept) + bytes c.content))
  unfolding pack join_chunks
  pack-mem used [] c m = elim m [ ]
  pack-mem used (d ∷ ds) c m =
      let fitting = pack bytes max_bytes (used + bytes d.content) ds in
      let rest = pack bytes max_bytes used ds in
      if_elim
        (λ (p : Packed).
          Memᴰ c p.kept
          ⊎ (Memᴰ c p.dropped × (max_bytes < used + bytes (join_chunks p.kept) + bytes c.content)))
        (leb (used + bytes d.content) max_bytes) {x = record fitting { kept = d ∷ fitting.kept }}
        {y = record rest { dropped = d ∷ rest.dropped }}
        (λ q.
          ⊎_elim (λ e. inl (Memᴰ.head e))
            (λ n.
              ⊎_elim (λ k. inl (Memᴰ.tail k))
                (λ r.
                  inr (r.0, omega (arith, r.1, bytes_append d.content (join_chunks fitting.kept))))
                (pack-mem (used + bytes d.content) ds c n))
            (Memᴰ.cases_cons m))
        (λ q.
          ⊎_elim (λ e. inr (Memᴰ.head e, rw e ground arith))
            (λ n. ⊎_elim (λ k. inl k) (λ r. inr (Memᴰ.tail r.0, r.1)) (pack-mem used ds c n))
            (Memᴰ.cases_cons m))

  -- For a count of bytes that is zero on the empty text and adds up over joined texts, a truncated
  -- diff is within the budget; and when the diff is over the budget, each chunk of a file is kept,
  -- or its file is listed as truncated and the chunk would not fit behind what is kept.
  pub truncate_diff_lem :
      (split : String → List Chunk) (diff : String)
      → (bytes (truncate_diff bytes max_bytes split diff).diff ≤ max_bytes)
        × ((c : Chunk)
            → Memᴰ c (split diff)
            → max_bytes < bytes diff
            → Memᴰ c (pack bytes max_bytes 0 (split diff)).kept
              ⊎ (Memᴰ c.file (truncate_diff bytes max_bytes split diff).truncated_files
                  × (max_bytes
                      < bytes (truncate_diff bytes max_bytes split diff).diff + bytes c.content)))
  unfolding truncate_diff
  truncate_diff_lem split diff =
      let packed = pack bytes max_bytes 0 (split diff) in
      if_elim
        (λ (t : Truncated).
          (bytes t.diff ≤ max_bytes)
          × ((c : Chunk)
              → Memᴰ c (split diff)
              → max_bytes < bytes diff
              → Memᴰ c packed.kept
                ⊎ (Memᴰ c.file t.truncated_files × (max_bytes < bytes t.diff + bytes c.content))))
        (leb (bytes diff) max_bytes) {x = record { diff = diff; truncated_files = [] }}
        {y = record {
          diff = join_chunks packed.kept;
          truncated_files = map (λ (c : Chunk). c.file) packed.dropped;
        }}
        (λ q. (ground arith, λ c m h. absurd (ground arith)))
        (λ q. (
          omega (arith, pack-Fits 0 (split diff) (omega arith)),
          λ c m h.
              ⊎_elim (λ k. inl k)
                (λ r. inr (mem-map (λ (d : Chunk). d.file) r.0, omega (arith, r.1)))
                (pack-mem 0 (split diff) c m),
        ))
