-- ===== src/Partition/Range.antt =====
-- crates/offf-core/src/partition.rs, `read_bytes_at` and `chunk_refs_for_range`. What reads one
-- chunk is the parameter `read`; the code gives it `read_chunk` on the container.
pub mod Local
pub mod Parts
pub mod Image
pub mod Reads
pub mod Refs
use openforensicfileformat.Prelude.{
  ℕ, ◌+◌, ◌*◌, ◌^◌, Bool, true, false, ◌&&◌, ◌||◌, List, [], ◌∷◌, ◌++◌, ltb, leb, ◌==◌,
  if◌then◌else◌, length, take, drop, replicate, min, max, not,
}
use openforensicfileformat.Bytes.{Bytes}
use openforensicfileformat.Outcome.{
  Result, ok, err, panic, stuck, invalid_container, ◌>>=◌, ◌>>◌, ensure,
}
use openforensicfileformat.Chunk.{ChunkMetadata}
use openforensicfileformat.Words.{add64, sub64}

-- `result[dst..dst + len].copy_from_slice(&plaintext[src..src + len])`
unfoldable pub copy_slice : Bytes → ℕ → Bytes → ℕ → ℕ → Result Bytes
copy_slice result dst plaintext src len =
    if leb (dst + len) (length result) && leb (src + len) (length plaintext)
    then ok (take dst result ++ (take len (drop src plaintext) ++ drop (dst + len) result))
    else panic

unfoldable pub overlaps : ChunkMetadata → ℕ → ℕ → Bool
overlaps c start end = ltb c.source_offset end && ltb start (add64 c.source_offset c.source_length)

module _ (read : ChunkMetadata → Result Bytes) where
  -- One round of the loop, for a chunk that overlaps the range: the new result, and how many bytes
  -- were copied.
  unfoldable pub fill : ChunkMetadata → ℕ → ℕ → Bytes → Result (Bytes × ℕ)
  fill c offset end result = do
    plaintext ← read c
    let overlap_start = max offset c.source_offset
    let len = sub64 (min end (add64 c.source_offset c.source_length)) overlap_start
    result' ←
        copy_slice result (sub64 overlap_start offset) plaintext
          (sub64 overlap_start c.source_offset) len
    ok (result', len)

  unfoldable pub fill_all : List ChunkMetadata → ℕ → ℕ → Bytes → ℕ → Result (Bytes × ℕ)
  fill_all [] offset end result filled = ok (result, filled)
  fill_all (c ∷ chunks) offset end result filled =
      let skip = fill_all chunks offset end result filled in
      let copy = (do
        (result', len) ← fill c offset end result
        fill_all chunks offset end result' (add64 filled len)) in
      if overlaps c offset end then copy else skip

  unfoldable pub read_bytes_at : List ChunkMetadata → ℕ → ℕ → Result Bytes
  read_bytes_at chunks offset length = if length == 0 then ok [] else (do
    (result, filled) ← fill_all chunks offset (add64 offset length) (replicate length 0) 0
    ensure (leb length filled) invalid_container
    ok result)

keep_ids : List ChunkMetadata → ℕ → ℕ → List Bytes
keep_ids [] start end = []
keep_ids (c ∷ chunks) start end =
    let rest = keep_ids chunks start end in if overlaps c start end then c.chunk_id ∷ rest else rest

unfoldable pub chunk_refs_for_range : List ChunkMetadata → ℕ → ℕ → List Bytes
unfolding keep_ids
chunk_refs_for_range chunks start length =
    if length == 0 then [] else keep_ids chunks start (add64 start length)
