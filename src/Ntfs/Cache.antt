-- ===== src/Ntfs/Cache.antt =====
-- crates/offf-core/src/ntfs.rs, `ChunkCache`: a reader of byte ranges that keeps the chunks that it
-- has read, and drops the oldest of them when it holds too many. What reads a chunk is a parameter.
pub mod Kept
pub mod Reads
use openforensicfileformat.Prelude.{
  ℕ, ◌+◌, ◌-◌, Bool, true, false, ◌&&◌, Option, none, some, List, [], ◌∷◌, ◌++◌, ltb, leb, ◌==◌,
  if◌then◌else◌, length, take, drop, replicate, min, max,
}
use openforensicfileformat.Bytes.{Bytes}
use openforensicfileformat.Outcome.{Result, ok, err, panic, stuck, invalid_container, bind_state}
use openforensicfileformat.Chunk.{ChunkMetadata}
use openforensicfileformat.Words.{add64, sub64}
use openforensicfileformat.Maps.{lookup, insert, remove}
use openforensicfileformat.Partition.Range.{overlaps}

pub record ChunkCache : Type 0 where
  pub cache : List (ℕ × Bytes)
  pub fifo : List ℕ

abbrev pub empty_cache : ChunkCache
empty_cache = record { cache = []; fifo = [] }

unfoldable pub max_cached_chunks : ℕ
max_cached_chunks = 128

-- `fifo.pop_front()` and the removal of what it names.
unfoldable pub drop_oldest : ChunkCache → List ℕ → ChunkCache
drop_oldest s [] = s
drop_oldest s (oldest ∷ rest) = record { cache = remove oldest s.cache; fifo = rest }

unfoldable pub evict : ChunkCache → ChunkCache
evict s = if leb max_cached_chunks (length s.cache) then drop_oldest s s.fifo else s

-- What reading a chunk that is not held leaves behind.
unfoldable pub keep_read : ℕ → ChunkCache → Result Bytes → Result Bytes × ChunkCache
keep_read sequence s (ok plain) =
    (ok plain, record { cache = insert sequence plain s.cache; fifo = s.fifo ++ (sequence ∷ []) })
keep_read sequence s (err e) = (err e, s)
keep_read sequence s panic = (panic, s)
keep_read sequence s stuck = (stuck, s)

-- The copy, which is left out where it does not fit: the new result, and how many bytes it copied.
unfoldable pub copy_if_fits : Bytes → ℕ → Bytes → ℕ → ℕ → Bytes × ℕ
copy_if_fits result dst plain src len =
    if leb (dst + len) (length result) && leb (src + len) (length plain)
    then (take dst result ++ (take len (drop src plain) ++ drop (dst + len) result), len)
    else (result, 0)

-- The part of one round behind the reading of the chunk.
unfoldable pub copy_part : ChunkMetadata → ℕ → ℕ → Bytes → Bytes → Bytes × ℕ
copy_part c offset end result plain =
    let overlap_start = max offset c.source_offset in
    let len = sub64 (min end (add64 c.source_offset c.source_length)) overlap_start in
    copy_if_fits result (sub64 overlap_start offset) plain (sub64 overlap_start c.source_offset) len

unfoldable pub finish : ℕ → Bytes → ℕ → Result Bytes
finish len result filled = if ltb filled len then err invalid_container else ok result

module _ (read : ChunkMetadata → Result Bytes) where
  -- The chunk, out of the cache or into it.
  unfoldable pub fetched : ChunkMetadata → ChunkCache → Option Bytes → Result Bytes × ChunkCache
  fetched c s (some plain) = (ok plain, s)
  fetched c s none = keep_read c.sequence (evict s) (read c)

  unfoldable pub fetch : ChunkMetadata → ChunkCache → Result Bytes × ChunkCache
  fetch c s = fetched c s (lookup c.sequence s.cache)

  -- The loop over the chunks.
  unfoldable pub read_loop :
      List ChunkMetadata → ℕ → ℕ → ℕ → Bytes → ℕ → ChunkCache → Result Bytes × ChunkCache
  read_loop [] offset end len result filled s = (finish len result filled, s)
  read_loop (c ∷ chunks) offset end len result filled s =
      let skip = read_loop chunks offset end len result filled s in
      let copy = bind_state (fetch c s) (λ plain s'.
        read_loop chunks offset end len (copy_part c offset end result plain).0
          (add64 filled (copy_part c offset end result plain).1) s') in
      if overlaps c offset end then copy else skip

  unfoldable pub read_at : List ChunkMetadata → ℕ → ℕ → ChunkCache → Result Bytes × ChunkCache
  read_at chunks offset len s =
      if len == 0
      then (ok [], s)
      else read_loop chunks offset (add64 offset len) len (replicate len 0) 0 s
