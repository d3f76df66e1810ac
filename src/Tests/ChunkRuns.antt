-- ===== src/Tests/ChunkRuns.antt =====
-- Runs of crates/offf-core/src/chunk.rs on a disk with no file.
use openforensicfileformat.Prelude.{List, All, ◌≡◌, ◌⊎◌, refl, [], ◌∷◌, ◌++◌, none, some, false}
use openforensicfileformat.Bytes.{Bytes, codes, bytes_eq}
use openforensicfileformat.Outcome.{ok, err, io, hash_mismatch, ◌>>=◌}
use openforensicfileformat.Hex.{hex_from_bytes32, hex_digit, at_char_boundary}
use openforensicfileformat.Merkle.Binding.{IsClash}
use openforensicfileformat.Files.{
  Files, file, done, tears, exists, read_file, write_file, put_file, join, strip_prefix,
  strip_or_self, str_slice,
}
use openforensicfileformat.Chunk.{
  uncompressed, zstd, ChunkMetadata, chunk_path, hex_sha256, compress, store, metadata, prepare,
  verify_chunk, write_chunk, read_chunk, or_error, decompress_named,
}
use openforensicfileformat.Chunk.RoundTrip.{read_chunk-write_chunk}
use openforensicfileformat.Chunk.Again.{placed_at, write_chunk_again}
use openforensicfileformat.Chunk.Integrity.{
  IsIntact, read_chunk-IsIntact, read_chunk_unique, verify_chunk-read_chunk,
}
use openforensicfileformat.Chunk.Writes.{Retry, retries, at-write_chunk, write_chunk_torn}
use openforensicfileformat.Tests.{checksum, checksum-IsDigest, keep}

abbrev plain : Bytes
plain = 1 ∷ 2 ∷ 3 ∷ []

abbrev base : Bytes
base = codes "/c"

abbrev empty_disk : Files
empty_disk = record { at = λ p. none; fate = λ p. done }

abbrev path : Bytes
path =
    codes
      "/c/chunks/sha256/06/03/0603070707070707070707070707070707070707070707070707070707070707.chunk"

prepared : prepare checksum keep keep base plain zstd ≡ ok (plain, path)
unfolding prepare compress or_error chunk_path hex_sha256 hex_from_bytes32 hex_digit strip_or_self
    strip_prefix str_slice at_char_boundary join
prepared = refl

abbrev disk : Files
disk = put_file empty_disk path (some (file plain))

written :
    write_chunk checksum keep keep empty_disk base 0 0 plain zstd
    ≡ (ok (metadata checksum 0 0 plain zstd plain), disk)
unfolding write_chunk prepare compress or_error chunk_path hex_sha256 hex_from_bytes32 hex_digit
    strip_or_self strip_prefix str_slice at_char_boundary join store exists write_file
written = refl

read_chunk-write_chunk_example :
    (read_chunk checksum keep keep disk base (metadata checksum 0 0 plain zstd plain) ≡ ok plain)
    ⊎ ((other : Bytes) × (read_chunk checksum keep keep disk base
            (metadata checksum 0 0 plain zstd plain)
          ≡ ok other)
        × IsClash checksum other plain)
read_chunk-write_chunk_example =
    read_chunk-write_chunk checksum keep keep empty_disk disk base 0 0 plain zstd
      (metadata checksum 0 0 plain zstd plain) checksum-IsDigest (λ p s e. cc) written

write_chunk_again_example :
    write_chunk checksum keep keep disk base 4 4096 plain zstd
    ≡ (ok (placed_at (metadata checksum 0 0 plain zstd plain) 4 4096), disk)
write_chunk_again_example =
    write_chunk_again checksum keep keep empty_disk disk base 0 0 4 4096 plain zstd
      (metadata checksum 0 0 plain zstd plain) (λ p s e. cc) written

abbrev meta : ChunkMetadata
meta = record {
  sequence = 0;
  chunk_id = codes "sha256:0603070707070707070707070707070707070707070707070707070707070707";
  source_offset = 0;
  source_length = 3;
  stored_length = 3;
  compression = codes "zstd";
  plaintext_sha256 = codes "0603070707070707070707070707070707070707070707070707070707070707";
  stored_sha256 = codes "0603070707070707070707070707070707070707070707070707070707070707";
  read_errors = [];
}

was_read : read_chunk checksum keep keep disk base meta ≡ ok plain
unfolding read_chunk chunk_path hex_sha256 hex_from_bytes32 hex_digit strip_or_self strip_prefix
    str_slice at_char_boundary join exists read_file bytes_eq decompress_named or_error put_file
was_read = refl

read_chunk-IsIntact_example : IsIntact checksum keep keep disk base meta plain
read_chunk-IsIntact_example = read_chunk-IsIntact checksum keep keep disk base meta plain was_read

verify_chunk-read_chunk_example :
    verify_chunk checksum keep keep disk base meta
    ≡ (read_chunk checksum keep keep disk base meta >>= λ _. ok tt)
verify_chunk-read_chunk_example = verify_chunk-read_chunk checksum keep keep disk base meta

-- A disk on which the bytes of the chunk were exchanged for others with the same checksum.
abbrev other_disk : Files
other_disk = put_file empty_disk path (some (file (3 ∷ 2 ∷ 1 ∷ [])))

other_was_read : read_chunk checksum keep keep other_disk base meta ≡ ok (3 ∷ 2 ∷ 1 ∷ [])
unfolding read_chunk chunk_path hex_sha256 hex_from_bytes32 hex_digit strip_or_self strip_prefix
    str_slice at_char_boundary join exists read_file bytes_eq decompress_named or_error put_file
other_was_read = refl

read_chunk_unique_example : (plain ≡ 3 ∷ 2 ∷ 1 ∷ []) ⊎ IsClash checksum plain (3 ∷ 2 ∷ 1 ∷ [])
read_chunk_unique_example =
    read_chunk_unique checksum keep keep disk other_disk base base meta plain (3 ∷ 2 ∷ 1 ∷ [])
      checksum-IsDigest was_read other_was_read

at_disk : disk.at path ≡ some (file plain)
unfolding put_file bytes_eq
at_disk = refl

at-write_chunk_example :
    (write_chunk checksum keep keep disk base 1 3 (4 ∷ []) uncompressed).1.at path
    ≡ some (file plain)
at-write_chunk_example =
    at-write_chunk checksum keep keep disk base 1 3 (4 ∷ []) uncompressed path (file plain) at_disk

-- A disk that keeps the first byte only.
abbrev torn_disk : Files
torn_disk = record { at = λ p. none; fate = λ p. tears (1 ∷ []) }

torn_differs : bytes_eq (hex_sha256 checksum (1 ∷ [])) (hex_sha256 checksum plain) ≡ false
unfolding bytes_eq hex_sha256 hex_from_bytes32 hex_digit
torn_differs = refl

-- The same chunk again, and as the tenth one of the image, on a disk that is sound by then.
abbrev later : List (Retry checksum keep keep)
later =
    record { sequence = 0; offset = 0; fate = λ p. done }
    ∷ record { sequence = 9; offset = 27; fate = λ p. done }
    ∷ []

write_chunk_torn_example :
    (fs₁ : Files) × (write_chunk checksum keep keep torn_disk base 0 0 plain zstd ≡ (err io, fs₁))
    × All
        (λ r.
          r
          ≡ err (
              hash_mismatch
                (codes "sha256:" ++ hex_sha256 checksum plain)
                (hex_sha256 checksum plain)
                (hex_sha256 checksum (1 ∷ []))))
        (retries checksum keep keep fs₁ base plain zstd later)
write_chunk_torn_example =
    write_chunk_torn checksum keep keep torn_disk base 0 0 plain zstd plain path (1 ∷ []) later
      prepared refl refl torn_differs
