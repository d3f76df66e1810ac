-- ===== src/Chunk.antt =====
-- crates/offf-core/src/chunk.rs: the chunk store, files named after the SHA-256 of their
-- uncompressed bytes. SHA-256 and zstd are parameters.
pub mod Stored
pub mod RoundTrip
pub mod Recorded
pub mod Again
pub mod Integrity
pub mod Writes
use openforensicfileformat.Prelude.{
  ℕ, Bool, true, false, Option, none, some, List, [], ◌∷◌, ◌++◌, if◌then◌else◌, length,
}
use openforensicfileformat.Bytes.{Bytes, codes, bytes_eq}
use openforensicfileformat.Outcome.{
  Result, Error, ok, err, panic, stuck, ◌>>=◌, ◌>>◌, ensure, io, hash_mismatch, chunk_not_found,
  decompression_error, invalid_manifest,
}
use openforensicfileformat.Hex.{hex_from_bytes32}
use openforensicfileformat.Files.{
  Files, exists, read_file, write_file, join, strip_or_self, str_slice,
}

-- crates/offf-core/src/types.rs
pub data Compression : Type 0 where
  uncompressed zstd : Compression

unfoldable pub compression_str : Compression → Bytes
compression_str uncompressed = codes "none"
compression_str zstd = codes "zstd"

pub record ReadError : Type 0 where
  pub source_offset : ℕ
  pub length : ℕ
  pub error : Bytes
  pub fill_policy : Bytes
  pub device_reported_error : Option Bytes

pub record ChunkMetadata : Type 0 where
  pub sequence : ℕ
  pub chunk_id : Bytes
  pub source_offset : ℕ
  pub source_length : ℕ
  pub stored_length : ℕ
  pub compression : Bytes
  pub plaintext_sha256 : Bytes
  pub stored_sha256 : Bytes
  pub read_errors : List ReadError

-- <base>/chunks/sha256/<ab>/<cd>/<full_hash>.chunk
unfoldable pub chunk_path : Bytes → Bytes → Result Bytes
chunk_path base hex_id = do
  let hex = strip_or_self (codes "sha256:") hex_id
  ab ← str_slice hex 0 2
  cd ← str_slice hex 2 4
  ok (
      join (join (join (join (join base (codes "chunks")) (codes "sha256")) ab) cd)
        (hex ++ codes ".chunk"))

unfoldable pub or_error {ℓ} : {A : Type ℓ} → Error → Option A → Result A
or_error e none = err e
or_error e (some a) = ok a

module _ (sha256 : Bytes → Bytes) where
  unfoldable pub hex_sha256 : Bytes → Bytes
  hex_sha256 bytes = hex_from_bytes32 (sha256 bytes)

  unfoldable pub metadata : ℕ → ℕ → Bytes → Compression → Bytes → ChunkMetadata
  metadata sequence source_offset plaintext c stored_bytes = record {
    sequence = sequence;
    chunk_id = codes "sha256:" ++ hex_sha256 plaintext;
    source_offset = source_offset;
    source_length = length plaintext;
    stored_length = length stored_bytes;
    compression = compression_str c;
    plaintext_sha256 = hex_sha256 plaintext;
    stored_sha256 = hex_sha256 stored_bytes;
    read_errors = [];
  }

finish : Result (Unit {0}) × Files → ChunkMetadata → Result ChunkMetadata × Files
finish (r, fs) meta = (r >>= λ _. ok meta, fs)

-- `encode` is `zstd::encode_all(_, 3)`, `decode` is `zstd::Decoder` read to its end; `none` is an
-- error of the library.
module _ (encode : Bytes → Option Bytes) where
  unfoldable pub compress : Compression → Bytes → Bytes → Result Bytes
  compress uncompressed chunk_id plaintext = ok plaintext
  compress zstd chunk_id plaintext = or_error (decompression_error chunk_id) (encode plaintext)

module _ (decode : Bytes → Option Bytes) where
  -- The decompression of `write_chunk`, by the requested compression.
  unfoldable pub decompress : Compression → Bytes → Bytes → Result Bytes
  decompress uncompressed chunk_id stored = ok stored
  decompress zstd chunk_id stored = or_error (decompression_error chunk_id) (decode stored)

  -- That of `read_chunk` and `verify_chunk`, by the name in the metadata.
  unfoldable pub decompress_named : Bytes → Bytes → Bytes → Result Bytes
  decompress_named name chunk_id stored =
      if bytes_eq name (codes "none")
      then ok stored
      else if bytes_eq name (codes "zstd")
      then or_error (decompression_error chunk_id) (decode stored)
      else err invalid_manifest

after_write : Bool × Files → Result (Unit {0}) × Files
after_write (true, fs) = (ok tt, fs)
after_write (false, fs) = (err io, fs)

module _ (sha256 : Bytes → Bytes) (encode decode : Bytes → Option Bytes) where
  -- The branch of `write_chunk` for a chunk that is on disk already.
  unfoldable pub check_existing :
      Compression → Bytes → Bytes → Bytes → Result Bytes → Result (Unit {0})
  check_existing c chunk_id plaintext_hash stored_hash file = do
    existing_stored ← file
    ensure (bytes_eq (hex_sha256 sha256 existing_stored) stored_hash)
        (hash_mismatch chunk_id stored_hash (hex_sha256 sha256 existing_stored))
    existing_plain ← decompress decode c chunk_id existing_stored
    ensure (bytes_eq (hex_sha256 sha256 existing_plain) plaintext_hash)
        (hash_mismatch chunk_id plaintext_hash (hex_sha256 sha256 existing_plain))

  -- Step 4 of `write_chunk`: write the file, or check the one that is there.
  unfoldable pub store :
      Files → Bytes → Compression → Bytes → Bytes → Bytes → Bytes → Result (Unit {0}) × Files
  unfolding after_write
  store fs path c chunk_id plaintext_hash stored_hash stored_bytes =
      if exists fs path
      then (check_existing c chunk_id plaintext_hash stored_hash (read_file fs path), fs)
      else after_write (write_file fs path stored_bytes)

  -- What `write_chunk` works out before it touches a file: the stored bytes and the path.
  unfoldable pub prepare : Bytes → Bytes → Compression → Result (Bytes × Bytes)
  prepare base plaintext c = do
    stored_bytes ← compress encode c (codes "sha256:" ++ hex_sha256 sha256 plaintext) plaintext
    path ← chunk_path base (hex_sha256 sha256 plaintext)
    ok (stored_bytes, path)

  write_prepared :
      Files → ℕ → ℕ → Bytes → Compression → Result (Bytes × Bytes) → Result ChunkMetadata × Files
  unfolding finish metadata
  write_prepared fs sequence source_offset plaintext c (ok (stored_bytes, path)) =
      finish
        (store fs path c (codes "sha256:" ++ hex_sha256 sha256 plaintext)
          (hex_sha256 sha256 plaintext) (hex_sha256 sha256 stored_bytes) stored_bytes)
        (metadata sha256 sequence source_offset plaintext c stored_bytes)
  write_prepared fs sequence source_offset plaintext c (err e) = (err e, fs)
  write_prepared fs sequence source_offset plaintext c panic = (panic, fs)
  write_prepared fs sequence source_offset plaintext c stuck = (stuck, fs)

  unfoldable pub write_chunk :
      Files → Bytes → ℕ → ℕ → Bytes → Compression → Result ChunkMetadata × Files
  unfolding write_prepared
  write_chunk fs base sequence source_offset plaintext c =
      write_prepared fs sequence source_offset plaintext c (prepare base plaintext c)

  unfoldable pub read_chunk : Files → Bytes → ChunkMetadata → Result Bytes
  read_chunk fs base meta = do
    path ← chunk_path base meta.plaintext_sha256
    ensure (exists fs path) (chunk_not_found meta.chunk_id)
    stored_bytes ← read_file fs path
    ensure (bytes_eq (hex_sha256 sha256 stored_bytes) meta.stored_sha256)
        (hash_mismatch meta.chunk_id meta.stored_sha256 (hex_sha256 sha256 stored_bytes))
    plaintext ← decompress_named decode meta.compression meta.chunk_id stored_bytes
    ensure (bytes_eq (hex_sha256 sha256 plaintext) meta.plaintext_sha256)
        (hash_mismatch meta.chunk_id meta.plaintext_sha256 (hex_sha256 sha256 plaintext))
    ok plaintext

  unfoldable pub verify_chunk : Files → Bytes → ChunkMetadata → Result (Unit {0})
  verify_chunk fs base meta = do
    path ← chunk_path base meta.plaintext_sha256
    ensure (exists fs path) (chunk_not_found meta.chunk_id)
    stored_bytes ← read_file fs path
    ensure (bytes_eq (hex_sha256 sha256 stored_bytes) meta.stored_sha256)
        (hash_mismatch meta.chunk_id meta.stored_sha256 (hex_sha256 sha256 stored_bytes))
    plaintext ← decompress_named decode meta.compression meta.chunk_id stored_bytes
    ensure (bytes_eq (hex_sha256 sha256 plaintext) meta.plaintext_sha256)
        (hash_mismatch meta.chunk_id meta.plaintext_sha256 (hex_sha256 sha256 plaintext))
    ok tt
