-- ===== src/Chunk/Integrity.antt =====
-- crates/offf-core/src/chunk.rs: what a successful read proves of the bytes, and that the audit
-- `verify_chunk` agrees with it.
use openforensicfileformat.Prelude.{Option, some, ◌≡◌, refl, ◌⊎◌, ap, sym, ◌∙◌}
use openforensicfileformat.Bytes.{Bytes, bytes_eq, bytes_eq→eq}
use openforensicfileformat.Outcome.{ok, ◌>>=◌, ensure-eq-ok, ok_of_bind, ok_injective}
use openforensicfileformat.Merkle.Level.{GivesDigests}
use openforensicfileformat.Merkle.Binding.{IsClash, same_digest, hex_from_bytes32_injective}
use openforensicfileformat.Files.{Files, file, exists, read_file, read_file_ok}
use openforensicfileformat.Chunk.{
  ChunkMetadata, chunk_path, hex_sha256, decompress_named, read_chunk,
}
use openforensicfileformat.Chunk.{verify_chunk}
use openforensicfileformat.Outcome.{>>=-assoc}

module _ (sha256 : Bytes → Bytes) (encode decode : Bytes → Option Bytes) where
  -- `verify_chunk` succeeds on the chunks that `read_chunk` reads, and fails with the same error on
  -- the others.
  pub verify_chunk-read_chunk :
      (fs : Files) (base : Bytes) (meta : ChunkMetadata)
      → verify_chunk sha256 encode decode fs base meta
        ≡ (read_chunk sha256 encode decode fs base meta >>= λ _. ok tt)
  unfolding verify_chunk read_chunk
  verify_chunk-read_chunk fs base meta = simp >>=-assoc refl

  -- What the checks of a successful `read_chunk` have found.
  pub record IsIntact (fs : Files) (base : Bytes) (meta : ChunkMetadata) (plaintext : Bytes)
      : Type 0 where
    pub path : Bytes
    pub stored : Bytes
    pub located : chunk_path base meta.plaintext_sha256 ≡ ok path
    pub on_disk : fs.at path ≡ some (file stored)
    pub stored_hash : hex_sha256 sha256 stored ≡ meta.stored_sha256
    pub plain_hash : hex_sha256 sha256 plaintext ≡ meta.plaintext_sha256

  -- A chunk that is read lies in the file that its hash names; the stored bytes and the plaintext
  -- have the hashes of the metadata.
  pub read_chunk-IsIntact :
      (fs : Files) (base : Bytes) (meta : ChunkMetadata) (plaintext : Bytes)
      → read_chunk sha256 encode decode fs base meta ≡ ok plaintext
      → IsIntact fs base meta plaintext
  unfolding read_chunk
  read_chunk-IsIntact fs base meta plaintext e =
      let (path, p, e₁) = ok_of_bind (chunk_path base meta.plaintext_sha256) _ e in
      let (_, e₂) = ensure-eq-ok (exists fs path) _ _ e₁ in
      let (stored, r, e₃) = ok_of_bind (read_file fs path) _ e₂ in
      let (s, e₄) = ensure-eq-ok (bytes_eq (hex_sha256 sha256 stored) meta.stored_sha256) _ _ e₃ in
      let (plain, d, e₅) =
        ok_of_bind (decompress_named decode meta.compression meta.chunk_id stored) _ e₄ in
      let (h, e₆) =
        ensure-eq-ok (bytes_eq (hex_sha256 sha256 plain) meta.plaintext_sha256) _ _ e₅ in
      record {
        path = path;
        stored = stored;
        located = p;
        on_disk = read_file_ok fs path stored r;
        stored_hash = bytes_eq→eq _ _ s;
        plain_hash = ap (hex_sha256 sha256) (sym (ok_injective e₆)) ∙ bytes_eq→eq _ _ h;
      }

  -- On any two states of the files, what a chunk reads as with the same metadata is the same, or two
  -- byte strings with one digest.
  pub read_chunk_unique :
      (fs fs' : Files) (base base' : Bytes) (meta : ChunkMetadata) (plain plain' : Bytes)
      → GivesDigests sha256
      → read_chunk sha256 encode decode fs base meta ≡ ok plain
      → read_chunk sha256 encode decode fs' base' meta ≡ ok plain'
      → (plain ≡ plain') ⊎ IsClash sha256 plain plain'
  unfolding hex_sha256
  read_chunk_unique fs fs' base base' meta plain plain' g e f =
      let i = read_chunk-IsIntact fs base meta plain e in
      let j = read_chunk-IsIntact fs' base' meta plain' f in
      same_digest sha256 plain plain' (
        hex_from_bytes32_injective (sha256 plain) (sha256 plain') (g plain) (g plain')
          (i.plain_hash ∙ sym j.plain_hash))
