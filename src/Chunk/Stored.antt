-- ===== src/Chunk/Stored.antt =====
-- crates/offf-core/src/chunk.rs: the calls of `write_chunk` that succeed, taken apart.
use openforensicfileformat.Prelude.{
  ℕ, Bool, true, false, Option, some, ◌++◌, ◌≡◌, refl, ◌⊎◌, inl, inr, ap, sym, ◌∙◌, Bool-cases,
}
use openforensicfileformat.Bytes.{Bytes, codes, bytes_eq, bytes_eq→eq, eq→bytes_eq}
use openforensicfileformat.Outcome.{
  Result, Error, ok, err, panic, stuck, ◌>>=◌, ensure, ensure-eq-ok, ok_of_bind, ok_injective,
}
use openforensicfileformat.Files.{Files, file, exists, read_file, write_file, write_file-true}
use openforensicfileformat.Chunk.{
  Compression, uncompressed, zstd, compression_str, ChunkMetadata, chunk_path, hex_sha256, compress,
  decompress, decompress_named, check_existing, after_write, store, metadata, prepare, finish,
  write_prepared, write_chunk, read_chunk,
}

module _ (sha256 : Bytes → Bytes) (encode decode : Bytes → Option Bytes) where
  -- The checks of `read_chunk`, passed one by one.
  pub read_chunk_ok :
      (fs : Files) (base : Bytes) (meta : ChunkMetadata) (path stored plain : Bytes)
      → chunk_path base meta.plaintext_sha256 ≡ ok path
      → fs.at path ≡ some (file stored)
      → hex_sha256 sha256 stored ≡ meta.stored_sha256
      → decompress_named decode meta.compression meta.chunk_id stored ≡ ok plain
      → hex_sha256 sha256 plain ≡ meta.plaintext_sha256
      → read_chunk sha256 encode decode fs base meta ≡ ok plain
  unfolding read_chunk exists read_file
  read_chunk_ok fs base meta path stored plain p f s d h =
      rw (p, exists_true, read_true, eq→bytes_eq _ _ s, d, eq→bytes_eq _ _ h) refl
    where
      exists_true : exists fs path ≡ true
      exists_true = rw (f, exists) refl

      read_true : read_file fs path ≡ ok stored
      read_true = rw (f, read_file) refl

  pub decompress_named-compression_str :
      (c : Compression) (id stored : Bytes)
      → decompress_named decode (compression_str c) id stored ≡ decompress decode c id stored
  unfolding decompress_named compression_str decompress bytes_eq
  decompress_named-compression_str uncompressed id stored = refl
  decompress_named-compression_str zstd id stored = refl

  -- What a passed check of a file that is there has found.
  pub record Existing (c : Compression) (id plain_hash stored_hash : Bytes) (read : Result Bytes)
      : Type 0 where
    pub stored : Bytes
    pub plain : Bytes
    pub was_read : read ≡ ok stored
    pub stored_right : hex_sha256 sha256 stored ≡ stored_hash
    pub decoded : decompress decode c id stored ≡ ok plain
    pub plain_right : hex_sha256 sha256 plain ≡ plain_hash

  existing :
      (c : Compression) (id plain_hash stored_hash : Bytes) (read : Result Bytes)
      → check_existing sha256 encode decode c id plain_hash stored_hash read ≡ ok tt
      → Existing c id plain_hash stored_hash read
  unfolding check_existing
  existing c id plain_hash stored_hash read e =
      let (stored, p, e₁) = ok_of_bind read _ e in
      let (s, e₂) = ensure-eq-ok (bytes_eq (hex_sha256 sha256 stored) stored_hash) _ _ e₁ in
      let (plain, d, e₃) = ok_of_bind (decompress decode c id stored) _ e₂ in
      record {
        stored = stored;
        plain = plain;
        was_read = p;
        stored_right = bytes_eq→eq _ _ s;
        decoded = d;
        plain_right = bytes_eq→eq _ _ (ensure_true _ _ e₃);
      }
    where
      ensure_true : (t : Bool) (x : Error) → ensure t x ≡ ok tt → t ≡ true
      ensure_true true x h = refl
      ensure_true false x h = cc

  -- What step 4 leaves when it succeeds: the bytes just written, or a file that was checked.
  pub stored_file :
      (fs fs' : Files) (path : Bytes) (c : Compression)
      (id plain_hash stored_hash stored_bytes : Bytes)
      → store sha256 encode decode fs path c id plain_hash stored_hash stored_bytes ≡ (ok tt, fs')
      → (fs'.at path ≡ some (file stored_bytes))
        ⊎ ((fs' ≡ fs) × Existing c id plain_hash stored_hash (read_file fs path))
  unfolding store
  stored_file fs fs' path c id plain_hash stored_hash stored_bytes e =
      elim (Bool-cases (exists fs path)) [
        | inl there ↦
            let e' : ◌≡◌ {A = Result (Unit {0}) × Files}
                (
                  check_existing sha256 encode decode c id plain_hash stored_hash
                      (read_file fs path),
                  fs,
                )
                (ok tt, fs') =
              rw there at e in
            inr (
              sym (ap (λ p. p.1) e'),
              existing c id plain_hash stored_hash (read_file fs path) (ap (λ p. p.0) e'),
            )
        | inr new ↦
            let e' : after_write (write_file fs path stored_bytes) ≡ (ok tt, fs') = rw new at e in
            inl
              (written (write_file fs path stored_bytes) (write_file-true fs path stored_bytes) e')
      ]
    where
      written :
          (w : Bool × Files)
          → (w.0 ≡ true → w.1.at path ≡ some (file stored_bytes))
          → after_write w ≡ (ok tt, fs')
          → fs'.at path ≡ some (file stored_bytes)
      written (true, fs₁) k h = ap (λ p. p.1.at path) (sym h) ∙ k refl
      written (false, fs₁) k h = cc

  -- A successful `write_chunk`, turned round.
  pub record Written (fs : Files) (base : Bytes) (sequence offset : ℕ) (plaintext : Bytes)
      (c : Compression) (meta : ChunkMetadata) (fs' : Files) : Type 0 where
    pub stored : Bytes
    pub path : Bytes
    pub compressed :
        compress encode c (codes "sha256:" ++ hex_sha256 sha256 plaintext) plaintext ≡ ok stored
    pub located : chunk_path base (hex_sha256 sha256 plaintext) ≡ ok path
    pub kept :
        store sha256 encode decode fs path c
          (codes "sha256:" ++ hex_sha256 sha256 plaintext)
          (hex_sha256 sha256 plaintext)
          (hex_sha256 sha256 stored)
          stored
        ≡ (ok tt, fs')
    pub described : metadata sha256 sequence offset plaintext c stored ≡ meta

  pub written :
      (fs fs' : Files) (base : Bytes) (sequence offset : ℕ) (plaintext : Bytes) (c : Compression)
      (meta : ChunkMetadata)
      → write_chunk sha256 encode decode fs base sequence offset plaintext c ≡ (ok meta, fs')
      → Written fs base sequence offset plaintext c meta fs'
  unfolding write_chunk prepare
  written fs fs' base sequence offset plaintext c meta e =
      located (compress encode c (codes "sha256:" ++ hex_sha256 sha256 plaintext) plaintext)
        (chunk_path base (hex_sha256 sha256 plaintext)) refl refl e
    where
      id : Bytes
      id = codes "sha256:" ++ hex_sha256 sha256 plaintext

      finished :
          (stored path : Bytes) (r : Result (Unit {0}) × Files)
          → compress encode c id plaintext ≡ ok stored
          → chunk_path base (hex_sha256 sha256 plaintext) ≡ ok path
          → store sha256 encode decode fs path c id
              (hex_sha256 sha256 plaintext)
              (hex_sha256 sha256 stored)
              stored
            ≡ r
          → finish r (metadata sha256 sequence offset plaintext c stored) ≡ (ok meta, fs')
          → Written fs base sequence offset plaintext c meta fs'
      finished stored path (ok u, fs₁) p q k h = record {
        stored = stored;
        path = path;
        compressed = p;
        located = q;
        kept = k ∙ ap (λ (t : Files). (ok tt, t)) (ap (λ t. t.1) h);
        described = ok_injective (ap (λ t. t.0) h);
      }
      finished stored path (err x, fs₁) p q k h = cc
      finished stored path (panic, fs₁) p q k h = cc
      finished stored path (stuck, fs₁) p q k h = cc

      located :
          (s : Result Bytes) (p : Result Bytes)
          → compress encode c id plaintext ≡ s
          → chunk_path base (hex_sha256 sha256 plaintext) ≡ p
          → write_prepared sha256 encode decode fs sequence offset plaintext c
              (s >>= λ t. p >>= λ u. ok (t, u))
            ≡ (ok meta, fs')
          → Written fs base sequence offset plaintext c meta fs'
      located (ok t) (ok u) p q h = finished t u _ p q refl h
      located (ok t) (err x) p q h = cc
      located (ok t) panic p q h = cc
      located (ok t) stuck p q h = cc
      located (err x) r p q h = cc
      located panic r p q h = cc
      located stuck r p q h = cc
