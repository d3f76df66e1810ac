-- ===== src/Chunk/Writes.antt =====
-- crates/offf-core/src/chunk.rs: what `write_chunk` does to the files, when it succeeds and when it
-- does not.
use openforensicfileformat.Prelude.{
  ℕ, List, [], ◌∷◌, All, Bool, true, false, Option, none, some, ◌++◌, ◌≡◌, ◌≢◌, refl, inl, inr, ap,
  ◌∙◌, Bool-cases,
}
use openforensicfileformat.Bytes.{Bytes, codes, bytes_eq}
use openforensicfileformat.Outcome.{Result, ok, err, panic, stuck, io, hash_mismatch}
use openforensicfileformat.Files.{
  Files, Entry, file, Fate, tears, exists, read_file, write_file, at-write_file_ne, put_file,
  at-put_file_self,
}
use openforensicfileformat.Chunk.{
  Compression, ChunkMetadata, hex_sha256, check_existing, after_write, store, metadata, prepare,
  finish, write_prepared, write_chunk,
}

module _ (sha256 : Bytes → Bytes) (encode decode : Bytes → Option Bytes) where
  after_write_files : (w : Bool × Files) → (after_write w).1 ≡ w.1
  unfolding after_write
  after_write_files (true, fs) = refl
  after_write_files (false, fs) = refl

  -- Step 4 leaves every file that was there.
  at-store :
      (fs : Files) (path : Bytes) (c : Compression)
      (id plain_hash stored_hash stored_bytes q : Bytes) (x : Entry)
      → fs.at q ≡ some x
      → (store sha256 encode decode fs path c id plain_hash stored_hash stored_bytes).1.at q
        ≡ some x
  unfolding store
  at-store fs path c id plain_hash stored_hash stored_bytes q x e =
      elim (Bool-cases (exists fs path)) [
        | inl there ↦ rw there e
        | inr new ↦ rw new (
            ap (λ (t : Files). t.at q) (after_write_files (write_file fs path stored_bytes))
            ∙ at-write_file_ne fs path stored_bytes q (apart new)
            ∙ e)
      ]
    where
      apart : exists fs path ≡ false → path ≢ q
      apart new p = unfold exists in cc (rw (p, e, exists) at new)

  finish_files : (r : Result (Unit {0}) × Files) (m : ChunkMetadata) → (finish r m).1 ≡ r.1
  unfolding finish
  finish_files (r, fs) m = refl

  -- However `write_chunk` ends, every file that was there before is there with the same bytes.
  pub at-write_chunk :
      (fs : Files) (base : Bytes) (sequence offset : ℕ) (plaintext : Bytes) (c : Compression)
      (q : Bytes) (x : Entry)
      → fs.at q ≡ some x
      → (write_chunk sha256 encode decode fs base sequence offset plaintext c).1.at q ≡ some x
  unfolding write_chunk
  at-write_chunk fs base sequence offset plaintext c q x e =
      go (prepare sha256 encode decode base plaintext c)
    where
      go :
          (r : Result (Bytes × Bytes))
          → (write_prepared sha256 encode decode fs sequence offset plaintext c r).1.at q ≡ some x
      go (ok (stored, path)) =
          ap (λ (t : Files). t.at q)
            (finish_files
              (store sha256 encode decode fs path c (codes "sha256:" ++ hex_sha256 sha256 plaintext)
                (hex_sha256 sha256 plaintext) (hex_sha256 sha256 stored) stored)
              (metadata sha256 sequence offset plaintext c stored))
          ∙ at-store fs path c (codes "sha256:" ++ hex_sha256 sha256 plaintext)
              (hex_sha256 sha256 plaintext) (hex_sha256 sha256 stored) stored q x e
      go (err y) = e
      go panic = e
      go stuck = e

  -- The two ways of step 4.
  store_new :
      (fs : Files) (path : Bytes) (c : Compression) (id plain_hash stored_hash stored_bytes : Bytes)
      → fs.at path ≡ none
      → store sha256 encode decode fs path c id plain_hash stored_hash stored_bytes
        ≡ after_write (write_file fs path stored_bytes)
  unfolding store
  store_new fs path c id plain_hash stored_hash stored_bytes e = rw missing refl
    where
      missing : exists fs path ≡ false
      missing = unfold exists in rw (e, exists) refl

  store_old :
      (fs : Files) (path : Bytes) (c : Compression)
      (id plain_hash stored_hash stored_bytes b : Bytes)
      → fs.at path ≡ some (file b)
      → store sha256 encode decode fs path c id plain_hash stored_hash stored_bytes
        ≡ (check_existing sha256 encode decode c id plain_hash stored_hash (ok b), fs)
  unfolding store
  store_old fs path c id plain_hash stored_hash stored_bytes b e = rw (there, was_read) refl
    where
      there : exists fs path ≡ true
      there = unfold exists in rw (e, exists) refl

      was_read : read_file fs path ≡ ok b
      was_read = unfold read_file in rw (e, read_file) refl

  write_chunk-store :
      (fs : Files) (base : Bytes) (sequence offset : ℕ) (plaintext : Bytes) (c : Compression)
      (stored path : Bytes)
      → prepare sha256 encode decode base plaintext c ≡ ok (stored, path)
      → write_chunk sha256 encode decode fs base sequence offset plaintext c
        ≡ finish
            (store sha256 encode decode fs path c
              (codes "sha256:" ++ hex_sha256 sha256 plaintext)
              (hex_sha256 sha256 plaintext)
              (hex_sha256 sha256 stored)
              stored)
            (metadata sha256 sequence offset plaintext c stored)
  unfolding write_chunk
  write_chunk-store fs base sequence offset plaintext c stored path p = rw p refl

  -- A further write of the same bytes: its number, its place in the image, and how the disk behaves.
  pub record Retry : Type 0 where
    pub sequence : ℕ
    pub offset : ℕ
    pub fate : Bytes → Fate

  -- The results of further writes, one after the other.
  abbrev pub retries :
      Files → Bytes → Bytes → Compression → List Retry → List (Result ChunkMetadata)
  retries fs base plaintext c [] = []
  retries fs base plaintext c (r ∷ rs) =
      let out =
        write_chunk sha256 encode decode (record fs { fate = r.fate }) base r.sequence r.offset
          plaintext c in
      out.0 ∷ retries out.1 base plaintext c rs

  -- A write on a file whose digest is not that of the stored bytes.
  refused :
      (fs : Files) (base : Bytes) (sequence offset : ℕ) (plaintext : Bytes) (c : Compression)
      (stored path left : Bytes)
      → prepare sha256 encode decode base plaintext c ≡ ok (stored, path)
      → fs.at path ≡ some (file left)
      → bytes_eq (hex_sha256 sha256 left) (hex_sha256 sha256 stored) ≡ false
      → write_chunk sha256 encode decode fs base sequence offset plaintext c ≡ (
        err (
            hash_mismatch
              (codes "sha256:" ++ hex_sha256 sha256 plaintext)
              (hex_sha256 sha256 stored)
              (hex_sha256 sha256 left)),
        fs,
      )
  refused fs base sequence offset plaintext c stored path left p there differ =
      write_chunk-store fs base sequence offset plaintext c stored path p
      ∙ ap (λ r. finish r (metadata sha256 sequence offset plaintext c stored))
          (store_old fs path c _ _ _ stored left there)
      ∙ unfold finish check_existing in rw differ refl

  retries_refused :
      (rs : List Retry) (fs : Files) (base plaintext : Bytes) (c : Compression)
      (stored path left : Bytes)
      → prepare sha256 encode decode base plaintext c ≡ ok (stored, path)
      → fs.at path ≡ some (file left)
      → bytes_eq (hex_sha256 sha256 left) (hex_sha256 sha256 stored) ≡ false
      → All
          (λ r.
            r
            ≡ err (
                hash_mismatch
                  (codes "sha256:" ++ hex_sha256 sha256 plaintext)
                  (hex_sha256 sha256 stored)
                  (hex_sha256 sha256 left)))
          (retries fs base plaintext c rs)
  retries_refused [] fs base plaintext c stored path left p there differ = tt
  retries_refused (r ∷ rs) fs base plaintext c stored path left p there differ =
      let e =
        refused (record fs { fate = r.fate }) base r.sequence r.offset plaintext c stored path left
          p there differ in
      (
        ap (λ o. o.0) e,
        retries_refused rs
            (write_chunk sha256 encode decode (record fs { fate = r.fate }) base r.sequence r.offset
              plaintext c).1
            base plaintext c stored path left p
            (ap (λ (o : Result ChunkMetadata × Files). o.1.at path) e ∙ there) differ,
      )

  -- A first write that tears the file, with a digest that is not that of the stored bytes: it fails,
  -- and so does every later write of the same bytes with the same compression, whatever their
  -- numbers and places and however the disk then behaves, as long as nothing else changes the file.
  pub write_chunk_torn :
      (fs : Files) (base : Bytes) (sequence offset : ℕ) (plaintext : Bytes) (c : Compression)
      (stored path left : Bytes) (later : List Retry)
      → prepare sha256 encode decode base plaintext c ≡ ok (stored, path)
      → fs.at path ≡ none
      → fs.fate path ≡ tears left
      → bytes_eq (hex_sha256 sha256 left) (hex_sha256 sha256 stored) ≡ false
      → (fs₁ : Files) × (write_chunk sha256 encode decode fs base sequence offset plaintext c
          ≡ (err io, fs₁))
        × All
            (λ r.
              r
              ≡ err (
                  hash_mismatch
                    (codes "sha256:" ++ hex_sha256 sha256 plaintext)
                    (hex_sha256 sha256 stored)
                    (hex_sha256 sha256 left)))
            (retries fs₁ base plaintext c later)
  write_chunk_torn fs base sequence offset plaintext c stored path left later p new torn differ = (
    put_file fs path (some (file left)),
    write_chunk-store fs base sequence offset plaintext c stored path p
        ∙ ap (λ r. finish r (metadata sha256 sequence offset plaintext c stored))
            (store_new fs path c _ _ _ stored new ∙ ap after_write wrote)
        ∙ unfold finish after_write in refl,
    retries_refused later (put_file fs path (some (file left))) base plaintext c stored path left p
        (at-put_file_self fs path (some (file left))) differ,
  )
    where
      wrote : write_file fs path stored ≡ (false, put_file fs path (some (file left)))
      wrote = unfold write_file in rw (torn) refl
