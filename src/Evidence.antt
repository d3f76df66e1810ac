-- ===== src/Evidence.antt =====
-- crates/offf-core/src/evidence.rs. The directory is made as a part of writing the file in it.
pub mod Stored
use openforensicfileformat.Prelude.{
  ℕ, zero, suc, Bool, true, false, if◌then◌else◌, leb, length, take, Option, none, some, List, [],
  ◌∷◌, ◌++◌,
}
use openforensicfileformat.Bytes.{Bytes, codes, bytes_eq}
use openforensicfileformat.Outcome.{
  Result, ok, err, panic, stuck, io, hash_mismatch, ◌>>=◌, ◌>>◌, ensure,
}
use openforensicfileformat.Files.{
  Files, exists, read_file, write_file, rename_file, join, strip_or_self, str_slice,
}
use openforensicfileformat.Scope.{last_dot}
use openforensicfileformat.Chunk.{hex_sha256}

-- `Path::with_extension`, of a path whose file name has an extension.
unfoldable pub with_extension : Bytes → Bytes → Bytes
with_extension path ext = elim (last_dot path) [
  | some n ↦ take n path ++ (b'.' ∷ ext)
  | none ↦ path ++ (b'.' ∷ ext)
]

unfoldable pub evidence_object_path : Bytes → Bytes → Result Bytes
evidence_object_path base sha256_hex =
    let hex = strip_or_self (codes "sha256:") sha256_hex in
    let path = (do
      ab ← str_slice hex 0 2
      cd ← str_slice hex 2 4
      ok (
          join
            (join (join (join (join base (codes "evidence")) (codes "objects")) (codes "sha256"))
              ab)
            cd)) in
    if leb 4 (length hex) then (path >>= λ dir. ok (join dir (hex ++ codes ".bin"))) else panic

module _ (sha256 : Bytes → Bytes) where
  unfoldable pub read_evidence_object : Files → Bytes → Bytes → Result Bytes
  read_evidence_object fs base sha256_ref = do
    path ← evidence_object_path base sha256_ref
    let expected = strip_or_self (codes "sha256:") sha256_ref
    content ← read_file fs path
    let computed = hex_sha256 sha256 content
    ensure (bytes_eq computed expected) (hash_mismatch sha256_ref expected computed)
    ok content

  unfoldable pub verify_evidence_object : Files → Bytes → Bytes → Result (Unit {0})
  verify_evidence_object fs base sha256_ref = do
    content ← read_evidence_object fs base sha256_ref
    ok tt

  unfoldable pub renamed : Bytes → Bool × Files → Result Bytes × Files
  renamed sha256_hex (true, fs) = (ok sha256_hex, fs)
  renamed sha256_hex (false, fs) = (err io, fs)

  unfoldable pub written : Bytes → Bytes → Bool × Files → Result Bytes × Files
  written sha256_hex path (true, fs) =
      renamed sha256_hex (rename_file fs (with_extension path (codes "bin.tmp")) path)
  written sha256_hex path (false, fs) = (err io, fs)

  unfoldable pub write_at : Files → Bytes → Bytes → Result Bytes → Result Bytes × Files
  write_at fs base content (ok path) =
      if exists fs path
      then (
        verify_evidence_object fs base (hex_sha256 sha256 content) >>= λ _.
            ok (hex_sha256 sha256 content),
        fs,
      )
      else written (hex_sha256 sha256 content) path
          (write_file fs (with_extension path (codes "bin.tmp")) content)
  write_at fs base content (err e) = (err e, fs)
  write_at fs base content panic = (panic, fs)
  write_at fs base content stuck = (stuck, fs)

  unfoldable pub write_evidence_object : Files → Bytes → Bytes → Result Bytes × Files
  write_evidence_object fs base content =
      write_at fs base content (evidence_object_path base (hex_sha256 sha256 content))
