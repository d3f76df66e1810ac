-- ===== src/Tests/EvidenceRuns.antt =====
-- Runs of crates/offf-core/src/evidence.rs on a disk with no file, and on one that tears what is
-- written.
use openforensicfileformat.Prelude.{◌≡◌, ◌⊎◌, refl, none, some, [], ◌∷◌, ◌++◌}
use openforensicfileformat.Bytes.{Bytes, codes}
use openforensicfileformat.Outcome.{ok}
use openforensicfileformat.Hex.{hex_from_bytes32, hex_digit, at_char_boundary}
use openforensicfileformat.Files.{
  Files, file, done, tears, exists, write_file, rename_file, put_file, join, strip_prefix,
  strip_or_self, str_slice,
}
use openforensicfileformat.Scope.{last_dot}
use openforensicfileformat.Chunk.{hex_sha256}
use openforensicfileformat.Evidence.{
  with_extension, evidence_object_path, read_evidence_object, renamed, written, write_at,
  write_evidence_object,
}
use openforensicfileformat.Evidence.Stored.{
  IsReadBack, write_evidence_object_whole, read_evidence_object-write_evidence_object,
}
use openforensicfileformat.Tests.{checksum, checksum-IsDigest}

abbrev content : Bytes
content = 1 ∷ 2 ∷ 3 ∷ []

abbrev base : Bytes
base = codes "/c"

abbrev name : Bytes
name = codes "0603070707070707070707070707070707070707070707070707070707070707"

abbrev path : Bytes
path = codes "/c/evidence/objects/sha256/06/03/" ++ (name ++ codes ".bin")

abbrev empty_disk : Files
empty_disk = record { at = λ p. none; fate = λ p. done }

abbrev torn_disk : Files
torn_disk = record { at = λ p. none; fate = λ p. tears (1 ∷ []) }

path_run : evidence_object_path base (hex_sha256 checksum content) ≡ ok path
unfolding evidence_object_path hex_sha256 hex_from_bytes32 hex_digit strip_or_self strip_prefix
    str_slice at_char_boundary join
path_run = refl

written_run : (write_evidence_object checksum empty_disk base content).0 ≡ ok name
unfolding write_evidence_object write_at written renamed evidence_object_path hex_sha256
    hex_from_bytes32 hex_digit strip_or_self strip_prefix str_slice at_char_boundary join exists
    write_file rename_file with_extension last_dot put_file
written_run = refl

read_evidence_object-write_evidence_object_example :
    (name ≡ hex_from_bytes32 (checksum content))
    × IsReadBack checksum
        (read_evidence_object checksum
          (write_evidence_object checksum empty_disk base content).1
          base
          name)
        content
read_evidence_object-write_evidence_object_example =
    read_evidence_object-write_evidence_object checksum checksum-IsDigest empty_disk base content
      name written_run

write_evidence_object_whole_example :
    ((write_evidence_object checksum torn_disk base content).1.at path ≡ torn_disk.at path)
    ⊎ ((write_evidence_object checksum torn_disk base content).1.at path ≡ some (file content))
write_evidence_object_whole_example =
    write_evidence_object_whole checksum torn_disk base content path path_run
