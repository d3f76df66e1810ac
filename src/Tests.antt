-- ===== src/Tests.antt =====
-- Concrete runs of the code, and its theorems at concrete inputs. `checksum` stands for SHA-256:
-- any function that gives 32 bytes meets what the theorems assume.
mod MerkleRuns
mod ChunkRuns
mod PartitionRuns
mod GptRuns
mod ShardRuns
mod NtfsRuns
mod ScopeRuns
mod LineageRuns
mod EvidenceRuns
mod VolumeRuns
use openforensicfileformat.Prelude.{
  ℕ, ◌+◌, ◌%◌, ◌<◌, ◌≡◌, refl, List, [], ◌∷◌, ◌++◌, replicate, length, All, arith, Option, some,
}
use openforensicfileformat.Bytes.{Bytes, IsByte}
use openforensicfileformat.Hex.RoundTrip.{IsDigest}
use openforensicfileformat.Merkle.Level.{GivesDigests}

abbrev pub total : Bytes → ℕ
total [] = 0
total (b ∷ bs) = b + total bs

abbrev pub checksum : Bytes → Bytes
checksum bs = total bs % 256 ∷ length bs % 256 ∷ replicate 30 7

pub checksum-IsDigest : GivesDigests checksum
checksum-IsDigest bs = record { width = refl; bytes = omega arith }

-- A compression that keeps every byte.
abbrev pub keep : Bytes → Option Bytes
keep bs = some bs
