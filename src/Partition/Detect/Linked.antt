-- ===== src/Partition/Detect/Linked.antt =====
-- crates/offf-core/src/partition.rs: whichever table `detect_and_parse` finds, its partitions name
-- the chunks that overlap them.
use openforensicfileformat.Prelude.{
  ℕ, ◌≡◌, refl, Bool, true, false, Option, none, some, List, [], ◌∷◌, All, if◌then◌else◌,
}
use openforensicfileformat.Bytes.{Bytes, codes}
use openforensicfileformat.Outcome.{Result, ok, err, panic, stuck, ok_of_bind}
use openforensicfileformat.Chunk.{ChunkMetadata}
use openforensicfileformat.Words.{mul64, le64}
use openforensicfileformat.Partition.{PartitionEntry, PartitionTableJson}
use openforensicfileformat.Partition.Range.{read_bytes_at}
use openforensicfileformat.Partition.Range.Refs.{chunk_refs_for_range-NamesMeeting}
use openforensicfileformat.Partition.Volume.{detect_volume_type}
use openforensicfileformat.Partition.Mbr.Linked.{IsLinked, Gives, Gives-ok, parse_mbr-IsLinked}
use openforensicfileformat.Partition.Gpt.{parse_gpt}
use openforensicfileformat.Partition.Gpt.Ordered.{IsExtent, parse_gpt-IsExtent}
use openforensicfileformat.Partition.Detect.{
  has_mbr_sig, is_gpt, volume_entry, Attempt, found, nothing, breaks, attempt, with_sector, settle,
  table, backup_gpt, try_gpt, fall_back, classify, detect_and_parse,
}

IsExtent-IsLinked :
    (chunks : List ChunkMetadata) (ss : ℕ) (ps : List PartitionEntry)
    → All (IsExtent chunks ss) ps
    → All (IsLinked chunks) ps
IsExtent-IsLinked chunks ss [] h = tt
IsExtent-IsLinked chunks ss (p ∷ ps) (h, hs) = (h.refs, IsExtent-IsLinked chunks ss ps hs)

module _ (read : ChunkMetadata → Result Bytes) (now version : Bytes) (chunks : List ChunkMetadata)
    (ss : ℕ) where
  abbrev IsLinkedTable : PartitionTableJson → Type 0
  IsLinkedTable t = All (IsLinked chunks) t.partitions

  abbrev IsLinkedAttempt : Attempt → Type 0
  IsLinkedAttempt (found t) = IsLinkedTable t
  IsLinkedAttempt nothing = Unit {0}
  IsLinkedAttempt (breaks r) = Gives IsLinkedTable r

  attempt-IsLinked :
      (r : Result PartitionTableJson) (a : Attempt)
      → Gives IsLinkedTable r
      → IsLinkedAttempt a
      → IsLinkedAttempt (attempt r a)
  attempt-IsLinked (ok t) a h k = h t refl
  attempt-IsLinked (err x) a h k = k
  attempt-IsLinked panic a h k = h
  attempt-IsLinked stuck a h k = h

  with_sector-IsLinked :
      (r : Result Bytes) (k : Bytes → Attempt)
      → ((sector : Bytes) → IsLinkedAttempt (k sector))
      → IsLinkedAttempt (with_sector r k)
  with_sector-IsLinked (ok sector) k h = h sector
  with_sector-IsLinked (err x) k h = tt
  with_sector-IsLinked panic k h = λ t e. cc
  with_sector-IsLinked stuck k h = λ t e. cc

  settle-IsLinked :
      (a : Attempt) (r : Result PartitionTableJson)
      → IsLinkedAttempt a
      → Gives IsLinkedTable r
      → Gives IsLinkedTable (settle a r)
  settle-IsLinked (found u) r h k t e = Gives-ok IsLinkedTable u h t e
  settle-IsLinked nothing r h k t e = k t e
  settle-IsLinked (breaks q) r h k t e = h t e

  gpt-IsLinked :
      (header container_id tool_name : Bytes)
      → Gives IsLinkedTable (parse_gpt read now version chunks header ss container_id tool_name)
  gpt-IsLinked header container_id tool_name t e =
      IsExtent-IsLinked chunks ss t.partitions
        (parse_gpt-IsExtent read now version chunks header ss container_id tool_name t e)

  either_attempt :
      (b : Bool) (a : Attempt) → IsLinkedAttempt a → IsLinkedAttempt (if b then a else nothing)
  either_attempt true a h = h
  either_attempt false a h = tt

  backup_gpt-IsLinked :
      (sector1 container_id tool_name : Bytes)
      → IsLinkedAttempt (backup_gpt read now version chunks ss sector1 container_id tool_name)
  unfolding backup_gpt
  backup_gpt-IsLinked sector1 container_id tool_name = either_attempt _ _ (
      with_sector-IsLinked (read_bytes_at read chunks (mul64 (le64 sector1 32) ss) ss) _ (λ backup.
        attempt-IsLinked (parse_gpt read now version chunks backup ss container_id tool_name)
          nothing (gpt-IsLinked backup container_id tool_name) tt))

  try_gpt-IsLinked :
      (sector1 container_id tool_name : Bytes)
      → IsLinkedAttempt (try_gpt read now version chunks ss sector1 container_id tool_name)
  unfolding try_gpt
  try_gpt-IsLinked sector1 container_id tool_name =
      attempt-IsLinked (parse_gpt read now version chunks sector1 ss container_id tool_name) _
        (gpt-IsLinked sector1 container_id tool_name)
        (backup_gpt-IsLinked sector1 container_id tool_name)

  either_result :
      (b : Bool) (x y : Result PartitionTableJson)
      → Gives IsLinkedTable x
      → Gives IsLinkedTable y
      → Gives IsLinkedTable (if b then x else y)
  either_result true x y h k = h
  either_result false x y h k = k

  fall_back-IsLinked :
      (sector0 container_id tool_name : Bytes)
      → Gives IsLinkedTable (fall_back read now version chunks ss sector0 container_id tool_name)
  unfolding fall_back
  fall_back-IsLinked sector0 container_id tool_name =
      either_result (has_mbr_sig sector0) _ _
        (parse_mbr-IsLinked read chunks ss now version sector0 container_id tool_name)
        (Gives-ok IsLinkedTable
          (table read now version container_id ss tool_name (codes "unknown") []) tt)

  classify-IsLinked :
      (container_id tool_name sector0 : Bytes) (fs : Option Bytes)
      → Gives IsLinkedTable (classify read now version chunks ss container_id tool_name sector0 fs)
  unfolding classify volume_entry
  classify-IsLinked container_id tool_name sector0 (some fs_type) =
      Gives-ok IsLinkedTable
        (table read now version container_id ss tool_name (codes "volume_image")
          (volume_entry chunks ss fs_type ∷ []))
        (chunk_refs_for_range-NamesMeeting chunks _ _, tt)
  classify-IsLinked container_id tool_name sector0 none =
      either_result (is_gpt sector0) _ _
        (λ t e.
          let (sector1, _, e₂) = ok_of_bind (read_bytes_at read chunks ss ss) _ e in
          settle-IsLinked (try_gpt read now version chunks ss sector1 container_id tool_name) _
            (try_gpt-IsLinked sector1 container_id tool_name)
            (fall_back-IsLinked sector0 container_id tool_name) t e₂)
        (fall_back-IsLinked sector0 container_id tool_name)

  -- A volume image, a GPT, its backup, an MBR with its chain: every partition of the table that is
  -- found names the chunks whose 64-bit range meets its own, in their order, and no others.
  pub detect_and_parse-IsLinked :
      (container_id tool_name : Bytes) (t : PartitionTableJson)
      → detect_and_parse read now version chunks ss container_id tool_name ≡ ok t
      → All (IsLinked chunks) t.partitions
  unfolding detect_and_parse
  detect_and_parse-IsLinked container_id tool_name t e =
      let (sector0, _, e₂) = ok_of_bind (read_bytes_at read chunks 0 ss) _ e in
      classify-IsLinked container_id tool_name sector0 (detect_volume_type sector0) t e₂
