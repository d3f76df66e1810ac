-- ===== src/Partition/Mbr/Bound.antt =====
-- crates/offf-core/src/partition.rs: how many partitions `parse_mbr` can give.
use openforensicfileformat.Prelude.{
  ℕ, zero, suc, ◌+◌, ◌≤◌, ◌≡◌, Bool, true, false, Option, none, some, List, [], ◌∷◌, ◌++◌, length,
  leb, ltb, ◌==◌, ◌||◌, if◌then◌else◌, arith, subst, length-append,
}
use openforensicfileformat.Bytes.{Bytes, codes}
use openforensicfileformat.Outcome.{
  Result, ok, err, panic, stuck, ok_of_bind, ensure-eq-ok, ok_injective, ◌>>=◌,
}
use openforensicfileformat.Chunk.{ChunkMetadata}
use openforensicfileformat.Words.{byte_at, decimal, mul64, add64}
use openforensicfileformat.Partition.{PartitionEntry, PartitionTableJson}
use openforensicfileformat.Partition.Range.{read_bytes_at}
use openforensicfileformat.Partition.Mbr.{
  mbr_entry, entry_start, entry_type, entry_count, Primary, primary_round, primary_entries,
  logical_entry, ebr_chain, max_ebr_chain, logical_entries, parse_mbr,
}

if_both : {A : Type 0} (P : A → Type 0) (b : Bool) (x y : A) → P x → P y → P (if b then x else y)
if_both P true x y p q = p
if_both P false x y p q = q

primary_round_bound :
    (chunks : List ChunkMetadata) (ss : ℕ) (sector0 : Bytes) (at : ℕ) (p : Primary)
    → length (primary_round chunks ss sector0 at p).partitions ≤ length p.partitions + 1
unfolding primary_round
primary_round_bound chunks ss sector0 at p = ground (
  arith,
  length-append p.partitions (
      mbr_entry chunks ss (codes "mbr-" ++ decimal p.mbr_index) (entry_type sector0 at)
        (entry_start sector0 at) (entry_count sector0 at) (some (byte_at sector0 at == 0x80))
      ∷ []),
)

primary_entries_bound :
    (chunks : List ChunkMetadata) (ss : ℕ) (sector0 : Bytes)
    → length (primary_entries chunks ss sector0).partitions ≤ 4
unfolding primary_entries
primary_entries_bound chunks ss sector0 =
    let bound = primary_round_bound chunks ss sector0 in
    omega (arith, bound (0x1BE + 48) _, bound (0x1BE + 32) _, bound (0x1BE + 16) _, bound 0x1BE _)

logical_entry_bound :
    (chunks : List ChunkMetadata) (ss : ℕ) (ebr : Bytes) (lba i : ℕ)
    → length (logical_entry chunks ss ebr lba i) ≤ 1
unfolding logical_entry
logical_entry_bound chunks ss ebr lba i = ground arith

module _ (read : ChunkMetadata → Result Bytes) where
  -- A run of the chain gives no more partitions than it has rounds left.
  abbrev FewRows : ℕ → Result (List PartitionEntry) → Type 0
  FewRows n r = (ps : List PartitionEntry) → r ≡ ok ps → length ps ≤ n

  FewRows-ok : (n : ℕ) (ps : List PartitionEntry) → length ps ≤ n → FewRows n (ok ps)
  FewRows-ok n ps h qs e = subst (λ t. length t ≤ n) (ok_injective e) h

  FewRows-branches :
      (a b : Bool) (n : ℕ) (here : List PartitionEntry) (more : Result (List PartitionEntry))
      → length here ≤ 1
      → FewRows n more
      → FewRows
          (suc n)
          (if a then ok [] else if b then ok here else (more >>= λ rest. ok (here ++ rest)))
  FewRows-branches true b n here more h k ps e = FewRows-ok (suc n) [] (omega arith) ps e
  FewRows-branches false true n here more h k ps e = FewRows-ok (suc n) here (omega arith) ps e
  FewRows-branches false false n here more h k ps e =
      let (rest, e₁, e₂) = ok_of_bind more _ e in
      FewRows-ok (suc n) (here ++ rest) (omega (arith, length-append here rest, k rest e₁)) ps e₂

  ebr_chain_bound :
      (chunks : List ChunkMetadata) (ss ext_lba rounds lba i : ℕ)
      → FewRows rounds (ebr_chain read chunks ss ext_lba rounds lba i)
  unfolding ebr_chain
  ebr_chain_bound chunks ss ext_lba zero lba i ps e = FewRows-ok 0 [] (omega arith) ps e
  ebr_chain_bound chunks ss ext_lba (suc rounds) lba i ps e =
      step (read_bytes_at read chunks (mul64 lba ss) ss)
        (λ next. ebr_chain_bound chunks ss ext_lba rounds next (i + 1)) ps e
    where
      step :
          (r : Result Bytes)
          → ((next : ℕ) → FewRows rounds (ebr_chain read chunks ss ext_lba rounds next (i + 1)))
          → FewRows (suc rounds) (elim r [
            | err e ↦ ok []
            | panic ↦ panic
            | stuck ↦ stuck
            | ok ebr ↦
                let here = logical_entry chunks ss ebr lba i in
                let more = (do
                  rest ←
                      ebr_chain read chunks ss ext_lba rounds
                        (add64 ext_lba (entry_start ebr 0x1CE))
                        (i + 1)
                  ok (here ++ rest)) in
                if ltb (length ebr) 512
                then ok []
                else if (entry_count ebr 0x1CE == 0) || (entry_type ebr 0x1CE == 0x00)
                then ok here
                else more
          ])
      step (err x) rec ps e = FewRows-ok _ [] (omega arith) ps e
      step panic rec ps e = cc
      step stuck rec ps e = cc
      step (ok ebr) rec ps e =
          FewRows-branches (ltb (length ebr) 512)
            ((entry_count ebr 0x1CE == 0) || (entry_type ebr 0x1CE == 0x00)) rounds
            (logical_entry chunks ss ebr lba i) _ (logical_entry_bound chunks ss ebr lba i)
            (rec (add64 ext_lba (entry_start ebr 0x1CE))) ps e

  logical_entries_bound :
      (chunks : List ChunkMetadata) (ss : ℕ) (extended : Option ℕ)
      → FewRows 256 (logical_entries read chunks ss extended)
  unfolding logical_entries max_ebr_chain
  logical_entries_bound chunks ss none = FewRows-ok 256 [] (omega arith)
  logical_entries_bound chunks ss (some lba) = ebr_chain_bound chunks ss lba 256 lba 1

  -- A table that `parse_mbr` returns lists at most 260 partitions, whatever the sectors hold.
  pub parse_mbr_bound :
      (now version : Bytes) (chunks : List ChunkMetadata) (sector0 : Bytes) (ss : ℕ)
      (container_id tool_name : Bytes) (t : PartitionTableJson)
      → parse_mbr read now version chunks sector0 ss container_id tool_name ≡ ok t
      → length t.partitions ≤ 260
  unfolding parse_mbr
  parse_mbr_bound now version chunks sector0 ss container_id tool_name t e =
      let primary = primary_entries chunks ss sector0 in
      let (_, e₁) = ensure-eq-ok (leb 512 (length sector0)) _ _ e in
      let (logical, e₂, e₃) =
        ok_of_bind (logical_entries read chunks ss primary.extended_lba) _ e₁ in
      subst (λ u. length u.partitions ≤ 260) (ok_injective e₃)
        (omega (
          arith,
          length-append primary.partitions logical,
          primary_entries_bound chunks ss sector0,
          logical_entries_bound chunks ss primary.extended_lba logical e₂,
        ))
