-- ===== src/Partition/Mbr/Linked.antt =====
-- crates/offf-core/src/partition.rs: every partition that `parse_mbr` lists names the chunks that
-- overlap it.
use openforensicfileformat.Prelude.{
  ℕ, zero, suc, ◌≡◌, Bool, true, false, ◌||◌, Option, none, some, List, [], ◌∷◌, ◌++◌, All,
  All-append, length, ltb, leb, ◌==◌, if◌then◌else◌, subst, ◌+◌,
}
use openforensicfileformat.Bytes.{Bytes, codes}
use openforensicfileformat.Outcome.{
  Result, ok, err, panic, stuck, ok_of_bind, ensure-eq-ok, ok_injective, ◌>>=◌,
}
use openforensicfileformat.Chunk.{ChunkMetadata}
use openforensicfileformat.Words.{mul64, add64, decimal, byte_at}
use openforensicfileformat.Partition.{PartitionEntry}
use openforensicfileformat.Partition.Range.{read_bytes_at}
use openforensicfileformat.Partition.Range.Refs.{NamesMeeting, chunk_refs_for_range-NamesMeeting}
use openforensicfileformat.Partition.Mbr.{
  Primary, mbr_entry, entry_type, entry_start, entry_count, primary_round, primary_entries,
  logical_entry, ebr_chain, max_ebr_chain, logical_entries, parse_mbr,
}

-- The chunk references of a partition are the ids of the chunks that its bytes meet.
abbrev pub IsLinked : List ChunkMetadata → PartitionEntry → Type 0
IsLinked chunks p = NamesMeeting chunks p.start_offset p.length p.chunk_refs

-- What code returns, if it returns, meets `P`.
abbrev pub Gives {ℓ} : {A : Type ℓ} → (A → Type 0) → Result A → Type ℓ
Gives P r = (a : _) → r ≡ ok a → P a

pub Gives-ok {ℓ} : {A : Type ℓ} (P : A → Type 0) (a : A) → P a → Gives P (ok a)
Gives-ok P a h b e = subst P (ok_injective e) h

mbr_entry-IsLinked :
    (chunks : List ChunkMetadata) (ss : ℕ) (id : Bytes) (t lba count : ℕ) (b : Option Bool)
    → IsLinked chunks (mbr_entry chunks ss id t lba count b)
unfolding mbr_entry
mbr_entry-IsLinked chunks ss id t lba count b = chunk_refs_for_range-NamesMeeting chunks _ _

three_ways :
    (P : Primary → Type 0) (a b c : Bool) (x y z : Primary)
    → P x
    → P y
    → P z
    → P (if a then x else if b then x else if c then y else z)
three_ways P true b c x y z h k l = h
three_ways P false true c x y z h k l = h
three_ways P false false true x y z h k l = k
three_ways P false false false x y z h k l = l

primary_round-IsLinked :
    (chunks : List ChunkMetadata) (ss : ℕ) (sector0 : Bytes) (at : ℕ) (p : Primary)
    → All (IsLinked chunks) p.partitions
    → All (IsLinked chunks) (primary_round chunks ss sector0 at p).partitions
unfolding primary_round
primary_round-IsLinked chunks ss sector0 at p h =
    let t = entry_type sector0 at in
    let lba = entry_start sector0 at in
    let count = entry_count sector0 at in
    let new =
      mbr_entry chunks ss (codes "mbr-" ++ decimal p.mbr_index) t lba count
        (some (byte_at sector0 at == 0x80)) in
    three_ways (λ q. All (IsLinked chunks) q.partitions) (t == 0) (count == 0)
      ((t == 0x05) || (t == 0x0F)) p (record p { extended_lba = some lba })
      (record p { partitions = p.partitions ++ (new ∷ []); mbr_index = p.mbr_index + 1 }) h h
      (All-append (IsLinked chunks) p.partitions (new ∷ []) h
        (mbr_entry-IsLinked chunks ss _ t lba count _, tt))

primary_entries-IsLinked :
    (chunks : List ChunkMetadata) (ss : ℕ) (sector0 : Bytes)
    → All (IsLinked chunks) (primary_entries chunks ss sector0).partitions
unfolding primary_entries
primary_entries-IsLinked chunks ss sector0 =
    let round = primary_round-IsLinked chunks ss sector0 in
    round (0x1BE + 48) _ (round (0x1BE + 32) _ (round (0x1BE + 16) _ (round 0x1BE _ tt)))

one_or_none :
    (chunks : List ChunkMetadata) (b : Bool) (p : PartitionEntry)
    → IsLinked chunks p
    → All (IsLinked chunks) (if b then p ∷ [] else [])
one_or_none chunks true p h = (h, tt)
one_or_none chunks false p h = tt

logical_entry-IsLinked :
    (chunks : List ChunkMetadata) (ss : ℕ) (ebr : Bytes) (lba i : ℕ)
    → All (IsLinked chunks) (logical_entry chunks ss ebr lba i)
unfolding logical_entry
logical_entry-IsLinked chunks ss ebr lba i =
    one_or_none chunks _
      (mbr_entry chunks ss (codes "ebr-" ++ decimal i) (entry_type ebr 0x1BE)
        (add64 lba (entry_start ebr 0x1BE)) (entry_count ebr 0x1BE) none)
      (mbr_entry-IsLinked chunks ss (codes "ebr-" ++ decimal i) (entry_type ebr 0x1BE)
        (add64 lba (entry_start ebr 0x1BE)) (entry_count ebr 0x1BE) none)

chain_ways :
    (P : PartitionEntry → Type 0) (a b : Bool) (here : List PartitionEntry)
    (more : Result (List PartitionEntry))
    → All P here
    → Gives (All P) more
    → Gives
        (All P)
        (if a then ok [] else if b then ok here else (more >>= λ rest. ok (here ++ rest)))
chain_ways P true b here more h k ps e = Gives-ok (All P) [] tt ps e
chain_ways P false true here more h k ps e = Gives-ok (All P) here h ps e
chain_ways P false false here more h k ps e =
    let (rest, e₁, e₂) = ok_of_bind more _ e in
    Gives-ok (All P) (here ++ rest) (All-append P here rest h (k rest e₁)) ps e₂

module _ (read : ChunkMetadata → Result Bytes) (chunks : List ChunkMetadata) (ss : ℕ) where
  ebr_chain-IsLinked :
      (ext_lba rounds lba i : ℕ)
      → Gives (All (IsLinked chunks)) (ebr_chain read chunks ss ext_lba rounds lba i)
  unfolding ebr_chain
  ebr_chain-IsLinked ext_lba zero lba i ps e = Gives-ok (All (IsLinked chunks)) [] tt ps e
  ebr_chain-IsLinked ext_lba (suc rounds) lba i ps e =
      step (read_bytes_at read chunks (mul64 lba ss) ss)
        (λ next. ebr_chain-IsLinked ext_lba rounds next (i + 1)) ps e
    where
      step :
          (r : Result Bytes)
          → ((next : ℕ)
              → Gives
                  (All (IsLinked chunks))
                  (ebr_chain read chunks ss ext_lba rounds next (i + 1)))
          → Gives (All (IsLinked chunks)) (elim r [
            | err e ↦ ok []
            | panic ↦ panic
            | stuck ↦ stuck
            | ok ebr ↦
                let here = logical_entry chunks ss ebr lba i in
                let more = (do
                  rest ←
                      ebr_chain read chunks ss ext_lba rounds
                        (add64 ext_lba (entry_start ebr 0x1CE))
                        (i + 1)
                  ok (here ++ rest)) in
                if ltb (length ebr) 512
                then ok []
                else if (entry_count ebr 0x1CE == 0) || (entry_type ebr 0x1CE == 0x00)
                then ok here
                else more
          ])
      step (err x) rec ps e = Gives-ok (All (IsLinked chunks)) [] tt ps e
      step panic rec ps e = cc
      step stuck rec ps e = cc
      step (ok ebr) rec ps e =
          chain_ways (IsLinked chunks) (ltb (length ebr) 512)
            ((entry_count ebr 0x1CE == 0) || (entry_type ebr 0x1CE == 0x00))
            (logical_entry chunks ss ebr lba i) _ (logical_entry-IsLinked chunks ss ebr lba i)
            (rec (add64 ext_lba (entry_start ebr 0x1CE))) ps e

  logical_entries-IsLinked :
      (extended : Option ℕ)
      → Gives (All (IsLinked chunks)) (logical_entries read chunks ss extended)
  unfolding logical_entries
  logical_entries-IsLinked none ps e = Gives-ok (All (IsLinked chunks)) [] tt ps e
  logical_entries-IsLinked (some lba) ps e = ebr_chain-IsLinked lba max_ebr_chain lba 1 ps e

  pub parse_mbr-IsLinked :
      (now version sector0 container_id tool_name : Bytes)
      → Gives
          (λ t. All (IsLinked chunks) t.partitions)
          (parse_mbr read now version chunks sector0 ss container_id tool_name)
  unfolding parse_mbr
  parse_mbr-IsLinked now version sector0 container_id tool_name t e =
      let primary = primary_entries chunks ss sector0 in
      let (_, e₁) = ensure-eq-ok (leb 512 (length sector0)) _ _ e in
      let (logical, e₂, e₃) =
        ok_of_bind (logical_entries read chunks ss primary.extended_lba) _ e₁ in
      subst (λ u. All (IsLinked chunks) u.partitions) (ok_injective e₃)
        (All-append (IsLinked chunks) primary.partitions logical
          (primary_entries-IsLinked chunks ss sector0)
          (logical_entries-IsLinked primary.extended_lba logical e₂))
