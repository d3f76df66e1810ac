-- ===== src/Partition/Gpt/Ordered.antt =====
-- crates/offf-core/src/partition.rs: what holds of every partition that `parse_gpt` gives.
use native.Mathlib.Nat.{add-mod, add-mul, add-mul-mod_self_left, mod-add-div, mul_assoc, mul_comm}
use openforensicfileformat.Prelude.{
  ℕ, zero, suc, arith, sym, ap, ◌∙◌, ◌*◌, ◌/◌, ◌%◌, ◌^◌, ◌+◌, ◌≤◌, ◌≡◌, refl, Bool, true, false,
  Option, none, some, List, ◌∷◌, All, length, if◌then◌else◌, ◌-◌, ltb, leb, ltb_false→le, ◌==◌,
  take, drop, subst, some_injective,
}
use openforensicfileformat.Bytes.{bytes_eq, Bytes, codes}
use openforensicfileformat.Outcome.{Result, ok, ok_of_bind, ensure-eq-ok, ok_injective}
use openforensicfileformat.Partition.Names.{crc32}
use openforensicfileformat.Chunk.{ChunkMetadata}
use openforensicfileformat.Words.{le64, le32, mul64}
use openforensicfileformat.Partition.{PartitionEntry, PartitionTableJson}
use openforensicfileformat.Partition.Range.{read_bytes_at}
use openforensicfileformat.Partition.Range.Refs.{NamesMeeting, chunk_refs_for_range-NamesMeeting}
use openforensicfileformat.Partition.Gpt.{header_for_crc, gpt_entry, gpt_entries, parse_gpt}

-- The partition's sectors are in order, its bytes begin with the first and end with the last of them
-- as 64-bit numbers, and it names the chunks that its bytes meet, and no others.
pub record IsExtent (chunks : List ChunkMetadata) (ss : ℕ) (p : PartitionEntry) : Type 0 where
  pub ordered : p.first_lba ≤ p.last_lba
  pub begins : p.start_offset ≡ p.first_lba * ss % 2 ^ 64
  pub ends : (p.start_offset + p.length) % 2 ^ 64 ≡ (p.last_lba + 1) * ss % 2 ^ 64
  pub refs : NamesMeeting chunks p.start_offset p.length p.chunk_refs

-- The sum of two products, one of a factor that has wrapped around.
wrapped_sum : (f k ss m : ℕ) → (f * ss % m + k % m * ss % m) % m ≡ (f + k) * ss % m
wrapped_sum f k ss m =
    let parts : k * ss ≡ k % m * ss + k / m * m * ss =
      ap (λ t. t * ss) (sym (mod-add-div k m))
      ∙ ap (λ t. (k % m + t) * ss) (mul_comm m (k / m))
      ∙ add-mul (k % m) (k / m * m) ss in
    let turns : k / m * m * ss ≡ m * (k / m * ss) =
      ap (λ t. t * ss) (mul_comm (k / m) m) ∙ mul_assoc m (k / m) ss in
    let wrapped : f * ss + k * ss ≡ f * ss + k % m * ss + m * (k / m * ss) = omega arith in
    sym (add-mod (f * ss) (k % m * ss) m)
    ∙ sym (add-mul-mod_self_left (f * ss + k % m * ss) m (k / m * ss))
    ∙ ap (λ t. t % m) (sym wrapped ∙ sym (add-mul f k ss))

unless_ok {ℓ} :
    {A : Type ℓ} {a : A} (b : Bool) (o : Option A)
    → (if b then none else o) ≡ some a
    → (b ≡ false) × (o ≡ some a)
unless_ok true o e = cc
unless_ok false o e = (refl, e)

in_order : (a b : ℕ) → a ≤ b → a + (b - a + 1) ≡ b + 1
in_order a b h = omega arith

gpt_entry-IsExtent :
    (chunks : List ChunkMetadata) (ss size i : ℕ) (e : Bytes) (p : PartitionEntry)
    → gpt_entry chunks ss size i e ≡ some p
    → IsExtent chunks ss p
unfolding gpt_entry
gpt_entry-IsExtent chunks ss size i e p h =
    let (_, h') = unless_ok _ _ h in
    let (f, h'') = unless_ok (ltb (le64 e 40) (le64 e 32)) _ h' in
    subst (IsExtent chunks ss) (some_injective h'') (record {
      ordered = ltb_false→le _ _ f;
      begins = refl;
      ends =
          wrapped_sum (le64 e 32) (le64 e 40 - le64 e 32 + 1) ss (2 ^ 64)
          ∙ ap (λ t. t * ss % 2 ^ 64) (in_order (le64 e 32) (le64 e 40) (ltb_false→le _ _ f));
      refs = chunk_refs_for_range-NamesMeeting chunks _ _;
    })

gpt_entries-IsExtent :
    (chunks : List ChunkMetadata) (ss size count i : ℕ) (array : Bytes)
    → All (IsExtent chunks ss) (gpt_entries chunks ss size count i array)
unfolding gpt_entries
gpt_entries-IsExtent chunks ss size zero i array = tt
gpt_entries-IsExtent chunks ss size (suc count) i array =
    step (gpt_entry chunks ss size i (take size array)) refl
      (λ j. gpt_entries-IsExtent chunks ss size count j (drop size array))
  where
    step :
        (o : Option PartitionEntry)
        → gpt_entry chunks ss size i (take size array) ≡ o
        → ((j : ℕ)
            → All (IsExtent chunks ss) (gpt_entries chunks ss size count j (drop size array)))
        → All (IsExtent chunks ss) (elim o [
          | none ↦ gpt_entries chunks ss size count i (drop size array)
          | some p ↦ p ∷ gpt_entries chunks ss size count (i + 1) (drop size array)
        ])
    step none e rest = rest i
    step (some p) e rest = (gpt_entry-IsExtent chunks ss size i _ p e, rest (i + 1))

module _ (read : ChunkMetadata → Result Bytes) (now version : Bytes) where
  -- Every partition of an accepted GPT covers sectors in order, begins with the
  -- first and ends with the last of them as 64-bit numbers, and names the chunks whose 64-bit range
  -- meets its own, in their order, and no others.
  pub parse_gpt-IsExtent :
      (chunks : List ChunkMetadata) (header : Bytes) (ss : ℕ) (container_id tool_name : Bytes)
      (t : PartitionTableJson)
      → parse_gpt read now version chunks header ss container_id tool_name ≡ ok t
      → All (IsExtent chunks ss) t.partitions
  unfolding parse_gpt
  parse_gpt-IsExtent chunks header ss container_id tool_name t e =
      let (_, e₁) = ensure-eq-ok (leb 92 (length header)) _ _ e in
      let (_, e₂) = ensure-eq-ok (bytes_eq (take 8 header) (codes "EFI PART")) _ _ e₁ in
      let (_, e₃) = ensure-eq-ok (crc32 (header_for_crc header) == le32 header 16) _ _ e₂ in
      let (_, e₄) = ensure-eq-ok (leb 128 (le32 header 84)) _ _ e₃ in
      let (entries, _, e₅) =
        ok_of_bind
          (read_bytes_at read chunks (mul64 (le64 header 72) ss)
            (mul64 (le32 header 80) (le32 header 84)))
          _ e₄ in
      subst (λ u. All (IsExtent chunks ss) u.partitions) (ok_injective e₅)
        (gpt_entries-IsExtent chunks ss (le32 header 84) (le32 header 80) 1 entries)
