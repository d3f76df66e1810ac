-- ===== src/Partition/Range/Refs.antt =====
-- crates/offf-core/src/partition.rs: the chunks that `chunk_refs_for_range` names.
use openforensicfileformat.Prelude.{
  ℕ, ◌+◌, ◌%◌, ◌^◌, ◌<◌, ◌≡◌, refl, ◌⊎◌, ◌&&◌, List, [], ◌∷◌, ltb, ◌==◌, arith, Bool-cases, inl,
  inr,
}
use openforensicfileformat.Bytes.{Bytes}
use openforensicfileformat.Chunk.{ChunkMetadata}
use openforensicfileformat.Partition.Range.{overlaps, keep_ids, chunk_refs_for_range}

-- A chunk and a range that have a byte in common, their ends as 64-bit numbers.
abbrev pub Meets : ChunkMetadata → ℕ → ℕ → Type 0
Meets c start len =
    (0 < len)
    × ((c.source_offset < (start + len) % 2 ^ 64)
        × (start < (c.source_offset + c.source_length) % 2 ^ 64))

-- The ids of the chunks that meet the range, in their order, and of no others.
abbrev pub NamesMeeting : List ChunkMetadata → ℕ → ℕ → List Bytes → Type 0
NamesMeeting [] start len refs = refs ≡ []
NamesMeeting (c ∷ chunks) start len refs =
    (Meets c start len
      × ((rest : List Bytes) × (refs ≡ c.chunk_id ∷ rest) × NamesMeeting chunks start len rest))
    ⊎ ((¬ Meets c start len) × NamesMeeting chunks start len refs)

keep_ids-NamesMeeting :
    (chunks : List ChunkMetadata) (start len : ℕ)
    → 0 < len
    → NamesMeeting chunks start len (keep_ids chunks start ((start + len) % 2 ^ 64))
unfolding keep_ids overlaps
keep_ids-NamesMeeting [] start len h = refl
keep_ids-NamesMeeting (c ∷ chunks) start len h =
    elim (Bool-cases (
      ltb c.source_offset ((start + len) % 2 ^ 64)
      && ltb start ((c.source_offset + c.source_length) % 2 ^ 64))) [
        | inl t ↦
            let low : c.source_offset < (start + len) % 2 ^ 64 = ground arith in
            let high : start < (c.source_offset + c.source_length) % 2 ^ 64 = ground arith in
            rw t (inl ((h, (low, high)), (_, refl, keep_ids-NamesMeeting chunks start len h)))
        | inr f ↦ rw f (
            inr (
              (λ m. let (a, (b, d)) = m in ground arith),
              keep_ids-NamesMeeting chunks start len h,
            ))
      ]

none-NamesMeeting : (chunks : List ChunkMetadata) (start : ℕ) → NamesMeeting chunks start 0 []
none-NamesMeeting [] start = refl
none-NamesMeeting (c ∷ chunks) start =
    inr ((λ m. omega (arith, m.0)), none-NamesMeeting chunks start)

pub chunk_refs_for_range-NamesMeeting :
    (chunks : List ChunkMetadata) (start len : ℕ)
    → NamesMeeting chunks start len (chunk_refs_for_range chunks start len)
unfolding chunk_refs_for_range
chunk_refs_for_range-NamesMeeting chunks start len = elim (Bool-cases (len == 0)) [
  | inl t ↦ let z : len ≡ 0 = ground arith in rw z (none-NamesMeeting chunks start)
  | inr f ↦ rw f (keep_ids-NamesMeeting chunks start len (ground arith))
]
