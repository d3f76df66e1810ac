-- ===== src/Partition/Range/Local.antt =====
-- crates/offf-core/src/partition.rs: `read_bytes_at` needs the chunks that overlap the range, and
-- no other.
use openforensicfileformat.Prelude.{
  ℕ, true, ◌≡◌, refl, List, [], ◌∷◌, All, replicate, Bool-cases, inl, inr,
}
use openforensicfileformat.Bytes.{Bytes}
use openforensicfileformat.Outcome.{Result, bind_ext}
use openforensicfileformat.Chunk.{ChunkMetadata}
use openforensicfileformat.Words.{add64}
use openforensicfileformat.Partition.Range.{overlaps, fill, fill_all, read_bytes_at}

module _ (read read' : ChunkMetadata → Result Bytes) where
  -- The two ways of reading agree on a chunk, if it overlaps the range.
  abbrev pub AgreesOn : ℕ → ℕ → ChunkMetadata → Type 0
  AgreesOn start end c = overlaps c start end ≡ true → read c ≡ read' c

  fill_local :
      (c : ChunkMetadata) (offset end : ℕ) (result : Bytes)
      → read c ≡ read' c
      → fill read c offset end result ≡ fill read' c offset end result
  unfolding fill
  fill_local c offset end result e = rw e refl

  fill_all_local :
      (chunks : List ChunkMetadata) (offset end : ℕ) (result : Bytes) (filled : ℕ)
      → All (AgreesOn offset end) chunks
      → fill_all read chunks offset end result filled
        ≡ fill_all read' chunks offset end result filled
  unfolding fill_all
  fill_all_local [] offset end result filled h = refl
  fill_all_local (c ∷ chunks) offset end result filled (h, hs) =
      elim (Bool-cases (overlaps c offset end)) [
        | inl t ↦
            rw (t, fill_local c offset end result (h t))
              (bind_ext (fill read' c offset end result) _ _
                (λ x. fill_all_local chunks offset end x.0 (add64 filled x.1) hs))
        | inr f ↦ rw (f, fill_all_local chunks offset end result filled hs) refl
      ]

  -- Two ways of reading chunks that agree on those that overlap the range give the same bytes, the
  -- same error or the same panic.
  pub read_bytes_at_local :
      (chunks : List ChunkMetadata) (offset length : ℕ)
      → All (AgreesOn offset (add64 offset length)) chunks
      → read_bytes_at read chunks offset length ≡ read_bytes_at read' chunks offset length
  unfolding read_bytes_at
  read_bytes_at_local chunks offset length h =
      rw (fill_all_local chunks offset (add64 offset length) (replicate length 0) 0 h) refl
