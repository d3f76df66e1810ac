-- ===== src/Partition/Range/Reads.antt =====
-- crates/offf-core/src/partition.rs: what `read_bytes_at` returns over chunks that lie one behind
-- the other, inside the image and past its end.
use openforensicfileformat.Prelude.{
  ℕ, ◌+◌, ◌-◌, ◌^◌, ◌<◌, ◌≤◌, min, false, ◌≡◌, refl, ap, ap₂, ◌∙◌, List, [], ◌++◌, length, take,
  drop, replicate, arith, Bool-cases, inl, inr, leb, ◌==◌, patch, nil_of_length, append-nil,
  length-take, length-drop, length-replicate, le→leb, ==→eq,
}
use openforensicfileformat.Bytes.{Bytes}
use openforensicfileformat.Outcome.{Result, ok, err, invalid_container}
use openforensicfileformat.Chunk.{ChunkMetadata}
use openforensicfileformat.Words.{add64}
use openforensicfileformat.Partition.Range.{fill_all, read_bytes_at}
use openforensicfileformat.Partition.Range.Image.{Tiles, fill_all_parts}
use openforensicfileformat.Partition.Range.Parts.{part}

length-slice :
    (image : Bytes) (offset len : ℕ)
    → length (take len (drop offset image)) ≡ min len (length image - offset)
length-slice image offset len =
    omega (arith, length-take len (drop offset image), length-drop offset image)

module _ (read : ChunkMetadata → Result Bytes) where
  fill_all-image :
      (chunks : List ChunkMetadata) (image : Bytes) (offset len : ℕ)
      → Tiles read 0 chunks image
      → length image < 2 ^ 64
      → offset + len < 2 ^ 64
      → fill_all read chunks offset (add64 offset len) (replicate len 0) 0
        ≡ ok (
          patch (replicate len 0) 0 (take len (drop offset image)),
          length (take len (drop offset image)),
        )
  fill_all-image chunks image offset len t h₁ h₂ =
      let end : add64 offset len ≡ offset + len = omega arith in
      let z : 0 - offset ≡ 0 = omega arith in
      let l : len - (0 - offset) ≡ len = omega arith in
      let o : offset - 0 ≡ offset = omega arith in
      let slice : part offset len 0 image ≡ take len (drop offset image) =
        ap₂ (λ a b. take a (drop b image)) l o in
      let n = length-slice image offset len in
      let size = ap length slice in
      ap (λ e. fill_all read chunks offset e (replicate len 0) 0) end
      ∙ fill_all_parts read chunks 0 offset len image (replicate len 0) 0 t (omega arith) h₂
          (length-replicate len 0) (omega arith)
      ∙ ap₂ (λ a b. ok (a, b)) (ap₂ (λ q s. patch (replicate len 0) q s) z slice) (omega arith)

  -- Over readable chunks that lie one behind the other and make up an image shorter than 2 ^ 64, a
  -- range inside the image is read as the bytes of the image.
  pub read_bytes_at-Tiles :
      (chunks : List ChunkMetadata) (image : Bytes) (offset len : ℕ)
      → Tiles read 0 chunks image
      → length image < 2 ^ 64
      → offset + len ≤ length image
      → read_bytes_at read chunks offset len ≡ ok (take len (drop offset image))
  unfolding read_bytes_at
  read_bytes_at-Tiles chunks image offset len t h₁ h₂ =
      let slice = take len (drop offset image) in
      let n = length-slice image offset len in
      elim (Bool-cases (len == 0)) [
        | inl z ↦ rw (z, ==→eq len 0 z) refl
        | inr nz ↦
            let zeros : Bytes = replicate len 0 in
            let all : drop (length slice) zeros ≡ [] =
              nil_of_length (drop (length slice) zeros)
                (omega (arith, length-drop (length slice) zeros, length-replicate {A = ℕ} len 0)) in
            rw
              (
                nz,
                fill_all-image chunks image offset len t h₁ (omega arith),
                le→leb len (length slice) (omega arith),
              )
              (ap ok (ap (λ s. slice ++ s) all ∙ append-nil slice))
      ]

  -- Over readable chunks that lie one behind the other and make up an image shorter than 2 ^ 64, a
  -- range of at least one byte that ends below 2 ^ 64 and past the end of the image is refused.
  pub read_bytes_at_past_end :
      (chunks : List ChunkMetadata) (image : Bytes) (offset len : ℕ)
      → Tiles read 0 chunks image
      → length image < 2 ^ 64
      → offset + len < 2 ^ 64
      → 0 < len
      → length image < offset + len
      → read_bytes_at read chunks offset len ≡ err invalid_container
  unfolding read_bytes_at
  read_bytes_at_past_end chunks image offset len t h₁ h₂ h₃ h₄ =
      let slice = take len (drop offset image) in
      let n = length-slice image offset len in
      let nz : (len == 0) ≡ false = ground arith in
      let short : leb len (length slice) ≡ false = ground arith in
      rw (nz, fill_all-image chunks image offset len t h₁ h₂, short) refl
