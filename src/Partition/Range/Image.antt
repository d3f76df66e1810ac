-- ===== src/Partition/Range/Image.antt =====
-- crates/offf-core/src/partition.rs: over chunks that lie one behind the other, `read_bytes_at`
-- reads the image.
use openforensicfileformat.Prelude.{
  ℕ, ◌+◌, ◌-◌, ◌^◌, ◌<◌, ◌≤◌, min, max, true, false, ◌≡◌, refl, sym, ap, ap₂, ◌∙◌, List, [], ◌∷◌,
  ◌++◌, length, take, drop, arith, Bool-cases, inl, inr, ◌⊎◌, patch, patch_nil, length-patch,
  nil_of_length, length-append, length-take, length-drop, drop-drop, le→leb,
}
use openforensicfileformat.Bytes.{Bytes}
use openforensicfileformat.Outcome.{Result, ok, ◌>>=◌}
use openforensicfileformat.Chunk.{ChunkMetadata}
use openforensicfileformat.Words.{add64, sub64}
use openforensicfileformat.Partition.Range.Parts.{
  part, length-part, part_append, take-part, join_parts, skip_part, part_outside,
}
use openforensicfileformat.Partition.Range.{copy_slice, overlaps, fill, fill_all}

copy_slice_ok :
    (result p : Bytes) (dst src n : ℕ)
    → dst + n ≤ length result
    → src + n ≤ length p
    → copy_slice result dst p src n ≡ ok (patch result dst (take n (drop src p)))
unfolding copy_slice
copy_slice_ok result p dst src n h k =
    let whole : length (take n (drop src p)) ≡ n =
      omega (arith, length-take n (drop src p), length-drop src p) in
    rw
      (
        le→leb (dst + n) (length result) h,
        le→leb (src + n) (length p) k,
        drop-drop (length (take n (drop src p))) dst result,
        whole,
      )
      refl

module _ (read : ChunkMetadata → Result Bytes) where
  -- From the place `at` on, the chunks lie one behind the other, each can be read and is as long as
  -- its metadata say, and together they are `image`.
  abbrev pub Tiles : ℕ → List ChunkMetadata → Bytes → Type 0
  Tiles at [] image = image ≡ []
  Tiles at (c ∷ chunks) image =
      (p : Bytes) × (rest : Bytes) × (read c ≡ ok p)
      × (c.source_offset ≡ at)
      × (c.source_length ≡ length p)
      × (image ≡ p ++ rest)
      × Tiles (at + length p) chunks rest

  -- One chunk that overlaps the range: its part is written to its place.
  fill-part :
      (c : ChunkMetadata) (p : Bytes) (at offset len : ℕ) (result : Bytes)
      → read c ≡ ok p
      → c.source_offset ≡ at
      → c.source_length ≡ length p
      → at + length p < 2 ^ 64
      → offset + len < 2 ^ 64
      → at < offset + len
      → offset < at + length p
      → length result ≡ len
      → fill read c offset (offset + len) result
        ≡ ok (patch result (at - offset) (part offset len at p), length (part offset len at p))
  unfolding fill
  fill-part c p at offset len result e₁ e₂ e₃ h₁ h₂ h₃ h₄ h₅ =
      let n = length-part offset len at p in
      let to : sub64 (max offset c.source_offset) offset ≡ at - offset = omega arith in
      let from : sub64 (max offset c.source_offset) c.source_offset ≡ offset - at = omega arith in
      let count : sub64 (min (offset + len) (add64 c.source_offset c.source_length))
            (max offset c.source_offset)
          ≡ length (part offset len at p) =
        omega arith in
      rw (e₁, to, from, count)
        (ap (λ r. r >>= λ result'. ok (result', length (part offset len at p)))
          (copy_slice_ok result p (at - offset) (offset - at) (length (part offset len at p))
              (omega arith) (omega arith)
            ∙ ap (λ s. ok (patch result (at - offset) s)) (take-part offset len at p)))

  overlaps-inside :
      (c : ChunkMetadata) (at m start end : ℕ)
      → c.source_offset ≡ at
      → c.source_length ≡ m
      → at + m < 2 ^ 64
      → overlaps c start end ≡ true
      → (at < end) × (start < at + m)
  unfolding overlaps
  overlaps-inside c at m start end e₁ e₂ h t = ground arith

  overlaps-outside :
      (c : ChunkMetadata) (at m start end : ℕ)
      → c.source_offset ≡ at
      → c.source_length ≡ m
      → at + m < 2 ^ 64
      → overlaps c start end ≡ false
      → (end ≤ at) ⊎ (at + m ≤ start)
  unfolding overlaps
  overlaps-outside c at m start end e₁ e₂ h f = ground arith

  pub fill_all_parts :
      (chunks : List ChunkMetadata) (at offset len : ℕ) (image result : Bytes) (filled : ℕ)
      → Tiles at chunks image
      → at + length image < 2 ^ 64
      → offset + len < 2 ^ 64
      → length result ≡ len
      → filled + length (part offset len at image) < 2 ^ 64
      → fill_all read chunks offset (offset + len) result filled
        ≡ ok (
          patch result (at - offset) (part offset len at image),
          filled + length (part offset len at image),
        )
  unfolding fill_all
  fill_all_parts [] at offset len image result filled t h₁ h₂ h₃ h₄ =
      let n = length-part offset len at image in
      let e : part offset len at image ≡ [] = nil_of_length _ (omega (arith, ap length t)) in
      let e' : filled + 0 ≡ filled = omega arith in rw (e, patch_nil result (at - offset), e') refl
  fill_all_parts (c ∷ chunks) at offset len image result filled (p, rest, e₁, e₂, e₃, e₄, tiles) h₁
        h₂ h₃ h₄ =
      let s₁ = part offset len at p in
      let s₂ = part offset len (at + length p) rest in
      let whole : part offset len at image ≡ s₁ ++ s₂ =
        ap (part offset len at) e₄ ∙ part_append offset len at p rest in
      let size : length (part offset len at image) ≡ length s₁ + length s₂ =
        ap length whole ∙ length-append s₁ s₂ in
      let long : length image ≡ length p + length rest = ap length e₄ ∙ length-append p rest in
      elim (Bool-cases (overlaps c offset (offset + len))) [
        | inl t ↦
            let (i₁, i₂) =
              overlaps-inside c at (length p) offset (offset + len) e₂ e₃ (omega arith) t in
            let n = length-part offset len at p in
            let r₁ = patch result (at - offset) s₁ in
            let l₁ = length-patch result (at - offset) s₁ (omega arith) in
            let rec =
              fill_all_parts chunks (at + length p) offset len rest r₁ (add64 filled (length s₁))
                tiles (omega arith) h₂ (omega arith) (omega arith) in
            rw (t, fill-part c p at offset len result e₁ e₂ e₃ (omega arith) h₂ i₁ i₂ h₃, rec)
              (ap₂ (λ a b. ok (a, b))
                (join_parts at offset len p rest result i₁ i₂ h₃
                  ∙ ap (patch result (at - offset)) (sym whole))
                (omega arith))
        | inr f ↦
            let o = overlaps-outside c at (length p) offset (offset + len) e₂ e₃ (omega arith) f in
            let no_part = part_outside at offset len p o in
            let only : part offset len at image ≡ s₂ = whole ∙ ap (λ s. s ++ s₂) no_part in
            let rec =
              fill_all_parts chunks (at + length p) offset len rest result filled tiles
                (omega arith) h₂ h₃ (omega arith) in
            rw (f, rec)
              (ap₂ (λ a b. ok (a, b))
                (skip_part at offset len p rest result o
                  ∙ ap (patch result (at - offset)) (sym only))
                (ap (λ s. filled + length s) (sym only)))
      ]
