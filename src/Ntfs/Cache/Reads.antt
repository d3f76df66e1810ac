-- ===== src/Ntfs/Cache/Reads.antt =====
-- crates/offf-core/src/ntfs.rs: `ChunkCache::read_at` beside `read_bytes_at` of
-- crates/offf-core/src/partition.rs.
use openforensicfileformat.Prelude.{
  ℕ, ◌+◌, ◌^◌, ◌<◌, ◌≤◌, ◌≡◌, ◌≢◌, ◌⊎◌, inl, inr, refl, sym, ◌∙◌, true, false, ◌&&◌, List, [], ◌∷◌,
  All, arith, ltb, leb, ◌==◌, Bool-cases, replicate, length, take, drop,
}
use openforensicfileformat.Bytes.{Bytes}
use openforensicfileformat.Outcome.{
  Result, ok, err, panic, stuck, invalid_container, ◌>>=◌, ◌>>◌, ensure, bind_state,
}
use openforensicfileformat.Chunk.{ChunkMetadata}
use openforensicfileformat.Words.{add64}
use openforensicfileformat.Partition.Range.{overlaps, copy_slice, fill, fill_all, read_bytes_at}
use openforensicfileformat.Partition.Range.Image.{Tiles}
use openforensicfileformat.Partition.Range.Reads.{read_bytes_at-Tiles}
use openforensicfileformat.Ntfs.Cache.{
  ChunkCache, copy_if_fits, copy_part, finish, fetch, read_loop, read_at,
}
use openforensicfileformat.Ntfs.Cache.Kept.{IsCache, fetch-IsCache}

-- A copy that does not fit is left out here, and is a panic there.
copy_cases :
    (result p : Bytes) (dst src len : ℕ)
    → (◌>>=◌ {B = Bytes × ℕ} (copy_slice result dst p src len) (λ r. ok (r, len))
        ≡ ok (copy_if_fits result dst p src len))
      ⊎ (◌>>=◌ {B = Bytes × ℕ} (copy_slice result dst p src len) (λ r. ok (r, len)) ≡ panic)
unfolding copy_slice copy_if_fits
copy_cases result p dst src len =
    elim (Bool-cases (leb (dst + len) (length result) && leb (src + len) (length p))) [
      | inl t ↦ inl (rw t refl)
      | inr f ↦ inr (rw f refl)
    ]

fill_cases :
    (read : ChunkMetadata → Result Bytes) (c : ChunkMetadata) (offset end : ℕ) (result p : Bytes)
    → read c ≡ ok p
    → (fill read c offset end result ≡ ok (copy_part c offset end result p))
      ⊎ (fill read c offset end result ≡ panic)
unfolding fill copy_part
fill_cases read c offset end result p e = rw e (copy_cases result p _ _ _)

-- A chunk that cannot be read ends the round.
fill_fails :
    (read : ChunkMetadata → Result Bytes) (c : ChunkMetadata) (offset end : ℕ) (result : Bytes)
    → ((x : _) → read c ≡ err x → fill read c offset end result ≡ err x)
      × ((read c ≡ panic → fill read c offset end result ≡ panic)
          × (read c ≡ stuck → fill read c offset end result ≡ stuck))
unfolding fill
fill_fails read c offset end result = ((λ x e. rw e refl), ((λ e. rw e refl), (λ e. rw e refl)))

finish_lem :
    (len : ℕ) (result : Bytes) (filled : ℕ)
    → finish len result filled ≡ (ensure (leb len filled) invalid_container >> ok result)
unfolding finish
finish_lem len result filled = elim (Bool-cases (ltb filled len)) [
  | inl t ↦ (let f : leb len filled ≡ false = ground arith in rw (t, f) refl)
  | inr f ↦ (let t : leb len filled ≡ true = ground arith in rw (t, f) refl)
]

-- The end of `read_bytes_at`.
abbrev tail : ℕ → Bytes × ℕ → Result Bytes
tail len (result, filled) = ensure (leb len filled) invalid_container >> ok result

module _ (read : ChunkMetadata → Result Bytes) (Stored : ChunkMetadata → Type 0)
    (same : (c d : ChunkMetadata)
      → Stored c
      → Stored d
      → c.sequence ≡ d.sequence
      → read c ≡ read d) where
  read_loop-fill_all :
      (chunks : List ChunkMetadata) (offset end len : ℕ) (result : Bytes) (filled : ℕ)
      (s : ChunkCache)
      → All Stored chunks
      → IsCache read Stored same s
      → (fill_all read chunks offset end result filled >>= tail len) ≢ panic
      → (read_loop read chunks offset end len result filled s).0
        ≡ (fill_all read chunks offset end result filled >>= tail len)
  unfolding read_loop fill_all
  read_loop-fill_all [] offset end len result filled s st h safe = finish_lem len result filled
  read_loop-fill_all (c ∷ chunks) offset end len result filled s (st, sts) h safe =
      elim (Bool-cases (overlaps c offset end)) [
        | inl t ↦
            let (got, kept) = fetch-IsCache read Stored same c s st h in
            rw t (
              step (fetch read c s) (sym got) kept (rw t at safe)
                (λ r' n s' k safe'. read_loop-fill_all chunks offset end len r' n s' sts k safe'))
        | inr f ↦
            rw f (read_loop-fill_all chunks offset end len result filled s sts h (rw f at safe))
      ]
    where
      step :
          (got : Result Bytes × ChunkCache)
          → read c ≡ got.0
          → IsCache read Stored same got.1
          → ((fill read c offset end result >>= λ x.
                fill_all read chunks offset end x.0 (add64 filled x.1))
              >>= tail len)
            ≢ panic
          → ((r' : Bytes) (n : ℕ) (s' : ChunkCache)
              → IsCache read Stored same s'
              → (fill_all read chunks offset end r' n >>= tail len) ≢ panic
              → (read_loop read chunks offset end len r' n s').0
                ≡ (fill_all read chunks offset end r' n >>= tail len))
          → (bind_state got (λ plain s'.
              read_loop read chunks offset end len
                (copy_part c offset end result plain).0
                (add64 filled (copy_part c offset end result plain).1)
                s')).0
            ≡ ((fill read c offset end result >>= λ x.
                  fill_all read chunks offset end x.0 (add64 filled x.1))
                >>= tail len)
      step (ok p, s') e h' safe' rec = elim (fill_cases read c offset end result p e) [
        | inl done ↦ rw done (
            rec (copy_part c offset end result p).0
              (add64 filled (copy_part c offset end result p).1) s' h' (rw done at safe'))
        | inr broken ↦ absurd ((rw broken at safe') refl)
      ]
      step (err x, s') e h' safe' rec = rw ((fill_fails read c offset end result).0 x e) refl
      step (panic, s') e h' safe' rec = rw ((fill_fails read c offset end result).1.0 e) refl
      step (stuck, s') e h' safe' rec = rw ((fill_fails read c offset end result).1.1 e) refl

  -- Wherever `read_bytes_at` does not panic, reading through a cache gives the same bytes or the
  -- same error.
  pub read_at-read_bytes_at :
      (chunks : List ChunkMetadata) (offset len : ℕ) (s : ChunkCache)
      → All Stored chunks
      → IsCache read Stored same s
      → read_bytes_at read chunks offset len ≢ panic
      → (read_at read chunks offset len s).0 ≡ read_bytes_at read chunks offset len
  unfolding read_at read_bytes_at
  read_at-read_bytes_at chunks offset len s st h safe = elim (Bool-cases (len == 0)) [
    | inl t ↦ rw t refl
    | inr f ↦ rw f (
        read_loop-fill_all chunks offset (add64 offset len) len (replicate len 0) 0 s st h
          (rw f at safe))
  ]

  -- Over readable chunks that lie one behind the other, it gives the bytes of the image.
  pub read_at-Tiles :
      (chunks : List ChunkMetadata) (image : Bytes) (offset len : ℕ) (s : ChunkCache)
      → All Stored chunks
      → IsCache read Stored same s
      → Tiles read 0 chunks image
      → length image < 2 ^ 64
      → offset + len ≤ length image
      → (read_at read chunks offset len s).0 ≡ ok (take len (drop offset image))
  read_at-Tiles chunks image offset len s st h t l m =
      let e = read_bytes_at-Tiles read chunks image offset len t l m in
      read_at-read_bytes_at chunks offset len s st h (rw e (λ p. cc)) ∙ e
