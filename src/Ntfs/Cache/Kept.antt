-- ===== src/Ntfs/Cache/Kept.antt =====
-- crates/offf-core/src/ntfs.rs: what stays true of a `ChunkCache`, whatever is read with it.
use openforensicfileformat.Prelude.{
  ℕ, suc, ◌+◌, ◌≤◌, ◌≡◌, refl, sym, ap, ◌∙◌, subst, Bool, true, false, Option, none, some, List, [],
  ◌∷◌, ◌++◌, All, arith, length, leb, leb→le, ◌==◌, if◌then◌else◌, Bool-cases, inl, inr,
  length-append,
}
use openforensicfileformat.Bytes.{Bytes}
use openforensicfileformat.Outcome.{Result, ok, err, panic, stuck, bind_state}
use openforensicfileformat.Chunk.{ChunkMetadata}
use openforensicfileformat.Words.{add64}
use openforensicfileformat.Maps.{lookup, insert, remove, keys}
use openforensicfileformat.Maps.Entries.{All-insert, All-lookup}
use openforensicfileformat.Partition.Range.{overlaps}
use openforensicfileformat.Ntfs.Cache.{
  ChunkCache, empty_cache, max_cached_chunks, drop_oldest, evict, keep_read, copy_part, fetched,
  fetch, read_loop, read_at,
}

-- A key that is not there goes to the end.
keys-insert :
    (k : ℕ) (a : Bytes) (m : List (ℕ × Bytes))
    → lookup k m ≡ none
    → keys (insert k a m) ≡ keys m ++ (k ∷ [])
unfolding lookup insert
keys-insert k a [] e = refl
keys-insert k a ((j, b) ∷ m) e = elim (Bool-cases (j == k)) [
  | inl t ↦ absurd (let e' = rw t at e in cc)
  | inr f ↦ rw f (ap (◌∷◌ j) (keys-insert k a m (rw f at e)))
]

pub length-keys : {A : Type 0} (m : List (ℕ × A)) → length (keys m) ≡ length m
length-keys [] = refl
length-keys ((k, a) ∷ m) = ap suc (length-keys m)

length-insert :
    (k : ℕ) (a : Bytes) (m : List (ℕ × Bytes))
    → lookup k m ≡ none
    → length (insert k a m) ≡ length m + 1
length-insert k a m e = omega (
  arith,
  ap length (keys-insert k a m e),
  length-keys (insert k a m),
  length-keys m,
  length-append (keys m) (k ∷ []),
)

module _ (read : ChunkMetadata → Result Bytes) (Stored : ChunkMetadata → Type 0)
    (same : (c d : ChunkMetadata)
      → Stored c
      → Stored d
      → c.sequence ≡ d.sequence
      → read c ≡ read d) where
  -- What is held under a number is what the chunk of that number reads as.
  abbrev pub Reads : ℕ × Bytes → Type 0
  Reads entry = (c : ChunkMetadata) → Stored c → c.sequence ≡ entry.0 → read c ≡ ok entry.1

  -- The cache holds true bytes, `fifo` lists its keys in order, and there are at most 128.
  pub record IsCache (s : ChunkCache) : Type 0 where
    pub true_bytes : All Reads s.cache
    pub ordered : keys s.cache ≡ s.fifo
    pub few : length s.cache ≤ 128

  pub empty-IsCache : IsCache empty_cache
  empty-IsCache = record { true_bytes = tt; ordered = refl; few = omega arith }

  abbrev HasRoom : ℕ → ChunkCache → Type 0
  HasRoom k s = IsCache s × ((length s.cache ≤ 127) × (lookup k s.cache ≡ none))

  drop_oldest-HasRoom :
      (k : ℕ) (s : ChunkCache) (m : List (ℕ × Bytes))
      → All Reads m
      → length m ≤ 128
      → 128 ≤ length m
      → lookup k m ≡ none
      → s.cache ≡ m
      → HasRoom k (drop_oldest s (keys m))
  unfolding drop_oldest remove lookup
  drop_oldest-HasRoom k s [] h few full e same_map = absurd (omega arith)
  drop_oldest-HasRoom k s ((j, b) ∷ m) (h, hs) few full e same_map =
      let here : (j == j) ≡ true = ground arith in
      let rest : remove j s.cache ≡ m = ap (remove j) same_map ∙ rw here refl in
      rw rest (
        record { true_bytes = hs; ordered = refl; few = omega arith },
        (omega arith, later (j == k) e),
      )
    where
      later : (b' : Bool) → (if b' then some b else lookup k m) ≡ none → lookup k m ≡ none
      later true e' = cc
      later false e' = e'

  -- After an eviction there is room, and the number that is not held is still not held.
  evict-IsCache :
      (k : ℕ) (s : ChunkCache) → IsCache s → lookup k s.cache ≡ none → HasRoom k (evict s)
  unfolding evict max_cached_chunks
  evict-IsCache k s h e = elim (Bool-cases (leb 128 (length s.cache))) [
    | inl t ↦ rw t (
        subst (λ f. HasRoom k (drop_oldest s f)) h.ordered
          (drop_oldest-HasRoom k s s.cache h.true_bytes h.few (leb→le 128 (length s.cache) t) e
            refl))
    | inr f ↦ rw f (h, (ground arith, e))
  ]

  pub fetch-IsCache :
      (c : ChunkMetadata) (s : ChunkCache)
      → Stored c
      → IsCache s
      → ((fetch read c s).0 ≡ read c) × IsCache (fetch read c s).1
  unfolding fetch fetched keep_read
  fetch-IsCache c s st h = found (lookup c.sequence s.cache) refl
    where
      stored :
          (r : Result Bytes)
          → read c ≡ r
          → HasRoom c.sequence (evict s)
          → ((keep_read c.sequence (evict s) r).0 ≡ read c)
            × IsCache (keep_read c.sequence (evict s) r).1
      stored (ok plain) e (h', (room, absent)) = (
        sym e,
        record {
          true_bytes =
              All-insert Reads c.sequence plain (evict s).cache (λ d sd q. same d c sd st q ∙ e)
                h'.true_bytes;
          ordered =
              keys-insert c.sequence plain (evict s).cache absent
              ∙ ap (λ f. f ++ (c.sequence ∷ [])) h'.ordered;
          few = omega (arith, length-insert c.sequence plain (evict s).cache absent);
        },
      )
      stored (err x) e (h', _) = (sym e, h')
      stored panic e (h', _) = (sym e, h')
      stored stuck e (h', _) = (sym e, h')

      found :
          (o : Option Bytes)
          → lookup c.sequence s.cache ≡ o
          → ((fetched read c s o).0 ≡ read c) × IsCache (fetched read c s o).1
      found (some plain) e =
          (sym (All-lookup Reads c.sequence plain s.cache h.true_bytes e c st refl), h)
      found none e = stored (read c) refl (evict-IsCache c.sequence s h e)

  read_loop-IsCache :
      (chunks : List ChunkMetadata) (offset end len : ℕ) (result : Bytes) (filled : ℕ)
      (s : ChunkCache)
      → All Stored chunks
      → IsCache s
      → IsCache (read_loop read chunks offset end len result filled s).1
  unfolding read_loop
  read_loop-IsCache [] offset end len result filled s st h = h
  read_loop-IsCache (c ∷ chunks) offset end len result filled s (st, sts) h =
      elim (Bool-cases (overlaps c offset end)) [
        | inl t ↦ rw t (
            step (fetch read c s) (fetch-IsCache c s st h).1
              (λ r' n s' h'. read_loop-IsCache chunks offset end len r' n s' sts h'))
        | inr f ↦ rw f (read_loop-IsCache chunks offset end len result filled s sts h)
      ]
    where
      step :
          (got : Result Bytes × ChunkCache)
          → IsCache got.1
          → ((r' : Bytes) (n : ℕ) (s' : ChunkCache)
              → IsCache s'
              → IsCache (read_loop read chunks offset end len r' n s').1)
          → IsCache
              (bind_state got (λ plain s'.
                read_loop read chunks offset end len
                  (copy_part c offset end result plain).0
                  (add64 filled (copy_part c offset end result plain).1)
                  s')).1
      step (ok plain, s') h' rec = rec _ _ s' h'
      step (err e, s') h' rec = h'
      step (panic, s') h' rec = h'
      step (stuck, s') h' rec = h'

  -- Reading keeps the cache true, in order and at 128 chunks at most, whether it succeeds or not.
  pub read_at-IsCache :
      (chunks : List ChunkMetadata) (offset len : ℕ) (s : ChunkCache)
      → All Stored chunks
      → IsCache s
      → IsCache (read_at read chunks offset len s).1
  unfolding read_at
  read_at-IsCache chunks offset len s st h = elim (Bool-cases (len == 0)) [
    | inl t ↦ rw t h
    | inr f ↦ rw f (read_loop-IsCache chunks offset (add64 offset len) len _ 0 s st h)
  ]
