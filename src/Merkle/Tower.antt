-- ===== src/Merkle/Tower.antt =====
-- The levels of a tree, one over the other, as the code builds, writes, reads and checks them.
use openforensicfileformat.Prelude.{
  ℕ, zero, suc, ◌+◌, ◌/◌, ◌≤◌, ◌<◌, ◌≡◌, refl, some, List, [], ◌∷◌, length, All, arith, ap, ◌∙◌,
  lt→ltb, eq→==, map, sym, last?,
}
use openforensicfileformat.Bytes.{Bytes, bytes_eq_refl}
use openforensicfileformat.Outcome.{ok}
use openforensicfileformat.Hex.RoundTrip.{IsDigest}
use openforensicfileformat.Merkle.{Node, hash_pair, next_level, merkle_root_from_bytes}
use openforensicfileformat.Merkle.Level.{GivesDigests, length-next_level, next_level-IsDigest}
use openforensicfileformat.Merkle.Format.{
  last_first, level_sizes, levels_from, check_parents, check_levels,
}

module _ (sha256 : Bytes → Bytes) where
  -- `Tower xs levels r`: `levels` goes up from the level `xs` to the single node `r`.
  pub data Tower : List Node → List (List Node) → Node → Type 0 where
    top : (x : Node) → Tower (x ∷ []) ((x ∷ []) ∷ []) x
    grow :
        (x y : Node) (xs : List Node) (levels : List (List Node)) (r : Node)
        → Tower (next_level sha256 (x ∷ y ∷ xs)) levels r
        → Tower (x ∷ y ∷ xs) ((x ∷ y ∷ xs) ∷ levels) r

  -- The levels that the code builds.
  pub levels_from-Tower :
      (fuel : ℕ) (xs : List Node)
      → length xs ≤ fuel
      → 0 < length xs
      → (levels : List (List Node)) × (r : Node) × (levels_from sha256 fuel xs ≡ ok levels)
        × Tower xs levels r
  unfolding levels_from
  levels_from-Tower zero xs l p = absurd (omega arith)
  levels_from-Tower (suc fuel) [] l p = absurd (omega arith)
  levels_from-Tower (suc fuel) (x ∷ []) l p = ((x ∷ []) ∷ [], x, refl, top x)
  levels_from-Tower (suc fuel) (x ∷ y ∷ xs) l p =
      let next = next_level sha256 (x ∷ y ∷ xs) in
      let (levels, r, e, t) =
        levels_from-Tower fuel next (omega (arith, length-next_level sha256 (x ∷ y ∷ xs)))
          (omega (arith, length-next_level sha256 (x ∷ y ∷ xs))) in
      ((x ∷ y ∷ xs) ∷ levels, r, rw e refl, grow x y xs levels r t)

  -- The recursion of `merkle_root` ends at the top of the tower.
  pub Tower-root :
      (fuel : ℕ) {xs : List Node} {levels : List (List Node)} {r : Node}
      → Tower xs levels r
      → length xs ≤ fuel
      → merkle_root_from_bytes sha256 fuel xs ≡ ok r
  unfolding merkle_root_from_bytes
  Tower-root zero (top x) l = absurd (omega arith)
  Tower-root zero (grow x y xs levels r t) l = absurd (omega arith)
  Tower-root (suc fuel) (top x) l = refl
  Tower-root (suc fuel) (grow x y xs levels r t) l =
      Tower-root fuel t (omega (arith, length-next_level sha256 (x ∷ y ∷ xs)))

  pub Tower-head :
      {xs : List Node} {levels : List (List Node)} {r : Node}
      → Tower xs levels r
      → (above : List (List Node)) × (levels ≡ xs ∷ above)
  Tower-head (top x) = ([], refl)
  Tower-head (grow x y xs levels r t) = (levels, refl)

  pub Tower-last_first :
      {xs : List Node} {levels : List (List Node)} {r : Node}
      → Tower xs levels r
      → last_first levels ≡ ok r
  unfolding last_first
  Tower-last_first (top x) = refl
  Tower-last_first (grow x y xs levels r t) =
      let (above, e) = Tower-head t in
      ap (λ ls. last_first ((x ∷ y ∷ xs) ∷ ls)) e ∙ ap last_first (sym e) ∙ Tower-last_first t

  pub Tower-last? :
      {xs : List Node} {levels : List (List Node)} {r : Node}
      → Tower xs levels r
      → last? levels ≡ some (r ∷ [])
  Tower-last? (top x) = refl
  Tower-last? (grow x y xs levels r t) =
      let (above, e) = Tower-head t in
      ap (λ ls. last? ((x ∷ y ∷ xs) ∷ ls)) e ∙ ap last? (sym e) ∙ Tower-last? t

  pub Tower-sizes :
      (fuel : ℕ) {xs : List Node} {levels : List (List Node)} {r : Node}
      → Tower xs levels r
      → length xs ≤ fuel
      → level_sizes fuel (length xs) ≡ ok (map length levels)
  unfolding level_sizes
  Tower-sizes zero (top x) l = absurd (omega arith)
  Tower-sizes zero (grow x y xs levels r t) l = absurd (omega arith)
  Tower-sizes (suc fuel) (top x) l = refl
  Tower-sizes (suc fuel) (grow x y xs levels r t) l =
      let half : (suc (suc (length xs)) + 1) / 2 ≡ length (next_level sha256 (x ∷ y ∷ xs)) =
        sym (length-next_level sha256 (x ∷ y ∷ xs)) in
      rw
        (
          lt→ltb 1 (suc (suc (length xs))) (omega arith),
          half,
          Tower-sizes fuel t (omega (arith, half)),
        )
        refl

  check_parents-next_level :
      (xs : List Node) → check_parents sha256 xs (next_level sha256 xs) ≡ ok tt
  unfolding check_parents next_level
  check_parents-next_level [] = refl
  check_parents-next_level (x ∷ []) = rw (bytes_eq_refl (hash_pair sha256 x x)) refl
  check_parents-next_level (x ∷ y ∷ xs) =
      rw (bytes_eq_refl (hash_pair sha256 x y)) (check_parents-next_level xs)

  pub Tower-check :
      {xs : List Node} {levels : List (List Node)} {r : Node}
      → Tower xs levels r
      → check_levels sha256 levels ≡ ok tt
  unfolding check_levels
  Tower-check (top x) = refl
  Tower-check (grow x y xs levels r t) =
      let cur = x ∷ y ∷ xs in
      let (above, e) = Tower-head t in
      ap (λ ls. check_levels sha256 (cur ∷ ls)) e
      ∙ rw (eq→== _ _ (length-next_level sha256 cur), check_parents-next_level cur)
          (ap (check_levels sha256) (sym e) ∙ Tower-check t)

  pub Tower-IsDigest :
      GivesDigests sha256
      → {xs : List Node} {levels : List (List Node)} {r : Node} → Tower xs levels r
      → All IsDigest xs
      → All (All IsDigest) levels × IsDigest r
  Tower-IsDigest h (top x) (hx, hs) = (((hx, tt), tt), hx)
  Tower-IsDigest h (grow x y xs levels r t) hx =
      let (hl, hr) = Tower-IsDigest h t (next_level-IsDigest sha256 h _) in ((hx, hl), hr)
