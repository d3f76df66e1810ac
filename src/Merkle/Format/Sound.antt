-- ===== src/Merkle/Format/Sound.antt =====
-- crates/offf-core/src/hash.rs: what a `merkle_tree.bin` that was accepted holds.
use openforensicfileformat.Prelude.{
  ℕ, zero, suc, ◌+◌, ◌*◌, ◌/◌, ◌%◌, ◌^◌, ◌≤◌, ◌<◌, ◌≡◌, refl, true, false, some, none, List, [],
  ◌∷◌, leb, ltb, ◌==◌, not, length, take, drop, All, arith, ap, ap₂, ◌∙◌, ==→eq, leb→le, map, sym,
  last?, length-map, subst, length-take, All-take, All-drop, Bool-cases, inl, inr, cons_head,
  cons_tail, Bool, ◌⊎◌, Option, some_injective,
}
use openforensicfileformat.Bytes.{Bytes, IsByte, bytes_eq, bytes_eq→eq, from_be32}
use openforensicfileformat.Outcome.{
  ok, ◌>>◌, ensure, ensure-eq-ok, ok_of_bind, ok_injective, invalid_merkle_tree, collect,
}
use openforensicfileformat.Hex.{hex_to_bytes32, hex_from_bytes32}
use openforensicfileformat.Hex.RoundTrip.{IsDigest, hex_to_bytes32-hex_from_bytes32}
use openforensicfileformat.Merkle.{Node, ValidatedMerkleTree, merkle_root, hash_pair, next_level}
use openforensicfileformat.Merkle.Level.{length-next_level}
use openforensicfileformat.Merkle.Tower.{Tower, top, grow, Tower-root}
use openforensicfileformat.Merkle.Format.{
  split_at, level_sizes, sum, read_level, read_levels, check_root, first_level, check_levels,
  check_parents, validate_nodes, validate_header, parse_and_validate_merkle_tree, merkle_magic,
  merkle_version,
}

split_at_ok :
    (n : ℕ) (bytes front back : Bytes)
    → All IsByte bytes
    → split_at n bytes ≡ ok (front, back)
    → (length front ≡ n) × All IsByte front × All IsByte back
unfolding split_at
split_at_ok n bytes front back h e = elim (Bool-cases (leb n (length bytes))) [
  | inl t ↦
      let got : (length (take n bytes) ≡ n)
          × All IsByte (take n bytes)
          × All IsByte (drop n bytes) =
        (
          omega (arith, length-take n bytes, leb→le n (length bytes) t),
          All-take IsByte n bytes h,
          All-drop IsByte n bytes h,
        ) in
      let same : ◌≡◌ {A = Bytes × Bytes} (take n bytes, drop n bytes) (front, back) =
        ok_injective (rw t at e) in
      subst (λ p. (length p.0 ≡ n) × All IsByte p.0 × All IsByte p.1) same got
  | inr f ↦ cc (rw f at e)
]

read_level_ok :
    (size : ℕ) (bytes : Bytes) (level : List Node) (rest : Bytes)
    → All IsByte bytes
    → read_level size bytes ≡ ok (level, rest)
    → (length level ≡ size) × All IsDigest level × All IsByte rest
unfolding read_level
read_level_ok zero bytes level rest h e =
    subst (λ p. (length p.0 ≡ 0) × All IsDigest p.0 × All IsByte p.1) (ok_injective e) (refl, tt, h)
read_level_ok (suc size) bytes level rest h e =
    let ((node, after), p, e₁) = ok_of_bind (split_at 32 bytes) _ e in
    let ((level', end), q, e₂) = ok_of_bind (read_level size after) _ e₁ in
    let (w, b, b') = split_at_ok 32 bytes node after h p in
    let (l, d, r) = read_level_ok size after level' end b' q in
    subst (λ p. (length p.0 ≡ suc size) × All IsDigest p.0 × All IsByte p.1) (ok_injective e₂)
      (ap suc l, (record { width = w; bytes = b }, d), r)

read_levels_ok :
    (sizes : List ℕ) (bytes : Bytes) (levels : List (List Node)) (rest : Bytes)
    → All IsByte bytes
    → read_levels sizes bytes ≡ ok (levels, rest)
    → (map length levels ≡ sizes) × All (All IsDigest) levels × All IsByte rest
unfolding read_levels
read_levels_ok [] bytes levels rest h e =
    subst (λ p. (map length p.0 ≡ []) × All (All IsDigest) p.0 × All IsByte p.1) (ok_injective e)
      (refl, tt, h)
read_levels_ok (size ∷ sizes) bytes levels rest h e =
    let ((level, after), p, e₁) = ok_of_bind (read_level size bytes) _ e in
    let ((levels', end), q, e₂) = ok_of_bind (read_levels sizes after) _ e₁ in
    let (l, d, b) = read_level_ok size bytes level after h p in
    let (l', d', b') = read_levels_ok sizes after levels' end b q in
    subst (λ p. (map length p.0 ≡ size ∷ sizes) × All (All IsDigest) p.0 × All IsByte p.1)
      (ok_injective e₂) (ap₂ ◌∷◌ l l', (d, d'), b')

pub collect-map :
    (nodes : List Node)
    → All IsDigest nodes
    → collect hex_to_bytes32 (map hex_from_bytes32 nodes) ≡ ok nodes
unfolding collect
collect-map [] h = refl
collect-map (x ∷ xs) (h, hs) = rw (hex_to_bytes32-hex_from_bytes32 x h, collect-map xs hs) refl

-- The sizes above a level of more than one node.
level_sizes_ok :
    (fuel n : ℕ) (sizes : List ℕ)
    → level_sizes (suc fuel) n ≡ ok sizes
    → ((1 < n)
        × ((above : List ℕ) × (level_sizes fuel ((n + 1) / 2) ≡ ok above) × (sizes ≡ n ∷ above)))
      ⊎ ((n ≤ 1) × (sizes ≡ 1 ∷ []))
unfolding level_sizes
level_sizes_ok fuel n sizes e = elim (Bool-cases (ltb 1 n)) [
  | inl t ↦
      let (above, p, q) =
        ok_of_bind (level_sizes fuel ((n + 1) / 2)) (λ s. ok (n ∷ s)) (rw t at e) in
      inl (ground arith, (above, p, sym (ok_injective q)))
  | inr f ↦ inr (ground arith, sym (ok_injective (rw f at e)))
]

module _ (sha256 : Bytes → Bytes) where
  check_parents_ok :
      (cur next : List Node)
      → length next ≡ (length cur + 1) / 2
      → check_parents sha256 cur next ≡ ok tt
      → next ≡ next_level sha256 cur
  unfolding check_parents next_level
  check_parents_ok [] [] l e = refl
  check_parents_ok [] (p ∷ next) l e = absurd (omega arith)
  check_parents_ok (x ∷ cur) [] l e = absurd (omega arith)
  check_parents_ok (x ∷ []) (p ∷ []) l e = ap (λ t. t ∷ []) (bytes_eq→eq _ _ (ensure_true _ e))
    where
      ensure_true : (t : Bool) → ensure t invalid_merkle_tree ≡ ok tt → t ≡ true
      ensure_true true h = refl
      ensure_true false h = cc
  check_parents_ok (x ∷ []) (p ∷ p' ∷ next) l e = absurd (omega arith)
  check_parents_ok (x ∷ y ∷ cur) (p ∷ next) l e =
      let (t, e₁) =
        ensure-eq-ok (bytes_eq p (hash_pair sha256 x y)) invalid_merkle_tree
          (check_parents sha256 cur next) e in
      ap₂ ◌∷◌ (bytes_eq→eq _ _ t) (check_parents_ok cur next (omega arith) e₁)

  check_levels_ok :
      (cur next : List Node) (levels : List (List Node))
      → check_levels sha256 (cur ∷ next ∷ levels) ≡ ok tt
      → (next ≡ next_level sha256 cur) × (check_levels sha256 (next ∷ levels) ≡ ok tt)
  unfolding check_levels
  check_levels_ok cur next levels e =
      let (t, e₁) =
        ensure-eq-ok (length next == (length cur + 1) / 2) invalid_merkle_tree
          (check_parents sha256 cur next >> check_levels sha256 (next ∷ levels)) e in
      let (u, p, q) =
        ok_of_bind (check_parents sha256 cur next) (λ _. check_levels sha256 (next ∷ levels)) e₁ in
      (check_parents_ok cur next (==→eq _ _ t) p, q)

  -- Levels of the right sizes that pass the checks are the tower over the first of them.
  checked-Tower :
      (fuel : ℕ) (xs : List Node) (above : List (List Node)) (r : Node)
      → 0 < length xs
      → level_sizes fuel (length xs) ≡ ok (map length (xs ∷ above))
      → check_levels sha256 (xs ∷ above) ≡ ok tt
      → last? (xs ∷ above) ≡ some (r ∷ [])
      → Tower sha256 xs (xs ∷ above) r
  checked-Tower zero xs above r p s c l = unfold level_sizes in cc
  checked-Tower (suc fuel) [] above r p s c l = absurd (omega arith)
  checked-Tower (suc fuel) (x ∷ []) [] r p s c l =
      subst (Tower sha256 (x ∷ []) ((x ∷ []) ∷ [])) (cons_head (some_injective l)) (top x)
  checked-Tower (suc fuel) (x ∷ []) (next ∷ above) r p s c l = elim (level_sizes_ok fuel 1 _ s) [
    | inl (q, _) ↦ absurd (omega arith)
    | inr (_, q) ↦ cc
  ]
  checked-Tower (suc fuel) (x ∷ y ∷ xs) [] r p s c l = cc
  checked-Tower (suc fuel) (x ∷ y ∷ xs) (next ∷ above) r p s c l =
      let (nx, c') = check_levels_ok (x ∷ y ∷ xs) next above c in
      let half : length next ≡ (length (x ∷ y ∷ xs) + 1) / 2 =
        ap length nx ∙ length-next_level sha256 (x ∷ y ∷ xs) in
      elim (level_sizes_ok fuel (length (x ∷ y ∷ xs)) _ s) [
        | inl (q, (sizes, e₁, e₂)) ↦
            let sized : level_sizes fuel (length next) ≡ ok (map length (next ∷ above)) =
              ap (level_sizes fuel) half ∙ e₁ ∙ ap ok (sym (cons_tail e₂)) in
            grow x y xs (next ∷ above) r (
              subst (λ t. Tower sha256 t (next ∷ above) r) nx
                (checked-Tower fuel next above r (omega (arith, half)) sized c' l))
        | inr (q, _) ↦ absurd (omega arith)
      ]

  check_root_ok :
      (level : Option (List Node)) (tail : Node)
      → check_root level tail ≡ ok tt
      → level ≡ some (tail ∷ [])
  unfolding check_root
  check_root_ok none tail e = cc
  check_root_ok (some []) tail e = cc
  check_root_ok (some (x ∷ [])) tail e = elim (Bool-cases (bytes_eq x tail)) [
    | inl t ↦ ap (λ y. some (y ∷ [])) (bytes_eq→eq x tail t)
    | inr f ↦ cc (rw f at e)
  ]
  check_root_ok (some (x ∷ y ∷ xs)) tail e = cc

  -- What is known of an accepted file.
  pub record IsSound (tree : ValidatedMerkleTree) : Type 0 where
    pub counted : length tree.leaves ≡ tree.leaf_count
    pub inhabited : 0 < tree.leaf_count
    pub rooted : merkle_root sha256 tree.leaves ≡ ok tree.root

  root_of_nodes :
      (xs : List Node) (levels : List (List Node)) (r : Node)
      → All IsDigest xs
      → 0 < length xs
      → Tower sha256 xs levels r
      → merkle_root sha256 (map hex_from_bytes32 xs) ≡ ok (hex_from_bytes32 r)
  unfolding merkle_root
  root_of_nodes [] levels r h p t = absurd (omega arith)
  root_of_nodes (x ∷ xs) levels r h p t =
      rw (collect-map (x ∷ xs) h, Tower-root sha256 (length (x ∷ xs)) t (omega arith)) refl

  level_sizes_head : (n k : ℕ) (ks : List ℕ) → 0 < n → level_sizes n n ≡ ok (k ∷ ks) → k ≡ n
  level_sizes_head zero k ks p e = absurd (omega arith)
  level_sizes_head (suc n) k ks p e = elim (level_sizes_ok n (suc n) _ e) [
    | inl (q, (above, _, e₂)) ↦ cons_head e₂
    | inr (q, e₂) ↦ omega (arith, cons_head e₂)
  ]

  -- The checks that `validate_nodes` makes, and what follows from them.
  accepted_levels :
      (n : ℕ) (levels : List (List Node)) (leaves : List Node) (tail : Node)
      → 0 < n
      → n < 2 ^ 32
      → level_sizes n n ≡ ok (map length levels)
      → All (All IsDigest) levels
      → check_levels sha256 levels ≡ ok tt
      → last? levels ≡ some (tail ∷ [])
      → first_level levels ≡ ok leaves
      → IsSound (record {
        leaf_count = n % 2 ^ 32;
        leaves = map hex_from_bytes32 leaves;
        root = hex_from_bytes32 tail;
      })
  unfolding first_level
  accepted_levels n [] leaves tail p lt z d c l f = cc
  accepted_levels n (xs ∷ above) leaves tail p lt z (d, ds) c l f =
      let w : length xs ≡ n = level_sizes_head n (length xs) (map length above) p z in
      let t = checked-Tower n xs above tail (omega arith) (ap (level_sizes n) w ∙ z) c l in
      subst
        (λ ls. IsSound (record {
          leaf_count = n % 2 ^ 32;
          leaves = map hex_from_bytes32 ls;
          root = hex_from_bytes32 tail;
        }))
        (ok_injective f)
        (record {
          counted = omega (arith, length-map hex_from_bytes32 xs);
          inhabited = omega arith;
          rooted = root_of_nodes xs (xs ∷ above) tail d (omega arith) t;
        })

  validate_nodes_ok :
      (n : ℕ) (sizes : List ℕ) (body : Bytes) (tree : ValidatedMerkleTree)
      → All IsByte body
      → 0 < n
      → n < 2 ^ 32
      → level_sizes n n ≡ ok sizes
      → validate_nodes sha256 n sizes body ≡ ok tree
      → IsSound tree
  unfolding validate_nodes
  validate_nodes_ok n sizes body tree h p lt s e =
      let ((levels, end), e₀, e₁) = ok_of_bind (read_levels sizes body) _ e in
      let ((tail, rest), t₀, e₂) = ok_of_bind (split_at 32 end) _ e₁ in
      let (_, c₀, e₃) = ok_of_bind (check_levels sha256 levels) _ e₂ in
      let (_, r₀, e₄) = ok_of_bind (check_root (last? levels) tail) _ e₃ in
      let (leaves, f₀, e₅) = ok_of_bind (first_level levels) _ e₄ in
      let (sized, digests, _) = read_levels_ok sizes body levels end h e₀ in
      subst IsSound (ok_injective e₅) (
        accepted_levels n levels leaves tail p lt (s ∙ ap ok (sym sized)) digests c₀
          (check_root_ok (last? levels) tail r₀) f₀)

  validate_header_ok :
      (bytes : Bytes) (tree : ValidatedMerkleTree)
      → All IsByte bytes
      → validate_header sha256 bytes ≡ ok tree
      → IsSound tree
  unfolding validate_header from_be32
  validate_header_ok (m₀ ∷ m₁ ∷ m₂ ∷ m₃ ∷ v ∷ c₀ ∷ c₁ ∷ c₂ ∷ c₃ ∷ body) tree
        (_, (_, (_, (_, (_, (h₀, (h₁, (h₂, (h₃, hb))))))))) e =
      let (_, e₁) = ensure-eq-ok (bytes_eq (m₀ ∷ m₁ ∷ m₂ ∷ m₃ ∷ []) merkle_magic) _ _ e in
      let (_, e₂) = ensure-eq-ok (v == merkle_version) _ _ e₁ in
      let n = from_be32 c₀ c₁ c₂ c₃ in
      let (z, e₃) = ensure-eq-ok (not (n == 0)) _ _ e₂ in
      let (sizes, s, e₄) = ok_of_bind (level_sizes n n) _ e₃ in
      let (_, e₅) = ensure-eq-ok (9 + length body == 9 + sum sizes * 32 + 32) _ _ e₄ in
      validate_nodes_ok n sizes body tree hb (ground arith) (omega arith) s e₅
  validate_header_ok _ tree h e = cc

  -- A byte string that `parse_and_validate_merkle_tree` accepts as a tree names at least one leaf,
  -- holds as many leaves as its count says, and its root is the Merkle root of these leaves.
  pub parse_and_validate_merkle_tree-IsSound :
      (bytes : Bytes) (tree : ValidatedMerkleTree)
      → All IsByte bytes
      → parse_and_validate_merkle_tree sha256 bytes ≡ ok tree
      → IsSound tree
  unfolding parse_and_validate_merkle_tree
  parse_and_validate_merkle_tree-IsSound bytes tree h e =
      validate_header_ok bytes tree h (ensure-eq-ok (leb (4 + 1 + 4 + 32) (length bytes)) _ _ e).1
