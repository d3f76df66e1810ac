-- ===== src/Merkle/Format/RoundTrip.antt =====
-- crates/offf-core/src/hash.rs: reading `merkle_tree.bin` back as it was written.
use openforensicfileformat.Prelude.{
  ℕ, suc, ◌+◌, ◌*◌, ◌%◌, ◌^◌, ◌<◌, ◌≡◌, ◌≢◌, refl, true, false, List, [], ◌∷◌, ◌++◌, leb, ◌==◌,
  length, All, arith, ap, ◌∙◌, eq→==, le→leb, map, sym, some, length-append, take-append,
  drop-append, append_assoc, flatten, append-nil, All-append,
}
use openforensicfileformat.Bytes.{Bytes, bytes_eq, bytes_eq_refl, be_bytes32, from_be32-be_bytes32}
use openforensicfileformat.Outcome.{ok}
use openforensicfileformat.Hex.{hex_from_bytes32}
use openforensicfileformat.Hex.RoundTrip.{IsDigest}
use openforensicfileformat.Merkle.{Node, merkle_root}
use openforensicfileformat.Merkle.Level.{GivesDigests}
use openforensicfileformat.Merkle.Proof.{Decodes, collect-All}
use openforensicfileformat.Merkle.Tower.{
  Tower, levels_from-Tower, Tower-root, Tower-last_first, Tower-last?, Tower-sizes, Tower-check,
  Tower-head, Tower-IsDigest,
}
use openforensicfileformat.Merkle.Format.{
  split_at, sum, read_level, read_levels, check_root, first_level, serialize_merkle_tree,
  merkle_magic, merkle_version, validate_nodes, validate_header, parse_and_validate_merkle_tree,
}

split_at-append : (n : ℕ) (xs ys : Bytes) → length xs ≡ n → split_at n (xs ++ ys) ≡ ok (xs, ys)
unfolding split_at
split_at-append n xs ys h =
    rw
      (
        le→leb n (length (xs ++ ys)) (omega (arith, length-append xs ys)),
        take-append n xs ys h,
        drop-append n xs ys h,
      )
      refl

flatten-cons {ℓ} :
    {A : Type ℓ} (x : List A) (xs : List (List A)) → flatten (x ∷ xs) ≡ x ++ flatten xs
unfolding flatten
flatten-cons x xs = refl

flatten-append {ℓ} :
    {A : Type ℓ} (xs ys : List (List A)) → flatten (xs ++ ys) ≡ flatten xs ++ flatten ys
unfolding flatten
flatten-append [] ys = refl
flatten-append (x ∷ xs) ys = rw (flatten-append xs ys, append_assoc) refl

flatten-flatten :
    (l : List Node) (ls : List (List Node))
    → flatten (flatten (l ∷ ls)) ≡ flatten l ++ flatten (flatten ls)
flatten-flatten l ls = ap flatten (flatten-cons l ls) ∙ flatten-append l (flatten ls)

length-flatten_nodes :
    (nodes : List Node) → All IsDigest nodes → length (flatten nodes) ≡ 32 * length nodes
unfolding flatten
length-flatten_nodes [] h = refl
length-flatten_nodes (x ∷ xs) (h, hs) =
    omega (arith, length-append x (flatten xs), h.width, length-flatten_nodes xs hs)

length-flatten {ℓ} :
    {A : Type ℓ} (levels : List (List A)) → length (flatten levels) ≡ sum (map length levels)
unfolding flatten sum
length-flatten [] = refl
length-flatten (l ∷ ls) = omega (arith, length-append l (flatten ls), length-flatten ls)

read_level-append :
    (nodes : List Node) (rest : Bytes)
    → All IsDigest nodes
    → read_level (length nodes) (flatten nodes ++ rest) ≡ ok (nodes, rest)
unfolding read_level flatten
read_level-append [] rest h = refl
read_level-append (x ∷ xs) rest (h, hs) =
    rw
      (
        append_assoc,
        split_at-append 32 x (flatten xs ++ rest) h.width,
        read_level-append xs rest hs,
      )
      refl

read_levels-append :
    (levels : List (List Node)) (rest : Bytes)
    → All (All IsDigest) levels
    → read_levels (map length levels) (flatten (flatten levels) ++ rest) ≡ ok (levels, rest)
unfolding read_levels
read_levels-append [] rest h = unfold flatten in refl
read_levels-append (l ∷ ls) rest (h, hs) =
    let here : flatten (flatten (l ∷ ls)) ++ rest ≡ flatten l ++ (flatten (flatten ls) ++ rest) =
      ap (λ t. t ++ rest) (flatten-flatten l ls)
      ∙ append_assoc (flatten l) (flatten (flatten ls)) rest in
    rw (here, read_level-append l (flatten (flatten ls) ++ rest) h, read_levels-append ls rest hs)
      refl

All-flatten :
    (levels : List (List Node)) → All (All IsDigest) levels → All IsDigest (flatten levels)
unfolding flatten
All-flatten [] h = tt
All-flatten (l ∷ ls) (h, hs) = All-append IsDigest l (flatten ls) h (All-flatten ls hs)

module _ (sha256 : Bytes → Bytes) where
  -- The body of the file passes every check.
  validate_nodes-Tower :
      (leaf_count : ℕ) {xs : List Node} {levels : List (List Node)} {r : Node}
      → Tower sha256 xs levels r
      → All (All IsDigest) levels
      → IsDigest r
      → validate_nodes sha256 leaf_count (map length levels) (flatten (flatten levels) ++ r)
        ≡ ok (record {
          leaf_count = leaf_count % 2 ^ 32;
          leaves = map hex_from_bytes32 xs;
          root = hex_from_bytes32 r;
        })
  unfolding validate_nodes
  validate_nodes-Tower leaf_count {xs} {levels} {r} t h d =
      rw
        (
          read_levels-append levels r h,
          ap (split_at 32) (sym (append-nil r)) ∙ split_at-append 32 r [] d.width,
          Tower-check sha256 t,
          ap (λ l. check_root l r) (Tower-last? sha256 t) ∙ check_same r,
          first_level-Tower t,
        )
        refl
    where
      check_same : (x : Node) → check_root (some (x ∷ [])) x ≡ ok tt
      check_same x = unfold check_root in rw (bytes_eq_refl x) refl

      first_level-Tower :
          {xs : List Node} {levels : List (List Node)} {r : Node}
          → Tower sha256 xs levels r
          → first_level levels ≡ ok xs
      first_level-Tower t =
          let (above, e) = Tower-head sha256 t in ap first_level e ∙ unfold first_level in refl

  -- The file as it is laid out.
  abbrev tree_file : ℕ → List (List Node) → Node → Bytes
  tree_file n levels r =
      merkle_magic ++ (merkle_version ∷ be_bytes32 n) ++ flatten (flatten levels) ++ r

  length-body :
      (levels : List (List Node)) (r : Node)
      → All (All IsDigest) levels
      → IsDigest r
      → length (flatten (flatten levels) ++ r) ≡ sum (map length levels) * 32 + 32
  length-body levels r h d = omega (
    arith,
    length-append (flatten (flatten levels)) r,
    length-flatten_nodes (flatten levels) (All-flatten levels h),
    length-flatten levels,
    d.width,
  )

  parse-tree_file :
      {xs : List Node} {levels : List (List Node)} {r : Node}
      → Tower sha256 xs levels r
      → All (All IsDigest) levels
      → IsDigest r
      → 0 < length xs
      → length xs < 2 ^ 32
      → parse_and_validate_merkle_tree sha256 (tree_file (length xs) levels r)
        ≡ ok (record {
          leaf_count = length xs;
          leaves = map hex_from_bytes32 xs;
          root = hex_from_bytes32 r;
        })
  unfolding parse_and_validate_merkle_tree validate_header be_bytes32 bytes_eq
  parse-tree_file {xs} {levels} {r} t h d p lt =
      let body = flatten (flatten levels) ++ r in
      let n = length xs in
      let len : length body ≡ sum (map length levels) * 32 + 32 = length-body levels r h d in
      let enough : leb (4 + 1 + 4 + 32) (length (tree_file n levels r)) ≡ true =
        le→leb (4 + 1 + 4 + 32) (length (tree_file n levels r)) (omega arith) in
      let fits : (9 + length body == 9 + sum (map length levels) * 32 + 32) ≡ true =
        eq→== _ _ (omega arith) in
      let positive : (n == 0) ≡ false = ground arith in
      let small : n % 2 ^ 32 ≡ n = omega arith in
      rw
        (
          enough,
          from_be32-be_bytes32 n lt,
          positive,
          Tower-sizes sha256 n t (omega arith),
          fits,
          validate_nodes-Tower n t h d,
        )
        (rw small refl)

  -- Of at least one and less than 2 ^ 32 leaf hashes that are digests in hexadecimal, the file can
  -- be written, and reading it gives their number, their lower-case texts and the Merkle root.
  pub parse_and_validate_merkle_tree-serialize_merkle_tree :
      (hexes : List Bytes)
      → GivesDigests sha256
      → (d : Decodes hexes) → hexes ≢ []
      → length hexes < 2 ^ 32
      → (bytes : Bytes) × (root : Bytes) × (serialize_merkle_tree sha256 hexes ≡ ok bytes)
        × (merkle_root sha256 hexes ≡ ok root)
        × (parse_and_validate_merkle_tree sha256 bytes
            ≡ ok (record {
              leaf_count = length hexes;
              leaves = map hex_from_bytes32 d.nodes;
              root = root;
            }))
  unfolding serialize_merkle_tree merkle_root
  parse_and_validate_merkle_tree-serialize_merkle_tree [] g d ne lt = absurd (ne refl)
  parse_and_validate_merkle_tree-serialize_merkle_tree (h ∷ hs) g d ne lt =
      let (w, all) = collect-All (h ∷ hs) d.nodes d.decoded in
      let n : length d.nodes ≡ suc (length hs) = w in
      let (levels, r, built, t) =
        levels_from-Tower sha256 (length d.nodes) d.nodes (omega arith) (omega arith) in
      let (dl, dr) = Tower-IsDigest sha256 g t all in
      let small : length d.nodes % 2 ^ 32 ≡ length d.nodes = omega arith in
      (
        tree_file (length d.nodes) levels r,
        hex_from_bytes32 r,
        rw (d.decoded, built, Tower-last_first sha256 t, small) refl,
        rw (d.decoded, Tower-root sha256 (length d.nodes) t (omega arith)) refl,
        parse-tree_file t dl dr (omega arith) (omega arith)
            ∙ ap
                (λ c. ok (record {
                  leaf_count = c;
                  leaves = map hex_from_bytes32 d.nodes;
                  root = hex_from_bytes32 r;
                }))
                n,
      )
