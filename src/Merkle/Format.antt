-- ===== src/Merkle/Format.antt =====
-- crates/offf-core/src/hash.rs: the binary form of the tree, `merkle_tree.bin`.
pub mod RoundTrip
pub mod Sound
use openforensicfileformat.Prelude.{
  ℕ, zero, suc, ◌+◌, ◌-◌, ◌*◌, ◌/◌, ◌%◌, ◌^◌, Bool, true, false, not, ◌&&◌, Option, none, some,
  List, [], ◌∷◌, ◌++◌, map, flatten, ltb, leb, ◌==◌, if◌then◌else◌, length, get_elem?, take, drop,
  last?,
}
use openforensicfileformat.Bytes.{Bytes, codes, bytes_eq, be_bytes32, from_be32}
use openforensicfileformat.Outcome.{
  Result, ok, err, panic, stuck, invalid_merkle_tree, ◌>>=◌, ◌>>◌, ensure, collect,
}
use openforensicfileformat.Hex.{hex_to_bytes32, hex_from_bytes32}
use openforensicfileformat.Merkle.{Node, ValidatedMerkleTree, hash_pair, next_level, is_empty}

abbrev merkle_magic : Bytes
merkle_magic = codes "OFFF"

abbrev merkle_version : ℕ
merkle_version = 1

-- `levels.last().unwrap().first().unwrap()`
unfoldable pub last_first : List (List Node) → Result Node
last_first [] = panic
last_first ([] ∷ []) = panic
last_first ((x ∷ xs) ∷ []) = ok x
last_first (l ∷ l' ∷ levels) = last_first (l' ∷ levels)

-- A slice of the first `n` bytes of what is left, and the rest; it panics if there are fewer.
unfoldable pub split_at : ℕ → Bytes → Result (Bytes × Bytes)
split_at n bytes = if leb n (length bytes) then ok (take n bytes, drop n bytes) else panic

-- The level sizes from the leaves to the root: `while n > 1`. Each round halves `n`; `n` is fuel
-- enough.
unfoldable pub level_sizes : ℕ → ℕ → Result (List ℕ)
level_sizes zero n = stuck
level_sizes (suc fuel) n =
    let more = (do sizes ← level_sizes fuel ((n + 1) / 2); ok (n ∷ sizes)) in
    if ltb 1 n then more else ok (1 ∷ [])

unfoldable pub sum : List ℕ → ℕ
sum [] = 0
sum (n ∷ ns) = n + sum ns

-- The inner loop: `size` nodes of 32 bytes each, and the bytes behind them.
unfoldable pub read_level : ℕ → Bytes → Result (List Node × Bytes)
read_level zero bytes = ok ([], bytes)
read_level (suc size) bytes = do
  (node, rest) ← split_at 32 bytes
  (level, end) ← read_level size rest
  ok (node ∷ level, end)

unfoldable pub read_levels : List ℕ → Bytes → Result (List (List Node) × Bytes)
read_levels [] bytes = ok ([], bytes)
read_levels (size ∷ sizes) bytes = do
  (level, rest) ← read_level size bytes
  (levels, end) ← read_levels sizes rest
  ok (level ∷ levels, end)

-- `root_level.len() != 1`, then `root_level[0] != root_tail`.
unfoldable pub check_root : Option (List Node) → Node → Result (Unit {0})
check_root none tail = err invalid_merkle_tree
check_root (some (x ∷ [])) tail = ensure (bytes_eq x tail) invalid_merkle_tree
check_root (some level) tail = err invalid_merkle_tree

-- `levels[0]`
unfoldable pub first_level : List (List Node) → Result (List Node)
first_level [] = panic
first_level (level ∷ levels) = ok level

module _ (sha256 : Bytes → Bytes) where
  -- The loop that builds all levels. Each round halves the nodes; their number is fuel enough.
  unfoldable pub levels_from : ℕ → List Node → Result (List (List Node))
  levels_from zero level = stuck
  levels_from (suc fuel) (x ∷ []) = ok ((x ∷ []) ∷ [])
  levels_from (suc fuel) level = do
    levels ← levels_from fuel (next_level sha256 level)
    ok (level ∷ levels)

  unfoldable pub serialize_merkle_tree : List Bytes → Result Bytes
  serialize_merkle_tree leaf_hashes = do
    ensure (not (is_empty leaf_hashes)) invalid_merkle_tree
    leaves ← collect hex_to_bytes32 leaf_hashes
    levels ← levels_from (length leaves) leaves
    root ← last_first levels
    ok (
        merkle_magic
        ++ (merkle_version ∷ be_bytes32 (length leaves % 2 ^ 32))
        ++ flatten (flatten levels)
        ++ root)

  -- The loop over `j`: each parent is the hash of its pair.
  unfoldable pub check_parents : List Node → List Node → Result (Unit {0})
  check_parents [] next = ok tt
  check_parents (x ∷ cur) [] = panic
  check_parents (x ∷ []) (p ∷ next) = ensure (bytes_eq p (hash_pair sha256 x x)) invalid_merkle_tree
  check_parents (x ∷ y ∷ cur) (p ∷ next) = do
    ensure (bytes_eq p (hash_pair sha256 x y)) invalid_merkle_tree
    check_parents cur next

  -- The loop over `i`: each level against the next.
  unfoldable pub check_levels : List (List Node) → Result (Unit {0})
  check_levels [] = ok tt
  check_levels (cur ∷ []) = ok tt
  check_levels (cur ∷ next ∷ levels) = do
    ensure (length next == (length cur + 1) / 2) invalid_merkle_tree
    check_parents cur next
    check_levels (next ∷ levels)

  -- The part behind the header: all levels, the root once more, and their checks.
  unfoldable pub validate_nodes : ℕ → List ℕ → Bytes → Result ValidatedMerkleTree
  validate_nodes leaf_count sizes body = do
    (levels, end) ← read_levels sizes body
    (root_tail, _) ← split_at 32 end
    check_levels levels
    check_root (last? levels) root_tail
    leaves ← first_level levels
    ok (record {
      leaf_count = leaf_count % 2 ^ 32;
      leaves = map hex_from_bytes32 leaves;
      root = hex_from_bytes32 root_tail;
    })

  -- The part behind the length test, with the nine bytes of the header taken apart.
  unfoldable pub validate_header : Bytes → Result ValidatedMerkleTree
  validate_header (m₀ ∷ m₁ ∷ m₂ ∷ m₃ ∷ version ∷ c₀ ∷ c₁ ∷ c₂ ∷ c₃ ∷ body) = do
    ensure (bytes_eq (m₀ ∷ m₁ ∷ m₂ ∷ m₃ ∷ []) merkle_magic) invalid_merkle_tree
    ensure (version == merkle_version) invalid_merkle_tree
    let leaf_count = from_be32 c₀ c₁ c₂ c₃
    ensure (not (leaf_count == 0)) invalid_merkle_tree
    sizes ← level_sizes leaf_count leaf_count
    ensure (9 + length body == 9 + sum sizes * 32 + 32) invalid_merkle_tree
    validate_nodes leaf_count sizes body
  validate_header _ = panic

  unfoldable pub parse_and_validate_merkle_tree : Bytes → Result ValidatedMerkleTree
  parse_and_validate_merkle_tree bytes = do
    ensure (leb (4 + 1 + 4 + 32) (length bytes)) invalid_merkle_tree
    validate_header bytes

  unfoldable pub deserialize_merkle_root : Bytes → Result Bytes
  deserialize_merkle_root bytes = do tree ← parse_and_validate_merkle_tree bytes; ok tree.root
