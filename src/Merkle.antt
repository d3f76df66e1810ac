-- ===== src/Merkle.antt =====
-- crates/offf-core/src/hash.rs: the Merkle tree over the chunk hashes of a container, its proofs
-- and its binary form. A node is a digest as bytes. SHA-256 (the crate `sha2`) is the parameter
-- `sha256` of every definition.
pub mod Level
pub mod Proof
pub mod Binding
pub mod Forgery
pub mod Format
pub mod Tower
use openforensicfileformat.Prelude.{
  ℕ, zero, suc, ◌+◌, ◌-◌, ◌/◌, ◌%◌, Bool, true, false, not, ◌&&◌, Option, none, some, List, [], ◌∷◌,
  ◌++◌, map, flatten, ltb, ◌==◌, if◌then◌else◌, length, get_elem?, take, drop, last?,
}
use openforensicfileformat.Bytes.{Bytes, codes, bytes_eq, be_bytes32, from_be32}
use openforensicfileformat.Outcome.{
  Result, ok, err, panic, stuck, invalid_merkle_tree, ◌>>=◌, ◌>>◌, ensure, collect,
}
use openforensicfileformat.Hex.{hex_to_bytes32, hex_from_bytes32}

abbrev pub Node : Type 0
Node = Bytes

pub data SiblingPosition : Type 0 where
  left right : SiblingPosition

pub record MerkleSibling : Type 0 where
  pub position : SiblingPosition
  pub hash : Bytes

pub record MerkleProof : Type 0 where
  pub algorithm : Bytes
  pub tree_version : Bytes
  pub leaf_sequence : ℕ
  pub leaf_hash : Bytes
  pub siblings : List MerkleSibling
  pub root : Bytes

pub record ValidatedMerkleTree : Type 0 where
  pub leaf_count : ℕ
  pub leaves : List Bytes
  pub root : Bytes

-- `level[i]`, which panics out of bounds.
unfoldable pub index : List Node → ℕ → Result Node
index level i = elim (get_elem? level i) [ some x ↦ ok x | none ↦ panic ]

abbrev pub is_empty {ℓ} : {A : Type ℓ} → List A → Bool
is_empty [] = true
is_empty (x ∷ xs) = false

-- `eq_ignore_ascii_case`
abbrev lower_ascii : ℕ → ℕ
lower_ascii c = if ltb 0x40 c && ltb c 0x5B then c + 32 else c

unfoldable pub eq_ignore_ascii_case : Bytes → Bytes → Bool
unfolding bytes_eq
eq_ignore_ascii_case xs ys = bytes_eq (map lower_ascii xs) (map lower_ascii ys)

module _ (sha256 : Bytes → Bytes) where
  unfoldable pub hash_pair : Node → Node → Node
  hash_pair l r = sha256 (l ++ r)

  -- The loop `while i < nodes.len()`, which pairs the nodes and an odd last node with itself.
  unfoldable pub next_level : List Node → List Node
  next_level [] = []
  next_level (x ∷ []) = hash_pair x x ∷ []
  next_level (x ∷ y ∷ rest) = hash_pair x y ∷ next_level rest

  -- Each call but the last halves the nodes; the number of nodes is fuel enough.
  unfoldable pub merkle_root_from_bytes : ℕ → List Node → Result Node
  merkle_root_from_bytes zero nodes = stuck
  merkle_root_from_bytes (suc fuel) (x ∷ []) = ok x
  merkle_root_from_bytes (suc fuel) nodes = merkle_root_from_bytes fuel (next_level nodes)

  unfoldable pub merkle_root : List Bytes → Result Bytes
  merkle_root leaf_hashes = do
    ensure (not (is_empty leaf_hashes)) invalid_merkle_tree
    leaves ← collect hex_to_bytes32 leaf_hashes
    root ← merkle_root_from_bytes (length leaves) leaves
    ok (hex_from_bytes32 root)

  -- The sibling of the node `cur_idx` in its level.
  unfoldable pub sibling_at : List Node → ℕ → Result MerkleSibling
  sibling_at level cur_idx =
      if cur_idx % 2 == 0
      then (do
        s ← index level (if ltb (cur_idx + 1) (length level) then cur_idx + 1 else cur_idx)
        ok (record { position = right; hash = hex_from_bytes32 s }))
      else (do
        s ← index level (cur_idx - 1)
        ok (record { position = left; hash = hex_from_bytes32 s }))

  -- The loop `while level.len() > 1` of `generate_merkle_proof`: the siblings from this level on,
  -- and `level[0]` of the last level.
  unfoldable pub proof_loop : ℕ → List Node → ℕ → Result (List MerkleSibling × Node)
  proof_loop zero level cur_idx = stuck
  proof_loop (suc fuel) [] cur_idx = panic
  proof_loop (suc fuel) (x ∷ []) cur_idx = ok ([], x)
  proof_loop (suc fuel) (x ∷ y ∷ rest) cur_idx = do
    s ← sibling_at (x ∷ y ∷ rest) cur_idx
    (siblings, root) ← proof_loop fuel (next_level (x ∷ y ∷ rest)) (cur_idx / 2)
    ok (s ∷ siblings, root)

  -- `sequence as usize` keeps a `u64` on a 64-bit machine.
  unfoldable pub generate_merkle_proof : List Bytes → ℕ → Result MerkleProof
  generate_merkle_proof leaf_hashes sequence = do
    ensure (not (is_empty leaf_hashes)) invalid_merkle_tree
    ensure (ltb sequence (length leaf_hashes)) invalid_merkle_tree
    level ← collect hex_to_bytes32 leaf_hashes
    (siblings, root) ← proof_loop (length level) level sequence
    leaf ← index leaf_hashes sequence
    ok (record {
      algorithm = codes "sha256";
      tree_version = codes "0x01";
      leaf_sequence = sequence;
      leaf_hash = leaf;
      siblings = siblings;
      root = hex_from_bytes32 root;
    })

  unfoldable pub combine : SiblingPosition → Node → Node → Node
  combine left acc sib = hash_pair sib acc
  combine right acc sib = hash_pair acc sib

  -- The loop of `verify_merkle_proof` over the siblings.
  unfoldable pub fold_siblings : Node → List MerkleSibling → Result Node
  fold_siblings acc [] = ok acc
  fold_siblings acc (s ∷ rest) = do
    sib ← hex_to_bytes32 s.hash
    fold_siblings (combine s.position acc sib) rest

  unfoldable pub verify_merkle_proof : Bytes → ℕ → MerkleProof → Bytes → Result Bool
  verify_merkle_proof leaf_hash sequence proof expected_root = do
    ensure (eq_ignore_ascii_case proof.algorithm (codes "sha256")) invalid_merkle_tree
    if not (proof.leaf_sequence == sequence)
        then ok false
        else if not (bytes_eq proof.leaf_hash leaf_hash)
        then ok false
        else (do
          start ← hex_to_bytes32 leaf_hash
          acc ← fold_siblings start proof.siblings
          ok (bytes_eq (hex_from_bytes32 acc) expected_root && bytes_eq proof.root expected_root))
