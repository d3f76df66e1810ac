-- ===== src/Tests/MerkleRuns.antt =====
-- Runs of crates/offf-core/src/hash.rs on trees of two and three leaves.
use openforensicfileformat.Prelude.{ℕ, ◌≡◌, ◌⊎◌, refl, List, [], ◌∷◌, ◌++◌, arith, map, true}
use openforensicfileformat.Bytes.{Bytes, codes, bytes_eq, from_be32}
use openforensicfileformat.Outcome.{ok, collect}
use openforensicfileformat.Hex.{
  hex_to_bytes32, hex_from_bytes32, decode_pairs, at_char_boundary, from_str_radix16, hex_value,
  hex_digit,
}
use openforensicfileformat.Hex.RoundTrip.{IsDigest}
use openforensicfileformat.Merkle.{
  Node, MerkleProof, ValidatedMerkleTree, left, merkle_root, merkle_root_from_bytes, next_level,
  hash_pair, generate_merkle_proof, verify_merkle_proof, index, sibling_at, proof_loop, combine,
  fold_siblings, eq_ignore_ascii_case,
}
use openforensicfileformat.Merkle.Proof.{Decodes, verify_merkle_proof-generate_merkle_proof}
use openforensicfileformat.Merkle.Binding.{HasClash, tree_inputs, merkle_root_binding}
use openforensicfileformat.Merkle.Forgery.{proof_inputs, verify_merkle_proof_sound}
use openforensicfileformat.Merkle.Format.{
  serialize_merkle_tree, parse_and_validate_merkle_tree, validate_header, validate_nodes,
  level_sizes, sum, read_levels, read_level, split_at, check_levels, check_parents, check_root,
  first_level,
}
use openforensicfileformat.Merkle.Format.RoundTrip.{
  parse_and_validate_merkle_tree-serialize_merkle_tree,
}
use openforensicfileformat.Merkle.Format.Sound.{
  collect-map, IsSound, parse_and_validate_merkle_tree-IsSound,
}
use openforensicfileformat.Tests.{checksum, checksum-IsDigest}

abbrev leaf_node : ℕ → Node
leaf_node k = checksum (k ∷ [])

leaf_node-IsDigest : (k : ℕ) → IsDigest (leaf_node k)
leaf_node-IsDigest k = checksum-IsDigest (k ∷ [])

abbrev nodes : List Node
nodes = leaf_node 1 ∷ leaf_node 2 ∷ leaf_node 3 ∷ []

abbrev hexes : List Bytes
hexes = map hex_from_bytes32 nodes

abbrev hexes-Decodes : Decodes hexes
hexes-Decodes = record {
  nodes = nodes;
  decoded =
      collect-map nodes (leaf_node-IsDigest 1, (leaf_node-IsDigest 2, (leaf_node-IsDigest 3, tt)));
}

verify_merkle_proof-generate_merkle_proof_example :
    (proof : MerkleProof) × (root : Bytes) × (generate_merkle_proof checksum hexes 2 ≡ ok proof)
    × (merkle_root checksum hexes ≡ ok root)
    × (verify_merkle_proof checksum (hex_from_bytes32 (leaf_node 3)) 2 proof root ≡ ok true)
verify_merkle_proof-generate_merkle_proof_example =
    verify_merkle_proof-generate_merkle_proof checksum checksum-IsDigest hexes 2
      (hex_from_bytes32 (leaf_node 3)) hexes-Decodes refl

parse_and_validate_merkle_tree-serialize_merkle_tree_example :
    (bytes : Bytes) × (root : Bytes) × (serialize_merkle_tree checksum hexes ≡ ok bytes)
    × (merkle_root checksum hexes ≡ ok root)
    × (parse_and_validate_merkle_tree checksum bytes
        ≡ ok (record { leaf_count = 3; leaves = hexes; root = root }))
parse_and_validate_merkle_tree-serialize_merkle_tree_example =
    parse_and_validate_merkle_tree-serialize_merkle_tree checksum hexes checksum-IsDigest
      hexes-Decodes (λ e. cc) (omega arith)

-- The root of the two leaves 1 and 2.
abbrev pair_root : Node
pair_root = checksum (leaf_node 1 ++ leaf_node 2)

abbrev pair_hexes : List Bytes
pair_hexes = map hex_from_bytes32 (leaf_node 1 ∷ leaf_node 2 ∷ [])

abbrev pair_file : Bytes
pair_file =
    codes "OFFF" ++ (1 ∷ 0 ∷ 0 ∷ 0 ∷ 2 ∷ []) ++ leaf_node 1 ++ leaf_node 2 ++ pair_root ++ pair_root

abbrev pair_tree : ValidatedMerkleTree
pair_tree = record { leaf_count = 2; leaves = pair_hexes; root = hex_from_bytes32 pair_root }

pair_accepted : parse_and_validate_merkle_tree checksum pair_file ≡ ok pair_tree
unfolding parse_and_validate_merkle_tree validate_header bytes_eq from_be32 level_sizes sum
    validate_nodes read_levels read_level split_at check_levels check_parents check_root first_level
    hash_pair
pair_accepted = refl

parse_and_validate_merkle_tree-IsSound_example : IsSound checksum pair_tree
parse_and_validate_merkle_tree-IsSound_example =
    parse_and_validate_merkle_tree-IsSound checksum pair_file pair_tree (omega arith) pair_accepted

pair_root_computed : merkle_root checksum pair_hexes ≡ ok (hex_from_bytes32 pair_root)
unfolding merkle_root collect hex_to_bytes32 decode_pairs at_char_boundary from_str_radix16
    hex_value hex_from_bytes32 hex_digit merkle_root_from_bytes next_level hash_pair
pair_root_computed = refl

-- The two leaves the other way round: `checksum` does not see the order, and collides.
abbrev swapped_hexes : List Bytes
swapped_hexes = map hex_from_bytes32 (leaf_node 2 ∷ leaf_node 1 ∷ [])

swapped_root_computed : merkle_root checksum swapped_hexes ≡ ok (hex_from_bytes32 pair_root)
unfolding merkle_root collect hex_to_bytes32 decode_pairs at_char_boundary from_str_radix16
    hex_value hex_from_bytes32 hex_digit merkle_root_from_bytes next_level hash_pair
swapped_root_computed = refl

merkle_root_binding_example :
    (leaf_node 1 ∷ leaf_node 2 ∷ [] ≡ leaf_node 2 ∷ leaf_node 1 ∷ [])
    ⊎ HasClash checksum
        (tree_inputs checksum 2 (leaf_node 1 ∷ leaf_node 2 ∷ []))
        (tree_inputs checksum 2 (leaf_node 2 ∷ leaf_node 1 ∷ []))
merkle_root_binding_example =
    merkle_root_binding checksum pair_hexes swapped_hexes (leaf_node 1 ∷ leaf_node 2 ∷ [])
      (leaf_node 2 ∷ leaf_node 1 ∷ []) (hex_from_bytes32 pair_root) checksum-IsDigest refl
      (collect-map (leaf_node 1 ∷ leaf_node 2 ∷ [])
        (leaf_node-IsDigest 1, (leaf_node-IsDigest 2, tt)))
      (collect-map (leaf_node 2 ∷ leaf_node 1 ∷ [])
        (leaf_node-IsDigest 2, (leaf_node-IsDigest 1, tt)))
      pair_root_computed swapped_root_computed

abbrev pair_proof : MerkleProof
pair_proof = record {
  algorithm = codes "sha256";
  tree_version = codes "0x01";
  leaf_sequence = 1;
  leaf_hash = hex_from_bytes32 (leaf_node 2);
  siblings = record { position = left; hash = hex_from_bytes32 (leaf_node 1) } ∷ [];
  root = hex_from_bytes32 pair_root;
}

pair_proof_made : generate_merkle_proof checksum pair_hexes 1 ≡ ok pair_proof
unfolding generate_merkle_proof collect hex_to_bytes32 decode_pairs at_char_boundary
    from_str_radix16 hex_value hex_from_bytes32 hex_digit proof_loop sibling_at index next_level
    hash_pair
pair_proof_made = refl

pair_proof_accepted :
    verify_merkle_proof checksum
      (hex_from_bytes32 (leaf_node 2))
      1
      pair_proof
      (hex_from_bytes32 pair_root)
    ≡ ok true
unfolding verify_merkle_proof eq_ignore_ascii_case bytes_eq hex_to_bytes32 decode_pairs
    at_char_boundary from_str_radix16 hex_value hex_from_bytes32 hex_digit fold_siblings combine
    hash_pair
pair_proof_accepted = refl

pair_hexes-Decodes : Decodes pair_hexes
pair_hexes-Decodes = record {
  nodes = leaf_node 1 ∷ leaf_node 2 ∷ [];
  decoded =
      collect-map (leaf_node 1 ∷ leaf_node 2 ∷ [])
        (leaf_node-IsDigest 1, (leaf_node-IsDigest 2, tt));
}

verify_merkle_proof_sound_example :
    (hex_to_bytes32 (hex_from_bytes32 (leaf_node 2))
      ≡ hex_to_bytes32 (hex_from_bytes32 (leaf_node 2)))
    ⊎ HasClash checksum
        (proof_inputs checksum (hex_from_bytes32 (leaf_node 2)) pair_proof)
        (proof_inputs checksum (hex_from_bytes32 (leaf_node 2)) pair_proof)
verify_merkle_proof_sound_example =
    verify_merkle_proof_sound checksum pair_hexes 1 (hex_from_bytes32 (leaf_node 2))
      (hex_from_bytes32 (leaf_node 2)) (hex_from_bytes32 pair_root) pair_proof pair_proof
      checksum-IsDigest pair_hexes-Decodes refl pair_proof_made pair_root_computed refl
      pair_proof_accepted
