-- ===== src/Merkle/Proof.antt =====
-- crates/offf-core/src/hash.rs: a proof that `generate_merkle_proof` makes is accepted by
-- `verify_merkle_proof` against the root that `merkle_root` computes.
use openforensicfileformat.Prelude.{
  ℕ, zero, suc, ◌/◌, ◌≤◌, ◌≡◌, refl, true, some, List, [], ◌∷◌, length, get_elem?, All, arith, ap,
  ◌∙◌, lt→ltb, eq→==, some_injective, lt_of_get_elem?, subst, sym,
}
use openforensicfileformat.Bytes.{Bytes, codes, bytes_eq_refl}
use openforensicfileformat.Outcome.{ok, collect, collect-cons, ok_injective}
use openforensicfileformat.Hex.{hex_from_bytes32, hex_to_bytes32}
use openforensicfileformat.Hex.RoundTrip.{
  IsDigest, hex_to_bytes32-hex_from_bytes32, hex_to_bytes32-IsDigest,
}
use openforensicfileformat.Merkle.{
  Node, MerkleSibling, MerkleProof, index, next_level, merkle_root_from_bytes, merkle_root,
  proof_loop, generate_merkle_proof, fold_siblings, verify_merkle_proof, eq_ignore_ascii_case,
}
use openforensicfileformat.Merkle.Level.{
  GivesDigests, length-next_level, next_level-IsDigest, has_parent,
}

-- Every text converts to a digest: the leaves as bytes.
pub record Decodes (hexes : List Bytes) : Type 0 where
  pub nodes : List Node
  pub decoded : collect hex_to_bytes32 hexes ≡ ok nodes

pub collect-All :
    (hexes : List Bytes) (nodes : List Node)
    → collect hex_to_bytes32 hexes ≡ ok nodes
    → (length nodes ≡ length hexes) × All IsDigest nodes
unfolding collect
collect-All [] nodes e = subst (λ t. (length t ≡ 0) × All IsDigest t) (ok_injective e) (refl, tt)
collect-All (x ∷ xs) nodes e =
    let (y, ys, p, q, r) = collect-cons hex_to_bytes32 x xs nodes e in
    let (l, h) = collect-All xs ys q in
    subst (λ t. (length t ≡ suc (length xs)) × All IsDigest t) r
      (ap suc l, (hex_to_bytes32-IsDigest x y p, h))

pub collect-get_elem? :
    (hexes : List Bytes) (nodes : List Node) (i : ℕ) (h : Bytes)
    → collect hex_to_bytes32 hexes ≡ ok nodes
    → get_elem? hexes i ≡ some h
    → (x : Node) × (get_elem? nodes i ≡ some x) × (hex_to_bytes32 h ≡ ok x)
collect-get_elem? [] nodes i h e g = cc
collect-get_elem? (x ∷ xs) nodes zero h e g =
    let (y, ys, p, q, r) = collect-cons hex_to_bytes32 x xs nodes e in
    (y, ap (λ t. get_elem? t 0) (sym r), ap hex_to_bytes32 (sym (some_injective g)) ∙ p)
collect-get_elem? (x ∷ xs) nodes (suc i) h e g =
    let (y, ys, p, q, r) = collect-cons hex_to_bytes32 x xs nodes e in
    let (z, u, v) = collect-get_elem? xs ys i h q g in
    (z, ap (λ t. get_elem? t (suc i)) (sym r) ∙ u, v)

index-some :
    (level : List Node) (i : ℕ) {x : Node} → get_elem? level i ≡ some x → index level i ≡ ok x
unfolding index
index-some level i e = rw (e, index) refl

module _ (sha256 : Bytes → Bytes) (digests : GivesDigests sha256) where
  -- What the loop records leads from the node `i` of a level to the root.
  pub record LeadsToRoot (fuel : ℕ) (level : List Node) (i : ℕ) (x : Node) : Type 0 where
    pub siblings : List MerkleSibling
    pub root : Node
    pub recorded : proof_loop sha256 fuel level i ≡ ok (siblings, root)
    pub computed : merkle_root_from_bytes sha256 fuel level ≡ ok root
    pub folded : fold_siblings sha256 x siblings ≡ ok root
    pub digest : IsDigest root

  pub leads_to_root :
      (fuel : ℕ) (level : List Node) (i : ℕ) (x : Node)
      → length level ≤ fuel
      → All IsDigest level
      → get_elem? level i ≡ some x
      → LeadsToRoot fuel level i x
  unfolding proof_loop merkle_root_from_bytes fold_siblings
  leads_to_root zero [] i x l h e = cc
  leads_to_root zero (a ∷ rest) i x l h e = absurd (omega arith)
  leads_to_root (suc fuel) [] i x l h e = cc
  leads_to_root (suc fuel) (a ∷ []) zero x l (h, _) e = record {
    siblings = [];
    root = a;
    recorded = refl;
    computed = refl;
    folded = cc;
    digest = h;
  }
  leads_to_root (suc fuel) (a ∷ []) (suc i) x l h e = cc
  leads_to_root (suc fuel) (a ∷ b ∷ rest) i x l h e =
      let up = has_parent sha256 (a ∷ b ∷ rest) i x h e in
      let next = next_level sha256 (a ∷ b ∷ rest) in
      let top =
        leads_to_root fuel next (i / 2) _ (omega (arith, length-next_level sha256 (a ∷ b ∷ rest)))
          (next_level-IsDigest sha256 digests (a ∷ b ∷ rest)) up.parent in
      record {
        siblings =
            record { position = up.position; hash = hex_from_bytes32 up.sibling } ∷ top.siblings;
        root = top.root;
        recorded = rw (up.recorded, top.recorded) refl;
        computed = top.computed;
        folded = rw (hex_to_bytes32-hex_from_bytes32 up.sibling up.digest) top.folded;
        digest = top.digest;
      }

  -- From leaf hashes that are all digests in hexadecimal, and a leaf among them, a proof is made,
  -- the root exists, and the proof is accepted for that leaf, that sequence and that root.
  pub verify_merkle_proof-generate_merkle_proof :
      (hexes : List Bytes) (sequence : ℕ) (leaf : Bytes)
      → Decodes hexes
      → get_elem? hexes sequence ≡ some leaf
      → (proof : MerkleProof) × (root : Bytes) × (generate_merkle_proof sha256 hexes sequence
          ≡ ok proof)
        × (merkle_root sha256 hexes ≡ ok root)
        × (verify_merkle_proof sha256 leaf sequence proof root ≡ ok true)
  unfolding generate_merkle_proof merkle_root verify_merkle_proof eq_ignore_ascii_case
  verify_merkle_proof-generate_merkle_proof [] sequence leaf d g = cc
  verify_merkle_proof-generate_merkle_proof (h ∷ hs) sequence leaf d g =
      let hexes = h ∷ hs in
      let (w, all) = collect-All hexes d.nodes d.decoded in
      let (x, gx, dx) = collect-get_elem? hexes d.nodes sequence leaf d.decoded g in
      let top = leads_to_root (length d.nodes) d.nodes sequence x (omega arith) all gx in
      let proof : MerkleProof = record {
        algorithm = codes "sha256";
        tree_version = codes "0x01";
        leaf_sequence = sequence;
        leaf_hash = leaf;
        siblings = top.siblings;
        root = hex_from_bytes32 top.root;
      } in
      (
        proof,
        hex_from_bytes32 top.root,
        rw
            (
              lt→ltb _ _ (lt_of_get_elem? hexes sequence g),
              d.decoded,
              top.recorded,
              index-some hexes sequence g,
            )
            refl,
        rw (d.decoded, top.computed) refl,
        rw (eq→== sequence sequence refl, bytes_eq_refl leaf, dx, top.folded, bytes_eq_refl) refl,
      )
