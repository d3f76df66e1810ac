-- ===== src/Merkle/Forgery.antt =====
-- crates/offf-core/src/hash.rs: what an accepted proof commits to, up to different inputs of SHA-256
-- that have one digest and are hashed at one step of two proofs.
use openforensicfileformat.Prelude.{
  ℕ, ◌≡◌, refl, ◌⊎◌, Bool, true, false, some, List, [], ◌∷◌, ◌++◌, ◌==◌, not, ◌&&◌, if◌then◌else◌,
  get_elem?, arith, ap, ◌∙◌, inl, inr, ==→eq, subst, map, sym, cons_head, cons_tail,
}
use openforensicfileformat.Bytes.{Bytes, codes, bytes_eq, bytes_eq→eq}
use openforensicfileformat.Outcome.{
  Result, ok, err, panic, stuck, ◌>>=◌, ◌>>◌, ensure, ok_of_bind, ok_injective, invalid_merkle_tree,
}
use openforensicfileformat.Hex.{hex_from_bytes32, hex_to_bytes32}
use openforensicfileformat.Hex.RoundTrip.{IsDigest, hex_to_bytes32-IsDigest}
use openforensicfileformat.Merkle.{
  eq_ignore_ascii_case, Node, SiblingPosition, MerkleSibling, MerkleProof, left, right, hash_pair,
  combine, merkle_root, fold_siblings, verify_merkle_proof, generate_merkle_proof,
}
use openforensicfileformat.Merkle.Level.{GivesDigests}
use openforensicfileformat.Merkle.Proof.{Decodes, verify_merkle_proof-generate_merkle_proof}
use openforensicfileformat.Merkle.Binding.{
  IsClash, HasClash, hash_pair_binding, hex_from_bytes32_injective,
}

-- What is hashed of a node and its sibling.
abbrev joined : SiblingPosition → Node → Node → Bytes
joined left x sibling = sibling ++ x
joined right x sibling = x ++ sibling

-- What is hashed on the way up from a node, as far as the siblings can be decoded.
abbrev pub path_inputs : (Bytes → Bytes) → Node → List MerkleSibling → List Bytes
path_inputs sha256 x [] = []
path_inputs sha256 x (s ∷ ss) = elim (hex_to_bytes32 s.hash) [
  | ok t ↦ joined s.position x t ∷ path_inputs sha256 (sha256 (joined s.position x t)) ss
  | err e ↦ []
  | panic ↦ []
  | stuck ↦ []
]

-- That of a leaf, if it can be decoded.
abbrev pub proof_inputs : (Bytes → Bytes) → Bytes → MerkleProof → List Bytes
proof_inputs sha256 leaf proof = elim (hex_to_bytes32 leaf) [
  | ok x ↦ path_inputs sha256 x proof.siblings
  | err e ↦ []
  | panic ↦ []
  | stuck ↦ []
]

and_true : (a b : Bool) → (a && b) ≡ true → (a ≡ true) × (b ≡ true)
and_true a b e = ground arith

module _ (sha256 : Bytes → Bytes) where
  combine-IsDigest :
      GivesDigests sha256 → (p : SiblingPosition) (x s : Node) → IsDigest (combine sha256 p x s)
  unfolding combine hash_pair
  combine-IsDigest h left x s = h _
  combine-IsDigest h right x s = h _

  path_inputs_cons :
      (x t : Node) (s : MerkleSibling) (ss : List MerkleSibling)
      → hex_to_bytes32 s.hash ≡ ok t
      → path_inputs sha256 x (s ∷ ss)
        ≡ joined s.position x t ∷ path_inputs sha256 (sha256 (joined s.position x t)) ss
  path_inputs_cons x t s ss q = rw (path_inputs, q) refl

  proof_inputs_ok :
      (leaf : Bytes) (proof : MerkleProof) (x : Node)
      → hex_to_bytes32 leaf ≡ ok x
      → proof_inputs sha256 leaf proof ≡ path_inputs sha256 x proof.siblings
  proof_inputs_ok leaf proof x q = rw (proof_inputs, q) refl

  combine_lem : (p : SiblingPosition) (x s : Node) → combine sha256 p x s ≡ sha256 (joined p x s)
  unfolding combine hash_pair
  combine_lem left x s = refl
  combine_lem right x s = refl

  joined_binding :
      (p p' : SiblingPosition) (x s x' s' : Node)
      → p ≡ p'
      → IsDigest x
      → IsDigest s
      → IsDigest x'
      → IsDigest s'
      → sha256 (joined p x s) ≡ sha256 (joined p' x' s')
      → (x ≡ x') ⊎ IsClash sha256 (joined p x s) (joined p' x' s')
  joined_binding left left x s x' s' q hx hs hx' hs' e =
      elim (hash_pair_binding sha256 s x s' x' hs hs' e) [ inl r ↦ inl r.1 | inr c ↦ inr c ]
  joined_binding left right x s x' s' q hx hs hx' hs' e = cc
  joined_binding right left x s x' s' q hx hs hx' hs' e = cc
  joined_binding right right x s x' s' q hx hs hx' hs' e =
      elim (hash_pair_binding sha256 x s x' s' hx hx' e) [ inl r ↦ inl r.0 | inr c ↦ inr c ]

  fold_siblings-IsDigest :
      GivesDigests sha256
      → (x : Node) (ss : List MerkleSibling) (r : Node) → IsDigest x
      → fold_siblings sha256 x ss ≡ ok r
      → IsDigest r
  unfolding fold_siblings
  fold_siblings-IsDigest h x [] r hx e = subst IsDigest (ok_injective e) hx
  fold_siblings-IsDigest h x (s ∷ ss) r hx e =
      let (sib, q, e') =
        ok_of_bind (hex_to_bytes32 s.hash)
          (λ t. fold_siblings sha256 (combine sha256 s.position x t) ss) e in
      fold_siblings-IsDigest h (combine sha256 s.position x sib) ss r
        (combine-IsDigest h s.position x sib) e'

  -- Along siblings at the same sides, two starts with one end are the same, or two inputs clash.
  fold_siblings_binding :
      (x x' r : Node) (ss ss' : List MerkleSibling)
      → GivesDigests sha256
      → IsDigest x
      → IsDigest x'
      → map (λ s. s.position) ss ≡ map (λ s. s.position) ss'
      → fold_siblings sha256 x ss ≡ ok r
      → fold_siblings sha256 x' ss' ≡ ok r
      → (x ≡ x') ⊎ HasClash sha256 (path_inputs sha256 x ss) (path_inputs sha256 x' ss')
  unfolding fold_siblings
  fold_siblings_binding x x' r [] [] h hx hx' p e f = inl (cc)
  fold_siblings_binding x x' r [] (s' ∷ ss') h hx hx' p e f = cc
  fold_siblings_binding x x' r (s ∷ ss) [] h hx hx' p e f = cc
  fold_siblings_binding x x' r (s ∷ ss) (s' ∷ ss') h hx hx' p e f =
      let (sib, q, e') =
        ok_of_bind (hex_to_bytes32 s.hash)
          (λ t. fold_siblings sha256 (combine sha256 s.position x t) ss) e in
      let (sib', q', f') =
        ok_of_bind (hex_to_bytes32 s'.hash)
          (λ t. fold_siblings sha256 (combine sha256 s'.position x' t) ss') f in
      let a = joined s.position x sib in
      let b = joined s'.position x' sib' in
      let up = combine_lem s.position x sib in
      let up' = combine_lem s'.position x' sib' in
      rw (path_inputs_cons x sib s ss q, path_inputs_cons x' sib' s' ss' q')
        (elim (fold_siblings_binding (sha256 a) (sha256 b) r ss ss' h (h a) (h b) (cons_tail p)
          (ap (λ t. fold_siblings sha256 t ss) (sym up) ∙ e')
          (ap (λ t. fold_siblings sha256 t ss') (sym up') ∙ f')) [
            | inl c ↦
                elim (joined_binding s.position s'.position x sib x' sib' (cons_head p) hx
                  (hex_to_bytes32-IsDigest s.hash sib q) hx'
                  (hex_to_bytes32-IsDigest s'.hash sib' q') c) [
                    | inl same ↦ inl same
                    | inr d ↦ inr (inl d)
                  ]
            | inr c ↦ inr (inr c)
          ])

  checks_passed :
      (a s l : Bool) (rest : Result Bool)
      → (ensure a invalid_merkle_tree
          >> (if not s then ok false else if not l then ok false else rest))
        ≡ ok true
      → (a ≡ true) × (s ≡ true) × (l ≡ true) × (rest ≡ ok true)
  checks_passed a s l rest e = ground arith

  -- What an accepting `verify_merkle_proof` has checked.
  pub record Accepted (leaf : Bytes) (sequence : ℕ) (proof : MerkleProof) (root : Bytes)
      : Type 0 where
    pub start : Node
    pub top : Node
    pub decoded : hex_to_bytes32 leaf ≡ ok start
    pub folded : fold_siblings sha256 start proof.siblings ≡ ok top
    pub printed : hex_from_bytes32 top ≡ root
    pub algorithm : eq_ignore_ascii_case proof.algorithm (codes "sha256") ≡ true
    pub at_sequence : proof.leaf_sequence ≡ sequence
    pub for_leaf : proof.leaf_hash ≡ leaf
    pub for_root : proof.root ≡ root

  pub accepted :
      (leaf : Bytes) (sequence : ℕ) (proof : MerkleProof) (root : Bytes)
      → verify_merkle_proof sha256 leaf sequence proof root ≡ ok true
      → Accepted leaf sequence proof root
  unfolding verify_merkle_proof
  accepted leaf sequence proof root e =
      let end = λ (t : Node). bytes_eq (hex_from_bytes32 t) root && bytes_eq proof.root root in
      let walk = λ (st : Node). fold_siblings sha256 st proof.siblings >>= λ t. ok (end t) in
      let (a, s, l, e₁) =
        checks_passed (eq_ignore_ascii_case proof.algorithm (codes "sha256"))
          (proof.leaf_sequence == sequence) (bytes_eq proof.leaf_hash leaf)
          (hex_to_bytes32 leaf >>= walk) e in
      let (start, p, e₂) = ok_of_bind (hex_to_bytes32 leaf) walk e₁ in
      let (top, q, e₃) =
        ok_of_bind (fold_siblings sha256 start proof.siblings) (λ t. ok (end t)) e₂ in
      let (u, v) =
        and_true (bytes_eq (hex_from_bytes32 top) root) (bytes_eq proof.root root)
          (ok_injective e₃) in
      record {
        start = start;
        top = top;
        decoded = p;
        folded = q;
        printed = bytes_eq→eq _ _ u;
        algorithm = a;
        at_sequence = ==→eq _ _ s;
        for_leaf = bytes_eq→eq _ _ l;
        for_root = bytes_eq→eq _ _ v;
      }

  -- Two accepted leaves under one root, with siblings at the same sides, are the same digest, or two
  -- inputs clash.
  verify_merkle_proof_binding :
      (leaf leaf' : Bytes) (sequence : ℕ) (proof proof' : MerkleProof) (root : Bytes)
      → GivesDigests sha256
      → map (λ s. s.position) proof.siblings ≡ map (λ s. s.position) proof'.siblings
      → verify_merkle_proof sha256 leaf sequence proof root ≡ ok true
      → verify_merkle_proof sha256 leaf' sequence proof' root ≡ ok true
      → (hex_to_bytes32 leaf ≡ hex_to_bytes32 leaf')
        ⊎ HasClash sha256 (proof_inputs sha256 leaf proof) (proof_inputs sha256 leaf' proof')
  verify_merkle_proof_binding leaf leaf' sequence proof proof' root h p e f =
      let a = accepted leaf sequence proof root e in
      let b = accepted leaf' sequence proof' root f in
      let da = hex_to_bytes32-IsDigest leaf a.start a.decoded in
      let db = hex_to_bytes32-IsDigest leaf' b.start b.decoded in
      let tops : b.top ≡ a.top =
        hex_from_bytes32_injective b.top a.top
          (fold_siblings-IsDigest h b.start proof'.siblings b.top db b.folded)
          (fold_siblings-IsDigest h a.start proof.siblings a.top da a.folded)
          (b.printed ∙ sym a.printed) in
      rw
        (
          proof_inputs_ok leaf proof a.start a.decoded,
          proof_inputs_ok leaf' proof' b.start b.decoded,
          a.decoded,
          b.decoded,
        )
        (elim (fold_siblings_binding a.start b.start a.top proof.siblings proof'.siblings h da db p
          a.folded (b.folded ∙ ap ok tops)) [ inl q ↦ inl (ap ok q) | inr c ↦ inr c ])

  -- A proof for the place `sequence` of a container, with siblings at the sides that the generated
  -- proof has, is accepted under the container's root only for the digest of the leaf at that
  -- place, or two different inputs of SHA-256 with one digest are hashed at one step of the two
  -- proofs.
  pub verify_merkle_proof_sound :
      (hexes : List Bytes) (sequence : ℕ) (leaf leaf' root : Bytes) (proof proof' : MerkleProof)
      → GivesDigests sha256
      → Decodes hexes
      → get_elem? hexes sequence ≡ some leaf
      → generate_merkle_proof sha256 hexes sequence ≡ ok proof
      → merkle_root sha256 hexes ≡ ok root
      → map (λ s. s.position) proof.siblings ≡ map (λ s. s.position) proof'.siblings
      → verify_merkle_proof sha256 leaf' sequence proof' root ≡ ok true
      → (hex_to_bytes32 leaf ≡ hex_to_bytes32 leaf')
        ⊎ HasClash sha256 (proof_inputs sha256 leaf proof) (proof_inputs sha256 leaf' proof')
  verify_merkle_proof_sound hexes sequence leaf leaf' root proof proof' h d g p r same e =
      let (made, top, p', r', v) =
        verify_merkle_proof-generate_merkle_proof sha256 h hexes sequence leaf d g in
      let accepts : verify_merkle_proof sha256 leaf sequence proof root ≡ ok true =
        rw (ok_injective (sym p ∙ p'), ok_injective (sym r ∙ r')) v in
      verify_merkle_proof_binding leaf leaf' sequence proof proof' root h same accepts e
