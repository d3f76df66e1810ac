-- ===== src/Merkle/Level.antt =====
-- One level of the tree (the pairing loops of crates/offf-core/src/hash.rs): its size, its digests,
-- and how a node and its sibling give their parent.
use openforensicfileformat.Prelude.{
  ℕ, zero, suc, ◌+◌, ◌-◌, ◌/◌, ◌%◌, ◌≡◌, refl, false, some, List, [], ◌∷◌, ltb, ◌==◌, if◌then◌else◌,
  length, get_elem?, All, arith, ◌∙◌, lt→ltb, Bool-cases, inl, inr,
}
use openforensicfileformat.Bytes.{Bytes}
use openforensicfileformat.Outcome.{ok}
use openforensicfileformat.Hex.{hex_from_bytes32}
use openforensicfileformat.Hex.RoundTrip.{IsDigest}
use openforensicfileformat.Merkle.{
  Node, SiblingPosition, left, right, index, hash_pair, next_level, sibling_at, combine,
}

-- What the crate `sha2` documents: a digest has 32 bytes.
abbrev pub GivesDigests : (Bytes → Bytes) → Type 0
GivesDigests sha256 = (b : Bytes) → IsDigest (sha256 b)

two_more_even : (i : ℕ) → (suc (suc i) % 2 == 0) ≡ (i % 2 == 0)
two_more_even i = rw (two_more_mod i)
  where
    two_more_mod : (k : ℕ) → suc (suc k) % 2 ≡ k % 2
    two_more_mod k = omega arith

two_more_half : (i : ℕ) → suc (suc i) / 2 ≡ suc (i / 2)
two_more_half i = omega arith

two_more_less_one : (i : ℕ) → (i % 2 == 0) ≡ false → suc (suc i) - 1 ≡ suc (suc (i - 1))
two_more_less_one i h = ground arith

-- The right sibling's index, two places further on.
next_index :
    (i n : ℕ)
    → (if ltb (suc (suc i) + 1) (suc (suc n)) then suc (suc i) + 1 else suc (suc i))
      ≡ suc (suc (if ltb (i + 1) n then i + 1 else i))
next_index i n = ground arith

module _ (sha256 : Bytes → Bytes) where
  -- A level has half the nodes of the one below, rounded up.
  pub length-next_level :
      (level : List Node) → length (next_level sha256 level) ≡ (length level + 1) / 2
  unfolding next_level
  length-next_level [] = omega arith
  length-next_level (x ∷ []) = omega arith
  length-next_level (x ∷ y ∷ rest) = omega (arith, length-next_level rest)

  pub next_level-IsDigest :
      GivesDigests sha256 → (level : List Node) → All IsDigest (next_level sha256 level)
  unfolding next_level hash_pair
  next_level-IsDigest h [] = tt
  next_level-IsDigest h (x ∷ []) = (h _, tt)
  next_level-IsDigest h (x ∷ y ∷ rest) = (h _, next_level-IsDigest h rest)

  sibling_at-suc-suc :
      (a b : Node) (rest : List Node) (i : ℕ)
      → sibling_at sha256 (a ∷ b ∷ rest) (suc (suc i)) ≡ sibling_at sha256 rest i
  unfolding sibling_at index
  sibling_at-suc-suc a b rest i = elim (Bool-cases (i % 2 == 0)) [
    | inl even ↦ rw (two_more_even i ∙ even, even, next_index i (length rest)) refl
    | inr odd ↦ rw (two_more_even i ∙ odd, odd, two_more_less_one i odd) refl
  ]

  -- The sibling that a proof records for the node `x`, and the parent that the two have.
  pub record HasParent (level : List Node) (i : ℕ) (x : Node) : Type 0 where
    pub position : SiblingPosition
    pub sibling : Node
    pub recorded :
        sibling_at sha256 level i
        ≡ ok (record { position = position; hash = hex_from_bytes32 sibling })
    pub digest : IsDigest sibling
    pub parent :
        get_elem? (next_level sha256 level) (i / 2) ≡ some (combine sha256 position x sibling)

  pub has_parent :
      (level : List Node) (i : ℕ) (x : Node)
      → All IsDigest level
      → get_elem? level i ≡ some x
      → HasParent level i x
  unfolding sibling_at index next_level combine
  has_parent [] i x h e = cc
  has_parent (a ∷ []) zero x (h, _) e = record {
    position = right;
    sibling = a;
    recorded = refl;
    digest = h;
    parent = cc;
  }
  has_parent (a ∷ []) (suc i) x h e = cc
  has_parent (a ∷ b ∷ rest) zero x (h, (h', hs)) e = record {
    position = right;
    sibling = b;
    recorded = rw (lt→ltb 1 (suc (suc (length rest))) (omega arith)) refl;
    digest = h';
    parent = cc;
  }
  has_parent (a ∷ b ∷ rest) (suc zero) x (h, (h', hs)) e = record {
    position = left;
    sibling = a;
    recorded = refl;
    digest = h;
    parent = cc;
  }
  has_parent (a ∷ b ∷ rest) (suc (suc i)) x (h, (h', hs)) e =
      let up = has_parent rest i x hs e in
      record {
        position = up.position;
        sibling = up.sibling;
        recorded = sibling_at-suc-suc a b rest i ∙ up.recorded;
        digest = up.digest;
        parent = rw (two_more_half i) up.parent;
      }
