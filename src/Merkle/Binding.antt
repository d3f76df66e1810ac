-- ===== src/Merkle/Binding.antt =====
-- crates/offf-core/src/hash.rs: what a Merkle root commits to, up to different inputs of SHA-256 that
-- have one digest. The inputs are named: those that are hashed at one place of two computations.
use openforensicfileformat.Prelude.{
  ℕ, zero, suc, ◌≡◌, ◌≢◌, ◌⊎◌, refl, List, [], ◌∷◌, ◌++◌, map, length, take, drop, All, arith, ap,
  ◌∙◌, Bool-cases, inl, inr, subst, sym, take-append, drop-append, cons_head, cons_tail,
}
use openforensicfileformat.Bytes.{Bytes, bytes_eq, bytes_eq→eq, eq→bytes_eq}
use openforensicfileformat.Outcome.{Result, ok, err, panic, stuck, ◌>>=◌, collect, ok_injective}
use openforensicfileformat.Hex.{hex_from_bytes32, hex_to_bytes32}
use openforensicfileformat.Hex.RoundTrip.{IsDigest, hex_to_bytes32-hex_from_bytes32}
use openforensicfileformat.Merkle.{Node, hash_pair, next_level, merkle_root_from_bytes, merkle_root}
use openforensicfileformat.Merkle.Level.{GivesDigests, next_level-IsDigest}
use openforensicfileformat.Merkle.Proof.{collect-All}

-- Two inputs that differ and have one digest.
abbrev pub IsClash : (Bytes → Bytes) → Bytes → Bytes → Type 0
IsClash sha256 a b = (a ≢ b) × (sha256 a ≡ sha256 b)

-- Such inputs at one place of two lists.
abbrev pub HasClash : (Bytes → Bytes) → List Bytes → List Bytes → Type 0
HasClash sha256 [] ys = ⊥
HasClash sha256 (x ∷ xs) [] = ⊥
HasClash sha256 (x ∷ xs) (y ∷ ys) = IsClash sha256 x y ⊎ HasClash sha256 xs ys

-- What is hashed of one level: its nodes by two, an odd last one with itself.
abbrev pub pair_inputs : List Node → List Bytes
pair_inputs [] = []
pair_inputs (x ∷ []) = (x ++ x) ∷ []
pair_inputs (x ∷ y ∷ xs) = (x ++ y) ∷ pair_inputs xs

-- What is hashed of a level and of those above it, at most `fuel` levels: each level is the list of
-- the digests of what is hashed of the one below.
abbrev pub tree_inputs : (Bytes → Bytes) → ℕ → List Node → List Bytes
tree_inputs sha256 zero xs = []
tree_inputs sha256 (suc fuel) [] = []
tree_inputs sha256 (suc fuel) (x ∷ []) = []
tree_inputs sha256 (suc fuel) (x ∷ y ∷ xs) =
    pair_inputs (x ∷ y ∷ xs) ++ tree_inputs sha256 fuel (map sha256 (pair_inputs (x ∷ y ∷ xs)))

pub hex_from_bytes32_injective :
    (x y : Node) → IsDigest x → IsDigest y → hex_from_bytes32 x ≡ hex_from_bytes32 y → x ≡ y
hex_from_bytes32_injective x y hx hy e = ok_injective (
    sym (hex_to_bytes32-hex_from_bytes32 x hx)
    ∙ ap hex_to_bytes32 e
    ∙ hex_to_bytes32-hex_from_bytes32 y hy)

module _ (sha256 : Bytes → Bytes) where
  pub same_digest : (a b : Bytes) → sha256 a ≡ sha256 b → (a ≡ b) ⊎ IsClash sha256 a b
  same_digest a b e = elim (Bool-cases (bytes_eq a b)) [
    | inl t ↦ inl (bytes_eq→eq a b t)
    | inr f ↦ inr ((λ p. cc (eq→bytes_eq a b p)), e)
  ]

  -- The two halves of a hashed pair, if the left ones have the width of a digest.
  pub hash_pair_binding :
      (x y x' y' : Node)
      → IsDigest x
      → IsDigest x'
      → sha256 (x ++ y) ≡ sha256 (x' ++ y')
      → ((x ≡ x') × (y ≡ y')) ⊎ IsClash sha256 (x ++ y) (x' ++ y')
  hash_pair_binding x y x' y' hx hx' e = elim (same_digest (x ++ y) (x' ++ y') e) [
    | inl p ↦ inl (
      sym (take-append 32 x y hx.width) ∙ ap (take 32) p ∙ take-append 32 x' y' hx'.width,
      sym (drop-append 32 x y hx.width) ∙ ap (drop 32) p ∙ drop-append 32 x' y' hx'.width,
    )
    | inr c ↦ inr c
  ]

  next_level_lem : (xs : List Node) → next_level sha256 xs ≡ map sha256 (pair_inputs xs)
  unfolding next_level hash_pair
  next_level_lem [] = refl
  next_level_lem (x ∷ []) = refl
  next_level_lem (x ∷ y ∷ xs) = ap (◌∷◌ (sha256 (x ++ y))) (next_level_lem xs)

  HasClash-append_left :
      (xs ys us vs : List Bytes) → HasClash sha256 xs ys → HasClash sha256 (xs ++ us) (ys ++ vs)
  HasClash-append_left [] ys us vs c = absurd c
  HasClash-append_left (x ∷ xs) [] us vs c = absurd c
  HasClash-append_left (x ∷ xs) (y ∷ ys) us vs (inl c) = inl c
  HasClash-append_left (x ∷ xs) (y ∷ ys) us vs (inr c) = inr (HasClash-append_left xs ys us vs c)

  HasClash-append_right :
      (xs ys us vs : List Bytes)
      → length xs ≡ length ys
      → HasClash sha256 us vs
      → HasClash sha256 (xs ++ us) (ys ++ vs)
  HasClash-append_right [] [] us vs l c = c
  HasClash-append_right [] (y ∷ ys) us vs l c = absurd (omega arith)
  HasClash-append_right (x ∷ xs) [] us vs l c = absurd (omega arith)
  HasClash-append_right (x ∷ xs) (y ∷ ys) us vs l c =
      inr (HasClash-append_right xs ys us vs (omega arith) c)

  length-pair_inputs :
      (xs ys : List Node)
      → length xs ≡ length ys
      → length (pair_inputs xs) ≡ length (pair_inputs ys)
  length-pair_inputs [] [] l = refl
  length-pair_inputs [] (y ∷ ys) l = absurd (omega arith)
  length-pair_inputs (x ∷ xs) [] l = absurd (omega arith)
  length-pair_inputs (x ∷ []) (y ∷ []) l = refl
  length-pair_inputs (x ∷ []) (y ∷ y' ∷ ys) l = absurd (omega arith)
  length-pair_inputs (x ∷ x' ∷ xs) (y ∷ []) l = absurd (omega arith)
  length-pair_inputs (x ∷ x' ∷ xs) (y ∷ y' ∷ ys) l =
      omega (arith, length-pair_inputs xs ys (omega arith))

  level_binding :
      (xs ys : List Node)
      → length xs ≡ length ys
      → All IsDigest xs
      → All IsDigest ys
      → map sha256 (pair_inputs xs) ≡ map sha256 (pair_inputs ys)
      → (xs ≡ ys) ⊎ HasClash sha256 (pair_inputs xs) (pair_inputs ys)
  level_binding [] [] l hx hy e = inl refl
  level_binding [] (y ∷ ys) l hx hy e = absurd (omega arith)
  level_binding (x ∷ xs) [] l hx hy e = absurd (omega arith)
  level_binding (x ∷ []) (y ∷ []) l (hx, _) (hy, _) e =
      elim (hash_pair_binding x x y y hx hy (cons_head e)) [
        | inl p ↦ inl (ap (λ t. t ∷ []) p.0)
        | inr c ↦ inr (inl c)
      ]
  level_binding (x ∷ []) (y ∷ y' ∷ ys) l hx hy e = absurd (omega arith)
  level_binding (x ∷ x' ∷ xs) (y ∷ []) l hx hy e = absurd (omega arith)
  level_binding (x ∷ x' ∷ xs) (y ∷ y' ∷ ys) l (hx, (hx', hxs)) (hy, (hy', hys)) e =
      both (hash_pair_binding x x' y y' hx hy (cons_head e))
        (level_binding xs ys (omega arith) hxs hys (cons_tail e))
    where
      both :
          ((x ≡ y) × (x' ≡ y')) ⊎ IsClash sha256 (x ++ x') (y ++ y')
          → (xs ≡ ys) ⊎ HasClash sha256 (pair_inputs xs) (pair_inputs ys)
          → (x ∷ x' ∷ xs ≡ y ∷ y' ∷ ys)
            ⊎ HasClash sha256 (pair_inputs (x ∷ x' ∷ xs)) (pair_inputs (y ∷ y' ∷ ys))
      both (inl (p, q)) (inl r) = inl (cc)
      both (inl p) (inr c) = inr (inr c)
      both (inr c) r = inr (inl c)

  merkle_root_from_bytes_binding :
      GivesDigests sha256
      → (fuel : ℕ) (xs ys : List Node) (r : Node) → length xs ≡ length ys
      → All IsDigest xs
      → All IsDigest ys
      → merkle_root_from_bytes sha256 fuel xs ≡ ok r
      → merkle_root_from_bytes sha256 fuel ys ≡ ok r
      → (xs ≡ ys) ⊎ HasClash sha256 (tree_inputs sha256 fuel xs) (tree_inputs sha256 fuel ys)
  unfolding merkle_root_from_bytes
  merkle_root_from_bytes_binding h zero xs ys r l hx hy e f = cc
  merkle_root_from_bytes_binding h (suc fuel) [] [] r l hx hy e f = inl refl
  merkle_root_from_bytes_binding h (suc fuel) [] (y ∷ ys) r l hx hy e f = absurd (omega arith)
  merkle_root_from_bytes_binding h (suc fuel) (x ∷ xs) [] r l hx hy e f = absurd (omega arith)
  merkle_root_from_bytes_binding h (suc fuel) (x ∷ []) (y ∷ []) r l hx hy e f = inl (cc)
  merkle_root_from_bytes_binding h (suc fuel) (x ∷ []) (y ∷ y' ∷ ys) r l hx hy e f =
      absurd (omega arith)
  merkle_root_from_bytes_binding h (suc fuel) (x ∷ x' ∷ xs) (y ∷ []) r l hx hy e f =
      absurd (omega arith)
  merkle_root_from_bytes_binding h (suc fuel) (x ∷ x' ∷ xs) (y ∷ y' ∷ ys) r l hx hy e f =
      let zs = x ∷ x' ∷ xs in
      let ws = y ∷ y' ∷ ys in
      let above = map sha256 (pair_inputs zs) in
      let above' = map sha256 (pair_inputs ws) in
      let up = next_level_lem zs in
      let up' = next_level_lem ws in
      let places = length-pair_inputs zs ws l in
      elim (merkle_root_from_bytes_binding h fuel above above' r
        (length_map (pair_inputs zs) ∙ places ∙ sym (length_map (pair_inputs ws)))
        (subst (All IsDigest) up (next_level-IsDigest sha256 h zs))
        (subst (All IsDigest) up' (next_level-IsDigest sha256 h ws))
        (ap (merkle_root_from_bytes sha256 fuel) (sym up) ∙ e)
        (ap (merkle_root_from_bytes sha256 fuel) (sym up') ∙ f)) [
          | inl p ↦ elim (level_binding zs ws l hx hy p) [
            | inl q ↦ inl q
            | inr c ↦ inr (HasClash-append_left (pair_inputs zs) (pair_inputs ws) _ _ c)
          ]
          | inr c ↦ inr (HasClash-append_right (pair_inputs zs) (pair_inputs ws) _ _ places c)
        ]
    where
      length_map : (us : List Bytes) → length (map sha256 us) ≡ length us
      length_map [] = refl
      length_map (u ∷ us) = ap suc (length_map us)

  pub merkle_root_from_bytes-IsDigest :
      GivesDigests sha256
      → (fuel : ℕ) (xs : List Node) (r : Node) → All IsDigest xs
      → merkle_root_from_bytes sha256 fuel xs ≡ ok r
      → IsDigest r
  unfolding merkle_root_from_bytes
  merkle_root_from_bytes-IsDigest h zero xs r hx e = cc
  merkle_root_from_bytes-IsDigest h (suc fuel) [] r hx e =
      merkle_root_from_bytes-IsDigest h fuel (next_level sha256 []) r
        (next_level-IsDigest sha256 h []) e
  merkle_root_from_bytes-IsDigest h (suc fuel) (x ∷ []) r (hx, _) e =
      subst IsDigest (ok_injective e) hx
  merkle_root_from_bytes-IsDigest h (suc fuel) (x ∷ x' ∷ xs) r hx e =
      merkle_root_from_bytes-IsDigest h fuel (next_level sha256 (x ∷ x' ∷ xs)) r
        (next_level-IsDigest sha256 h (x ∷ x' ∷ xs)) e

  -- A successful `merkle_root`, turned round.
  pub record RootOf (hexes : List Bytes) (root : Bytes) : Type 0 where
    pub nodes : List Node
    pub top : Node
    pub decoded : collect hex_to_bytes32 hexes ≡ ok nodes
    pub computed : merkle_root_from_bytes sha256 (length nodes) nodes ≡ ok top
    pub printed : hex_from_bytes32 top ≡ root

  pub root_of :
      (hexes : List Bytes) (root : Bytes) → merkle_root sha256 hexes ≡ ok root → RootOf hexes root
  unfolding merkle_root
  root_of [] root e = cc
  root_of (h ∷ hs) root e = go (collect hex_to_bytes32 (h ∷ hs)) refl e
    where
      finish :
          (nodes : List Node) (r : Result Node)
          → collect hex_to_bytes32 (h ∷ hs) ≡ ok nodes
          → merkle_root_from_bytes sha256 (length nodes) nodes ≡ r
          → (r >>= λ top. ok (hex_from_bytes32 top)) ≡ ok root
          → RootOf (h ∷ hs) root
      finish nodes (ok top) p q x = record {
        nodes = nodes;
        top = top;
        decoded = p;
        computed = q;
        printed = ok_injective x;
      }
      finish nodes (err y) p q x = cc
      finish nodes panic p q x = cc
      finish nodes stuck p q x = cc

      go :
          (c : Result (List Node))
          → collect hex_to_bytes32 (h ∷ hs) ≡ c
          → (c >>= λ leaves. merkle_root_from_bytes sha256 (length leaves) leaves >>= λ top.
              ok (hex_from_bytes32 top))
            ≡ ok root
          → RootOf (h ∷ hs) root
      go (ok nodes) p x = finish nodes (merkle_root_from_bytes sha256 (length nodes) nodes) p refl x
      go (err y) p x = cc
      go panic p x = cc
      go stuck p x = cc

  -- Two lists of as many leaf hashes with one Merkle root decode to the same nodes, or two different
  -- inputs of SHA-256 with one digest stand at one place of their trees.
  pub merkle_root_binding :
      (hexes hexes' : List Bytes) (xs ys : List Node) (root : Bytes)
      → GivesDigests sha256
      → length hexes ≡ length hexes'
      → collect hex_to_bytes32 hexes ≡ ok xs
      → collect hex_to_bytes32 hexes' ≡ ok ys
      → merkle_root sha256 hexes ≡ ok root
      → merkle_root sha256 hexes' ≡ ok root
      → (xs ≡ ys)
        ⊎ HasClash sha256 (tree_inputs sha256 (length xs) xs) (tree_inputs sha256 (length ys) ys)
  merkle_root_binding hexes hexes' xs ys root h l dx dy e f =
      let r = root_of hexes root e in
      let r' = root_of hexes' root f in
      let (w, d) = collect-All hexes xs dx in
      let (w', d') = collect-All hexes' ys dy in
      let same : length ys ≡ length xs = omega (arith, w, w', l) in
      let a : merkle_root_from_bytes sha256 (length xs) xs ≡ ok r.top =
        ap (λ t. merkle_root_from_bytes sha256 (length t) t) (ok_injective (sym dx ∙ r.decoded))
        ∙ r.computed in
      let b : merkle_root_from_bytes sha256 (length ys) ys ≡ ok r'.top =
        ap (λ t. merkle_root_from_bytes sha256 (length t) t) (ok_injective (sym dy ∙ r'.decoded))
        ∙ r'.computed in
      let tops : r'.top ≡ r.top =
        hex_from_bytes32_injective r'.top r.top (merkle_root_from_bytes-IsDigest h _ ys r'.top d' b)
          (merkle_root_from_bytes-IsDigest h _ xs r.top d a) (r'.printed ∙ sym r.printed) in
      subst
        (λ n.
          (xs ≡ ys) ⊎ HasClash sha256 (tree_inputs sha256 (length xs) xs) (tree_inputs sha256 n ys))
        (sym same)
        (merkle_root_from_bytes_binding h (length xs) xs ys r.top (sym same) d d' a
          (ap (λ n. merkle_root_from_bytes sha256 n ys) (sym same) ∙ b ∙ ap ok tops))
