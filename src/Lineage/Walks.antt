-- ===== src/Lineage/Walks.antt =====
-- crates/offf-core/src/lineage.rs: the walks of the search, and the nodes that it has not seen.
use openforensicfileformat.Prelude.{
  ℕ, zero, suc, ◌+◌, ◌≤◌, ◌<◌, ◌≡◌, refl, ap, subst, ◌⊎◌, true, false, if◌then◌else◌, length, drop,
  Option, none, some, some_injective, List, [], ◌∷◌, ◌++◌, arith, Bool-cases, inl, inr,
}
use openforensicfileformat.Bytes.{Bytes, bytes_eq, bytes_eq→eq, bytes_eq_refl}
use openforensicfileformat.Scope.{has_text}
use openforensicfileformat.Lineage.{insert_text, position, but_last}

abbrev pub In : Bytes → List Bytes → Type 0
In x [] = ⊥
In x (y ∷ ys) = (y ≡ x) ⊎ In x ys

pub but_last_lem : (xs : List Bytes) (x : Bytes) → but_last (xs ++ (x ∷ [])) ≡ xs
unfolding but_last
but_last_lem [] x = refl
but_last_lem (y ∷ []) x = refl
but_last_lem (y ∷ z ∷ xs) x = ap (◌∷◌ y) (but_last_lem (z ∷ xs) x)

-- Where `position` finds a text.
pub position_lem :
    (x : Bytes) (xs : List Bytes) (n : ℕ)
    → position x xs ≡ some n
    → (n < length xs) × (rest : List Bytes) × (drop n xs ≡ x ∷ rest)
unfolding position
position_lem x [] n e = cc
position_lem x (y ∷ ys) n e = elim (Bool-cases (bytes_eq y x)) [
  | inl t ↦
      let z : 0 ≡ n = some_injective (rw t at e) in
      (
        omega arith,
        ys,
        subst (λ k. drop k (y ∷ ys) ≡ x ∷ ys) z (ap (λ w. w ∷ ys) (bytes_eq→eq y x t)),
      )
  | inr f ↦ later (position x ys) refl (λ k p. position_lem x ys k p) (rw f at e)
]
  where
    later :
        (o : Option ℕ)
        → position x ys ≡ o
        → ((k : ℕ)
            → position x ys ≡ some k
            → (k < length ys) × (rest : List Bytes) × (drop k ys ≡ x ∷ rest))
        → (elim o [ some k ↦ some (suc k) | none ↦ none ]) ≡ some n
        → (n < length (y ∷ ys)) × (rest : List Bytes) × (drop n (y ∷ ys) ≡ x ∷ rest)
    later none p ih q = cc
    later (some k) p ih q =
        let (l, rest, d) = ih k p in
        let z : suc k ≡ n = some_injective q in
        (omega arith, rest, subst (λ m. drop m (y ∷ ys) ≡ x ∷ rest) z d)

-- A walk along the edges.
module _ (Edge : Bytes → Bytes → Type 0) where
  abbrev pub Walk : List Bytes → Type 0
  Walk [] = Unit {0}
  Walk (x ∷ []) = Unit {0}
  Walk (x ∷ y ∷ rest) = Edge x y × Walk (y ∷ rest)

  pub Walk-append :
      (xs : List Bytes) (a b : Bytes)
      → Walk (xs ++ (a ∷ []))
      → Edge a b
      → Walk ((xs ++ (a ∷ [])) ++ (b ∷ []))
  Walk-append [] a b w e = (e, tt)
  Walk-append (x ∷ []) a b (f, w) e = (f, (e, tt))
  Walk-append (x ∷ y ∷ xs) a b (f, w) e = (f, Walk-append (y ∷ xs) a b w e)

  Walk-tail : (x : Bytes) (xs : List Bytes) → Walk (x ∷ xs) → Walk xs
  Walk-tail x [] w = tt
  Walk-tail x (y ∷ xs) (f, w) = w

  -- The end of a walk from any place of it on, with one edge more.
  pub Walk-drop :
      (n : ℕ) (xs : List Bytes) (a b : Bytes)
      → Walk (xs ++ (a ∷ []))
      → Edge a b
      → n < length (xs ++ (a ∷ []))
      → Walk (drop n (xs ++ (a ∷ [])) ++ (b ∷ []))
  Walk-drop zero xs a b w e l = Walk-append xs a b w e
  Walk-drop (suc n) [] a b w e l = absurd (omega arith)
  Walk-drop (suc n) (x ∷ xs) a b w e l =
      Walk-drop n xs a b (Walk-tail x (xs ++ (a ∷ [])) w) e (omega arith)

-- Which of the ids a set lacks, with their repetitions.
abbrev pub unseen : List Bytes → List Bytes → ℕ
unseen [] v = 0
unseen (x ∷ ids) v = (if has_text x v then 0 else 1) + unseen ids v

abbrev pub Within : List Bytes → List Bytes → Type 0
Within v w = (x : Bytes) → has_text x v ≡ true → has_text x w ≡ true

pub unseen_le : (ids v w : List Bytes) → Within v w → unseen ids w ≤ unseen ids v
unseen_le [] v w h = omega arith
unseen_le (x ∷ ids) v w h = elim (Bool-cases (has_text x v)) [
  | inl t ↦ rw (t, h x t) (omega (arith, unseen_le ids v w h))
  | inr f ↦ elim (Bool-cases (has_text x w)) [
    | inl t ↦ rw (f, t) (omega (arith, unseen_le ids v w h))
    | inr g ↦ rw (f, g) (omega (arith, unseen_le ids v w h))
  ]
]

pub unseen_lt :
    (ids v w : List Bytes) (x : Bytes)
    → Within v w
    → In x ids
    → has_text x v ≡ false
    → has_text x w ≡ true
    → unseen ids w < unseen ids v
unseen_lt [] v w x h i f t = absurd i
unseen_lt (y ∷ ids) v w x h (inl e) f t =
    let f' : has_text y v ≡ false = rw e f in
    let t' : has_text y w ≡ true = rw e t in rw (f', t') (omega (arith, unseen_le ids v w h))
unseen_lt (y ∷ ids) v w x h (inr i) f t = elim (Bool-cases (has_text y v)) [
  | inl p ↦ rw (p, h y p) (omega (arith, unseen_lt ids v w x h i f t))
  | inr p ↦ elim (Bool-cases (has_text y w)) [
    | inl q ↦ rw (p, q) (omega (arith, unseen_lt ids v w x h i f t))
    | inr q ↦ rw (p, q) (omega (arith, unseen_lt ids v w x h i f t))
  ]
]

pub insert_text-Within : (x : Bytes) (v : List Bytes) → Within v (insert_text x v)
unfolding insert_text has_text
insert_text-Within x v y h = elim (Bool-cases (has_text x v)) [
  | inl t ↦ rw t h
  | inr f ↦ rw f (elim (Bool-cases (bytes_eq x y)) [ inl p ↦ rw p refl | inr p ↦ rw p h ])
]

pub has_text-insert_text : (x : Bytes) (v : List Bytes) → has_text x (insert_text x v) ≡ true
unfolding insert_text has_text
has_text-insert_text x v = elim (Bool-cases (has_text x v)) [
  | inl t ↦ rw t t
  | inr f ↦ rw (f, bytes_eq_refl x) refl
]
