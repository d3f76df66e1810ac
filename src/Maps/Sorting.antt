-- ===== src/Maps/Sorting.antt =====
-- The stable sort of a slice by an order that is total, and `dedup` of what is sorted.
use openforensicfileformat.Prelude.{
  ℕ, ◌≡◌, Bool, true, false, List, [], ◌∷◌, leb, if◌then◌else◌, All, Bool-cases, inl, inr, arith,
}

module _ {ℓ} {A : Type ℓ} (le : A → A → Bool) where
  unfoldable pub insert_sorted : A → List A → List A
  insert_sorted x [] = x ∷ []
  insert_sorted x (y ∷ ys) =
      let rest = insert_sorted x ys in if le x y then x ∷ y ∷ ys else y ∷ rest

  -- Equal elements keep their order: an element goes before those that come later.
  unfoldable pub sort_by : List A → List A
  sort_by [] = []
  sort_by (x ∷ xs) = insert_sorted x (sort_by xs)

  -- Each element stands before its neighbour.
  abbrev pub Sorted : List A → Type 0
  Sorted [] = Unit {0}
  Sorted (x ∷ []) = Unit {0}
  Sorted (x ∷ y ∷ ys) = (le x y ≡ true) × Sorted (y ∷ ys)

  module _ (total : (x y : A) → le x y ≡ false → le y x ≡ true) where
    insert_sorted-Sorted : (x : A) (ys : List A) → Sorted ys → Sorted (insert_sorted x ys)
    unfolding insert_sorted
    insert_sorted-Sorted x [] s = tt
    insert_sorted-Sorted x (y ∷ []) s = elim (Bool-cases (le x y)) [
      | inl t ↦ rw t (t, tt)
      | inr f ↦ rw f (total x y f, tt)
    ]
    insert_sorted-Sorted x (y ∷ z ∷ zs) (p, s) = elim (Bool-cases (le x y)) [
      | inl t ↦ rw t (t, (p, s))
      | inr f ↦ rw f (elim (Bool-cases (le x z)) [
        | inl t' ↦ rw t' (total x y f, (t', s))
        | inr f' ↦ rw f' (p, (let r = insert_sorted-Sorted x (z ∷ zs) s in rw f' at r))
      ])
    ]

    pub sort_by-Sorted : (xs : List A) → Sorted (sort_by xs)
    unfolding sort_by
    sort_by-Sorted [] = tt
    sort_by-Sorted (x ∷ xs) = insert_sorted-Sorted x (sort_by xs) (sort_by-Sorted xs)

  insert_sorted-All :
      (P : A → Type 0) (x : A) (ys : List A) → P x → All P ys → All P (insert_sorted x ys)
  unfolding insert_sorted
  insert_sorted-All P x [] p h = (p, tt)
  insert_sorted-All P x (y ∷ ys) p (q, h) = elim (Bool-cases (le x y)) [
    | inl t ↦ rw t (p, (q, h))
    | inr f ↦ rw f (q, insert_sorted-All P x ys p h)
  ]

  pub sort_by-All : (P : A → Type 0) (xs : List A) → All P xs → All P (sort_by xs)
  unfolding sort_by
  sort_by-All P [] h = tt
  sort_by-All P (x ∷ xs) (p, h) = insert_sorted-All P x (sort_by xs) p (sort_by-All P xs h)

pub leb_total : (m n : ℕ) → leb m n ≡ false → leb n m ≡ true
leb_total m n f = ground arith

-- `dedup`, by a test of equality.
module _ {ℓ} {A : Type ℓ} (eq : A → A → Bool) where
  unfoldable pub dedup : List A → List A
  dedup [] = []
  dedup (x ∷ []) = x ∷ []
  dedup (x ∷ y ∷ ys) = let rest = dedup (y ∷ ys) in if eq x y then rest else x ∷ rest
