-- ===== src/Maps/Entries.antt =====
-- What is found in a map after a new key has been put into it.
use openforensicfileformat.Prelude.{
  ℕ, suc, ◌≡◌, refl, sym, ap, subst, none, some, List, [], ◌∷◌, All, length, some_injective, ◌==◌,
  Bool-cases, inl, inr, ==→eq, eq→==,
}
use openforensicfileformat.Maps.{lookup, insert, remove}

module _ {A : Type 0} where
  pub lookup-insert : (k : ℕ) (a : A) (m : List (ℕ × A)) → lookup k (insert k a m) ≡ some a
  unfolding lookup insert
  lookup-insert k a [] = let t = eq→== k k refl in rw t refl
  lookup-insert k a ((j, b) ∷ m) = elim (Bool-cases (j == k)) [
    | inl t ↦ rw (t, t) refl
    | inr f ↦ rw (f, f) (lookup-insert k a m)
  ]

  -- A new key hides no other.
  pub lookup_kept :
      (k j : ℕ) (a p : A) (m : List (ℕ × A))
      → lookup k m ≡ none
      → lookup j m ≡ some p
      → lookup j (insert k a m) ≡ some p
  unfolding lookup insert
  lookup_kept k j a p [] e f = cc
  lookup_kept k j a p ((i, b) ∷ m) e f = elim (Bool-cases (i == k)) [
    | inl t ↦ absurd (let e' = rw t at e in cc)
    | inr n ↦ elim (Bool-cases (i == j)) [
      | inl t ↦ rw (n, t) (rw t at f)
      | inr n' ↦ rw (n, n') (lookup_kept k j a p m (rw n at e) (rw n' at f))
    ]
  ]

  pub length-insert :
      (k : ℕ) (a : A) (m : List (ℕ × A))
      → lookup k m ≡ none
      → length (insert k a m) ≡ suc (length m)
  unfolding lookup insert
  length-insert k a [] e = refl
  length-insert k a ((i, b) ∷ m) e = elim (Bool-cases (i == k)) [
    | inl t ↦ absurd (let e' = rw t at e in cc)
    | inr n ↦ rw n (ap suc (length-insert k a m (rw n at e)))
  ]

module _ {A : Type 0} (P : ℕ × A → Type 0) where
  pub All-remove : (k : ℕ) (m : List (ℕ × A)) → All P m → All P (remove k m)
  unfolding remove
  All-remove k [] h = tt
  All-remove k ((j, b) ∷ m) (h, hs) = elim (Bool-cases (j == k)) [
    | inl t ↦ rw t hs
    | inr f ↦ rw f (h, All-remove k m hs)
  ]

  pub All-insert : (k : ℕ) (a : A) (m : List (ℕ × A)) → P (k, a) → All P m → All P (insert k a m)
  unfolding insert
  All-insert k a [] p h = (p, tt)
  All-insert k a ((j, b) ∷ m) p (h, hs) = elim (Bool-cases (j == k)) [
    | inl t ↦ rw t (subst (λ i. P (i, a)) (sym (==→eq j k t)) p, hs)
    | inr f ↦ rw f (h, All-insert k a m p hs)
  ]

  pub All-lookup : (k : ℕ) (a : A) (m : List (ℕ × A)) → All P m → lookup k m ≡ some a → P (k, a)
  unfolding lookup
  All-lookup k a [] h e = cc
  All-lookup k a ((j, b) ∷ m) (h, hs) e = elim (Bool-cases (j == k)) [
    | inl t ↦
        subst P (ap (λ i. (i, a)) (==→eq j k t))
          (subst (λ x. P (j, x)) (some_injective (rw t at e)) h)
    | inr f ↦ All-lookup k a m hs (rw f at e)
  ]
