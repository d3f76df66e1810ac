-- ===== src/Maps.antt =====
-- `HashMap` with integer keys as association lists, and the sorting of slices.
pub mod Sorting
pub mod Entries
use openforensicfileformat.Prelude.{
  ℕ, Bool, true, false, Option, none, some, List, [], ◌∷◌, ◌==◌, if◌then◌else◌, map,
}

module _ {ℓ} {A : Type ℓ} where
  unfoldable pub lookup : ℕ → List (ℕ × A) → Option A
  lookup k [] = none
  lookup k ((j, a) ∷ entries) = if j == k then some a else lookup k entries

  -- `insert`, which replaces the value of a key that is there.
  unfoldable pub insert : ℕ → A → List (ℕ × A) → List (ℕ × A)
  insert k a [] = (k, a) ∷ []
  insert k a ((j, b) ∷ entries) = if j == k then (j, a) ∷ entries else (j, b) ∷ insert k a entries

  unfoldable pub remove : ℕ → List (ℕ × A) → List (ℕ × A)
  remove k [] = []
  remove k ((j, b) ∷ entries) = if j == k then entries else (j, b) ∷ remove k entries

  unfoldable pub contains_key : ℕ → List (ℕ × A) → Bool
  contains_key k entries = elim (lookup k entries) [ none ↦ false | some a ↦ true ]

  abbrev pub keys : List (ℕ × A) → List ℕ
  keys [] = []
  keys ((k, a) ∷ entries) = k ∷ keys entries

unfoldable pub contains : ℕ → List ℕ → Bool
contains n [] = false
contains n (m ∷ ms) = if m == n then true else contains n ms
