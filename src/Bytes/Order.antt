-- ===== src/Bytes/Order.antt =====
-- The order of strings by their bytes, `Ord` of `str`.
use openforensicfileformat.Prelude.{
  ◌≡◌, refl, Bool, true, false, [], ◌∷◌, ltb, ◌==◌, if◌then◌else◌, Bool-cases, ◌<◌, ◌⊎◌, inl, inr,
  arith,
}
use openforensicfileformat.Bytes.{Bytes}

unfoldable pub bytes_le : Bytes → Bytes → Bool
bytes_le [] ys = true
bytes_le (x ∷ xs) [] = false
bytes_le (x ∷ xs) (y ∷ ys) = if x == y then bytes_le xs ys else ltb x y

pub bytes_le_total : (xs ys : Bytes) → bytes_le xs ys ≡ false → bytes_le ys xs ≡ true
unfolding bytes_le
bytes_le_total [] ys f = absurd (ground arith)
bytes_le_total (x ∷ xs) [] f = refl
bytes_le_total (x ∷ xs) (y ∷ ys) f = elim (Bool-cases (x == y)) [
  | inl t ↦ let t' : (y == x) ≡ true = ground arith in rw t' (bytes_le_total xs ys (rw t at f))
  | inr g ↦ let g' : (y == x) ≡ false = ground arith in let f' = rw g at f in rw g' (ground arith)
]

-- Before another text or the same: at the first place where they differ its byte is the smaller, or
-- it ends first.
abbrev pub IsBeforeOrSame : Bytes → Bytes → Type 0
IsBeforeOrSame [] ys = Unit {0}
IsBeforeOrSame (x ∷ xs) [] = ⊥
IsBeforeOrSame (x ∷ xs) (y ∷ ys) = (x < y) ⊎ ((x ≡ y) × IsBeforeOrSame xs ys)

pub bytes_le-IsBeforeOrSame : (xs ys : Bytes) → bytes_le xs ys ≡ true → IsBeforeOrSame xs ys
unfolding bytes_le
bytes_le-IsBeforeOrSame [] ys h = tt
bytes_le-IsBeforeOrSame (x ∷ xs) [] h = absurd (ground arith)
bytes_le-IsBeforeOrSame (x ∷ xs) (y ∷ ys) h = elim (Bool-cases (x == y)) [
  | inl t ↦ inr (ground arith, bytes_le-IsBeforeOrSame xs ys (rw t at h))
  | inr f ↦ let h' = rw f at h in inl (ground arith)
]
