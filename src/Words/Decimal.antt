-- ===== src/Words/Decimal.antt =====
-- The decimal texts of numbers, and the numbers that they stand for.
use native.Mathlib.Nat.{pow-suc}
use openforensicfileformat.Prelude.{
  ℕ, zero, suc, ◌+◌, ◌-◌, ◌*◌, ◌/◌, ◌%◌, ◌^◌, ◌<◌, ◌≤◌, ◌≡◌, refl, ap, ◌∙◌, ltb, [], ◌∷◌, ◌++◌, All,
  arith, replicate, length, Bool-cases, inl, inr,
}
use openforensicfileformat.Bytes.{Bytes}
use openforensicfileformat.Words.{decimal_loop, decimal}

-- The number that decimal digits stand for, behind those that stand for `n`.
abbrev pub value_behind : ℕ → Bytes → ℕ
value_behind n [] = n
value_behind n (c ∷ cs) = value_behind (n * 10 + (c - 48)) cs

abbrev pub IsDigit : ℕ → Type 0
IsDigit c = (48 ≤ c) × (c ≤ 57)

-- A text of decimal digits for the number `n`.
abbrev pub IsDecimal : ℕ → Bytes → Type 0
IsDecimal n text = All IsDigit text × (value_behind 0 text ≡ n)

value_behind-append :
    (n : ℕ) (xs ys : Bytes) → value_behind n (xs ++ ys) ≡ value_behind (value_behind n xs) ys
value_behind-append n [] ys = refl
value_behind-append n (x ∷ xs) ys = value_behind-append (n * 10 + (x - 48)) xs ys

digits-append : (xs ys : Bytes) → All IsDigit xs → All IsDigit ys → All IsDigit (xs ++ ys)
digits-append [] ys p q = q
digits-append (x ∷ xs) ys (h, p) q = (h, digits-append xs ys p q)

last_digit : (n : ℕ) → n / 10 * 10 + (48 + n % 10 - 48) ≡ n
last_digit n = omega arith

decimal_loop-IsDecimal : (fuel n : ℕ) → n < fuel → IsDecimal n (decimal_loop fuel n)
unfolding decimal_loop
decimal_loop-IsDecimal zero n h = absurd (omega arith)
decimal_loop-IsDecimal (suc fuel) n h = elim (Bool-cases (ltb n 10)) [
  | inl t ↦ rw t (((omega arith, ground arith), tt), omega arith)
  | inr f ↦
      let (digits, e) = decimal_loop-IsDecimal fuel (n / 10) (ground arith) in
      rw f (
        digits-append (decimal_loop fuel (n / 10)) ((48 + n % 10) ∷ []) digits
            ((omega arith, omega arith), tt),
        value_behind-append 0 (decimal_loop fuel (n / 10)) ((48 + n % 10) ∷ [])
            ∙ ap (λ t. t * 10 + (48 + n % 10 - 48)) e
            ∙ last_digit n,
      )
]

-- The text of a number is of decimal digits and stands for it.
pub decimal-IsDecimal : (n : ℕ) → IsDecimal n (decimal n)
unfolding decimal
decimal-IsDecimal n = decimal_loop-IsDecimal (n + 1) n (omega arith)

length-append-one : (xs : Bytes) (c : ℕ) → length (xs ++ (c ∷ [])) ≡ length xs + 1
length-append-one [] c = omega arith
length-append-one (x ∷ xs) c = omega (arith, length-append-one xs c)

length-decimal_loop : (k fuel n : ℕ) → n < 10 ^ suc k → length (decimal_loop fuel n) ≤ suc k
unfolding decimal_loop
length-decimal_loop k zero n h = omega arith
length-decimal_loop zero (suc fuel) n h = elim (Bool-cases (ltb n 10)) [
  | inl t ↦ rw t (omega arith)
  | inr f ↦ let less : n < 10 = h in absurd (ground arith)
]
length-decimal_loop (suc k) (suc fuel) n h = elim (Bool-cases (ltb n 10)) [
  | inl t ↦ rw t (omega arith)
  | inr f ↦
      let less : n / 10 < 10 ^ suc k = omega (arith, pow-suc 10 (suc k)) in
      rw f (
        omega (
          arith,
          length-decimal_loop k fuel (n / 10) less,
          length-append-one (decimal_loop fuel (n / 10)) (48 + n % 10),
        ))
]

-- A number below a power of ten has no more digits than the power.
pub length-decimal : (k n : ℕ) → n < 10 ^ suc k → length (decimal n) ≤ suc k
unfolding decimal
length-decimal k n h = length-decimal_loop k (n + 1) n h

-- Zeros in front change nothing.
pub zeros-IsDecimal :
    (k n : ℕ) (text : Bytes) → IsDecimal n text → IsDecimal n (replicate k 48 ++ text)
zeros-IsDecimal zero n text h = h
zeros-IsDecimal (suc k) n text h =
    let (digits, e) = zeros-IsDecimal k n text h in (((omega arith, omega arith), digits), e)

pub length-zeros : (k : ℕ) (text : Bytes) → length (replicate k 48 ++ text) ≡ k + length text
length-zeros zero text = omega arith
length-zeros (suc k) text = omega (arith, length-zeros k text)
