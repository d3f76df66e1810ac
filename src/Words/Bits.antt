-- ===== src/Words/Bits.antt =====
-- The bitwise operations, where they are sums.
use Prim.Native.Nat.{bit_or, bit_or-bitwise, digits}
use native.Mathlib.Nat.{pow-suc}
use openforensicfileformat.Prelude.{
  ℕ, zero, suc, ◌+◌, ◌*◌, ◌/◌, ◌%◌, ◌^◌, ◌≤◌, ◌<◌, ◌≡◌, arith, max, ap, ◌∙◌,
}

digits_disjoint :
    (n a b k : ℕ) → a ≤ n → a < 2 ^ k → digits (λ b. b) max n a (b * 2 ^ k) ≡ a + b * 2 ^ k
digits_disjoint zero zero b k h l = omega arith
digits_disjoint (suc n) zero b k h l = omega arith
digits_disjoint zero (suc a) b k h l = absurd (omega arith)
digits_disjoint (suc n) (suc a) b zero h l = absurd (omega arith)
digits_disjoint (suc n) (suc a) b (suc k) h l =
    let m = b * 2 ^ k in
    let double : b * 2 ^ suc k ≡ m * 2 = ap (λ t. b * t) (pow-suc 2 k) ∙ omega arith in
    let less : suc a / 2 < 2 ^ k = omega (arith, pow-suc 2 k) in
    let half : b * 2 ^ suc k / 2 ≡ m = omega (arith, double) in
    let even : b * 2 ^ suc k % 2 ≡ 0 = omega (arith, double) in
    let rec = digits_disjoint n (suc a / 2) b k (omega arith) less in
    rw (half, even, rec) (omega (arith, double))

-- The digits of `a` lie below those of the other number.
pub bit_or_disjoint : (a b k : ℕ) → a < 2 ^ k → bit_or a (b * 2 ^ k) ≡ a + b * 2 ^ k
bit_or_disjoint a b k l =
    (λ i. bit_or-bitwise a (b * 2 ^ k) i) ∙ digits_disjoint a a b k (omega arith) l
