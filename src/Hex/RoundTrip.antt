-- ===== src/Hex/RoundTrip.antt =====
-- Decoding what was encoded, and what a decoded digest looks like.
use openforensicfileformat.Prelude.{
  ℕ, zero, suc, ◌*◌, ◌/◌, ◌%◌, ◌<◌, ◌≡◌, refl, Bool, true, false, ◌&&◌, Option, some, none,
  if◌then◌else◌, subst, [], ◌∷◌, length, All, arith, eq→==, ◌==◌,
}
use openforensicfileformat.Bytes.{Bytes, IsByte}
use openforensicfileformat.Outcome.{Result, ok, err, panic, ◌>>=◌, stuck, ◌>>◌, ok_injective}
use openforensicfileformat.Hex.{
  hex_value, from_str_radix16, at_char_boundary, decode_pairs, hex_to_bytes32, hex_digit,
  hex_from_bytes32, two_digits, or_invalid, sliced,
}

-- A digest: 32 bytes.
pub record IsDigest (d : Bytes) : Type 0 where
  pub width : length d ≡ 32
  pub bytes : All IsByte d

hex_value-hex_digit : (d : ℕ) → d < 16 → hex_value (hex_digit d) ≡ some d
unfolding hex_value hex_digit
hex_value-hex_digit d h = ground arith

hex_digit-ne-plus : (d : ℕ) → d < 16 → (hex_digit d == b'+') ≡ false
unfolding hex_digit
hex_digit-ne-plus d h = ground arith

pub hex_digit-ascii : (d : ℕ) → d < 16 → hex_digit d < 0x80
unfolding hex_digit
hex_digit-ascii d h = ground arith

from_str_radix16-hex_digit :
    (x : ℕ) → x < 256 → from_str_radix16 (hex_digit (x / 16)) (hex_digit (x % 16)) ≡ some x
unfolding from_str_radix16
from_str_radix16-hex_digit x h =
    ground (
      arith,
      hex_value-hex_digit (x / 16),
      hex_value-hex_digit (x % 16),
      hex_digit-ne-plus (x / 16),
    )

pub at_char_boundary-hex_from_bytes32 :
    (xs : Bytes) → All IsByte xs → at_char_boundary (hex_from_bytes32 xs) ≡ true
unfolding at_char_boundary hex_from_bytes32
at_char_boundary-hex_from_bytes32 [] h = refl
at_char_boundary-hex_from_bytes32 (x ∷ xs) (h, hs) = ground (arith, hex_digit-ascii (x / 16))

pub length-hex_from_bytes32 : (xs : Bytes) → length (hex_from_bytes32 xs) ≡ 2 * length xs
unfolding hex_from_bytes32
length-hex_from_bytes32 [] = refl
length-hex_from_bytes32 (x ∷ xs) = omega (arith, length-hex_from_bytes32 xs)

decode_pairs-hex_from_bytes32 :
    (xs : Bytes) → All IsByte xs → decode_pairs (hex_from_bytes32 xs) ≡ ok xs
unfolding decode_pairs hex_from_bytes32
decode_pairs-hex_from_bytes32 [] h = refl
decode_pairs-hex_from_bytes32 (x ∷ xs) (h, hs) = ground (
  arith,
  from_str_radix16-hex_digit x h,
  at_char_boundary-hex_from_bytes32 xs hs,
  at_char_boundary-hex_from_bytes32 (x ∷ xs) (h, hs),
  decode_pairs-hex_from_bytes32 xs hs,
)

-- A digest is read back from its hexadecimal text.
pub hex_to_bytes32-hex_from_bytes32 :
    (d : Bytes) → IsDigest d → hex_to_bytes32 (hex_from_bytes32 d) ≡ ok d
unfolding hex_to_bytes32
hex_to_bytes32-hex_from_bytes32 d h = rw (
  eq→== (length (hex_from_bytes32 d)) 64 (omega (arith, length-hex_from_bytes32 d, h.width)),
  decode_pairs-hex_from_bytes32 d h.bytes,
)

hex_value-lt : (c v : ℕ) → hex_value c ≡ some v → v < 16
unfolding hex_value
hex_value-lt c v h = ground arith

from_str_radix16-lt : (a b v : ℕ) → from_str_radix16 a b ≡ some v → v < 256
unfolding from_str_radix16
from_str_radix16-lt a b v h = go (hex_value a) (hex_value b) refl refl h
  where
    go :
        (x y : Option ℕ)
        → hex_value a ≡ x
        → hex_value b ≡ y
        → (if a == b'+' then y else two_digits x y) ≡ some v
        → v < 256
    go none none p q e = ground arith
    go none (some l) p q e = ground (arith, hex_value-lt b l q)
    go (some k) none p q e = ground arith
    go (some k) (some l) p q e = ground (arith, hex_value-lt a k p, hex_value-lt b l q)

-- One round of the loop, turned round.
round_ok :
    (o : Bool) (r : Option ℕ) (rest : Result Bytes) (d : Bytes)
    → (sliced o >> (or_invalid r >>= λ v. rest >>= λ vs. ok (v ∷ vs))) ≡ ok d
    → (v : ℕ) × (vs : Bytes) × (r ≡ some v) × (rest ≡ ok vs) × (v ∷ vs ≡ d)
unfolding sliced or_invalid
round_ok false r rest d e = cc
round_ok true none rest d e = cc
round_ok true (some v) (ok vs) d e = (v, vs, refl, refl, ok_injective e)
round_ok true (some v) (err x) d e = cc
round_ok true (some v) panic d e = cc
round_ok true (some v) stuck d e = cc

-- What a successful conversion returns.
decode_pairs-IsByte :
    (n : ℕ) (s d : Bytes) → length s ≡ 2 * n → decode_pairs s ≡ ok d → (length d ≡ n) × All IsByte d
unfolding decode_pairs
decode_pairs-IsByte n [] d l e =
    subst (λ t. (length t ≡ n) × All IsByte t) (ok_injective e) (omega arith, tt)
decode_pairs-IsByte n (a ∷ []) d l e = cc
decode_pairs-IsByte zero (a ∷ b ∷ rest) d l e = absurd (omega arith)
decode_pairs-IsByte (suc n) (a ∷ b ∷ rest) d l e =
    let (v, vs, p, q, r) =
      round_ok (at_char_boundary (a ∷ b ∷ rest) && at_char_boundary rest) (from_str_radix16 a b)
        (decode_pairs rest) d e in
    let l' : length rest ≡ 2 * n = omega (arith, l) in
    let (w, bs) = decode_pairs-IsByte n rest vs l' q in
    subst (λ t. (length t ≡ suc n) × All IsByte t) r
      (omega (arith, w), (from_str_radix16-lt a b v p, bs))

pub hex_to_bytes32-IsDigest : (s d : Bytes) → hex_to_bytes32 s ≡ ok d → IsDigest d
unfolding hex_to_bytes32
hex_to_bytes32-IsDigest s d e =
    let (w, bs) = decode_pairs-IsByte 32 s d (ground arith) (ground arith) in
    record { width = w; bytes = bs }
