-- ===== src/Hex.antt =====
-- crates/offf-core/src/hash.rs, `hex_to_bytes32` and `hex_from_bytes32`: 32-byte digests as
-- strings of hexadecimal digits. A string is the list of its UTF-8 bytes.
pub mod RoundTrip
use openforensicfileformat.Prelude.{
  ℕ, zero, suc, ◌+◌, ◌-◌, ◌*◌, ◌/◌, ◌%◌, Bool, true, false, not, ◌&&◌, ◌||◌, Option, none, some,
  List, [], ◌∷◌, ltb, leb, ◌==◌, if◌then◌else◌, length,
}
use openforensicfileformat.Bytes.{Bytes}
use openforensicfileformat.Outcome.{
  Result, ok, err, panic, invalid_merkle_tree, ◌>>=◌, ◌>>◌, ensure,
}

-- The value of a digit, as `char::to_digit(16)` gives it.
unfoldable pub hex_value : ℕ → Option ℕ
hex_value c =
    if leb b'0' c && leb c b'9'
    then some (c - b'0')
    else if leb b'a' c && leb c b'f'
    then some (c - b'a' + 10)
    else if leb b'A' c && leb c b'F'
    then some (c - b'A' + 10)
    else none

-- Two digits, the higher first.
two_digits : Option ℕ → Option ℕ → Option ℕ
two_digits (some h) (some l) = some (h * 16 + l)
two_digits (some h) none = none
two_digits none l = none

-- `u8::from_str_radix(s, 16)` on a string of two bytes, which may begin with a plus sign.
unfoldable pub from_str_radix16 : ℕ → ℕ → Option ℕ
unfolding two_digits
from_str_radix16 a b = if a == b'+' then hex_value b else two_digits (hex_value a) (hex_value b)

-- `str::is_char_boundary` at the place where the rest `s` of a string begins: a slice of a string
-- that starts or ends inside a character panics.
unfoldable pub at_char_boundary : Bytes → Bool
at_char_boundary [] = true
at_char_boundary (c ∷ s) = ltb c 0x80 || leb 0xC0 c

or_invalid : Option ℕ → Result ℕ
or_invalid (some v) = ok v
or_invalid none = err invalid_merkle_tree

sliced : Bool → Result (Unit {0})
sliced true = ok tt
sliced false = panic

-- The loop of `hex_to_bytes32` over the pairs of bytes that are left.
unfoldable pub decode_pairs : Bytes → Result Bytes
unfolding or_invalid sliced
decode_pairs [] = ok []
decode_pairs (a ∷ []) = panic
decode_pairs (a ∷ b ∷ rest) = do
  sliced (at_char_boundary (a ∷ b ∷ rest) && at_char_boundary rest)
  v ← or_invalid (from_str_radix16 a b)
  vs ← decode_pairs rest
  ok (v ∷ vs)

unfoldable pub hex_to_bytes32 : Bytes → Result Bytes
hex_to_bytes32 hex = do ensure (length hex == 64) invalid_merkle_tree; decode_pairs hex

-- The lower-case digit of a value below 16.
unfoldable pub hex_digit : ℕ → ℕ
hex_digit d = if ltb d 10 then b'0' + d else b'a' + (d - 10)

-- `format!("{x:02x}")` of each byte.
unfoldable pub hex_from_bytes32 : Bytes → Bytes
hex_from_bytes32 [] = []
hex_from_bytes32 (x ∷ xs) = hex_digit (x / 16) ∷ hex_digit (x % 16) ∷ hex_from_bytes32 xs
