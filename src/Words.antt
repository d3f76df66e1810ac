-- ===== src/Words.antt =====
-- Machine integers and their texts, as the code computes with them in a release build: a `u64`
-- wraps around. Reading little-endian integers out of a byte slice.
pub mod Bits
pub mod Decimal
use openforensicfileformat.Prelude.{
  ℕ, zero, suc, ◌+◌, ◌-◌, ◌*◌, ◌/◌, ◌%◌, ◌^◌, Bool, ◌&&◌, none, some, List, [], ◌∷◌, ◌++◌, ltb, leb,
  if◌then◌else◌, get_elem?,
}
use openforensicfileformat.Bytes.{Bytes}
use openforensicfileformat.Hex.{hex_digit}

abbrev pub add64 : ℕ → ℕ → ℕ
add64 a b = (a + b) % 2 ^ 64

abbrev pub sub64 : ℕ → ℕ → ℕ
sub64 a b = (a + 2 ^ 64 - b) % 2 ^ 64

abbrev pub mul64 : ℕ → ℕ → ℕ
mul64 a b = a * b % 2 ^ 64

-- `d[i]`, at places where the code has made sure that `d` is long enough.
unfoldable pub byte_at : Bytes → ℕ → ℕ
byte_at d i = elim (get_elem? d i) [ some b ↦ b | none ↦ 0 ]

-- `u16::from_le_bytes`, `u32::from_le_bytes`, `u64::from_le_bytes` of the bytes from `i` on.
unfoldable pub le16 : Bytes → ℕ → ℕ
le16 d i = byte_at d i + byte_at d (i + 1) * 2 ^ 8

unfoldable pub le32 : Bytes → ℕ → ℕ
le32 d i = le16 d i + le16 d (i + 2) * 2 ^ 16

unfoldable pub le64 : Bytes → ℕ → ℕ
le64 d i = le32 d i + le32 d (i + 4) * 2 ^ 32

-- `format!("{}", n)`: `n + 1` rounds are more than the number has digits.
decimal_loop : ℕ → ℕ → Bytes
decimal_loop zero n = []
decimal_loop (suc fuel) n =
    let front = decimal_loop fuel (n / 10) in
    if ltb n 10 then (b'0' + n) ∷ [] else front ++ ((b'0' + n % 10) ∷ [])

unfoldable pub decimal : ℕ → Bytes
unfolding decimal_loop
decimal n = decimal_loop (n + 1) n

-- `format!("{:0kx}", n)` for a number of at most `k` digits.
unfoldable pub hex_padded : ℕ → ℕ → Bytes
hex_padded zero n = []
hex_padded (suc k) n = hex_padded k (n / 16) ++ (hex_digit (n % 16) ∷ [])

unfoldable pub upper_digit : ℕ → ℕ
upper_digit d = if ltb d 10 then b'0' + d else b'A' + (d - 10)

-- `format!("0x{:02X}", b)` without its prefix.
unfoldable pub hex_byte_upper : ℕ → Bytes
hex_byte_upper b = upper_digit (b / 16) ∷ upper_digit (b % 16) ∷ []

-- One code point in UTF-8.
unfoldable pub utf8 : ℕ → Bytes
utf8 c =
    if ltb c 0x80
    then c ∷ []
    else if ltb c 0x800
    then (0xC0 + c / 2 ^ 6) ∷ (0x80 + c % 2 ^ 6) ∷ []
    else if ltb c 0x10000
    then (0xE0 + c / 2 ^ 12) ∷ (0x80 + c / 2 ^ 6 % 2 ^ 6) ∷ (0x80 + c % 2 ^ 6) ∷ []
    else (0xF0 + c / 2 ^ 18)
      ∷ (0x80 + c / 2 ^ 12 % 2 ^ 6)
      ∷ (0x80 + c / 2 ^ 6 % 2 ^ 6)
      ∷ (0x80 + c % 2 ^ 6)
      ∷ []

is_high : ℕ → Bool
is_high u = leb 0xD800 u && ltb u 0xDC00

is_low : ℕ → Bool
is_low u = leb 0xDC00 u && ltb u 0xE000

-- A unit that stands alone: an unpaired surrogate becomes U+FFFD.
lone : ℕ → Bytes
lone u = if leb 0xD800 u && ltb u 0xE000 then utf8 0xFFFD else utf8 u

-- `String::from_utf16_lossy`
unfoldable pub from_utf16_lossy : List ℕ → Bytes
unfolding is_high is_low lone
from_utf16_lossy [] = []
from_utf16_lossy (u ∷ []) = lone u
from_utf16_lossy (u ∷ v ∷ rest) =
    let pair = utf8 (0x10000 + (u - 0xD800) * 2 ^ 10 + (v - 0xDC00)) ++ from_utf16_lossy rest in
    let single = lone u ++ from_utf16_lossy (v ∷ rest) in
    if is_high u && is_low v then pair else single

-- `chunks_exact(2).map(u16::from_le_bytes)`
unfoldable pub utf16_units : Bytes → List ℕ
utf16_units [] = []
utf16_units (a ∷ []) = []
utf16_units (a ∷ b ∷ rest) = (a + b * 2 ^ 8) ∷ utf16_units rest
