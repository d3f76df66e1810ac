-- ===== src/Ntfs/Runs/Encoding.antt =====
-- The encoding of data runs on disk, which crates/offf-core/src/ntfs.rs reads: numbers of `n` bytes,
-- lowest first, and the numbers that the loops of `parse_data_runs` make of them.
use native.Mathlib.Nat.{
  mod-eq_of_lt, div-eq_of_lt, add-mul-mod_self_left, add-mul-div_left, pow-suc, pow-le-pow_right,
  mul-le-mul_right,
}
use openforensicfileformat.Prelude.{
  ℕ, zero, suc, ◌+◌, ◌-◌, ◌*◌, ◌/◌, ◌%◌, ◌^◌, ◌≤◌, ◌<◌, ◌≡◌, ◌⊎◌, inl, inr, refl, sym, ap, ◌∙◌,
  arith, [], ◌∷◌, ◌++◌, length, append_assoc, get_elem?, some, length-append,
}
use openforensicfileformat.Bytes.{Bytes}
use openforensicfileformat.Words.{byte_at}
use openforensicfileformat.Words.Bits.{bit_or_disjoint}
use openforensicfileformat.Ntfs.Runs.{shl64, join_bytes, bit_is_set, sign_extend}

abbrev pub le_bytes : ℕ → ℕ → Bytes
le_bytes zero v = []
le_bytes (suc n) v = v % 256 ∷ le_bytes n (v / 256)

pub length-le_bytes : (n v : ℕ) → length (le_bytes n v) ≡ n
length-le_bytes zero v = refl
length-le_bytes (suc n) v = ap suc (length-le_bytes n (v / 256))

get_elem?-middle :
    (pre : Bytes) (b : ℕ) (post : Bytes) (i : ℕ)
    → i ≡ length pre
    → get_elem? (pre ++ (b ∷ post)) i ≡ some b
get_elem?-middle [] b post zero e = refl
get_elem?-middle [] b post (suc i) e = absurd (omega arith)
get_elem?-middle (x ∷ pre) b post zero e = absurd (omega arith)
get_elem?-middle (x ∷ pre) b post (suc i) e = get_elem?-middle pre b post i (omega arith)

byte_at-middle :
    (pre : Bytes) (b : ℕ) (post : Bytes) (i : ℕ)
    → i ≡ length pre
    → byte_at (pre ++ (b ∷ post)) i ≡ b
unfolding byte_at
byte_at-middle pre b post i e = rw (byte_at, get_elem?-middle pre b post i e) refl

-- The place value of byte `i`.
abbrev place : ℕ → ℕ
place i = 2 ^ (i * 8)

place_next : (i : ℕ) → place (i + 1) ≡ 256 * place i
place_next i =
    let n = i * 8 in
    let e : (i + 1) * 8 ≡ suc (suc (suc (suc (suc (suc (suc (suc n))))))) = omega arith in
    ap (λ t. 2 ^ t) e
    ∙ omega (
      arith,
      double n,
      double (suc n),
      double (suc (suc n)),
      double (suc (suc (suc n))),
      double (suc (suc (suc (suc n)))),
      double (suc (suc (suc (suc (suc n))))),
      double (suc (suc (suc (suc (suc (suc n)))))),
      double (suc (suc (suc (suc (suc (suc (suc n))))))),
    )
  where
    double : (k : ℕ) → 2 ^ suc k ≡ 2 ^ k * 2
    double k = pow-suc 2 k

shl64_byte :
    (b i : ℕ) → b < 256 → i < 8 → (shl64 b (i * 8) ≡ b * place i) × (b * place i ≤ 255 * place i)
unfolding shl64
shl64_byte b i h l =
    let e : i * 8 % 64 ≡ i * 8 = omega arith in
    let low : place i ≤ 2 ^ 56 =
      (let le : i * 8 ≤ 56 = omega arith in
        let pos : 0 < 2 = omega arith in pow-le-pow_right pos le) in
    let below : b * place i ≤ 255 * place i = mul-le-mul_right (place i) (omega arith) in
    (rw e (omega arith), below)

-- The loop that joins the bytes of a number gives the number.
pub join_bytes-le_bytes :
    (pre : Bytes) (n v : ℕ) (post buf : Bytes) (at i acc : ℕ)
    → buf ≡ pre ++ (le_bytes n v ++ post)
    → length pre ≡ at + i
    → i + n ≤ 8
    → v < place n
    → acc < place i
    → join_bytes buf at n i acc ≡ acc + v * place i
unfolding join_bytes
join_bytes-le_bytes pre zero v post buf at i acc e l h hv ha =
    let none_left : v ≡ 0 = omega arith in rw none_left (omega arith)
join_bytes-le_bytes pre (suc n) v post buf at i acc e l h hv ha =
    let b = v % 256 in
    let here : byte_at buf (at + i) ≡ b =
      ap (λ t. byte_at t (at + i)) e
      ∙ byte_at-middle pre b (le_bytes n (v / 256) ++ post) (at + i) (omega (arith, l)) in
    let (shifted, below) = shl64_byte b i (omega arith) (omega arith) in
    let joined = bit_or_disjoint acc b (i * 8) ha in
    let next = place_next i in
    let size = place_next n in
    let same : place (suc n) ≡ place (n + 1) = ap place (omega arith) in
    let e' : buf ≡ (pre ++ (b ∷ [])) ++ (le_bytes n (v / 256) ++ post) =
      e ∙ sym (append_assoc pre (b ∷ []) (le_bytes n (v / 256) ++ post)) in
    let rec =
      join_bytes-le_bytes (pre ++ (b ∷ [])) n (v / 256) post buf at (i + 1) (acc + b * place i) e'
        (omega (arith, length-append pre (b ∷ []))) (omega arith) (omega arith) (omega arith) in
    let whole : v ≡ v % 256 + v / 256 * 256 = omega arith in
    let value : v * place i ≡ b * place i + v / 256 * (256 * place i) =
      ap (λ t. t * place i) whole ∙ omega arith in
    rw (here, shifted, joined, rec, next) (omega (arith, value))

-- `delta` is an `i64` that fits in `n` bytes.
abbrev pub IsSigned : ℕ → ℕ → Type 0
IsSigned n delta =
    (delta < 2 ^ (n * 8 - 1)) ⊎ ((2 ^ 64 - 2 ^ (n * 8 - 1) ≤ delta) × (delta < 2 ^ 64))

-- With the powers given: `h` the value of the sign bit, `k` how often twice that fits into 2 ^ 64.
module _ (n h k : ℕ) (top : 2 ^ (n * 8 - 1) ≡ h) (size : 2 ^ (n * 8) ≡ 2 * h)
    (word : 2 ^ 64 ≡ 2 * h * suc k) (pos : 0 < h) (few : n * 8 < 64) where
  high_bits : shl64 (2 ^ 64 - 1) (n * 8) ≡ k * 2 ^ (n * 8)
  unfolding shl64
  high_bits = let shift : n * 8 % 64 ≡ n * 8 = omega arith in rw (shift, size) (omega arith)

  extend_positive : (delta : ℕ) → delta < h → sign_extend (delta % 2 ^ (n * 8)) n ≡ delta
  unfolding sign_extend bit_is_set
  extend_positive delta l =
      let low : delta % 2 ^ (n * 8) ≡ delta = mod-eq_of_lt (omega (arith, size)) in
      let shift : (n * 8 - 1) % 64 ≡ n * 8 - 1 = omega arith in
      let none_above : delta / h ≡ 0 = div-eq_of_lt l in rw (low, shift, top, none_above) refl

  extend_negative :
      (delta : ℕ)
      → 2 ^ 64 - h ≤ delta
      → delta < 2 ^ 64
      → sign_extend (delta % 2 ^ (n * 8)) n ≡ delta
  unfolding sign_extend bit_is_set
  extend_negative delta l m =
      let d = 2 ^ 64 - delta in
      let r = 2 * h - d in
      let parts : delta ≡ r + 2 * h * k = omega arith in
      let low : delta % (2 * h) ≡ r =
        ap (λ t. t % (2 * h)) parts
        ∙ add-mul-mod_self_left r (2 * h) k
        ∙ mod-eq_of_lt (omega arith) in
      let split : r ≡ h - d + h * 1 = omega arith in
      let one : r / h ≡ 1 =
        ap (λ t. t / h) split
        ∙ add-mul-div_left (h - d) 1 pos
        ∙ ap (λ t. t + 1) (div-eq_of_lt {m = h} (omega arith)) in
      let shift : (n * 8 - 1) % 64 ≡ n * 8 - 1 = omega arith in
      let sum = bit_or_disjoint r k (n * 8) (omega arith) in
      let low' : delta % 2 ^ (n * 8) ≡ r = ap (λ t. delta % t) size ∙ low in
      rw (low', shift, top, one, high_bits, sum, size) (omega arith)

  extend : (delta : ℕ) → IsSigned n delta → sign_extend (delta % 2 ^ (n * 8)) n ≡ delta
  extend delta (inl l) = extend_positive delta (omega (arith, top))
  extend delta (inr (l, m)) = extend_negative delta (omega (arith, top)) m

-- The lowest `n` bytes of a number that fits in them, sign-extended, are the number.
pub sign_extend_lem :
    (n delta : ℕ) → 1 ≤ n → n ≤ 7 → IsSigned n delta → sign_extend (delta % 2 ^ (n * 8)) n ≡ delta
sign_extend_lem zero delta h k s = absurd (omega arith)
sign_extend_lem (suc zero) delta _ _ s =
    extend 1 (2 ^ 7) (2 ^ 56 - 1) refl refl refl (omega arith) (omega arith) delta s
sign_extend_lem (suc (suc zero)) delta _ _ s =
    extend 2 (2 ^ 15) (2 ^ 48 - 1) refl refl refl (omega arith) (omega arith) delta s
sign_extend_lem (suc (suc (suc zero))) delta _ _ s =
    extend 3 (2 ^ 23) (2 ^ 40 - 1) refl refl refl (omega arith) (omega arith) delta s
sign_extend_lem (suc (suc (suc (suc zero)))) delta _ _ s =
    extend 4 (2 ^ 31) (2 ^ 32 - 1) refl refl refl (omega arith) (omega arith) delta s
sign_extend_lem (suc (suc (suc (suc (suc zero))))) delta _ _ s =
    extend 5 (2 ^ 39) (2 ^ 24 - 1) refl refl refl (omega arith) (omega arith) delta s
sign_extend_lem (suc (suc (suc (suc (suc (suc zero)))))) delta _ _ s =
    extend 6 (2 ^ 47) (2 ^ 16 - 1) refl refl refl (omega arith) (omega arith) delta s
sign_extend_lem (suc (suc (suc (suc (suc (suc (suc zero))))))) delta _ _ s =
    extend 7 (2 ^ 55) (2 ^ 8 - 1) refl refl refl (omega arith) (omega arith) delta s
sign_extend_lem (suc (suc (suc (suc (suc (suc (suc (suc n)))))))) delta h k s = absurd (omega arith)
