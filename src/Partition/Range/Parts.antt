-- ===== src/Partition/Range/Parts.antt =====
-- The part of a piece of the image that lies in a range, and the parts of pieces that lie one behind
-- the other.
use openforensicfileformat.Prelude.{
  ℕ, zero, suc, ◌+◌, ◌-◌, ◌<◌, ◌≤◌, min, ◌≡◌, refl, sym, ap, ◌∙◌, [], ◌∷◌, ◌++◌, length, take, drop,
  arith, Bool-cases, inl, inr, ◌⊎◌, ltb, patch, patch_nil, patch-patch, nil_of_length,
  take_append_split, drop_append_split, ltb→lt, ltb_false→le, length-take, length-drop, append-nil,
}
use openforensicfileformat.Bytes.{Bytes}

take-length-take : (n : ℕ) (xs : Bytes) → take (length (take n xs)) xs ≡ take n xs
take-length-take zero xs = refl
take-length-take (suc n) [] = refl
take-length-take (suc n) (x ∷ xs) = ap (◌∷◌ x) (take-length-take n xs)

-- What of a piece of the image that begins at `at` lies in a range.
abbrev pub part : ℕ → ℕ → ℕ → Bytes → Bytes
part offset len at piece = take (len - (at - offset)) (drop (offset - at) piece)

pub length-part :
    (offset len at : ℕ) (piece : Bytes)
    → length (part offset len at piece) ≡ min (len - (at - offset)) (length piece - (offset - at))
length-part offset len at piece = omega (
  arith,
  length-take (len - (at - offset)) (drop (offset - at) piece),
  length-drop (offset - at) piece,
)

-- Taking as many as there are gives the part itself.
pub take-part :
    (offset len at : ℕ) (piece : Bytes)
    → take (length (part offset len at piece)) (drop (offset - at) piece) ≡ part offset len at piece
take-part offset len at piece = take-length-take (len - (at - offset)) (drop (offset - at) piece)

pub part_append :
    (offset len at : ℕ) (p rest : Bytes)
    → part offset len at (p ++ rest) ≡ part offset len at p ++ part offset len (at + length p) rest
part_append offset len at p rest =
    let left : len - (at - offset) - (length p - (offset - at)) ≡ len - (at + length p - offset) =
      omega arith in
    let right : offset - at - length p ≡ offset - (at + length p) = omega arith in
    rw
      (
        drop_append_split (offset - at) p rest,
        take_append_split (len - (at - offset)) (drop (offset - at) p)
            (drop (offset - at - length p) rest),
        length-drop (offset - at) p,
        left,
        right,
      )
      refl

-- A second part that is not empty goes right behind the first.
pub join_parts :
    (at offset len : ℕ) (p rest result : Bytes)
    → at < offset + len
    → offset < at + length p
    → length result ≡ len
    → patch
        (patch result (at - offset) (part offset len at p))
        (at + length p - offset)
        (part offset len (at + length p) rest)
      ≡ patch result (at - offset) (part offset len at p ++ part offset len (at + length p) rest)
join_parts at offset len p rest result h₁ h₂ h₃ =
    let n = length-part offset len at p in
    let n' = length-part offset len (at + length p) rest in
    elim (Bool-cases (ltb (at + length p) (offset + len))) [
      | inl t ↦
          let lt = ltb→lt (at + length p) (offset + len) t in
          let place : at + length p - offset ≡ at - offset + length (part offset len at p) =
            omega arith in
          ap
            (λ k.
              patch (patch result (at - offset) (part offset len at p)) k
                (part offset len (at + length p) rest))
            place
          ∙ patch-patch result (at - offset) (part offset len at p)
              (part offset len (at + length p) rest) (omega arith)
      | inr f ↦
          let le = ltb_false→le (at + length p) (offset + len) f in
          let none_left = nil_of_length (part offset len (at + length p) rest) (omega arith) in
          rw (none_left, append-nil (part offset len at p)) (patch_nil _ _)
    ]

-- A chunk outside the range: where the next one begins makes no difference.
pub skip_part :
    (at offset len : ℕ) (p rest result : Bytes)
    → (offset + len ≤ at) ⊎ (at + length p ≤ offset)
    → patch result (at + length p - offset) (part offset len (at + length p) rest)
      ≡ patch result (at - offset) (part offset len (at + length p) rest)
skip_part at offset len p rest result (inl h) =
    let n' = length-part offset len (at + length p) rest in
    let none_left = nil_of_length (part offset len (at + length p) rest) (omega arith) in
    rw none_left (patch_nil result (at + length p - offset) ∙ sym (patch_nil result (at - offset)))
skip_part at offset len p rest result (inr h) =
    let same : at + length p - offset ≡ at - offset = omega arith in rw same refl

pub part_outside :
    (at offset len : ℕ) (p : Bytes)
    → (offset + len ≤ at) ⊎ (at + length p ≤ offset)
    → part offset len at p ≡ []
part_outside at offset len p (inl h) =
    let n = length-part offset len at p in nil_of_length _ (omega arith)
part_outside at offset len p (inr h) =
    let n = length-part offset len at p in nil_of_length _ (omega arith)
