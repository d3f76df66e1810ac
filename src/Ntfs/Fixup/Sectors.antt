-- ===== src/Ntfs/Fixup/Sectors.antt =====
-- crates/offf-core/src/ntfs.rs: what `apply_fixup` changes of a record, and what it has checked.
use openforensicfileformat.Prelude.{
  ℕ, zero, suc, ◌+◌, ◌-◌, ◌*◌, ◌/◌, ◌%◌, ◌≤◌, ◌<◌, ◌≡◌, ◌≢◌, refl, sym, ap, ◌∙◌, Bool, true, ◌||◌,
  ltb, ◌==◌, ==→eq, length, set, length-set, min, not, [], ◌∷◌, arith, Bool-cases, inl, inr,
}
use openforensicfileformat.Bytes.{Bytes}
use openforensicfileformat.Words.{byte_at, le16}
use openforensicfileformat.Ntfs.Fixup.{fixup_loop, apply_fixup}

byte_at-set : (xs : Bytes) (i v p : ℕ) → i ≢ p → byte_at (set xs i v) p ≡ byte_at xs p
unfolding byte_at
byte_at-set [] i v p h = refl
byte_at-set (x ∷ xs) zero v zero h = absurd (h refl)
byte_at-set (x ∷ xs) zero v (suc p) h = refl
byte_at-set (x ∷ xs) (suc i) v zero h = refl
byte_at-set (x ∷ xs) (suc i) v (suc p) h = byte_at-set xs i v p (λ e. h (ap suc e))

-- The two bytes at the end of a sector.
abbrev set_pair : Bytes → ℕ → ℕ → ℕ → Bytes
set_pair buf at a b = set (set buf at a) (at + 1) b

byte_at-set_pair :
    (buf : Bytes) (at a b p : ℕ)
    → at ≢ p
    → (at + 1) ≢ p
    → byte_at (set_pair buf at a b) p ≡ byte_at buf p
byte_at-set_pair buf at a b p h k =
    byte_at-set (set buf at a) (at + 1) b p k ∙ byte_at-set buf at a p h

length-set_pair : (buf : Bytes) (at a b : ℕ) → length (set_pair buf at a b) ≡ length buf
length-set_pair buf at a b = length-set (set buf at a) (at + 1) b ∙ length-set buf at a

-- From the sector `i` on: the length and the bytes that end no sector are kept, and where the fixup
-- was applied, each of the sectors ended in the update sequence number.
abbrev FixedFrom : ℕ → ℕ → ℕ → Bytes → Bool × Bytes → Type 0
FixedFrom usn i rounds buf out =
    (length out.1 ≡ length buf)
    × (((p : ℕ) → p % 512 < 510 → byte_at out.1 p ≡ byte_at buf p)
        × (out.0 ≡ true
            → (j : ℕ) → i ≤ j
            → j < i + rounds
            → (j + 1) * 512 ≤ length buf
            → le16 buf (j * 512 + 510) ≡ usn))

le16-set_pair :
    (buf : Bytes) (at a b p : ℕ) → at + 2 ≤ p → le16 (set_pair buf at a b) p ≡ le16 buf p
unfolding le16
le16-set_pair buf at a b p h =
    rw
      (
        byte_at-set_pair buf at a b p (λ e. omega arith) (λ e. omega arith),
        byte_at-set_pair buf at a b (p + 1) (λ e. omega arith) (λ e. omega arith),
      )
      refl

later_sectors :
    (usn rounds i a b : ℕ) (buf : Bytes) (out : Bool × Bytes)
    → le16 buf ((i + 1) * 512 - 2) ≡ usn
    → FixedFrom usn (i + 1) rounds (set_pair buf ((i + 1) * 512 - 2) a b) out
    → FixedFrom usn i (suc rounds) buf out
later_sectors usn rounds i a b buf out e (l, (keep, checked)) =
    let at = (i + 1) * 512 - 2 in
    let same = length-set_pair buf at a b in
    (
      l ∙ same,
      (
        (λ p h. keep p h ∙ byte_at-set_pair buf at a b p (λ q. omega arith) (λ q. omega arith)),
        λ t j h k m. elim (Bool-cases (i == j)) [
          | inl q ↦
              let same_number = ==→eq i j q in
              let place : j * 512 + 510 ≡ at = omega arith in rw place e
          | inr q ↦
              let further : i < j = ground arith in
              sym (le16-set_pair buf at a b (j * 512 + 510) (omega arith))
              ∙ checked t j (omega arith) (omega arith) (omega arith)
        ],
      ),
    )

fixup_loop-FixedFrom :
    (usa_offset usn rounds i : ℕ) (buf : Bytes)
    → FixedFrom usn i rounds buf (fixup_loop usa_offset usn rounds i buf)
unfolding fixup_loop
fixup_loop-FixedFrom usa_offset usn zero i buf =
    (refl, ((λ p h. refl), λ t j h k l. absurd (omega arith)))
fixup_loop-FixedFrom usa_offset usn (suc rounds) i buf =
    let at = (i + 1) * 512 - 2 in
    elim (Bool-cases (ltb (length buf) (at + 2))) [
      | inl t ↦ rw t (refl, ((λ p h. refl), λ t' j h k l. absurd (ground arith)))
      | inr f ↦ rw f (elim (Bool-cases (not (le16 buf at == usn))) [
        | inl t ↦ rw t (refl, ((λ p h. refl), λ t' j h k l. absurd (ground arith)))
        | inr g ↦ rw g (
            later_sectors usn rounds i (byte_at buf (usa_offset + 2 + i * 2))
              (byte_at buf (usa_offset + 2 + i * 2 + 1)) buf
              (fixup_loop usa_offset usn rounds (i + 1) _) (ground arith)
              (fixup_loop-FixedFrom usa_offset usn rounds (i + 1) (
                set_pair buf at (byte_at buf (usa_offset + 2 + i * 2))
                  (byte_at buf (usa_offset + 2 + i * 2 + 1)))))
      ])
    ]

sectors :
    (buf : Bytes)
    → FixedFrom
        (le16 buf (le16 buf 4))
        0
        (min (length buf / 512) (le16 buf 6 - 1))
        buf
        (apply_fixup buf)
unfolding apply_fixup
sectors buf = elim (Bool-cases (ltb (length buf) 8)) [
  | inl t ↦ rw t (refl, ((λ p h. refl), λ x. absurd (ground arith)))
  | inr f ↦
      rw f
        (elim (Bool-cases (ltb (le16 buf 6) 2 || ltb (length buf) (le16 buf 4 + le16 buf 6 * 2))) [
          | inl t ↦ rw t (refl, ((λ p h. refl), λ x. absurd (ground arith)))
          | inr g ↦ rw g (
              fixup_loop-FixedFrom (le16 buf 4) (le16 buf (le16 buf 4))
                (min (length buf / 512) (le16 buf 6 - 1)) 0 buf)
        ])
]

-- `apply_fixup` keeps the length of a record, and every byte that is not one of the last two of its
-- sector of 512 bytes.
pub apply_fixup_keeps :
    (buf : Bytes) (p : ℕ)
    → p % 512 < 510
    → (length (apply_fixup buf).1 ≡ length buf) × (byte_at (apply_fixup buf).1 p ≡ byte_at buf p)
apply_fixup_keeps buf p h = let (l, (keep, checked)) = sectors buf in (l, keep p h)

-- Where `apply_fixup` says that it was applied, each sector of the record that the update sequence
-- array covers had the update sequence number at its end.
pub apply_fixup_checked :
    (buf : Bytes) (j : ℕ)
    → (apply_fixup buf).0 ≡ true
    → j < min (length buf / 512) (le16 buf 6 - 1)
    → le16 buf (j * 512 + 510) ≡ le16 buf (le16 buf 4)
apply_fixup_checked buf j t h =
    let (l, (keep, checked)) = sectors buf in checked t j (omega arith) (omega arith) (omega arith)
