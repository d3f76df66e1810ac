-- ===== src/Ntfs/AttrList/Refs.antt =====
-- crates/offf-core/src/ntfs.rs: the records that `parse_attr_list_mft_refs` finds.
use openforensicfileformat.Prelude.{
  ℕ, zero, suc, ◌<◌, ◌%◌, ◌^◌, ◌≡◌, ◌≢◌, refl, true, ◌&&◌, ◌||◌, not, ltb, leb, ◌==◌, ==→eq, length,
  List, [], ◌∷◌, drop, All, arith, Bool-cases, inl, inr,
}
use openforensicfileformat.Bytes.{Bytes}
use openforensicfileformat.Words.{le16, le64}
use openforensicfileformat.Maps.Sorting.{
  sort_by, dedup, Sorted, sort_by-Sorted, sort_by-All, leb_total,
}
use openforensicfileformat.Ntfs.AttrList.{
  max_attr_list_entries, attr_list_loop, parse_attr_list_mft_refs,
}

-- What `dedup` leaves of numbers in order rises.
abbrev Rising : List ℕ → Type 0
Rising = Sorted ltb

dedup_head : (x : ℕ) (xs : List ℕ) → (rest : List ℕ) × (dedup ◌==◌ (x ∷ xs) ≡ x ∷ rest)
unfolding dedup
dedup_head x [] = ([], refl)
dedup_head x (y ∷ ys) = elim (Bool-cases (x == y)) [
  | inl t ↦ let (rest, e) = dedup_head y ys in (rest, rw (t, e, ==→eq x y t) refl)
  | inr f ↦ (dedup ◌==◌ (y ∷ ys), rw f refl)
]

dedup-Rising : (xs : List ℕ) → Sorted leb xs → Rising (dedup ◌==◌ xs)
unfolding dedup
dedup-Rising [] s = tt
dedup-Rising (x ∷ []) s = tt
dedup-Rising (x ∷ y ∷ ys) (p, s) = elim (Bool-cases (x == y)) [
  | inl t ↦ rw t (dedup-Rising (y ∷ ys) s)
  | inr f ↦
      let (rest, e) = dedup_head y ys in
      let r = dedup-Rising (y ∷ ys) s in
      let q : ltb x y ≡ true = ground arith in rw (f, e) (q, (rw e at r))
]

dedup-All : (P : ℕ → Type 0) (xs : List ℕ) → All P xs → All P (dedup ◌==◌ xs)
unfolding dedup
dedup-All P [] h = tt
dedup-All P (x ∷ []) h = h
dedup-All P (x ∷ y ∷ ys) (p, h) = elim (Bool-cases (x == y)) [
  | inl t ↦ rw t (dedup-All P (y ∷ ys) h)
  | inr f ↦ rw f (p, dedup-All P (y ∷ ys) h)
]

-- An extension record: not the base, and behind the records that NTFS keeps for itself.
abbrev pub IsExtension : ℕ → ℕ → Type 0
IsExtension base_entry entry = (entry ≢ base_entry) × ((11 < entry) × (entry < 2 ^ 48))

attr_list_loop-All :
    (base_entry rounds : ℕ) (buf : Bytes)
    → All (IsExtension base_entry) (attr_list_loop base_entry rounds buf)
unfolding attr_list_loop
attr_list_loop-All base_entry zero buf = tt
attr_list_loop-All base_entry (suc rounds) buf = elim (Bool-cases (ltb (length buf) 26)) [
  | inl t ↦ rw t tt
  | inr f ↦ rw f (elim (Bool-cases (ltb (le16 buf 4) 26 || ltb (length buf) (le16 buf 4))) [
    | inl t ↦ rw t tt
    | inr f' ↦
        rw f'
          (elim (Bool-cases
            (not (le64 buf 16 % 2 ^ 48 == base_entry) && ltb 11 (le64 buf 16 % 2 ^ 48))) [
              | inl t ↦
                  let away : (le64 buf 16 % 2 ^ 48) ≢ base_entry = ground arith in
                  let high : 11 < le64 buf 16 % 2 ^ 48 = ground arith in
                  rw t (
                    (away, (high, omega arith)),
                    attr_list_loop-All base_entry rounds (drop (le16 buf 4) buf),
                  )
              | inr g ↦ rw g (attr_list_loop-All base_entry rounds (drop (le16 buf 4) buf))
            ])
  ])
]

-- The extension records of an attribute list come in rising order, each once, and are neither the
-- base record nor one of the records 0 to 11.
pub parse_attr_list_mft_refs-IsExtension :
    (buf : Bytes) (base_entry : ℕ)
    → Sorted ltb (parse_attr_list_mft_refs buf base_entry)
      × All (IsExtension base_entry) (parse_attr_list_mft_refs buf base_entry)
unfolding parse_attr_list_mft_refs
parse_attr_list_mft_refs-IsExtension buf base_entry =
    let found = attr_list_loop base_entry max_attr_list_entries buf in
    (
      dedup-Rising (sort_by leb found) (sort_by-Sorted leb (λ x y f. leb_total x y f) found),
      dedup-All (IsExtension base_entry) (sort_by leb found) (
          sort_by-All leb (IsExtension base_entry) found
            (attr_list_loop-All base_entry max_attr_list_entries buf)),
    )
