-- ===== src/Ntfs/Index/Rising.antt =====
-- crates/offf-core/src/ntfs.rs: the rows of `index_ntfs`, each of one entry.
use openforensicfileformat.Prelude.{
  ℕ, ◌≡◌, ◌<◌, Bool, Option, List, [], ◌∷◌, map, arith, Option-cases, Bool-cases, inl, inr, subst,
  sym, ◌⊎◌, refl,
}
use openforensicfileformat.Bytes.{Bytes}
use openforensicfileformat.Outcome.{Result}
use openforensicfileformat.Maps.{lookup}
use openforensicfileformat.Maps.Sorting.{Sorted, insert_sorted, sort_by}
use openforensicfileformat.Chunk.{ChunkMetadata}
use openforensicfileformat.Ntfs.{DateTime, AdsEntry}
use openforensicfileformat.Ntfs.Resolve.{Records}
use openforensicfileformat.Ntfs.Index.{FileIndexRow, row_of, rows_of, by_file_id}
use openforensicfileformat.Ntfs.Index.Keys.{Lacks, AllDistinct}

abbrev pub file_ids : List FileIndexRow → List ℕ
file_ids rows = map (λ row. row.file_id) rows

-- Rows whose entry numbers rise from each to the next.
abbrev pub IsRising : List FileIndexRow → Type 0
IsRising [] = Unit {0}
IsRising (x ∷ []) = Unit {0}
IsRising (x ∷ y ∷ ys) = (x.file_id < y.file_id) × IsRising (y ∷ ys)

module _ (read : ChunkMetadata → Result Bytes) (timestamp_opt : ℕ → ℕ → Option DateTime)
    (iteration : List ℕ → List ℕ) (to_lowercase : Bytes → Bytes)
    (json_extents : List (ℕ × ℕ) → Bytes) (json_refs : List Bytes → Bytes)
    (json_streams : List AdsEntry → Bytes) (version : Bytes) where
  abbrev before : FileIndexRow → FileIndexRow → Bool
  before =
      by_file_id read timestamp_opt iteration to_lowercase json_extents json_refs json_streams
        version

  module _ (chunks : List ChunkMetadata) (vo bpc : ℕ) (partition_id filesystem_id tool_name : Bytes)
      (paths : List (ℕ × Bytes)) (records : Records) where
    abbrev rows_at : List ℕ → List FileIndexRow
    rows_at ids =
        rows_of read timestamp_opt iteration to_lowercase json_extents json_refs json_streams
          version chunks vo bpc partition_id filesystem_id tool_name paths records ids

    -- An entry gives one row of its number or none.
    rows_of_cases :
        (i : ℕ) (ids : List ℕ)
        → (rows_at (i ∷ ids) ≡ rows_at ids)
          ⊎ ((row : FileIndexRow) × (row.file_id ≡ i) × (rows_at (i ∷ ids) ≡ row ∷ rows_at ids))
    unfolding rows_of row_of
    rows_of_cases i ids = elim (Option-cases (lookup i records)) [
      | inl e ↦ inl (rw (rows_of, e) refl)
      | inr (rec, e) ↦ inr (
        row_of read timestamp_opt iteration to_lowercase json_extents json_refs json_streams version
            chunks vo bpc partition_id filesystem_id tool_name paths i rec,
        refl,
        rw (rows_of, e) refl,
      )
    ]

    Lacks-rows_of : (n : ℕ) (ids : List ℕ) → Lacks n ids → Lacks n (file_ids (rows_at ids))
    unfolding rows_of
    Lacks-rows_of n [] h = tt
    Lacks-rows_of n (i ∷ ids) (d, h) = elim (rows_of_cases i ids) [
      | inl e ↦ subst (λ t. Lacks n (file_ids t)) (sym e) (Lacks-rows_of n ids h)
      | inr (row, f, e) ↦
          subst (λ t. Lacks n (file_ids t)) (sym e)
            (subst (λ t. ¬ (n ≡ t)) (sym f) d, Lacks-rows_of n ids h)
    ]

    rows_of-AllDistinct : (ids : List ℕ) → AllDistinct ids → AllDistinct (file_ids (rows_at ids))
    unfolding rows_of
    rows_of-AllDistinct [] h = tt
    rows_of-AllDistinct (i ∷ ids) (d, h) = elim (rows_of_cases i ids) [
      | inl e ↦ subst (λ t. AllDistinct (file_ids t)) (sym e) (rows_of-AllDistinct ids h)
      | inr (row, f, e) ↦
          subst (λ t. AllDistinct (file_ids t)) (sym e)
            (
              subst (λ t. Lacks t (file_ids (rows_at ids))) (sym f) (Lacks-rows_of i ids d),
              rows_of-AllDistinct ids h,
            )
    ]

  Lacks-insert_sorted :
      (n : ℕ) (x : FileIndexRow) (xs : List FileIndexRow)
      → ¬ (n ≡ x.file_id)
      → Lacks n (file_ids xs)
      → Lacks n (file_ids (insert_sorted before x xs))
  unfolding insert_sorted
  Lacks-insert_sorted n x [] d h = (d, tt)
  Lacks-insert_sorted n x (y ∷ ys) d (e, h) = elim (Bool-cases (before x y)) [
    | inl t ↦ rw t (d, (e, h))
    | inr f ↦ rw f (e, Lacks-insert_sorted n x ys d h)
  ]

  AllDistinct-insert_sorted :
      (x : FileIndexRow) (xs : List FileIndexRow)
      → AllDistinct (file_ids (x ∷ xs))
      → AllDistinct (file_ids (insert_sorted before x xs))
  unfolding insert_sorted
  AllDistinct-insert_sorted x [] h = h
  AllDistinct-insert_sorted x (y ∷ ys) ((d, ds), (e, h)) = elim (Bool-cases (before x y)) [
    | inl t ↦ rw t ((d, ds), (e, h))
    | inr f ↦ rw f (
      Lacks-insert_sorted y.file_id x ys (λ q. d (sym q)) e,
      AllDistinct-insert_sorted x ys (ds, h),
    )
  ]

  Lacks-sort_by :
      (n : ℕ) (xs : List FileIndexRow)
      → Lacks n (file_ids xs)
      → Lacks n (file_ids (sort_by before xs))
  unfolding sort_by
  Lacks-sort_by n [] h = tt
  Lacks-sort_by n (x ∷ xs) (d, h) =
      Lacks-insert_sorted n x (sort_by before xs) d (Lacks-sort_by n xs h)

  AllDistinct-sort_by :
      (xs : List FileIndexRow)
      → AllDistinct (file_ids xs)
      → AllDistinct (file_ids (sort_by before xs))
  unfolding sort_by
  AllDistinct-sort_by [] h = tt
  AllDistinct-sort_by (x ∷ xs) (d, h) =
      AllDistinct-insert_sorted x (sort_by before xs)
        (Lacks-sort_by x.file_id xs d, AllDistinct-sort_by xs h)

  Sorted-IsRising :
      (rows : List FileIndexRow) → Sorted before rows → AllDistinct (file_ids rows) → IsRising rows
  Sorted-IsRising [] s h = tt
  Sorted-IsRising (x ∷ []) s h = tt
  Sorted-IsRising (x ∷ y ∷ ys) (p, s) ((d, ds), h) = (ground arith, Sorted-IsRising (y ∷ ys) s h)

  -- Sorted rows of distinct entries rise.
  pub rows_of-IsRising :
      (chunks : List ChunkMetadata) (vo bpc : ℕ) (partition_id filesystem_id tool_name : Bytes)
      (paths : List (ℕ × Bytes)) (records : Records) (ids : List ℕ)
      → AllDistinct ids
      → ((rows : List FileIndexRow) → Sorted before (sort_by before rows))
      → IsRising (
          sort_by before
            (rows_at chunks vo bpc partition_id filesystem_id tool_name paths records ids))
  rows_of-IsRising chunks vo bpc partition_id filesystem_id tool_name paths records ids h sorted =
      let found = rows_at chunks vo bpc partition_id filesystem_id tool_name paths records ids in
      Sorted-IsRising (sort_by before found) (sorted found) (
        AllDistinct-sort_by found (
          rows_of-AllDistinct chunks vo bpc partition_id filesystem_id tool_name paths records ids
            h))
