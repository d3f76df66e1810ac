-- ===== src/Ntfs/Paths.antt =====
-- crates/offf-core/src/ntfs.rs, `build_paths`. `entries` are the keys of the map of records, in the
-- order in which the hash map gives them.
pub mod Growth
pub mod Placed
use openforensicfileformat.Prelude.{
  ℕ, zero, suc, ◌+◌, ◌==◌, if◌then◌else◌, length, Option, none, some, List, [], ◌∷◌, ◌++◌,
}
use openforensicfileformat.Bytes.{Bytes, codes}
use openforensicfileformat.Outcome.{Result, ok, stuck}
use openforensicfileformat.Maps.{lookup, insert}
use openforensicfileformat.Ntfs.{FileName, MftRecord}
use openforensicfileformat.Ntfs.Attributes.{best_file_name}

unfoldable pub root_mft : ℕ
root_mft = 5

abbrev pub backslash : Bytes
backslash = 92 ∷ []

unfoldable pub join_path : Bytes → Bytes → Bytes
join_path [] name = backslash ++ name
join_path (c ∷ parent_path) name = (c ∷ parent_path) ++ (backslash ++ name)

module _ (records : List (ℕ × MftRecord)) where
  -- The best name of an entry's record.
  unfoldable pub name_of : ℕ → Option FileName
  name_of entry = elim (lookup entry records) [
    | some rec ↦ best_file_name rec.file_names
    | none ↦ none
  ]

  unfoldable pub place_under : ℕ → List (ℕ × Bytes) → FileName → Option Bytes → List (ℕ × Bytes)
  place_under entry paths f none = paths
  place_under entry paths f (some parent_path) = insert entry (join_path parent_path f.name) paths

  unfoldable pub place_named : ℕ → List (ℕ × Bytes) → Option FileName → List (ℕ × Bytes)
  place_named entry paths none = paths
  place_named entry paths (some f) = place_under entry paths f (lookup f.parent_mft paths)

  unfoldable pub place : ℕ → List (ℕ × Bytes) → Option Bytes → List (ℕ × Bytes)
  place entry paths (some path) = paths
  place entry paths none = place_named entry paths (name_of entry)

  -- One round of the inner loop.
  unfoldable pub visit : ℕ → List (ℕ × Bytes) → List (ℕ × Bytes)
  visit entry paths = place entry paths (lookup entry paths)

  unfoldable pub visit_all : List ℕ → List (ℕ × Bytes) → List (ℕ × Bytes)
  visit_all [] paths = paths
  visit_all (entry ∷ entries) paths = visit_all entries (visit entry paths)

  unfoldable pub paths_loop : List ℕ → ℕ → ℕ → List (ℕ × Bytes) → Result (List (ℕ × Bytes))
  paths_loop entries zero prev_size paths = stuck
  paths_loop entries (suc fuel) prev_size paths =
      let paths' = visit_all entries paths in
      let again = paths_loop entries fuel (length paths') paths' in
      if length paths' == prev_size then ok paths' else again

  -- Each round but the last adds a path; the number of entries and three more rounds are enough.
  unfoldable pub build_paths : List ℕ → Result (List (ℕ × Bytes))
  build_paths entries = paths_loop entries (length entries + 3) 0 ((root_mft, []) ∷ [])
