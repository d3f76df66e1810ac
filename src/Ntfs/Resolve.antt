-- ===== src/Ntfs/Resolve.antt =====
-- crates/offf-core/src/ntfs.rs, `index_ntfs`: the second pass, over the attribute lists.
use openforensicfileformat.Prelude.{
  ℕ, Bool, true, false, ◌&&◌, not, ltb, ◌==◌, if◌then◌else◌, length, none, some, List, [], ◌∷◌,
  ◌++◌,
}
use openforensicfileformat.Bytes.{Bytes, bytes_eq}
use openforensicfileformat.Maps.{lookup, insert}
use openforensicfileformat.Ntfs.{FileName, AdsEntry, MftRecord}
use openforensicfileformat.Ntfs.Record.{max_ads_per_file}
use openforensicfileformat.Ntfs.AttrList.{parse_attr_list_mft_refs}

abbrev pub Records : Type 0
Records = List (ℕ × MftRecord)

-- The streams of an extension record that the base record lacks, up to the limit.
unfoldable pub has_stream : Bytes → List AdsEntry → Bool
has_stream name [] = false
has_stream name (a ∷ rest) = if bytes_eq a.name name then true else has_stream name rest

unfoldable pub merge_streams : List AdsEntry → List AdsEntry → List AdsEntry
merge_streams base [] = base
merge_streams base (a ∷ rest) =
    merge_streams
      (if ltb (length base) max_ads_per_file && not (has_stream a.name base)
        then base ++ (a ∷ [])
        else base)
      rest

unfoldable pub has_name : FileName → List FileName → Bool
has_name f [] = false
has_name f (g ∷ rest) =
    if bytes_eq g.name f.name && (g.namespace == f.namespace) then true else has_name f rest

unfoldable pub merge_names : List FileName → List FileName → List FileName
merge_names base [] = base
merge_names base (f ∷ rest) = merge_names (if has_name f base then base else base ++ (f ∷ [])) rest

-- The streams and the names of the extension records.
unfoldable pub streams_of : Records → List ℕ → List AdsEntry
streams_of records [] = []
streams_of records (i ∷ ids) = elim (lookup i records) [
  | some ext ↦ ext.ads_streams ++ streams_of records ids
  | none ↦ streams_of records ids
]

unfoldable pub names_of : Records → List ℕ → List FileName
names_of records [] = []
names_of records (i ∷ ids) = elim (lookup i records) [
  | some ext ↦ ext.file_names ++ names_of records ids
  | none ↦ names_of records ids
]

-- One round of the loop over `work`.
unfoldable pub resolve_one : ℕ → Bytes → Records → Records
resolve_one base_id attr_list records =
    let refs = parse_attr_list_mft_refs attr_list base_id in
    elim (lookup base_id records) [
      | none ↦ records
      | some base ↦
          insert base_id
            (record base {
              ads_streams = merge_streams base.ads_streams (streams_of records refs);
              file_names = merge_names base.file_names (names_of records refs);
              has_attr_list = false;
            })
            records
    ]

unfoldable pub resolve_all : List (ℕ × Bytes) → Records → Records
resolve_all [] records = records
resolve_all ((base_id, attr_list) ∷ work) records =
    resolve_all work (resolve_one base_id attr_list records)
