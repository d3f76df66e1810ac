-- ===== src/Ntfs/Index/Keys.antt =====
-- crates/offf-core/src/ntfs.rs: the entry numbers that are the keys of the maps of `index_ntfs`.
use openforensicfileformat.Prelude.{
  ℕ, zero, suc, ◌+◌, ◌*◌, ◌≡◌, not, ◌==◌, Option, none, some, List, [], ◌∷◌, All, arith, Bool-cases,
  inl, inr, subst, false,
}
use openforensicfileformat.Bytes.{Bytes, bytes_eq, codes}
use openforensicfileformat.Outcome.{Result, ok, ok_injective, ok_of_bind}
use openforensicfileformat.Maps.{lookup, insert, keys}
use openforensicfileformat.Chunk.{ChunkMetadata}
use openforensicfileformat.Ntfs.{DateTime, MftRecord, slice}
use openforensicfileformat.Ntfs.Record.{parse_mft_record}
use openforensicfileformat.Ntfs.AttrList.{parse_attr_list_mft_refs}
use openforensicfileformat.Ntfs.Resolve.{
  Records, merge_streams, merge_names, streams_of, names_of, resolve_one, resolve_all,
}
use openforensicfileformat.Ntfs.Index.{parse_records}

-- A number that a list lacks.
abbrev pub Lacks : ℕ → List ℕ → Type 0
Lacks n ids = All (λ i. ¬ (n ≡ i)) ids

-- No number comes twice.
abbrev pub AllDistinct : List ℕ → Type 0
AllDistinct [] = Unit {0}
AllDistinct (i ∷ ids) = Lacks i ids × AllDistinct ids

module _ {A : Type 0} where
  Lacks-insert :
      (n k : ℕ) (a : A) (m : List (ℕ × A))
      → ¬ (n ≡ k)
      → Lacks n (keys m)
      → Lacks n (keys (insert k a m))
  unfolding insert
  Lacks-insert n k a [] d h = (d, tt)
  Lacks-insert n k a ((j, b) ∷ m) d (e, h) = elim (Bool-cases (j == k)) [
    | inl t ↦ rw t (e, h)
    | inr f ↦ rw f (e, Lacks-insert n k a m d h)
  ]

  AllDistinct-insert :
      (k : ℕ) (a : A) (m : List (ℕ × A)) → AllDistinct (keys m) → AllDistinct (keys (insert k a m))
  unfolding insert
  AllDistinct-insert k a [] h = (tt, tt)
  AllDistinct-insert k a ((j, b) ∷ m) (e, h) = elim (Bool-cases (j == k)) [
    | inl t ↦ rw t (e, h)
    | inr f ↦
        let d : ¬ (j ≡ k) = ground arith in
        rw f (Lacks-insert j k a m d e, AllDistinct-insert k a m h)
  ]

resolve_one-AllDistinct :
    (base_id : ℕ) (attr_list : Bytes) (records : Records)
    → AllDistinct (keys records)
    → AllDistinct (keys (resolve_one base_id attr_list records))
unfolding resolve_one
resolve_one-AllDistinct base_id attr_list records h = step (lookup base_id records)
  where
    step :
        (o : Option MftRecord)
        → AllDistinct (
            keys (elim o [
              | none ↦ records
              | some base ↦
                  insert base_id
                    (record base {
                      ads_streams =
                          merge_streams base.ads_streams
                            (streams_of records (parse_attr_list_mft_refs attr_list base_id));
                      file_names =
                          merge_names base.file_names
                            (names_of records (parse_attr_list_mft_refs attr_list base_id));
                      has_attr_list = false;
                    })
                    records
            ]))
    step none = h
    step (some base) = AllDistinct-insert base_id _ records h

pub resolve_all-AllDistinct :
    (work : List (ℕ × Bytes)) (records : Records)
    → AllDistinct (keys records)
    → AllDistinct (keys (resolve_all work records))
unfolding resolve_all
resolve_all-AllDistinct [] records h = h
resolve_all-AllDistinct ((base_id, attr_list) ∷ work) records h =
    resolve_all-AllDistinct work (resolve_one base_id attr_list records)
      (resolve_one-AllDistinct base_id attr_list records h)

module _ (read : ChunkMetadata → Result Bytes) (timestamp_opt : ℕ → ℕ → Option DateTime)
    (iteration : List ℕ → List ℕ) where
  pub parse_records-AllDistinct :
      (rec_size count i : ℕ) (table : Bytes) (records out : Records)
      → parse_records read timestamp_opt iteration rec_size count i table records ≡ ok out
      → AllDistinct (keys records)
      → AllDistinct (keys out)
  unfolding parse_records
  parse_records-AllDistinct rec_size zero i table records out e h =
      subst (λ t. AllDistinct (keys t)) (ok_injective e) h
  parse_records-AllDistinct rec_size (suc count) i table records out e h =
      let (bytes, _, e₁) = ok_of_bind (slice table (i * rec_size) ((i + 1) * rec_size)) _ e in
      let (magic, _, e₂) = ok_of_bind (slice bytes 0 4) _ e₁ in
      elim (Bool-cases (not (bytes_eq magic (codes "FILE")))) [
        | inl t ↦ parse_records-AllDistinct rec_size count (i + 1) table records out (rw t at e₂) h
        | inr f ↦
            let (rec, _, e₃) =
              ok_of_bind (parse_mft_record timestamp_opt bytes rec_size) _ (rw f at e₂) in
            parse_records-AllDistinct rec_size count (i + 1) table (insert i rec records) out e₃
              (AllDistinct-insert i rec records h)
      ]
