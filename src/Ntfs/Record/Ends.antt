-- ===== src/Ntfs/Record/Ends.antt =====
-- crates/offf-core/src/ntfs.rs: the ends of the loops that parse a record.
use openforensicfileformat.Prelude.{
  ℕ, zero, suc, ◌+◌, ◌≤◌, ◌<◌, Bool, true, false, ◌&&◌, ◌||◌, not, Option, none, some, List, arith,
  length, ltb, leb, ◌==◌, get_elem?, min, take, Bool-cases, inl, inr,
}
use openforensicfileformat.Bytes.{Bytes, codes, bytes_eq}
use openforensicfileformat.Outcome.{ok, panic}
use openforensicfileformat.Outcome.Ends.{Ends, >>=-Ends, if-Ends}
use openforensicfileformat.Words.{le16, le32}
use openforensicfileformat.Ntfs.{DataRun, DateTime, MftRecord, slice, index}
use openforensicfileformat.Ntfs.Runs.{parse_data_runs}
use openforensicfileformat.Ntfs.Runs.RoundTrip.{parse_data_runs_total}
use openforensicfileformat.Ntfs.Fixup.{apply_fixup}
use openforensicfileformat.Ntfs.Record.{
  value_end, runs_at, attribute_list, data_stream, named_stream, attribute, attribute_loop,
  parse_attributes, parse_mft_record, empty_record, max_ads_per_file,
}

pub slice-Ends : (d : Bytes) (a b : ℕ) → Ends (slice d a b)
unfolding slice
slice-Ends d a b = if-Ends (leb a b && leb b (length d)) _ _ tt tt

pub index-Ends : (d : Bytes) (i : ℕ) → Ends (index d i)
unfolding index
index-Ends d i = found (get_elem? d i)
  where
    found : (o : Option ℕ) → Ends (elim o [ some b ↦ ok b | none ↦ panic ])
    found (some b) = tt
    found none = tt

pub parse_data_runs-Ends : (buf : Bytes) → Ends (parse_data_runs buf)
parse_data_runs-Ends buf = let (runs, e, _) = parse_data_runs_total buf in rw e tt

runs_at-Ends :
    (d : Bytes) (end pos attr_len : ℕ) (before : List DataRun)
    → Ends (runs_at d end pos attr_len before)
unfolding runs_at
runs_at-Ends d end pos attr_len before =
    if-Ends (ltb (pos + le16 d (pos + 32)) end) _ _
      (>>=-Ends (slice d (pos + le16 d (pos + 32)) (pos + attr_len)) _ (slice-Ends d _ _)
        parse_data_runs-Ends)
      tt

attribute_list-Ends :
    (d : Bytes) (end pos attr_len : ℕ) (nr : Bool) (rec : MftRecord)
    → Ends (attribute_list d end pos attr_len nr rec)
unfolding attribute_list
attribute_list-Ends d end pos attr_len nr rec =
    if-Ends (not nr && leb (pos + 22) end) _ _
      (if-Ends (ltb 0 (le32 d (pos + 16)) && leb (value_end d pos) end) _ _ tt tt)
      (if-Ends (nr && leb (pos + 34) end) _ _
        (>>=-Ends (runs_at d end pos attr_len rec.attr_list_runs) _
          (runs_at-Ends d end pos attr_len rec.attr_list_runs) (λ runs. tt))
        tt)

data_stream-Ends :
    (d : Bytes) (end pos attr_len : ℕ) (nr : Bool) (rec : MftRecord)
    → Ends (data_stream d end pos attr_len nr rec)
unfolding data_stream
data_stream-Ends d end pos attr_len true rec =
    if-Ends (leb (pos + 64) end) _ _
      (>>=-Ends (runs_at d end pos attr_len rec.data_runs) _
        (runs_at-Ends d end pos attr_len rec.data_runs) (λ runs. tt))
      tt
data_stream-Ends d end pos attr_len false rec = if-Ends (leb (pos + 20) end) _ _ tt tt

named_stream-Ends :
    (d : Bytes) (end pos : ℕ) (nr : Bool) (chars : ℕ) (rec : MftRecord)
    → Ends (named_stream d end pos nr chars rec)
unfolding named_stream
named_stream-Ends d end pos nr chars rec =
    if-Ends (ltb (length rec.ads_streams) max_ads_per_file) _ _
      (>>=-Ends (slice d (pos + 10) (pos + 12)) _ (slice-Ends d (pos + 10) (pos + 12)) (λ off. tt))
      tt

module _ (timestamp_opt : ℕ → ℕ → Option DateTime) where
  attribute-Ends :
      (d : Bytes) (end pos attr_type attr_len : ℕ) (nr : Bool) (rec : MftRecord)
      → Ends (attribute timestamp_opt d end pos attr_type attr_len nr rec)
  unfolding attribute
  attribute-Ends d end pos attr_type attr_len nr rec =
      if-Ends ((attr_type == 0x10) && (not nr && leb (pos + 22) end)) _ _ tt (
        if-Ends (attr_type == 0x20) _ _ (attribute_list-Ends d end pos attr_len nr rec) (
          if-Ends ((attr_type == 0x30) && (not nr && leb (pos + 22) end)) _ _ tt (
            if-Ends (attr_type == 0x80) _ _
              (>>=-Ends (index d (pos + 9)) _ (index-Ends d (pos + 9)) (λ chars.
                if-Ends (chars == 0) _ _ (data_stream-Ends d end pos attr_len nr rec)
                  (named_stream-Ends d end pos nr chars rec)))
              tt)))

  -- A round goes on only at a later place that is still within the record.
  attribute_loop-Ends :
      (d : Bytes) (end fuel pos : ℕ) (rec : MftRecord)
      → 0 < fuel
      → end < fuel + pos
      → Ends (attribute_loop timestamp_opt d end fuel pos rec)
  unfolding attribute_loop
  attribute_loop-Ends d end zero pos rec h k = absurd (omega arith)
  attribute_loop-Ends d end (suc fuel) pos rec h k = if-Ends (ltb end (pos + 8)) _ _ tt (
      if-Ends (le32 d pos == 0xFFFF_FFFF) _ _ tt
        (elim (Bool-cases ((le32 d (pos + 4) == 0) || ltb end (pos + le32 d (pos + 4)))) [
          | inl t ↦ rw t tt
          | inr f ↦
              let (longer, inside) : (0 < le32 d (pos + 4)) × (pos + le32 d (pos + 4) ≤ end) =
                ground arith in
              rw f (
                >>=-Ends (index d (pos + 8)) _ (index-Ends d (pos + 8)) (λ flag.
                  >>=-Ends
                    (attribute timestamp_opt d end pos (le32 d pos) (le32 d (pos + 4))
                      (not (flag == 0)) rec)
                    _
                    (attribute-Ends d end pos (le32 d pos) (le32 d (pos + 4)) (not (flag == 0)) rec)
                    (λ rec'.
                      attribute_loop-Ends d end fuel (pos + le32 d (pos + 4)) rec' (omega arith)
                        (omega arith))))
        ]))

  -- `parse_mft_record` ends on every slice.
  pub parse_mft_record-Ends :
      (raw : Bytes) (record_size : ℕ) → Ends (parse_mft_record timestamp_opt raw record_size)
  unfolding parse_mft_record parse_attributes
  parse_mft_record-Ends raw record_size =
      let d = (apply_fixup (take record_size raw)).1 in
      if-Ends (ltb (length raw) record_size) _ _ tt (
        >>=-Ends (slice raw 0 4) _ (slice-Ends raw 0 4) (λ magic.
          if-Ends (not (bytes_eq magic (codes "FILE"))) _ _ tt (
            >>=-Ends (slice d 20 28) _ (slice-Ends d 20 28) (λ fields.
              >>=-Ends
                (attribute_loop timestamp_opt d (min (le32 fields 4) (length d)) (length d + 1)
                  (le16 fields 0) (record empty_record { flags = le16 fields 2 }))
                _
                (attribute_loop-Ends d (min (le32 fields 4) (length d)) (length d + 1)
                  (le16 fields 0) _ (omega arith) (omega arith))
                (λ rec. tt)))))
