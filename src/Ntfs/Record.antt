-- ===== src/Ntfs/Record.antt =====
-- crates/offf-core/src/ntfs.rs, `parse_mft_record`. A byte or a slice that the code does not test for
-- is read by `index` and `slice`, which panic out of range.
pub mod Ends
use openforensicfileformat.Prelude.{
  ℕ, zero, suc, ◌+◌, ◌*◌, ◌/◌, ◌%◌, ◌^◌, Bool, true, false, ◌&&◌, ◌||◌, not, ltb, leb, ◌==◌,
  if◌then◌else◌, length, take, drop, min, Option, none, some, List, [], ◌∷◌, ◌++◌,
}
use openforensicfileformat.Bytes.{Bytes, codes, bytes_eq}
use openforensicfileformat.Outcome.{Result, ok, err, panic, stuck, ◌>>=◌}
use openforensicfileformat.Words.{byte_at, le16, le32, le64, utf16_units, from_utf16_lossy}
use openforensicfileformat.Partition.Volume.{range}
use openforensicfileformat.Ntfs.{
  DataRun, DateTime, StdInfo, FileName, AdsEntry, MftRecord, slice, index,
}
use openforensicfileformat.Ntfs.Runs.{parse_data_runs}
use openforensicfileformat.Ntfs.Fixup.{apply_fixup}
use openforensicfileformat.Ntfs.Attributes.{parse_std_info, parse_file_name, best_file_name}

abbrev pub empty_record : MftRecord
empty_record = record {
  flags = 0;
  std_info = none;
  file_names = [];
  data_size = 0;
  data_runs = [];
  ads_streams = [];
  is_sparse = false;
  is_compressed = false;
  is_encrypted = false;
  has_attr_list = false;
  attr_list_resident = none;
  attr_list_runs = [];
  parse_error = none;
}

unfoldable pub max_ads_per_file : ℕ
max_ads_per_file = 64

-- Where the value of a resident attribute begins and ends.
abbrev pub value_start : Bytes → ℕ → ℕ
value_start d pos = pos + le16 d (pos + 20)

abbrev pub value_end : Bytes → ℕ → ℕ
value_end d pos = value_start d pos + le32 d (pos + 16)

-- `attributes & 2 ^ n != 0`
abbrev has_bit : ℕ → ℕ → Bool
has_bit attributes n = attributes / 2 ^ n % 2 == 1

-- What is stored of the value of a $STANDARD_INFORMATION: the flags only if it can be parsed.
unfoldable pub with_std_info : Option StdInfo → MftRecord → MftRecord
with_std_info none rec = record rec { std_info = none }
with_std_info (some si) rec = record rec {
  std_info = some si;
  is_sparse = has_bit si.file_attributes 9;
  is_compressed = has_bit si.file_attributes 11;
  is_encrypted = has_bit si.file_attributes 14;
}

unfoldable pub with_file_name : Option FileName → MftRecord → MftRecord
with_file_name none rec = rec
with_file_name (some f) rec = record rec { file_names = rec.file_names ++ (f ∷ []) }

-- The runs of a non-resident attribute, if their place lies in the record.
unfoldable pub runs_at : Bytes → ℕ → ℕ → ℕ → List DataRun → Result (List DataRun)
runs_at d end pos attr_len before =
    let read = (do
      bytes ← slice d (pos + le16 d (pos + 32)) (pos + attr_len)
      parse_data_runs bytes) in
    if ltb (pos + le16 d (pos + 32)) end then read else ok before

unfoldable pub attribute_list : Bytes → ℕ → ℕ → ℕ → Bool → MftRecord → Result MftRecord
attribute_list d end pos attr_len non_resident rec =
    let found = record rec { has_attr_list = true } in
    let away = (do
      runs ← runs_at d end pos attr_len rec.attr_list_runs
      ok (record found { attr_list_runs = runs })) in
    if not non_resident && leb (pos + 22) end
    then (if ltb 0 (le32 d (pos + 16)) && leb (value_end d pos) end
        then ok (record found {
          attr_list_resident = some (range d (value_start d pos) (value_end d pos));
        })
        else ok found)
    else if non_resident && leb (pos + 34) end
    then away
    else ok found

-- The unnamed $DATA.
unfoldable pub data_stream : Bytes → ℕ → ℕ → ℕ → Bool → MftRecord → Result MftRecord
data_stream d end pos attr_len true rec =
    let away = (do
      runs ← runs_at d end pos attr_len rec.data_runs
      ok (record rec { data_size = le64 d (pos + 56); data_runs = runs })) in
    if leb (pos + 64) end then away else ok rec
data_stream d end pos attr_len false rec =
    if leb (pos + 20) end then ok (record rec { data_size = le32 d (pos + 16) }) else ok rec

unfoldable pub stream_size : Bytes → ℕ → ℕ → Bool → ℕ
stream_size d end pos true = if leb (pos + 0x38 + 8) end then le64 d (pos + 0x30) else 0
stream_size d end pos false = if leb (pos + 20) end then le32 d (pos + 16) else 0

-- A named $DATA, with a name of `chars` units.
unfoldable pub named_stream : Bytes → ℕ → ℕ → Bool → ℕ → MftRecord → Result MftRecord
named_stream d end pos non_resident chars rec =
    let keep = (do
      off ← slice d (pos + 10) (pos + 12)
      let from = pos + le16 off 0
      let to = from + min chars 256 * 2
      ok (
          if leb to end
          then record rec {
            ads_streams =
                rec.ads_streams
                ++ (record {
                  name = from_utf16_lossy (utf16_units (range d from to));
                  size = stream_size d end pos non_resident;
                }
                    ∷ []);
          }
          else rec)) in
    if ltb (length rec.ads_streams) max_ads_per_file then keep else ok rec

module _ (timestamp_opt : ℕ → ℕ → Option DateTime) where
  -- One attribute of the type `attr_type`.
  unfoldable pub attribute : Bytes → ℕ → ℕ → ℕ → ℕ → Bool → MftRecord → Result MftRecord
  attribute d end pos attr_type attr_len non_resident rec =
      let resident = not non_resident && leb (pos + 22) end in
      let value = range d (value_start d pos) (value_end d pos) in
      let stream = (do
        chars ← index d (pos + 9)
        if chars == 0
            then data_stream d end pos attr_len non_resident rec
            else named_stream d end pos non_resident chars rec) in
      if (attr_type == 0x10) && resident
      then ok (
          if leb (value_end d pos) end
          then with_std_info (parse_std_info timestamp_opt value) rec
          else rec)
      else if attr_type == 0x20
      then attribute_list d end pos attr_len non_resident rec
      else if (attr_type == 0x30) && resident
      then ok
          (if leb (value_end d pos) end then with_file_name (parse_file_name value) rec else rec)
      else if attr_type == 0x80
      then stream
      else ok rec

  -- The loop over the attributes from `pos` on.
  unfoldable pub attribute_loop : Bytes → ℕ → ℕ → ℕ → MftRecord → Result MftRecord
  attribute_loop d end zero pos rec = stuck
  attribute_loop d end (suc fuel) pos rec =
      let attr_type = le32 d pos in
      let attr_len = le32 d (pos + 4) in
      let next = (do
        flag ← index d (pos + 8)
        rec' ← attribute d end pos attr_type attr_len (not (flag == 0)) rec
        attribute_loop d end fuel (pos + attr_len) rec') in
      if ltb end (pos + 8)
      then ok rec
      else if attr_type == 0xFFFF_FFFF
      then ok rec
      else if (attr_len == 0) || ltb end (pos + attr_len)
      then ok rec
      else next

  -- The size of a file without $DATA is that of its name.
  unfoldable pub with_name_size : MftRecord → Option FileName → MftRecord
  with_name_size rec none = rec
  with_name_size rec (some f) =
      if (rec.data_size == 0) && ((rec.flags / 2 % 2 == 0) && ltb 0 f.real_size)
      then record rec { data_size = f.real_size }
      else rec

  -- Behind the tests of the signature, on the buffer after the fixup.
  unfoldable pub parse_attributes : Bytes → Result MftRecord
  parse_attributes d = do
    fields ← slice d 20 28
    let end = min (le32 fields 4) (length d)
    rec ←
        attribute_loop d end (length d + 1) (le16 fields 0)
          (record empty_record { flags = le16 fields 2 })
    ok (with_name_size rec (best_file_name rec.file_names))

  unfoldable pub parse_mft_record : Bytes → ℕ → Result MftRecord
  parse_mft_record raw record_size =
      let bad = record empty_record { parse_error = some (codes "not a valid FILE record") } in
      let rest = (do
        magic ← slice raw 0 4
        if not (bytes_eq magic (codes "FILE"))
            then ok bad
            else parse_attributes (apply_fixup (take record_size raw)).1) in
      if ltb (length raw) record_size then ok bad else rest
