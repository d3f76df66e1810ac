-- ===== src/Ntfs/Runs/RoundTrip.antt =====
-- crates/offf-core/src/ntfs.rs: `parse_data_runs` on the encoding of runs, and its end.
use native.Mathlib.Nat.{one-le-pow, mod-lt}
use openforensicfileformat.Prelude.{
  ℕ, zero, suc, ◌+◌, ◌*◌, ◌/◌, ◌%◌, ◌^◌, ◌≤◌, ◌<◌, ◌≡◌, refl, sym, ap, ◌∙◌, Bool, true, false, ◌||◌,
  arith, List, [], ◌∷◌, ◌++◌, All, length, append_assoc, ◌==◌, ltb, drop, drop-append,
  length-append, length-drop, if◌then◌else◌,
}
use openforensicfileformat.Bytes.{Bytes}
use openforensicfileformat.Outcome.{Result, ok, ◌>>=◌}
use openforensicfileformat.Words.{add64}
use openforensicfileformat.Ntfs.{DataRun}
use openforensicfileformat.Ntfs.Runs.{join_bytes, sign_extend, no_lcn, runs_loop, parse_data_runs}
use openforensicfileformat.Ntfs.Runs.Encoding.{
  le_bytes, length-le_bytes, join_bytes-le_bytes, IsSigned, sign_extend_lem,
}

-- A run as it is meant: its cluster count in `len_len` bytes, and unless it is sparse, the distance
-- to the run before, an `i64`, in `off_len` bytes.
pub data RunSpec : Type 0 where
  allocated : ℕ → ℕ → ℕ → ℕ → RunSpec
  sparse : ℕ → ℕ → RunSpec

abbrev pub IsRunSpec : RunSpec → Type 0
IsRunSpec (allocated len_len off_len count delta) =
    (1 ≤ len_len)
    × ((len_len ≤ 8)
        × ((count < 2 ^ (len_len * 8))
            × ((1 ≤ off_len) × ((off_len ≤ 7) × IsSigned off_len delta))))
IsRunSpec (sparse len_len count) = (1 ≤ len_len) × ((len_len ≤ 8) × (count < 2 ^ (len_len * 8)))

abbrev pub encode : List RunSpec → Bytes
encode [] = 0 ∷ []
encode (allocated len_len off_len count delta ∷ specs) =
    (off_len * 16 + len_len)
    ∷ (le_bytes len_len count ++ (le_bytes off_len (delta % 2 ^ (off_len * 8)) ++ encode specs))
encode (sparse len_len count ∷ specs) = len_len ∷ (le_bytes len_len count ++ encode specs)

-- The runs that are meant, each with its own first cluster, when the run before began at `lcn`.
abbrev pub decoded : ℕ → List RunSpec → List DataRun
decoded lcn [] = []
decoded lcn (allocated len_len off_len count delta ∷ specs) =
    record { lcn_start = add64 lcn delta; cluster_count = count } ∷ decoded (add64 lcn delta) specs
decoded lcn (sparse len_len count ∷ specs) =
    record { lcn_start = no_lcn; cluster_count = count } ∷ decoded lcn specs

-- A number at the front of what is read.
front_number :
    (n v : ℕ) (more : Bytes)
    → n ≤ 8
    → v < 2 ^ (n * 8)
    → join_bytes (le_bytes n v ++ more) 0 n 0 0 ≡ v
front_number n v more h k =
    join_bytes-le_bytes [] n v more _ 0 0 0 refl refl (omega arith) k (omega arith) ∙ omega arith

second_number :
    (m w n v : ℕ) (more : Bytes)
    → n ≤ 8
    → v < 2 ^ (n * 8)
    → join_bytes (le_bytes m w ++ (le_bytes n v ++ more)) m n 0 0 ≡ v
second_number m w n v more h k =
    join_bytes-le_bytes (le_bytes m w) n v more _ m 0 0 refl (omega (arith, length-le_bytes m w))
      (omega arith) k (omega arith)
    ∙ omega arith

-- One round of the loop, at a header with the two lengths `n` and `o`.
round_sparse :
    (fuel lcn header n : ℕ) (body : Bytes)
    → header % 16 ≡ n
    → header / 16 % 16 ≡ 0
    → 0 < n
    → n ≤ length body
    → runs_loop (suc fuel) lcn (header ∷ body) ≡ (
        runs_loop fuel lcn (drop n body) >>= λ rest.
        ok (record { lcn_start = no_lcn; cluster_count = join_bytes body 0 n 0 0 } ∷ rest))
unfolding runs_loop
round_sparse fuel lcn header n body e₁ e₂ h k =
    let go : (header == 0) ≡ false = ground arith in
    let some_count : (n == 0) ≡ false = ground arith in
    let fits : ltb (length body) (n + 0) ≡ false = ground arith in
    rw (go, e₁, e₂, some_count, fits) refl

round_allocated :
    (fuel lcn header n o : ℕ) (body : Bytes)
    → header % 16 ≡ n
    → header / 16 % 16 ≡ o
    → 0 < n
    → 0 < o
    → n + o ≤ length body
    → runs_loop (suc fuel) lcn (header ∷ body) ≡ (
        runs_loop fuel (add64 lcn (sign_extend (join_bytes body n o 0 0) o)) (drop (n + o) body)
        >>= λ rest. ok (
            record {
              lcn_start = add64 lcn (sign_extend (join_bytes body n o 0 0) o);
              cluster_count = join_bytes body 0 n 0 0;
            }
            ∷ rest))
unfolding runs_loop
round_allocated fuel lcn header n o body e₁ e₂ h h' k =
    let go : (header == 0) ≡ false = ground arith in
    let some_count : (n == 0) ≡ false = ground arith in
    let some_offset : (o == 0) ≡ false = ground arith in
    let fits : ltb (length body) (n + o) ≡ false = ground arith in
    rw (go, e₁, e₂, some_count, some_offset, fits) refl

runs_loop-encode :
    (specs : List RunSpec) (fuel lcn : ℕ) (rest : Bytes)
    → All IsRunSpec specs
    → length (encode specs ++ rest) < fuel
    → runs_loop fuel lcn (encode specs ++ rest) ≡ ok (decoded lcn specs)
unfolding runs_loop
runs_loop-encode specs zero lcn rest h k = absurd (omega arith)
runs_loop-encode [] (suc fuel) lcn rest h k = refl
runs_loop-encode (sparse n count ∷ specs) (suc fuel) lcn rest ((h₁, (h₂, h₃)), hs) k =
    let more = encode specs ++ rest in
    let body = le_bytes n count ++ more in
    let assoc : (le_bytes n count ++ encode specs) ++ rest ≡ body =
      append_assoc (le_bytes n count) (encode specs) rest in
    let size = length-append (le_bytes n count) more in
    let width = length-le_bytes n count in
    let size' = ap length assoc in
    let left = drop-append n (le_bytes n count) more width in
    let number = front_number n count more h₂ h₃ in
    let rec = runs_loop-encode specs fuel lcn rest hs (omega arith) in
    ap (λ t. runs_loop (suc fuel) lcn (n ∷ t)) assoc
    ∙ round_sparse fuel lcn n n body (omega arith) (omega arith) h₁ (omega arith)
    ∙ rw (left, number, rec) refl
runs_loop-encode (allocated n o count delta ∷ specs) (suc fuel) lcn rest
      ((h₁, (h₂, (h₃, (h₄, (h₅, h₆))))), hs) k =
    let more = encode specs ++ rest in
    let d = le_bytes o (delta % 2 ^ (o * 8)) in
    let body = le_bytes n count ++ (d ++ more) in
    let assoc : (le_bytes n count ++ (d ++ encode specs)) ++ rest ≡ body =
      append_assoc (le_bytes n count) (d ++ encode specs) rest
      ∙ ap (λ t. le_bytes n count ++ t) (append_assoc d (encode specs) rest) in
    let size = length-append (le_bytes n count) (d ++ more) in
    let size₂ = length-append d more in
    let width = length-le_bytes n count in
    let width₂ = length-le_bytes o (delta % 2 ^ (o * 8)) in
    let size' = ap length assoc in
    let both = length-append (le_bytes n count) d in
    let left : drop (n + o) body ≡ more =
      ap (drop (n + o)) (sym (append_assoc (le_bytes n count) d more))
      ∙ drop-append (n + o) (le_bytes n count ++ d) more (omega arith) in
    let number = front_number n count (d ++ more) h₂ h₃ in
    let fits : delta % 2 ^ (o * 8) < 2 ^ (o * 8) =
      mod-lt delta (one-le-pow (o * 8) 2 (omega arith)) in
    let distance = second_number n count o (delta % 2 ^ (o * 8)) more (omega arith) fits in
    let signed = sign_extend_lem o delta h₄ h₅ h₆ in
    let rec = runs_loop-encode specs fuel (add64 lcn delta) rest hs (omega arith) in
    ap (λ t. runs_loop (suc fuel) lcn ((o * 16 + n) ∷ t)) assoc
    ∙ round_allocated fuel lcn (o * 16 + n) n o body (omega arith) (omega arith) h₁ h₄ (omega arith)
    ∙ rw (left, number, distance, signed, rec) refl

-- The runs that a volume encodes, each with the distance to the one before, are read back, whatever
-- follows them in the buffer.
pub parse_data_runs-encode :
    (specs : List RunSpec) (rest : Bytes)
    → All IsRunSpec specs
    → parse_data_runs (encode specs ++ rest) ≡ ok (decoded 0 specs)
unfolding parse_data_runs
parse_data_runs-encode specs rest h =
    runs_loop-encode specs (length (encode specs ++ rest) + 1) 0 rest h (omega arith)

-- A run takes two bytes at least.
abbrev pub Few : ℕ → Result (List DataRun) → Type 0
Few n r = (runs : List DataRun) × (r ≡ ok runs) × (2 * length runs ≤ n)

Few-more :
    (n m : ℕ) (run : DataRun) (r : Result (List DataRun))
    → n + 2 ≤ m
    → Few n r
    → Few m (r >>= λ rest. ok (run ∷ rest))
Few-more n m run r h (runs, e, l) = (run ∷ runs, rw e refl, omega arith)

Few-of :
    (n : ℕ) (a b : Bool) (x : Result (List DataRun))
    → (a ≡ false → b ≡ false → Few n x)
    → Few n (if a then ok [] else if b then ok [] else x)
Few-of n true b x h = ([], refl, omega arith)
Few-of n false true x h = ([], refl, omega arith)
Few-of n false false x h = h refl refl

Few-if :
    (n : ℕ) (b : Bool) (x y : Result (List DataRun))
    → (b ≡ true → Few n x)
    → Few n y
    → Few n (if b then x else y)
Few-if n true x y h k = h refl
Few-if n false x y h k = k

-- `runs_loop` has fuel enough.
runs_loop_total :
    (fuel lcn : ℕ) (buf : Bytes) → length buf < fuel → Few (length buf) (runs_loop fuel lcn buf)
unfolding runs_loop
runs_loop_total zero lcn buf h = absurd (omega arith)
runs_loop_total (suc fuel) lcn [] h = ([], refl, omega arith)
runs_loop_total (suc fuel) lcn (header ∷ buf) h =
    let n = header % 16 in
    let o = header / 16 % 16 in
    Few-of (suc (length buf)) (header == 0) ((n == 0) || ltb (length buf) (n + o)) _ (λ _ fits.
      let (long, all) : (1 ≤ n) × (n + o ≤ length buf) = ground arith in
      Few-if (suc (length buf)) (o == 0) _ _
        (λ _.
          Few-more (length (drop n buf)) _ _ _ (omega (arith, length-drop n buf))
            (runs_loop_total fuel lcn (drop n buf) (omega (arith, length-drop n buf))))
        (Few-more (length (drop (n + o) buf)) _ _ _ (omega (arith, length-drop (n + o) buf)) (
          runs_loop_total fuel (add64 lcn (sign_extend (join_bytes buf n o 0 0) o))
            (drop (n + o) buf) (omega (arith, length-drop (n + o) buf)))))

-- `parse_data_runs` ends on every buffer, with at most one run for two bytes.
pub parse_data_runs_total :
    (buf : Bytes)
    → (runs : List DataRun) × (parse_data_runs buf ≡ ok runs) × (2 * length runs ≤ length buf)
unfolding parse_data_runs
parse_data_runs_total buf = runs_loop_total (length buf + 1) 0 buf (omega arith)
