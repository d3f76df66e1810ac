-- ===== src/Files.antt =====
-- The local file system as the code of offf-core sees it (`std::fs`, `std::path`): whole files
-- under paths. A path is its bytes, on Unix; two spellings of one path are two paths.
use openforensicfileformat.Prelude.{
  ℕ, Bool, true, false, Option, none, some, [], ◌∷◌, ◌++◌, ◌==◌, ◌≡◌, refl, arith, last?,
  if◌then◌else◌, ◌&&◌, leb, length, take, drop, ap, Bool-cases, inl, inr, ◌≢◌, ◌⊎◌,
}
use openforensicfileformat.Bytes.{Bytes, bytes_eq, bytes_eq_refl, bytes_eq→eq}
use openforensicfileformat.Outcome.{Result, ok, err, panic, io, ok_injective}
use openforensicfileformat.Hex.{at_char_boundary}

-- A file is there with its bytes, or is there and cannot be read.
pub data Entry : Type 0 where
  file : Bytes → Entry
  unreadable : Entry

-- How the environment lets a write to a path end: done; failed before the file is made; failed
-- after it is made, with these bytes in it.
pub data Fate : Type 0 where
  done : Fate
  fails : Fate
  tears : Bytes → Fate

pub record Files : Type 0 where
  pub at : Bytes → Option Entry
  pub fate : Bytes → Fate

-- `Path::exists`
unfoldable pub exists : Files → Bytes → Bool
exists fs p = elim (fs.at p) [ some e ↦ true | none ↦ false ]

content : Option Entry → Result Bytes
content (some (file b)) = ok b
content (some unreadable) = err io
content none = err io

-- `fs::read`
unfoldable pub read_file : Files → Bytes → Result Bytes
unfolding content
read_file fs p = content (fs.at p)

unfoldable pub put_file : Files → Bytes → Option Entry → Files
put_file fs p e = record fs { at = λ q. if bytes_eq p q then e else fs.at q }

write_by : Fate → Files → Bytes → Bytes → Bool × Files
write_by done fs p b = (true, put_file fs p (some (file b)))
write_by fails fs p b = (false, fs)
write_by (tears left) fs p b = (false, put_file fs p (some (file left)))

-- `fs::create_dir_all`, `File::create`, `write_all` and `sync_all`: `true` if all went well.
unfoldable pub write_file : Files → Bytes → Bytes → Bool × Files
unfolding write_by
write_file fs p b = write_by (fs.fate p) fs p b

rename_by : Fate → Files → Bytes → Bytes → Bool × Files
rename_by done fs p q = (true, put_file (put_file fs p none) q (fs.at p))
rename_by fails fs p q = (false, fs)
rename_by (tears left) fs p q = (false, fs)

-- `fs::rename`, which replaces its target at once or leaves everything as it is.
unfoldable pub rename_file : Files → Bytes → Bytes → Bool × Files
unfolding rename_by
rename_file fs p q = rename_by (fs.fate q) fs p q

-- `Path::join`
unfoldable pub join : Bytes → Bytes → Bytes
join p [] = elim (last? p) [ none ↦ p | some c ↦ if c == b'/' then p else p ++ (b'/' ∷ []) ]
join p (c ∷ s) = if c == b'/' then c ∷ s else elim (last? p) [
  | none ↦ c ∷ s
  | some d ↦ if d == b'/' then p ++ (c ∷ s) else p ++ (b'/' ∷ c ∷ s)
]

-- `str::strip_prefix(prefix).unwrap_or(s)`
unfoldable pub strip_prefix : Bytes → Bytes → Option Bytes
strip_prefix [] s = some s
strip_prefix (c ∷ p) [] = none
strip_prefix (c ∷ p) (d ∷ s) = let rest = strip_prefix p s in if c == d then rest else none

unfoldable pub strip_or_self : Bytes → Bytes → Bytes
strip_or_self p s = elim (strip_prefix p s) [ some t ↦ t | none ↦ s ]

-- `&s[a..b]` of a string, for `a <= b`: it panics past the end or inside a character.
unfoldable pub str_slice : Bytes → ℕ → ℕ → Result Bytes
str_slice s a b =
    if leb b (length s) && (at_char_boundary (drop a s) && at_char_boundary (drop b s))
    then ok (drop a (take b s))
    else panic

module _ (fs : Files) (p : Bytes) where
  pub at-put_file_self : (e : Option Entry) → (put_file fs p e).at p ≡ e
  unfolding put_file
  at-put_file_self e = ground (arith, bytes_eq_refl p)

  -- Only the file at `p` changes.
  pub at-put_file :
      (e : Option Entry) (q : Bytes)
      → (put_file fs p e).at q ≡ (if bytes_eq p q then e else fs.at q)
  unfolding put_file
  at-put_file e q = refl

  pub read_file_ok : (b : Bytes) → read_file fs p ≡ ok b → fs.at p ≡ some (file b)
  unfolding read_file
  read_file_ok b e = go (fs.at p) e
    where
      go : (o : Option Entry) → content o ≡ ok b → o ≡ some (file b)
      go none h = cc
      go (some unreadable) h = cc
      go (some (file c)) h = ap (λ t. some (file t)) (ok_injective h)

  pub write_file-true :
      (b : Bytes) → (write_file fs p b).0 ≡ true → (write_file fs p b).1.at p ≡ some (file b)
  unfolding write_file
  write_file-true b e = go (fs.fate p) e
    where
      go : (f : Fate) → (write_by f fs p b).0 ≡ true → (write_by f fs p b).1.at p ≡ some (file b)
      go done h = at-put_file_self (some (file b))
      go fails h = cc
      go (tears left) h = cc

  -- However a write ends, the files at other paths stay as they are.
  pub at-write_file_ne : (b q : Bytes) → p ≢ q → (write_file fs p b).1.at q ≡ fs.at q
  unfolding write_file put_file
  at-write_file_ne b q ne = go (fs.fate p)
    where
      apart : bytes_eq p q ≡ false
      apart = elim (Bool-cases (bytes_eq p q)) [
        | inl t ↦ absurd (ne (bytes_eq→eq p q t))
        | inr f ↦ f
      ]

      go : (f : Fate) → (write_by f fs p b).1.at q ≡ fs.at q
      go done = rw apart refl
      go fails = refl
      go (tears left) = rw apart refl

-- A rename that is done moves the file, one that fails leaves its target as it is.
module _ (fs : Files) (p q : Bytes) where
  pub rename_file_cases :
      (((rename_file fs p q).0 ≡ true) × ((rename_file fs p q).1.at q ≡ fs.at p))
      ⊎ (((rename_file fs p q).0 ≡ false) × ((rename_file fs p q).1.at q ≡ fs.at q))
  unfolding rename_file
  rename_file_cases = go (fs.fate q)
    where
      go :
          (f : Fate)
          → (((rename_by f fs p q).0 ≡ true) × ((rename_by f fs p q).1.at q ≡ fs.at p))
            ⊎ (((rename_by f fs p q).0 ≡ false) × ((rename_by f fs p q).1.at q ≡ fs.at q))
      go done = inl (refl, at-put_file_self (put_file fs p none) q (fs.at p))
      go fails = inr (refl, refl)
      go (tears left) = inr (refl, refl)
