-- ===== src/Evidence/Stored.antt =====
-- crates/offf-core/src/evidence.rs: what a write leaves under the path of an object.
use openforensicfileformat.Prelude.{
  ℕ, ◌≡◌, ◌≢◌, refl, sym, ap, ◌∙◌, subst, ◌⊎◌, Bool, true, false, length, take, Option, none, some,
  [], ◌∷◌, ◌++◌, some_injective, length-append, length-take, ◌+◌, ◌/◌, ◌<◌, ◌==◌, arith, Bool-cases,
  inl, inr,
}
use openforensicfileformat.Bytes.{Bytes, codes, bytes_eq, bytes_eq→eq, bytes_eq_refl}
use openforensicfileformat.Outcome.{
  Result, ok, err, panic, stuck, io, ok_of_bind, ensure-eq-ok, ok_injective,
}
use openforensicfileformat.Hex.{hex_from_bytes32, hex_digit}
use openforensicfileformat.Hex.RoundTrip.{IsDigest}
use openforensicfileformat.Files.{
  strip_or_self, strip_prefix, Files, Entry, file, exists, read_file, write_file, rename_file,
  write_file-true, at-write_file_ne, rename_file_cases,
}
use openforensicfileformat.Merkle.Binding.{IsClash, same_digest, hex_from_bytes32_injective}
use openforensicfileformat.Merkle.Level.{GivesDigests}
use openforensicfileformat.Scope.{last_dot}
use openforensicfileformat.Chunk.{hex_sha256}
use openforensicfileformat.Evidence.{
  with_extension, evidence_object_path, read_evidence_object, verify_evidence_object, renamed,
  written, write_at, write_evidence_object,
}

-- A path with that file or as it was.
abbrev WholeOrSame : Files → Bytes → Bytes → Files → Type 0
WholeOrSame fs path content fs' = (fs'.at path ≡ fs.at path) ⊎ (fs'.at path ≡ some (file content))

last_dot-append : (xs : Bytes) → last_dot (xs ++ codes ".bin.tmp") ≡ some (length xs + 4)
unfolding last_dot
last_dot-append [] = refl
last_dot-append (x ∷ xs) = rw (last_dot-append xs) (ap some (omega arith))

-- A digest in hexadecimal has no prefix.
strip_hex :
    (bs : Bytes)
    → IsDigest bs
    → strip_or_self (codes "sha256:") (hex_from_bytes32 bs) ≡ hex_from_bytes32 bs
unfolding strip_or_self strip_prefix hex_from_bytes32 hex_digit
strip_hex [] d = refl
strip_hex (b ∷ bs) d =
    let small : b < 256 = d.bytes.0 in
    let other : (115 == hex_digit (b / 16)) ≡ false = ground arith in rw (strip_or_self, other) refl

-- The temporary file has a path of its own.
with_extension_ne : (path : Bytes) → with_extension path (codes "bin.tmp") ≢ path
unfolding with_extension
with_extension_ne path e = go (last_dot path) refl e
  where
    go :
        (o : Option ℕ)
        → last_dot path ≡ o
        → (elim o [ some n ↦ take n path ++ codes ".bin.tmp" | none ↦ path ++ codes ".bin.tmp" ])
          ≡ path
        → ⊥
    go none q h = omega (arith, ap length h, length-append path (codes ".bin.tmp"))
    go (some n) q h =
        let d = some_injective (sym (last_dot-append (take n path)) ∙ ap last_dot h ∙ q) in
        omega
          (arith, ap length h, length-append (take n path) (codes ".bin.tmp"), length-take n path)

module _ (sha256 : Bytes → Bytes) where
  renamed_cases :
      (hex : Bytes) (r : Bool × Files) (moved stayed : Option Entry) (path : Bytes)
      {x y : Option Entry}
      → ((r.0 ≡ true) × (r.1.at path ≡ moved)) ⊎ ((r.0 ≡ false) × (r.1.at path ≡ stayed))
      → moved ≡ x
      → stayed ≡ y
      → (((renamed sha256 hex r).0 ≡ ok hex) × ((renamed sha256 hex r).1.at path ≡ x))
        ⊎ (((renamed sha256 hex r).0 ≡ err io) × ((renamed sha256 hex r).1.at path ≡ y))
  unfolding renamed
  renamed_cases hex (true, fs) moved stayed path (inl (e, a)) h k = inl (refl, a ∙ h)
  renamed_cases hex (true, fs) moved stayed path (inr (e, a)) h k = cc
  renamed_cases hex (false, fs) moved stayed path (inl (e, a)) h k = cc
  renamed_cases hex (false, fs) moved stayed path (inr (e, a)) h k = inr (refl, a ∙ k)

  -- The steps on a path where no file is.
  written_cases :
      (fs : Files) (hex path content : Bytes)
      → let out =
          written sha256 hex path (write_file fs (with_extension path (codes "bin.tmp")) content) in
        ((out.0 ≡ ok hex) × (out.1.at path ≡ some (file content)))
        ⊎ ((out.0 ≡ err io) × (out.1.at path ≡ fs.at path))
  unfolding written
  written_cases fs hex path content =
      let tmp = with_extension path (codes "bin.tmp") in
      go (write_file fs tmp content) (write_file-true fs tmp content)
        (at-write_file_ne fs tmp content path (with_extension_ne path))
    where
      go :
          (w : Bool × Files)
          → (w.0 ≡ true → w.1.at (with_extension path (codes "bin.tmp")) ≡ some (file content))
          → w.1.at path ≡ fs.at path
          → (((written sha256 hex path w).0 ≡ ok hex)
              × ((written sha256 hex path w).1.at path ≡ some (file content)))
            ⊎ (((written sha256 hex path w).0 ≡ err io)
                × ((written sha256 hex path w).1.at path ≡ fs.at path))
      go (false, fs') h k = inr (refl, k)
      go (true, fs') h k =
          renamed_cases hex (rename_file fs' (with_extension path (codes "bin.tmp")) path)
            (fs'.at (with_extension path (codes "bin.tmp"))) (fs'.at path) path
            (rename_file_cases fs' (with_extension path (codes "bin.tmp")) path) (h refl) k

  -- However a write ends, torn writes and failed renames included, the path of the object holds the
  -- whole content or what it held before.
  pub write_evidence_object_whole :
      (fs : Files) (base content path : Bytes)
      → evidence_object_path base (hex_sha256 sha256 content) ≡ ok path
      → ((write_evidence_object sha256 fs base content).1.at path ≡ fs.at path)
        ⊎ ((write_evidence_object sha256 fs base content).1.at path ≡ some (file content))
  unfolding write_evidence_object write_at
  write_evidence_object_whole fs base content path e = rw e (elim (Bool-cases (exists fs path)) [
    | inl t ↦ rw t (inl refl)
    | inr f ↦ rw f (elim (written_cases fs (hex_sha256 sha256 content) path content) [
      | inl (q, a) ↦ inr a
      | inr (q, a) ↦ inl a
    ])
  ])

  -- A read gives the content, or other bytes with its digest.
  abbrev pub IsReadBack : Result Bytes → Bytes → Type 0
  IsReadBack r content =
      (r ≡ ok content) ⊎ ((other : Bytes) × (r ≡ ok other) × IsClash sha256 other content)

  module _ (digests : GivesDigests sha256) where
    -- An object that is read is the one that its name tells, or has its digest.
    same_content :
        (fs : Files) (base content found : Bytes)
        → read_evidence_object sha256 fs base (hex_sha256 sha256 content) ≡ ok found
        → (found ≡ content) ⊎ IsClash sha256 found content
    unfolding read_evidence_object hex_sha256
    same_content fs base content found h =
        let hex = hex_sha256 sha256 content in
        let (path, e, h₁) = ok_of_bind (evidence_object_path base hex) _ h in
        let (bytes, r, h₂) = ok_of_bind (read_file fs path) _ h₁ in
        let (t, h₃) =
          ensure-eq-ok (bytes_eq (hex_sha256 sha256 bytes) (strip_or_self (codes "sha256:") hex)) _
            _ h₂ in
        let same =
          bytes_eq→eq (hex_sha256 sha256 bytes) (strip_or_self (codes "sha256:") hex) t
          ∙ strip_hex (sha256 content) (digests content) in
        let e' : bytes ≡ found = ok_injective h₃ in
        elim (same_digest sha256 bytes content
          (hex_from_bytes32_injective _ _ (digests bytes) (digests content) same)) [
            | inl p ↦ inl (sym e' ∙ p)
            | inr c ↦ inr (subst (λ b. IsClash sha256 b content) e' c)
          ]

    read_new :
        (fs : Files) (base content path : Bytes)
        → evidence_object_path base (hex_sha256 sha256 content) ≡ ok path
        → fs.at path ≡ some (file content)
        → read_evidence_object sha256 fs base (hex_sha256 sha256 content) ≡ ok content
    unfolding read_evidence_object read_file hex_sha256
    read_new fs base content path e a =
        rw
          (
            e,
            a,
            strip_hex (sha256 content) (digests content),
            bytes_eq_refl (hex_sha256 sha256 content),
          )
          refl

    -- The two ways of a write that succeeds.
    read_back :
        (fs : Files) (base content hex path : Bytes)
        → evidence_object_path base (hex_sha256 sha256 content) ≡ ok path
        → (write_at sha256 fs base content (ok path)).0 ≡ ok hex
        → (hex_sha256 sha256 content ≡ hex)
          × IsReadBack
              (read_evidence_object sha256
                (write_at sha256 fs base content (ok path)).1
                base
                (hex_sha256 sha256 content))
              content
    unfolding write_at verify_evidence_object
    read_back fs base content hex path e k = elim (Bool-cases (exists fs path)) [
      | inl t ↦
          let (u, v, named) =
            ok_of_bind (verify_evidence_object sha256 fs base (hex_sha256 sha256 content)) _
              (rw t at k) in
          let (found, r, done') =
            ok_of_bind (read_evidence_object sha256 fs base (hex_sha256 sha256 content)) _ v in
          rw t (
            ok_injective named,
            elim (same_content fs base content found r) [
              | inl p ↦ inl (r ∙ ap ok p)
              | inr c ↦ inr (found, r, c)
            ],
          )
      | inr f ↦ elim (written_cases fs (hex_sha256 sha256 content) path content) [
        | inl (q, a) ↦
            let k' = rw f at k in
            let named : hex_sha256 sha256 content ≡ hex = ok_injective (sym q ∙ k') in
            rw f (
              named,
              inl (
                  read_new
                    (written sha256 (hex_sha256 sha256 content) path
                      (write_file fs (with_extension path (codes "bin.tmp")) content)).1
                    base content path e a),
            )
        | inr (q, a) ↦ absurd (let k' = rw f at k in cc)
      ]
    ]

    -- A successful write, of a new object or of one that was there, returns the digest of the content
    -- in hexadecimal, and by that name the content is read back, or other bytes with its digest.
    pub read_evidence_object-write_evidence_object :
        (fs : Files) (base content hex : Bytes)
        → (write_evidence_object sha256 fs base content).0 ≡ ok hex
        → (hex ≡ hex_from_bytes32 (sha256 content))
          × IsReadBack
              (read_evidence_object sha256
                (write_evidence_object sha256 fs base content).1
                base
                hex)
              content
    unfolding write_evidence_object hex_sha256
    read_evidence_object-write_evidence_object fs base content hex h =
        go (evidence_object_path base (hex_sha256 sha256 content)) refl h
      where
        go :
            (r : Result Bytes)
            → evidence_object_path base (hex_sha256 sha256 content) ≡ r
            → (write_at sha256 fs base content r).0 ≡ ok hex
            → (hex ≡ hex_from_bytes32 (sha256 content))
              × IsReadBack
                  (read_evidence_object sha256 (write_at sha256 fs base content r).1 base hex)
                  content
        go (ok path) e k =
            let (named, r) = read_back fs base content hex path e k in
            (
              sym named,
              subst
                  (λ name.
                    IsReadBack
                      (read_evidence_object sha256 (write_at sha256 fs base content (ok path)).1
                        base name)
                      content)
                  named r,
            )
        go (err x) e k = absurd (unfold write_at in cc)
        go panic e k = absurd (unfold write_at in cc)
        go stuck e k = absurd (unfold write_at in cc)
