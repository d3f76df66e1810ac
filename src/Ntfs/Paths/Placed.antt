-- ===== src/Ntfs/Paths/Placed.antt =====
-- crates/offf-core/src/ntfs.rs: the map of `build_paths`.
use openforensicfileformat.Prelude.{
  ℕ, zero, suc, ◌+◌, ◌≤◌, ◌≡◌, ◌⊎◌, inl, inr, refl, sym, ap, ◌∙◌, subst, false, Option, none, some,
  List, [], ◌∷◌, ◌++◌, All, arith, length, ◌==◌, Bool-cases, Option-cases, ==→eq,
}
use openforensicfileformat.Bytes.{Bytes}
use openforensicfileformat.Outcome.{ok}
use openforensicfileformat.Maps.{lookup}
use openforensicfileformat.Maps.Entries.{All-insert, lookup-insert, lookup_kept, length-insert}
use openforensicfileformat.Ntfs.{FileName, MftRecord}
use openforensicfileformat.Ntfs.Paths.{
  root_mft, backslash, join_path, name_of, visit, visit_all, paths_loop, build_paths,
}
use openforensicfileformat.Ntfs.Paths.Growth.{
  Paths, Grows, Placeable, placed, visit_cases, length-visit_all, visit_all_idle,
}

-- How many of the entries have no path.
abbrev lacks : Option Bytes → ℕ
lacks none = 1
lacks (some p) = 0

missing : List ℕ → Paths → ℕ
missing [] paths = 0
missing (e ∷ entries) paths = lacks (lookup e paths) + missing entries paths

lacks_le : (e : ℕ) (m n : Paths) → Grows m n → lacks (lookup e n) ≤ lacks (lookup e m)
lacks_le e m n g = elim (Option-cases (lookup e m)) [
  | inr (p, q) ↦ (let q' = g e p q in rw (q, q') (omega arith))
  | inl q ↦ elim (Option-cases (lookup e n)) [
    | inl q' ↦ rw (q, q') (omega arith)
    | inr (p, q') ↦ rw (q, q') (omega arith)
  ]
]

missing-le : (entries : List ℕ) (m n : Paths) → Grows m n → missing entries n ≤ missing entries m
unfolding missing
missing-le [] m n g = omega arith
missing-le (e ∷ entries) m n g = omega (arith, lacks_le e m n g, missing-le entries m n g)

missing-le-length : (entries : List ℕ) (m : Paths) → missing entries m ≤ length entries
unfolding missing
missing-le-length [] m = omega arith
missing-le-length (e ∷ entries) m = omega (arith, at_most (lookup e m), missing-le-length entries m)
  where
    at_most : (o : Option Bytes) → lacks o ≤ 1
    at_most none = omega arith
    at_most (some p) = omega arith

abbrev In : ℕ → List ℕ → Type 0
In e [] = ⊥
In e (x ∷ xs) = (x ≡ e) ⊎ In e xs

missing_fewer :
    (entries : List ℕ) (e : ℕ) (p : Bytes) (m n : Paths)
    → Grows m n
    → In e entries
    → lookup e m ≡ none
    → lookup e n ≡ some p
    → missing entries n + 1 ≤ missing entries m
unfolding missing
missing_fewer [] e p m n g i q r = absurd i
missing_fewer (x ∷ entries) e p m n g (inl same) q r =
    let q' : lookup x m ≡ none = ap (λ t. lookup t m) same ∙ q in
    let r' : lookup x n ≡ some p = ap (λ t. lookup t n) same ∙ r in
    rw (q', r') (omega (arith, missing-le entries m n g))
missing_fewer (x ∷ entries) e p m n g (inr i) q r =
    omega (arith, lacks_le x m n g, missing_fewer entries e p m n g i q r)

module _ (records : List (ℕ × MftRecord)) where
  -- What a round adds, it no longer lacks.
  round_measure :
      (all entries : List ℕ) (paths : Paths)
      → All (λ e. In e all) entries
      → length (visit_all records entries paths) + missing all (visit_all records entries paths)
        ≤ length paths + missing all paths
  unfolding visit_all
  round_measure all [] paths h = omega arith
  round_measure all (e ∷ entries) paths (i, h) = elim (visit_cases records e paths) [
    | inl (q, idle) ↦ rw q (round_measure all entries paths h)
    | inr (c, q) ↦
        let path = join_path c.parent_path c.f.name in
        let more = length-insert e path paths c.absent in
        let fewer =
          missing_fewer all e path paths (placed records e paths c)
            (λ j p r. lookup_kept e j path p paths c.absent r) i c.absent
            (lookup-insert e path paths) in
        rw q (omega (arith, round_measure all entries (placed records e paths c) h, more, fewer))
  ]

  -- The path of an entry: none for the root, else that of the parent of its best name, and the name.
  abbrev pub IsPlaced : Paths → ℕ × Bytes → Type 0
  IsPlaced paths entry =
      ((entry.0 ≡ root_mft) × (entry.1 ≡ []))
      ⊎ ((f : FileName) × (parent_path : Bytes) × (name_of records entry.0 ≡ some f)
          × (lookup f.parent_mft paths ≡ some parent_path)
          × (entry.1 ≡ parent_path ++ (backslash ++ f.name)))

  -- The map is right for the entries: each path in it comes from that of a parent, and no entry is
  -- left that has a parent with a path.
  pub record IsPathMap (entries : List ℕ) (paths : Paths) : Type 0 where
    pub each : All (IsPlaced paths) paths
    pub complete : All (λ e. ¬ Placeable records e paths) entries

  IsPlaced-Grows :
      (m n : Paths) → Grows m n → (xs : Paths) → All (IsPlaced m) xs → All (IsPlaced n) xs
  IsPlaced-Grows m n g [] h = tt
  IsPlaced-Grows m n g (x ∷ xs) (inl root, h) = (inl root, IsPlaced-Grows m n g xs h)
  IsPlaced-Grows m n g (x ∷ xs) (inr (f, pp, e, q, r), h) =
      (inr (f, pp, e, g f.parent_mft pp q, r), IsPlaced-Grows m n g xs h)

  join_path_lem :
      (parent_path name : Bytes) → join_path parent_path name ≡ parent_path ++ (backslash ++ name)
  unfolding join_path
  join_path_lem [] name = refl
  join_path_lem (c ∷ parent_path) name = refl

  visit-IsPlaced :
      (entry : ℕ) (paths : Paths)
      → All (IsPlaced paths) paths
      → All (IsPlaced (visit records entry paths)) (visit records entry paths)
  visit-IsPlaced entry paths h = elim (visit_cases records entry paths) [
    | inl (q, idle) ↦ rw q h
    | inr (c, q) ↦
        let path = join_path c.parent_path c.f.name in
        let grows : Grows paths (placed records entry paths c) =
          (λ j p r. lookup_kept entry j path p paths c.absent r) in
        rw q (
          All-insert (IsPlaced (placed records entry paths c)) entry path paths
            (inr (
              c.f,
              c.parent_path,
              c.named,
              grows c.f.parent_mft c.parent_path c.parent,
              join_path_lem c.parent_path c.f.name,
            ))
            (IsPlaced-Grows paths (placed records entry paths c) grows paths h))
  ]

  visit_all-IsPlaced :
      (entries : List ℕ) (paths : Paths)
      → All (IsPlaced paths) paths
      → All (IsPlaced (visit_all records entries paths)) (visit_all records entries paths)
  unfolding visit_all
  visit_all-IsPlaced [] paths h = h
  visit_all-IsPlaced (e ∷ entries) paths h =
      visit_all-IsPlaced entries (visit records e paths) (visit-IsPlaced e paths h)

  -- How the loop stands: its first round, or one after a round that left `prev` paths.
  abbrev Stands : List ℕ → ℕ → ℕ → Paths → Type 0
  Stands entries fuel prev paths =
      ((prev ≡ 0) × (missing entries paths + 2 ≤ fuel))
      ⊎ ((prev ≡ length paths) × (missing entries paths + 1 ≤ fuel))

  paths_loop_total :
      (entries : List ℕ) (fuel prev : ℕ) (paths : Paths)
      → All (λ e. In e entries) entries
      → All (IsPlaced paths) paths
      → 1 ≤ length paths
      → Stands entries fuel prev paths
      → (result : Paths) × (paths_loop records entries fuel prev paths ≡ ok result)
        × IsPathMap entries result
  unfolding paths_loop
  paths_loop_total entries zero prev paths i h l (inl (e, few)) = absurd (omega arith)
  paths_loop_total entries zero prev paths i h l (inr (e, few)) = absurd (omega arith)
  paths_loop_total entries (suc fuel) prev paths i h l s =
      let next = visit_all records entries paths in
      let longer = length-visit_all records entries paths in
      let measure = round_measure entries entries paths i in
      elim (Bool-cases (length next == prev)) [
        | inl t ↦
            let idle : length next ≡ length paths = settled s (==→eq (length next) prev t) in
            let (fixed, all) = visit_all_idle records entries paths idle in
            (
              next,
              rw t refl,
              record {
                each = visit_all-IsPlaced entries paths h;
                complete = subst (λ m. All (λ e. ¬ Placeable records e m) entries) (sym fixed) all;
              },
            )
        | inr f ↦ rw f (
            paths_loop_total entries fuel (length next) next i (visit_all-IsPlaced entries paths h)
              (omega arith) (inr (refl, again s f)))
      ]
    where
      settled :
          Stands entries (suc fuel) prev paths
          → length (visit_all records entries paths) ≡ prev
          → length (visit_all records entries paths) ≡ length paths
      settled (inl (e, few)) q = absurd (omega (arith, length-visit_all records entries paths))
      settled (inr (e, few)) q = q ∙ e

      again :
          Stands entries (suc fuel) prev paths
          → (length (visit_all records entries paths) == prev) ≡ false
          → missing entries (visit_all records entries paths) + 1 ≤ fuel
      again (inl (e, few)) q =
          omega
            (arith, round_measure entries entries paths i, length-visit_all records entries paths)
      again (inr (e, few)) q =
          ground
            (arith, round_measure entries entries paths i, length-visit_all records entries paths)

  In-All : (xs ys : List ℕ) → ((e : ℕ) → In e xs → In e ys) → All (λ e. In e ys) xs
  In-All [] ys f = tt
  In-All (x ∷ xs) ys f = (f x (inl refl), In-All xs ys (λ e i. f e (inr i)))

  -- `build_paths` ends, and its map is right for the entries, whatever the names say, even where
  -- parents form a cycle.
  pub build_paths-IsPathMap :
      (entries : List ℕ)
      → (paths : Paths) × (build_paths records entries ≡ ok paths) × IsPathMap entries paths
  unfolding build_paths
  build_paths-IsPathMap entries =
      paths_loop_total entries (length entries + 3) 0 ((root_mft, []) ∷ [])
        (In-All entries entries (λ e i. i)) (inl (refl, refl), tt) (omega arith)
        (inl (refl, omega (arith, missing-le-length entries ((root_mft, []) ∷ []))))
