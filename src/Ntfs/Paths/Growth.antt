-- ===== src/Ntfs/Paths/Growth.antt =====
-- crates/offf-core/src/ntfs.rs, `build_paths`: the growth of the map from round to round.
use openforensicfileformat.Prelude.{
  ℕ, ◌≤◌, ◌≡◌, ◌⊎◌, inl, inr, refl, sym, ap, ◌∙◌, none, some, List, [], ◌∷◌, All, arith, length,
  Option-cases, some_injective,
}
use openforensicfileformat.Bytes.{Bytes}
use openforensicfileformat.Maps.{lookup, insert}
use openforensicfileformat.Maps.Entries.{lookup_kept, length-insert}
use openforensicfileformat.Ntfs.{FileName, MftRecord}
use openforensicfileformat.Ntfs.Paths.{
  join_path, name_of, place_under, place_named, place, visit, visit_all,
}

abbrev pub Paths : Type 0
Paths = List (ℕ × Bytes)

-- Every path that was there is still there.
abbrev pub Grows : Paths → Paths → Type 0
Grows m n = (j : ℕ) (p : Bytes) → lookup j m ≡ some p → lookup j n ≡ some p

module _ (records : List (ℕ × MftRecord)) where
  -- An entry gets a path now: it has none, but its best name has a parent with a path.
  pub record Placeable (entry : ℕ) (paths : Paths) : Type 0 where
    pub f : FileName
    pub parent_path : Bytes
    pub absent : lookup entry paths ≡ none
    pub named : name_of records entry ≡ some f
    pub parent : lookup f.parent_mft paths ≡ some parent_path

  abbrev pub placed : (entry : ℕ) (paths : Paths) → Placeable entry paths → Paths
  placed entry paths c = insert entry (join_path c.parent_path c.f.name) paths

  pub visit_cases :
      (entry : ℕ) (paths : Paths)
      → ((visit records entry paths ≡ paths) × ¬ Placeable entry paths)
        ⊎ ((c : Placeable entry paths) × (visit records entry paths ≡ placed entry paths c))
  unfolding visit place place_named place_under
  visit_cases entry paths = elim (Option-cases (lookup entry paths)) [
    | inr (p, e) ↦ inl (rw e refl, λ c. absurd (let a = c.absent in cc))
    | inl e ↦ elim (Option-cases (name_of records entry)) [
      | inl n ↦ inl (rw (e, n) refl, λ c. absurd (let a = c.named in cc))
      | inr (f, n) ↦ elim (Option-cases (lookup f.parent_mft paths)) [
        | inl q ↦ inl (rw (e, n, q) refl, λ c. absurd (orphan c f n q))
        | inr (pp, q) ↦ inr (
          record { f = f; parent_path = pp; absent = e; named = n; parent = q },
          rw (e, n, q) refl,
        )
      ]
    ]
  ]
    where
      orphan :
          (c : Placeable entry paths) (f : FileName)
          → name_of records entry ≡ some f
          → lookup f.parent_mft paths ≡ none
          → ⊥
      orphan c f n q =
          let same = some_injective (sym c.named ∙ n) in
          let e = sym c.parent ∙ ap (λ (g : FileName). lookup g.parent_mft paths) same ∙ q in cc

  pub visit-Grows : (entry : ℕ) (paths : Paths) → Grows paths (visit records entry paths)
  visit-Grows entry paths j p e = elim (visit_cases entry paths) [
    | inl (q, _) ↦ rw q e
    | inr (c, q) ↦ rw q (lookup_kept entry j (join_path c.parent_path c.f.name) p paths c.absent e)
  ]

  visit_all-Grows :
      (entries : List ℕ) (paths : Paths) → Grows paths (visit_all records entries paths)
  unfolding visit_all
  visit_all-Grows [] paths j p e = e
  visit_all-Grows (entry ∷ entries) paths j p e =
      visit_all-Grows entries (visit records entry paths) j p (visit-Grows entry paths j p e)

  length-visit : (entry : ℕ) (paths : Paths) → length paths ≤ length (visit records entry paths)
  length-visit entry paths = elim (visit_cases entry paths) [
    | inl (q, _) ↦ rw q (omega arith)
    | inr (c, q) ↦
        rw q (omega (arith, length-insert entry (join_path c.parent_path c.f.name) paths c.absent))
  ]

  pub length-visit_all :
      (entries : List ℕ) (paths : Paths) → length paths ≤ length (visit_all records entries paths)
  unfolding visit_all
  length-visit_all [] paths = omega arith
  length-visit_all (entry ∷ entries) paths =
      omega (arith, length-visit entry paths, length-visit_all entries (visit records entry paths))

  -- A round that adds no path leaves the map, and none of the entries can be placed.
  pub visit_all_idle :
      (entries : List ℕ) (paths : Paths)
      → length (visit_all records entries paths) ≡ length paths
      → (visit_all records entries paths ≡ paths) × All (λ e. ¬ Placeable e paths) entries
  unfolding visit_all
  visit_all_idle [] paths l = (refl, tt)
  visit_all_idle (entry ∷ entries) paths l = elim (visit_cases entry paths) [
    | inl (q, idle) ↦
        let (q', all) =
          visit_all_idle entries paths
            (ap (λ t. length (visit_all records entries t)) (sym q) ∙ l) in
        (ap (visit_all records entries) q ∙ q', (idle, all))
    | inr (c, q) ↦ absurd (
        omega (
          arith,
          l,
          ap length q,
          length-visit_all entries (visit records entry paths),
          length-insert entry (join_path c.parent_path c.f.name) paths c.absent,
        ))
  ]
