-- ===== src/Scope/Resolved.antt =====
-- crates/offf-core/src/scope.rs: the inputs that the scope of a job resolves to.
use openforensicfileformat.Prelude.{
  ℕ, ◌+◌, ◌≡◌, refl, sym, ap, ◌∙◌, if◌then◌else◌, length, Option, some, List, [], ◌∷◌, map, arith,
  ◌++◌, ◌-◌, ◌^◌, ◌<◌, ◌≤◌, ◌⊎◌, ltb, replicate, Bool-cases, inl, inr,
}
use openforensicfileformat.Bytes.{Bytes, bytes_eq, codes}
use openforensicfileformat.Bytes.Order.{bytes_le_total, IsBeforeOrSame, bytes_le-IsBeforeOrSame}
use openforensicfileformat.Outcome.{ok, ok_injective}
use openforensicfileformat.Words.{add64, decimal}
use openforensicfileformat.Words.Decimal.{
  IsDecimal, decimal-IsDecimal, zeros-IsDecimal, length-decimal, length-zeros,
}
use openforensicfileformat.Maps.Sorting.{insert_sorted, sort_by, Sorted, sort_by-Sorted}
use openforensicfileformat.Objects.{DiscoveredObjectRow, JobInputScope}
use openforensicfileformat.Shard.{AnalysisInputObject}
use openforensicfileformat.Scope.{
  by_object_id, input_number, renumber, is_in_scope, input_of, scan, resolve_analysis_scope,
}

-- How often an id occurs.
abbrev pub times : Bytes → List Bytes → ℕ
times x [] = 0
times x (y ∷ ys) = (if bytes_eq x y then 1 else 0) + times x ys

abbrev pub object_ids : List AnalysisInputObject → List Bytes
object_ids inputs = map (λ obj. obj.object_id) inputs

-- The texts of the numbers: "input-" and the number in decimal digits, six of them or, from a
-- million on, at least six.
abbrev pub IsNumber : ℕ → Bytes → Type 0
IsNumber n text =
    (digits : Bytes) × (text ≡ codes "input-" ++ digits)
    × IsDecimal n digits
    × ((length digits ≡ 6) ⊎ ((10 ^ 6 ≤ n) × (6 ≤ length digits)))

-- Each input's object is before the next one's, by the bytes of their ids, or has the same id.
abbrev pub InOrder : List AnalysisInputObject → Type 0
InOrder [] = Unit {0}
InOrder (x ∷ []) = Unit {0}
InOrder (x ∷ y ∷ ys) = IsBeforeOrSame x.object_id y.object_id × InOrder (y ∷ ys)

-- The inputs carry the numbers behind `i`, in their order.
abbrev pub NumberedBehind : ℕ → List AnalysisInputObject → Type 0
NumberedBehind i [] = Unit {0}
NumberedBehind i (x ∷ xs) = IsNumber (i + 1) x.input_id × NumberedBehind (i + 1) xs

-- Inputs in the order of their objects, numbered by their place.
pub record IsOrdered (inputs : List AnalysisInputObject) : Type 0 where
  pub in_order : InOrder inputs
  pub numbered : NumberedBehind 0 inputs

Sorted-InOrder : (inputs : List AnalysisInputObject) → Sorted by_object_id inputs → InOrder inputs
Sorted-InOrder [] s = tt
Sorted-InOrder (x ∷ []) s = tt
Sorted-InOrder (x ∷ y ∷ ys) (p, s) =
    (bytes_le-IsBeforeOrSame x.object_id y.object_id p, Sorted-InOrder (y ∷ ys) s)

renumber-Sorted :
    (i : ℕ) (inputs : List AnalysisInputObject)
    → Sorted by_object_id inputs
    → Sorted by_object_id (renumber i inputs)
unfolding renumber
renumber-Sorted i [] s = tt
renumber-Sorted i (x ∷ []) s = tt
renumber-Sorted i (x ∷ y ∷ ys) (p, s) = (p, renumber-Sorted (i + 1) (y ∷ ys) s)

padded_length :
    (n : ℕ) (l : ℕ)
    → (n < 10 ^ 6 → length (decimal n) ≤ 6)
    → l ≡ 6 - length (decimal n) + length (decimal n)
    → (l ≡ 6) ⊎ ((10 ^ 6 ≤ n) × (6 ≤ l))
padded_length n l h e = elim (Bool-cases (ltb n (10 ^ 6))) [
  | inl t ↦ inl (omega (arith, h (ground arith)))
  | inr f ↦ inr (ground arith, omega arith)
]

input_number-IsNumber : (n : ℕ) → IsNumber n (input_number n)
unfolding input_number
input_number-IsNumber n =
    let zeros = 6 - length (decimal n) in
    (
      replicate zeros b'0' ++ decimal n,
      refl,
      zeros-IsDecimal zeros n (decimal n) (decimal-IsDecimal n),
      padded_length n _ (length-decimal 5 n) (length-zeros zeros (decimal n)),
    )

renumber-NumberedBehind :
    (i : ℕ) (inputs : List AnalysisInputObject) → NumberedBehind i (renumber i inputs)
unfolding renumber
renumber-NumberedBehind i [] = tt
renumber-NumberedBehind i (x ∷ xs) =
    (input_number-IsNumber (i + 1), renumber-NumberedBehind (i + 1) xs)

object_ids-renumber :
    (i : ℕ) (inputs : List AnalysisInputObject) → object_ids (renumber i inputs) ≡ object_ids inputs
unfolding renumber
object_ids-renumber i [] = refl
object_ids-renumber i (x ∷ xs) = ap (◌∷◌ x.object_id) (object_ids-renumber (i + 1) xs)

times-insert_sorted :
    (id : Bytes) (x : AnalysisInputObject) (xs : List AnalysisInputObject)
    → times id (object_ids (insert_sorted by_object_id x xs)) ≡ times id (object_ids (x ∷ xs))
unfolding insert_sorted
times-insert_sorted id x [] = refl
times-insert_sorted id x (y ∷ ys) = elim (Bool-cases (by_object_id x y)) [
  | inl t ↦ rw t refl
  | inr f ↦ rw f (omega (arith, times-insert_sorted id x ys))
]

times-sort_by :
    (id : Bytes) (xs : List AnalysisInputObject)
    → times id (object_ids (sort_by by_object_id xs)) ≡ times id (object_ids xs)
unfolding sort_by
times-sort_by id [] = refl
times-sort_by id (x ∷ xs) =
    times-insert_sorted id x (sort_by by_object_id xs) ∙ omega (arith, times-sort_by id xs)

module _ (to_lowercase : Bytes → Bytes) (file_name : Bytes → Option Bytes) where
  -- The ids of the rows that the filters let pass.
  abbrev pub ids_in_scope : Option JobInputScope → List DiscoveredObjectRow → List Bytes
  ids_in_scope scope [] = []
  ids_in_scope scope (row ∷ rows) =
      let rest = ids_in_scope scope rows in
      if is_in_scope to_lowercase file_name scope row then row.object_id ∷ rest else rest

  object_ids-scan :
      (scope : Option JobInputScope) (counter : ℕ) (rows : List DiscoveredObjectRow)
      → object_ids (scan to_lowercase file_name scope counter rows) ≡ ids_in_scope scope rows
  unfolding scan input_of
  object_ids-scan scope counter [] = refl
  object_ids-scan scope counter (row ∷ rows) =
      elim (Bool-cases (is_in_scope to_lowercase file_name scope row)) [
        | inl t ↦ rw t (ap (◌∷◌ row.object_id) (object_ids-scan scope (add64 counter 1) rows))
        | inr f ↦ rw f (object_ids-scan scope counter rows)
      ]

  -- The scope over an index that can be read resolves to inputs that are in the order of their
  -- objects' ids, byte by byte, each with its place, counted from 1, as its number: "input-" and the
  -- number in decimal, with zeros in front where it has fewer than six digits.
  pub resolve_analysis_scope-IsOrdered :
      (rows : List DiscoveredObjectRow) (scope : Option JobInputScope)
      → (inputs : List AnalysisInputObject) × (resolve_analysis_scope to_lowercase file_name
            (some (ok rows))
            scope
          ≡ ok inputs)
        × IsOrdered inputs
  unfolding resolve_analysis_scope
  resolve_analysis_scope-IsOrdered rows scope =
      let kept = sort_by by_object_id (scan to_lowercase file_name scope 0 rows) in
      (
        renumber 0 kept,
        refl,
        record {
          in_order = Sorted-InOrder (renumber 0 kept) (
              renumber-Sorted 0 kept (
                sort_by-Sorted by_object_id (λ a b f. bytes_le_total a.object_id b.object_id f)
                  (scan to_lowercase file_name scope 0 rows)));
          numbered = renumber-NumberedBehind 0 kept;
        },
      )

  -- An id is among the inputs as often as it is among the rows of the index that the filters let
  -- pass.
  pub resolve_analysis_scope_counts :
      (rows : List DiscoveredObjectRow) (scope : Option JobInputScope)
      (inputs : List AnalysisInputObject) (id : Bytes)
      → resolve_analysis_scope to_lowercase file_name (some (ok rows)) scope ≡ ok inputs
      → times id (object_ids inputs) ≡ times id (ids_in_scope scope rows)
  unfolding resolve_analysis_scope
  resolve_analysis_scope_counts rows scope inputs id h =
      let found = scan to_lowercase file_name scope 0 rows in
      let e : renumber 0 (sort_by by_object_id found) ≡ inputs = ok_injective h in
      ap (λ xs. times id (object_ids xs)) (sym e)
      ∙ ap (times id) (object_ids-renumber 0 (sort_by by_object_id found))
      ∙ times-sort_by id found
      ∙ ap (times id) (object_ids-scan scope 0 rows)
