-- ===== src/Scope/Binding.antt =====
-- crates/offf-core/src/scope.rs: what the hash of a scope binds.
use openforensicfileformat.Prelude.{
  ◌≡◌, ◌≢◌, refl, sym, ap, ap₂, subst, ◌⊎◌, inl, inr, List, [], ◌∷◌, ◌++◌, All, cons_head,
  cons_tail, arith, length, ◌<◌, drop, length-append,
}
use openforensicfileformat.Bytes.{Bytes}
use openforensicfileformat.Merkle.Binding.{IsClash, same_digest, hex_from_bytes32_injective}
use openforensicfileformat.Merkle.Level.{GivesDigests}
use openforensicfileformat.Shard.{AnalysisInputObject}
use openforensicfileformat.Scope.{joined_ids, compute_input_scope_hash}
use openforensicfileformat.Scope.Resolved.{object_ids}

-- An id that is not empty and has no line break.
abbrev pub IsPlainId : AnalysisInputObject → Type 0
IsPlainId obj = (0 < length obj.object_id) × All (λ c. c ≢ 10) obj.object_id

break_inside : (a s : Bytes) → All (λ c. c ≢ 10) (a ++ (10 ∷ s)) → ⊥
break_inside [] s (h, hs) = h refl
break_inside (c ∷ a) s (h, hs) = break_inside a s hs

-- What stands before the first line break, and behind it.
split_at_break :
    (a b r s : Bytes)
    → All (λ c. c ≢ 10) a
    → All (λ c. c ≢ 10) b
    → a ++ (10 ∷ r) ≡ b ++ (10 ∷ s)
    → (a ≡ b) × (r ≡ s)
split_at_break [] [] r s h k e = (refl, cons_tail e)
split_at_break [] (y ∷ b) r s h (k, ks) e = absurd (k (sym (cons_head e)))
split_at_break (x ∷ a) [] r s (h, hs) k e = absurd (h (cons_head e))
split_at_break (x ∷ a) (y ∷ b) r s (h, hs) (k, ks) e =
    let (p, q) = split_at_break a b r s hs ks (cons_tail e) in (ap₂ ◌∷◌ (cons_head e) p, q)

joined_ids_injective :
    (xs ys : List AnalysisInputObject)
    → All IsPlainId xs
    → All IsPlainId ys
    → joined_ids xs ≡ joined_ids ys
    → object_ids xs ≡ object_ids ys
unfolding joined_ids
joined_ids_injective [] [] h k e = refl
joined_ids_injective [] (y ∷ []) h ((l, k), ks) e = absurd (omega (arith, ap length e))
joined_ids_injective [] (y ∷ z ∷ ys) h ((l, k), ks) e =
    absurd (omega (arith, ap length e, length-append y.object_id (10 ∷ joined_ids (z ∷ ys))))
joined_ids_injective (x ∷ []) [] ((l, h), hs) k e = absurd (omega (arith, ap length e))
joined_ids_injective (x ∷ []) (y ∷ []) h k e = ap (λ id. id ∷ []) e
joined_ids_injective (x ∷ []) (y ∷ z ∷ ys) ((l, h), hs) k e =
    absurd (break_inside y.object_id (joined_ids (z ∷ ys)) (subst (All (λ c. c ≢ 10)) e h))
joined_ids_injective (x ∷ w ∷ xs) [] ((l, h), hs) k e =
    absurd (omega (arith, ap length e, length-append x.object_id (10 ∷ joined_ids (w ∷ xs))))
joined_ids_injective (x ∷ w ∷ xs) (y ∷ []) h ((l, k), ks) e =
    absurd (break_inside x.object_id (joined_ids (w ∷ xs)) (subst (All (λ c. c ≢ 10)) (sym e) k))
joined_ids_injective (x ∷ w ∷ xs) (y ∷ z ∷ ys) ((l, h), hs) ((m, k), ks) e =
    let (p, q) =
      split_at_break x.object_id y.object_id (joined_ids (w ∷ xs)) (joined_ids (z ∷ ys)) h k e in
    ap₂ ◌∷◌ p (joined_ids_injective (w ∷ xs) (z ∷ ys) hs ks q)

-- Two lists of inputs with one scope hash have the same object ids in the same order, when no id is
-- empty or has a line break, or their two joined texts differ and have one digest.
pub compute_input_scope_hash_binding :
    (sha256 : Bytes → Bytes)
    → GivesDigests sha256
    → (xs ys : List AnalysisInputObject) → All IsPlainId xs
    → All IsPlainId ys
    → compute_input_scope_hash sha256 xs ≡ compute_input_scope_hash sha256 ys
    → (object_ids xs ≡ object_ids ys) ⊎ IsClash sha256 (joined_ids xs) (joined_ids ys)
unfolding compute_input_scope_hash
compute_input_scope_hash_binding sha256 digests xs ys h k e =
    let same_text = ap (drop 7) e in
    elim (same_digest sha256 (joined_ids xs) (joined_ids ys) (
      hex_from_bytes32_injective _ _ (digests (joined_ids xs)) (digests (joined_ids ys))
        same_text)) [ inl p ↦ inl (joined_ids_injective xs ys h k p) | inr c ↦ inr c ]
