-- ===== src/Prelude/Patch.antt =====
-- Writing one list over a part of another, and the laws of `take` and `drop` that this needs.
use Prim.Native.Nat.{ℕ, zero, suc, ◌+◌, ◌-◌, ◌≤◌}
use mathlib.Core.Path.{◌≡◌, refl, ap, sym, ◌∙◌}
use mathlib.Core.List.{List, [], ◌∷◌, ◌++◌, append_assoc}
use native.Mathlib.Omega.{arith}
use openforensicfileformat.Prelude.Lists.{
  length, take, drop, length-append, length-take, length-drop, take-append-drop,
}
use openforensicfileformat.Prelude.Slices.{take-append, drop-append}

module _ {ℓ} {A : Type ℓ} where
  pub take_append_split :
      (n : ℕ) (xs ys : List A) → take n (xs ++ ys) ≡ take n xs ++ take (n - length xs) ys
  take_append_split zero [] ys = refl
  take_append_split zero (x ∷ xs) ys =
      let e : 0 ≡ 0 - suc (length xs) = omega arith in ap (λ k. take k ys) e
  take_append_split (suc n) [] ys = let e : suc n ≡ suc n - 0 = omega arith in ap (λ k. take k ys) e
  take_append_split (suc n) (x ∷ xs) ys =
      ap (◌∷◌ x) (take_append_split n xs ys ∙ ap (λ k. take n xs ++ take k ys) (omega arith))

  pub drop_append_split :
      (n : ℕ) (xs ys : List A) → drop n (xs ++ ys) ≡ drop n xs ++ drop (n - length xs) ys
  drop_append_split zero [] ys = refl
  drop_append_split zero (x ∷ xs) ys =
      let e : 0 ≡ 0 - suc (length xs) = omega arith in ap (λ k. x ∷ (xs ++ drop k ys)) e
  drop_append_split (suc n) [] ys = let e : suc n ≡ suc n - 0 = omega arith in ap (λ k. drop k ys) e
  drop_append_split (suc n) (x ∷ xs) ys =
      drop_append_split n xs ys ∙ ap (λ k. drop n xs ++ drop k ys) (omega arith)

  pub take_all : (n : ℕ) (xs : List A) → length xs ≤ n → take n xs ≡ xs
  take_all zero [] h = refl
  take_all zero (x ∷ xs) h = absurd (omega arith)
  take_all (suc n) [] h = refl
  take_all (suc n) (x ∷ xs) h = ap (◌∷◌ x) (take_all n xs (omega arith))

  pub nil_of_length : (xs : List A) → length xs ≤ 0 → xs ≡ []
  nil_of_length [] h = refl
  nil_of_length (x ∷ xs) h = absurd (omega arith)

  drop_nil : (n : ℕ) → drop {A = A} n [] ≡ []
  drop_nil zero = refl
  drop_nil (suc n) = refl

  pub drop-drop : (m n : ℕ) (xs : List A) → drop m (drop n xs) ≡ drop (n + m) xs
  drop-drop m zero xs = ap (λ k. drop k xs) (omega arith)
  drop-drop m (suc n) [] = drop_nil m ∙ sym (drop_nil (suc n + m))
  drop-drop m (suc n) (x ∷ xs) =
      drop-drop m n xs
      ∙ ap (λ k. drop k (x ∷ xs)) (let e : suc (n + m) ≡ suc n + m = omega arith in e)

  -- `s` over the part of `r` that begins at `q`.
  abbrev pub patch : List A → ℕ → List A → List A
  patch r q s = take q r ++ (s ++ drop (length s) (drop q r))

  pub patch_nil : (r : List A) (q : ℕ) → patch r q [] ≡ r
  patch_nil r q = take-append-drop q r

  -- Two writes, one right behind the other, are one.
  pub patch-patch :
      (r : List A) (q : ℕ) (s t : List A)
      → q ≤ length r
      → patch (patch r q s) (q + length s) t ≡ patch r q (s ++ t)
  patch-patch r q s t h =
      let front = take q r in
      let back = drop (length s) (drop q r) in
      rw
        (
          sym (append_assoc front s back),
          take-append (q + length s) (front ++ s) back
              (omega (arith, length-append front s, length-take q r)),
          drop-append (q + length s) (front ++ s) back
              (omega (arith, length-append front s, length-take q r)),
          append_assoc front s (t ++ drop (length t) back),
          append_assoc s t (drop (length (s ++ t)) (drop q r)),
          drop-drop (length t) (length s) (drop q r),
          length-append s t,
        )
        refl

  pub length-patch :
      (r : List A) (q : ℕ) (s : List A) → q + length s ≤ length r → length (patch r q s) ≡ length r
  length-patch r q s h = omega (
    arith,
    length-append (take q r) (s ++ drop (length s) (drop q r)),
    length-append s (drop (length s) (drop q r)),
    length-take q r,
    length-drop (length s) (drop q r),
    length-drop q r,
  )
