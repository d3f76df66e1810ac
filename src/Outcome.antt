-- ===== src/Outcome.antt =====
-- crates/offf-core/src/error.rs: the error type, and the outcome of fallible code.
pub mod Ends
use openforensicfileformat.Prelude.{◌≡◌, refl, Bool, true, false, List, [], ◌∷◌}
use openforensicfileformat.Bytes.{Bytes}

-- `OfffError`. The free text of a message is dropped, the other fields are kept.
pub data Error : Type 0 where
  io : Error
  json : Error
  parquet : Error
  arrow : Error
  hash_mismatch : Bytes → Bytes → Bytes → Error
  chunk_not_found : Bytes → Error
  decompression_error : Bytes → Error
  invalid_manifest : Error
  invalid_container : Error
  unsupported_version : Error
  merkle_root_mismatch : Bytes → Bytes → Error
  source_hash_mismatch : Bytes → Bytes → Error
  invalid_merkle_tree : Error
  shard_processing_failed : Bytes → Error
  scope_resolution_failed : Error
  duplicate_input_detected : Bytes → List Bytes → Error
  missing_shard_result : Bytes → Error

-- `Result<A, OfffError>`, with two outcomes that are no value in Rust: a panic, and `stuck` for a
-- loop of the model that ran out of fuel.
pub data Result {ℓ} (A : Type ℓ) : Type ℓ where
  ok : A → Result A
  err : Error → Result A
  panic : Result A
  stuck : Result A

infixl 5 ◌>>=◌
abbrev pub ◌>>=◌ {ℓ κ} : {A : Type ℓ} {B : Type κ} → Result A → (A → Result B) → Result B
ok a >>= f = f a
err e >>= f = err e
panic >>= f = panic
stuck >>= f = stuck

infixl 5 ◌>>◌
abbrev pub ◌>>◌ {ℓ} : {B : Type ℓ} → Result (Unit {0}) → Result B → Result B
m >> k = m >>= λ _. k

-- An early return with an error.
abbrev pub ensure : Bool → Error → Result (Unit {0})
ensure true e = ok tt
ensure false e = err e

-- The step before the last, if a chain succeeds.
module _ {ℓ κ} {A : Type ℓ} {B : Type κ} where
  pub ok_of_bind :
      (first : Result A) (next : A → Result B) {out : B}
      → (first >>= next) ≡ ok out
      → (mid : A) × (first ≡ ok mid) × (next mid ≡ ok out)
  ok_of_bind stuck next e = cc
  ok_of_bind panic next e = cc
  ok_of_bind (err x) next e = cc
  ok_of_bind (ok mid) next e = (mid, refl, e)

pub >>=-assoc {ℓ κ μ} :
    {A : Type ℓ} {B : Type κ} {C : Type μ} (m : Result A) (f : A → Result B) (g : B → Result C)
    → ((m >>= f) >>= g) ≡ (m >>= λ a. f a >>= g)
>>=-assoc (ok a) f g = refl
>>=-assoc (err e) f g = refl
>>=-assoc panic f g = refl
>>=-assoc stuck f g = refl

-- Inversion of a passed check.
pub ensure-eq-ok {ℓ} :
    {B : Type ℓ} (t : Bool) (x : Error) (k : Result B) {b : B}
    → (ensure t x >> k) ≡ ok b
    → (t ≡ true) × (k ≡ ok b)
ensure-eq-ok true x k h = (refl, h)
ensure-eq-ok false x k h = cc

pub ok_injective {ℓ} : {A : Type ℓ} {a b : A} → ok a ≡ ok b → a ≡ b
ok_injective h = cc

cons_ok {ℓ} :
    {B : Type ℓ} (r : Result B) (rs : Result (List B)) (zs : List B)
    → (r >>= λ y. rs >>= λ ys. ok (y ∷ ys)) ≡ ok zs
    → (y : B) × (ys : List B) × (r ≡ ok y) × (rs ≡ ok ys) × (y ∷ ys ≡ zs)
cons_ok (ok y) (ok ys) zs e = (y, ys, refl, refl, ok_injective e)
cons_ok (ok y) (err x) zs e = cc
cons_ok (ok y) panic zs e = cc
cons_ok (ok y) stuck zs e = cc
cons_ok (err x) rs zs e = cc
cons_ok panic rs zs e = cc
cons_ok stuck rs zs e = cc

-- `iter().map(f).collect::<Result<Vec<_>, _>>()`
module _ {ℓ κ} {A : Type ℓ} {B : Type κ} where
  unfoldable pub collect : (A → Result B) → List A → Result (List B)
  collect f [] = ok []
  collect f (x ∷ xs) = do y ← f x; ys ← collect f xs; ok (y ∷ ys)

  -- A successful `collect`, turned round.
  pub collect-cons :
      (f : A → Result B) (x : A) (xs : List A) (zs : List B)
      → collect f (x ∷ xs) ≡ ok zs
      → (y : B) × (ys : List B) × (f x ≡ ok y) × (collect f xs ≡ ok ys) × (y ∷ ys ≡ zs)
  unfolding collect
  collect-cons f x xs zs e = cons_ok (f x) (collect f xs) zs e

-- What runs after a step counts only by its results.
pub bind_ext {ℓ κ} :
    {A : Type ℓ} {B : Type κ} (m : Result A) (f g : A → Result B)
    → ((a : A) → f a ≡ g a)
    → (m >>= f) ≡ (m >>= g)
bind_ext (ok a) f g h = h a
bind_ext (err e) f g h = refl
bind_ext panic f g h = refl
bind_ext stuck f g h = refl

-- A step that also changes a state: the next one runs on what both left, and a failure keeps the
-- state that it came to.
abbrev pub bind_state {ℓ κ μ} :
    {A : Type ℓ} {B : Type κ} {S : Type μ} → Result A × S → (A → S → Result B × S) → Result B × S
bind_state (ok a, s) f = f a s
bind_state (err e, s) f = (err e, s)
bind_state (panic, s) f = (panic, s)
bind_state (stuck, s) f = (stuck, s)
