-- ===== src/Shard/Plan/Assigned.antt =====
-- crates/offf-core/src/shard.rs: `plan_shards` gives each shard exactly the inputs that the strategy
-- assigns to it, in their order.
use openforensicfileformat.Prelude.{
  ℕ, zero, suc, ◌+◌, ◌<◌, ◌≡◌, refl, false, some, List, [], ◌∷◌, ◌++◌, ◌==◌, if◌then◌else◌, length,
  replicate, get_elem?, arith, ap, sym, ◌∙◌, Bool-cases, inl, inr, append-nil, append_assoc,
  length-replicate, some_injective,
}
use openforensicfileformat.Bytes.{Bytes}
use openforensicfileformat.Outcome.{ok}
use openforensicfileformat.Shard.{
  ShardStrategy, deterministic_object_id_range, deterministic_round_robin,
  deterministic_hash_modulo, AnalysisInputObject, ShardInputRef, ShardPlanRecord, ShardManifest,
}
use openforensicfileformat.Shard.Plan.{
  plan_record, push_at, input_ref, manifests_from, assign_shard, group, plan_shards,
}

push_at_ok :
    (shards : List (List ShardInputRef)) (j : ℕ) (x : ShardInputRef)
    → j < length shards
    → (shards' : List (List ShardInputRef)) × (push_at shards j x ≡ ok shards')
      × (length shards' ≡ length shards)
      × ((k : ℕ) (inputs : List ShardInputRef)
          → get_elem? shards k ≡ some inputs
          → get_elem? shards' k ≡ some (if j == k then inputs ++ (x ∷ []) else inputs))
unfolding push_at
push_at_ok [] j x h = absurd (omega arith)
push_at_ok (shard ∷ shards) zero x h =
    ((shard ++ (x ∷ [])) ∷ shards, refl, refl, λ k inputs e. at_zero k inputs e)
  where
    at_zero :
        (k : ℕ) (inputs : List ShardInputRef)
        → get_elem? (shard ∷ shards) k ≡ some inputs
        → get_elem? ((shard ++ (x ∷ [])) ∷ shards) k
          ≡ some (if 0 == k then inputs ++ (x ∷ []) else inputs)
    at_zero zero inputs e = ap (λ t. some (t ++ (x ∷ []))) (some_injective e)
    at_zero (suc k) inputs e = e ∙ ground arith
push_at_ok (shard ∷ shards) (suc j) x h =
    let (shards', p, l, at) = push_at_ok shards j x (omega arith) in
    (shard ∷ shards', rw p refl, ap suc l, λ k inputs e. at_suc shards' at k inputs e)
  where
    at_suc :
        (shards' : List (List ShardInputRef))
        → ((k : ℕ) (inputs : List ShardInputRef)
            → get_elem? shards k ≡ some inputs
            → get_elem? shards' k ≡ some (if j == k then inputs ++ (x ∷ []) else inputs))
        → (k : ℕ) (inputs : List ShardInputRef) → get_elem? (shard ∷ shards) k ≡ some inputs
        → get_elem? (shard ∷ shards') k ≡ some (if suc j == k then inputs ++ (x ∷ []) else inputs)
    at_suc shards' at zero inputs e = e ∙ ground arith
    at_suc shards' at (suc k) inputs e = at k inputs e ∙ ground arith

from_zero :
    (k : ℕ) (ms : List ShardManifest) (xs : List ShardInputRef)
    → (m : ShardManifest) × (get_elem? ms k ≡ some m)
      × (m.shard_index ≡ 0 + k)
      × (m.input_objects ≡ xs)
    → (m : ShardManifest) × (get_elem? ms k ≡ some m) × (m.shard_index ≡ k) × (m.input_objects ≡ xs)
from_zero k ms xs (m, p, q, r) = (m, p, omega arith, r)

module _ (sha256 : Bytes → Bytes) where
  -- The inputs from number `i` on that the strategy assigns to the shard `k`.
  abbrev pub assigned : ShardStrategy → ℕ → ℕ → ℕ → List AnalysisInputObject → List ShardInputRef
  assigned strategy shard_count k i [] = []
  assigned strategy shard_count k i (obj ∷ rest) =
      let others = assigned strategy shard_count k (i + 1) rest in
      if assign_shard sha256 i obj strategy shard_count == k then input_ref obj ∷ others else others

  -- Every input goes to one of the shards.
  pub assign_shard-lt :
      (i : ℕ) (obj : AnalysisInputObject) (strategy : ShardStrategy) (n : ℕ)
      → 0 < n
      → assign_shard sha256 i obj strategy n < n
  unfolding assign_shard
  assign_shard-lt i obj deterministic_object_id_range n h = omega arith
  assign_shard-lt i obj deterministic_round_robin n h = omega arith
  assign_shard-lt i obj deterministic_hash_modulo n h = omega arith

  group_ok :
      (strategy : ShardStrategy) (n i : ℕ) (inputs : List AnalysisInputObject)
      (shards : List (List ShardInputRef))
      → 0 < n
      → length shards ≡ n
      → (shards' : List (List ShardInputRef)) × (group sha256 strategy n i inputs shards
          ≡ ok shards')
        × (length shards' ≡ n)
        × ((k : ℕ) (have : List ShardInputRef)
            → get_elem? shards k ≡ some have
            → get_elem? shards' k ≡ some (have ++ assigned strategy n k i inputs))
  unfolding group
  group_ok strategy n i [] shards p l =
      (shards, refl, l, λ k have e. e ∙ ap some (sym (append-nil have)))
  group_ok strategy n i (obj ∷ rest) shards p l =
      let j = assign_shard sha256 i obj strategy n in
      let (shards₁, e₁, l₁, at₁) =
        push_at_ok shards j (input_ref obj) (omega (arith, assign_shard-lt i obj strategy n p)) in
      let (shards₂, e₂, l₂, at₂) = group_ok strategy n (i + 1) rest shards₁ p (l₁ ∙ l) in
      (shards₂, rw (e₁, e₂) refl, l₂, λ k have e. at₂ k _ (at₁ k have e) ∙ ap some (joined k have))
    where
      joined :
          (k : ℕ) (have : List ShardInputRef)
          → (if assign_shard sha256 i obj strategy n == k
                then have ++ (input_ref obj ∷ [])
                else have)
              ++ assigned strategy n k (i + 1) rest
            ≡ have ++ assigned strategy n k i (obj ∷ rest)
      joined k have = elim (Bool-cases (assign_shard sha256 i obj strategy n == k)) [
        | inl t ↦ rw t (append_assoc have (input_ref obj ∷ []) (assigned strategy n k (i + 1) rest))
        | inr f ↦ rw f refl
      ]

  length-manifests_from :
      (job scope_hash : Bytes) (n idx : ℕ) (shards : List (List ShardInputRef))
      → length (manifests_from job n scope_hash idx shards) ≡ length shards
  unfolding manifests_from
  length-manifests_from job scope_hash n idx [] = refl
  length-manifests_from job scope_hash n idx (s ∷ shards) =
      ap suc (length-manifests_from job scope_hash n (idx + 1) shards)

  manifest_at :
      (job scope_hash : Bytes) (n idx : ℕ) (shards : List (List ShardInputRef)) (k : ℕ)
      (inputs : List ShardInputRef)
      → get_elem? shards k ≡ some inputs
      → (m : ShardManifest) × (get_elem? (manifests_from job n scope_hash idx shards) k ≡ some m)
        × (m.shard_index ≡ idx + k)
        × (m.input_objects ≡ inputs)
  unfolding manifests_from
  manifest_at job scope_hash n idx [] k inputs e = cc
  manifest_at job scope_hash n idx (s ∷ shards) zero inputs e =
      (_, refl, omega arith, some_injective e)
  manifest_at job scope_hash n idx (s ∷ shards) (suc k) inputs e =
      let (m, p, q, r) = manifest_at job scope_hash n (idx + 1) shards k inputs e in
      (m, p, omega arith, r)

  get_elem?-replicate :
      (n k : ℕ) → k < n → get_elem? (replicate {A = List ShardInputRef} n []) k ≡ some []
  get_elem?-replicate zero k h = absurd (omega arith)
  get_elem?-replicate (suc n) zero h = refl
  get_elem?-replicate (suc n) (suc k) h = get_elem?-replicate n k (omega arith)

  -- What a plan for `n` shards holds: a manifest for each shard `k`, with exactly the inputs that
  -- the strategy assigns to `k`, in the order of the inputs.
  pub record IsPlanFor (strategy : ShardStrategy) (n : ℕ) (inputs : List AnalysisInputObject)
      (ms : List ShardManifest) : Type 0 where
    pub counted : length ms ≡ n
    pub each :
        (k : ℕ)
        → k < n
        → (m : ShardManifest) × (get_elem? ms k ≡ some m)
          × (m.shard_index ≡ k)
          × (m.input_objects ≡ assigned strategy n k 0 inputs)

  -- With at least one shard, `plan_shards` succeeds, and its manifests are numbered from 0, one for
  -- each shard, with exactly the inputs assigned to the shard, in order.
  pub plan_shards-IsPlanFor :
      (now : Bytes) (inputs : List AnalysisInputObject) (job : Bytes) (strategy : ShardStrategy)
      (n : ℕ) (scope_hash : Bytes)
      → 0 < n
      → (plan : ShardPlanRecord) × (ms : List ShardManifest) × (plan_shards sha256 now inputs job
            strategy n scope_hash
          ≡ ok (plan, ms))
        × IsPlanFor strategy n inputs ms
  unfolding plan_shards
  plan_shards-IsPlanFor now inputs job strategy n scope_hash h =
      let (shards, e, l, at) =
        group_ok strategy n 0 inputs (replicate n []) h (length-replicate n []) in
      (
        plan_record now job strategy n (length inputs) scope_hash,
        manifests_from job n scope_hash 0 shards,
        rw (nonzero, e) refl,
        record {
          counted = length-manifests_from job scope_hash n 0 shards ∙ l;
          each = λ k lt.
              from_zero k _ _
                (manifest_at job scope_hash n 0 shards k _ (at k [] (get_elem?-replicate n k lt)));
        },
      )
    where
      nonzero : (n == 0) ≡ false
      nonzero = ground arith

  -- The strategy that is described as one of contiguous ranges interleaves: of three or more
  -- inputs, the first of two shards gets the first and the third, the other one the second.
  pub plan_shards_interleaves :
      (now : Bytes) (a b c : AnalysisInputObject) (rest : List AnalysisInputObject)
      (job scope_hash : Bytes)
      → (plan : ShardPlanRecord) × (ms : List ShardManifest) × (m₀ m₁ : ShardManifest) × (xs
          ys : List ShardInputRef)
        × (plan_shards sha256 now (a ∷ b ∷ c ∷ rest) job deterministic_object_id_range 2 scope_hash
            ≡ ok (plan, ms))
        × (get_elem? ms 0 ≡ some m₀)
        × (m₀.input_objects ≡ input_ref a ∷ input_ref c ∷ xs)
        × (get_elem? ms 1 ≡ some m₁)
        × (m₁.input_objects ≡ input_ref b ∷ ys)
  unfolding assign_shard
  plan_shards_interleaves now a b c rest job scope_hash =
      let (plan, ms, e, p) =
        plan_shards-IsPlanFor now (a ∷ b ∷ c ∷ rest) job deterministic_object_id_range 2 scope_hash
          (omega arith) in
      let (m₀, e₀, _, r₀) = p.each 0 (omega arith) in
      let (m₁, e₁, _, r₁) = p.each 1 (omega arith) in (plan, ms, m₀, m₁, _, _, e, e₀, r₀, e₁, r₁)
