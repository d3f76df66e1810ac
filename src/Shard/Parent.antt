-- ===== src/Shard/Parent.antt =====
-- crates/offf-core/src/shard.rs, `build_parent_result_manifest`. What is read of the shards' result
-- files, the duplicates that `validate_parallel_job` counts and the time are parameters.
use openforensicfileformat.Prelude.{
  ℕ, zero, suc, ◌+◌, subst, ◌≡◌, refl, Bool, true, false, List, [], ◌∷◌, ◌++◌, ◌==◌, if◌then◌else◌,
  arith, ap, ◌<◌, ◌⊎◌, Bool-cases, inl, inr,
}
use openforensicfileformat.Bytes.{Bytes, codes, bytes_eq}
use openforensicfileformat.Outcome.{Result, ok, err, json, ◌>>=◌, ok_injective, ok_of_bind}
use openforensicfileformat.Shard.{
  AnalysisInputObject, ShardPlanRecord, ShardResultManifest, ShardResultRef, ParentResultManifest,
}
use openforensicfileformat.Shard.Plan.{shard_id_of}
use openforensicfileformat.Shard.Coverage.{compute_coverage_report}

-- A result file: it cannot be read, it is no JSON of a result, or it is one, under a relative path
-- and with the SHA-256 of its text.
pub data ResultFile : Type 0 where
  missing : ResultFile
  malformed : ResultFile
  parsed : ShardResultManifest → Bytes → Bytes → ResultFile

-- What the loop over the shards collects.
pub record Collected : Type 0 where
  pub results : List ShardResultManifest
  pub refs : List ShardResultRef
  pub completed : ℕ
  pub failed : ℕ

unfoldable pub collect_one : Bytes → ResultFile → Collected → Result Collected
collect_one shard_id missing c = ok (record c { failed = c.failed + 1 })
collect_one shard_id malformed c = err json
collect_one shard_id (parsed r path hash) c =
    let done = bytes_eq r.status (codes "completed") in
    ok (record {
      results = c.results ++ (r ∷ []);
      refs =
          c.refs
          ++ (record { shard_id = shard_id; result_manifest_path = path; sha256 = hash } ∷ []);
      completed = if done then c.completed + 1 else c.completed;
      failed = if done then c.failed else c.failed + 1;
    })

unfoldable pub status_of : ℕ → ℕ → Bytes
status_of completed failed =
    if failed == 0
    then codes "completed"
    else if completed == 0
    then codes "failed"
    else codes "partial"

-- What a status says of the shards that are completed and those that failed.
abbrev pub IsVerdict : ℕ → ℕ → Bytes → Type 0
IsVerdict completed failed status =
    ((failed ≡ 0) × (status ≡ codes "completed"))
    ⊎ ((0 < failed) × (completed ≡ 0) × (status ≡ codes "failed"))
    ⊎ ((0 < failed) × (0 < completed) × (status ≡ codes "partial"))

status_of-IsVerdict :
    (completed failed : ℕ) → IsVerdict completed failed (status_of completed failed)
unfolding status_of
status_of-IsVerdict completed failed = elim (Bool-cases (failed == 0)) [
  | inl t ↦ inl (ground arith, rw t refl)
  | inr f ↦ elim (Bool-cases (completed == 0)) [
    | inl t' ↦ inr (inl (ground arith, ground arith, rw (f, t') refl))
    | inr f' ↦ inr (inr (ground arith, ground arith, rw (f, f') refl))
  ]
]

collect_one_counts :
    (id : Bytes) (f : ResultFile) (c c' : Collected)
    → collect_one id f c ≡ ok c'
    → c'.completed + c'.failed ≡ c.completed + c.failed + 1
unfolding collect_one
collect_one_counts id missing c c' e =
    let e' = ok_injective e in omega (arith, ap (λ t. t.completed) e', ap (λ t. t.failed) e')
collect_one_counts id malformed c c' e = cc
collect_one_counts id (parsed r p h) c c' e =
    let e' = ok_injective e in counts _ (ap (λ t. t.completed) e') (ap (λ t. t.failed) e')
  where
    counts :
        (done : Bool)
        → (if done then c.completed + 1 else c.completed) ≡ c'.completed
        → (if done then c.failed else c.failed + 1) ≡ c'.failed
        → c'.completed + c'.failed ≡ c.completed + c.failed + 1
    counts true p q = omega arith
    counts false p q = omega arith

module _ (result_file : Bytes → ResultFile) where
  -- The loop, with `rounds` shards left from number `idx` on.
  unfoldable pub collect_results : Bytes → ℕ → ℕ → Collected → Result Collected
  collect_results job zero idx c = ok c
  collect_results job (suc rounds) idx c = do
    c' ← collect_one (shard_id_of job idx) (result_file (shard_id_of job idx)) c
    collect_results job rounds (idx + 1) c'

  module _ (duplicates : ℕ) (now : Bytes) where
    unfoldable pub build_parent_result_manifest :
        ShardPlanRecord → Bytes → List AnalysisInputObject → Result ParentResultManifest
    build_parent_result_manifest plan job inputs = do
      c ←
          collect_results job plan.shard_count 0
            (record { results = []; refs = []; completed = 0; failed = 0 })
      let coverage = compute_coverage_report plan c.results inputs
      ok (record {
        job_id = job;
        status = status_of c.completed c.failed;
        parallelization = record {
          mode = codes "sharded";
          shard_count = plan.shard_count;
          shards_completed = c.completed;
          shards_failed = c.failed;
        };
        shard_results = c.refs;
        coverage = record coverage { duplicates_detected = duplicates };
        created_at = now;
      })

  collect_results_counts :
      (job : Bytes) (rounds idx : ℕ) (c c' : Collected)
      → collect_results job rounds idx c ≡ ok c'
      → c'.completed + c'.failed ≡ c.completed + c.failed + rounds
  unfolding collect_results
  collect_results_counts job zero idx c c' e =
      let e' = ok_injective e in omega (arith, ap (λ t. t.completed) e', ap (λ t. t.failed) e')
  collect_results_counts job (suc rounds) idx c c' e =
      let (c₁, e₁, e₂) =
        ok_of_bind (collect_one (shard_id_of job idx) (result_file (shard_id_of job idx)) c) _ e in
      omega (
        arith,
        collect_one_counts _ _ c c₁ e₁,
        collect_results_counts job rounds (idx + 1) c₁ c' e₂,
      )

  -- A parent result accounts for every shard of the plan, as completed or as failed. Its status is
  -- "completed" where no shard failed, "failed" where some failed and none is completed, and
  -- "partial" where some failed and some are completed.
  pub build_parent_result_manifest_counts :
      (duplicates : ℕ) (now : Bytes) (plan : ShardPlanRecord) (job : Bytes)
      (inputs : List AnalysisInputObject) (m : ParentResultManifest)
      → build_parent_result_manifest duplicates now plan job inputs ≡ ok m
      → (m.parallelization.shards_completed + m.parallelization.shards_failed ≡ plan.shard_count)
        × IsVerdict m.parallelization.shards_completed m.parallelization.shards_failed m.status
  unfolding build_parent_result_manifest
  build_parent_result_manifest_counts duplicates now plan job inputs m e =
      let (c, e₁, e₂) =
        ok_of_bind
          (collect_results job plan.shard_count 0
            (record { results = []; refs = []; completed = 0; failed = 0 }))
          _ e in
      let e' = ok_injective e₂ in
      (
        omega (
          arith,
          collect_results_counts job plan.shard_count 0 _ c e₁,
          ap (λ t. t.parallelization.shards_completed) e',
          ap (λ t. t.parallelization.shards_failed) e',
        ),
        subst
            (λ t.
              IsVerdict t.parallelization.shards_completed t.parallelization.shards_failed t.status)
            e' (status_of-IsVerdict c.completed c.failed),
      )
