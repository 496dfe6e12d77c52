-- ===== src/Store/Published.antt =====
-- The `worker_policy` table: what a producer reads of the worker that booted last.
use llmbus.Shared.{ap, Bool-cases, leb, inl, inr, ◌≡◌, refl, ◌∙◌, some}
use llmbus.Python.Exc.{returned}
use llmbus.Python.Platform.{Platform, TextLaws}
use llmbus.Retry.{WorkerPolicy, retry_budget_seconds}
use llmbus.Store.Rows.{
  PublishedWorkerPolicy, WorkerTable, fitting, stale, PublishedRow, row_to_published,
}
use llmbus.Store.{
  Store, publish_worker_policy, read_worker_policy, read_published, upsert_published,
  rebuild_if_stale,
}

module _ (P : Platform) where
  -- what a producer reads after a boot with a policy
  abbrev pub published : WorkerPolicy P → P.Float → P.Datetime → PublishedWorkerPolicy P
  published policy budget stamped = record {
    max_attempts = policy.retry.max_attempts;
    job_timeout_s = policy.job_timeout_s;
    base_delay_s = policy.retry.base_delay_s;
    max_delay_s = policy.retry.max_delay_s;
    retry_budget_s = budget;
    updated_at = stamped;
  }

  read-upsert-rebuild :
      (row : PublishedRow P) (table : WorkerTable P)
      → read_published P (upsert_published P row (rebuild_if_stale P table))
        ≡ some (row_to_published P row)
  unfolding read_published upsert_published rebuild_if_stale
  read-upsert-rebuild row (fitting old) = refl
  read-upsert-rebuild row (stale has_row) = refl

  -- A worker whose budget can be computed publishes it, over a table of an older shape too: a
  -- producer reads back the policy of the last boot, and no job and no model policy has changed.
  pub read_worker_policy-publish :
      (laws : TextLaws P) (policy : WorkerPolicy P) (stamped : P.Datetime) (budget : P.Float)
      (s : Store P)
      → retry_budget_seconds P policy ≡ returned budget
      → let t = (publish_worker_policy P policy stamped s).1 in
        (read_worker_policy P t ≡ some (published policy budget stamped))
        × (t.jobs ≡ s.jobs)
        × (t.model_policies ≡ s.model_policies)
  unfolding read_worker_policy publish_worker_policy row_to_published
  read_worker_policy-publish laws policy stamped budget s e =
      rw (e, publish_worker_policy)
        (
          read-upsert-rebuild _ s.worker_policy ∙ rw (laws.fromisoformat-isoformat stamped),
          refl,
          refl,
        )

  -- Whether the budget can be computed or not, publishing leaves the jobs alone.
  pub jobs-publish :
      (policy : WorkerPolicy P) (stamped : P.Datetime) (s : Store P)
      → (publish_worker_policy P policy stamped s).1.jobs ≡ s.jobs
  unfolding publish_worker_policy retry_budget_seconds
  jobs-publish policy stamped s = elim (Bool-cases (leb 1026 policy.retry.max_attempts)) [
    | inl out ↦ rw (out, publish_worker_policy)
    | inr fine ↦ rw (fine, publish_worker_policy)
  ]

  -- What is on record depends on its table only.
  pub read_worker_policy-same :
      (s t : Store P)
      → t.worker_policy ≡ s.worker_policy
      → read_worker_policy P t ≡ read_worker_policy P s
  unfolding read_worker_policy
  read_worker_policy-same s t e = ap (read_published P) e
