-- ===== src/Shared/Specs.antt =====
-- shared/specs.go: the job that the dispatcher queues and the runner takes.
use alpine_judge.Common.{ℕ}
use alpine_judge.Common.Text.{Bytes}

pub record JobSpec : Type 0 where
  pub language : Bytes
  pub source : Bytes
  pub submission_id : Bytes
  pub bucket : Bytes
  pub testset : Bytes
  pub per_test_memory_limit_mb : ℕ  -- uint64
  pub per_test_timeout_sec : ℕ  -- uint32
  pub per_test_log_limit_kb : ℕ  -- uint32
