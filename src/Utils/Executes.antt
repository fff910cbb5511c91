-- ===== src/Utils/Executes.antt =====
-- runner/utils/executes.go and resultspec.go: execution rules, the agent's instructions, the
-- messages of the event stream and what the runner reports of a container.
use alpine_judge.Common.{ℕ, Bool, List}
use alpine_judge.Common.Text.{Bytes}

pub record ExecRules : Type 0 where
  pub runner_id : Bytes
  pub submission_id : Bytes
  pub container_id : Bytes
  pub image : Bytes
  pub compile_args : List Bytes
  pub run_args : List Bytes
  pub test_id : Bytes
  pub event_queue_name : Bytes
  pub per_test_memory_limit_mb : ℕ  -- uint64
  pub per_test_timeout_sec : ℕ  -- uint32
  pub per_test_log_limit_kb : ℕ  -- uint32

pub record AgentExecSpec : Type 0 where
  pub submission_id : Bytes
  pub halt_on_first_error : Bool
  pub log_limit_kb : ℕ  -- uint32
  pub timeout_sec : ℕ  -- uint32
  pub memory_limit_mb : ℕ  -- uint64
  pub testset_path : Bytes
  pub compile_args : List Bytes
  pub run_args : List Bytes

-- One message of the event stream (UESP).
pub record Event : Type 0 where
  pub type : Bytes
  pub status : Bytes
  pub stdout : Bytes
  pub stderr : Bytes
  pub details : Bytes

pub record RmqPayload : Type 0 where
  pub type : Bytes
  pub status : Bytes
  pub details : Bytes

pub record ContainerInfo : Type 0 where
  pub submission_id : Bytes
  pub language : Bytes
  pub version : Bytes
  pub interval : ℕ  -- uint64
  pub status : Bytes
  pub status_info : Bytes
  pub container_stdout : Bytes
  pub container_stderr : Bytes
