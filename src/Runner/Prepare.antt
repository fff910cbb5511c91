-- ===== src/Runner/Prepare.antt =====
-- runner/internal/preparation.go, downloadfiles.go and `Build_AgentExecSpec` of buildSpecs.go: from
-- a job to the agent's instructions.
pub mod Dispatched
use alpine_judge.Common.{ℕ, Bool, true, false, ◌||◌, Option, none, some, List, [], ◌∷◌, ◌++◌}
use alpine_judge.Common.{◌==◌, nat_eq, list_eq, if◌then◌else◌}
use alpine_judge.Common.Results.{IoResult, io_error, io_ok}
use alpine_judge.Common.Text.{Bytes, str}
use alpine_judge.Utils.Executes.{ExecRules, AgentExecSpec}
use alpine_judge.Shared.Specs.{JobSpec}
use alpine_judge.Shared.S3.{S3Client, Disk, Transfer, download_dir_from_s3}

-- `submmittedCodePathBase`
abbrev pub code_path_base : Bytes → Bytes
code_path_base submission_id = str "/workspace/submissions/" ++ submission_id ++ str "/"

abbrev pub is_cpp : Bytes → Bool
is_cpp language = language == str "cpp" || language == str "cc"

-- `compileArgs` and `runArgs`, as the `if`s of `PrepareExecrules` append to them.
unfoldable pub compile_args : Bytes → Bytes → List Bytes
compile_args language base =
    (if language == str "c" || is_cpp language
      then (if language == str "c" then str "gcc" ∷ [] else [])
        ++ ((if is_cpp language then str "g++" ∷ [] else [])
            ++ str "-Wall"
              ∷ str "-Wextra"
              ∷ str "-o"
              ∷ str "/tmp/main"
              ∷ (base ++ str "main." ++ language)
              ∷ [])
      else [])
    ++ ((if language == str "go"
          then str "go"
            ∷ str "build"
            ∷ str "-o"
            ∷ (base ++ str "main")
            ∷ (base ++ str "main.go")
            ∷ []
          else [])
        ++ (if language == str "java"
            then str "javac" ∷ str "-d" ∷ base ∷ (base ++ str "Main.java") ∷ []
            else []))

unfoldable pub run_args : Bytes → Bytes → List Bytes
run_args language base =
    (if language == str "c" || is_cpp language then str "/tmp/main" ∷ [] else [])
    ++ ((if language == str "go" then (base ++ str "main") ∷ [] else [])
        ++ ((if language == str "java"
              then str "java"
                ∷ str "-XX:+TieredCompilation"
                ∷ str "-XX:TieredStopAtLevel=1"
                ∷ str "-cp"
                ∷ base
                ∷ str "Main"
                ∷ []
              else [])
            ++ ((if language == str "node" then str "node" ∷ (base ++ str "main.js") ∷ [] else [])
                ++ (if language == str "py"
                    then str "python" ∷ (base ++ str "main.py") ∷ []
                    else []))))

-- The directory on the host that the testset of a job is kept in.
abbrev pub host_test_dir : JobSpec → Bytes
host_test_dir job = str "/tmp/runner/testsets/" ++ job.testset ++ str "/"

-- The rules of a job; `container_id` is what `generateContainerID` gives.
unfoldable pub exec_rules : Bytes → JobSpec → ExecRules
exec_rules container_id job = record {
  runner_id = [];
  submission_id = [];
  container_id = container_id;
  image = [];
  compile_args = compile_args job.language (code_path_base job.submission_id);
  run_args = run_args job.language (code_path_base job.submission_id);
  test_id = job.testset;
  event_queue_name = [];
  per_test_memory_limit_mb = job.per_test_memory_limit_mb;
  per_test_timeout_sec = job.per_test_timeout_sec;
  per_test_log_limit_kb = job.per_test_log_limit_kb;
}

module _ (S : S3Client) (D : Disk) (s : S.Store) where
  -- `downloadFileS3`
  unfoldable pub download_file_s3 : Bytes → Bytes → Bytes → Transfer
  download_file_s3 bucket testset dir = download_dir_from_s3 S D s bucket testset dir

  -- `PrepareExecrules`: the download of the testset, and the error or the rules.
  unfoldable pub prepare_execrules : Bytes → JobSpec → Transfer × IoResult ExecRules
  unfolding download_file_s3
  prepare_execrules container_id job =
      let t = download_file_s3 job.bucket job.testset (host_test_dir job) in
      (t, elim t.err [ some text ↦ io_error text | none ↦ io_ok (exec_rules container_id job) ])

-- `Build_AgentExecSpec`; `HaltOnFirstError` is left at its zero value.
unfoldable pub build_agent_exec_spec : ExecRules → AgentExecSpec
build_agent_exec_spec rules = record {
  submission_id = [];
  halt_on_first_error = false;
  log_limit_kb = rules.per_test_log_limit_kb;
  timeout_sec = rules.per_test_timeout_sec;
  memory_limit_mb = rules.per_test_memory_limit_mb;
  testset_path = str "/workspace/testsets/" ++ rules.test_id ++ str "/";
  compile_args = rules.compile_args;
  run_args = rules.run_args;
}
