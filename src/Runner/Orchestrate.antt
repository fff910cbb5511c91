-- ===== src/Runner/Orchestrate.antt =====
-- runner/pkg/orchestrator.go: one job, from its directories to the report of the container. What
-- happens outside the process is the list of acts.
pub mod Completing
use alpine_judge.Common.{ℕ, Bool, true, false, Option, none, some, List, [], ◌∷◌, ◌++◌}
use alpine_judge.Common.{◌==◌, nat_eq, list_eq, is_empty, if◌then◌else◌}
use alpine_judge.Common.Results.{IoResult, io_error, io_ok}
use alpine_judge.Common.Text.{Bytes, str}
use alpine_judge.Common.FilePath.{join}
use alpine_judge.Utils.Executes.{ExecRules, AgentExecSpec, ContainerInfo}
use alpine_judge.Common.Text.Decimal.Parse.{ℤ}
use alpine_judge.Shared.Specs.{JobSpec}
use alpine_judge.Shared.S3.{S3Client, Disk, Transfer, download_dir_from_s3}
use alpine_judge.Runner.Prepare.{host_test_dir, prepare_execrules, build_agent_exec_spec}
use alpine_judge.Runner.ExecSubm.{Exit, exec_subm}

-- What the runner meets: `os.MkdirAll`, `os.WriteFile`, `os.Open` with `Readdirnames(1)` (an error, or the names
-- read; no name is `io.EOF`), the socket of the container, and how the container ends within
-- `TIMEOUT_SEC`.
pub record Host : Type 0 where
  pub mkdir_all : Bytes → Option Bytes
  pub write_file : Bytes → Bytes → Option Bytes
  pub readdirnames : Bytes → IoResult (List Bytes)
  pub send : AgentExecSpec → Option Bytes
  pub timeouts : ℤ
  pub elapsed_ms : ℕ
  pub exit : Exit

pub data Act : Type 0 where
  made_dir : Bytes → Act
  wrote_source : Bytes → Bytes → Act
  fetched : Transfer → Act
  instructed : AgentExecSpec → Act
  executed : Act

-- An error, the container's report, or the end of the process where the container is nil.
pub data Orchestrated : Type 0 where
  failed : Bytes → Orchestrated
  completed : ContainerInfo → Orchestrated
  nil_container : Orchestrated

-- `isTestsetDirEmpty`: its bool. It is true where the directory has an entry.
unfoldable pub is_testset_dir_empty : Host → Bytes → Bool
is_testset_dir_empty H path = elim (H.readdirnames path) [
  | io_error _ ↦ false
  | io_ok names ↦ if is_empty names then false else true
]

abbrev pub testset_dir : JobSpec → Bytes
testset_dir job = join (str "/tmp" ∷ str "runner" ∷ str "testsets" ∷ job.testset ∷ [])

abbrev pub submission_dir : JobSpec → Bytes
submission_dir job = join (str "/tmp" ∷ str "runner" ∷ str "submissions" ∷ job.submission_id ∷ [])

abbrev pub target_dir : JobSpec → Bytes
target_dir job = join (str "/tmprunner/submissions" ∷ job.submission_id ∷ [])

-- The file of the source code.
unfoldable pub source_path : JobSpec → Bytes
source_path job =
    if job.language == str "java"
    then str "/tmp/runner/submissions/" ++ job.submission_id ++ str "/Main.java"
    else str "/tmp/runner/submissions/" ++ job.submission_id ++ str "/main." ++ job.language

-- The writing of the source code; an error is only logged.
abbrev pub write_source : JobSpec → Option Bytes → List Act
write_source job (some _) = []
write_source job none = wrote_source (source_path job) job.source ∷ []

abbrev pub mkdir_failed : Bytes → Bytes → Orchestrated
mkdir_failed path text = failed (str "failed to create directory " ++ path ++ str ": " ++ text)

abbrev pub before : Act → List Act × Orchestrated → List Act × Orchestrated
before a r = (a ∷ r.0, r.1)

abbrev pub after : List Act → List Act × Orchestrated → List Act × Orchestrated
after acts r = (acts ++ r.0, r.1)

-- An error ends the job with a text, and otherwise it goes on.
abbrev pub unless : Option Bytes → Bytes → List Act × Orchestrated → List Act × Orchestrated
unless (some text) because rest = ([], failed (because ++ text ++ str "\n"))
unless none because rest = rest

module _ (S : S3Client) (D : Disk) (s : S.Store) (H : Host) (job : JobSpec) where
  -- From the last directory on.
  execute : List Act × Orchestrated
  execute = elim (H.mkdir_all (target_dir job)) [
    | some text ↦ (
      [],
      failed (str "Failed to create directory " ++ target_dir job ++ str ": " ++ text ++ str "\n"),
    )
    | none ↦ (
      made_dir (target_dir job) ∷ executed ∷ [],
      completed (exec_subm job H.timeouts H.elapsed_ms H.exit).0,
    )
  ]

  -- From the instructions on; `has_container` says whether the warm container is not nil.
  instruct : Bool → AgentExecSpec → List Act × Orchestrated
  unfolding execute
  instruct has_container spec =
      if has_container
      then elim (H.send spec) [
        | some text ↦ ([], failed (str "Failed sending execspec JSON: " ++ text))
        | none ↦ before (instructed spec) execute
      ]
      else ([], nil_container)

  -- From `PrepareExecrules` on.
  prepare : Bool → Bytes → List Act × Orchestrated
  unfolding instruct
  prepare has_container container_id =
      let (t, rules) = prepare_execrules S D s container_id job in
      before (fetched t) (elim rules [
        | io_error text ↦
            ([], failed (str "Failed to generate execution rules: " ++ text ++ str "\n"))
        | io_ok r ↦ instruct has_container (build_agent_exec_spec r)
      ])

  -- From the check of the testset on.
  provide : Bool → Bytes → List Act × Orchestrated
  unfolding prepare
  provide has_container container_id =
      if is_testset_dir_empty H (host_test_dir job)
      then prepare has_container container_id
      else (let t = download_dir_from_s3 S D s job.bucket job.testset (host_test_dir job) in
          before (fetched t) (
            unless t.err (str "Failed to download testet from S3:  ")
              (prepare has_container container_id)))

  -- `OrchestrateSubm`; `container_id` is what `generateContainerID` gives.
  unfoldable pub orchestrate_subm : Bool → Bytes → List Act × Orchestrated
  unfolding provide
  orchestrate_subm has_container container_id = elim (H.mkdir_all (testset_dir job)) [
    | some text ↦ ([], mkdir_failed (testset_dir job) text)
    | none ↦ before (made_dir (testset_dir job)) (elim (H.mkdir_all (submission_dir job)) [
      | some text ↦ ([], mkdir_failed (submission_dir job) text)
      | none ↦ before (made_dir (submission_dir job)) (
          after (write_source job (H.write_file (source_path job) job.source))
            (provide has_container container_id))
    ])
  ]
