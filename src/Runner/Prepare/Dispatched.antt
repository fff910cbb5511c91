-- ===== src/Runner/Prepare/Dispatched.antt =====
-- What becomes of a job of the dispatcher in the runner and the agent: `PrepareSubmission`
-- of dispatcher/internal/prepare.go, `PrepareExecrules` and `Build_AgentExecSpec` of
-- runner/internal, and `runTestCase` of ajagent/internal, one after the other.
use alpine_judge.Common.{ℕ, ◌≡◌, refl, ◌⊎◌, inl, inr, true, []}
use alpine_judge.Common.{Option-cases, ◌∙◌}
use alpine_judge.Common.Results.{IoResult-cases}
use alpine_judge.Common.Text.{Bytes, str}
use alpine_judge.Utils.Executes.{AgentExecSpec}
use alpine_judge.Shared.Specs.{JobSpec}
use alpine_judge.Agent.Verdict.{verdict_ie}
use alpine_judge.Agent.RunTest.{Sandbox, run_with_expected, run_test_case}
use alpine_judge.Dispatcher.Validate.{is_available}
use alpine_judge.Runner.Prepare.{run_args, code_path_base, exec_rules, build_agent_exec_spec}

-- The instructions that the agent gets for a job.
abbrev pub agent_spec : Bytes → JobSpec → AgentExecSpec
agent_spec container_id job = build_agent_exec_spec (exec_rules container_id job)

-- Without arguments to run every test is an internal error.
run_test_case-no_args :
    (box : Sandbox) (spec : AgentExecSpec) (input expected : Bytes) (n : ℕ)
    → spec.run_args ≡ []
    → (run_test_case box spec input expected n).verdict ≡ verdict_ie
unfolding run_test_case
run_test_case-no_args box spec input expected n empty = elim (Option-cases (box.open_error input)) [
  | inr (text, e) ↦ rw (e, run_test_case) refl
  | inl opened ↦ elim (IoResult-cases (box.read_file expected)) [
    | inr (text, e) ↦ rw (opened, run_test_case, e, run_with_expected) refl
    | inl (wanted, read) ↦ rw (opened, run_test_case, read, run_with_expected, empty) refl
  ]
]

agent_spec-run_args :
    (container_id : Bytes) (job : JobSpec)
    → (agent_spec container_id job).run_args
      ≡ run_args job.language (code_path_base job.submission_id)
unfolding exec_rules build_agent_exec_spec
agent_spec-run_args container_id job = refl

-- The dispatcher offers `python` and `js`, but the runner calls these languages `py` and `node`:
-- a job in either of them gets no command, and each of its tests ends in an internal error.
pub unrunnable-internal_error :
    (container_id : Bytes) (job : JobSpec) (box : Sandbox) (input expected : Bytes) (n : ℕ)
    → (job.language ≡ str "python") ⊎ (job.language ≡ str "js")
    → (is_available job.language ≡ true)
      × ((run_test_case box (agent_spec container_id job) input expected n).verdict ≡ verdict_ie)
unfolding is_available run_args
unrunnable-internal_error container_id job box input expected n (inl e) = (
  rw e refl,
  run_test_case-no_args box _ input expected n (agent_spec-run_args container_id job ∙ (rw e refl)),
)
unrunnable-internal_error container_id job box input expected n (inr e) = (
  rw e refl,
  run_test_case-no_args box _ input expected n (agent_spec-run_args container_id job ∙ (rw e refl)),
)
