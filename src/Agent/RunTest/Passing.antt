-- ===== src/Agent/RunTest/Passing.antt =====
-- When a test passes.
use alpine_judge.Common.{ℕ, ◌≡◌, ◌≢◌, ◌↔◌, false, Option, none, some}
use alpine_judge.Common.{◌++◌, arith, nat_eq, list_eq, is_empty}
use alpine_judge.Common.Results.{IoResult-cases, io_ok}
use alpine_judge.Common.Text.{Bytes, str, bytes_eq_iff}
use alpine_judge.Common.Text.Decimal.{sprint}
use alpine_judge.Common.Text.Trim.{trim_space}
use alpine_judge.Utils.Executes.{AgentExecSpec}
use alpine_judge.Agent.Verdict.{verdict_ok}
use alpine_judge.Agent.LimitWriter.{LimitExceededWriter}
use alpine_judge.Agent.Signals.{WaitError, signal_handler}
use alpine_judge.Agent.RunTest.{
  Sandbox, Run, Ended, started, context_done, finished, stream, judge_run, run_test_case,
}
use alpine_judge.Agent.Signals.Memory.{signal_handler-classes}
use alpine_judge.Common.{Option-cases, Bool-cases, inl, inr}
use alpine_judge.Agent.RunTest.Stages.{Started-cases}

-- The verdict of a test that passed.
abbrev pub passed : ℕ → Bytes
passed n = verdict_ok ++ str " " ++ sprint n

-- What it takes to pass: the files can be read, the process starts and exits without an error,
-- neither stream meets its limit, and the outputs agree but for white space at their ends.
pub record IsPassed (box : Sandbox) (spec : AgentExecSpec) (input expected : Bytes) (n : ℕ)
    : Type 0 where
  pub opened : box.open_error input ≡ none
  pub wanted : Bytes
  pub read : box.read_file expected ≡ io_ok wanted
  pub has_args : is_empty spec.run_args ≡ false
  pub run : Run
  pub launched : box.launch spec.run_args input spec.timeout_sec n ≡ started run
  pub exited : run.ended ≡ finished none
  pub stdout_fits : (stream spec run.stdout).limit_reached ≡ false
  pub stderr_fits : (stream spec run.stderr).limit_reached ≡ false
  pub agrees : trim_space (stream spec run.stdout).buf ≡ trim_space wanted

-- The diagnosis of a failed process is never the verdict of a passed test.
signal_handler-ne-passed :
    (name : ℕ → Bytes) (limit : ℕ) (rss : Option ℕ) (e : WaitError) (n : ℕ)
    → (signal_handler name limit rss e).status ≢ passed n
signal_handler-ne-passed name limit rss e n h =
    ground (arith, signal_handler-classes name limit rss e)

judge_run_sound :
    (box : Sandbox) (spec : AgentExecSpec) (wanted : Bytes) (n : ℕ) (rss : Option ℕ)
    (out err : LimitExceededWriter) (e : Ended)
    → (judge_run box spec wanted n rss out err e).verdict ≡ passed n
    → (e ≡ finished none)
      × (out.limit_reached ≡ false)
      × (err.limit_reached ≡ false)
      × (trim_space out.buf ≡ trim_space wanted)
unfolding judge_run
judge_run_sound box spec wanted n rss out err context_done h = ground arith
judge_run_sound box spec wanted n rss out err (finished none) h =
    ground (arith, bytes_eq_iff (trim_space out.buf) (trim_space wanted))
judge_run_sound box spec wanted n rss out err (finished (some e)) h =
    ground (arith, signal_handler-ne-passed box.signal_name spec.memory_limit_mb rss e n)

judge_run_complete :
    (box : Sandbox) (spec : AgentExecSpec) (wanted : Bytes) (n : ℕ) (rss : Option ℕ)
    (out err : LimitExceededWriter)
    → out.limit_reached ≡ false
    → err.limit_reached ≡ false
    → trim_space out.buf ≡ trim_space wanted
    → (judge_run box spec wanted n rss out err (finished none)).verdict ≡ passed n
unfolding judge_run
judge_run_complete box spec wanted n rss out err p q h =
    ground (arith, bytes_eq_iff (trim_space out.buf) (trim_space wanted))

module _ (box : Sandbox) (spec : AgentExecSpec) (input expected : Bytes) (n : ℕ) where
  run_test_case_sound :
      (run_test_case box spec input expected n).verdict ≡ passed n
      → IsPassed box spec input expected n
  unfolding run_test_case
  run_test_case_sound h = elim (Option-cases (box.open_error input)) [
    | inr (text, e) ↦ ground arith
    | inl opened ↦ elim (IoResult-cases (box.read_file expected)) [
      | inr (text, e) ↦ ground arith
      | inl (wanted, read) ↦ elim (Bool-cases (is_empty spec.run_args)) [
        | inl e ↦ ground arith
        | inr has_args ↦ elim (Started-cases (box.launch spec.run_args input spec.timeout_sec n)) [
          | inr (text, e) ↦ ground arith
          | inl (run, launched) ↦
              let (exited, a, b, c) =
                judge_run_sound box spec wanted n run.maxrss (stream spec run.stdout)
                  (stream spec run.stderr) run.ended (ground arith) in
              record {
                opened = opened;
                wanted = wanted;
                read = read;
                has_args = has_args;
                run = run;
                launched = launched;
                exited = exited;
                stdout_fits = a;
                stderr_fits = b;
                agrees = c;
              }
        ]
      ]
    ]
  ]

  run_test_case_complete :
      IsPassed box spec input expected n
      → (run_test_case box spec input expected n).verdict ≡ passed n
  unfolding run_test_case
  run_test_case_complete p = ground (
    arith,
    p.opened,
    p.read,
    p.has_args,
    p.launched,
    p.exited,
    judge_run_complete box spec p.wanted n p.run.maxrss (stream spec p.run.stdout)
        (stream spec p.run.stderr) p.stdout_fits p.stderr_fits p.agrees,
  )

  -- A test has the verdict of a pass exactly when it has passed: the files can be read, there are
  -- arguments to run, the process starts and exits without an error, neither stream meets its
  -- limit, and the output is the expected one but for white space at both ends.
  pub run_test_case-passed_iff :
      ((run_test_case box spec input expected n).verdict ≡ passed n)
      ↔ IsPassed box spec input expected n
  run_test_case-passed_iff = (run_test_case_sound, run_test_case_complete)
