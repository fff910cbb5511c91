-- ===== src/Agent/RunTest.antt =====
-- ajagent/internal/runtest.go: one test of the submission.
pub mod Stages
pub mod Passing
pub mod Verdicts
pub mod Output
use alpine_judge.Common.{ℕ, Bool, true, false, ◌||◌, Option, none, some, List, [], ◌∷◌, ◌++◌}
use alpine_judge.Common.{◌==◌, nat_eq, list_eq, is_empty, if◌then◌else◌}
use alpine_judge.Common.Results.{IoResult, io_error, io_ok}
use alpine_judge.Common.Text.{Bytes, str}
use alpine_judge.Common.Text.Decimal.{sprint}
use alpine_judge.Common.Text.Trim.{trim_space}
use alpine_judge.Utils.Executes.{AgentExecSpec}
use alpine_judge.Agent.Verdict.{
  RuntimeInfo, verdict_ok, verdict_wa, verdict_tle, verdict_re, verdict_ole, verdict_ie,
}
use alpine_judge.Agent.LimitWriter.{LimitExceededWriter, new_writer, writes}
use alpine_judge.Agent.Signals.{WaitError, Diagnosis, signal_handler}

-- Which alternative of the `select` was taken: the context was done, or `cmd.Wait` returned.
pub data Ended : Type 0 where
  context_done : Ended
  finished : Option WaitError → Ended

-- What a started process does: its writes that reach the agent, its peak memory (`Maxrss`, in KB)
-- and how the wait for it ends. When a process is killed, by its limit of time or by `cancel`, is
-- up to the operating system, so every combination is allowed.
pub record Run : Type 0 where
  pub stdout : List Bytes
  pub stderr : List Bytes
  pub maxrss : Option ℕ
  pub ended : Ended

-- The result of `cmd.Start`: an error with its text, or a process.
pub data Started : Type 0 where
  start_error : Bytes → Started
  started : Run → Started

-- What the agent asks of its container. `launch` is given the arguments, the input file, the
-- timeout and the number of the test.
pub record Sandbox : Type 0 where
  pub stat : Bytes → Bool
  pub open_error : Bytes → Option Bytes
  pub read_file : Bytes → IoResult Bytes
  pub launch : List Bytes → Bytes → ℕ → ℕ → Started
  pub signal_name : ℕ → Bytes

abbrev runtime_info : Bytes → Bytes → Bytes → Bytes → RuntimeInfo
runtime_info v o e d = record { verdict = v; stdout = o; stderr = e; details = d }

-- The comparison of the outputs, at the end of `runTestCase`.
compare_output : Bytes → ℕ → Bytes → Bytes → RuntimeInfo
compare_output expected test_count stdout stderr =
    if trim_space stdout == trim_space expected
    then runtime_info (verdict_ok ++ str " " ++ sprint test_count) stdout stderr
        (str "Output matched expectation")
    else runtime_info (verdict_wa ++ str " in test " ++ sprint test_count) stdout stderr
        (str "Output mismatch against expected testcase answers")

pub ole_info : Bytes → Bytes → RuntimeInfo
ole_info stdout stderr =
    runtime_info verdict_ole stdout stderr (str "Code attempted to write too much")

-- The writer that a stream of the test has at the end.
unfoldable pub stream : AgentExecSpec → List Bytes → LimitExceededWriter
stream spec ps = writes (new_writer spec.log_limit_kb true) ps

-- From the `select` on, with both writers as they are then.
pub judge_run :
    Sandbox
    → AgentExecSpec
    → Bytes
    → ℕ
    → Option ℕ
    → LimitExceededWriter
    → LimitExceededWriter
    → Ended
    → RuntimeInfo
unfolding compare_output ole_info
judge_run box spec expected test_count maxrss out err context_done =
    if out.limit_reached || err.limit_reached
    then ole_info out.buf err.buf
    else runtime_info verdict_tle out.buf err.buf (str "Code tried to run for too long")
judge_run box spec expected test_count maxrss out err (finished none) =
    if out.limit_reached || err.limit_reached
    then ole_info out.buf err.buf
    else compare_output expected test_count out.buf err.buf
judge_run box spec expected test_count maxrss out err (finished (some run_err)) =
    let d = signal_handler box.signal_name spec.memory_limit_mb maxrss run_err in
    if out.limit_reached || err.limit_reached
    then ole_info out.buf err.buf
    else (if d.is_signal
        then runtime_info d.status out.buf err.buf d.details
        else runtime_info verdict_re out.buf err.buf d.details)

-- `cmd.Start` and what follows it. Where it fails both buffers are still empty.
pub judge_started : Sandbox → AgentExecSpec → Bytes → ℕ → Started → RuntimeInfo
unfolding judge_run stream
judge_started box spec expected test_count (start_error text) =
    let stdout = new_writer spec.log_limit_kb true in
    runtime_info verdict_ie stdout.buf stdout.buf text
judge_started box spec expected test_count (started r) =
    judge_run box spec expected test_count r.maxrss (stream spec r.stdout) (stream spec r.stderr)
      r.ended

pub run_with_expected : Sandbox → AgentExecSpec → Bytes → ℕ → IoResult Bytes → RuntimeInfo
unfolding judge_started
run_with_expected box spec input_path test_count (io_error text) =
    runtime_info verdict_ie [] [] text
run_with_expected box spec input_path test_count (io_ok expected) =
    if is_empty spec.run_args
    then runtime_info verdict_ie [] [] (str "Missing execution arguments in run specifications")
    else judge_started box spec expected test_count
        (box.launch spec.run_args input_path spec.timeout_sec test_count)

unfoldable pub run_test_case : Sandbox → AgentExecSpec → Bytes → Bytes → ℕ → RuntimeInfo
unfolding run_with_expected
run_test_case box spec input_path expected_path test_count = elim (box.open_error input_path) [
  | some text ↦ runtime_info verdict_ie [] [] text
  | none ↦ run_with_expected box spec input_path test_count (box.read_file expected_path)
]
