-- ===== src/Agent/RunTest/Verdicts.antt =====
-- The verdicts of one test.
use alpine_judge.Common.{ℕ, ◌≡◌, refl, true, ◌||◌, Option, none, some}
use alpine_judge.Common.{◌++◌, arith, ◌==◌, nat_eq, list_eq, is_empty}
use alpine_judge.Common.Results.{IoResult-cases}
use alpine_judge.Common.Text.{Bytes, str, has_prefix}
use alpine_judge.Common.Text.Decimal.{sprint}
use alpine_judge.Common.Text.Trim.{trim_space}
use alpine_judge.Utils.Executes.{AgentExecSpec}
use alpine_judge.Agent.Verdict.{
  verdict_ok, verdict_wa, verdict_tle, verdict_re, verdict_ole, verdict_mle, verdict_ie,
}
use alpine_judge.Agent.LimitWriter.{LimitExceededWriter}
use alpine_judge.Agent.Signals.{WaitError, signal_handler}
use alpine_judge.Agent.RunTest.{
  Sandbox, Ended, context_done, finished, stream, judge_run, judge_started, run_with_expected,
  run_test_case,
}
use alpine_judge.Agent.Signals.Memory.{signal_handler-classes}
use alpine_judge.Common.{Option-cases, Bool-cases, inl, inr}
use alpine_judge.Agent.RunTest.Passing.{passed}
use alpine_judge.Agent.RunTest.Stages.{Started-cases}

-- The verdict of a test, whatever happens: a pass, a wrong answer, or one of five fixed texts.
pub data Verdict (n : ℕ) (v : Bytes) : Type 0 where
  pass : v ≡ passed n → Verdict n v
  wrong : v ≡ verdict_wa ++ str " in test " ++ sprint n → Verdict n v
  too_long : v ≡ verdict_tle → Verdict n v
  failed : v ≡ verdict_re → Verdict n v
  too_much_output : v ≡ verdict_ole → Verdict n v
  too_much_memory : v ≡ verdict_mle → Verdict n v
  internal : v ≡ verdict_ie → Verdict n v

signal_handler-Verdict :
    (name : ℕ → Bytes) (limit : ℕ) (rss : Option ℕ) (e : WaitError) (n : ℕ)
    → Verdict n (signal_handler name limit rss e).status
signal_handler-Verdict name limit rss e n = elim (signal_handler-classes name limit rss e) [
  | inl (inl mle, _) ↦ too_much_memory mle
  | inl (inr tle, _) ↦ too_long tle
  | inr (inl (ole, _)) ↦ too_much_output ole
  | inr (inr re) ↦ failed re
]

judge_run-Verdict :
    (box : Sandbox) (spec : AgentExecSpec) (wanted : Bytes) (n : ℕ) (rss : Option ℕ)
    (out err : LimitExceededWriter) (e : Ended)
    → Verdict n (judge_run box spec wanted n rss out err e).verdict
unfolding judge_run
judge_run-Verdict box spec wanted n rss out err context_done =
    elim (Bool-cases (out.limit_reached || err.limit_reached)) [
      | inl e ↦ rw e (too_much_output refl)
      | inr e ↦ rw e (too_long refl)
    ]
judge_run-Verdict box spec wanted n rss out err (finished none) =
    elim (Bool-cases (out.limit_reached || err.limit_reached)) [
      | inl e ↦ rw e (too_much_output refl)
      | inr e ↦ rw e (elim (Bool-cases (trim_space out.buf == trim_space wanted)) [
        | inl same ↦ pass (ground arith)
        | inr differ ↦ wrong (ground arith)
      ])
    ]
judge_run-Verdict box spec wanted n rss out err (finished (some e)) =
    elim (Bool-cases (out.limit_reached || err.limit_reached)) [
      | inl over ↦ rw over (too_much_output refl)
      | inr fits ↦
          rw fits
            (elim (Bool-cases
              (signal_handler box.signal_name spec.memory_limit_mb rss e).is_signal) [
                | inl by_signal ↦
                    rw by_signal
                      (signal_handler-Verdict box.signal_name spec.memory_limit_mb rss e n)
                | inr by_exit ↦ rw by_exit (failed refl)
              ])
    ]

-- Whatever the files, the process and the system do, a test ends with one of seven verdicts: the
-- pass of its number, the wrong answer of its number, or one of the five fixed texts for the limits
-- and the errors.
run_test_case-Verdict :
    (box : Sandbox) (spec : AgentExecSpec) (input expected : Bytes) (n : ℕ)
    → Verdict n (run_test_case box spec input expected n).verdict
unfolding run_test_case
run_test_case-Verdict box spec input expected n = elim (Option-cases (box.open_error input)) [
  | inr (text, e) ↦ rw (e, run_test_case) (internal refl)
  | inl opened ↦ elim (IoResult-cases (box.read_file expected)) [
    | inr (text, e) ↦ rw (opened, run_test_case, e, run_with_expected) (internal refl)
    | inl (wanted, read) ↦ elim (Bool-cases (is_empty spec.run_args)) [
      | inl e ↦ rw (opened, run_test_case, read, run_with_expected, e) (internal refl)
      | inr has_args ↦
          rw (opened, run_test_case, read, run_with_expected, has_args)
            (elim (Started-cases (box.launch spec.run_args input spec.timeout_sec n)) [
              | inr (text, e) ↦ rw (e, judge_started) (internal refl)
              | inl (run, launched) ↦
                  rw (launched, judge_started)
                    (judge_run-Verdict box spec wanted n run.maxrss (stream spec run.stdout)
                      (stream spec run.stderr) run.ended)
            ])
    ]
  ]
]

only-pass : (n : ℕ) (v : Bytes) → Verdict n v → has_prefix v verdict_ok ≡ true → v ≡ passed n
unfolding has_prefix
only-pass n v (pass e) h = e
only-pass n v (wrong e) h = let k = rw e at h in cc
only-pass n v (too_long e) h = let k = rw e at h in cc
only-pass n v (failed e) h = let k = rw e at h in cc
only-pass n v (too_much_output e) h = let k = rw e at h in cc
only-pass n v (too_much_memory e) h = let k = rw e at h in cc
only-pass n v (internal e) h = let k = rw e at h in cc

-- The agent tells a pass by the prefix `Running test`: no other verdict has it.
pub run_test_case-prefix :
    (box : Sandbox) (spec : AgentExecSpec) (input expected : Bytes) (n : ℕ)
    → has_prefix (run_test_case box spec input expected n).verdict verdict_ok ≡ true
    → (run_test_case box spec input expected n).verdict ≡ passed n
run_test_case-prefix box spec input expected n =
    only-pass n _ (run_test_case-Verdict box spec input expected n)
