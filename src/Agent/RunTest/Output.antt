-- ===== src/Agent/RunTest/Output.antt =====
-- How much output the result of a test carries.
use alpine_judge.Common.{
  ℕ, ◌*◌, ◌^◌, ◌≤◌, ◌<◌, ◌≡◌, refl, Bool, true, false, ◌||◌, Option, none, some, List, [], ◌∷◌,
  arith,
}
use alpine_judge.Common.{
  All, length, length-take, is_empty, list_eq, nat_eq, Option-cases, inl, inr, if◌then◌else◌,
}
use alpine_judge.Common.Results.{IoResult, io_error, io_ok}
use alpine_judge.Common.Text.{Bytes}
use alpine_judge.Utils.Executes.{AgentExecSpec}
use alpine_judge.Agent.Verdict.{RuntimeInfo}
use alpine_judge.Agent.LimitWriter.{LimitExceededWriter, new_writer, writes}
use alpine_judge.Agent.LimitWriter.Capture.{IsSlice, concat, writes-new_writer}
use alpine_judge.Agent.RunTest.{
  Sandbox, Run, Started, start_error, started, Ended, context_done, finished, stream, judge_run,
  judge_started, run_with_expected, run_test_case,
}

-- The writes of every process that is started are slices.
abbrev pub RunsSlices : Sandbox → Type 0
RunsSlices box =
    (args : List Bytes) (input : Bytes) (timeout n : ℕ) (r : Run)
    → box.launch args input timeout n ≡ started r
    → All IsSlice r.stdout × All IsSlice r.stderr

-- Neither stream is longer than the limit.
abbrev pub RunWithin : ℕ → RuntimeInfo → Type 0
RunWithin limit r = (length r.stdout ≤ limit) × (length r.stderr ≤ limit)

pub writes-length :
    (kb : ℕ) (cancel : Bool) (ps : List Bytes)
    → kb < 2 ^ 32
    → All IsSlice ps
    → length (writes (new_writer kb cancel) ps).buf ≤ kb * 1000
unfolding writes new_writer
writes-length kb cancel [] small slices = omega arith
writes-length kb cancel (p ∷ ps) small slices =
    let (_, kept, _) = writes-new_writer kb cancel p ps small slices in
    rw kept (omega (arith, length-take (kb * 1000) (concat (p ∷ ps))))

if-RunWithin :
    (limit : ℕ) (b : Bool) (x y : RuntimeInfo)
    → RunWithin limit x
    → RunWithin limit y
    → RunWithin limit (if b then x else y)
if-RunWithin limit true x y h k = h
if-RunWithin limit false x y h k = k

judge_run-RunWithin :
    (box : Sandbox) (spec : AgentExecSpec) (limit : ℕ) (expected : Bytes) (n : ℕ)
    (maxrss : Option ℕ) (out err : LimitExceededWriter) (ended : Ended)
    → (length out.buf ≤ limit) × (length err.buf ≤ limit)
    → RunWithin limit (judge_run box spec expected n maxrss out err ended)
unfolding judge_run
judge_run-RunWithin box spec limit expected n maxrss out err context_done h =
    if-RunWithin limit (out.limit_reached || err.limit_reached) _ _ h h
judge_run-RunWithin box spec limit expected n maxrss out err (finished none) h =
    if-RunWithin limit (out.limit_reached || err.limit_reached) _ _ h (if-RunWithin limit _ _ _ h h)
judge_run-RunWithin box spec limit expected n maxrss out err (finished (some e)) h =
    if-RunWithin limit (out.limit_reached || err.limit_reached) _ _ h (if-RunWithin limit _ _ _ h h)

module _ (box : Sandbox) (spec : AgentExecSpec) (slices : RunsSlices box)
    (small : spec.log_limit_kb < 2 ^ 32) where
  judge_started-RunWithin :
      (expected : Bytes) (n : ℕ) (s : Started)
      → ((r : Run) → s ≡ started r → All IsSlice r.stdout × All IsSlice r.stderr)
      → RunWithin (spec.log_limit_kb * 1000) (judge_started box spec expected n s)
  unfolding judge_started new_writer
  judge_started-RunWithin expected n (start_error text) sliced = (omega arith, omega arith)
  judge_started-RunWithin expected n (started r) sliced =
      let (out, err) = sliced r refl in
      judge_run-RunWithin box spec (spec.log_limit_kb * 1000) expected n r.maxrss
        (stream spec r.stdout) (stream spec r.stderr) r.ended
        (
          writes-length spec.log_limit_kb true r.stdout small out,
          writes-length spec.log_limit_kb true r.stderr small err,
        )

  run_with_expected-RunWithin :
      (input : Bytes) (n : ℕ) (r : IoResult Bytes)
      → RunWithin (spec.log_limit_kb * 1000) (run_with_expected box spec input n r)
  unfolding run_with_expected
  run_with_expected-RunWithin input n (io_error text) = (omega arith, omega arith)
  run_with_expected-RunWithin input n (io_ok expected) =
      if-RunWithin (spec.log_limit_kb * 1000) (is_empty spec.run_args) _ _
        (omega arith, omega arith)
        (judge_started-RunWithin expected n _
          (λ r e. slices spec.run_args input spec.timeout_sec n r e))

  -- Neither stream of a result is longer than the limit of a thousand bytes for each KB.
  pub run_test_case-RunWithin :
      (input expected : Bytes) (n : ℕ)
      → RunWithin (spec.log_limit_kb * 1000) (run_test_case box spec input expected n)
  unfolding run_test_case
  run_test_case-RunWithin input expected n = elim (Option-cases (box.open_error input)) [
    | inl e ↦ rw (e, run_test_case) (run_with_expected-RunWithin input n (box.read_file expected))
    | inr (text, e) ↦ rw (e, run_test_case) (omega arith, omega arith)
  ]
