-- ===== src/Agent/Session/Output.antt =====
-- How much output the events of a session carry.
use alpine_judge.Common.{
  ℕ, ◌+◌, ◌*◌, ◌^◌, ◌≤◌, ◌<◌, ◌≡◌, Bool, false, Option, none, some, List, [], ◌∷◌, map, arith,
}
use alpine_judge.Common.{All, All-append, length, is_empty, Bool-cases, inl, inr}
use alpine_judge.Common.Results.{io_ok}
use alpine_judge.Common.Text.{Bytes}
use alpine_judge.Utils.Executes.{AgentExecSpec, Event}
use alpine_judge.Agent.Verdict.{RuntimeInfo}
use alpine_judge.Agent.LimitWriter.Capture.{IsSlice}
use alpine_judge.Agent.RunTest.{Sandbox}
use alpine_judge.Agent.RunTest.Output.{
  RunsSlices, RunWithin, writes-length, run_test_case-RunWithin,
}
use alpine_judge.Agent.Session.{Container, CompilerEnd-cases, socket_path, report, runner_agent}
use alpine_judge.Agent.Session.Judging.{
  Testset, last, next, stops, unless_stopped, shown, judging, judged,
}
use alpine_judge.Agent.Session.Judging.Matching.{runner_agent-judged}

-- Neither stream of the event is longer than the limit.
abbrev pub IsWithin : ℕ → Event → Type 0
IsWithin limit e = (length e.stdout ≤ limit) × (length e.stderr ≤ limit)

-- The writes of every process, of the compiler and of the tests, are slices.
pub record WritesSlices (c : Container) : Type 0 where
  pub compiles :
      (args : List Bytes)
      → All IsSlice (c.compile args).stdout × All IsSlice (c.compile args).stderr
  pub runs : RunsSlices c.sandbox

Testset-RunWithin :
    (box : Sandbox) (spec : AgentExecSpec) (i : ℕ) (rs : List RuntimeInfo)
    → RunsSlices box
    → spec.log_limit_kb < 2 ^ 32
    → Testset box spec i rs
    → All (RunWithin (spec.log_limit_kb * 1000)) rs
Testset-RunWithin box spec _ _ slices small (last i missing) = tt
Testset-RunWithin box spec _ _ slices small (next i input output rs found ts) = (
  run_test_case-RunWithin box spec slices small input output i,
  Testset-RunWithin box spec (i + 1) rs slices small ts,
)

unless_stopped-All :
    (P : RuntimeInfo → Type 0) (stop : Option Bytes) (rs : List RuntimeInfo)
    → All P rs
    → All P (unless_stopped stop rs)
unless_stopped-All P none rs h = h
unless_stopped-All P (some v) rs h = tt

shown-IsWithin :
    (limit : ℕ) (halt : Bool) (rs : List RuntimeInfo)
    → All (RunWithin limit) rs
    → All (RunWithin limit) (shown halt rs)
shown-IsWithin limit halt [] h = tt
shown-IsWithin limit halt (r ∷ rs) (h, hs) =
    (h, unless_stopped-All (RunWithin limit) (stops halt r) _ (shown-IsWithin limit halt rs hs))

report-IsWithin :
    (limit : ℕ) (rs : List RuntimeInfo)
    → All (RunWithin limit) rs
    → All (IsWithin limit) (map report rs)
report-IsWithin limit [] h = tt
report-IsWithin limit (r ∷ rs) (h, hs) = (h, report-IsWithin limit rs hs)

judging-IsWithin :
    (spec : AgentExecSpec) (limit : ℕ) (rs : List RuntimeInfo)
    → All (RunWithin limit) rs
    → All (IsWithin limit) (judging spec rs)
judging-IsWithin spec limit [] h = ((omega arith, omega arith), ((omega arith, omega arith), tt))
judging-IsWithin spec limit (r ∷ rs) h =
    All-append (IsWithin limit) (map report (shown spec.halt_on_first_error (r ∷ rs))) (_ ∷ [])
      (report-IsWithin limit (shown spec.halt_on_first_error (r ∷ rs))
        (shown-IsWithin limit spec.halt_on_first_error (r ∷ rs) h))
      ((omega arith, omega arith), tt)

judged-IsWithin :
    (c : Container) (spec : AgentExecSpec) (rs : List RuntimeInfo)
    → WritesSlices c
    → spec.log_limit_kb < 2 ^ 32
    → All (RunWithin (spec.log_limit_kb * 1000)) rs
    → All (IsWithin (spec.log_limit_kb * 1000)) (judged c spec rs)
unfolding judged
judged-IsWithin c spec rs slices small h =
    let limit = spec.log_limit_kb * 1000 in
    let k = c.compile spec.compile_args in
    let (out, err) = slices.compiles spec.compile_args in
    elim (Bool-cases (is_empty spec.compile_args)) [
      | inl e ↦ rw e (judging-IsWithin spec limit rs h)
      | inr e ↦ elim (CompilerEnd-cases k.ending) [
        | inl fine ↦ rw (e, fine) (judging-IsWithin spec limit rs h)
        | inr (inr never) ↦ rw (e, never) tt
        | inr (inl (text, failed)) ↦
            rw (e, failed)
              (
                (
                  writes-length spec.log_limit_kb false k.stdout small out,
                  writes-length spec.log_limit_kb false k.stderr small err,
                ),
                ((omega arith, omega arith), tt),
              )
      ]
    ]

-- No event of a session carries more of the output, or of the error output, of the compiler or of
-- a test than the log limit of its instructions, a thousand bytes for each KB, however much the
-- programs write. It holds for an agent that gets its instructions, with a log limit of 32 bits,
-- and a testset with files for tests 1 to n and none for test n + 1; fuel of more than n is enough.
pub runner_agent-IsWithin :
    (c : Container) (fuel : ℕ) (line : Bytes) (spec : AgentExecSpec) (rs : List RuntimeInfo)
    → c.dial_error (socket_path c) ≡ none
    → c.payload ≡ io_ok line
    → c.unmarshal line ≡ io_ok spec
    → Testset c.sandbox spec 1 rs
    → length rs < fuel
    → WritesSlices c
    → spec.log_limit_kb < 2 ^ 32
    → All (IsWithin (spec.log_limit_kb * 1000)) (runner_agent c fuel).events
runner_agent-IsWithin c fuel line spec rs dialled read decoded ts enough slices small =
    rw (runner_agent-judged c fuel line spec rs dialled read decoded ts enough) (
      judged-IsWithin c spec rs slices small
        (Testset-RunWithin c.sandbox spec 1 rs slices.runs small ts))
