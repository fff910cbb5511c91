-- ===== src/Agent/Session/Judging.antt =====
-- The judgement of a testset as functions of the list of its runs.
pub mod Matching
use alpine_judge.Common.{
  ℕ, zero, suc, ◌+◌, ◌≤◌, ◌<◌, ◌≡◌, refl, Bool, true, false, not, ◌&&◌, Option, none, some, List,
  [], ◌∷◌, ◌++◌, map,
}
use alpine_judge.Common.{
  ◌==◌, nat_eq, list_eq, length, is_empty, if◌then◌else◌, arith, Option-cases, Bool-cases, inl, inr,
  ap, ◌∙◌,
}
use alpine_judge.Common.Results.{io_ok}
use alpine_judge.Common.Text.{Bytes, str, has_prefix}
use alpine_judge.Utils.Executes.{AgentExecSpec, Event}
use alpine_judge.Agent.Verdict.{
  RuntimeInfo, verdict_ok, verdict_ac, verdict_wa, verdict_ie, verdict_ce, error,
}
use alpine_judge.Agent.LimitWriter.{new_writer, writes}
use alpine_judge.Agent.FindTestFiles.{find_testcase_files}
use alpine_judge.Agent.RunTest.{Sandbox, run_test_case}
use alpine_judge.Agent.Session.{
  Container, AgentEnd, returned, compiling, succeeded, rejected, unending, send_event, send_result,
  report, is_final, LoopEnd, sent, broke, after_test, test_loop, finish, compiled, follow_spec,
  with_spec, with_payload, socket_path, runner_agent,
}

-- The runs of the tests from number `i` on, up to the first number without files.
pub data Testset (box : Sandbox) (spec : AgentExecSpec) : ℕ → List RuntimeInfo → Type 0 where
  last : (i : ℕ) → find_testcase_files box.stat spec.testset_path i ≡ none → Testset box spec i []
  next :
      (i : ℕ) (input output : Bytes) (rs : List RuntimeInfo)
      → find_testcase_files box.stat spec.testset_path i ≡ some (input, output)
      → Testset box spec (i + 1) rs
      → Testset box spec i (run_test_case box spec input output i ∷ rs)

abbrev pub is_pass : RuntimeInfo → Bool
is_pass r = has_prefix r.verdict verdict_ok

-- The result that a run leads to at once, if any: its own verdict where it is one of the final ones,
-- and a wrong answer where the first error halts.
unfoldable pub stops : Bool → RuntimeInfo → Option Bytes
stops halt r =
    if is_final r.verdict
    then some r.verdict
    else if halt && not (is_pass r)
    then some verdict_wa
    else none

abbrev pub or_else : Option Bytes → Option Bytes → Option Bytes
or_else (some v) later = some v
or_else none later = later

abbrev pub unless_stopped : Option Bytes → List RuntimeInfo → List RuntimeInfo
unless_stopped (some v) later = []
unless_stopped none later = later

-- The first such result.
abbrev pub first_stop : Bool → List RuntimeInfo → Option Bytes
first_stop halt [] = none
first_stop halt (r ∷ rs) = or_else (stops halt r) (first_stop halt rs)

-- The runs up to and with the one that stops.
abbrev pub shown : Bool → List RuntimeInfo → List RuntimeInfo
shown halt [] = []
shown halt (r ∷ rs) = r ∷ unless_stopped (stops halt r) (shown halt rs)

abbrev pub all_pass : List RuntimeInfo → Bool
all_pass [] = true
all_pass (r ∷ rs) = is_pass r && all_pass rs

-- The result of a testset with these runs.
abbrev pub judgement : Bool → List RuntimeInfo → Bytes
judgement halt rs = elim (first_stop halt rs) [
  | some v ↦ v
  | none ↦ if all_pass rs then verdict_ac else verdict_wa
]

-- The events of a testset.
abbrev pub judging : AgentExecSpec → List RuntimeInfo → List Event
judging spec [] =
    send_event error verdict_ie [] []
      (str "No valid testcases or .in files found in '" ++ spec.testset_path ++ str "'")
    ∷ send_result verdict_ie
    ∷ []
judging spec (r ∷ rs) =
    map report (shown spec.halt_on_first_error (r ∷ rs))
    ++ send_result (judgement spec.halt_on_first_error (r ∷ rs)) ∷ []

-- What the agent is to send for a submission with these runs: the compiler's output where it fails,
-- nothing where it never ends, and the judgement of the testset otherwise.
unfoldable pub judged : Container → AgentExecSpec → List RuntimeInfo → List Event
judged c spec rs =
    if is_empty spec.compile_args
    then judging spec rs
    else (let k = c.compile spec.compile_args in
        elim k.ending [
          | rejected _ ↦
              send_event error verdict_ce (writes (new_writer spec.log_limit_kb false) k.stdout).buf
                (writes (new_writer spec.log_limit_kb false) k.stderr).buf []
              ∷ send_result (str "Compilation error")
              ∷ []
          | succeeded ↦ judging spec rs
          | unending ↦ []
        ])

-- How the agent is to end: it returns, unless its compiler never ends.
unfoldable pub judged_end : Container → AgentExecSpec → AgentEnd
judged_end c spec =
    if is_empty spec.compile_args then returned else elim (c.compile spec.compile_args).ending [
      | rejected _ ↦ returned
      | succeeded ↦ returned
      | unending ↦ compiling
    ]
