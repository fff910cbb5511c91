-- ===== src/Examples/AgentRuns.antt =====
-- ajagent/internal: one test that passes, a testset of one test, and files, writers and signals.
use alpine_judge.Common.{
  ℕ, ◌*◌, ◌≡◌, refl, ◌↔◌, true, false, ◌||◌, ◌&&◌, none, some, [], ◌∷◌, arith,
}
use alpine_judge.Common.{◌==◌, list_eq, nat_eq, leb, length, take, if◌then◌else◌}
use alpine_judge.Common.{All}
use alpine_judge.Common.Results.{io_error, io_ok}
use alpine_judge.Common.Text.{str}
use alpine_judge.Common.Text.Decimal.{sprint, sprint_padded}
use alpine_judge.Common.Text.Trim.{trim_space}
use alpine_judge.Common.FilePath.{join}
use alpine_judge.Utils.Executes.{AgentExecSpec}
use alpine_judge.Agent.Verdict.{verdict_ac}
use alpine_judge.Agent.LimitWriter.{new_writer, writes}
use alpine_judge.Agent.LimitWriter.Capture.{concat, writes-new_writer}
use alpine_judge.Agent.Signals.{ended}
use alpine_judge.Agent.FindTestFiles.{formats, input_path, output_path, find_testcase_files}
use alpine_judge.Agent.FindTestFiles.Names.{find_testcase_files-injective}
use alpine_judge.Agent.RunTest.{Sandbox, Run, started, finished, run_test_case}
use alpine_judge.Agent.RunTest.Passing.{passed, IsPassed, run_test_case-passed_iff}
use alpine_judge.Agent.Session.{Container, succeeded, returned, send_result, runner_agent}
use alpine_judge.Agent.Verdict.{RuntimeInfo}
use alpine_judge.Agent.Session.Judging.{Testset, last, next, judged, judged_end}
use alpine_judge.Agent.Session.Judging.Matching.{runner_agent-judged}
use alpine_judge.Agent.Session.Output.{IsWithin, WritesSlices, runner_agent-IsWithin}
use alpine_judge.Agent.Session.Protocol.{
  IsComplete, CompilerEnds, HasGap, NoResult, runner_agent-IsComplete, runner_agent_unread,
}
use alpine_judge.Agent.Session.Acceptance.{IsAccepted, last_event, runner_agent-IsAccepted_iff}

abbrev pub spec : AgentExecSpec
spec = record {
  submission_id = [];
  halt_on_first_error = false;
  log_limit_kb = 1;
  timeout_sec = 2;
  memory_limit_mb = 64;
  testset_path = str "/t/";
  compile_args = [];
  run_args = str "/tmp/main" ∷ [];
}

abbrev pub run : Run
run = record {
  stdout = str "3" ∷ str "\n" ∷ [];
  stderr = [];
  maxrss = some 2048;
  ended = finished none;
}

-- A testset of one test, whose output is `3`.
abbrev pub box : Sandbox
box = record {
  stat = λ p. p == str "/t/1.in" || p == str "/t/1.out";
  open_error = λ p. none;
  read_file = λ p. io_ok (str "3");
  launch = λ args input timeout n. started run;
  signal_name = λ n. str "killed";
}

abbrev pub container : Container
container = record {
  stream_socket_path = [];
  dial_error = λ p. none;
  payload = io_ok (str "{}");
  unmarshal = λ line. io_ok spec;
  compile = λ args. record { stdout = []; stderr = []; ending = succeeded };
  sandbox = box;
}

-- Its socket closes before a line arrives.
abbrev unread : Container
unread = record container { payload = io_error (str "EOF") }

pub one_test : HasGap container 3 spec
unfolding find_testcase_files formats input_path output_path join sprint sprint_padded
one_test = (2, omega arith, omega arith, refl)

found_first : find_testcase_files box.stat (str "/t/") 1 ≡ some (str "/t/1.in", str "/t/1.out")
unfolding find_testcase_files formats input_path output_path join sprint sprint_padded
found_first = refl

runner_agent-IsAccepted_iff_example :
    (last_event (runner_agent container 3).events ≡ some (send_result verdict_ac))
    ↔ IsAccepted container spec
runner_agent-IsAccepted_iff_example =
    runner_agent-IsAccepted_iff container 3 (str "{}") spec refl refl refl one_test

accepted_run : last_event (runner_agent container 3).events ≡ some (send_result verdict_ac)
unfolding runner_agent find_testcase_files formats input_path output_path join sprint sprint_padded
    run_test_case writes new_writer trim_space
accepted_run = refl

runner_agent-IsComplete_example :
    ((runner_agent container 3).ending ≡ returned) × IsComplete (runner_agent container 3).events
runner_agent-IsComplete_example =
    runner_agent-IsComplete container 3 (str "{}") refl refl (λ s e. gap s e)
  where
    gap :
        (s : AgentExecSpec)
        → container.unmarshal (str "{}") ≡ io_ok s
        → CompilerEnds container s × HasGap container 3 s
    gap s e = let same : spec ≡ s = cc in rw (← same) (λ e h. cc, one_test)

runner_agent_unread_example :
    ((runner_agent unread 3).ending ≡ returned)
    × NoResult (runner_agent unread 3).events
    × ¬ IsComplete (runner_agent unread 3).events
runner_agent_unread_example = runner_agent_unread unread 3 (str "EOF") refl refl

run_test_case-passed_iff_example :
    ((run_test_case box spec (str "/t/1.in") (str "/t/1.out") 1).verdict ≡ passed 1)
    ↔ IsPassed box spec (str "/t/1.in") (str "/t/1.out") 1
run_test_case-passed_iff_example =
    run_test_case-passed_iff box spec (str "/t/1.in") (str "/t/1.out") 1

writes-new_writer_example :
    let w = writes (new_writer 1 true) (str "3" ∷ str "\n" ∷ []) in
    (w.limit_reached ≡ leb (1 * 1000) (length (concat (str "3" ∷ str "\n" ∷ []))))
    × (w.buf ≡ take (1 * 1000) (concat (str "3" ∷ str "\n" ∷ [])))
    × (w.cancels ≡ (if true && w.limit_reached then 1 else 0))
writes-new_writer_example =
    writes-new_writer 1 true (str "3") (str "\n" ∷ []) (omega arith)
      (omega arith, (omega arith, tt))

find_testcase_files-injective_example : ◌≡◌ {A = ℕ} 1 1
find_testcase_files-injective_example =
    find_testcase_files-injective box.stat (str "/t/") 1 1 (λ h. cc) found_first found_first

-- The one run of the testset, for a container of this kind.
abbrev pub only_run : RuntimeInfo
only_run = run_test_case box spec (str "/t/1.in") (str "/t/1.out") 1

found_none : find_testcase_files box.stat (str "/t/") 2 ≡ none
unfolding find_testcase_files formats input_path output_path join sprint sprint_padded
found_none = refl

pub one_run : Testset box spec 1 (only_run ∷ [])
one_run = next 1 (str "/t/1.in") (str "/t/1.out") [] found_first (last 2 found_none)

runner_agent-judged_example :
    runner_agent container 3
    ≡ record { events = judged container spec (only_run ∷ []); ending = judged_end container spec }
runner_agent-judged_example =
    runner_agent-judged container 3 (str "{}") spec (only_run ∷ []) refl refl refl one_run
      (omega arith)

slices : WritesSlices container
slices = record {
  compiles = λ args. (tt, tt);
  runs = λ args input timeout n r e.
      let same : run ≡ r = cc in rw (← same) ((omega arith, (omega arith, tt)), tt);
}

runner_agent-IsWithin_example : All (IsWithin (1 * 1000)) (runner_agent container 3).events
runner_agent-IsWithin_example =
    runner_agent-IsWithin container 3 (str "{}") spec (only_run ∷ []) refl refl refl one_run
      (omega arith) slices (omega arith)
