-- ===== src/Agent/Session.antt =====
-- ajagent/internal/ajagent.go and utils.go: one life of the agent, from its socket to the result,
-- as the list of events that it sends. An event that cannot be sent is logged and lost, and the
-- agent goes on, so sending has no other effect here.
pub mod Protocol
pub mod Loop
pub mod Judging
pub mod Acceptance
pub mod Output
use alpine_judge.Common.{
  ℕ, zero, suc, ◌+◌, ◌*◌, Bool, true, false, not, ◌||◌, ◌&&◌, Option, none, some, List, [], ◌∷◌,
  ◌++◌, ◌≡◌, ◌⊎◌, inl, inr, refl,
}
use alpine_judge.Common.{◌==◌, nat_eq, list_eq, is_empty, if◌then◌else◌}
use alpine_judge.Common.Results.{IoResult, IoResult-cases, io_error, io_ok}
use alpine_judge.Common.Text.{Bytes, str, has_prefix}
use alpine_judge.Utils.Executes.{AgentExecSpec, Event}
use alpine_judge.Agent.Verdict.{
  RuntimeInfo, verdict_ok, verdict_ac, verdict_wa, verdict_tle, verdict_re, verdict_mle,
  verdict_ole, verdict_ce, verdict_ie, fatal, error, info, result,
}
use alpine_judge.Agent.LimitWriter.{new_writer, writes}
use alpine_judge.Agent.FindTestFiles.{find_testcase_files}
use alpine_judge.Agent.RunTest.{Sandbox, run_test_case}

-- How `cmd.Run` of the compiler ends: without an error, with one, or never, since it has no timeout.
pub data CompilerEnd : Type 0 where
  succeeded : CompilerEnd
  rejected : Bytes → CompilerEnd
  unending : CompilerEnd

-- A run of the compiler: what it writes, and how it ends.
pub record Compilation : Type 0 where
  pub stdout : List Bytes
  pub stderr : List Bytes
  pub ending : CompilerEnd

-- What the agent meets: the environment variable (empty where it is not set), the socket and the
-- line that arrives on it, `json.Unmarshal` into the spec, the compiler, and the tests' sandbox.
pub record Container : Type 0 where
  pub stream_socket_path : Bytes
  pub dial_error : Bytes → Option Bytes
  pub payload : IoResult Bytes
  pub unmarshal : Bytes → IoResult AgentExecSpec
  pub compile : List Bytes → Compilation
  pub sandbox : Sandbox

-- How the agent ends: it returns, it exits with a code, it waits for its compiler for good, or the
-- fuel of the loop was not enough.
pub data AgentEnd : Type 0 where
  returned : AgentEnd
  exited : ℕ → AgentEnd
  compiling : AgentEnd
  out_of_fuel : AgentEnd

pub record Session : Type 0 where
  pub events : List Event
  pub ending : AgentEnd

abbrev pub send_event : Bytes → Bytes → Bytes → Bytes → Bytes → Event
send_event type status stdout stderr details = record {
  type = type;
  status = status;
  stdout = stdout;
  stderr = stderr;
  details = details;
}

abbrev pub send_result : Bytes → Event
send_result status = send_event result status [] [] []

-- The event of one test.
abbrev pub report : RuntimeInfo → Event
report r = send_event info r.verdict r.stdout r.stderr r.details

-- The verdicts that end the session at once.
unfoldable pub is_final : Bytes → Bool
is_final v =
    v == verdict_re || v == verdict_tle || v == verdict_ole || v == verdict_mle || v == verdict_ie

-- How the loop over the tests ends: by a result already sent, by a missing test after `test_count`
-- tests, or out of fuel.
pub data LoopEnd : Type 0 where
  sent : LoopEnd
  broke : ℕ → Bool → LoopEnd
  starved : LoopEnd

-- The body of the loop for a test that was run, before the rest of the loop.
abbrev pub after_test : AgentExecSpec → RuntimeInfo → LoopEnd × List Event → LoopEnd × List Event
after_test spec r rest =
    if is_final r.verdict
    then (sent, report r ∷ send_result r.verdict ∷ [])
    else if spec.halt_on_first_error && not (has_prefix r.verdict verdict_ok)
    then (sent, report r ∷ send_result verdict_wa ∷ [])
    else (rest.0, report r ∷ rest.1)

-- The loop from test `i` on: fuel, `i`, `testCount`, `allCorrect`.
pub test_loop : Sandbox → AgentExecSpec → ℕ → ℕ → ℕ → Bool → LoopEnd × List Event
unfolding is_final has_prefix
test_loop box spec zero i test_count all_correct = (starved, [])
test_loop box spec (suc fuel) i test_count all_correct =
    elim (find_testcase_files box.stat spec.testset_path i) [
      | none ↦ (broke test_count all_correct, [])
      | some (input, output) ↦
          let r = run_test_case box spec input output i in
          after_test spec r (
            test_loop box spec fuel (i + 1) i
              (if has_prefix r.verdict verdict_ok then all_correct else false))
    ]

-- What follows the loop.
pub finish : AgentExecSpec → LoopEnd × List Event → Session
finish spec (sent, events) = record { events = events; ending = returned }
finish spec (starved, events) = record { events = events; ending = out_of_fuel }
finish spec (broke test_count all_correct, events) =
    if test_count == 0
    then record {
      events =
          events
          ++ send_event error verdict_ie [] []
              (str "No valid testcases or .in files found in '" ++ spec.testset_path ++ str "'")
            ∷ send_result verdict_ie
            ∷ [];
      ending = returned;
    }
    else record {
      events = events ++ send_result (if all_correct then verdict_ac else verdict_wa) ∷ [];
      ending = returned;
    }

-- The fourth and fifth steps of `RunnerAgent`: a failed compilation ends the session.
compiled : Container → ℕ → AgentExecSpec → CompilerEnd → Compilation → Session
unfolding test_loop finish
compiled c fuel spec (rejected _) k = record {
  events =
      send_event error verdict_ce (writes (new_writer spec.log_limit_kb false) k.stdout).buf
        (writes (new_writer spec.log_limit_kb false) k.stderr).buf []
      ∷ send_result (str "Compilation error")
      ∷ [];
  ending = returned;
}
compiled c fuel spec unending k = record { events = []; ending = compiling }
compiled c fuel spec succeeded k = finish spec (test_loop c.sandbox spec fuel 1 0 true)

pub follow_spec : Container → ℕ → AgentExecSpec → Session
unfolding compiled
follow_spec c fuel spec =
    if is_empty spec.compile_args
    then finish spec (test_loop c.sandbox spec fuel 1 0 true)
    else (let k = c.compile spec.compile_args in compiled c fuel spec k.ending k)

with_spec : Container → ℕ → IoResult AgentExecSpec → Session
unfolding follow_spec
with_spec c fuel (io_error text) = record {
  events =
      send_event fatal verdict_ie [] [] (str "Failed to unmarshal execspec: " ++ text ++ str "\n")
      ∷ send_result verdict_ie
      ∷ [];
  ending = returned;
}
with_spec c fuel (io_ok spec) = follow_spec c fuel spec

with_payload : Container → ℕ → IoResult Bytes → Session
unfolding with_spec
with_payload c fuel (io_error text) = record {
  events =
      send_event fatal verdict_ie [] [] (str "Failed to recieved execspec: " ++ text ++ str "\n")
      ∷ [];
  ending = returned;
}
with_payload c fuel (io_ok line) = with_spec c fuel (c.unmarshal line)

-- `socketPath`, with its default.
unfoldable pub socket_path : Container → Bytes
socket_path c =
    if is_empty c.stream_socket_path then str "/tmp/ajagent.sock" else c.stream_socket_path

-- `RunnerAgent`
unfoldable pub runner_agent : Container → ℕ → Session
unfolding with_payload
runner_agent c fuel = elim (c.dial_error (socket_path c)) [
  | some _ ↦ record { events = []; ending = exited 1 }
  | none ↦ with_payload c fuel c.payload
]

pub CompilerEnd-cases :
    (e : CompilerEnd) → (e ≡ succeeded) ⊎ (((text : Bytes) × (e ≡ rejected text)) ⊎ (e ≡ unending))
CompilerEnd-cases succeeded = inl refl
CompilerEnd-cases (rejected text) = inr (inl (text, refl))
CompilerEnd-cases unending = inr (inr refl)
