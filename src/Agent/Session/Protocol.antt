-- ===== src/Agent/Session/Protocol.antt =====
-- The shape of the event stream.
use mathlib.Core.List.{append_assoc}
use alpine_judge.Common.{
  ℕ, zero, suc, ◌+◌, ◌≤◌, ◌<◌, ◌≡◌, ◌≢◌, refl, Bool, true, false, not, ◌&&◌, none, List, [], ◌∷◌,
  ◌++◌,
}
use alpine_judge.Common.{
  ◌==◌, nat_eq, list_eq, is_empty, arith, All, All-append, Option-cases, Bool-cases, inl, inr, sym,
  ap,
}
use native.Mathlib.Decide.{ℕ_discrete}
use alpine_judge.Common.Results.{IoResult, io_error, io_ok}
use alpine_judge.Common.Text.{Bytes, str, has_prefix}
use alpine_judge.Utils.Executes.{AgentExecSpec, Event}
use alpine_judge.Agent.Verdict.{RuntimeInfo, fatal, verdict_ie, verdict_ok, verdict_wa, result}
use alpine_judge.Agent.FindTestFiles.{find_testcase_files}
use alpine_judge.Agent.RunTest.{Sandbox, run_test_case}
use alpine_judge.Agent.Session.{
  Container, returned, send_event, send_result, report, is_final, LoopEnd, sent, broke, starved,
  after_test, test_loop, finish, compiled, unending, CompilerEnd-cases, follow_spec, with_spec,
  with_payload, socket_path, runner_agent,
}

abbrev pub NoResult : List Event → Type 0
NoResult = All (λ e. e.type ≢ result)

-- A stream that is complete: one `RESULT` event, and it stands at the end.
pub record IsComplete (events : List Event) : Type 0 where
  pub progress : List Event
  pub verdict : Bytes
  pub split : events ≡ progress ++ send_result verdict ∷ []
  pub only : NoResult progress

-- The stream so far, by how the loop ended.
abbrev IsFit : LoopEnd × List Event → Type 0
IsFit (sent, events) = IsComplete events
IsFit (broke n ok, events) = NoResult events
IsFit (starved, events) = NoResult events

report-no-result : (r : RuntimeInfo) → (report r).type ≢ result
report-no-result r h = ground arith

cons-IsFit :
    (r : RuntimeInfo) (rest : LoopEnd × List Event) → IsFit rest → IsFit (rest.0, report r ∷ rest.1)
cons-IsFit r (sent, events) f = record {
  progress = report r ∷ f.progress;
  verdict = f.verdict;
  split = ap (λ es. report r ∷ es) f.split;
  only = (report-no-result r, f.only);
}
cons-IsFit r (broke n ok, events) f = (report-no-result r, f)
cons-IsFit r (starved, events) f = (report-no-result r, f)

stop-IsFit : (r : RuntimeInfo) (v : Bytes) → IsFit (sent, report r ∷ send_result v ∷ [])
stop-IsFit r v = record {
  progress = report r ∷ [];
  verdict = v;
  split = refl;
  only = (report-no-result r, tt);
}

after_test-IsFit :
    (spec : AgentExecSpec) (r : RuntimeInfo) (rest : LoopEnd × List Event)
    → IsFit rest
    → IsFit (after_test spec r rest)
after_test-IsFit spec r rest f = elim (Bool-cases (is_final r.verdict)) [
  | inl e ↦ rw e (stop-IsFit r r.verdict)
  | inr e ↦
      rw e (elim (Bool-cases (spec.halt_on_first_error && not (has_prefix r.verdict verdict_ok))) [
        | inl halt ↦ rw halt (stop-IsFit r verdict_wa)
        | inr on ↦ rw on (cons-IsFit r rest f)
      ])
]

test_loop-IsFit :
    (box : Sandbox) (spec : AgentExecSpec) (fuel i n : ℕ) (ok : Bool)
    → IsFit (test_loop box spec fuel i n ok)
unfolding test_loop
test_loop-IsFit box spec zero i n ok = tt
test_loop-IsFit box spec (suc fuel) i n ok =
    elim (Option-cases (find_testcase_files box.stat spec.testset_path i)) [
      | inl missing ↦ rw (missing, test_loop) tt
      | inr ((input, output), found) ↦
          rw (found, test_loop)
            (after_test-IsFit spec (run_test_case box spec input output i) _
              (test_loop-IsFit box spec fuel (i + 1) i _))
    ]

after_test-ne-starved :
    (spec : AgentExecSpec) (r : RuntimeInfo) (rest : LoopEnd × List Event)
    → rest.0 ≢ starved
    → (after_test spec r rest).0 ≢ starved
after_test-ne-starved spec r rest h = elim (Bool-cases (is_final r.verdict)) [
  | inl e ↦ rw e (λ p. cc)
  | inr e ↦
      rw e (elim (Bool-cases (spec.halt_on_first_error && not (has_prefix r.verdict verdict_ok))) [
        | inl halt ↦ rw halt (λ p. cc)
        | inr on ↦ rw on h
      ])
]

-- The fuel lasts if it reaches a number that has no test.
pub test_loop-ne-starved :
    (box : Sandbox) (spec : AgentExecSpec) (k fuel i n : ℕ) (ok : Bool)
    → find_testcase_files box.stat spec.testset_path k ≡ none
    → i ≤ k
    → k < i + fuel
    → (test_loop box spec fuel i n ok).0 ≢ starved
unfolding test_loop
test_loop-ne-starved box spec k zero i n ok gone from to = absurd (omega arith)
test_loop-ne-starved box spec k (suc fuel) i n ok gone from to =
    elim (Option-cases (find_testcase_files box.stat spec.testset_path i)) [
      | inl missing ↦ rw (missing, test_loop) (λ p. cc)
      | inr ((input, output), found) ↦ elim (ℕ_discrete i k) [
        | yes same ↦ cc
        | no other ↦
            rw (found, test_loop)
              (after_test-ne-starved spec (run_test_case box spec input output i) _
                (test_loop-ne-starved box spec k fuel (i + 1) i _ gone (omega arith) (omega arith)))
      ]
    ]

finish-IsComplete :
    (spec : AgentExecSpec) (l : LoopEnd × List Event)
    → IsFit l
    → l.0 ≢ starved
    → ((finish spec l).ending ≡ returned) × IsComplete (finish spec l).events
unfolding finish
finish-IsComplete spec (sent, events) f h = (refl, f)
finish-IsComplete spec (starved, events) f h = absurd (h refl)
finish-IsComplete spec (broke n ok, events) f h = elim (Bool-cases (n == 0)) [
  | inl none_run ↦ rw none_run (
    refl,
    record {
      progress = events ++ _ ∷ [];
      verdict = _;
      split = sym (append_assoc events _ _);
      only = All-append (λ e. e.type ≢ result) events (_ ∷ []) f ((λ e. ground arith), tt);
    },
  )
  | inr some_run ↦
      rw some_run (refl, record { progress = events; verdict = _; split = refl; only = f })
]

not-NoResult : (events : List Event) (v : Bytes) → ¬ NoResult (events ++ send_result v ∷ [])
not-NoResult [] v h = h.0 refl
not-NoResult (e ∷ events) v h = not-NoResult events v h.1

IsComplete-has-result : {events : List Event} → IsComplete events → ¬ NoResult events
IsComplete-has-result c h = not-NoResult c.progress c.verdict (rw c.split at h)

-- The compiler ends, where there is one to run.
abbrev pub CompilerEnds : Container → AgentExecSpec → Type 0
CompilerEnds c spec =
    is_empty spec.compile_args ≡ false → (c.compile spec.compile_args).ending ≢ unending

-- One of the test numbers from 1 to `fuel` has no files in the testset.
abbrev pub HasGap : Container → ℕ → AgentExecSpec → Type 0
HasGap c fuel spec =
    (k : ℕ) × (1 ≤ k) × (k ≤ fuel) × (find_testcase_files c.sandbox.stat spec.testset_path k ≡ none)

tests-IsComplete :
    (c : Container) (fuel : ℕ) (spec : AgentExecSpec)
    → HasGap c fuel spec
    → let s = finish spec (test_loop c.sandbox spec fuel 1 0 true) in
      (s.ending ≡ returned) × IsComplete s.events
tests-IsComplete c fuel spec (k, from, to, gone) =
    finish-IsComplete spec _ (test_loop-IsFit c.sandbox spec fuel 1 0 true)
      (test_loop-ne-starved c.sandbox spec k fuel 1 0 true gone from (omega arith))

follow_spec-IsComplete :
    (c : Container) (fuel : ℕ) (spec : AgentExecSpec)
    → CompilerEnds c spec
    → HasGap c fuel spec
    → ((follow_spec c fuel spec).ending ≡ returned) × IsComplete (follow_spec c fuel spec).events
unfolding follow_spec
follow_spec-IsComplete c fuel spec ends gap = elim (Bool-cases (is_empty spec.compile_args)) [
  | inl e ↦ rw e (tests-IsComplete c fuel spec gap)
  | inr e ↦ elim (CompilerEnd-cases (c.compile spec.compile_args).ending) [
    | inl fine ↦ rw (e, fine, compiled) (tests-IsComplete c fuel spec gap)
    | inr (inr never) ↦ absurd (ends e never)
    | inr (inl (text, failed)) ↦
        rw (e, failed, compiled)
          (
            refl,
            record {
              progress = _ ∷ [];
              verdict = _;
              split = refl;
              only = ((λ e. ground arith), tt);
            },
          )
  ]
]

with_spec-IsComplete :
    (c : Container) (fuel : ℕ) (r : IoResult AgentExecSpec)
    → ((spec : AgentExecSpec) → r ≡ io_ok spec → CompilerEnds c spec × HasGap c fuel spec)
    → ((with_spec c fuel r).ending ≡ returned) × IsComplete (with_spec c fuel r).events
unfolding with_spec
with_spec-IsComplete c fuel (io_error text) gap = (
  refl,
  record { progress = _ ∷ []; verdict = _; split = refl; only = ((λ e. ground arith), tt) },
)
with_spec-IsComplete c fuel (io_ok spec) gap =
    follow_spec-IsComplete c fuel spec (gap spec refl).0 (gap spec refl).1

-- Once the agent has connected and has read its instructions, it returns, and what it has sent is
-- complete: exactly one `RESULT` event, as the last. It holds where the compiler, if there is one to
-- run, ends, and one of the test numbers up to the fuel has no files in the testset.
pub runner_agent-IsComplete :
    (c : Container) (fuel : ℕ) (line : Bytes)
    → c.dial_error (socket_path c) ≡ none
    → c.payload ≡ io_ok line
    → ((spec : AgentExecSpec)
        → c.unmarshal line ≡ io_ok spec
        → CompilerEnds c spec × HasGap c fuel spec)
    → ((runner_agent c fuel).ending ≡ returned) × IsComplete (runner_agent c fuel).events
unfolding runner_agent
runner_agent-IsComplete c fuel line dialled read gap =
    rw (dialled, runner_agent, read, with_payload)
      (with_spec-IsComplete c fuel (c.unmarshal line) gap)

-- If the instructions cannot be read, the stream has no `RESULT` event at all, so nothing tells
-- its reader that it has ended.
pub runner_agent_unread :
    (c : Container) (fuel : ℕ) (text : Bytes)
    → c.dial_error (socket_path c) ≡ none
    → c.payload ≡ io_error text
    → ((runner_agent c fuel).ending ≡ returned)
      × NoResult (runner_agent c fuel).events
      × ¬ IsComplete (runner_agent c fuel).events
unfolding runner_agent
runner_agent_unread c fuel text dialled unread =
    rw (dialled, runner_agent, unread, with_payload)
      (refl, silent, λ c. IsComplete-has-result c silent)
  where
    silent : NoResult (
        send_event fatal verdict_ie [] [] (str "Failed to recieved execspec: " ++ text ++ str "\n")
        ∷ [])
    silent = ((λ e. ground arith), tt)
