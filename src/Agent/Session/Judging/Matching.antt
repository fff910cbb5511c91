-- ===== src/Agent/Session/Judging/Matching.antt =====
-- The agent against the judgement of the runs.
use alpine_judge.Common.{
  ℕ, zero, suc, ◌+◌, ◌≤◌, ◌<◌, ◌≡◌, refl, Bool, true, false, not, ◌&&◌, Option, none, some, List,
  [], ◌∷◌, ◌++◌, map,
}
use alpine_judge.Common.{
  ◌==◌, nat_eq, list_eq, length, is_empty, if◌then◌else◌, arith, Option-cases, Bool-cases, inl, inr,
  ap, ◌∙◌,
}
use alpine_judge.Common.Results.{io_ok}
use alpine_judge.Common.Text.{Bytes}
use alpine_judge.Utils.Executes.{AgentExecSpec, Event}
use alpine_judge.Agent.Verdict.{RuntimeInfo, verdict_ac, verdict_wa}
use alpine_judge.Agent.RunTest.{Sandbox, run_test_case}
use alpine_judge.Agent.Session.{
  Container, returned, send_result, report, is_final, LoopEnd, sent, broke, after_test, test_loop,
  finish, compiled, CompilerEnd-cases, follow_spec, with_spec, with_payload, socket_path,
  runner_agent,
}
use alpine_judge.Agent.Session.Judging.{
  Testset, last, next, is_pass, stops, first_stop, shown, all_pass, judging, judged, judged_end,
}

-- The number of the last test that was run.
abbrev last_count : ℕ → ℕ → List RuntimeInfo → ℕ
last_count m i [] = m
last_count m i (r ∷ rs) = last_count i (i + 1) rs

-- How the loop ends: by the result that stops it, or with the number of tests and the flag.
abbrev end_with : Option Bytes → ℕ → Bool → List Event → LoopEnd × List Event
end_with (some v) n ok events = (sent, events ++ send_result v ∷ [])
end_with none n ok events = (broke n ok, events)

abbrev loop_end : Bool → ℕ → ℕ → Bool → List RuntimeInfo → LoopEnd × List Event
loop_end halt m i ok rs =
    end_with (first_stop halt rs) (last_count m i rs) (ok && all_pass rs)
      (map report (shown halt rs))

after_test-stops :
    (spec : AgentExecSpec) (r : RuntimeInfo) (rest : LoopEnd × List Event)
    → after_test spec r rest
      ≡ (elim (stops spec.halt_on_first_error r) as (λ _. LoopEnd × List Event) [
        | some v ↦ (sent, report r ∷ send_result v ∷ [])
        | none ↦ (rest.0, report r ∷ rest.1)
      ])
unfolding stops
after_test-stops spec r rest = elim (Bool-cases (is_final r.verdict)) [
  | inl e ↦ rw (e, stops)
  | inr going ↦ elim (Bool-cases (spec.halt_on_first_error && not (is_pass r))) [
    | inl e ↦ rw (going, e, stops)
    | inr e ↦ rw (going, e, stops)
  ]
]

pass_on-all_pass : (b ok : Bool) (bs : Bool) → ((if b then ok else false) && bs) ≡ (ok && (b && bs))
pass_on-all_pass true ok bs = refl
pass_on-all_pass false true bs = refl
pass_on-all_pass false false bs = refl

after_test-loop_end :
    (spec : AgentExecSpec) (r : RuntimeInfo) (rs : List RuntimeInfo) (m i : ℕ) (ok : Bool)
    → after_test spec r
        (loop_end spec.halt_on_first_error i (i + 1) (if is_pass r then ok else false) rs)
      ≡ loop_end spec.halt_on_first_error m i ok (r ∷ rs)
after_test-loop_end spec r rs m i ok = elim (Option-cases (stops spec.halt_on_first_error r)) [
  | inr (v, e) ↦ after_test-stops spec r _ ∙ rw e
  | inl goes_on ↦ elim (Option-cases (first_stop spec.halt_on_first_error rs)) [
    | inr (v, e) ↦ after_test-stops spec r _ ∙ rw (goes_on, e)
    | inl no_stop ↦
        after_test-stops spec r _
        ∙ rw (goes_on, no_stop, pass_on-all_pass (is_pass r) ok (all_pass rs))
  ]
]

test_loop-loop_end :
    (box : Sandbox) (spec : AgentExecSpec) (i : ℕ) (rs : List RuntimeInfo)
    → Testset box spec i rs
    → (fuel m : ℕ) (ok : Bool) → length rs < fuel
    → test_loop box spec fuel i m ok ≡ loop_end spec.halt_on_first_error m i ok rs
unfolding test_loop
test_loop-loop_end box spec i rs ts zero m ok h = absurd (omega arith)
test_loop-loop_end box spec _ _ (last i missing) (suc fuel) m ok h =
    rw (missing, test_loop) (elim (Bool-cases ok) [ inl e ↦ rw e | inr e ↦ rw e ])
test_loop-loop_end box spec _ _ (next i input output rs found ts) (suc fuel) m ok h =
    rw
      (
        found,
        test_loop,
        test_loop-loop_end box spec (i + 1) rs ts fuel i
            (if is_pass (run_test_case box spec input output i) then ok else false) (omega arith),
      )
      (after_test-loop_end spec (run_test_case box spec input output i) rs m i ok)

last_count-pos : (m i : ℕ) (rs : List RuntimeInfo) → 1 ≤ m → 1 ≤ i → 1 ≤ last_count m i rs
last_count-pos m i [] h k = h
last_count-pos m i (r ∷ rs) h k = last_count-pos i (i + 1) rs k (omega arith)

finish-end_with :
    (spec : AgentExecSpec) (stop : Option Bytes) (n : ℕ) (ok : Bool) (events : List Event)
    → 1 ≤ n
    → finish spec (end_with stop n ok events) ≡ record {
      events =
          events
          ++ send_result (elim stop [ some v ↦ v | none ↦ if ok then verdict_ac else verdict_wa ])
            ∷ [];
      ending = returned;
    }
unfolding finish
finish-end_with spec (some v) n ok events h = refl
finish-end_with spec none n ok events h = let e : (n == 0) ≡ false = ground arith in rw e

finish-judging :
    (spec : AgentExecSpec) (rs : List RuntimeInfo)
    → finish spec (loop_end spec.halt_on_first_error 0 1 true rs)
      ≡ record { events = judging spec rs; ending = returned }
unfolding finish
finish-judging spec [] = refl
finish-judging spec (r ∷ rs) =
    finish-end_with spec (first_stop spec.halt_on_first_error (r ∷ rs)) (last_count 1 2 rs)
      (all_pass (r ∷ rs)) (map report (shown spec.halt_on_first_error (r ∷ rs)))
      (last_count-pos 1 2 rs (omega arith) (omega arith))

follow_spec-judged :
    (c : Container) (fuel : ℕ) (spec : AgentExecSpec) (rs : List RuntimeInfo)
    → Testset c.sandbox spec 1 rs
    → length rs < fuel
    → follow_spec c fuel spec ≡ record { events = judged c spec rs; ending = judged_end c spec }
unfolding follow_spec judged judged_end
follow_spec-judged c fuel spec rs ts enough =
    let tests =
      ap (finish spec) (test_loop-loop_end c.sandbox spec 1 rs ts fuel 0 true enough)
      ∙ finish-judging spec rs in
    elim (Bool-cases (is_empty spec.compile_args)) [
      | inl e ↦ rw e tests
      | inr e ↦ elim (CompilerEnd-cases (c.compile spec.compile_args).ending) [
        | inl fine ↦ rw (e, fine, compiled) tests
        | inr (inl (text, failed)) ↦ rw (e, failed, compiled)
        | inr (inr never) ↦ rw (e, never, compiled)
      ]
    ]

-- Once the agent has its instructions, and the testset has files for tests 1 to n and none for test
-- n + 1, its events are those of the judgement of the n runs, and it returns, unless its compiler never
-- ends: then it sends nothing. The judgement is the output of a compiler that fails; otherwise the report of each run up to the first that decides, and one result:
-- the verdict of the first run with a final one, a wrong answer at the first failure where that
-- halts, and otherwise accepted or wrong by whether all runs pass; an internal error where n is 0.
-- Fuel of more than n is enough.
pub runner_agent-judged :
    (c : Container) (fuel : ℕ) (line : Bytes) (spec : AgentExecSpec) (rs : List RuntimeInfo)
    → c.dial_error (socket_path c) ≡ none
    → c.payload ≡ io_ok line
    → c.unmarshal line ≡ io_ok spec
    → Testset c.sandbox spec 1 rs
    → length rs < fuel
    → runner_agent c fuel ≡ record { events = judged c spec rs; ending = judged_end c spec }
unfolding runner_agent judged judged_end
runner_agent-judged c fuel line spec rs dialled read decoded ts enough =
    rw (dialled, runner_agent, read, with_payload, decoded, with_spec)
      (follow_spec-judged c fuel spec rs ts enough)
