-- ===== src/Agent/Session/Acceptance.antt =====
-- Which submissions are accepted.
use alpine_judge.Common.{
  ℕ, zero, suc, ◌+◌, ◌≤◌, ◌<◌, ◌≡◌, ◌≢◌, refl, Bool, true, false, not, ◌&&◌, Option, none, some,
  List, [], ◌∷◌, ◌++◌,
}
use alpine_judge.Common.{
  ◌==◌, nat_eq, list_eq, is_empty, arith, Option-cases, Bool-cases, inl, inr, ◌⊎◌, ◌↔◌,
}
use mathlib.Core.List.{append_assoc}
use native.Mathlib.Decide.{dec_lt}
use alpine_judge.Common.Results.{io_ok}
use alpine_judge.Common.Text.{Bytes, has_prefix}
use alpine_judge.Utils.Executes.{AgentExecSpec, Event}
use alpine_judge.Agent.Verdict.{RuntimeInfo, verdict_ok, verdict_ac}
use alpine_judge.Agent.FindTestFiles.{find_testcase_files}
use alpine_judge.Agent.RunTest.{Sandbox, run_test_case}
use alpine_judge.Agent.Session.Protocol.{HasGap}
use alpine_judge.Agent.Session.{
  Container, send_result, report, is_final, LoopEnd, sent, broke, starved, after_test, test_loop,
  finish, compiled, succeeded, CompilerEnd-cases, follow_spec, with_spec, with_payload, socket_path,
  runner_agent,
}
use alpine_judge.Agent.Session.Loop.{AllPass, test_loop_broke, test_loop_all}

-- The last event of a session, if it has one.
abbrev pub last_event : List Event → Option Event
last_event [] = none
last_event (e ∷ []) = some e
last_event (e ∷ f ∷ es) = last_event (f ∷ es)

pub last_event-append : (es : List Event) (e : Event) → last_event (es ++ e ∷ []) ≡ some e
last_event-append [] e = refl
last_event-append (d ∷ []) e = refl
last_event-append (d ∷ f ∷ es) e = last_event-append (f ∷ es) e

-- A session that has sent its result within the loop has not sent `Accepted`.
abbrev SentOther : LoopEnd × List Event → Type 0
SentOther (sent, events) = last_event events ≢ some (send_result verdict_ac)
SentOther (broke n ok, events) = Unit
SentOther (starved, events) = last_event events ≢ some (send_result verdict_ac)

final-ne-ac : (v : Bytes) → is_final v ≡ true → v ≢ verdict_ac
unfolding is_final
final-ne-ac v h e = let k = rw e at h in cc

cons-SentOther :
    (r : RuntimeInfo) (rest : LoopEnd × List Event)
    → SentOther rest
    → SentOther (rest.0, report r ∷ rest.1)
cons-SentOther r (sent, []) h = λ p. ground arith
cons-SentOther r (sent, e ∷ events) h = h
cons-SentOther r (broke n ok, events) h = tt
cons-SentOther r (starved, []) h = λ p. ground arith
cons-SentOther r (starved, e ∷ events) h = h

after_test-SentOther :
    (spec : AgentExecSpec) (r : RuntimeInfo) (rest : LoopEnd × List Event)
    → SentOther rest
    → SentOther (after_test spec r rest)
after_test-SentOther spec r rest h = elim (Bool-cases (is_final r.verdict)) [
  | inl e ↦ rw e (λ p. final-ne-ac r.verdict e (ground arith))
  | inr e ↦
      rw e (elim (Bool-cases (spec.halt_on_first_error && not (has_prefix r.verdict verdict_ok))) [
        | inl halt ↦ rw halt (λ p. ground arith)
        | inr on ↦ rw on (cons-SentOther r rest h)
      ])
]

test_loop-SentOther :
    (box : Sandbox) (spec : AgentExecSpec) (fuel i n : ℕ) (ok : Bool)
    → SentOther (test_loop box spec fuel i n ok)
unfolding test_loop
test_loop-SentOther box spec zero i n ok = λ p. cc
test_loop-SentOther box spec (suc fuel) i n ok =
    elim (Option-cases (find_testcase_files box.stat spec.testset_path i)) [
      | inl missing ↦ rw (missing, test_loop) tt
      | inr ((input, output), found) ↦
          rw (found, test_loop)
            (after_test-SentOther spec (run_test_case box spec input output i) _
              (test_loop-SentOther box spec fuel (i + 1) i _))
    ]

-- `Accepted` is sent after the loop only, when some tests were run and all were correct.
finish_accepted :
    (spec : AgentExecSpec) (l : LoopEnd × List Event)
    → SentOther l
    → last_event (finish spec l).events ≡ some (send_result verdict_ac)
    → (n : ℕ) × (1 ≤ n) × (l.0 ≡ broke n true)
unfolding finish
finish_accepted spec (sent, events) other h = absurd (other h)
finish_accepted spec (starved, events) other h = absurd (other h)
finish_accepted spec (broke n ok, events) other h = elim (Bool-cases (n == 0)) [
  | inl none_run ↦
      let k = rw (none_run, ← append_assoc events (_ ∷ []) (_ ∷ []), last_event-append) at h in
      ground arith
  | inr some_run ↦ let k = rw (some_run, last_event-append) at h in (n, ground arith, ground arith)
]

-- The submission compiles, where it has to be compiled.
abbrev pub Compiles : Container → AgentExecSpec → Type 0
Compiles c spec =
    (is_empty spec.compile_args ≡ true) ⊎ ((c.compile spec.compile_args).ending ≡ succeeded)

-- The submission compiles, and the testset has at least one test, all of which pass.
abbrev pub IsAccepted : Container → AgentExecSpec → Type 0
IsAccepted c spec = Compiles c spec × ((n : ℕ) × (1 ≤ n) × AllPass c.sandbox spec 1 n)

module _ (c : Container) (fuel : ℕ) (spec : AgentExecSpec) where
  tests_sound :
      last_event (finish spec (test_loop c.sandbox spec fuel 1 0 true)).events
        ≡ some (send_result verdict_ac)
      → (n : ℕ) × (1 ≤ n) × AllPass c.sandbox spec 1 n
  tests_sound h =
      let (n, some_run, ended) =
        finish_accepted spec _ (test_loop-SentOther c.sandbox spec fuel 1 0 true) h in
      (n, some_run, (test_loop_broke c.sandbox spec fuel 1 0 n true refl ended).2)

  tests_complete :
      HasGap c fuel spec
      → (n : ℕ) → 1 ≤ n
      → AllPass c.sandbox spec 1 n
      → last_event (finish spec (test_loop c.sandbox spec fuel 1 0 true)).events
        ≡ some (send_result verdict_ac)
  unfolding finish
  tests_complete (k, from, to, gone) n some_run all =
      let enough : n < fuel = elim (dec_lt n k) [
        | yes below ↦ omega arith
        | no above ↦ let (input, output, found, p) = all.passes k from (omega arith) in cc
      ] in
      finish_broke (test_loop c.sandbox spec fuel 1 0 true) n some_run
        (test_loop_all c.sandbox spec fuel 1 0 n refl (omega arith) (omega arith) all)
    where
      finish_broke :
          (l : LoopEnd × List Event) (n : ℕ)
          → 1 ≤ n
          → l.0 ≡ broke n true
          → last_event (finish spec l).events ≡ some (send_result verdict_ac)
      finish_broke (sent, events) n p h = cc
      finish_broke (starved, events) n p h = cc
      finish_broke (broke m ok, events) n p h =
          let some_tests : (m == 0) ≡ false = ground arith in
          let correct : ok ≡ true = cc in rw (some_tests, correct) (last_event-append events _)

  follow_spec-IsAccepted_iff :
      HasGap c fuel spec
      → (last_event (follow_spec c fuel spec).events ≡ some (send_result verdict_ac))
        ↔ IsAccepted c spec
  unfolding follow_spec
  follow_spec-IsAccepted_iff gap = elim (Bool-cases (is_empty spec.compile_args)) [
    | inl e ↦ rw e (λ h. (inl refl, tests_sound h), λ (_, (n, p, all)). tests_complete gap n p all)
    | inr e ↦ elim (CompilerEnd-cases (c.compile spec.compile_args).ending) [
      | inl fine ↦
          rw (e, fine, compiled)
            (λ h. (inr refl, tests_sound h), λ (_, (n, p, all)). tests_complete gap n p all)
      | inr (inl (text, failed)) ↦
          rw (e, failed, compiled) (λ h. ground arith, λ (k, _). ground arith)
      | inr (inr never) ↦ rw (e, never, compiled) (λ h. ground arith, λ (k, _). ground arith)
    ]
  ]

-- The agent's last event is the result `Accepted` exactly when the submission compiles (or needs
-- no compiling), the testset has tests 1 to n for some n of at least 1 and no test n + 1, and all
-- of these pass. It holds once the agent has its instructions and some test number up to the fuel
-- has no files.
pub runner_agent-IsAccepted_iff :
    (c : Container) (fuel : ℕ) (line : Bytes) (spec : AgentExecSpec)
    → c.dial_error (socket_path c) ≡ none
    → c.payload ≡ io_ok line
    → c.unmarshal line ≡ io_ok spec
    → HasGap c fuel spec
    → (last_event (runner_agent c fuel).events ≡ some (send_result verdict_ac)) ↔ IsAccepted c spec
unfolding runner_agent
runner_agent-IsAccepted_iff c fuel line spec dialled read decoded gap =
    rw (dialled, runner_agent, read, with_payload, decoded, with_spec)
      (follow_spec-IsAccepted_iff c fuel spec gap)
