-- ===== src/Agent/Session/Loop.antt =====
-- The loop of `RunnerAgent` over tests that pass.
use alpine_judge.Common.{
  ℕ, zero, suc, ◌+◌, ◌≤◌, ◌<◌, ◌≡◌, refl, Bool, true, false, not, ◌&&◌, none, some, List, ◌++◌,
}
use alpine_judge.Common.{
  nat_eq, list_eq, if◌then◌else◌, arith, Option-cases, Bool-cases, inl, inr, ap, ◌∙◌,
}
use native.Mathlib.Decide.{ℕ_discrete}
use alpine_judge.Common.Text.{Bytes, str, has_prefix, has_prefix-append}
use alpine_judge.Common.Text.Decimal.{sprint}
use alpine_judge.Utils.Executes.{AgentExecSpec, Event}
use alpine_judge.Agent.Verdict.{RuntimeInfo, verdict_ok}
use alpine_judge.Agent.FindTestFiles.{find_testcase_files}
use alpine_judge.Agent.RunTest.{Sandbox, run_test_case}
use alpine_judge.Agent.RunTest.Passing.{passed, IsPassed, run_test_case-passed_iff}
use alpine_judge.Agent.RunTest.Verdicts.{run_test_case-prefix}
use alpine_judge.Agent.Session.{is_final, LoopEnd, broke, after_test, test_loop}

-- Test `i` has its two files, and passes.
abbrev pub PassesTest : Sandbox → AgentExecSpec → ℕ → Type 0
PassesTest box spec i =
    (input : Bytes) × (output : Bytes) × (find_testcase_files box.stat spec.testset_path i
      ≡ some (input, output))
    × IsPassed box spec input output i

-- The testset ends after test `n`, and the tests from `i` to `n` pass.
pub record AllPass (box : Sandbox) (spec : AgentExecSpec) (i n : ℕ) : Type 0 where
  pub last : find_testcase_files box.stat spec.testset_path (n + 1) ≡ none
  pub passes : (k : ℕ) → i ≤ k → k ≤ n → PassesTest box spec k

pub passed-prefix : (n : ℕ) → has_prefix (passed n) verdict_ok ≡ true
passed-prefix n = has_prefix-append verdict_ok (str " " ++ sprint n)

pub passed-not-final : (n : ℕ) → is_final (passed n) ≡ false
unfolding is_final
passed-not-final n = refl

-- The loop ends with every verdict correct only if every test from `i` on has passed.
pub after_test_broke :
    (spec : AgentExecSpec) (r : RuntimeInfo) (rest : LoopEnd × List Event) (n : ℕ) (b : Bool)
    → (after_test spec r rest).0 ≡ broke n b
    → rest.0 ≡ broke n b
after_test_broke spec r rest n b h = elim (Bool-cases (is_final r.verdict)) [
  | inl e ↦ let k = rw e at h in cc
  | inr e ↦
      let k = rw e at h in
      (elim (Bool-cases (spec.halt_on_first_error && not (has_prefix r.verdict verdict_ok))) [
        | inl halt ↦ let k' = rw halt at k in cc
        | inr on ↦ let k' = rw on at k in k'
      ])
]

pub broke-injective : {m n : ℕ} {a b : Bool} → broke m a ≡ broke n b → (m ≡ n) × (a ≡ b)
broke-injective h = (cc, cc)

-- One more test in front.
pub AllPass-cons :
    (box : Sandbox) (spec : AgentExecSpec) (i n : ℕ)
    → PassesTest box spec i
    → AllPass box spec (i + 1) n
    → AllPass box spec i n
AllPass-cons box spec i n p all = record {
  last = all.last;
  passes = λ k from to. elim (ℕ_discrete i k) [
    | yes same ↦ rw (← same) p
    | no other ↦ all.passes k (omega arith) to
  ];
}

pub test_loop_broke :
    (box : Sandbox) (spec : AgentExecSpec) (fuel i m n : ℕ) (ok : Bool)
    → i ≡ m + 1
    → (test_loop box spec fuel i m ok).0 ≡ broke n true
    → (ok ≡ true) × (m ≤ n) × AllPass box spec i n
unfolding test_loop
test_loop_broke box spec zero i m n ok at h = cc
test_loop_broke box spec (suc fuel) i m n ok at h =
    elim (Option-cases (find_testcase_files box.stat spec.testset_path i)) [
      | inl missing ↦
          let (same, correct) = broke-injective (rw (missing, test_loop) at h) in
          (
            correct,
            omega arith,
            record {
              last = let e : n + 1 ≡ i = omega arith in rw e missing;
              passes = λ k from to. absurd (omega arith);
            },
          )
      | inr ((input, output), found) ↦
          let r = run_test_case box spec input output i in
          let (correct, below, all) =
            test_loop_broke box spec fuel (i + 1) i n
              (if has_prefix r.verdict verdict_ok then ok else false) refl
              (after_test_broke spec r _ n true (rw (found, test_loop) at h)) in
          elim (Bool-cases (has_prefix r.verdict verdict_ok)) [
            | inl prefix ↦
                let pass =
                  (run_test_case-passed_iff box spec input output i).0
                    (run_test_case-prefix box spec input output i prefix) in
                (
                  (rw prefix at correct),
                  omega arith,
                  AllPass-cons box spec i n (input, output, found, pass) all,
                )
            | inr wrong ↦ let k = rw wrong at correct in cc
          ]
    ]

-- A pass never ends the loop and keeps `allCorrect`.
pub after_test-passed :
    (spec : AgentExecSpec) (r : RuntimeInfo) (rest : LoopEnd × List Event) (i : ℕ)
    → r.verdict ≡ passed i
    → (after_test spec r rest).0 ≡ rest.0
after_test-passed spec r rest i e =
    let go_on : is_final r.verdict ≡ false = rw e (passed-not-final i) in
    let prefix : has_prefix r.verdict verdict_ok ≡ true = rw e (passed-prefix i) in ground arith

pub test_loop-passed :
    (box : Sandbox) (spec : AgentExecSpec) (fuel i m : ℕ) (input output : Bytes)
    → find_testcase_files box.stat spec.testset_path i ≡ some (input, output)
    → IsPassed box spec input output i
    → (test_loop box spec (suc fuel) i m true).0 ≡ (test_loop box spec fuel (i + 1) i true).0
unfolding test_loop
test_loop-passed box spec fuel i m input output found p =
    let e = (run_test_case-passed_iff box spec input output i).1 p in
    let prefix : has_prefix (run_test_case box spec input output i).verdict verdict_ok ≡ true =
      rw e (passed-prefix i) in
    rw (found, test_loop)
      (after_test-passed spec (run_test_case box spec input output i) _ i e
        ∙ ap (λ b. (test_loop box spec fuel (i + 1) i (if b then true else false)).0) prefix)

-- The loop gets to the end of the testset when every test passes.
pub test_loop_all :
    (box : Sandbox) (spec : AgentExecSpec) (fuel i m n : ℕ)
    → i ≡ m + 1
    → m ≤ n
    → n < m + fuel
    → AllPass box spec i n
    → (test_loop box spec fuel i m true).0 ≡ broke n true
unfolding test_loop
test_loop_all box spec zero i m n at from to all = absurd (omega arith)
test_loop_all box spec (suc fuel) i m n at from to all = elim (ℕ_discrete m n) [
  | yes last ↦ let e : i ≡ n + 1 = omega arith in rw (e, all.last, test_loop) (rw last refl)
  | no more ↦
      let (input, output, found, p) = all.passes i (omega arith) (omega arith) in
      test_loop-passed box spec fuel i m input output found p
      ∙ test_loop_all box spec fuel (i + 1) i n refl (omega arith) (omega arith)
          (record { last = all.last; passes = λ k low high. all.passes k (omega arith) high })
]
