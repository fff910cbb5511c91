-- ===== src/Runner/Oci/Mounts.antt =====
-- What the agent finds in its container, through the mounts: the source of the
-- submission and the testset that the runner has put on the host.
use mathlib.Core.List.{append_assoc, append_cancel_left}
use alpine_judge.Common.{
  ◌+◌, ◌≡◌, ◌≢◌, refl, true, Option, none, some, List, [], ◌∷◌, ◌++◌, sym, ap, ◌∙◌, inl, inr,
}
use alpine_judge.Common.{
  ◌==◌, nat_eq, list_eq, contains, All, Any, Bool-cases, drop, length, if◌then◌else◌,
}
use alpine_judge.Common.Text.{Bytes, str, has_prefix, bytes_eq_iff}
use alpine_judge.Shared.Specs.{JobSpec}
use alpine_judge.Runner.Prepare.{
  code_path_base, compile_args, run_args, host_test_dir, exec_rules, build_agent_exec_spec,
}
use alpine_judge.Runner.Orchestrate.{source_path}
use alpine_judge.Runner.Oci.{Mount, mounts}

-- The file on the host that a path in the container names: a bind mount puts its source in the
-- place of its destination, and the last mount that holds the path counts.
abbrev pub bound_file : Mount → Bytes → Option Bytes
bound_file m p =
    if m.type == str "bind" then some (m.source ++ drop (length m.destination + 1) p) else none

abbrev pub host_path : List Mount → Bytes → Option Bytes
host_path [] p = none
host_path (m ∷ ms) p = elim (host_path ms p) [
  | some q ↦ some q
  | none ↦ if has_prefix p (m.destination ++ str "/") then bound_file m p else none
]

-- The languages whose source the runner compiles or runs by its name.
abbrev pub named_languages : List Bytes
named_languages = str "c" ∷ str "cpp" ∷ str "cc" ∷ str "go" ∷ str "java" ∷ str "py" ∷ []

-- A predicate that holds of the elements of a list holds of what the list contains.
contains-All :
    (P : Bytes → Type 0) (xs : List Bytes) (a : Bytes) → All P xs → contains xs a ≡ true → P a
contains-All P [] a h e = absurd cc
contains-All P (x ∷ xs) a (p, h) e = elim (Bool-cases (x == a)) [
  | inl same ↦ let ax : x ≡ a = (bytes_eq_iff x a).0 same in rw (← ax) p
  | inr other ↦ contains-All P xs a h (rw (← e, other) refl)
]

unsome : {a b : Bytes} → some a ≡ some b → a ≡ b
unsome h = cc

module _ (job : JobSpec) where
  -- The arguments of the compiler and of the run that the agent gets for a job, if it had this language.
  abbrev args : Bytes → List Bytes
  args language =
      compile_args language (code_path_base job.submission_id)
      ++ run_args language (code_path_base job.submission_id)

  abbrev IsNamed : Bytes → Type 0
  IsNamed language =
      job.language ≡ language
      → Any (λ a. host_path mounts a ≡ some (source_path job)) (args language)

  -- The file of a name that is put together from parts, under the directory of the submission.
  on_host :
      {p q : Bytes}
      → p ≡ q
      → ◌≡◌ {A = Option Bytes}
          (some (str "/tmp/runner/submissions/" ++ p))
          (some (str "/tmp/runner/submissions/" ++ q))
  on_host e = ap (λ p. some (str "/tmp/runner/submissions/" ++ p)) e

  by_parts :
      (id name extension : Bytes)
      → id ++ str "/" ++ name ++ extension ≡ id ++ (str "/" ++ name) ++ extension
  by_parts id name extension = ap (λ p. p ++ extension) (append_assoc id (str "/") name)

  as_whole :
      (id name extension : Bytes)
      → id ++ str "/" ++ (name ++ extension) ≡ id ++ (str "/" ++ name) ++ extension
  as_whole id name extension =
      append_assoc id (str "/") (name ++ extension)
      ∙ sym (append_assoc id (str "/" ++ name) extension)

  IsNamed-c : IsNamed (str "c")
  unfolding compile_args run_args has_prefix source_path
  IsNamed-c l = inr (
      inr (
        inr (
          inr (
            inr (
              inl (
                rw (l, source_path)
                  (on_host (by_parts job.submission_id (str "main.") (str "c")))))))))

  IsNamed-cpp : IsNamed (str "cpp")
  unfolding compile_args run_args has_prefix source_path
  IsNamed-cpp l = inr (
      inr (
        inr (
          inr (
            inr (
              inl (
                rw (l, source_path)
                  (on_host (by_parts job.submission_id (str "main.") (str "cpp")))))))))

  IsNamed-cc : IsNamed (str "cc")
  unfolding compile_args run_args has_prefix source_path
  IsNamed-cc l = inr (
      inr (
        inr (
          inr (
            inr (
              inl (
                rw (l, source_path)
                  (on_host (by_parts job.submission_id (str "main.") (str "cc")))))))))

  IsNamed-go : IsNamed (str "go")
  unfolding compile_args run_args has_prefix source_path
  IsNamed-go l = inr (
      inr (
        inr (
          inr (
            inl (
              rw (l, source_path)
                (on_host (as_whole job.submission_id (str "main.") (str "go"))))))))

  IsNamed-java : IsNamed (str "java")
  unfolding compile_args run_args has_prefix source_path
  IsNamed-java l = inr (
      inr (
        inr (
          inl (
            rw (l, source_path)
              (on_host (append_assoc job.submission_id (str "/") (str "Main.java")))))))

  IsNamed-py : IsNamed (str "py")
  unfolding compile_args run_args has_prefix source_path
  IsNamed-py l =
      inr
        (inl (rw (l, source_path) (on_host (as_whole job.submission_id (str "main.") (str "py")))))

  -- `(id ++ "/") ++ "main.js"` and `(id ++ "/main.") ++ "node"` differ.
  other_name : (id : Bytes) → (id ++ str "/" ++ str "main.js") ≢ (id ++ str "/main." ++ str "node")
  other_name id h =
      let tails : str "/main.js" ≡ str "/main.node" = append_cancel_left id _ _ (
        sym (append_assoc id (str "/") (str "main.js"))
        ∙ (h ∙ append_assoc id (str "/main.") (str "node"))) in
      absurd cc

  node_missed :
      job.language ≡ str "node"
      → All (λ a. host_path mounts a ≢ some (source_path job)) (args (str "node"))
  unfolding compile_args run_args has_prefix source_path
  node_missed l = (
    (λ h. absurd cc),
    (
      λ h. other_name job.submission_id (
          append_cancel_left (str "/tmp/runner/submissions/") _ _
            (unsome (rw (l, source_path) at h))),
      tt,
    ),
  )

  All-IsNamed : All IsNamed named_languages
  All-IsNamed =
      (IsNamed-c, (IsNamed-cpp, (IsNamed-cc, (IsNamed-go, (IsNamed-java, (IsNamed-py, tt))))))

-- The commands that the agent gets for a job in C, C++, Go, Java or Python (py) name, through the
-- mounts, the very file that the orchestrator has written the source to, and the directory of
-- tests that it gets is the one that the testset was downloaded to.
pub build_agent_exec_spec-host_path :
    (container_id : Bytes) (job : JobSpec)
    → contains named_languages job.language ≡ true
    → let spec = build_agent_exec_spec (exec_rules container_id job) in
      Any (λ a. host_path mounts a ≡ some (source_path job)) (spec.compile_args ++ spec.run_args)
      × (host_path mounts spec.testset_path ≡ some (host_test_dir job))
unfolding has_prefix build_agent_exec_spec exec_rules
build_agent_exec_spec-host_path container_id job listed =
    (contains-All (IsNamed job) named_languages job.language (All-IsNamed job) listed refl, refl)

-- No argument of the commands for a job in JavaScript (node) names the file of its source.
pub build_agent_exec_spec_node :
    (container_id : Bytes) (job : JobSpec)
    → job.language ≡ str "node"
    → let spec = build_agent_exec_spec (exec_rules container_id job) in
      All (λ a. host_path mounts a ≢ some (source_path job)) (spec.compile_args ++ spec.run_args)
unfolding build_agent_exec_spec exec_rules
build_agent_exec_spec_node container_id job node =
    let found = node_missed job node in rw (← node) at found
