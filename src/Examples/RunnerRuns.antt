-- ===== src/Examples/RunnerRuns.antt =====
-- runner: a job in Go with a testset of one test, from its delivery to its container.
use alpine_judge.Common.{
  ◌≢◌, ◌≡◌, refl, ◌↔◌, inl, Bool, ◌==◌, nat_eq, true, false, none, some, [], ◌∷◌, arith,
}
use alpine_judge.Common.Results.{io_ok}
use alpine_judge.Common.Text.{str}
use alpine_judge.Shared.Specs.{JobSpec}
use alpine_judge.Agent.Verdict.{verdict_ie}
use alpine_judge.Agent.RunTest.{Sandbox, Run, started, finished, run_test_case}
use alpine_judge.Dispatcher.Validate.{SubmissionSpec, is_available}
use alpine_judge.Runner.Prepare.Dispatched.{agent_spec, unrunnable-internal_error}
use alpine_judge.Runner.ExecSubm.{task_exited}
use alpine_judge.Common.Text.Decimal.Parse.{pos}
use alpine_judge.Runner.Orchestrate.{Host, completed, orchestrate_subm}
use alpine_judge.Runner.Orchestrate.Completing.{CanComplete, report, orchestrate_subm-completed_iff}
use alpine_judge.Runner.WarmContainer.{Containerd, create_warm_container, socket_path}
use alpine_judge.Runner.WarmContainer.Cleanup.{
  Left, Deletes, left_by, leftover, stage, create_warm_container-leftover,
}
use alpine_judge.Runner.Engine.{Engine, create, enqueue, receive, Reachable, started, stepped}
use alpine_judge.Runner.Engine.Pool.{Use, moves, pool_of, Step-Use}
use alpine_judge.Runner.Engine.Slots.{sockets-distinct}
use alpine_judge.Examples.SharedRuns.{client, disk, two_files}

abbrev submission : SubmissionSpec
submission = record {
  language = str "go";
  source = str "package main";
  submission_id = str "s1";
  bucket = str "b";
  testset = str "sum";
  per_test_memory_limit_mb = 64;
  per_test_timeout_sec = 2;
  per_test_log_limit_kb = 16;
}

-- The job of the submission.
abbrev job : JobSpec
job = record {
  language = str "go";
  source = [];
  submission_id = str "s1";
  bucket = str "b";
  testset = str "sum";
  per_test_memory_limit_mb = 0;
  per_test_timeout_sec = 0;
  per_test_log_limit_kb = 0;
}

abbrev silent_run : Run
silent_run = record { stdout = []; stderr = []; maxrss = some 2048; ended = finished none }

-- The tests' program writes nothing, and a blank line is expected.
abbrev box : Sandbox
box = record {
  stat = λ p. true;
  open_error = λ p. none;
  read_file = λ p. io_ok (str "\n");
  launch = λ args input timeout n. started silent_run;
  signal_name = λ n. [];
}

abbrev python_job : JobSpec
python_job = record job { language = str "python" }

unrunnable-internal_error_example :
    (is_available (str "python") ≡ true)
    × ((run_test_case box
          (agent_spec (str "c1") python_job)
          (str "/t/1.in")
          (str "/t/1.out")
          1).verdict
        ≡ verdict_ie)
unrunnable-internal_error_example =
    unrunnable-internal_error (str "c1") python_job box (str "/t/1.in") (str "/t/1.out") 1
      (inl refl)

abbrev pub host : Host
host = record {
  mkdir_all = λ p. none;
  write_file = λ p source. none;
  readdirnames = λ p. io_ok [];
  send = λ spec. none;
  timeouts = pos 10;
  elapsed_ms = 120;
  exit = task_exited 0;
}

orchestrate_subm-completed_iff_example :
    ((orchestrate_subm client disk two_files host job true (str "c1")).1
      ≡ completed (report client disk two_files host job))
    ↔ CanComplete client disk two_files host job true (str "c1")
orchestrate_subm-completed_iff_example =
    orchestrate_subm-completed_iff client disk two_files host job true (str "c1")

-- containerd, where the agent does not connect.
abbrev containerd : Containerd
containerd = record {
  get_image = none;
  new_container = none;
  socket_missing = true;
  mkdir_all = none;
  listen = none;
  new_task = none;
  wait = none;
  start = none;
  accept = some (str "closed");
}

abbrev no_tasks : Left → Bool
no_tasks l = l.tasks == 0

deletes : Deletes no_tasks (λ l. false)
deletes = record { of_free = λ l h. rw h; of_used = λ l h. ground arith; of_unstopped = λ l. refl }

create_warm_container-leftover_example :
    left_by no_tasks (λ l. false) (create_warm_container containerd (str "c1") 1).1
    ≡ leftover (stage containerd)
create_warm_container-leftover_example =
    create_warm_container-leftover no_tasks (λ l. false) deletes containerd (str "c1") 1

-- Slot 1 is with a worker, slot 2 in the queue.
abbrev two_slots : Engine
two_slots = record { counter = 2; held = []; queue = 2 ∷ []; working = 1 ∷ [] }

two_slots-Reachable : Reachable 15 two_slots
two_slots-Reachable =
    stepped
      (stepped
        (stepped (stepped (stepped started (create 0 [] [])) (enqueue 1 1 [] [] (omega arith)))
          (receive 1 1 [] [] []))
        (create 1 [] (1 ∷ [])))
      (enqueue 2 2 [] (1 ∷ []) (omega arith))

sockets-distinct_example : socket_path 2 ≢ socket_path 1
sockets-distinct_example = sockets-distinct [] [] [] 2 1 two_slots-Reachable (omega arith) refl

-- Slot 1 is put into the queue.
Step-Use_example :
    Use moves
      (pool_of (record { counter = 1; held = 1 ∷ []; queue = []; working = [] }))
      (pool_of (record { counter = 1; held = []; queue = 1 ∷ []; working = [] }))
Step-Use_example = Step-Use {cap = 15} (enqueue 1 1 [] [] (omega arith))
