-- ===== src/Runner/WarmContainer/Cleanup.antt =====
-- What a creation that failed leaves behind.
use alpine_judge.Common.{
  ℕ, ◌+◌, ◌≤◌, refl, ◌≡◌, Bool, true, false, none, some, List, [], ◌∷◌, if◌then◌else◌, arith, ◌-◌,
}
use alpine_judge.Common.Text.{Bytes}
use alpine_judge.Runner.WarmContainer.{
  Containerd, HostOp, made_container, tried_container_deletion, made_task, tried_task_deletion,
  started_task, removed_file, made_socket_dir, listened, allowed, accepted, closed_listener,
  create_warm_container,
}

-- How many containers and tasks exist after the operations, and whether the listener is open.
pub record Left : Type 0 where
  pub containers : ℕ
  pub tasks : ℕ
  pub is_listening : Bool

-- What containerd documents of deletions, in the states that a creation comes to, whose tasks are
-- created or running: a container without a task is deleted, one with a task is not, and a task that
-- was not stopped is not.
pub record Deletes (deletes_container deletes_task : Left → Bool) : Type 0 where
  pub of_free : (l : Left) → l.tasks ≡ 0 → deletes_container l ≡ true
  pub of_used : (l : Left) → 1 ≤ l.tasks → deletes_container l ≡ false
  pub of_unstopped : (l : Left) → deletes_task l ≡ false

module _ (deletes_container deletes_task : Left → Bool) where
  abbrev pub one : HostOp → Left → Left
  one made_container l = record l { containers = l.containers + 1 }
  one tried_container_deletion l =
      if deletes_container l then record l { containers = l.containers - 1 } else l
  one made_task l = record l { tasks = l.tasks + 1 }
  one tried_task_deletion l = if deletes_task l then record l { tasks = l.tasks - 1 } else l
  one listened l = record l { is_listening = true }
  one closed_listener l = record l { is_listening = false }
  one started_task l = l
  one removed_file l = l
  one made_socket_dir l = l
  one allowed l = l
  one accepted l = l

  abbrev pub left : Left → List HostOp → Left
  left l [] = l
  left l (op ∷ ops) = left (one op l) ops

abbrev pub nothing : Left
nothing = record { containers = 0; tasks = 0; is_listening = false }

abbrev pub left_by : (Left → Bool) → (Left → Bool) → List HostOp → Left
left_by deletes_container deletes_task ops = left deletes_container deletes_task nothing ops

-- The call that fails first, if any.
pub data Stage : Type 0 where
  image container socket_dir listener task waiting starting accepting : Stage
  done : Stage

abbrev pub stage : Containerd → Stage
stage C = elim C.get_image [
  | some _ ↦ image
  | none ↦ elim C.new_container [
    | some _ ↦ container
    | none ↦ elim (if C.socket_missing then C.mkdir_all else none) [
      | some _ ↦ socket_dir
      | none ↦ elim C.listen [
        | some _ ↦ listener
        | none ↦ elim C.new_task [
          | some _ ↦ task
          | none ↦ elim C.wait [
            | some _ ↦ waiting
            | none ↦ elim C.start [
              | some _ ↦ starting
              | none ↦ elim C.accept [ some _ ↦ accepting | none ↦ done ]
            ]
          ]
        ]
      ]
    ]
  ]
]

-- What each stage leaves.
abbrev pub leftover : Stage → Left
leftover socket_dir = record { containers = 1; tasks = 0; is_listening = false }
leftover listener = record { containers = 1; tasks = 0; is_listening = false }
leftover waiting = record { containers = 1; tasks = 1; is_listening = false }
leftover starting = record { containers = 1; tasks = 1; is_listening = false }
leftover accepting = record { containers = 1; tasks = 1; is_listening = false }
leftover done = record { containers = 1; tasks = 1; is_listening = false }
leftover _ = nothing

-- The listener is closed in every case. A creation that succeeds leaves its container and its
-- task. One that fails leaves neither when there is no image, no container or no task; it leaves the
-- container when the socket's directory or the socket cannot be made, since it does not try to
-- delete it; and it leaves both when the task cannot be waited for or started, or the agent does not
-- connect, since the deletions that it tries are refused. It holds for a containerd that deletes
-- only containers without a task and refuses to delete a task that was not stopped.
pub create_warm_container-leftover :
    (deletes_container deletes_task : Left → Bool)
    → Deletes deletes_container deletes_task
    → (C : Containerd) (container_id : Bytes) (slot_id : ℕ)
    → left_by deletes_container deletes_task (create_warm_container C container_id slot_id).1
      ≡ leftover (stage C)
unfolding create_warm_container
create_warm_container-leftover deletes_container deletes_task deletes C container_id slot_id =
    let free = deletes.of_free (record { containers = 1; tasks = 0; is_listening = true }) refl in
    let used =
      deletes.of_used (record { containers = 1; tasks = 1; is_listening = true }) (omega arith) in
    let unstopped =
      deletes.of_unstopped (record { containers = 1; tasks = 1; is_listening = true }) in
    ground arith
