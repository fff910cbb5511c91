-- ===== src/Runner/WarmContainer.antt =====
-- runner/internal/warmcontainer.go: the creation of a warm container, as the operations on the
-- host and on containerd.
pub mod Cleanup
use alpine_judge.Common.{
  ℕ, Bool, true, false, Option, none, some, List, [], ◌∷◌, ◌++◌, if◌then◌else◌,
}
use alpine_judge.Common.Results.{IoResult, io_error, io_ok}
use alpine_judge.Common.Text.{Bytes, str}
use alpine_judge.Common.Text.Decimal.{sprint}

-- The errors of each call. `socket_missing` says whether `os.Stat` gives `ErrNotExist`.
pub record Containerd : Type 0 where
  pub get_image : Option Bytes
  pub new_container : Option Bytes
  pub socket_missing : Bool
  pub mkdir_all : Option Bytes
  pub listen : Option Bytes
  pub new_task : Option Bytes
  pub wait : Option Bytes
  pub start : Option Bytes
  pub accept : Option Bytes

-- What was done; a deletion is tried, and its error is dropped.
pub data HostOp : Type 0 where
  made_container tried_container_deletion made_task tried_task_deletion started_task : HostOp
  removed_file made_socket_dir listened allowed : HostOp
  accepted closed_listener : HostOp

pub record WarmContainer : Type 0 where
  pub container_id : Bytes
  pub slot_id : ℕ  -- uint32

unfoldable pub socket_path : ℕ → Bytes
socket_path slot_id = str "/tmp/runner/sockets/" ++ sprint slot_id ++ str ".sock"

abbrev Creation : Type 0
Creation = IoResult WarmContainer × List HostOp

-- The operations of a stage, in front of those of the rest.
abbrev after : List HostOp → Creation → Creation
after ops r = (r.0, ops ++ r.1)

module _ (C : Containerd) (container_id : Bytes) (slot_id : ℕ) where
  -- `listener.Accept`, and the deferred `listener.Close`.
  accept_agent : Creation
  accept_agent = elim C.accept [
    | some text ↦ (
      io_error (str "agent failed to connect: " ++ text),
      tried_container_deletion ∷ closed_listener ∷ [],
    )
    | none ↦ (
      io_ok (record { container_id = container_id; slot_id = slot_id }),
      accepted ∷ closed_listener ∷ [],
    )
  ]

  start_task : Creation
  unfolding accept_agent
  start_task = elim C.start [
    | some text ↦ (
      io_error (str "failed to start container task: " ++ text),
      tried_task_deletion ∷ tried_container_deletion ∷ closed_listener ∷ [],
    )
    | none ↦ after (started_task ∷ []) accept_agent
  ]

  wait_task : Creation
  unfolding start_task
  wait_task = elim C.wait [
    | some text ↦ (
      io_error (str "failed to obtain wait channel: " ++ text),
      tried_task_deletion ∷ tried_container_deletion ∷ closed_listener ∷ [],
    )
    | none ↦ start_task
  ]

  make_task : Creation
  unfolding wait_task
  make_task = elim C.new_task [
    | some text ↦
        (io_error (str "NewTask error: " ++ text), tried_container_deletion ∷ closed_listener ∷ [])
    | none ↦ after (made_task ∷ []) wait_task
  ]

  listen_socket : Creation
  unfolding make_task
  listen_socket = elim C.listen [
    | some text ↦ (
      io_error (str "failed to create unix socket at " ++ socket_path slot_id ++ str ": " ++ text),
      [],
    )
    | none ↦ after (listened ∷ allowed ∷ []) make_task
  ]

  make_socket_dir : Creation
  unfolding listen_socket
  make_socket_dir =
      if C.socket_missing
      then elim C.mkdir_all [
        | some text ↦ (
          io_error (str "Failed to create temp socket path (it didn't exist either): " ++ text),
          [],
        )
        | none ↦ after (made_socket_dir ∷ []) listen_socket
      ]
      else listen_socket

  -- `CreateWarmContainer`; `container_id` is what `generateContainerID` gives.
  unfoldable pub create_warm_container : Creation
  unfolding make_socket_dir
  create_warm_container = elim C.get_image [
    | some text ↦ (io_error (str "containerd image object is nil for " ++ text), [])
    | none ↦ elim C.new_container [
      | some text ↦ (io_error (str "Failed creating container with ID " ++ text), [])
      | none ↦ after (made_container ∷ removed_file ∷ []) make_socket_dir
    ]
  ]
