-- ===== src/Runner/ExecSubm.antt =====
-- runner/internal/exesubmission.go and router.go: the events of a running container are forwarded
-- to the exchange and the logs to storage, and the container's end is reported. Event by event,
-- the uploads are listed in the order in which they are started.
pub mod Forwarding
pub mod Reporting
pub mod Scanning
use alpine_judge.Common.{
  ℕ, ◌*◌, ◌+◌, ◌-◌, ◌%◌, ◌^◌, Bool, true, false, Option, none, some, List, [], ◌∷◌, ◌++◌,
}
use alpine_judge.Common.{◌==◌, nat_eq, if◌then◌else◌}
use alpine_judge.Common.Results.{IoResult, io_error, io_ok}
use alpine_judge.Common.Text.{Bytes, str}
use alpine_judge.Common.Text.Decimal.{sprint}
use alpine_judge.Common.Text.Decimal.Parse.{ℤ, pos, negsuc, int64, sprint_int}
use alpine_judge.Utils.Executes.{Event, RmqPayload, ContainerInfo}
use alpine_judge.Shared.Specs.{JobSpec}
use alpine_judge.Shared.Rmq.{Message, Broker, ChannelOp, publish_to_exchange}

-- `encoding/json`: what `json.Unmarshal` leaves in an event, `json.Marshal` and `json.Valid`.
pub record Json : Type 0 where
  pub unmarshal : Bytes → Event
  pub marshal : RmqPayload → IoResult Bytes
  pub is_valid : Bytes → Bool

pub record Upload : Type 0 where
  pub key : Bytes
  pub body : Bytes

pub record Forwarded : Type 0 where
  pub ops : List ChannelOp
  pub uploads : List Upload

-- The part of an event that is published.
abbrev pub rmq_payload : Event → RmqPayload
rmq_payload e = record { type = e.type; status = e.status; details = e.details }

abbrev pub json_message : Bytes → Message
json_message body = record { content_type = str "application/json"; message_id = []; body = body }

abbrev pub stdout_key : Bytes → Bytes
stdout_key submission_id = submission_id ++ str "/result/stdout.log"

abbrev pub stderr_key : Bytes → Bytes
stderr_key submission_id = submission_id ++ str "/result/stderr.log"

module _ (json : Json) (B : Broker) (exchange : Bytes) where
  -- `routeToRMQ`
  unfoldable pub route_to_rmq : Bytes → Bytes → List ChannelOp
  route_to_rmq submission_id payload =
      if json.is_valid payload
      then (publish_to_exchange B exchange submission_id (json_message payload)).1
      else []

  -- The body of the loop over the lines; `rmqData` is nil where `json.Marshal` fails.
  unfoldable pub forward_event : Bytes → Bytes → Forwarded
  unfolding route_to_rmq
  forward_event submission_id line =
      let event = json.unmarshal line in
      let rmq_data : Bytes = elim (json.marshal (rmq_payload event)) [
        | io_error _ ↦ []
        | io_ok body ↦ body
      ] in
      record {
        ops = route_to_rmq submission_id rmq_data;
        uploads =
            record { key = stdout_key submission_id; body = event.stdout }
            ∷ record { key = stderr_key submission_id; body = event.stderr }
            ∷ [];
      }

  unfoldable pub forward_events : Bytes → List Bytes → Forwarded
  unfolding forward_event
  forward_events submission_id [] = record { ops = []; uploads = [] }
  forward_events submission_id (line ∷ lines) =
      let first = forward_event submission_id line in
      let rest = forward_events submission_id lines in
      record { ops = first.ops ++ rest.ops; uploads = first.uploads ++ rest.uploads }

-- How the `select` ends: the task exits with a code, or the timeout is over.
pub data Exit : Type 0 where
  task_exited : ℕ → Exit
  timed_out : Exit

abbrev info : JobSpec → ℕ → Bytes → Bytes → ContainerInfo
info job interval status status_info = record {
  submission_id = job.submission_id;
  language = job.language;
  version = [];
  interval = interval;
  status = status;
  status_info = status_info;
  container_stdout = [];
  container_stderr = [];
}

-- `time.Duration(timeouts) * time.Second`, which wraps around, of a signed number of seconds.
abbrev pub timeout_duration : ℤ → ℤ
timeout_duration (pos n) = int64 (n * 10 ^ 9 % 2 ^ 64)
timeout_duration (negsuc n) = int64 ((2 ^ 64 - (n + 1) * 10 ^ 9 % 2 ^ 64) % 2 ^ 64)

-- What `ExecSubm` returns, and whether it kills the task: the job, `TIMEOUT_SEC`, the milliseconds
-- passed and the end; for a duration that is not positive the timeout is over at once. Both buffers are local and nothing writes to them. The verb `%d` prints the
-- duration in nanoseconds.
unfoldable pub exec_subm : JobSpec → ℤ → ℕ → Exit → ContainerInfo × Bool
exec_subm job timeouts elapsed_ms (task_exited code) =
    if code == 0
    then (info job elapsed_ms (str "OK") (str "Container exited normally"), false)
    else (
      info job elapsed_ms (str "ERROR") (str "Container exited with code " ++ sprint code),
      false,
    )
exec_subm job timeouts elapsed_ms timed_out = (
  info job elapsed_ms (str "ERROR") (
      str "Task exceeded time limit of "
      ++ sprint_int (timeout_duration timeouts)
      ++ str " seconds"),
  true,
)
