-- ===== src/Dispatcher/Endpoints.antt =====
-- dispatcher/internal/endpoints.go: the handlers. A response body is a JSON object of strings, as
-- its fields; what `encoding/json` makes of a request or a submission is given by the request.
pub mod Presigning
pub mod Submitting
pub mod Streaming
use alpine_judge.Common.{ℕ, Bool, true, false, not, Option, none, some, List, [], ◌∷◌, ◌++◌}
use alpine_judge.Common.{◌==◌, nat_eq, list_eq, is_empty, if◌then◌else◌}
use alpine_judge.Common.Results.{IoResult, io_error, io_ok}
use alpine_judge.Common.Text.{Bytes, str}
use alpine_judge.Shared.S3.{S3Client, generate_presigned_upload_url}
use alpine_judge.Shared.Rmq.{Message, Broker, ChannelOp, publish, subscribe_to_exchange}
use alpine_judge.Dispatcher.Validate.{SubmissionSpec, validate_submission}

pub record Response : Type 0 where
  pub status : ℕ
  pub headers : List (Bytes × Bytes)
  pub body : List (Bytes × Bytes)

abbrev pub json_header : List (Bytes × Bytes)
json_header = (str "Content-Type", str "application/json") ∷ []

-- `writeError`
abbrev pub write_error : ℕ → Bytes → Response
write_error status text = record {
  status = status;
  headers = json_header;
  body = (str "error", text) ∷ [];
}

-- `ResponseRootHanlder`
pub response_root_handler : Response
response_root_handler = record {
  status = 200;
  headers = [];
  body = (str "message", str "AlpineJudge Alive") ∷ [];
}

-- A request to one of the two `POST` routes. `fields` is its body decoded into a map of strings,
-- looked up at `testset_id` (`none` where the key is missing), and `submission` its body decoded
-- into a submission.
pub record Request : Type 0 where
  pub method : Bytes
  pub fields : IoResult (Option Bytes)
  pub submission : IoResult SubmissionSpec

abbrev is_post : Request → Bool
is_post r = r.method == str "POST"

module _ (S : S3Client) (bucket : Bytes) where
  presigned_response : IoResult Bytes → Response
  presigned_response (io_error text) =
      write_error 500 (str "unable to generate presigned upload URL")
  presigned_response (io_ok url) = record {
    status = 202;
    headers = json_header;
    body = (str "s3_presigned_key", url) ∷ [];
  }

  -- From the look-up of `testset_id` on.
  presign_key : Option Bytes → Response
  unfolding presigned_response
  presign_key none = write_error 400 (str "testset_id is required")
  presign_key (some key) =
      if is_empty key
      then write_error 400 (str "testset_id is required")
      else presigned_response (generate_presigned_upload_url S bucket key)

  presign_fields : IoResult (Option Bytes) → Response
  unfolding presign_key
  presign_fields (io_error text) = write_error 400 (str "invalid JSON payload")
  presign_fields (io_ok key) = presign_key key

  -- `SendPresignedKeyForTestset`
  unfoldable pub send_presigned_key_for_testset : Request → Response
  unfolding presign_fields
  send_presigned_key_for_testset r =
      if is_post r then presign_fields r.fields else write_error 405 (str "Method not allowed")

  module _ (B : Broker) (queue : Bytes) (marshal : SubmissionSpec → IoResult Bytes) where
    -- `amqp.Publishing` of a submission.
    abbrev pub message_of : SubmissionSpec → Bytes → Message
    message_of submission body = record {
      content_type = str "application/json";
      message_id = submission.submission_id;
      body = body;
    }

    queued : SubmissionSpec → Option Bytes × List ChannelOp → Response × List ChannelOp
    queued submission (some text, ops) =
        (write_error 500 (str "Message broker drop: " ++ text), ops)
    queued submission (none, ops) = (
      record {
        status = 202;
        headers = json_header;
        body = (str "status", str "Queued") ∷ (str "submission_id", submission.submission_id) ∷ [];
      },
      ops,
    )

    marshalled : SubmissionSpec → IoResult Bytes → Response × List ChannelOp
    unfolding queued
    marshalled submission (io_error text) = (write_error 500 text, [])
    marshalled submission (io_ok body) =
        queued submission (publish B queue (message_of submission body))

    validated : SubmissionSpec → Option Bytes → Response × List ChannelOp
    unfolding marshalled
    validated submission (some text) = (write_error 400 text, [])
    validated submission none = marshalled submission (marshal submission)

    decoded : S.Store → IoResult SubmissionSpec → Response × List ChannelOp
    unfolding validated
    decoded s (io_error text) = (write_error 400 text, [])
    decoded s (io_ok submission) = validated submission (validate_submission S bucket s submission)

    -- `SubmissionReciever`: the response and what was done at the broker.
    unfoldable pub submission_receiver : S.Store → Request → Response × List ChannelOp
    unfolding decoded
    submission_receiver s r =
        if is_post r
        then decoded s r.submission
        else (write_error 405 (str "Method not allowed"), [])

-- One round of the loop of `SSEHandler`: the client is gone, the queue is closed, or a delivery
-- (its tag and body) came and was written to the client, or could not be.
pub data SseEvent : Type 0 where
  client_gone queue_closed : SseEvent
  delivery : ℕ → Bytes → Bool → SseEvent

pub data SseOp : Type 0 where
  wrote : Bytes → SseOp
  flushed : SseOp
  acked nacked : ℕ → SseOp

abbrev pub sse_frame : Bytes → Bytes
sse_frame body = str "data: " ++ body ++ str "\n\n"

-- The loop of `SSEHandler` over the events that it meets.
unfoldable pub sse_loop : List SseEvent → List SseOp
sse_loop [] = []
sse_loop (client_gone ∷ events) = []
sse_loop (queue_closed ∷ events) = []
sse_loop (delivery tag body true ∷ events) =
    wrote (sse_frame body) ∷ flushed ∷ acked tag ∷ sse_loop events
sse_loop (delivery tag body false ∷ events) = nacked tag ∷ []

-- How `SSEHandler` begins and goes on: an error response, `os.Exit(1)`, or the stream. `flusher`
-- says whether the connection can flush, `exchange` is the environment variable.
pub data SseEnd : Type 0 where
  refused : ℕ → Bytes → SseEnd
  exited : ℕ → SseEnd
  streamed : List SseOp → SseEnd

unfoldable pub sse_handler : Bool → Option Bytes → Broker → Bytes → Bytes → List SseEvent → SseEnd
unfolding sse_loop
sse_handler false exchange B id tag events = refused 500 (str "Streaming unsupported!")
sse_handler true none B id tag events = exited 1
sse_handler true (some exchange) B id tag events =
    elim ((subscribe_to_exchange B 0 exchange id tag).0) [
      | some _ ↦ refused 500 (str "Execution event queue failed!")
      | none ↦ streamed (sse_loop events)
    ]
