-- ===== src/Examples/DispatcherRuns.antt =====
-- dispatcher/internal: submissions to a store with one testset, and a stream to a client.
use alpine_judge.Common.{ℕ, ◌≡◌, refl, ◌↔◌, true, false, none, some, List, [], ◌∷◌, map}
use alpine_judge.Common.{◌==◌, list_eq, nat_eq, if◌then◌else◌}
use alpine_judge.Common.Results.{IoResult, io_error, io_ok}
use alpine_judge.Common.Text.{Bytes, str, has_suffix}
use alpine_judge.Shared.S3.{S3Client, with_slash, check_s3_dir}
use alpine_judge.Shared.Rmq.{Broker}
use alpine_judge.Dispatcher.Validate.{SubmissionSpec, is_available, validate_submission}
use alpine_judge.Dispatcher.Validate.Accepting.{IsAcceptable, validate_submission-none_iff}
use alpine_judge.Dispatcher.Endpoints.{
  Request, SseEvent, delivery, client_gone, sse_frame, sse_loop, submission_receiver,
}
use alpine_judge.Dispatcher.Endpoints.Submitting.{IsQueued, submission_receiver-accepted_iff}
use alpine_judge.Dispatcher.Endpoints.Streaming.{
  delivered, frames, acks, IsOrdered, sse_loop-serves,
}

-- A store is the answer to the counts of its one folder, `sum/`.
abbrev pub client : S3Client
client = record {
  Store = IoResult ℕ;
  get_object = λ s bucket key. io_ok [];
  put_object = λ s bucket key body. (s, none);
  key_count = λ s bucket key n. if key == str "sum/" then s else io_ok 0;
  pages = λ s bucket key. [];
  presign_put = λ bucket key. io_ok key;
}

abbrev pub broker : Broker
broker = record {
  open_channel = none;
  queue_declare = λ q. none;
  server_name = str "amq.gen";
  exchange_declare = λ e. none;
  queue_bind = λ q k e. none;
  qos = λ n. none;
  consume = λ q t. none;
  publish = λ e k m. none;
}

abbrev pub submission : SubmissionSpec
submission = record {
  language = str "go";
  source = str "package main";
  submission_id = str "s1";
  bucket = str "b";
  testset = str "sum";
  per_test_memory_limit_mb = 64;
  per_test_timeout_sec = 2;
  per_test_log_limit_kb = 16;
}

abbrev pub post : Request
post = record { method = str "POST"; fields = io_ok none; submission = io_ok submission }

abbrev get : Request
get = record { method = str "GET"; fields = io_error []; submission = io_error (str "EOF") }

abbrev marshal : SubmissionSpec → IoResult Bytes
marshal _ = io_ok (str "{}")

validate_submission-none_iff_example :
    (validate_submission client (str "b") (io_ok 2) submission ≡ none)
    ↔ IsAcceptable client (str "b") (io_ok 2) submission
validate_submission-none_iff_example =
    validate_submission-none_iff client (str "b") (io_ok 2) submission

accepted_submission : validate_submission client (str "b") (io_ok 2) submission ≡ none
unfolding validate_submission check_s3_dir has_suffix is_available
accepted_submission = refl

fresh : client.key_count (io_error (str "timeout")) (str "b") (with_slash (str "s1")) 1 ≡ io_ok 0
unfolding has_suffix
fresh = refl

known : is_available (str "go") ≡ true
unfolding is_available
known = refl

unreadable :
    client.key_count (io_error (str "timeout")) (str "b") (with_slash (str "sum")) 1
    ≡ io_error (str "timeout")
unfolding has_suffix
unreadable = refl

submission_receiver-accepted_iff_example :
    ((submission_receiver client (str "b") broker (str "jobs") marshal (io_ok 2) post).0.status
      ≡ 202)
    ↔ IsQueued client (str "b") broker (str "jobs") marshal (io_ok 2) post
submission_receiver-accepted_iff_example =
    submission_receiver-accepted_iff client (str "b") broker (str "jobs") marshal (io_ok 2) post

abbrev two_events : List SseEvent
two_events = delivery 1 (str "a") true ∷ delivery 2 (str "b") false ∷ client_gone ∷ []

sse_loop-serves_example :
    (frames (sse_loop two_events) ≡ map (λ d. sse_frame d.1) (delivered two_events))
    × (acks (sse_loop two_events) ≡ map (λ d. d.0) (delivered two_events))
    × IsOrdered (sse_loop two_events)
sse_loop-serves_example = sse_loop-serves two_events

abbrev named : Request
named = record { method = str "POST"; fields = io_ok (some (str "sum")); submission = io_error [] }
