-- ===== src/Dispatcher/Startup.antt =====
-- dispatcher/pkg/dispatcher.go, and `InitHTTPServer` of dispatcher/internal/endpoints.go: the
-- dispatcher from its start to its end.
pub mod Finishing
use alpine_judge.Common.{ℕ, Bool, true, false, Option, none, some, List, [], ◌∷◌, ◌++◌, map}
use alpine_judge.Common.{is_empty, if◌then◌else◌}
use alpine_judge.Common.Results.{IoResult, io_error, io_ok}
use alpine_judge.Common.Text.{Bytes, str}
use alpine_judge.Shared.S3.Buckets.{S3Manager, init_s3_manager}
use alpine_judge.Shared.Rmq.{
  Broker, Connection, connected, context_ended, channel_failed, out_of_fuel, new_rmq_manager,
}
use alpine_judge.Shared.Rmq.Closing.{CloseOp, close_manager, closed_on}

pub data Handler : Type 0 where
  root presigned_key submit events : Handler

-- The patterns of the mux, each with its handler.
abbrev pub routes : List (Bytes × Handler)
routes =
    (str "GET /{$}", root)
    ∷ (str "POST /presignedkey", presigned_key)
    ∷ (str "POST /submit", submit)
    ∷ (str "GET /submissions/{submission_id}/events", events)
    ∷ []

-- `http.Server`, with the manager and the bucket of the `ServerEnv` that the handlers share.
pub record HttpServer : Type 0 where
  pub addr : Bytes
  pub handler : List (Bytes × Handler)
  pub s3m : S3Manager
  pub bucket : Bytes

-- What the dispatcher meets: the environment (empty where a variable is not set), the error of the
-- SDK's configuration, the attempts to reach the broker and the end of the context during the
-- waits, the broker, and the errors of `ListenAndServe`, other than `ErrServerClosed`, and of
-- `Shutdown`.
pub record Site : Type 0 where
  pub getenv : Bytes → Bytes
  pub load_config : Option Bytes
  pub dial : ℕ → Option Bytes
  pub cancelled : ℕ → Bool
  pub broker : Broker
  pub listen_and_serve : Option Bytes
  pub shutdown : Option Bytes

pub data ServiceOp : Type 0 where
  made_manager : S3Manager → ServiceOp
  connected_to : Bytes → ServiceOp
  served : HttpServer → ServiceOp
  shut_down : Bool → ServiceOp  -- whether without an error
  closed : CloseOp → ServiceOp

-- How the dispatcher ends: it returns, it exits, or it still tries to connect.
pub data Ending : Type 0 where
  finished connecting : Ending
  exited : ℕ → Ending

abbrev pub before : ServiceOp → List ServiceOp × Ending → List ServiceOp × Ending
before op r = (op ∷ r.0, r.1)

abbrev pub is_none : Option Bytes → Bool
is_none none = true
is_none (some text) = false

module _ (H : Site) where
  -- `InitHTTPServer`
  abbrev pub init_http_server : S3Manager → HttpServer
  init_http_server manager = record {
    addr = str ":1111";
    handler = routes;
    s3m = manager;
    bucket = H.getenv (str "MINIO_S3_BUCKET");
  }

  -- From the server on: it fails, or a signal ends the context. The deferred `Close` does not run
  -- where the process exits.
  abbrev pub serve : Option Bytes → S3Manager → List ServiceOp × Ending
  serve (some text) manager = (served (init_http_server manager) ∷ [], exited 1)
  serve none manager = (
    served (init_http_server manager)
        ∷ shut_down (is_none H.shutdown)
        ∷ map closed (close_manager true true),
    finished,
  )

  abbrev pub with_broker : Connection → S3Manager → List ServiceOp × Ending
  with_broker connected manager =
      before (connected_to (H.getenv (str "RABBITMQ_URL"))) (serve H.listen_and_serve manager)
  with_broker context_ended manager = ([], exited 1)
  with_broker channel_failed manager = (
    connected_to (H.getenv (str "RABBITMQ_URL")) ∷ map closed (closed_on channel_failed),
    exited 1,
  )
  with_broker out_of_fuel manager = ([], connecting)

  -- From the URL of the broker on.
  abbrev pub with_url : Bool → ℕ → S3Manager → List ServiceOp × Ending
  with_url true fuel manager = ([], exited 1)
  with_url false fuel manager =
      with_broker (new_rmq_manager H.dial H.cancelled H.broker fuel).0 manager

  abbrev pub with_manager : IoResult S3Manager → ℕ → List ServiceOp × Ending
  with_manager (io_error text) fuel = ([], exited 1)
  with_manager (io_ok manager) fuel =
      before (made_manager manager)
        (with_url (is_empty (H.getenv (str "RABBITMQ_URL"))) fuel manager)

  -- `Dispatcher`; the fuel bounds the attempts to connect.
  unfoldable pub dispatcher : ℕ → List ServiceOp × Ending
  dispatcher fuel =
      with_manager
        (init_s3_manager H.load_config (H.getenv (str "MINIO_S3_BUCKET"))
          (H.getenv (str "MINIO_S3_REGION_NAME")) (H.getenv (str "MINIO_S3_USERNAME"))
          (H.getenv (str "MINIO_S3_PASSWORD")) (H.getenv (str "MINIO_S3_API")))
        fuel
