-- ===== src/Runner/Startup.antt =====
-- runner/pkg/runner.go, and runner/pkg/engine.go up to the loops: what must go well before the
-- runner serves jobs.
pub mod Serving
use alpine_judge.Common.{
  ℕ, ◌≡◌, ◌≢◌, refl, ◌↔◌, Bool, true, false, Option, none, some, List, [], ◌∷◌,
}
use alpine_judge.Common.{All, is_empty, if◌then◌else◌}
use alpine_judge.Common.Results.{IoResult, io_error, io_ok, unless_error, unless_error_iff}
use alpine_judge.Common.Text.{Bytes, str}
use alpine_judge.Common.Text.Decimal.Parse.{ℤ, pos, negsuc, NumError, parse_int}
use alpine_judge.Common.FilePath.{join}
use alpine_judge.Shared.Rmq.{
  Broker, Outcome, returned, panicked, Connection, connected, context_ended, channel_failed,
  out_of_fuel, new_rmq_manager, subscribe,
}
use alpine_judge.Shared.S3.Buckets.{Buckets, S3Manager, init_s3_manager, create_a_bucket}

-- What the runner meets: the environment, the attempts to reach the broker and the end of the
-- context during the waits, the broker, the errors of the SDK's configuration, of containerd's
-- client and of `os.MkdirAll`, and the storage.
pub record Site : Type 1 where
  pub lookup_env : Bytes → Option Bytes
  pub dial : ℕ → Option Bytes
  pub cancelled : ℕ → Bool
  pub broker : Broker
  pub load_config : Option Bytes
  pub storage : Buckets
  pub store : storage.Store
  pub new_client : Option Bytes
  pub mkdir_all : Bytes → Option Bytes

-- How far the start gets: the process exits or panics, it still tries to connect, or the runner
-- serves with a queue of warm containers of some capacity.
pub data Started : Type 0 where
  exited : ℕ → Started
  panicking connecting : Started
  serving : ℕ → Started

-- `os.Getenv`
abbrev pub getenv : Site → Bytes → Bytes
getenv H name = elim (H.lookup_env name) [ none ↦ [] | some value ↦ value ]

abbrev pub base_dirs : List Bytes
base_dirs =
    join (str "/tmp" ∷ str "runner" ∷ str "sockets" ∷ [])
    ∷ join (str "/tmp" ∷ str "runner" ∷ str "testsets" ∷ [])
    ∷ join (str "/tmp" ∷ str "runner" ∷ str "submissions" ∷ [])
    ∷ []

-- The loop over the base directories.
abbrev pub make_dirs : (Bytes → Option Bytes) → List Bytes → Started → Started
make_dirs mkdir_all [] rest = rest
make_dirs mkdir_all (dir ∷ dirs) rest =
    unless_error (mkdir_all dir) (exited 1) (make_dirs mkdir_all dirs rest)

-- `make(chan *internal.WarmContainer, maxWarmContianers)`, which panics below 0.
abbrev pub make_queue : ℤ × Option NumError → Started
make_queue (n, some _) = exited 1
make_queue (pos n, none) = serving n
make_queue (negsuc n, none) = panicking

abbrev pub container_queue : Option Bytes → Started
container_queue none = exited 1
container_queue (some capacity) = make_queue (parse_int 32 capacity)

abbrev pub consume : Outcome → Started → Started
consume (returned err) rest = unless_error err (exited 1) rest
consume (panicked text) rest = panicking

abbrev pub with_manager : IoResult S3Manager → Started → Started
with_manager (io_error text) rest = exited 1
with_manager (io_ok manager) rest = rest

module _ (H : Site) where
  -- `InitRunner` up to its loops.
  unfoldable pub init_runner : Started
  init_runner = make_dirs H.mkdir_all base_dirs (
      consume (subscribe H.broker 0 (getenv H (str "RABBITMQ_QUEUE_NAME")) (str "rmq-consoomer")).0
        (container_queue (H.lookup_env (str "CONTAINER_QUEUECAP"))))

  pub bucket : Bytes
  bucket = getenv H (str "MINIO_S3_BUCKET")

  -- From the S3 manager on.
  pub with_storage : Started
  unfolding bucket
  with_storage =
      with_manager
        (init_s3_manager H.load_config bucket (getenv H (str "MINIO_S3_REGION_NAME"))
          (getenv H (str "MINIO_S3_USERNAME")) (getenv H (str "MINIO_S3_PASSWORD"))
          (getenv H (str "MINIO_S3_API")))
        (unless_error (create_a_bucket H.storage H.store bucket).1 (exited 1)
          (unless_error H.new_client (exited 1) init_runner))

  pub with_broker : Connection → Started
  unfolding with_storage
  with_broker connected = with_storage
  with_broker context_ended = exited 1
  with_broker channel_failed = exited 1
  with_broker out_of_fuel = connecting

  -- `Runner` up to the loops of `InitRunner`; the fuel bounds the attempts to connect.
  unfoldable pub runner : ℕ → Started
  unfolding with_broker
  runner fuel = with_broker (new_rmq_manager H.dial H.cancelled H.broker fuel).0
