-- ===== src/Runner/Startup/Serving.antt =====
-- When the runner serves jobs.
use alpine_judge.Common.{ℕ, ◌≡◌, ◌≢◌, refl, ◌↔◌, Option, none, some, List, [], ◌∷◌}
use alpine_judge.Common.{All}
use alpine_judge.Common.Results.{unless_error_iff}
use alpine_judge.Common.Text.{Bytes, str}
use alpine_judge.Common.Text.Decimal.Parse.{ℤ, pos, negsuc, NumError, parse_int}
use alpine_judge.Shared.Rmq.{
  Outcome, returned, panicked, Connection, connected, context_ended, channel_failed, out_of_fuel,
  new_rmq_manager, subscribe,
}
use alpine_judge.Shared.S3.Buckets.{init_s3_manager, create_a_bucket}
use alpine_judge.Runner.Startup.{
  Site, Started, exited, serving, getenv, base_dirs, make_dirs, make_queue, container_queue,
  consume, init_runner, with_manager, with_storage, with_broker, runner,
}

exit≢serving : (n : ℕ) → exited 1 ≢ serving n
exit≢serving n h = cc

make_dirs_iff :
    (mkdir_all : Bytes → Option Bytes) (dirs : List Bytes) (rest : Started) (n : ℕ)
    → (make_dirs mkdir_all dirs rest ≡ serving n)
      ↔ (All (λ d. mkdir_all d ≡ none) dirs × (rest ≡ serving n))
make_dirs_iff mkdir_all [] rest n = (λ h. (tt, h), λ (_, h). h)
make_dirs_iff mkdir_all (d ∷ dirs) rest n =
    let this = unless_error_iff (mkdir_all d) (exit≢serving n) in
    let those = make_dirs_iff mkdir_all dirs rest n in
    (
      λ h. let (made, more) = this.0 h in let (others, end) = those.0 more in ((made, others), end),
      λ ((made, others), end). this.1 (made, those.1 (others, end)),
    )

make_queue_iff :
    (r : ℤ × Option NumError) (n : ℕ) → (make_queue r ≡ serving n) ↔ (r ≡ (pos n, none))
make_queue_iff (pos m, none) n =
    (λ h. let e : m ≡ n = cc in rw e refl, λ h. let e : m ≡ n = cc in rw e refl)
make_queue_iff (negsuc m, none) n = (λ h. cc, λ h. cc)
make_queue_iff (k, some e) n = (λ h. cc, λ h. cc)

container_queue_iff :
    (o : Option Bytes) (n : ℕ)
    → (container_queue o ≡ serving n)
      ↔ ((text : Bytes) × (o ≡ some text) × (parse_int 32 text ≡ (pos n, none)))
container_queue_iff none n = (λ h. cc, λ (_, e, _). cc)
container_queue_iff (some size) n = (
  λ h. (size, refl, (make_queue_iff (parse_int 32 size) n).0 h),
  λ (text, e, p).
      let same : size ≡ text = cc in (make_queue_iff (parse_int 32 size) n).1 (rw same p),
)

consume_iff :
    (o : Outcome) (rest : Started) (n : ℕ)
    → (consume o rest ≡ serving n) ↔ ((o ≡ returned none) × (rest ≡ serving n))
consume_iff (returned none) rest n = (λ h. (refl, h), λ (_, h). h)
consume_iff (returned (some text)) rest n = (λ h. cc, λ (e, _). cc)
consume_iff (panicked text) rest n = (λ h. cc, λ (e, _). cc)

with_manager_iff :
    (load : Option Bytes) (b r a k e : Bytes) (rest : Started) (n : ℕ)
    → (with_manager (init_s3_manager load b r a k e) rest ≡ serving n)
      ↔ ((load ≡ none) × (rest ≡ serving n))
unfolding init_s3_manager
with_manager_iff none b r a k e rest n = (λ h. (refl, h), λ (_, h). h)
with_manager_iff (some text) b r a k e rest n = (λ h. cc, λ (e, _). cc)

with_broker_iff :
    (H : Site) (c : Connection) (n : ℕ)
    → (with_broker H c ≡ serving n) ↔ ((c ≡ connected) × (with_storage H ≡ serving n))
unfolding with_broker
with_broker_iff H connected n = (λ h. (refl, h), λ (_, h). h)
with_broker_iff H context_ended n = (λ h. cc, λ (e, _). cc)
with_broker_iff H channel_failed n = (λ h. cc, λ (e, _). cc)
with_broker_iff H out_of_fuel n = (λ h. cc, λ (e, _). cc)

-- What it takes to serve jobs with a queue of `n` warm containers.
pub record Serves (H : Site) (fuel n : ℕ) : Type 0 where
  pub connects : (new_rmq_manager H.dial H.cancelled H.broker fuel).0 ≡ connected
  pub configured : H.load_config ≡ none
  pub has_bucket : (create_a_bucket H.storage H.store (getenv H (str "MINIO_S3_BUCKET"))).1 ≡ none
  pub has_client : H.new_client ≡ none
  pub has_dirs : All (λ d. H.mkdir_all d ≡ none) base_dirs
  pub subscribes :
      (subscribe H.broker 0 (getenv H (str "RABBITMQ_QUEUE_NAME")) (str "rmq-consoomer")).0
      ≡ returned none
  pub capacity :
      (text : Bytes) × (H.lookup_env (str "CONTAINER_QUEUECAP") ≡ some text)
      × (parse_int 32 text ≡ (pos n, none))

with_storage_iff :
    (H : Site) (n : ℕ)
    → (with_storage H ≡ serving n) ↔ (
        (H.load_config ≡ none)
        × ((create_a_bucket H.storage H.store (getenv H (str "MINIO_S3_BUCKET"))).1 ≡ none)
        × (H.new_client ≡ none)
        × (init_runner H ≡ serving n))
unfolding with_storage
with_storage_iff H n =
    let manager = with_manager_iff H.load_config _ _ _ _ _ _ n in
    let made =
      unless_error_iff (create_a_bucket H.storage H.store (getenv H (str "MINIO_S3_BUCKET"))).1
        (exit≢serving n) in
    let client = unless_error_iff H.new_client (exit≢serving n) in
    (
      λ h.
          let (c, h1) = manager.0 h in
          let (b, h2) = made.0 h1 in let (k, h3) = client.0 h2 in (c, b, k, h3),
      λ (c, b, k, h). manager.1 (c, made.1 (b, client.1 (k, h))),
    )

init_runner_iff :
    (H : Site) (n : ℕ)
    → (init_runner H ≡ serving n) ↔ (
        All (λ d. H.mkdir_all d ≡ none) base_dirs
        × ((subscribe H.broker 0 (getenv H (str "RABBITMQ_QUEUE_NAME")) (str "rmq-consoomer")).0
            ≡ returned none)
        × ((text : Bytes) × (H.lookup_env (str "CONTAINER_QUEUECAP") ≡ some text)
            × (parse_int 32 text ≡ (pos n, none))))
unfolding init_runner
init_runner_iff H n =
    let dirs = make_dirs_iff H.mkdir_all base_dirs _ n in
    let jobs =
      consume_iff
        (subscribe H.broker 0 (getenv H (str "RABBITMQ_QUEUE_NAME")) (str "rmq-consoomer")).0 _ n in
    let queue = container_queue_iff (H.lookup_env (str "CONTAINER_QUEUECAP")) n in
    (
      λ h. let (d, h1) = dirs.0 h in let (j, h2) = jobs.0 h1 in (d, j, queue.0 h2),
      λ (d, j, q). dirs.1 (d, jobs.1 (j, queue.1 q)),
    )

-- The runner comes to serve jobs, with a queue of `n` warm containers, exactly when it connects to
-- the broker within the fuel, the SDK can be set up, the bucket is there or can be created, the
-- client of containerd starts, the three directories can be made, the subscription to the job
-- queue succeeds, and CONTAINER_QUEUECAP is set to a number `n` of 32 bits that is not negative.
pub runner-serving_iff : (H : Site) (fuel n : ℕ) → (runner H fuel ≡ serving n) ↔ Serves H fuel n
unfolding runner
runner-serving_iff H fuel n =
    let broker = with_broker_iff H (new_rmq_manager H.dial H.cancelled H.broker fuel).0 n in
    let storage = with_storage_iff H n in
    let engine = init_runner_iff H n in
    (
      λ h.
          let (c, h1) = broker.0 h in
          let (l, b, k, h2) = storage.0 h1 in
          let (d, j, q) = engine.0 h2 in
          record {
            connects = c;
            configured = l;
            has_bucket = b;
            has_client = k;
            has_dirs = d;
            subscribes = j;
            capacity = q;
          },
      λ s. broker.1 (
        s.connects,
        storage.1 (
          s.configured,
          s.has_bucket,
          s.has_client,
          engine.1 (s.has_dirs, s.subscribes, s.capacity),
        ),
      ),
    )
