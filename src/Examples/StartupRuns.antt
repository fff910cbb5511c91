-- ===== src/Examples/StartupRuns.antt =====
-- The start and the end of the runner and of the dispatcher, the bucket, and one submission.
use alpine_judge.Common.{
  ◌≡◌, ◌↔◌, Bool, true, false, none, some, Option, List, [], ◌∷◌, contains, nat_eq, list_eq, ◌==◌,
  if◌then◌else◌,
}
use alpine_judge.Common.Text.{Bytes, str}
use alpine_judge.Shared.S3.Buckets.{SdkError, Buckets}
use alpine_judge.Shared.Rmq.{new_rmq_manager}
use alpine_judge.Dispatcher
use alpine_judge.Dispatcher.Startup.{finished, dispatcher}
use alpine_judge.Dispatcher.Startup.Finishing.{
  Finishes, closings, to_close, dispatcher-finished_iff,
}
use alpine_judge.Runner
use alpine_judge.Runner.Startup.{runner, serving}
use alpine_judge.Runner.Startup.Serving.{Serves, runner-serving_iff}
use alpine_judge.Runner.Engine.Serving.{
  Serving, looping, returned, started, deliver, end_worker, Turns, here, followed, Turns-settle,
}
use alpine_judge.Examples.StreamRuns.{broker}

-- A storage whose state is the list of its buckets.
create : List Bytes → Bytes → Bool → List Bytes × Option SdkError
create names bucket true =
    (names, some (record { text = str "409"; code = some (str "BucketAlreadyOwnedByYou") }))
create names bucket false = (bucket ∷ names, none)

abbrev storage : Buckets
storage = record {
  Store = List Bytes;
  create_bucket = λ names bucket. create names bucket (contains names bucket);
  delete_bucket = λ names bucket. (names, none);
}

-- A site where the broker is reached at the second attempt.
abbrev runner_site : Runner.Startup.Site
runner_site = record {
  lookup_env = λ name. some (str "15");
  dial = λ k. if k == 0 then some (str "refused") else none;
  cancelled = λ k. false;
  broker = broker;
  load_config = none;
  storage = storage;
  store = [];
  new_client = none;
  mkdir_all = λ path. none;
}

runner-serving_iff_example : (runner runner_site 2 ≡ serving 15) ↔ Serves runner_site 2 15
runner-serving_iff_example = runner-serving_iff runner_site 2 15

abbrev dispatcher_site : Dispatcher.Startup.Site
dispatcher_site = record {
  getenv = λ name. str "amqp://rabbitmq";
  load_config = none;
  dial = λ k. none;
  cancelled = λ k. false;
  broker = broker;
  listen_and_serve = none;
  shutdown = some (str "deadline exceeded");
}

dispatcher-finished_iff_example :
    (((dispatcher dispatcher_site 1).1 ≡ finished) ↔ Finishes dispatcher_site 1)
    × (closings (dispatcher dispatcher_site 1).0
        ≡ to_close none false (new_rmq_manager (λ k. none) (λ k. false) broker 1).0 none)
dispatcher-finished_iff_example = dispatcher-finished_iff dispatcher_site 1

-- One of two workers has ended.
abbrev one_of_two : Serving
one_of_two = record { phase = looping; active = 1; taken = 2; ended = 1 }

two_taken : Turns started one_of_two
two_taken =
    followed (followed (followed (here _) (deliver 0 0 0)) (deliver 1 1 0))
      (end_worker looping 1 2 0)

Turns-settle_example :
    (looping ≡ returned → (one_of_two.active ≡ 0) × (one_of_two.ended ≡ one_of_two.taken))
    × (looping ≡ looping
        → Turns one_of_two (record { phase = returned; active = 0; taken = 2; ended = 2 }))
Turns-settle_example = Turns-settle two_taken
