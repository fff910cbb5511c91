-- ===== src/Runner/Engine.antt =====
-- runner/pkg/engine.go and runner/utils/validator.go: the producer of warm containers and the
-- workers as a step relation on the slots, and what a worker does with its delivery.
pub mod Slots
pub mod Pool
pub mod Settling
pub mod Serving
use alpine_judge.Common.{
  ℕ, ◌+◌, ◌%◌, ◌^◌, ◌<◌, ◌≤◌, ◌≡◌, Bool, true, false, Option, none, some, List, [], ◌∷◌, ◌++◌,
  length,
}
use alpine_judge.Common.Results.{IoResult, io_error, io_ok}
use alpine_judge.Common.Text.{Bytes}
use alpine_judge.Shared.Specs.{JobSpec}
use alpine_judge.Shared.S3.{S3Client, Disk}
use alpine_judge.Runner.Orchestrate.{Host, Act, Orchestrated, orchestrate_subm}

-- The slots of the warm containers: the one that the producer holds, those in `containerQueue`
-- (the newest first) and those of the workers; and how often `slotCounter.Add(1)` was called.
pub record Engine : Type 0 where
  pub counter : ℕ
  pub held : List ℕ
  pub queue : List ℕ
  pub working : List ℕ

abbrev pub initial : Engine
initial = record { counter = 0; held = []; queue = []; working = [] }

-- `slotCounter.Add(1)` of an `atomic.Uint32`, at the count of the calls so far.
abbrev pub next_slot : ℕ → ℕ
next_slot counter = (counter + 1) % 2 ^ 32

-- One step of the producer or of a worker; `cap` is the capacity of `containerQueue`. A creation
-- that fails uses up its slot. With a capacity of 0 a slot goes from hand to hand.
pub data Step (cap : ℕ) : Engine → Engine → Type 0 where
  create :
      (c : ℕ) (q w : List ℕ)
      → Step cap
          (record { counter = c; held = []; queue = q; working = w })
          (record { counter = c + 1; held = next_slot c ∷ []; queue = q; working = w })
  create_failed :
      (c : ℕ) (h q w : List ℕ)
      → Step cap
          (record { counter = c; held = h; queue = q; working = w })
          (record { counter = c + 1; held = h; queue = q; working = w })
  enqueue :
      (c s : ℕ) (q w : List ℕ)
      → length q < cap
      → Step cap
          (record { counter = c; held = s ∷ []; queue = q; working = w })
          (record { counter = c; held = []; queue = s ∷ q; working = w })
  hand_over :
      (c s : ℕ) (w : List ℕ)
      → Step cap
          (record { counter = c; held = s ∷ []; queue = []; working = w })
          (record { counter = c; held = []; queue = []; working = s ∷ w })
  cancel :
      (c s : ℕ) (q w : List ℕ)
      → Step cap
          (record { counter = c; held = s ∷ []; queue = q; working = w })
          (record { counter = c; held = []; queue = q; working = w })
  receive :
      (c s : ℕ) (h q w : List ℕ)
      → Step cap
          (record { counter = c; held = h; queue = q ++ s ∷ []; working = w })
          (record { counter = c; held = h; queue = q; working = s ∷ w })
  create_on_demand :
      (c : ℕ) (h q w : List ℕ)
      → Step cap
          (record { counter = c; held = h; queue = q; working = w })
          (record { counter = c + 1; held = h; queue = q; working = next_slot c ∷ w })
  finish :
      (c s : ℕ) (h q v w : List ℕ)
      → Step cap
          (record { counter = c; held = h; queue = q; working = v ++ s ∷ w })
          (record { counter = c; held = h; queue = q; working = v ++ w })

pub data Reachable (cap : ℕ) : Engine → Type 0 where
  started : Reachable cap initial
  stepped : {e e' : Engine} → Reachable cap e → Step cap e e' → Reachable cap e'

-- The settling of a delivery.
pub data DeliveryOp : Type 0 where
  ack : DeliveryOp
  nack : Bool → DeliveryOp

abbrev pub empty_job : JobSpec
empty_job = record {
  language = [];
  source = [];
  submission_id = [];
  bucket = [];
  testset = [];
  per_test_memory_limit_mb = 0;
  per_test_timeout_sec = 0;
  per_test_log_limit_kb = 0;
}

-- `ProcessJobSpec`, of what `json.Unmarshal` gives: the job, whether there is an error, and what
-- it does to the delivery.
unfoldable pub process_job_spec : IoResult JobSpec → JobSpec × Bool × List DeliveryOp
process_job_spec (io_error text) = (empty_job, true, nack false ∷ [])
process_job_spec (io_ok job) = (job, false, [])

-- What a worker does: the operations on its delivery, and the orchestration.
pub record Work : Type 0 where
  pub ops : List DeliveryOp
  pub acts : List Act
  pub outcome : Orchestrated

module _ (S : S3Client) (D : Disk) (s : S.Store) (H : Host) where
  -- The end of the worker: no `Ack` where the process has ended.
  abbrev pub settle : List DeliveryOp → List Act × Orchestrated → Work
  settle ops (acts, Orchestrated.nil_container) = record {
    ops = ops;
    acts = acts;
    outcome = Orchestrated.nil_container;
  }
  settle ops (acts, outcome) = record { ops = ops ++ ack ∷ []; acts = acts; outcome = outcome }

  -- The worker, from its container on; `has_container` is false where the creation on demand has
  -- failed, which is only logged.
  unfoldable pub work : Bool → Bytes → IoResult JobSpec → Work
  unfolding process_job_spec
  work has_container container_id decoded =
      let (job, is_bad, ops) = process_job_spec decoded in
      settle (ops ++ (elim is_bad [ true ↦ nack true ∷ [] | false ↦ [] ]))
        (orchestrate_subm S D s H job has_container container_id)
