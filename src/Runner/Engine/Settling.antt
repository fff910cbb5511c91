-- ===== src/Runner/Engine/Settling.antt =====
-- How the deliveries are settled.
use alpine_judge.Common.{◌≡◌, ◌≢◌, refl, ◌⊎◌, inl, inr, Bool, List, [], ◌∷◌, ◌++◌}
use alpine_judge.Common.Results.{io_ok}
use alpine_judge.Common.Text.{Bytes}
use alpine_judge.Shared.Specs.{JobSpec}
use alpine_judge.Shared.S3.{S3Client, Disk}
use alpine_judge.Runner.Orchestrate.{
  Host, Act, Orchestrated, failed, completed, nil_container, orchestrate_subm,
}
use alpine_judge.Runner.Engine.{DeliveryOp, ack, settle, process_job_spec, work}

module _ (S : S3Client) (D : Disk) (s : S.Store) (H : Host) where
  settle-cases :
      (ops : List DeliveryOp) (r : List Act × Orchestrated)
      → let w = settle S D s H ops r in
        (w.acts ≡ r.0)
        × (w.outcome ≡ r.1)
        × (((w.ops ≡ ops ++ ack ∷ []) × (w.outcome ≢ nil_container))
            ⊎ ((w.ops ≡ ops) × (w.outcome ≡ nil_container)))
  settle-cases ops (acts, nil_container) = (refl, refl, inr (refl, refl))
  settle-cases ops (acts, failed text) = (refl, refl, inl (refl, λ h. cc))
  settle-cases ops (acts, completed info) = (refl, refl, inl (refl, λ h. cc))

  -- A delivery with a job is acknowledged once, whether or not its orchestration fails, unless the
  -- worker has no container to give the instructions to: this ends the process, and the delivery is
  -- not settled.
  pub work-settles :
      (has_container : Bool) (container_id : Bytes) (job : JobSpec)
      → let w = work S D s H has_container container_id (io_ok job) in
        (w.acts ≡ (orchestrate_subm S D s H job has_container container_id).0)
        × (w.outcome ≡ (orchestrate_subm S D s H job has_container container_id).1)
        × (((w.ops ≡ ack ∷ []) × (w.outcome ≢ nil_container))
            ⊎ ((w.ops ≡ []) × (w.outcome ≡ nil_container)))
  unfolding work process_job_spec
  work-settles has_container container_id job =
      settle-cases [] (orchestrate_subm S D s H job has_container container_id)
