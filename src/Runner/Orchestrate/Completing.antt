-- ===== src/Runner/Orchestrate/Completing.antt =====
-- When a job is completed, and how often its testset is fetched.
use alpine_judge.Common.{
  ◌≡◌, ◌≢◌, refl, ◌↔◌, inl, inr, Bool, true, false, none, List, [], ◌∷◌, ◌++◌,
}
use alpine_judge.Common.{Bool-cases, Option-cases, ap, ◌∙◌, if◌then◌else◌}
use alpine_judge.Common.Text.{Bytes, str}
use alpine_judge.Utils.Executes.{AgentExecSpec, ContainerInfo}
use alpine_judge.Shared.Specs.{JobSpec}
use alpine_judge.Shared.S3.{S3Client, Disk, Transfer, download_dir_from_s3}
use alpine_judge.Runner.Prepare.{
  host_test_dir, prepare_execrules, exec_rules, download_file_s3, build_agent_exec_spec,
}
use alpine_judge.Runner.ExecSubm.{exec_subm}
use alpine_judge.Runner.Orchestrate.{
  Host, Act, made_dir, write_source, fetched, instructed, executed, failed, completed,
  is_testset_dir_empty, testset_dir, submission_dir, target_dir, source_path, before, unless,
  execute, instruct, prepare, provide, orchestrate_subm,
}

module _ (S : S3Client) (D : Disk) (s : S.Store) (H : Host) (job : JobSpec) where
  -- The fetching of the testset of the job.
  abbrev pub transfer : Transfer
  transfer = download_dir_from_s3 S D s job.bucket job.testset (host_test_dir job)

  abbrev pub instructions : Bytes → AgentExecSpec
  instructions container_id = build_agent_exec_spec (exec_rules container_id job)

  -- What a job needs to be completed.
  pub record CanComplete (has_container : Bool) (container_id : Bytes) : Type 0 where
    pub testset_made : H.mkdir_all (testset_dir job) ≡ none
    pub submission_made : H.mkdir_all (submission_dir job) ≡ none
    pub transferred : transfer.err ≡ none
    pub container : has_container ≡ true
    pub sent : H.send (instructions container_id) ≡ none
    pub target_made : H.mkdir_all (target_dir job) ≡ none

  -- The report of a completed job.
  abbrev pub report : ContainerInfo
  report = (exec_subm job H.timeouts H.elapsed_ms H.exit).0

  -- The acts of a completed job.
  abbrev pub all_acts : Bytes → List Act
  all_acts container_id =
      made_dir (testset_dir job)
        ∷ made_dir (submission_dir job)
        ∷ write_source job (H.write_file (source_path job) job.source)
      ++ (if is_testset_dir_empty H (host_test_dir job) then [] else fetched transfer ∷ [])
      ++ fetched transfer
        ∷ instructed (instructions container_id)
        ∷ made_dir (target_dir job)
        ∷ executed
        ∷ []

  failed-ne-completed : {text : Bytes} → failed text ≢ completed report
  failed-ne-completed h = cc

  execute_sound : (execute S D s H job).1 ≡ completed report → H.mkdir_all (target_dir job) ≡ none
  unfolding execute
  execute_sound h = elim (Option-cases (H.mkdir_all (target_dir job))) [
    | inl e ↦ e
    | inr (text, e) ↦ absurd (failed-ne-completed (rw (execute, e) at h))
  ]

  instruct_sound :
      (has_container : Bool) (spec : AgentExecSpec)
      → (instruct S D s H job has_container spec).1 ≡ completed report
      → (has_container ≡ true) × (H.send spec ≡ none) × (H.mkdir_all (target_dir job) ≡ none)
  unfolding instruct
  instruct_sound false spec h = cc
  instruct_sound true spec h = elim (Option-cases (H.send spec)) [
    | inl e ↦ (refl, e, execute_sound (rw (instruct, e) at h))
    | inr (text, e) ↦ absurd (failed-ne-completed (rw (instruct, e) at h))
  ]

  prepare_sound :
      (has_container : Bool) (container_id : Bytes)
      → (prepare S D s H job has_container container_id).1 ≡ completed report
      → (transfer.err ≡ none)
        × (has_container ≡ true)
        × (H.send (instructions container_id) ≡ none)
        × (H.mkdir_all (target_dir job) ≡ none)
  unfolding prepare prepare_execrules download_file_s3
  prepare_sound has_container container_id h = elim (Option-cases transfer.err) [
    | inl e ↦
        let (container, sent, target_made) =
          instruct_sound has_container (instructions container_id) (rw (prepare, e) at h) in
        (e, container, sent, target_made)
    | inr (text, e) ↦ absurd (failed-ne-completed (rw (prepare, e) at h))
  ]

  provide_sound :
      (has_container : Bool) (container_id : Bytes)
      → (provide S D s H job has_container container_id).1 ≡ completed report
      → (prepare S D s H job has_container container_id).1 ≡ completed report
  unfolding provide
  provide_sound has_container container_id h =
      elim (Bool-cases (is_testset_dir_empty H (host_test_dir job))) [
        | inl e ↦ (rw (provide, e) at h)
        | inr absent ↦ elim (Option-cases transfer.err) [
          | inl e ↦ (rw (provide, absent, e) at h)
          | inr (text, e) ↦ absurd (failed-ne-completed (rw (provide, absent, e) at h))
        ]
      ]

  orchestrate_subm_sound :
      (has_container : Bool) (container_id : Bytes)
      → (orchestrate_subm S D s H job has_container container_id).1 ≡ completed report
      → CanComplete has_container container_id
  unfolding orchestrate_subm
  orchestrate_subm_sound has_container container_id h =
      elim (Option-cases (H.mkdir_all (testset_dir job))) [
        | inr (text, e) ↦ absurd (failed-ne-completed (rw (orchestrate_subm, e) at h))
        | inl testset_made ↦ elim (Option-cases (H.mkdir_all (submission_dir job))) [
          | inr (text, e) ↦
              absurd (failed-ne-completed (rw (orchestrate_subm, testset_made, e) at h))
          | inl submission_made ↦
              let (transferred, container, sent, target_made) =
                prepare_sound has_container container_id (
                  provide_sound has_container container_id
                    (rw (orchestrate_subm, testset_made, submission_made) at h)) in
              record {
                testset_made = testset_made;
                submission_made = submission_made;
                transferred = transferred;
                container = container;
                sent = sent;
                target_made = target_made;
              }
        ]
      ]

  module _ (has_container : Bool) (container_id : Bytes)
      (can : CanComplete has_container container_id) where
    prepare_complete : prepare S D s H job has_container container_id ≡ (
      fetched transfer
          ∷ instructed (instructions container_id)
          ∷ made_dir (target_dir job)
          ∷ executed
          ∷ [],
      completed report,
    )
    unfolding prepare prepare_execrules download_file_s3 instruct execute
    prepare_complete =
        rw (can.transferred, prepare, can.container, instruct, can.sent, execute, can.target_made)
          refl

    provide_complete :
        (present : Bool)
        → is_testset_dir_empty H (host_test_dir job) ≡ present
        → provide S D s H job has_container container_id ≡ (
          (if present then [] else fetched transfer ∷ [])
              ++ fetched transfer
                ∷ instructed (instructions container_id)
                ∷ made_dir (target_dir job)
                ∷ executed
                ∷ [],
          completed report,
        )
    unfolding provide
    provide_complete true e = rw e prepare_complete
    provide_complete false e = rw e (
        ap
          (λ o. before (fetched transfer) (
            unless o (str "Failed to download testet from S3:  ")
              (prepare S D s H job has_container container_id)))
          can.transferred
        ∙ ap (before (fetched transfer)) prepare_complete)

    orchestrate_subm_complete :
        orchestrate_subm S D s H job has_container container_id
        ≡ (all_acts container_id, completed report)
    unfolding orchestrate_subm
    orchestrate_subm_complete = elim (Option-cases (H.write_file (source_path job) job.source)) [
      | inl e ↦
          rw (can.testset_made, orchestrate_subm, can.submission_made, e, provide_complete _ refl)
            refl
      | inr (text, e) ↦
          rw (can.testset_made, orchestrate_subm, can.submission_made, e, provide_complete _ refl)
            refl
    ]

  -- A job is completed exactly when its directories can be made, its testset is transferred without
  -- an error, its container is not nil and takes the instructions.
  pub orchestrate_subm-completed_iff :
      (has_container : Bool) (container_id : Bytes)
      → ((orchestrate_subm S D s H job has_container container_id).1 ≡ completed report)
        ↔ CanComplete has_container container_id
  orchestrate_subm-completed_iff has_container container_id = (
    orchestrate_subm_sound has_container container_id,
    λ can. ap (λ r. r.1) (orchestrate_subm_complete has_container container_id can),
  )
