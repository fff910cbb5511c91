-- ===== src/Pipeline/Submission.antt =====
-- The way of a submission from the client to the container: `SubmissionReciever` of
-- dispatcher/internal, the job queue, and the worker of runner/pkg.
use alpine_judge.Common.{◌≡◌, refl, ◌∙◌, Bool, none, List, [], ◌∷◌}
use alpine_judge.Common.{drop, nat_eq, list_eq, eq_self}
use alpine_judge.Common.Results.{IoResult, io_ok}
use alpine_judge.Common.Text.{Bytes}
use alpine_judge.Shared.Specs.{JobSpec}
use alpine_judge.Shared.S3.{S3Client, Disk}
use alpine_judge.Shared.Rmq.{Broker}
use alpine_judge.Dispatcher.Validate.{SubmissionSpec, validate_submission}
use alpine_judge.Dispatcher.Endpoints.{Request, submission_receiver}
use alpine_judge.Dispatcher.Endpoints.Submitting.{
  IsQueued, submission_receiver-accepted_iff, submission_receiver_complete,
}
use alpine_judge.Runner.Orchestrate.{
  Host, Act, made_dir, wrote_source, testset_dir, submission_dir, source_path, orchestrate_subm,
}
use alpine_judge.Runner.Engine.{work}
use alpine_judge.Runner.Engine.Settling.{work-settles}
use alpine_judge.Pipeline.{routed}

-- The job that has the fields of a submission: the tags of the two structs for JSON are the same.
abbrev pub job_of : SubmissionSpec → JobSpec
job_of submission = record {
  language = submission.language;
  source = submission.source;
  submission_id = submission.submission_id;
  bucket = submission.bucket;
  testset = submission.testset;
  per_test_memory_limit_mb = submission.per_test_memory_limit_mb;
  per_test_timeout_sec = submission.per_test_timeout_sec;
  per_test_log_limit_kb = submission.per_test_log_limit_kb;
}

orchestrate_subm-source :
    (S : S3Client) (D : Disk) (s : S.Store) (H : Host) (job : JobSpec) (has_container : Bool)
    (container_id : Bytes)
    → H.mkdir_all (testset_dir job) ≡ none
    → H.mkdir_all (submission_dir job) ≡ none
    → H.write_file (source_path job) job.source ≡ none
    → (orchestrate_subm S D s H job has_container container_id).0
      ≡ made_dir (testset_dir job)
        ∷ made_dir (submission_dir job)
        ∷ wrote_source (source_path job) job.source
        ∷ drop 3 (orchestrate_subm S D s H job has_container container_id).0
unfolding orchestrate_subm
orchestrate_subm-source S D s H job has_container container_id testsets submissions written =
    rw (orchestrate_subm, testsets, submissions, written) refl

module _ (S : S3Client) (bucket : Bytes) (B : Broker) (queue : Bytes)
    (marshal : SubmissionSpec → IoResult Bytes) (decode : Bytes → IoResult JobSpec) where
  -- A submission that is answered 202 was decoded from the request and valid, and put one message
  -- into the job queue; whichever worker takes it, with or without a container, makes the
  -- directories of the testset and of the submission and then writes the submitter's source into
  -- the file for the submission, before anything else. It holds where the runner decodes the JSON of
  -- the request's submission to the job with the same fields, and directories can be made and files
  -- written.
  pub submission_receiver-work :
      (s : S.Store) (r : Request) (D : Disk) (s' : S.Store) (H : Host) (has_container : Bool)
      (container_id : Bytes)
      → (submission_receiver S bucket B queue marshal s r).0.status ≡ 202
      → ((submission : SubmissionSpec) (body : Bytes)
          → r.submission ≡ io_ok submission
          → marshal submission ≡ io_ok body
          → decode body ≡ io_ok (job_of submission))
      → ((path : Bytes) → H.mkdir_all path ≡ none)
      → ((path source : Bytes) → H.write_file path source ≡ none)
      → (submission : SubmissionSpec) × (body : Bytes) × (rest : List Act) × (r.submission
          ≡ io_ok submission)
        × (validate_submission S bucket s submission ≡ none)
        × (routed [] queue (submission_receiver S bucket B queue marshal s r).1 ≡ body ∷ [])
        × ((work S D s' H has_container container_id (decode body)).acts
            ≡ made_dir (testset_dir (job_of submission))
              ∷ made_dir (submission_dir (job_of submission))
              ∷ wrote_source (source_path (job_of submission)) submission.source
              ∷ rest)
  submission_receiver-work s r D s' H has_container container_id accepted round makes writes =
      let q : IsQueued S bucket B queue marshal s r =
        (submission_receiver-accepted_iff S bucket B queue marshal s r).0 accepted in
      let (_, ops) = submission_receiver_complete S bucket B queue marshal s r q in
      let acts =
        orchestrate_subm-source S D s' H (job_of q.submission) has_container container_id (makes _)
          (makes _) (writes _ _) in
      (
        q.submission,
        q.body,
        drop 3 (orchestrate_subm S D s' H (job_of q.submission) has_container container_id).0,
        q.decodes,
        q.valid,
        rw (ops, eq_self queue) refl,
        rw (round q.submission q.body q.decodes q.marshals)
            ((work-settles S D s' H has_container container_id (job_of q.submission)).0 ∙ acts),
      )
