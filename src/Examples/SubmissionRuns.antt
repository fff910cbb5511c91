-- ===== src/Examples/SubmissionRuns.antt =====
-- A submission in Go, from the request to the file of its source.
use alpine_judge.Common.{◌≡◌, refl, true, none, List, [], ◌∷◌}
use alpine_judge.Common.Results.{IoResult, io_error, io_ok}
use alpine_judge.Common.Text.{Bytes, str, has_suffix}
use alpine_judge.Shared.Specs.{JobSpec}
use alpine_judge.Shared.S3.{check_s3_dir}
use alpine_judge.Shared.Rmq.{publish}
use alpine_judge.Dispatcher.Validate.{SubmissionSpec, validate_submission, is_available}
use alpine_judge.Dispatcher.Endpoints.{submission_receiver}
use alpine_judge.Runner.Orchestrate.{
  Act, made_dir, wrote_source, testset_dir, submission_dir, source_path,
}
use alpine_judge.Runner.Engine.{work}
use alpine_judge.Pipeline.{routed}
use alpine_judge.Pipeline.Submission.{job_of, submission_receiver-work}
use alpine_judge.Examples.StreamRuns.{put, get, get-put}
use alpine_judge.Examples.SharedRuns.{disk}
use alpine_judge.Examples.RunnerRuns.{host}
use alpine_judge.Examples.DispatcherRuns.{client, broker, post}

-- A submission as its fields, the texts behind their lengths.
abbrev text_of : SubmissionSpec → Bytes
text_of s = put s.language (
    put s.source (
      put s.submission_id (
        put s.bucket (
          put s.testset
            (s.per_test_memory_limit_mb ∷ s.per_test_timeout_sec ∷ s.per_test_log_limit_kb ∷ [])))))

abbrev marshal : SubmissionSpec → IoResult Bytes
marshal s = io_ok (text_of s)

abbrev limits : Bytes → Bytes → Bytes → Bytes → Bytes → Bytes → IoResult JobSpec
limits language source id bucket testset (m ∷ t ∷ l ∷ []) = io_ok (record {
  language = language;
  source = source;
  submission_id = id;
  bucket = bucket;
  testset = testset;
  per_test_memory_limit_mb = m;
  per_test_timeout_sec = t;
  per_test_log_limit_kb = l;
})
limits language source id bucket testset other = io_error (str "JSON")

abbrev decode : Bytes → IoResult JobSpec
decode body =
    let a = get body in
    let b = get a.1 in
    let c = get b.1 in let d = get c.1 in let e = get d.1 in limits a.0 b.0 c.0 d.0 e.0 e.1

decode-text_of : (s : SubmissionSpec) → decode (text_of s) ≡ io_ok (job_of s)
decode-text_of s =
    let numbers =
      s.per_test_memory_limit_mb ∷ s.per_test_timeout_sec ∷ s.per_test_log_limit_kb ∷ [] in
    rw
      (
        get-put s.language _,
        get-put s.source _,
        get-put s.submission_id _,
        get-put s.bucket _,
        get-put s.testset numbers,
      )
      refl

accepted :
    (submission_receiver client (str "b") broker (str "jobs") marshal (io_ok 2) post).0.status ≡ 202
unfolding submission_receiver validate_submission check_s3_dir has_suffix is_available publish
accepted = refl

submission_receiver-work_example :
    (s : SubmissionSpec) × (body : Bytes) × (rest : List Act) × (post.submission ≡ io_ok s)
    × (validate_submission client (str "b") (io_ok 2) s ≡ none)
    × (routed []
          (str "jobs")
          (submission_receiver client (str "b") broker (str "jobs") marshal (io_ok 2) post).1
        ≡ body ∷ [])
    × ((work client disk (io_ok 2) host true (str "c1") (decode body)).acts
        ≡ made_dir (testset_dir (job_of s))
          ∷ made_dir (submission_dir (job_of s))
          ∷ wrote_source (source_path (job_of s)) s.source
          ∷ rest)
submission_receiver-work_example =
    submission_receiver-work client (str "b") broker (str "jobs") marshal decode (io_ok 2) post disk
      (io_ok 2) host true (str "c1") accepted reads (λ path. refl) (λ path source. refl)
  where
    reads :
        (s : SubmissionSpec) (body : Bytes)
        → post.submission ≡ io_ok s
        → marshal s ≡ io_ok body
        → decode body ≡ io_ok (job_of s)
    reads s body decoded e = let same : text_of s ≡ body = cc in rw (← same) (decode-text_of s)
