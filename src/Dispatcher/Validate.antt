-- ===== src/Dispatcher/Validate.antt =====
-- dispatcher/internal/prepare.go and specs.go: which submissions are taken, and the job of one.
pub mod Accepting
use alpine_judge.Common.{ℕ, Bool, true, false, not, Option, none, some, List, [], ◌∷◌, ◌++◌}
use alpine_judge.Common.{contains, ◌==◌, nat_eq, list_eq, if◌then◌else◌}
use alpine_judge.Common.Results.{IoResult, io_error, io_ok}
use alpine_judge.Common.Text.{Bytes, str}
use alpine_judge.Shared.Specs.{JobSpec}
use alpine_judge.Shared.S3.{S3Client, check_s3_dir, upload_file_to_s3}

pub record SubmissionSpec : Type 0 where
  pub language : Bytes
  pub source : Bytes
  pub submission_id : Bytes
  pub bucket : Bytes
  pub testset : Bytes
  pub per_test_memory_limit_mb : ℕ  -- uint64
  pub per_test_timeout_sec : ℕ  -- uint32
  pub per_test_log_limit_kb : ℕ  -- uint32

abbrev pub available_languages : List Bytes
available_languages = str "c" ∷ str "cpp" ∷ str "java" ∷ str "python" ∷ str "go" ∷ str "js" ∷ []

-- `slices.Contains(availableLanguages, language)`
unfoldable pub is_available : Bytes → Bool
is_available language = contains available_languages language

module _ (S : S3Client) (bucket : Bytes) (s : S.Store) where
  -- From the check of the testset on.
  check_testset : SubmissionSpec → Bool × Option Bytes → Option Bytes
  check_testset submission (ok, err) =
      if not ok then some (str "Testset: " ++ submission.testset ++ str " not found in S3") else err

  -- From the check of the ID on.
  check_rest : SubmissionSpec → Bool × Option Bytes → Option Bytes
  unfolding check_testset
  check_rest submission (exists, some text) = some text
  check_rest submission (exists, none) =
      if exists
      then some (str "submission ID already used")
      else if not (is_available submission.language)
      then some (str "Unsupported language or version " ++ submission.language)
      else check_testset submission (check_s3_dir S bucket s submission.testset)

  -- `ValidateSubmission`: the error that it returns.
  unfoldable pub validate_submission : SubmissionSpec → Option Bytes
  unfolding check_rest
  validate_submission submission =
      check_rest submission (check_s3_dir S bucket s submission.submission_id)

  -- `PrepareSubmission`
  unfoldable pub prepare_submission : SubmissionSpec → S.Store × IoResult JobSpec
  prepare_submission submission =
      let key = str "submissions/" ++ submission.submission_id ++ str "/" in
      let (s', err) = upload_file_to_s3 S bucket s key submission.source in
      (
        s',
        elim err [
          | some text ↦ io_error (str "upload submission source to S3: " ++ text)
          | none ↦ io_ok (record {
            language = submission.language;
            source = [];
            submission_id = submission.submission_id;
            bucket = submission.bucket;
            testset = submission.testset;
            per_test_memory_limit_mb = 0;
            per_test_timeout_sec = 0;
            per_test_log_limit_kb = 0;
          })
        ],
      )
