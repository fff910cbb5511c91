-- ===== src/Dispatcher/Validate/Accepting.antt =====
-- When a submission is accepted.
use alpine_judge.Common.{ℕ, ◌≡◌, ◌<◌, ◌↔◌, true, false, none, some, ◌++◌, arith}
use alpine_judge.Common.{nat_eq, list_eq}
use alpine_judge.Common.Results.{io_error, io_ok}
use alpine_judge.Common.Text.{Bytes, str}
use alpine_judge.Shared.S3.{S3Client, with_slash, check_s3_dir}
use alpine_judge.Dispatcher.Validate.{SubmissionSpec, is_available, validate_submission}

module _ (S : S3Client) (bucket : Bytes) (s : S.Store) where
  check_s3_dir-absent :
      (path : Bytes)
      → (check_s3_dir S bucket s path ≡ (false, none))
        ↔ (S.key_count s bucket (with_slash path) 1 ≡ io_ok 0)
  unfolding check_s3_dir
  check_s3_dir-absent path = ground arith

  check_s3_dir-present :
      (path : Bytes)
      → (check_s3_dir S bucket s path ≡ (true, none))
        ↔ ((n : ℕ) × (0 < n) × (S.key_count s bucket (with_slash path) 1 ≡ io_ok n))
  unfolding check_s3_dir
  check_s3_dir-present path = ground arith

  check_s3_dir-false :
      (path : Bytes)
      → (check_s3_dir S bucket s path).0 ≡ true
      → (check_s3_dir S bucket s path).1 ≡ none
  unfolding check_s3_dir
  check_s3_dir-false path h = ground arith

  -- What it takes to be accepted: no object has the submission's ID as its folder, the language is
  -- one of the six, and some object lies in the folder of the testset.
  pub record IsAcceptable (submission : SubmissionSpec) : Type 0 where
    pub fresh : S.key_count s bucket (with_slash submission.submission_id) 1 ≡ io_ok 0
    pub known : is_available submission.language ≡ true
    pub testset_size : ℕ
    pub not_empty : 0 < testset_size
    pub stored : S.key_count s bucket (with_slash submission.testset) 1 ≡ io_ok testset_size

  validate_sound :
      (submission : SubmissionSpec)
      → validate_submission S bucket s submission ≡ none
      → IsAcceptable submission
  unfolding validate_submission
  validate_sound submission h =
      let fresh : check_s3_dir S bucket s submission.submission_id ≡ (false, none) = ground arith in
      let known : is_available submission.language ≡ true = ground arith in
      let there : check_s3_dir S bucket s submission.testset ≡ (true, none) = ground arith in
      let (n, some_file, stored) = (check_s3_dir-present submission.testset).0 there in
      record {
        fresh = (check_s3_dir-absent submission.submission_id).0 fresh;
        known = known;
        testset_size = n;
        not_empty = some_file;
        stored = stored;
      }

  validate_complete :
      (submission : SubmissionSpec)
      → IsAcceptable submission
      → validate_submission S bucket s submission ≡ none
  unfolding validate_submission
  validate_complete submission a = rw (
    (check_s3_dir-absent submission.submission_id).1 a.fresh,
    (check_s3_dir-present submission.testset).1 (a.testset_size, a.not_empty, a.stored),
    a.known,
  )

  -- The validation has no objection exactly when the ID is fresh, the language is listed and the
  -- testset has an object, whatever the source is and however the testset is laid out.
  pub validate_submission-none_iff :
      (submission : SubmissionSpec)
      → (validate_submission S bucket s submission ≡ none) ↔ IsAcceptable submission
  validate_submission-none_iff submission =
      (validate_sound submission, validate_complete submission)

  -- When the storage fails while the testset is looked up, the error is lost: a submission that is
  -- fine up to there is refused because its testset was not found.
  validate_submission_masked :
      (submission : SubmissionSpec) (text : Bytes)
      → S.key_count s bucket (with_slash submission.submission_id) 1 ≡ io_ok 0
      → is_available submission.language ≡ true
      → S.key_count s bucket (with_slash submission.testset) 1 ≡ io_error text
      → validate_submission S bucket s submission
        ≡ some (str "Testset: " ++ submission.testset ++ str " not found in S3")
  unfolding validate_submission
  validate_submission_masked submission text fresh known failed =
      rw ((check_s3_dir-absent submission.submission_id).1 fresh, known)
        (ground (arith, check_s3_dir_failed submission.testset text failed))
    where
      check_s3_dir_failed :
          (path text : Bytes)
          → S.key_count s bucket (with_slash path) 1 ≡ io_error text
          → (check_s3_dir S bucket s path).0 ≡ false
      check_s3_dir_failed path text h = unfold check_s3_dir in ground arith
