-- ===== src/Shared/S3/Buckets.antt =====
-- shared/s3manager.go: the S3 manager and its buckets.
use alpine_judge.Common.{Bool, true, false, ◌||◌, Option, none, some, ◌++◌}
use alpine_judge.Common.{◌==◌, nat_eq, list_eq, is_empty, if◌then◌else◌}
use alpine_judge.Common.Results.{IoResult, io_error, io_ok}
use alpine_judge.Common.Text.{Bytes, str}

-- `s3.Client`, as far as `InitS3Manager` sets it up, and the manager.
pub record ClientConfig : Type 0 where
  pub region : Bytes
  pub access_key : Bytes
  pub secret_key : Bytes
  pub base_endpoint : Option Bytes
  pub use_path_style : Bool

pub record S3Manager : Type 0 where
  pub client : ClientConfig
  pub bucket : Bytes

-- `InitS3Manager`; `load_error` is the error of `config.LoadDefaultConfig`.
unfoldable pub init_s3_manager :
    Option Bytes → Bytes → Bytes → Bytes → Bytes → Bytes → IoResult S3Manager
init_s3_manager (some text) bucket region access_key secret_key custom_endpoint =
    io_error (str "failed to load SDK config: " ++ text)
init_s3_manager none bucket region access_key secret_key custom_endpoint = io_ok (record {
  client = record {
    region = region;
    access_key = access_key;
    secret_key = secret_key;
    base_endpoint = if is_empty custom_endpoint then none else some custom_endpoint;
    use_path_style = if is_empty custom_endpoint then false else true;
  };
  bucket = bucket;
})

-- An error of the SDK: its text, and its code where it is a `smithy.APIError`.
pub record SdkError : Type 0 where
  pub text : Bytes
  pub code : Option Bytes

-- The buckets of the storage.
pub record Buckets : Type 1 where
  pub Store : Type 0
  pub create_bucket : Store → Bytes → Store × Option SdkError
  pub delete_bucket : Store → Bytes → Store × Option SdkError

abbrev pub already_exists : Option Bytes → Bool
already_exists none = false
already_exists (some code) =
    code == str "BucketAlreadyOwnedByYou" || code == str "BucketAlreadyExists"

-- The error of `CreateABucket`.
abbrev creation_error : Bytes → Option SdkError → Option Bytes
creation_error bucket none = none
creation_error bucket (some e) =
    if already_exists e.code
    then none
    else some (str "failed to create bucket " ++ bucket ++ str ": " ++ e.text ++ str "\n")

-- The error of `DeleteABucket`.
abbrev deletion_error : Bytes → Option SdkError → Option Bytes
deletion_error bucket none = none
deletion_error bucket (some e) =
    some (str "failed to delete bucket " ++ bucket ++ str ": " ++ e.text)

module _ (S : Buckets) where
  -- `CreateABucket` and `DeleteABucket`, with the storage after the call.
  unfoldable pub create_a_bucket : S.Store → Bytes → S.Store × Option Bytes
  create_a_bucket s bucket =
      ((S.create_bucket s bucket).0, creation_error bucket (S.create_bucket s bucket).1)

  unfoldable pub delete_a_bucket : S.Store → Bytes → S.Store × Option Bytes
  delete_a_bucket s bucket =
      ((S.delete_bucket s bucket).0, deletion_error bucket (S.delete_bucket s bucket).1)
