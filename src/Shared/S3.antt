-- ===== src/Shared/S3.antt =====
-- shared/s3manager.go. The S3 client of the AWS SDK is a parameter, and so is the local disk; what
-- an operation does to the disk is the list of its effects.
pub mod Download
pub mod Buckets
pub mod Upload
use mathlib.Core.Option
use alpine_judge.Common.{
  ℕ, zero, suc, ◌+◌, Bool, true, false, ◌||◌, Option, none, some, List, [], ◌∷◌, ◌++◌,
}
use alpine_judge.Common.{ltb, take, ◌==◌, nat_eq, list_eq, if◌then◌else◌}
use alpine_judge.Common.Results.{IoResult, io_error, io_ok}
use alpine_judge.Common.Text.{Bytes, str, has_suffix, trim_prefix}
use alpine_judge.Common.FilePath.{join, dir}

-- The client over the objects of a store. `key_count` is the `KeyCount` of one `ListObjectsV2`
-- with a bucket, a prefix and `MaxKeys`; `pages` is what the paginator yields for a bucket and a
-- prefix, page by page, an object without a key being `none`.
pub record S3Client : Type 1 where
  pub Store : Type 0
  pub get_object : Store → Bytes → Bytes → IoResult Bytes
  pub put_object : Store → Bytes → Bytes → Bytes → Store × Option Bytes
  pub key_count : Store → Bytes → Bytes → ℕ → IoResult ℕ
  pub pages : Store → Bytes → Bytes → List (IoResult (List (Option Bytes)))
  pub presign_put : Bytes → Bytes → IoResult Bytes

-- The errors of the local disk, and how far a copy of a body into a file gets: all the way, or
-- some bytes and an error.
pub record Disk : Type 0 where
  pub mkdir_all : Bytes → Option Bytes
  pub create : Bytes → Option Bytes
  pub copy : Bytes → Bytes → Option (ℕ × Bytes)

pub data Effect : Type 0 where
  made_dirs created : Bytes → Effect
  wrote : Bytes → Bytes → Effect

-- The error that is returned, if any, and the effects so far.
pub record Transfer : Type 0 where
  pub err : Option Bytes
  pub effects : List Effect

abbrev no_transfer : Transfer
no_transfer = record { err = none; effects = [] }

abbrev pub with_slash : Bytes → Bytes
with_slash p = if has_suffix p (str "/") then p else p ++ str "/"

module _ (S : S3Client) (bucket : Bytes) where
  -- `UploadFileToS3`, to the manager's bucket.
  unfoldable pub upload_file_to_s3 : S.Store → Bytes → Bytes → S.Store × Option Bytes
  upload_file_to_s3 s key body =
      let (s', err) = S.put_object s bucket key body in
      (s', Option.map (λ text. str "failed to upload object to storage: " ++ text) err)

  -- `GeneratePresignedUploadURL`
  unfoldable pub generate_presigned_upload_url : Bytes → IoResult Bytes
  generate_presigned_upload_url key = elim (S.presign_put bucket key) [
    | io_error text ↦ io_error (str "failed to presign put object: " ++ text)
    | io_ok url ↦ io_ok url
  ]

  -- `CheckS3Dir`: the bool and the error that it returns.
  unfoldable pub check_s3_dir : S.Store → Bytes → Bool × Option Bytes
  unfolding has_suffix
  check_s3_dir s dir_path = elim (S.key_count s bucket (with_slash dir_path) 1) [
    | io_error text ↦ (false, some (str "failed to list keys for directory check: " ++ text))
    | io_ok n ↦ (ltb 0 n, none)
  ]

module _ (S : S3Client) (D : Disk) where
  unfoldable pub save_copy : Bytes → Bytes → Option (ℕ × Bytes) → Transfer
  save_copy path body none = record {
    err = none;
    effects = made_dirs (dir path) ∷ created path ∷ wrote path body ∷ [];
  }
  save_copy path body (some (n, text)) = record {
    err = some text;
    effects = made_dirs (dir path) ∷ created path ∷ wrote path (take n body) ∷ [];
  }

  -- The file of a body that was received.
  unfoldable pub save : Bytes → Bytes → Transfer
  unfolding save_copy
  save path body = elim (D.mkdir_all (dir path)) [
    | some text ↦ record {
      err = some (str "couldn't create parent directories for " ++ path ++ str ": " ++ text);
      effects = [];
    }
    | none ↦ elim (D.create path) [
      | some text ↦ record {
        err = some (str "couldn't create file " ++ path ++ str ": " ++ text);
        effects = made_dirs (dir path) ∷ [];
      }
      | none ↦ save_copy path body (D.copy path body)
    ]
  ]

  -- `DownloadFileFromS3`
  unfoldable pub download_file_from_s3 : S.Store → Bytes → Bytes → Bytes → Transfer
  unfolding save
  download_file_from_s3 s bucket key path = elim (S.get_object s bucket key) [
    | io_error text ↦ record { err = some text; effects = [] }
    | io_ok body ↦ save path body
  ]

  abbrev pub is_test_file : Bytes → Bool
  is_test_file key = has_suffix key (str ".in") || has_suffix key (str ".out")

  -- Where the object of a key is stored.
  abbrev pub local_path : Bytes → Bytes → Bytes → Bytes
  local_path key_prefix to key = join (to ∷ trim_prefix key key_prefix ∷ [])

  module _ (s : S.Store) (bucket key_prefix to : Bytes) where
    -- The loop over the objects of a page: the transfer so far and `filesDownloadCount`.
    unfoldable pub download_objects : List (Option Bytes) → Transfer → ℕ → Transfer × ℕ
    download_objects [] t count = (t, count)
    download_objects (none ∷ objs) t count = download_objects objs t count
    download_objects (some key ∷ objs) t count =
        let skipped = download_objects objs t count in
        let counted = download_objects objs t (count + 1) in
        let got = download_file_from_s3 s bucket key (local_path key_prefix to key) in
        let t' : Transfer = record { err = got.err; effects = t.effects ++ got.effects } in
        let fetched = download_objects objs t' (count + 1) in
        if has_suffix key (str "/")
        then skipped
        else if is_test_file key
        then elim got.err [ none ↦ fetched | some _ ↦ (t', count) ]
        else counted

    -- The loop over the pages; an error of the paginator or of a file ends it.
    unfoldable pub download_pages :
        List (IoResult (List (Option Bytes))) → Transfer → ℕ → Transfer × ℕ
    download_pages [] t count = (t, count)
    download_pages (io_error text ∷ pages) t count = (record t { err = some text }, count)
    download_pages (io_ok objs ∷ pages) t count =
        let (t', count') = download_objects objs t count in
        let rest = download_pages pages t' count' in
        elim t'.err [ none ↦ rest | some _ ↦ (t', count') ]

  -- What follows the loop over the pages.
  unfoldable pub checked : Bytes → Bytes → Transfer × ℕ → Transfer
  checked bucket key_prefix (t, count) = elim t.err [
    | some _ ↦ t
    | none ↦
        if count == 0
        then record t {
          err = some (
              str "s3 download succeeded but 0 testcase files matched key prefix '"
              ++ key_prefix
              ++ str "' in bucket '"
              ++ bucket
              ++ str "'");
        }
        else t
  ]

  -- `DownloadDirFromS3`
  unfoldable pub download_dir_from_s3 : S.Store → Bytes → Bytes → Bytes → Transfer
  download_dir_from_s3 s bucket prefix to =
      let key_prefix = with_slash prefix in
      checked bucket key_prefix
        (download_pages s bucket key_prefix to (S.pages s bucket key_prefix) no_transfer 0)
