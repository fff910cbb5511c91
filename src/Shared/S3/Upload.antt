-- ===== src/Shared/S3/Upload.antt =====
-- `UploadDirToS3` of shared/s3manager.go: what `filepath.WalkDir` visits is a parameter.
use alpine_judge.Common.{◌≡◌, ◌⊎◌, Option, none, some, List, [], ◌∷◌, ◌++◌}
use alpine_judge.Common.Results.{IoResult, io_error, io_ok}
use alpine_judge.Common.Text.{Bytes, str}
use alpine_judge.Common.FilePath.{join}
use alpine_judge.Shared.S3.{S3Client, upload_file_to_s3}

pub data FileKind : Type 0 where
  directory regular irregular : FileKind

-- One visit: the kind, the path, what `os.Open` gives (an error, or the content that will be read),
-- what `filepath.Rel` gives, and the error of closing the file.
pub record Visit : Type 0 where
  pub kind : FileKind
  pub path : Bytes
  pub content : IoResult Bytes
  pub rel : IoResult Bytes
  pub close_error : Option Bytes

module _ (S : S3Client) (bucket : Bytes) (key_prefix : Bytes) where
  abbrev pub s3_key : Bytes → Bytes
  s3_key rel = join (key_prefix ∷ rel ∷ [])

  -- From the upload on; an error of the upload comes before one of closing.
  unfoldable pub close_file : Option Bytes → S.Store × Option Bytes → S.Store × Option Bytes
  close_file close_err (s, some text) = (s, some text)
  close_file close_err (s, none) = (s, close_err)

  unfoldable pub upload_opened : S.Store → Visit → Bytes → IoResult Bytes → S.Store × Option Bytes
  unfolding close_file
  upload_opened s v body (io_error text) = (s, some text)
  upload_opened s v body (io_ok rel) =
      close_file v.close_error (upload_file_to_s3 S bucket s (s3_key rel) body)

  unfoldable pub upload_regular : S.Store → Visit → IoResult Bytes → S.Store × Option Bytes
  unfolding upload_opened
  upload_regular s v (io_error text) = (s, some (str "opening " ++ v.path ++ str ": " ++ text))
  upload_regular s v (io_ok body) = upload_opened s v body v.rel

  unfoldable pub upload_kind : S.Store → Visit → FileKind → S.Store × Option Bytes
  unfolding upload_regular
  upload_kind s v directory = (s, none)
  upload_kind s v irregular = (s, none)
  upload_kind s v regular = upload_regular s v v.content

  -- The function that is called at each visit.
  unfoldable pub visit : S.Store → IoResult Visit → S.Store × Option Bytes
  unfolding upload_kind
  visit s (io_error text) = (s, some text)
  visit s (io_ok v) = upload_kind s v v.kind

  -- `UploadDirToS3`: the walk ends at the first error.
  unfoldable pub upload_dir_to_s3 : S.Store → List (IoResult Visit) → S.Store × Option Bytes
  unfolding visit
  upload_dir_to_s3 s [] = (s, none)
  upload_dir_to_s3 s (v ∷ vs) =
      let (s', err) = visit s v in
      let rest = upload_dir_to_s3 s' vs in elim err [ none ↦ rest | some text ↦ (s', some text) ]

  -- A regular file of the walk, with its content and its key.
  pub data IsFile (v : IoResult Visit) (key body : Bytes) : Type 0 where
    file :
        (w : Visit) (rel : Bytes)
        → v ≡ io_ok w
        → w.kind ≡ regular
        → w.content ≡ io_ok body
        → w.rel ≡ io_ok rel
        → key ≡ s3_key rel
        → IsFile v key body

  -- A visit of no regular file.
  pub data IsSkipped (v : IoResult Visit) : Type 0 where
    folder : (w : Visit) → v ≡ io_ok w → w.kind ≡ directory → IsSkipped v
    special : (w : Visit) → v ≡ io_ok w → w.kind ≡ irregular → IsSkipped v

  -- The stores that a walk leads through, file by file.
  pub data Uploads : S.Store → List (IoResult Visit) → S.Store → Type 0 where
    done : (s : S.Store) → Uploads s [] s
    pass :
        (s t : S.Store) (v : IoResult Visit) (vs : List (IoResult Visit))
        → IsSkipped v
        → Uploads s vs t
        → Uploads s (v ∷ vs) t
    put :
        (s t : S.Store) (v : IoResult Visit) (vs : List (IoResult Visit)) (key body : Bytes)
        → IsFile v key body
        → (S.put_object s bucket key body).1 ≡ none
        → Uploads (S.put_object s bucket key body).0 vs t
        → Uploads s (v ∷ vs) t

  -- What one visit without an error has done.
  abbrev OneVisit : S.Store → IoResult Visit → S.Store → Type 0
  OneVisit s v s' =
      (IsSkipped v × (s' ≡ s))
      ⊎ ((key : Bytes) × (body : Bytes) × IsFile v key body
          × ((S.put_object s bucket key body).1 ≡ none)
          × (s' ≡ (S.put_object s bucket key body).0))
