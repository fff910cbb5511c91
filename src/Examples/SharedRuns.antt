-- ===== src/Examples/SharedRuns.antt =====
-- shared: a store of two objects, and a broker that can fail.
use alpine_judge.Common.{ℕ, refl, Bool, false, Option, none, some, List, [], ◌∷◌, ◌++◌, arith}
use alpine_judge.Common.{list_eq, nat_eq, All, ltb, if◌then◌else◌}
use alpine_judge.Common.Results.{IoResult, io_error, io_ok}
use alpine_judge.Common.Text.{Bytes, str, has_prefix, has_suffix, trim_prefix}
use alpine_judge.Common.FilePath.{split_slash}
use alpine_judge.Common.FilePath.Inside.{base}
use alpine_judge.Shared.S3.{S3Client, Disk, with_slash, download_dir_from_s3}
use alpine_judge.Shared.S3.Upload.{directory, regular, Visit}
use alpine_judge.Shared.S3.Download.{
  IsInside, IsPlainPage, IsOtherFile, download_dir_from_s3-IsInside,
}
use alpine_judge.Shared.Rmq.{Message, Broker}

-- A store whose pages list the keys that it holds, each with the body `3`.
abbrev pub client : S3Client
client = record {
  Store = List Bytes;
  get_object = λ s bucket key. io_ok (str "3");
  put_object = λ s bucket key body. (key ∷ s, none);
  key_count = λ s bucket key n. io_ok 0;
  pages = λ s bucket key. io_ok (keys s) ∷ [];
  presign_put = λ bucket key. io_ok (str "https://s3/" ++ key);
}
  where
    keys : List Bytes → List (Option Bytes)
    keys [] = []
    keys (k ∷ ks) = some k ∷ keys ks

abbrev pub disk : Disk
disk = record { mkdir_all = λ p. none; create = λ p. none; copy = λ p body. none }

abbrev pub broker : Broker
broker = record {
  open_channel = none;
  queue_declare = λ q. none;
  server_name = str "amq.gen";
  exchange_declare = λ e. none;
  queue_bind = λ q k e. none;
  qos = λ n. some (str "no");
  consume = λ q t. none;
  publish = λ e k m. none;
}

abbrev message : Message
message = record { content_type = str "application/json"; message_id = str "s1"; body = str "{}" }

-- The first two attempts fail.
abbrev dial : ℕ → Option Bytes
dial k = if ltb k 2 then some (str "refused") else none

abbrev never : ℕ → Bool
never k = false

abbrev pub two_files : List Bytes
two_files = str "sum/1.in" ∷ str "sum/1.out" ∷ []

plain_files :
    All
      (IsPlainPage (with_slash (str "sum")))
      (io_ok (some (str "sum/1.in") ∷ some (str "sum/1.out") ∷ []) ∷ [])
unfolding trim_prefix has_prefix has_suffix split_slash
plain_files = ground arith

download_dir_from_s3-IsInside_example :
    All
      (IsInside (base (str "/tmp/runner/testsets/sum/")))
      (download_dir_from_s3 client disk two_files
        (str "b")
        (str "sum")
        (str "/tmp/runner/testsets/sum/")).effects
download_dir_from_s3-IsInside_example =
    download_dir_from_s3-IsInside client disk two_files (str "b") (str "sum")
      (str "/tmp/runner/testsets/sum/") (λ h. cc) plain_files

abbrev notes : List Bytes
notes = str "sum/readme.md" ∷ []

other_files : All (IsOtherFile client disk) (some (str "sum/readme.md") ∷ [])
unfolding has_suffix
other_files = ((refl, refl), tt)

-- A folder with one file.
abbrev walk : List (IoResult Visit)
walk =
    io_ok (record {
      kind = directory;
      path = str "/t";
      content = io_error [];
      rel = io_ok (str ".");
      close_error = none;
    })
    ∷ io_ok (record {
      kind = regular;
      path = str "/t/1.in";
      content = io_ok (str "3");
      rel = io_ok (str "1.in");
      close_error = none;
    })
    ∷ []
