-- ===== src/Shared/S3/Download.antt =====
-- What a download of a testset writes.
use native.Mathlib.Nat.{zero-add}
use alpine_judge.Common.{ℕ, ◌+◌, ◌≡◌, ◌≢◌, true, false, Option, none, some, List, [], ◌∷◌, ◌++◌}
use alpine_judge.Common.{
  length, suc, All, ◌∙◌, All-append, arith, Bool-cases, Option-cases, inl, inr, nat_eq, list_eq,
}
use alpine_judge.Common.Results.{IoResult, IoResult-cases, io_error, io_ok}
use alpine_judge.Common.Text.{Bytes, str, has_prefix, has_suffix, trim_prefix, has_prefix-append}
use alpine_judge.Common.FilePath.{dir, split_slash}
use alpine_judge.Common.FilePath.Inside.{IsName, base, join-eq-append}
use alpine_judge.Shared.S3.{
  S3Client, Disk, Effect, made_dirs, created, wrote, Transfer, with_slash, save,
  download_file_from_s3, is_test_file, local_path, download_objects, download_pages, no_transfer,
  checked, download_dir_from_s3,
}

-- A file that an effect touches lies under `root`.
abbrev pub IsInside : Bytes → Effect → Type 0
IsInside root (made_dirs p) = Unit
IsInside root (created p) = has_prefix p root ≡ true
IsInside root (wrote p body) = has_prefix p root ≡ true

-- Behind the prefix, a key is a path of names: no part of it is empty, `.` or `..`.
abbrev pub IsPlainKey : Bytes → Option Bytes → Type 0
IsPlainKey key_prefix none = Unit
IsPlainKey key_prefix (some key) = All IsName (split_slash (trim_prefix key key_prefix))

abbrev pub IsPlainPage : Bytes → IoResult (List (Option Bytes)) → Type 0
IsPlainPage key_prefix (io_error text) = Unit
IsPlainPage key_prefix (io_ok objs) = All (IsPlainKey key_prefix) objs

module _ (S : S3Client) (D : Disk) where
  save-IsInside :
      (root path body : Bytes)
      → has_prefix path root ≡ true
      → All (IsInside root) (save S D path body).effects
  unfolding save
  save-IsInside root path body h = elim (Option-cases (D.mkdir_all (dir path))) [
    | inr (text, e) ↦ rw (e, save) tt
    | inl fine ↦ elim (Option-cases (D.create path)) [
      | inr (text, e) ↦ rw (fine, save, e) (tt, tt)
      | inl made ↦ elim (Option-cases (D.copy path body)) [
        | inl all ↦ rw (fine, save, made, all) (tt, (h, (h, tt)))
        | inr ((n, text), e) ↦ rw (fine, save, made, e) (tt, (h, (h, tt)))
      ]
    ]
  ]

  download_file_from_s3-IsInside :
      (s : S.Store) (root bucket key path : Bytes)
      → has_prefix path root ≡ true
      → All (IsInside root) (download_file_from_s3 S D s bucket key path).effects
  unfolding download_file_from_s3
  download_file_from_s3-IsInside s root bucket key path h =
      elim (IoResult-cases (S.get_object s bucket key)) [
        | inr (text, e) ↦ rw (e, download_file_from_s3) tt
        | inl (body, e) ↦ rw (e, download_file_from_s3) (save-IsInside root path body h)
      ]

  module _ (s : S.Store) (bucket key_prefix to : Bytes) (somewhere : to ≢ []) where
    local_path-IsInside :
        (key : Bytes)
        → IsPlainKey key_prefix (some key)
        → has_prefix (local_path S D key_prefix to key) (base to) ≡ true
    local_path-IsInside key plain =
        rw (join-eq-append to (trim_prefix key key_prefix) somewhere plain)
          (has_prefix-append (base to) (trim_prefix key key_prefix))

    download_objects-IsInside :
        (objs : List (Option Bytes)) (t : Transfer) (n : ℕ)
        → All (IsPlainKey key_prefix) objs
        → All (IsInside (base to)) t.effects
        → All (IsInside (base to)) (download_objects S D s bucket key_prefix to objs t n).0.effects
    unfolding download_objects
    download_objects-IsInside [] t n _ h = h
    download_objects-IsInside (none ∷ objs) t n (_, plain) h =
        download_objects-IsInside objs t n plain h
    download_objects-IsInside (some key ∷ objs) t n (p, plain) h =
        let path = local_path S D key_prefix to key in
        let got = download_file_from_s3 S D s bucket key path in
        let more : All (IsInside (base to)) (t.effects ++ got.effects) =
          All-append (IsInside (base to)) t.effects got.effects h (
            download_file_from_s3-IsInside s (base to) bucket key path
              (local_path-IsInside key p)) in
        elim (Bool-cases (has_suffix key (str "/"))) [
          | inl folder ↦ rw folder (download_objects-IsInside objs t n plain h)
          | inr file ↦ elim (Bool-cases (is_test_file S D key)) [
            | inr other ↦ rw (file, other) (download_objects-IsInside objs t (n + 1) plain h)
            | inl test ↦ elim (Option-cases got.err) [
              | inr (text, e) ↦ rw (file, test, e) more
              | inl fine ↦
                  rw (file, test, fine)
                    (download_objects-IsInside objs
                      (record { err = got.err; effects = t.effects ++ got.effects }) (n + 1) plain
                      more)
            ]
          ]
        ]

    download_pages-IsInside :
        (pages : List (IoResult (List (Option Bytes)))) (t : Transfer) (n : ℕ)
        → All (IsPlainPage key_prefix) pages
        → All (IsInside (base to)) t.effects
        → All (IsInside (base to)) (download_pages S D s bucket key_prefix to pages t n).0.effects
    unfolding download_pages
    download_pages-IsInside [] t n _ h = h
    download_pages-IsInside (io_error text ∷ pages) t n _ h = h
    download_pages-IsInside (io_ok objs ∷ pages) t n (p, plain) h =
        let page = download_objects S D s bucket key_prefix to objs t n in
        let got = download_objects-IsInside objs t n p h in
        elim (Option-cases page.0.err) [
          | inr (text, e) ↦ rw (All, e) got
          | inl fine ↦ rw (All, fine) (download_pages-IsInside pages page.0 page.1 plain got)
        ]

  checked-effects :
      (bucket key_prefix : Bytes) (r : Transfer × ℕ)
      → (checked S D bucket key_prefix r).effects ≡ r.0.effects
  unfolding checked
  checked-effects bucket key_prefix (t, n) = ground arith

  -- Every file that a download creates or writes lies under the directory that was asked for, as
  -- long as the keys behind the prefix have no empty part, no `.` and no `..`, whatever errors occur.
  pub download_dir_from_s3-IsInside :
      (s : S.Store) (bucket prefix to : Bytes)
      → to ≢ []
      → All (IsPlainPage (with_slash prefix)) (S.pages s bucket (with_slash prefix))
      → All (IsInside (base to)) (download_dir_from_s3 S D s bucket prefix to).effects
  unfolding download_dir_from_s3
  download_dir_from_s3-IsInside s bucket prefix to somewhere plain = rw checked-effects (
      download_pages-IsInside s bucket (with_slash prefix) to somewhere
        (S.pages s bucket (with_slash prefix)) no_transfer 0 plain tt)

  -- A key of a file that is no test file.
  abbrev pub IsOtherFile : Option Bytes → Type 0
  IsOtherFile none = ⊥
  IsOtherFile (some key) = (has_suffix key (str "/") ≡ false) × (is_test_file S D key ≡ false)

  module _ (s : S.Store) (bucket key_prefix to : Bytes) where
    download_objects_other :
        (objs : List (Option Bytes)) (t : Transfer) (n : ℕ)
        → All IsOtherFile objs
        → download_objects S D s bucket key_prefix to objs t n ≡ (t, n + length objs)
    unfolding download_objects
    download_objects_other [] t n _ = let e : n + 0 ≡ n = omega arith in rw e
    download_objects_other (none ∷ objs) t n (p, _) = absurd p
    download_objects_other (some key ∷ objs) t n ((file, other), rest) =
        let e : n + 1 + length objs ≡ n + suc (length objs) = omega arith in
        rw (file, other, download_objects_other objs t (n + 1) rest, e)

  one_page :
      (s : S.Store) (bucket key_prefix to : Bytes) (objs : List (Option Bytes)) (n : ℕ)
      → download_objects S D s bucket key_prefix to objs no_transfer 0 ≡ (no_transfer, n)
      → download_pages S D s bucket key_prefix to (io_ok objs ∷ []) no_transfer 0 ≡ (no_transfer, n)
  unfolding download_pages
  one_page s bucket key_prefix to objs n e = rw (e, download_pages) e

  -- A prefix whose one page lists files, none of which is a test file, is downloaded without an
  -- error although nothing at all is written: the count is of the files listed, not of those that
  -- matched.
  download_dir_from_s3_unmatched :
      (s : S.Store) (bucket prefix to key : Bytes) (objs : List (Option Bytes))
      → S.pages s bucket (with_slash prefix) ≡ io_ok (some key ∷ objs) ∷ []
      → All IsOtherFile (some key ∷ objs)
      → download_dir_from_s3 S D s bucket prefix to ≡ record { err = none; effects = [] }
  unfolding download_dir_from_s3
  download_dir_from_s3_unmatched s bucket prefix to key objs listed others =
      rw
        (
          listed,
          one_page s bucket (with_slash prefix) to (some key ∷ objs) (suc (length objs)) (
              download_objects_other s bucket (with_slash prefix) to (some key ∷ objs) no_transfer 0
                others
              ∙ rw zero-add),
        )
        (unfold checked in ground arith)
