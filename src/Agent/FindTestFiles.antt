-- ===== src/Agent/FindTestFiles.antt =====
-- ajagent/internal/findtestfiles.go: the files of test number `i`. `stat path` says whether
-- `os.Stat` finds the path.
pub mod Names
use alpine_judge.Common.{
  ℕ, Bool, true, false, Option, none, some, List, [], ◌∷◌, ◌++◌, if◌then◌else◌,
}
use alpine_judge.Common.Text.{Bytes, str}
use alpine_judge.Common.Text.Decimal.{sprint, sprint_padded}
use alpine_judge.Common.FilePath.{join}

unfoldable pub formats : ℕ → List Bytes
formats i =
    sprint i
    ∷ sprint_padded 2 i
    ∷ sprint_padded 3 i
    ∷ sprint_padded 4 i
    ∷ sprint_padded 5 i
    ∷ sprint_padded 6 i
    ∷ []

module _ (stat : Bytes → Bool) (testset_path : Bytes) where
  unfoldable pub input_path : Bytes → Bytes
  input_path name = join (testset_path ∷ (name ++ str ".in") ∷ [])

  unfoldable pub output_path : Bytes → Bytes
  output_path name = join (testset_path ∷ (name ++ str ".out") ∷ [])

  -- The loop over the names; an input without its output is passed over.
  find_among : List Bytes → Option (Bytes × Bytes)
  unfolding input_path output_path
  find_among [] = none
  find_among (name ∷ names) =
      if stat (input_path name)
      then (if stat (output_path name)
          then some (input_path name, output_path name)
          else find_among names)
      else find_among names

  unfoldable pub find_testcase_files : ℕ → Option (Bytes × Bytes)
  unfolding find_among formats
  find_testcase_files i = find_among (formats i)
