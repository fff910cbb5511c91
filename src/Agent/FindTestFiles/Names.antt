-- ===== src/Agent/FindTestFiles/Names.antt =====
-- Which files a test number finds.
use alpine_judge.Common.{ℕ, ◌<◌, ◌≡◌, ◌≢◌, refl, sym, ◌∙◌, Bool, true, none, some}
use alpine_judge.Common.{List, [], ◌∷◌, ◌++◌, arith, All, Bool-cases, inl, inr, length, ◌↔◌}
use alpine_judge.Common.Text.{Bytes, str}
use alpine_judge.Common.Text.Decimal.{
  sprint_padded, IsDigit, sprint_padded-IsDigit, length-sprint_padded_pos, sprint_padded-zero,
  sprint_padded-injective,
}
use alpine_judge.Common.FilePath.Inside.{NoSlash, IsName, base, join-eq-append_name}
use mathlib.Core.List.{append_cancel_left, append_cancel_right}
use alpine_judge.Agent.FindTestFiles.{
  formats, input_path, output_path, find_among, find_testcase_files,
}

-- The files that carry `name` are there, both.
abbrev pub IsPresent : (Bytes → Bool) → Bytes → Bytes → Type 0
IsPresent stat dir name =
    (stat (input_path stat dir name) ≡ true) × (stat (output_path stat dir name) ≡ true)

-- What is found are the two files of one of the names, and both are there.
find_among_sound :
    (stat : Bytes → Bool) (dir : Bytes) (names : List Bytes) {input output : Bytes}
    (P : Bytes → Type 0)
    → All P names
    → find_among stat dir names ≡ some (input, output)
    → (name : Bytes) × P name
      × IsPresent stat dir name
      × (input ≡ input_path stat dir name)
      × (output ≡ output_path stat dir name)
unfolding find_among
find_among_sound stat dir [] P _ h = cc
find_among_sound stat dir (name ∷ names) P (p, ps) h =
    elim (Bool-cases (stat (input_path stat dir name))) [
      | inl i ↦ elim (Bool-cases (stat (output_path stat dir name))) [
        | inl o ↦ (name, p, (i, o), ground arith, ground arith)
        | inr o ↦ find_among_sound stat dir names P ps (ground arith)
      ]
      | inr i ↦ find_among_sound stat dir names P ps (ground arith)
    ]

abbrev IsFormat : ℕ → Bytes → Type 0
IsFormat i name = (w : ℕ) × (name ≡ sprint_padded w i)

formats-IsFormat : (i : ℕ) → All (IsFormat i) (formats i)
unfolding formats
formats-IsFormat i = (
  (0, sym (sprint_padded-zero i)),
  ((2, refl), ((3, refl), ((4, refl), ((5, refl), ((6, refl), tt))))),
)

-- A number, however padded, with a suffix that starts with a dot names a file.
NoSlash-append : (s t : Bytes) → All IsDigit s → NoSlash t → NoSlash (s ++ t)
NoSlash-append [] t _ h = h
NoSlash-append (d ∷ s) t (k, ks) h = (omega arith, NoSlash-append s t ks h)

digits-IsName : (s t : Bytes) → 0 < length s → All IsDigit s → IsName (s ++ t)
digits-IsName [] t h _ = absurd (omega arith)
digits-IsName (d ∷ s) t h (k, ks) = ground arith

-- The input of test `i` under one of its names is that name in the directory.
input_path-eq-append :
    (stat : Bytes → Bool) (dir : Bytes) (w i : ℕ)
    → dir ≢ []
    → input_path stat dir (sprint_padded w i) ≡ base dir ++ (sprint_padded w i ++ str ".in")
unfolding input_path
input_path-eq-append stat dir w i h =
    join-eq-append_name dir (sprint_padded w i ++ str ".in") h
      (NoSlash-append (sprint_padded w i) (str ".in") (sprint_padded-IsDigit w i) (ground arith))
      (digits-IsName (sprint_padded w i) (str ".in") (length-sprint_padded_pos w i)
        (sprint_padded-IsDigit w i))

-- The files found for test `i` are there, and are those of `i` printed to some width.
find_testcase_files_sound :
    (stat : Bytes → Bool) (dir : Bytes) (i : ℕ) {input output : Bytes}
    → find_testcase_files stat dir i ≡ some (input, output)
    → (w : ℕ) × (stat input ≡ true)
      × (stat output ≡ true)
      × (input ≡ input_path stat dir (sprint_padded w i))
      × (output ≡ output_path stat dir (sprint_padded w i))
unfolding find_testcase_files
find_testcase_files_sound stat dir i {input} {output} h =
    let (name, (w, e), there, is_input, is_output) =
      find_among_sound stat dir (formats i) (IsFormat i) (formats-IsFormat i) h in
    (w, rw is_input there.0, rw is_output there.1, rw is_input (rw e), rw is_output (rw e))

find_among-eq-none :
    (stat : Bytes → Bool) (dir : Bytes) (names : List Bytes)
    → (find_among stat dir names ≡ none) ↔ All (λ name. ¬ IsPresent stat dir name) names
unfolding find_among
find_among-eq-none stat dir [] = (λ _. tt, λ _. refl)
find_among-eq-none stat dir (name ∷ names) = ground (arith, find_among-eq-none stat dir names)

-- Two test numbers never find the same input file.
pub find_testcase_files-injective :
    (stat : Bytes → Bool) (dir : Bytes) (i j : ℕ) {input output other : Bytes}
    → dir ≢ []
    → find_testcase_files stat dir i ≡ some (input, output)
    → find_testcase_files stat dir j ≡ some (input, other)
    → i ≡ j
find_testcase_files-injective stat dir i j h p q =
    let (v, _, _, a, _) = find_testcase_files_sound stat dir i p in
    let (w, _, _, b, _) = find_testcase_files_sound stat dir j q in
    sprint_padded-injective v w i j (
      append_cancel_right _ _ (str ".in") (
        append_cancel_left (base dir) _ _ (
          sym (input_path-eq-append stat dir v i h)
          ∙ (sym a ∙ (b ∙ input_path-eq-append stat dir w j h)))))

-- No files are found for test `i` exactly when under none of its six names both are there.
find_testcase_files-eq-none :
    (stat : Bytes → Bool) (dir : Bytes) (i : ℕ)
    → (find_testcase_files stat dir i ≡ none) ↔ All (λ name. ¬ IsPresent stat dir name) (formats i)
unfolding find_testcase_files
find_testcase_files-eq-none stat dir i = find_among-eq-none stat dir (formats i)
