-- ===== src/Common/Text/Scanner.antt =====
-- What the program uses of `bufio.Scanner`: the lines that it gives of those that arrive.
use alpine_judge.Common.{
  ℕ, ◌<◌, ◌≤◌, ◌≡◌, refl, ap, true, false, List, [], ◌∷◌, ◌++◌, ltb, length, All, if◌then◌else◌,
  arith,
}
use alpine_judge.Common.Text.{Bytes}

-- A line is given where it is shorter than the limit, and the first longer one ends the scan.
unfoldable pub scanned : ℕ → List Bytes → List Bytes
scanned limit [] = []
scanned limit (line ∷ lines) =
    let rest = scanned limit lines in if ltb (length line) limit then line ∷ rest else []

-- The lines that are short enough.
abbrev pub IsShort : ℕ → Bytes → Type 0
IsShort limit line = length line < limit

pub scanned-append_long :
    (limit : ℕ) (lines rest : List Bytes) (line : Bytes)
    → All (IsShort limit) lines
    → limit ≤ length line
    → scanned limit (lines ++ line ∷ rest) ≡ lines
unfolding scanned
scanned-append_long limit [] rest line short long =
    let e : ltb (length line) limit ≡ false = ground arith in rw e refl
scanned-append_long limit (l ∷ lines) rest line (s, short) long =
    let e : ltb (length l) limit ≡ true = ground arith in
    rw e (ap (λ ls. l ∷ ls) (scanned-append_long limit lines rest line short long))

pub scanned-All :
    (limit : ℕ) (lines : List Bytes) → All (IsShort limit) lines → scanned limit lines ≡ lines
unfolding scanned
scanned-All limit [] short = refl
scanned-All limit (l ∷ lines) (s, short) =
    let e : ltb (length l) limit ≡ true = ground arith in
    rw e (ap (λ ls. l ∷ ls) (scanned-All limit lines short))
