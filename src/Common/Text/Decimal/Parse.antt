-- ===== src/Common/Text/Decimal/Parse.antt =====
-- What the program uses of the package strconv: `ParseUint` and `ParseInt` in base 10, and
-- `ParseBool`. Like them, a parser returns a value besides its error, which the callers that drop
-- the error go on with.
use alpine_judge.Common.{
  ℕ, zero, suc, ◌+◌, ◌-◌, ◌*◌, ◌^◌, ◌≤◌, ◌<◌, ◌≡◌, refl, Bool, true, false, ◌&&◌, Option, none,
  some, [], ◌∷◌, arith, List, ◌∙◌,
}
use alpine_judge.Common.{leb, ltb, ◌==◌, nat_eq, list_eq, contains, if◌then◌else◌, length, All}
use alpine_judge.Common.Text.{Bytes, str}
use alpine_judge.Common.Text.Decimal.{
  sprint, digits, value, value-digits, IsDigit, digits-IsDigit, length-sprint_pos,
}

-- An `int64`.
pub data ℤ : Type 0 where
  pos : ℕ → ℤ
  negsuc : ℕ → ℤ

abbrev pub minus : ℕ → ℤ
minus zero = pos 0
minus (suc n) = negsuc n

-- `strconv.ErrSyntax` and `strconv.ErrRange`
pub data NumError : Type 0 where
  syntax_error range_error : NumError

abbrev pub is_digit : ℕ → Bool
is_digit c = leb 48 c && leb c 57

-- The loop over the digits, behind those read so far: `n` is their value, `greatest` the bound.
scan : ℕ → ℕ → Bytes → ℕ × Option NumError
scan greatest n [] = (n, none)
scan greatest n (c ∷ s) =
    let rest = scan greatest (n * 10 + (c - 48)) s in
    if is_digit c
    then if ltb greatest (n * 10 + (c - 48)) then (greatest, some range_error) else rest
    else (0, some syntax_error)

-- `strconv.ParseUint(s, 10, bits)`
unfoldable pub parse_uint : ℕ → Bytes → ℕ × Option NumError
unfolding scan
parse_uint bits [] = (0, some syntax_error)
parse_uint bits (c ∷ s) = scan (2 ^ bits - 1) 0 (c ∷ s)

-- The bounds of a signed number; `cutoff` is `1 << (bits - 1)`.
abbrev signed : ℕ → Bool → ℕ × Option NumError → ℤ × Option NumError
signed cutoff negative (n, some syntax_error) = (pos 0, some syntax_error)
signed cutoff false (n, e) =
    if leb cutoff n then (pos (cutoff - 1), some range_error) else (pos n, none)
signed cutoff true (n, e) =
    if ltb cutoff n then (minus cutoff, some range_error) else (minus n, none)

-- `strconv.ParseInt(s, 10, bits)`
unfoldable pub parse_int : ℕ → Bytes → ℤ × Option NumError
unfolding parse_uint
parse_int bits [] = (pos 0, some syntax_error)
parse_int bits (c ∷ s) =
    if c == b'-'
    then signed (2 ^ (bits - 1)) true (parse_uint bits s)
    else if c == b'+'
    then signed (2 ^ (bits - 1)) false (parse_uint bits s)
    else signed (2 ^ (bits - 1)) false (parse_uint bits (c ∷ s))

abbrev truths : List Bytes
truths = str "1" ∷ str "t" ∷ str "T" ∷ str "TRUE" ∷ str "true" ∷ str "True" ∷ []

-- `strconv.ParseBool(s)`, without its error, which comes with false.
unfoldable pub parse_bool : Bytes → Bool
parse_bool s = contains truths s

value-grows : (n : ℕ) (s : Bytes) → n ≤ value n s
unfolding value
value-grows n [] = omega arith
value-grows n (c ∷ s) = omega (arith, value-grows (n * 10 + (c - 48)) s)

scan-value :
    (greatest n : ℕ) (s : Bytes)
    → All IsDigit s
    → value n s ≤ greatest
    → scan greatest n s ≡ (value n s, none)
unfolding scan value
scan-value greatest n [] ds h = refl
scan-value greatest n (c ∷ s) (d, ds) h =
    let small : ltb greatest (n * 10 + (c - 48)) ≡ false =
      ground (arith, value-grows (n * 10 + (c - 48)) s) in
    let digit : is_digit c ≡ true = ground arith in
    rw (digit, small) (scan-value greatest (n * 10 + (c - 48)) s ds h)

parse_uint-nonempty :
    (bits : ℕ) (s : Bytes) → 0 < length s → parse_uint bits s ≡ scan (2 ^ bits - 1) 0 s
unfolding parse_uint
parse_uint-nonempty bits [] h = absurd (omega arith)
parse_uint-nonempty bits (c ∷ s) h = refl

-- A number in range is read back as it was printed.
pub parse_uint-sprint : (bits n : ℕ) → n < 2 ^ bits → parse_uint bits (sprint n) ≡ (n, none)
unfolding sprint
parse_uint-sprint bits n h =
    let back = value-digits (suc n) n (omega arith) in
    parse_uint-nonempty bits (sprint n) (length-sprint_pos n)
    ∙ (scan-value (2 ^ bits - 1) 0 (digits (suc n) n) (digits-IsDigit (suc n) n)
          (rw back (omega arith))
        ∙ rw back refl)

parse_runs :
    (parse_uint 64 (str "512") ≡ (512, none))
    × (parse_uint 8 (str "256") ≡ (255, some range_error))
    × (parse_int 32 (str "-7") ≡ (negsuc 6, none))
    × (parse_int 64 [] ≡ (pos 0, some syntax_error))
unfolding parse_uint parse_int
parse_runs = (refl, refl, refl, refl)

-- `int64(n)` of a number below 2^64.
abbrev pub int64 : ℕ → ℤ
int64 n = if ltb n (2 ^ 63) then pos n else negsuc (2 ^ 64 - 1 - n)

-- The signed decimal text of a number.
abbrev pub sprint_int : ℤ → Bytes
sprint_int (pos n) = sprint n
sprint_int (negsuc n) = b'-' ∷ sprint (n + 1)
