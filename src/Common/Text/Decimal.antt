-- ===== src/Common/Text/Decimal.antt =====
-- `fmt.Sprint` of a number, and the verb `%0wd`.
pub mod Parse
use alpine_judge.Common.{
  ℕ, zero, suc, ◌+◌, ◌-◌, ◌*◌, ◌/◌, ◌%◌, ◌<◌, ◌≡◌, refl, [], ◌∷◌, ◌++◌, arith,
}
use alpine_judge.Common.{ltb, if◌then◌else◌, length, sym, ◌∙◌, ap}
use alpine_judge.Common.{All, All-append, Bool-cases, inl, inr, ◌≤◌, length-append}
use alpine_judge.Common.Text.{Bytes, str}

-- The digits, the most significant first; the fuel bounds their number, and `n + 1` is enough.
pub digits : ℕ → ℕ → Bytes
digits zero n = []
digits (suc f) n =
    let higher = digits f (n / 10) in (if ltb n 10 then [] else higher) ++ (48 + n % 10) ∷ []

unfoldable pub sprint : ℕ → Bytes
unfolding digits
sprint n = digits (suc n) n

zeros : ℕ → Bytes
zeros zero = []
zeros (suc n) = b'0' ∷ zeros n

-- `fmt.Sprintf("%0wd", n)`
unfoldable pub sprint_padded : ℕ → ℕ → Bytes
unfolding zeros sprint
sprint_padded w n = zeros (w - length (sprint n)) ++ sprint n

-- The number that a row of digits stands for, behind those read so far.
pub value : ℕ → Bytes → ℕ
value acc [] = acc
value acc (d ∷ ds) = value (acc * 10 + (d - 48)) ds

value-append : (acc : ℕ) (s t : Bytes) → value acc (s ++ t) ≡ value (value acc s) t
unfolding value
value-append acc [] t = refl
value-append acc (d ∷ s) t = value-append (acc * 10 + (d - 48)) s t

pub value-digits : (f n : ℕ) → n < f → value 0 (digits f n) ≡ n
unfolding digits value
value-digits zero n h = absurd (omega arith)
value-digits (suc f) n h =
    ground (arith, value-append 0 (digits f (n / 10)) ((48 + n % 10) ∷ []), value-digits f (n / 10))

value-zeros : (k : ℕ) (s : Bytes) → value 0 (zeros k ++ s) ≡ value 0 s
unfolding zeros value
value-zeros zero s = refl
value-zeros (suc k) s = value-zeros k s

value-sprint_padded : (w n : ℕ) → value 0 (sprint_padded w n) ≡ n
unfolding sprint_padded sprint
value-sprint_padded w n =
    value-zeros (w - length (sprint n)) (sprint n) ∙ value-digits (suc n) n (omega arith)

-- Different numbers print differently, whatever the padding.
pub sprint_padded-injective : (v w m n : ℕ) → sprint_padded v m ≡ sprint_padded w n → m ≡ n
sprint_padded-injective v w m n h =
    sym (value-sprint_padded v m) ∙ (ap (value 0) h ∙ value-sprint_padded w n)

pub sprint-injective : (m n : ℕ) → sprint m ≡ sprint n → m ≡ n
unfolding sprint
sprint-injective m n h =
    sym (value-digits (suc m) m (omega arith))
    ∙ (ap (value 0) h ∙ value-digits (suc n) n (omega arith))

sprint_runs : sprint 1024 ≡ str "1024"
unfolding sprint
sprint_runs = refl

sprint_padded_runs : sprint_padded 3 7 ≡ str "007"
unfolding sprint_padded
sprint_padded_runs = refl

abbrev pub IsDigit : ℕ → Type 0
IsDigit d = (48 ≤ d) × (d ≤ 57)

pub digits-IsDigit : (f n : ℕ) → All IsDigit (digits f n)
unfolding digits
digits-IsDigit zero n = tt
digits-IsDigit (suc f) n =
    let last : IsDigit (48 + n % 10) = omega arith in
    All-append IsDigit (if ltb n 10 then [] else digits f (n / 10)) ((48 + n % 10) ∷ [])
      (elim (Bool-cases (ltb n 10)) [ inl e ↦ rw e tt | inr e ↦ rw e (digits-IsDigit f (n / 10)) ])
      (last, tt)

zeros-IsDigit : (k : ℕ) → All IsDigit (zeros k)
unfolding zeros
zeros-IsDigit zero = tt
zeros-IsDigit (suc k) = (omega arith, zeros-IsDigit k)

pub sprint_padded-IsDigit : (w n : ℕ) → All IsDigit (sprint_padded w n)
unfolding sprint_padded sprint
sprint_padded-IsDigit w n =
    All-append IsDigit (zeros (w - length (sprint n))) (sprint n) (zeros-IsDigit _)
      (digits-IsDigit (suc n) n)

pub length-sprint_pos : (n : ℕ) → 0 < length (sprint n)
unfolding sprint digits
length-sprint_pos n =
    omega (arith, length-append (if ltb n 10 then [] else digits n (n / 10)) ((48 + n % 10) ∷ []))

pub length-sprint_padded_pos : (w n : ℕ) → 0 < length (sprint_padded w n)
unfolding sprint_padded
length-sprint_padded_pos w n =
    omega (arith, length-append (zeros (w - length (sprint n))) (sprint n), length-sprint_pos n)

pub sprint_padded-zero : (n : ℕ) → sprint_padded 0 n ≡ sprint n
unfolding sprint_padded zeros
sprint_padded-zero n = let none_left : 0 - length (sprint n) ≡ 0 = omega arith in rw none_left
