-- ===== src/Common/Results.antt =====
-- The pair of a value and an `error` that Go functions return: an error with its text, or a value.
use alpine_judge.Common.{◌≡◌, ◌≢◌, refl, ◌↔◌, ◌⊎◌, inl, inr, Option, none, some}
use alpine_judge.Common.Text.{Bytes}

pub data IoResult (A : Type 0) : Type 0 where
  io_error : Bytes → IoResult A
  io_ok : A → IoResult A

pub IoResult-cases :
    {A : Type 0} (r : IoResult A)
    → ((a : A) × (r ≡ io_ok a)) ⊎ ((text : Bytes) × (r ≡ io_error text))
IoResult-cases (io_error text) = inr (text, refl)
IoResult-cases (io_ok a) = inl (a, refl)

-- An error ends a routine, and otherwise it goes on.
abbrev pub unless_error {ℓ} : {A : Type ℓ} → Option Bytes → A → A → A
unless_error (some text) ended rest = ended
unless_error none ended rest = rest

pub unless_error_iff {ℓ} :
    {A : Type ℓ} (err : Option Bytes) {ended rest end : A}
    → ended ≢ end
    → (unless_error err ended rest ≡ end) ↔ ((err ≡ none) × (rest ≡ end))
unless_error_iff (some text) other = (λ h. absurd (other h), λ (e, _). absurd cc)
unless_error_iff none other = (λ h. (refl, h), λ (_, h). h)
