-- ===== src/Agent/RunTest/Stages.antt =====
-- Case lemmas for the stages of a test.
use alpine_judge.Common.{◌≡◌, refl, ◌⊎◌, inl, inr}
use alpine_judge.Common.Text.{Bytes}
use alpine_judge.Agent.RunTest.{Run, Started, start_error, started}

-- The stages of a test, each a value or an error.
pub Started-cases :
    (s : Started) → ((r : Run) × (s ≡ started r)) ⊎ ((text : Bytes) × (s ≡ start_error text))
Started-cases (start_error text) = inr (text, refl)
Started-cases (started r) = inl (r, refl)
