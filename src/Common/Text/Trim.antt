-- ===== src/Common/Text/Trim.antt =====
-- `strings.TrimSpace`: the white space of package unicode, read in its UTF-8 encoding. A space
-- is one byte (tab to carriage return, blank), two (U+0085, U+00A0) or three (U+1680, U+2000 to
-- U+200A, U+2028, U+2029, U+202F, U+205F, U+3000).
use alpine_judge.Common.{ℕ, ◌≡◌, refl, Bool, true, false, ◌&&◌, ◌||◌, [], ◌∷◌, reverse}
use alpine_judge.Common.{leb, ◌==◌, nat_eq}
use alpine_judge.Common.Text.{Bytes, str}

unfoldable pub space_1 : ℕ → Bool
space_1 a = leb 9 a && leb a 13 || a == 32

unfoldable pub space_2 : ℕ → ℕ → Bool
space_2 a b = a == 0xc2 && (b == 0x85 || b == 0xa0)

unfoldable pub space_3 : ℕ → ℕ → ℕ → Bool
space_3 a b c =
    a == 0xe1 && b == 0x9a && c == 0x80
    || a == 0xe2 && b == 0x80 && (leb 0x80 c && leb c 0x8a || c == 0xa8 || c == 0xa9 || c == 0xaf)
    || a == 0xe2 && b == 0x81 && c == 0x9f
    || a == 0xe3 && b == 0x80 && c == 0x80

-- The loop that drops spaces at the front, for spaces of several bytes as `two` and `three` tell
-- them; the other end is the same loop on the reversed text.
module _ (two : ℕ → ℕ → Bool) (three : ℕ → ℕ → ℕ → Bool) where
  unfoldable pub strip : Bytes → Bytes
  unfolding space_1
  strip [] = []
  strip (a ∷ []) = elim (space_1 a) [ true ↦ [] | false ↦ a ∷ [] ]
  strip (a ∷ b ∷ []) = elim (space_1 a) [
    | true ↦ strip (b ∷ [])
    | false ↦ elim (two a b) [ true ↦ [] | false ↦ a ∷ b ∷ [] ]
  ]
  strip (a ∷ b ∷ c ∷ s) = elim (space_1 a) [
    | true ↦ strip (b ∷ c ∷ s)
    | false ↦ elim (two a b) [
      | true ↦ strip (c ∷ s)
      | false ↦ elim (three a b c) [ true ↦ strip s | false ↦ a ∷ b ∷ c ∷ s ]
    ]
  ]

unfoldable pub trim_left : Bytes → Bytes
unfolding strip space_2 space_3
trim_left = strip space_2 space_3

unfoldable pub trim_right : Bytes → Bytes
unfolding strip space_2 space_3
trim_right s = reverse (strip (λ b a. space_2 a b) (λ c b a. space_3 a b c) (reverse s))

unfoldable pub trim_space : Bytes → Bytes
unfolding trim_left trim_right
trim_space s = trim_right (trim_left s)

trim_space_runs : trim_space (str " \n4 2\t\n") ≡ str "4 2"
unfolding trim_space
trim_space_runs = refl
