-- ===== src/Common/Text.antt =====
-- Go strings and byte slices as lists of bytes, and what the program uses of the packages
-- strings and fmt.
pub mod Trim
pub mod Decimal
pub mod Scanner
use Prim.Native.Char.{code}
use alpine_judge.Common.{
  list_eq, list_beq_iff, ◌↔◌, ℕ, zero, suc, ◌+◌, ◌-◌, String, ◌≡◌, refl, Bool, true, false, List,
  ap,
}
use alpine_judge.Common.{[], ◌∷◌, ◌++◌, arith, ◌==◌, nat_eq, list_eq, ◌&&◌, if◌then◌else◌, eq_self}
use alpine_judge.Common.{reverse, drop, length}

abbrev pub Bytes : Type 0
Bytes = List ℕ

-- A literal: its code points, which are its bytes, since every literal here is ASCII.
abbrev pub str : String → Bytes
str String.[] = []
str (String.◌∷◌ c s) = code c ∷ str s

-- `strings.HasPrefix(s, prefix)`
unfoldable pub has_prefix : Bytes → Bytes → Bool
has_prefix s [] = true
has_prefix [] (p ∷ ps) = false
has_prefix (c ∷ s) (p ∷ ps) = c == p && has_prefix s ps

-- `strings.HasSuffix(s, suffix)`
unfoldable pub has_suffix : Bytes → Bytes → Bool
unfolding has_prefix
has_suffix s suffix = has_prefix (reverse s) (reverse suffix)

-- `strings.TrimPrefix(s, prefix)`
unfoldable pub trim_prefix : Bytes → Bytes → Bytes
unfolding has_prefix
trim_prefix s prefix = if has_prefix s prefix then drop (length prefix) s else s

pub has_prefix-append : (prefix s : Bytes) → has_prefix (prefix ++ s) prefix ≡ true
unfolding has_prefix
has_prefix-append [] s = refl
has_prefix-append (p ∷ ps) s = ground (arith, eq_self p, has_prefix-append ps s)

pub bytes_eq_iff : (s t : Bytes) → ((s == t) ≡ true) ↔ (s ≡ t)
bytes_eq_iff s t = list_beq_iff s t
