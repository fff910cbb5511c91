-- ===== src/Runner/Oci/Limits.antt =====
-- The memory that a container gets.
use alpine_judge.Common.{
  ℕ, ◌*◌, ◌^◌, ◌<◌, ◌≡◌, ◌∙◌, refl, Bool, true, false, List, [], ◌∷◌, arith, ap,
}
use alpine_judge.Common.Text.{Bytes, str}
use alpine_judge.Common.Text.Decimal.{sprint}
use alpine_judge.Common.Text.Decimal.Parse.{int64, ℤ, pos, parse_bool, parse_uint-sprint}
use alpine_judge.Runner.Oci.{
  SpecOpt, with_memory_limit, with_memory_swap, memory_bytes, spec_opts, build_oci_spec_opts,
}

-- The limits on memory, and on memory with swap, that the options set.
abbrev pub memory_limits : List SpecOpt → List ℕ
memory_limits [] = []
memory_limits (with_memory_limit n ∷ opts) = n ∷ memory_limits opts
memory_limits (other ∷ opts) = memory_limits opts

abbrev pub swap_limits : List SpecOpt → List ℤ
swap_limits [] = []
swap_limits (with_memory_swap n ∷ opts) = n ∷ swap_limits opts
swap_limits (other ∷ opts) = swap_limits opts

opts-limits :
    (getenv : Bytes → Bytes) (quota_of : Bytes → ℤ) (slot : ℕ) (nnp rro_rootfs : Bool)
    → let opts = spec_opts getenv quota_of slot nnp rro_rootfs in
      let bytes = memory_bytes (getenv (str "MEMORY_LIMIT_MB")) in
      (memory_limits opts ≡ bytes ∷ []) × (swap_limits opts ≡ int64 bytes ∷ [])
unfolding spec_opts
opts-limits getenv quota_of slot true true = (refl, refl)
opts-limits getenv quota_of slot true false = (refl, refl)
opts-limits getenv quota_of slot false true = (refl, refl)
opts-limits getenv quota_of slot false false = (refl, refl)

-- If the variable MEMORY_LIMIT_MB is a number below 2^43 in decimal, the options set one limit on
-- memory, of that many megabytes of 2^20 bytes, and one of the same size on memory with swap, so
-- that there is no swap.
pub build_oci_spec_opts-limits :
    (getenv : Bytes → Bytes) (quota_of : Bytes → ℤ) (slot mb : ℕ)
    → getenv (str "MEMORY_LIMIT_MB") ≡ sprint mb
    → mb < 2 ^ 43
    → let opts = build_oci_spec_opts getenv quota_of slot in
      (memory_limits opts ≡ mb * 2 ^ 20 ∷ []) × (swap_limits opts ≡ pos (mb * 2 ^ 20) ∷ [])
unfolding build_oci_spec_opts
build_oci_spec_opts-limits getenv quota_of slot mb set small =
    let (limit, swap) =
      opts-limits getenv quota_of slot (parse_bool (getenv (str "NO_NEW_PRIVILEGES")))
        (parse_bool (getenv (str "READONLY_ROOTFS"))) in
    let bytes : memory_bytes (getenv (str "MEMORY_LIMIT_MB")) ≡ mb * 2 ^ 20 =
      rw (set, parse_uint-sprint 64 mb (omega arith)) (omega arith) in
    let positive : int64 (mb * 2 ^ 20) ≡ pos (mb * 2 ^ 20) = ground arith in
    (
      limit ∙ ap (λ n. n ∷ []) bytes,
      swap ∙ (ap (λ n. int64 n ∷ []) bytes ∙ ap (λ n. n ∷ []) positive),
    )
