-- ===== src/Runner/Oci/Sockets.antt =====
-- The socket of a container, as its agent and the host name it.
use alpine_judge.Common.{ℕ, ◌+◌, ◌≡◌, refl, Bool, true, false, some, List, [], ◌∷◌, ◌++◌, ap, ◌∙◌}
use alpine_judge.Common.{nat_eq, list_eq, drop, length, if◌then◌else◌}
use alpine_judge.Common.Text.{Bytes, str, has_prefix}
use alpine_judge.Runner.WarmContainer.{socket_path}
use alpine_judge.Agent.Session
use alpine_judge.Agent.Session.{Container}
use alpine_judge.Common.Text.Decimal.Parse.{ℤ, parse_bool}
use alpine_judge.Runner.Oci.{
  Mount, mounts, container_env, SpecOpt, with_mounts, with_env, spec_opts, build_oci_spec_opts,
}
use alpine_judge.Runner.Oci.Mounts.{host_path}

-- The value of a variable in a list of assignments.
abbrev pub value_of : Bytes → List Bytes → Bytes
value_of name [] = []
value_of name (entry ∷ env) =
    let rest = value_of name env in
    if has_prefix entry (name ++ str "=") then drop (length name + 1) entry else rest

-- What the options add to the mounts and to the environment of a container.
abbrev pub mounted : List SpecOpt → List Mount
mounted [] = []
mounted (with_mounts ms ∷ opts) = ms ++ mounted opts
mounted (other ∷ opts) = mounted opts

abbrev pub environment : List SpecOpt → List Bytes
environment [] = []
environment (with_env env ∷ opts) = env ++ environment opts
environment (other ∷ opts) = environment opts

opts-effects :
    (getenv : Bytes → Bytes) (quota_of : Bytes → ℤ) (slot : ℕ) (nnp rro_rootfs : Bool)
    → let opts = spec_opts getenv quota_of slot nnp rro_rootfs in
      (mounted opts ≡ mounts) × (environment opts ≡ container_env slot)
unfolding spec_opts
opts-effects getenv quota_of slot true true = (refl, refl)
opts-effects getenv quota_of slot true false = (refl, refl)
opts-effects getenv quota_of slot false true = (refl, refl)
opts-effects getenv quota_of slot false false = (refl, refl)

-- Whatever the runner's environment: an agent whose variable STREAM_SOCKET_PATH is as the options of
-- its container set it dials the socket that the runner listens on for its slot, as the host sees
-- the path through the container's mounts.
pub socket_path-host_path :
    (getenv : Bytes → Bytes) (quota_of : Bytes → ℤ) (slot : ℕ) (c : Container)
    → c.stream_socket_path
      ≡ value_of (str "STREAM_SOCKET_PATH") (environment (build_oci_spec_opts getenv quota_of slot))
    → host_path (mounted (build_oci_spec_opts getenv quota_of slot)) (Session.socket_path c)
      ≡ some (socket_path slot)
unfolding build_oci_spec_opts has_prefix socket_path Session.socket_path
socket_path-host_path getenv quota_of slot c set =
    let (ms, env) =
      opts-effects getenv quota_of slot (parse_bool (getenv (str "NO_NEW_PRIVILEGES")))
        (parse_bool (getenv (str "READONLY_ROOTFS"))) in
    let value = set ∙ ap (value_of (str "STREAM_SOCKET_PATH")) env in
    let found : host_path mounts (Session.socket_path c) ≡ some (socket_path slot) =
      rw (Session.socket_path, value) refl in
    ap (λ ms. host_path ms (Session.socket_path c)) ms ∙ found
