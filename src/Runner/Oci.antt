-- ===== src/Runner/Oci.antt =====
-- runner/internal/buildSpecs.go: the options of the OCI specification that every container is made
-- with. The options of the package oci are data here: what they change is up to containerd.
pub mod Mounts
pub mod Sockets
pub mod Limits
use alpine_judge.Common.{ℕ, ◌+◌, ◌-◌, ◌*◌, ◌%◌, ◌^◌, Bool, true, false, Option, List, [], ◌∷◌, ◌++◌}
use alpine_judge.Common.{ltb, if◌then◌else◌}
use alpine_judge.Common.Text.{Bytes, str}
use alpine_judge.Common.Text.Decimal.{sprint}
use alpine_judge.Common.Text.Decimal.Parse.{
  ℤ, pos, negsuc, int64, parse_uint, parse_int, parse_bool,
}

-- `specs.Mount`
pub record Mount : Type 0 where
  pub source : Bytes
  pub destination : Bytes
  pub type : Bytes
  pub options : List Bytes

-- `oci.SpecOpts`
pub data SpecOpt : Type 0 where
  with_default_spec with_no_new_privileges with_root_fs_readonly : SpecOpt
  with_memory_limit : ℕ → SpecOpt
  with_memory_swap with_pids_limit : ℤ → SpecOpt
  with_cpu_cfs : ℤ → ℕ → SpecOpt
  with_mounts : List Mount → SpecOpt
  with_env with_process_args : List Bytes → SpecOpt

abbrev pub mounts : List Mount
mounts =
    record {
      source = str "tmpfs";
      destination = str "/tmp";
      type = str "tmpfs";
      options = str "nosuid" ∷ str "nodev" ∷ str "mode=1777" ∷ [];
    }
    ∷ record {
      source = str "/tmp/runner/";
      destination = str "/workspace";
      type = str "bind";
      options = str "rbind" ∷ str "rw" ∷ [];
    }
    ∷ []

abbrev pub container_env : ℕ → List Bytes
container_env slot_id =
    str
      "PATH=/opt/java/openjdk/bin:/usr/local/go/bin:/usr/local/sbin:/usr/local/bin:/usr/sbin:/usr/bin:/sbin:/bin"
    ∷ (str "STREAM_SOCKET_PATH=/workspace/sockets/" ++ sprint slot_id ++ str ".sock")
    ∷ str "JAVA_HOME=/opt/java/openjdk"
    ∷ str "GOROOT=/usr/local/go"
    ∷ str "GOCACHE=/tmp/go-build"
    ∷ []

-- `uint64(memLimitMB * 1024 * 1024)`, of the environment variable; the error is dropped.
abbrev pub memory_bytes : Bytes → ℕ
memory_bytes limit = (parse_uint 64 limit).0 * 1024 * 1024 % 2 ^ 64

-- `build_ociSpecOpts`. `getenv` is the environment (empty where a variable is not set), and
-- `quota_of` what `ParseFloat`, the product with the period and the conversion to `int64` make of
-- a text.
module _ (getenv : Bytes → Bytes) (quota_of : Bytes → ℤ) (slot_id : ℕ) where
  -- The list, by `nnp` and `rroRootfs`.
  pub spec_opts : Bool → Bool → List SpecOpt
  spec_opts nnp rro_rootfs =
      (with_default_spec
        ∷ with_memory_limit (memory_bytes (getenv (str "MEMORY_LIMIT_MB")))
        ∷ with_memory_swap (int64 (memory_bytes (getenv (str "MEMORY_LIMIT_MB"))))
        ∷ with_pids_limit (parse_int 64 (getenv (str "PID_LIMIT"))).0
        ∷ with_cpu_cfs (quota_of (getenv (str "CPU_QUOTA"))) 100000
        ∷ with_mounts mounts
        ∷ with_env (container_env slot_id)
        ∷ [])
      ++ ((if nnp then with_no_new_privileges ∷ [] else [])
          ++ ((if rro_rootfs then with_root_fs_readonly ∷ [] else [])
              ++ with_process_args (str "/usr/bin/ajagent" ∷ []) ∷ []))

  unfoldable pub build_oci_spec_opts : List SpecOpt
  unfolding spec_opts
  build_oci_spec_opts =
      spec_opts (parse_bool (getenv (str "NO_NEW_PRIVILEGES")))
        (parse_bool (getenv (str "READONLY_ROOTFS")))
