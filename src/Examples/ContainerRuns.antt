-- ===== src/Examples/ContainerRuns.antt =====
-- runner: the OCI options of a container, and what its agent finds.
use alpine_judge.Common.{
  ◌≡◌, ◌≢◌, refl, ◌*◌, ◌^◌, some, [], ◌∷◌, ◌++◌, arith, All, Any, list_eq, nat_eq, ◌==◌,
  if◌then◌else◌,
}
use alpine_judge.Common.Text.{Bytes, str, has_prefix}
use alpine_judge.Common.Text.Decimal.{sprint}
use alpine_judge.Common.Text.Decimal.Parse.{ℤ, pos, parse_bool}
use alpine_judge.Shared.Specs.{JobSpec}
use alpine_judge.Agent.Session
use alpine_judge.Agent.Session.{Container}
use alpine_judge.Runner.Prepare.{host_test_dir, exec_rules, build_agent_exec_spec}
use alpine_judge.Runner.Orchestrate.{source_path}
use alpine_judge.Runner.WarmContainer.{socket_path}
use alpine_judge.Runner.Oci.{mounts, build_oci_spec_opts}
use alpine_judge.Runner.Oci.Mounts.{
  host_path, build_agent_exec_spec-host_path, build_agent_exec_spec_node,
}
use alpine_judge.Runner.Oci.Sockets.{mounted, socket_path-host_path}
use alpine_judge.Runner.Oci.Limits.{memory_limits, swap_limits, build_oci_spec_opts-limits}
use alpine_judge.Examples.AgentRuns.{container}

-- An environment that sets the memory of a container only.
abbrev getenv : Bytes → Bytes
getenv name = if name == str "MEMORY_LIMIT_MB" then sprint 512 else []

abbrev quota_of : Bytes → ℤ
quota_of text = pos 0

abbrev connected : Container
connected = record container {
  stream_socket_path = str "/workspace/sockets/" ++ sprint 7 ++ str ".sock";
}

socket_path-host_path_example :
    host_path (mounted (build_oci_spec_opts getenv quota_of 7)) (Session.socket_path connected)
    ≡ some (socket_path 7)
unfolding build_oci_spec_opts has_prefix parse_bool
socket_path-host_path_example = socket_path-host_path getenv quota_of 7 connected refl

abbrev java_job : JobSpec
java_job = record {
  language = str "java";
  source = str "class Main {}";
  submission_id = str "s1";
  bucket = str "b";
  testset = str "sum";
  per_test_memory_limit_mb = 64;
  per_test_timeout_sec = 2;
  per_test_log_limit_kb = 16;
}

build_agent_exec_spec-host_path_example :
    let spec = build_agent_exec_spec (exec_rules (str "c1") java_job) in
    Any (λ a. host_path mounts a ≡ some (source_path java_job)) (spec.compile_args ++ spec.run_args)
    × (host_path mounts spec.testset_path ≡ some (host_test_dir java_job))
build_agent_exec_spec-host_path_example = build_agent_exec_spec-host_path (str "c1") java_job refl

abbrev node_job : JobSpec
node_job = record java_job { language = str "node" }

build_agent_exec_spec_node_example :
    let spec = build_agent_exec_spec (exec_rules (str "c1") node_job) in
    All (λ a. host_path mounts a ≢ some (source_path node_job)) (spec.compile_args ++ spec.run_args)
build_agent_exec_spec_node_example = build_agent_exec_spec_node (str "c1") node_job refl

build_oci_spec_opts-limits_example :
    let opts = build_oci_spec_opts getenv quota_of 7 in
    (memory_limits opts ≡ 512 * 2 ^ 20 ∷ []) × (swap_limits opts ≡ pos (512 * 2 ^ 20) ∷ [])
build_oci_spec_opts-limits_example =
    build_oci_spec_opts-limits getenv quota_of 7 512 refl (omega arith)
