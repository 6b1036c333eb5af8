-- ===== src/PolicyBuilder/Build.antt =====
-- sandboxed_api/sandbox2/policybuilder.cc: `TryBuild` and, in the header, `BuildOrDie`, with the
-- fields of `Policy` (policy.h) and of `Namespace` (namespace.h) that they fill.
pub mod Once
use googlectf2023_fastbox.Prelude.{
  ℕ, Bool, true, false, not, ◌&&◌, List, [], ◌∷◌, ◌++◌, Option, none, some, ltb, if◌then◌else◌,
  length,
}
use googlectf2023_fastbox.Text.{Bytes, bytes_eq}
use googlectf2023_fastbox.Status.{
  Status, ok_status, error, failed_precondition, StatusOr, value, status,
}
use googlectf2023_fastbox.Mounts.{Mounts}
use googlectf2023_fastbox.NetworkProxy.Filtering.{AllowedHosts}
use googlectf2023_fastbox.Bpf.{SockFilter}
use googlectf2023_fastbox.PolicyBuilder.State.{PolicyBuilder, default_hostname}

pub record Namespace : Type 0 where
  pub allow_unrestricted_networking : Bool
  pub mounts : Mounts
  pub hostname : Bytes
  pub allow_mount_propagation : Bool

pub record Policy : Type 0 where
  pub namespace : Option Namespace
  -- the description of the builder: its handled calls, a set
  pub policy_builder_description : List ℕ
  pub collect_stacktrace_on_violation : Bool
  pub collect_stacktrace_on_signal : Bool
  pub collect_stacktrace_on_timeout : Bool
  pub collect_stacktrace_on_kill : Bool
  pub collect_stacktrace_on_exit : Bool
  pub user_policy : List SockFilter
  pub user_policy_handles_bpf : Bool
  pub user_policy_handles_ptrace : Bool
  pub allowed_hosts : Option AllowedHosts

-- What `std::move` leaves in an object of the standard library or of protobuf: valid, and
-- unspecified.
pub record MovedFrom : Type 0 where
  pub mounts : Mounts → Mounts
  pub user_policy : List SockFilter → List SockFilter
  pub allowed_hosts : Option AllowedHosts → Option AllowedHosts

-- kMaxUserPolicyLength
abbrev pub max_user_policy_length : ℕ
max_user_policy_length = 30000

abbrev pub pushed : Option SockFilter → List SockFilter
pushed none = []
pushed (some i) = i ∷ []

abbrev pub built_policy : PolicyBuilder → Policy
built_policy b = record {
  namespace =
      if b.use_namespaces
      then some (record {
        allow_unrestricted_networking = b.allow_unrestricted_networking;
        mounts = b.mounts;
        hostname = b.hostname;
        allow_mount_propagation = b.allow_mount_propagation;
      })
      else none;
  policy_builder_description = b.handled_syscalls;
  collect_stacktrace_on_violation = b.collect_stacktrace_on_violation;
  collect_stacktrace_on_signal = b.collect_stacktrace_on_signal;
  collect_stacktrace_on_timeout = b.collect_stacktrace_on_timeout;
  collect_stacktrace_on_kill = b.collect_stacktrace_on_kill;
  collect_stacktrace_on_exit = b.collect_stacktrace_on_exit;
  user_policy = b.user_policy ++ (pushed b.default_action ++ b.overridable_policy);
  user_policy_handles_bpf = b.user_policy_handles_bpf;
  user_policy_handles_ptrace = b.user_policy_handles_ptrace;
  allowed_hosts = b.allowed_hosts;
}

-- The builder once its members are moved out. The mounts are moved with the namespace only.
abbrev pub left_behind : MovedFrom → PolicyBuilder → PolicyBuilder
left_behind moved b = record b {
  mounts = if b.use_namespaces then moved.mounts b.mounts else b.mounts;
  user_policy = moved.user_policy b.user_policy;
  allowed_hosts = moved.allowed_hosts b.allowed_hosts;
  already_built = true;
}

abbrev pub unless_error :
    Status → PolicyBuilder → StatusOr Policy × PolicyBuilder → StatusOr Policy × PolicyBuilder
unless_error (error code) b rest = (status code, b)
unless_error ok_status b rest = rest

unfoldable pub try_build : MovedFrom → PolicyBuilder → StatusOr Policy × PolicyBuilder
try_build moved b =
    if ltb max_user_policy_length (length b.user_policy)
    then (status failed_precondition, b)
    else unless_error b.last_status b (
        if b.already_built
        then (status failed_precondition, b)
        else if b.use_namespaces
            && (b.allow_unrestricted_networking && not (bytes_eq b.hostname default_hostname))
        then (status failed_precondition, b)
        else (value (built_policy b), left_behind moved b))

-- `none` is a CHECK that fails.
unfoldable pub build_or_die : MovedFrom → PolicyBuilder → Option (Policy × PolicyBuilder)
unfolding try_build
build_or_die moved b =
    let (result, b') = try_build moved b in
    elim result [ value policy ↦ some (policy, b') | status code ↦ none ]
