-- ===== src/PolicyBuilder/State.antt =====
-- sandboxed_api/sandbox2/policybuilder.{h,cc}: the fields of `PolicyBuilder`, and the operations
-- that only set one.
use googlectf2023_fastbox.Prelude.{
  ℕ, Bool, true, false, not, List, [], Option, none, some, if◌then◌else◌,
}
use googlectf2023_fastbox.Text.{Bytes, codes}
use googlectf2023_fastbox.Status.{Status, ok_status, error, StatusCode}
use googlectf2023_fastbox.Mounts.{Mounts, new_mounts}
use googlectf2023_fastbox.NetworkProxy.Filtering.{AllowedHosts}
use googlectf2023_fastbox.Bpf.{SockFilter, allow}

pub record PolicyBuilder : Type 0 where
  pub mounts : Mounts
  pub use_namespaces : Bool
  pub requires_namespaces : Bool
  pub allow_unrestricted_networking : Bool
  pub allow_mount_propagation : Bool
  pub hostname : Bytes
  pub collect_stacktrace_on_violation : Bool
  pub collect_stacktrace_on_signal : Bool
  pub collect_stacktrace_on_timeout : Bool
  pub collect_stacktrace_on_kill : Bool
  pub collect_stacktrace_on_exit : Bool
  pub user_policy : List SockFilter
  pub overridable_policy : List SockFilter
  pub default_action : Option SockFilter
  pub user_policy_handles_bpf : Bool
  pub user_policy_handles_ptrace : Bool
  -- the set, with its numbers in the order of their insertion
  pub handled_syscalls : List ℕ
  pub last_status : Status
  pub already_built : Bool
  pub allowed_hosts : Option AllowedHosts

-- kDefaultHostname
abbrev pub default_hostname : Bytes
default_hostname = codes "sandbox2"

abbrev pub new_builder : PolicyBuilder
new_builder = record {
  mounts = new_mounts;
  use_namespaces = true;
  requires_namespaces = false;
  allow_unrestricted_networking = false;
  allow_mount_propagation = false;
  hostname = default_hostname;
  collect_stacktrace_on_violation = true;
  collect_stacktrace_on_signal = true;
  collect_stacktrace_on_timeout = true;
  collect_stacktrace_on_kill = false;
  collect_stacktrace_on_exit = false;
  user_policy = [];
  overridable_policy = [];
  default_action = none;
  user_policy_handles_bpf = false;
  user_policy_handles_ptrace = false;
  handled_syscalls = [];
  last_status = ok_status;
  already_built = false;
  allowed_hosts = none;
}

-- A call of a method. `none` is a failed CHECK or an exit, which ends the process.
abbrev pub Method : Type 0
Method = PolicyBuilder → Option PolicyBuilder

-- One method after another.
infixr 20 ◌▸◌
abbrev pub ◌▸◌ : Method → Method → Method
◌▸◌ f g b = elim (f b) [ none ↦ none | some b' ↦ g b' ]

abbrev pub return_this : Method
return_this b = some b

unfoldable pub set_error : StatusCode → PolicyBuilder → PolicyBuilder
set_error code b = record b { last_status = error code }

unfoldable pub enable_namespaces : Method
enable_namespaces b =
    if b.use_namespaces then some (record b { requires_namespaces = true }) else none

unfoldable pub disable_namespaces : Method
disable_namespaces b =
    if not b.requires_namespaces then some (record b { use_namespaces = false }) else none

-- Allow(UnrestrictedNetworking)
unfoldable pub allow_unrestricted : Method
unfolding enable_namespaces
allow_unrestricted =
    enable_namespaces ▸ (λ b. some (record b { allow_unrestricted_networking = true }))

unfoldable pub set_hostname : Bytes → Method
unfolding enable_namespaces
set_hostname hostname = enable_namespaces ▸ (λ b. some (record b { hostname = hostname }))

unfoldable pub danger_allow_mount_propagation : Method
danger_allow_mount_propagation b = some (record b { allow_mount_propagation = true })

unfoldable pub collect_stacktraces_on_violation : Bool → Method
collect_stacktraces_on_violation enable b =
    some (record b { collect_stacktrace_on_violation = enable })

unfoldable pub collect_stacktraces_on_signal : Bool → Method
collect_stacktraces_on_signal enable b = some (record b { collect_stacktrace_on_signal = enable })

unfoldable pub collect_stacktraces_on_timeout : Bool → Method
collect_stacktraces_on_timeout enable b = some (record b { collect_stacktrace_on_timeout = enable })

unfoldable pub collect_stacktraces_on_kill : Bool → Method
collect_stacktraces_on_kill enable b = some (record b { collect_stacktrace_on_kill = enable })

unfoldable pub collect_stacktraces_on_exit : Bool → Method
collect_stacktraces_on_exit enable b = some (record b { collect_stacktrace_on_exit = enable })

-- DefaultAction(AllowAllSyscalls) and DangerDefaultAllowAll
unfoldable pub default_action_allow_all : Method
default_action_allow_all b = some (record b { default_action = some allow })
