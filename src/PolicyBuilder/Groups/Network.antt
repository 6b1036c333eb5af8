-- ===== src/PolicyBuilder/Groups/Network.antt =====
-- sandboxed_api/sandbox2/policybuilder.cc: the methods for the network proxy, and `TrapPtrace`.
pub mod Sound
use googlectf2023_fastbox.Prelude.{ℕ, true, List, [], ◌∷◌, ◌++◌, Option, none, some}
use googlectf2023_fastbox.Text.{Bytes}
use googlectf2023_fastbox.Status.{Status, ok_status, error, failed_precondition}
use googlectf2023_fastbox.Linux.Syscalls.{
  nr_recvmsg, nr_close, nr_gettid, nr_socket, nr_getsockopt, nr_rt_sigreturn, nr_rt_sigaction,
  nr_rt_sigprocmask, nr_connect, nr_ptrace,
}
use googlectf2023_fastbox.Linux.Constants.{
  futex_wait, futex_wake, futex_wait_bitset, af_inet, af_inet6, sol_socket, so_type, sigsys,
  sig_unblock,
}
use googlectf2023_fastbox.Bpf.{arg_32, allow, trap}
use googlectf2023_fastbox.Bpf.Labels.{Item, insn, jump, label, jeq32, jne32}
use googlectf2023_fastbox.NetworkProxy.Filtering
use googlectf2023_fastbox.NetworkProxy.Filtering.{AllowedHosts, NetLib, no_hosts}
use googlectf2023_fastbox.PolicyBuilder.State.{PolicyBuilder, Method, set_error, ◌▸◌}
use googlectf2023_fastbox.PolicyBuilder.Rules.{
  call, allow_if, allow_syscall, allow_syscalls, add_policy_on_syscall, add_func_on_syscall,
}
use googlectf2023_fastbox.PolicyBuilder.Groups.Files.{allow_dup}
use googlectf2023_fastbox.PolicyBuilder.Groups.Memory.{allow_futex_op}

abbrev pub getsockopt_type : List Item
getsockopt_type =
    insn (arg_32 1) ∷ jne32 sol_socket (jump "getsockopt_end")
    ++ insn (arg_32 2) ∷ jeq32 so_type (insn allow)
    ++ label "getsockopt_end" ∷ []

-- The rules of the proxy's client.
unfoldable pub proxy_rules : Method
proxy_rules =
    allow_futex_op futex_wake
    ▸ allow_futex_op futex_wait
    ▸ allow_futex_op futex_wait_bitset
    ▸ allow_dup
    ▸ call (allow_syscalls (nr_recvmsg ∷ nr_close ∷ nr_gettid ∷ []))
    ▸ call (add_policy_on_syscall nr_socket (arg_32 0 ∷ (allow_if af_inet ++ allow_if af_inet6)))
    ▸ add_func_on_syscall nr_getsockopt getsockopt_type

abbrev pub once : Option AllowedHosts → Method
once (some hosts) = call (set_error failed_precondition)
once none = call (λ b. record b { allowed_hosts = some no_hosts }) ▸ proxy_rules

unfoldable pub add_network_proxy_policy : Method
add_network_proxy_policy b = once b.allowed_hosts b

unfoldable pub add_network_proxy_handler_policy : Method
add_network_proxy_handler_policy =
    add_network_proxy_policy
    ▸ call (allow_syscall nr_rt_sigreturn)
    ▸ call (add_policy_on_syscall nr_rt_sigaction (arg_32 0 ∷ allow_if sigsys))
    ▸ call (add_policy_on_syscall nr_rt_sigprocmask (arg_32 0 ∷ allow_if sig_unblock))
    ▸ call (add_policy_on_syscall nr_connect (trap 0 ∷ []))

unfoldable pub trap_ptrace : Method
trap_ptrace =
    call (add_policy_on_syscall nr_ptrace (trap 0 ∷ []))
    ▸ call (λ b. record b { user_policy_handles_ptrace = true })

abbrev pub with_hosts : PolicyBuilder → AllowedHosts × Status → PolicyBuilder
with_hosts b (hosts, ok_status) = record b { allowed_hosts = some hosts }
with_hosts b (hosts, error code) = set_error code (record b { allowed_hosts = some hosts })

abbrev pub on_hosts :
    (AllowedHosts → AllowedHosts × Status) → Option AllowedHosts → PolicyBuilder → PolicyBuilder
on_hosts f none b = set_error failed_precondition b
on_hosts f (some hosts) b = with_hosts b (f hosts)

unfoldable pub allow_ipv4 : NetLib → Bytes → ℕ → Method
allow_ipv4 lib ip_and_mask port =
    call (λ b. on_hosts (Filtering.allow_ipv4 lib ip_and_mask port) b.allowed_hosts b)

unfoldable pub allow_ipv6 : NetLib → Bytes → ℕ → Method
allow_ipv6 lib ip_and_mask port =
    call (λ b. on_hosts (Filtering.allow_ipv6 lib ip_and_mask port) b.allowed_hosts b)
