-- ===== src/Policy/Default.antt =====
-- What the default policy of sandboxed_api/sandbox2/policy.cc decides, read off the words of a call:
-- the independent description of `GetDefaultPolicy`.
pub mod Code
pub mod Pieces
use googlectf2023_fastbox.Prelude.{
  ℕ, ◌+◌, ◌≡◌, refl, ◌∙◌, bit_and, Bool, true, false, not, ◌&&◌, List, [], ◌∷◌, ◌++◌, Option, none,
  some, if◌then◌else◌, ◌==◌, arith,
}
use googlectf2023_fastbox.Linux.Syscalls.{nr_execveat, nr_seccomp, nr_ptrace, nr_bpf, nr_clone}
use googlectf2023_fastbox.Linux.Constants.{
  at_empty_path, clone_untraced, seccomp_filter_flag_new_listener, audit_arch_x86_64,
  audit_arch_i386,
}
use googlectf2023_fastbox.Bpf.{
  SockFilter, bpf_stmt, bpf_jump, jmp_ja, jmp_jeq, jmp_jset, ret_k, ret_kill, deny, allow,
  ret_allow, ret_trace, trace, load_arch, load_syscall_nr, arg_32, lo_arg, nr_offset, arch_offset,
}
use googlectf2023_fastbox.Bpf.Exec.{Words, exec, effect, returned, fell, Outcome}
use googlectf2023_fastbox.Bpf.Labels.{
  assemble, seccomp_bpf_label, no_labels, bpf_resolve_jumps, resolve, resolve_one, resolve_jump,
  place_label,
}
use googlectf2023_fastbox.Bpf.Verdict.{
  Settles, decided, passed, IsFragment, IsFragment-append, IsFragment-nil, verdict_of,
  verdict-append, ◌or_else◌,
}
use googlectf2023_fastbox.PolicyBuilder.Verify.{sandbox2_trace}
use googlectf2023_fastbox.PolicyBuilder.Build.{Policy}
use googlectf2023_fastbox.Policy.{
  execve_magic, cpu_unknown, cpu_x86, get_default_policy, default_items,
}

-- What each piece decides.
abbrev pub arch_verdict : Bool → Words → Option ℕ
arch_verdict true d = if d arch_offset == audit_arch_x86_64 then none else some ret_kill
arch_verdict false d =
    if d arch_offset == audit_arch_x86_64
    then none
    else if d arch_offset == audit_arch_i386
    then some (ret_trace + cpu_x86)
    else some (ret_trace + cpu_unknown)

-- The sandboxee's seccomp call that announces its listener.
abbrev pub is_listener : Words → Bool
is_listener d = (d nr_offset == nr_seccomp) && (d (lo_arg 3) == execve_magic)

-- The forkserver's execveat call that starts the sandboxee.
abbrev pub is_first_execveat : Words → Bool
is_first_execveat d =
    (d nr_offset == nr_execveat)
    && ((d (lo_arg 4) == at_empty_path) && (d (lo_arg 5) == execve_magic))

abbrev pub is_untraced_clone : Words → Bool
is_untraced_clone d = (d nr_offset == nr_clone) && not (bit_and (d (lo_arg 0)) clone_untraced == 0)

abbrev pub is_new_listener : Words → Bool
is_new_listener d =
    (d nr_offset == nr_seccomp)
    && not (bit_and (d (lo_arg 1)) seccomp_filter_flag_new_listener == 0)

-- Where the call comes from another architecture, or is one of the calls by which the sandbox
-- starts.
abbrev pub start_verdict : Bool → Words → Option ℕ
start_verdict true d =
    arch_verdict true d
    or_else ((if is_listener d then some ret_allow else none)
        or_else (if is_first_execveat d then some ret_allow else none))
start_verdict false d =
    arch_verdict false d or_else (if is_first_execveat d then some sandbox2_trace.k else none)

-- Call `num`, unless the user's policy handles it.
abbrev pub unless_handled : Bool → ℕ → Words → Option ℕ
unless_handled handled num d = if not handled && (d nr_offset == num) then some ret_kill else none

abbrev pub dangerous_verdict : Bool → Bool → Words → Option ℕ
dangerous_verdict handles_ptrace handles_bpf d =
    unless_handled handles_ptrace nr_ptrace d
    or_else (unless_handled handles_bpf nr_bpf d
        or_else ((if is_untraced_clone d then some ret_kill else none)
            or_else (if is_new_listener d then some ret_kill else none)))

abbrev pub default_verdict : Bool → Bool → Bool → Words → Option ℕ
default_verdict user_notif handles_ptrace handles_bpf d =
    start_verdict user_notif d or_else dangerous_verdict handles_ptrace handles_bpf d
