-- ===== src/Policy/Default/Code.antt =====
-- The default policy of sandboxed_api/sandbox2/policy.cc with its jumps resolved, piece by piece.
use googlectf2023_fastbox.Prelude.{ℕ, ◌≡◌, refl, Bool, true, false, List, [], ◌∷◌, ◌++◌, some}
use googlectf2023_fastbox.Linux.Syscalls.{nr_execveat, nr_seccomp, nr_ptrace, nr_bpf, nr_clone}
use googlectf2023_fastbox.Linux.Constants.{
  at_empty_path, clone_untraced, seccomp_filter_flag_new_listener, audit_arch_x86_64,
  audit_arch_i386,
}
use googlectf2023_fastbox.Bpf.{
  SockFilter, bpf_jump, jmp_ja, jmp_jeq, jmp_jset, deny, allow, trace, load_arch, load_syscall_nr,
  arg_32,
}
use googlectf2023_fastbox.Bpf.Labels.{
  assemble, seccomp_bpf_label, bpf_resolve_jumps, resolve, resolve_one, resolve_jump, place_label,
}
use googlectf2023_fastbox.PolicyBuilder.Verify.{sandbox2_trace}
use googlectf2023_fastbox.PolicyBuilder.Build.{Policy}
use googlectf2023_fastbox.Policy.{execve_magic, cpu_unknown, cpu_x86, get_default_policy}

-- The pieces of the default policy, with its jumps resolved.
abbrev pub traced_arch : List SockFilter
traced_arch =
    load_arch
    ∷ bpf_jump jmp_jeq audit_arch_x86_64 0 1
    ∷ bpf_jump jmp_ja 3 0 0
    ∷ bpf_jump jmp_jeq audit_arch_i386 0 1
    ∷ trace cpu_x86
    ∷ trace cpu_unknown
    ∷ bpf_jump jmp_ja 0 0 0
    ∷ load_syscall_nr
    ∷ []

abbrev pub denied_unless : Bool → ℕ → List SockFilter
denied_unless true num = []
denied_unless false num = bpf_jump jmp_jeq num 0 1 ∷ deny ∷ []

abbrev pub clone_check : List SockFilter
clone_check =
    bpf_jump jmp_jeq nr_clone 1 0
    ∷ bpf_jump jmp_ja 3 0 0
    ∷ arg_32 0
    ∷ bpf_jump jmp_jset clone_untraced 0 1
    ∷ deny
    ∷ bpf_jump jmp_ja 0 0 0
    ∷ load_syscall_nr
    ∷ []

-- The last piece leaves argument 1 in the accumulator, so it is no fragment before the number of
-- the call is loaded again.
abbrev pub seccomp_check : List SockFilter
seccomp_check =
    bpf_jump jmp_jeq nr_seccomp 1 0
    ∷ bpf_jump jmp_ja 3 0 0
    ∷ arg_32 1
    ∷ bpf_jump jmp_jset seccomp_filter_flag_new_listener 0 1
    ∷ deny
    ∷ bpf_jump jmp_ja 0 0 0
    ∷ []

abbrev pub notified_start_code : List SockFilter
notified_start_code =
    load_arch ∷ bpf_jump jmp_jeq audit_arch_x86_64 1 0 ∷ deny ∷ load_syscall_nr ∷ []

abbrev pub notified_seccomp : List SockFilter
notified_seccomp =
    bpf_jump jmp_jeq nr_seccomp 1 0
    ∷ bpf_jump jmp_ja 4 0 0
    ∷ arg_32 3
    ∷ bpf_jump jmp_jeq execve_magic 1 0
    ∷ bpf_jump jmp_ja 1 0 0
    ∷ allow
    ∷ bpf_jump jmp_ja 0 0 0
    ∷ load_syscall_nr
    ∷ []

abbrev pub execveat_check : SockFilter → List SockFilter
execveat_check i =
    bpf_jump jmp_jeq nr_execveat 1 0
    ∷ bpf_jump jmp_ja 7 0 0
    ∷ arg_32 4
    ∷ bpf_jump jmp_jeq at_empty_path 1 0
    ∷ bpf_jump jmp_ja 4 0 0
    ∷ arg_32 5
    ∷ bpf_jump jmp_jeq execve_magic 1 0
    ∷ bpf_jump jmp_ja 1 0 0
    ∷ i
    ∷ bpf_jump jmp_ja 0 0 0
    ∷ load_syscall_nr
    ∷ []

abbrev pub start_code : Bool → List SockFilter
start_code true = notified_start_code ++ (notified_seccomp ++ execveat_check allow)
start_code false = traced_arch ++ execveat_check sandbox2_trace

abbrev pub dangerous_code : Bool → Bool → List SockFilter
dangerous_code handles_ptrace handles_bpf =
    denied_unless handles_ptrace nr_ptrace
    ++ (denied_unless handles_bpf nr_bpf ++ (clone_check ++ seccomp_check))

-- The list that the labels resolve to.
pub default_code-resolved :
    (user_notif : Bool) (p : Policy)
    → get_default_policy user_notif p
      ≡ some (
          start_code user_notif
          ++ dangerous_code p.user_policy_handles_ptrace p.user_policy_handles_bpf)
unfolding get_default_policy assemble seccomp_bpf_label bpf_resolve_jumps resolve resolve_one
    resolve_jump place_label
default_code-resolved user_notif p =
    by_flags user_notif p.user_policy_handles_ptrace p.user_policy_handles_bpf
  where
    by_flags :
        (u t b : Bool)
        → get_default_policy u
            (record p { user_policy_handles_ptrace = t; user_policy_handles_bpf = b })
          ≡ some (start_code u ++ dangerous_code t b)
    by_flags true true true = refl
    by_flags true true false = refl
    by_flags true false true = refl
    by_flags true false false = refl
    by_flags false true true = refl
    by_flags false true false = refl
    by_flags false false true = refl
    by_flags false false false = refl
