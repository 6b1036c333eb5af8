-- ===== src/Policy.antt =====
-- sandboxed_api/sandbox2/policy.cc: the filter that is installed for a policy.
pub mod Default
pub mod Final
pub mod Safety
pub mod Tracking
use googlectf2023_fastbox.Prelude.{
  ℕ, Bool, true, false, not, ◌&&◌, ◌||◌, List, [], ◌∷◌, ◌++◌, map, Option, none, some,
  if◌then◌else◌, ◌==◌,
}
use googlectf2023_fastbox.Linux.Syscalls.{nr_execveat, nr_seccomp, nr_ptrace, nr_bpf, nr_clone}
use googlectf2023_fastbox.Linux.Constants.{
  at_empty_path, clone_untraced, seccomp_filter_flag_new_listener, audit_arch_x86_64,
  audit_arch_i386,
}
use googlectf2023_fastbox.Bpf.{
  SockFilter, bpf_stmt, bpf_jump, jmp_jeq, ret_k, ret_kill, ret_user_notif, deny, kill, allow,
  trace, load_arch, load_syscall_nr, arg_32,
}
use googlectf2023_fastbox.Bpf.Labels.{
  Item, insn, jump, label, jeq32, jne32, ja32, assemble, no_labels, bpf_resolve_jumps,
}
use googlectf2023_fastbox.PolicyBuilder.Verify.{host_arch, sandbox2_trace}
use googlectf2023_fastbox.PolicyBuilder.Build.{Policy}

-- internal::kExecveMagic
abbrev pub execve_magic : ℕ
execve_magic = 0x921c_2c34

-- cpu::kUnknown and cpu::kX86; the host's is cpu::kX8664.
abbrev pub cpu_unknown : ℕ
cpu_unknown = 0xcaf0

abbrev pub cpu_x86 : ℕ
cpu_x86 = 0xcaf2

-- DO_USER_NOTIF
abbrev pub do_user_notif : SockFilter
do_user_notif = bpf_stmt ret_k ret_user_notif

abbrev pub notified_start : List Item
notified_start =
    insn load_arch ∷ jne32 audit_arch_x86_64 (insn deny)
    ++ insn load_syscall_nr ∷ jne32 nr_seccomp (jump "past_seccomp_l")
    ++ insn (arg_32 3) ∷ jne32 execve_magic (jump "past_seccomp_l")
    ++ insn allow
      ∷ label "past_seccomp_l"
      ∷ insn load_syscall_nr
      ∷ jne32 nr_execveat (jump "past_execveat_l")
    ++ insn (arg_32 4) ∷ jne32 at_empty_path (jump "past_execveat_l")
    ++ insn (arg_32 5) ∷ jne32 execve_magic (jump "past_execveat_l")
    ++ insn allow ∷ label "past_execveat_l" ∷ insn load_syscall_nr ∷ []

abbrev pub traced_start : List Item
traced_start =
    insn load_arch ∷ jeq32 audit_arch_x86_64 (jump "past_arch_check_l")
    ++ jeq32 audit_arch_i386 (insn (trace cpu_x86))
    ++ insn (trace cpu_unknown)
      ∷ label "past_arch_check_l"
      ∷ insn load_syscall_nr
      ∷ jne32 nr_execveat (jump "past_execveat_l")
    ++ insn (arg_32 4) ∷ jne32 at_empty_path (jump "past_execveat_l")
    ++ insn (arg_32 5) ∷ jne32 execve_magic (jump "past_execveat_l")
    ++ insn sandbox2_trace ∷ label "past_execveat_l" ∷ insn load_syscall_nr ∷ []

abbrev pub unless : Bool → List Item → List Item
unless true items = []
unless false items = items

abbrev pub dangerous_calls : List Item
dangerous_calls =
    jne32 nr_clone (jump "past_clone_untraced_l")
    ++ insn (arg_32 0) ∷ ja32 clone_untraced (insn deny)
    ++ label "past_clone_untraced_l"
      ∷ insn load_syscall_nr
      ∷ jne32 nr_seccomp (jump "past_seccomp_new_listener")
    ++ insn (arg_32 1) ∷ ja32 seccomp_filter_flag_new_listener (insn deny)
    ++ label "past_seccomp_new_listener" ∷ []

abbrev pub default_items : Bool → Bool → Bool → List Item
default_items user_notif handles_ptrace handles_bpf =
    (if user_notif then notified_start else traced_start)
    ++ (unless handles_ptrace (jeq32 nr_ptrace (insn deny))
        ++ (unless handles_bpf (jeq32 nr_bpf (insn deny)) ++ dangerous_calls))

-- GetDefaultPolicy. `none` is LOG(FATAL), or the exit of a call it makes.
unfoldable pub get_default_policy : Bool → Policy → Option (List SockFilter)
get_default_policy user_notif p =
    elim (assemble (default_items user_notif p.user_policy_handles_ptrace p.user_policy_handles_bpf)
      no_labels) [
        | none ↦ none
        | some (policy, l) ↦ elim (bpf_resolve_jumps l.labels policy) [
          | none ↦ none
          | some r ↦ if r.code == 0 then some r.filter else none
        ]
      ]

unfoldable pub get_tracking_policy : List SockFilter
get_tracking_policy =
    load_arch
    ∷ bpf_jump jmp_jeq audit_arch_x86_64 0 1
    ∷ trace host_arch
    ∷ bpf_jump jmp_jeq audit_arch_i386 0 1
    ∷ trace cpu_x86
    ∷ trace cpu_unknown
    ∷ []

-- The rewriting of every KILL for the unotify monitor.
unfoldable pub notify_kill : SockFilter → SockFilter
notify_kill filter =
    if (filter.code == ret_k) && (filter.k == ret_kill) then do_user_notif else filter

-- The two flags of the program, which are read when the filter is made.
pub record Flags : Type 0 where
  pub permit_all : Bool
  pub permit_all_and_log : Bool

unfoldable pub get_policy : Flags → Bool → Policy → Option (List SockFilter)
unfolding get_tracking_policy notify_kill
get_policy flags user_notif p =
    if flags.permit_all || flags.permit_all_and_log
    then some get_tracking_policy
    else elim (get_default_policy user_notif p) [
      | none ↦ none
      | some start ↦
          let policy = start ++ (load_syscall_nr ∷ []) ++ p.user_policy ++ (kill ∷ []) in
          some (if user_notif then map notify_kill policy else policy)
    ]
