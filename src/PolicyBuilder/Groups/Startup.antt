-- ===== src/PolicyBuilder/Groups/Startup.antt =====
-- sandboxed_api/sandbox2/policybuilder.cc: the methods that allow what a program calls when it
-- starts, and what logging calls. The part for Android is not of the build that is modelled.
pub mod Sound
use googlectf2023_fastbox.Prelude.{ℕ, ◌+◌, List, [], ◌∷◌, ◌++◌}
use googlectf2023_fastbox.Linux.Syscalls.{
  nr_uname, nr_brk, nr_set_tid_address, nr_set_robust_list, nr_rt_sigaction, nr_rt_sigprocmask,
  nr_arch_prctl, nr_readlink, nr_mprotect, nr_lseek, nr_close, nr_munmap, nr_clock_gettime,
  nr_gettid, nr_prlimit64, nr_kill,
}
use googlectf2023_fastbox.Linux.Constants.{
  futex_wait_bitset, sigrtmin, arch_set_fs, enoent, prot_none, prot_read, prot_write, prot_exec,
  map_file, map_private, map_fixed, map_denywrite, map_anonymous, sig_block, sigabrt,
}
use googlectf2023_fastbox.Bpf.{arg_32, allow}
use googlectf2023_fastbox.Bpf.Labels.{Item, insn, jump, label, jeq32, jne32}
use googlectf2023_fastbox.PolicyBuilder.State.{Method, ◌▸◌}
use googlectf2023_fastbox.PolicyBuilder.Rules.{
  call, allow_if, allow_syscall, allow_syscalls, add_policy_on_syscall, add_func_on_syscall,
  add_func_on_mmap, overridable_block_syscall_with_errno,
}
use googlectf2023_fastbox.PolicyBuilder.Groups.Files.{allow_read, allow_write, allow_stat}
use googlectf2023_fastbox.PolicyBuilder.Groups.Process.{allow_get_rlimit, allow_get_pids}
use googlectf2023_fastbox.PolicyBuilder.Groups.Memory.{
  allow_futex_op, allow_system_malloc, allow_tc_malloc,
}

unfoldable pub allow_static_startup : Method
allow_static_startup =
    allow_get_rlimit
    ▸ call (allow_syscalls (nr_uname ∷ nr_brk ∷ nr_set_tid_address ∷ nr_set_robust_list ∷ []))
    ▸ allow_futex_op futex_wait_bitset
    ▸ call (
        add_policy_on_syscall nr_rt_sigaction
          (arg_32 0 ∷ (allow_if (sigrtmin + 0) ++ allow_if (sigrtmin + 1))))
    ▸ call (allow_syscall nr_rt_sigprocmask)
    ▸ call (add_policy_on_syscall nr_arch_prctl (arg_32 0 ∷ allow_if arch_set_fs))
    ▸ call (overridable_block_syscall_with_errno nr_readlink enoent)
    ▸ call (add_policy_on_syscall nr_mprotect (arg_32 2 ∷ allow_if prot_read))

abbrev pub dynamic_mmap : List Item
dynamic_mmap =
    insn (arg_32 2) ∷ jeq32 (prot_read + prot_exec) (jump "prot_exec")
    ++ jeq32 (prot_read + prot_write) (jump "prot_read_write")
    ++ jne32 prot_read (jump "mmap_end")
    ++ insn (arg_32 3) ∷ jeq32 map_private (insn allow)
    ++ jump "mmap_end"
      ∷ label "prot_read_write"
      ∷ insn (arg_32 3)
      ∷ jeq32 (map_file + map_private + map_fixed + map_denywrite) (insn allow)
    ++ jeq32 (map_anonymous + map_private + map_fixed) (insn allow)
    ++ jeq32 (map_anonymous + map_private) (insn allow)
    ++ jump "mmap_end"
      ∷ label "prot_exec"
      ∷ insn (arg_32 3)
      ∷ jeq32 (map_file + map_private + map_denywrite) (insn allow)
    ++ label "mmap_end" ∷ []

unfoldable pub allow_dynamic_startup : Method
allow_dynamic_startup =
    allow_read
    ▸ allow_stat
    ▸ call (allow_syscalls (nr_lseek ∷ nr_close ∷ nr_munmap ∷ []))
    ▸ call (
        add_policy_on_syscall nr_mprotect (
          arg_32 2
          ∷ (allow_if prot_read
              ++ allow_if prot_none
              ++ allow_if (prot_read + prot_write)
              ++ allow_if (prot_read + prot_exec))))
    ▸ allow_static_startup
    ▸ add_func_on_mmap dynamic_mmap

abbrev pub abort_kill : List Item
abort_kill =
    insn (arg_32 0) ∷ jne32 0 (jump "pid_not_null")
    ++ insn (arg_32 1) ∷ jeq32 sigabrt (insn allow)
    ++ label "pid_not_null" ∷ []

unfoldable pub allow_log_forwarding : Method
allow_log_forwarding =
    allow_write
    ▸ allow_system_malloc
    ▸ allow_tc_malloc
    ▸ allow_get_pids
    ▸ call (allow_syscalls (nr_clock_gettime ∷ nr_gettid ∷ nr_close ∷ []))
    ▸ call (add_policy_on_syscall nr_rt_sigprocmask (arg_32 0 ∷ allow_if sig_block))
    ▸ call (allow_syscall nr_prlimit64)
    ▸ add_func_on_syscall nr_kill abort_kill
