-- ===== src/PolicyBuilder/Groups/Memory.antt =====
-- sandboxed_api/sandbox2/policybuilder.cc: the methods that allow what memory allocators call.
pub mod Sound
use googlectf2023_fastbox.Prelude.{
  ℕ, ◌+◌, ◌-◌, bit_and, Bool, true, false, List, [], ◌∷◌, ◌++◌, if◌then◌else◌,
}
use googlectf2023_fastbox.Text.{codes}
use googlectf2023_fastbox.Linux.Syscalls.{
  nr_munmap, nr_nanosleep, nr_brk, nr_mincore, nr_membarrier, nr_mprotect, nr_mremap, nr_madvise,
  nr_futex, nr_ioctl, nr_sched_getaffinity, nr_sched_setaffinity, nr_readlink, nr_readlinkat,
  nr_sigaltstack, nr_rseq, nr_getcpu, nr_rt_sigprocmask,
}
use googlectf2023_fastbox.Linux.Constants.{
  futex_wait, futex_wake, futex_cmd_mask, prot_none, prot_read, prot_write, map_private,
  map_anonymous, map_fixed, map_noreserve, mremap_maymove, madv_dontdump, madv_nohugepage,
  sig_setmask, eperm, enoent,
}
use googlectf2023_fastbox.Bpf.{SockFilter, arg_32, allow, bpf_stmt, alu_and}
use googlectf2023_fastbox.Bpf.Labels.{Item, insn, jump, label, jeq32, jne32}
use googlectf2023_fastbox.PolicyBuilder.State.{PolicyBuilder, Method, ◌▸◌, return_this}
use googlectf2023_fastbox.PolicyBuilder.Rules.{
  call, allow_if, allow_syscall, allow_syscalls, mmap_syscalls, add_policy_on_syscall,
  add_func_on_mmap, overridable_block_syscall_with_errno,
}
use googlectf2023_fastbox.PolicyBuilder.FileMounts.{FileSystem, add_file, add_directory}
use googlectf2023_fastbox.PolicyBuilder.Groups.Process.{
  allow_time, allow_limited_madvise, allow_get_random, allow_wipe_on_fork, allow_get_pids,
}

unfoldable pub allow_mmap : Method
allow_mmap = call (allow_syscalls mmap_syscalls)

unfoldable pub allow_futex_op : ℕ → Method
allow_futex_op op = call (
    add_policy_on_syscall nr_futex
      (arg_32 1 ∷ bpf_stmt alu_and futex_cmd_mask ∷ allow_if (bit_and op futex_cmd_mask)))

-- CpuFenceMode
pub data CpuFenceMode : Type 0 where
  require_fast_fences allow_slow_fences : CpuFenceMode

abbrev if_slow : CpuFenceMode → Method → Method
if_slow require_fast_fences m = return_this
if_slow allow_slow_fences m = m

abbrev pub rseq_mmap : List Item
rseq_mmap =
    insn (arg_32 2) ∷ jne32 (prot_read + prot_write) (jump "mmap_end")
    ++ insn (arg_32 3) ∷ jne32 (map_private + map_anonymous) (jump "mmap_end")
    ++ insn allow ∷ label "mmap_end" ∷ []

unfoldable pub allow_restartable_sequences : CpuFenceMode → Method
allow_restartable_sequences cpu_fence_mode =
    call (allow_syscall nr_rseq)
    ▸ add_func_on_mmap rseq_mmap
    ▸ call (allow_syscall nr_getcpu)
    ▸ call (allow_syscall nr_membarrier)
    ▸ allow_futex_op futex_wait
    ▸ allow_futex_op futex_wake
    ▸ call (add_policy_on_syscall nr_rt_sigprocmask (arg_32 0 ∷ allow_if sig_setmask))
    ▸ if_slow cpu_fence_mode
        (call (allow_syscall nr_sched_getaffinity) ▸ call (allow_syscall nr_sched_setaffinity))

unfoldable pub allow_restartable_sequences_with_proc_files : FileSystem → CpuFenceMode → Method
allow_restartable_sequences_with_proc_files fs cpu_fence_mode =
    allow_restartable_sequences cpu_fence_mode
    ▸ add_file fs (codes "/proc/cpuinfo") true
    ▸ add_file fs (codes "/proc/stat") true
    ▸ add_directory fs (codes "/sys/devices/system/cpu") true
    ▸ if_slow cpu_fence_mode (add_file fs (codes "/proc/self/cpuset") true)

abbrev pub scudo_mmap : List Item
scudo_mmap =
    insn (arg_32 2) ∷ jeq32 prot_none (jump "prot_none")
    ++ jne32 (prot_read + prot_write) (jump "mmap_end")
    ++ insn (arg_32 3)
      ∷ insn (bpf_stmt alu_and (0xffff_ffff - (map_fixed + map_noreserve)))
      ∷ jeq32 (map_private + map_anonymous) (insn allow)
    ++ jump "mmap_end"
      ∷ label "prot_none"
      ∷ insn (arg_32 3)
      ∷ jeq32 (map_anonymous + map_private + map_noreserve) (insn allow)
    ++ label "mmap_end" ∷ []

unfoldable pub allow_scudo_malloc : Method
allow_scudo_malloc =
    allow_time
    ▸ call (allow_syscalls (nr_munmap ∷ nr_nanosleep ∷ []))
    ▸ allow_futex_op futex_wake
    ▸ allow_limited_madvise
    ▸ allow_get_random
    ▸ allow_wipe_on_fork
    ▸ add_func_on_mmap scudo_mmap

abbrev pub tc_mmap : List Item
tc_mmap =
    insn (arg_32 2) ∷ jeq32 prot_none (jump "prot_none")
    ++ jne32 (prot_read + prot_write) (jump "mmap_end")
    ++ insn (arg_32 3) ∷ jne32 (map_anonymous + map_private) (jump "mmap_end")
    ++ insn allow
      ∷ label "prot_none"
      ∷ insn (arg_32 3)
      ∷ jeq32 (map_anonymous + map_private + map_noreserve) (insn allow)
    ++ jeq32 (map_anonymous + map_private) (insn allow)
    ++ label "mmap_end" ∷ []

unfoldable pub allow_tc_malloc : Method
allow_tc_malloc =
    allow_time
    ▸ allow_restartable_sequences require_fast_fences
    ▸ call (allow_syscalls (nr_munmap ∷ nr_nanosleep ∷ nr_brk ∷ nr_mincore ∷ nr_membarrier ∷ []))
    ▸ allow_limited_madvise
    ▸ call (
        add_policy_on_syscall nr_mprotect
          (arg_32 2 ∷ (allow_if (prot_read + prot_write) ++ allow_if prot_none)))
    ▸ add_func_on_mmap tc_mmap

abbrev pub system_mmap : List Item
system_mmap =
    insn (arg_32 2) ∷ jeq32 prot_none (jump "prot_none")
    ++ jne32 (prot_read + prot_write) (jump "mmap_end")
    ++ insn (arg_32 3) ∷ jeq32 (map_anonymous + map_private) (insn allow)
    ++ label "prot_none"
      ∷ insn (arg_32 3)
      ∷ jeq32 (map_anonymous + map_private + map_noreserve) (insn allow)
    ++ label "mmap_end" ∷ []

unfoldable pub allow_system_malloc : Method
allow_system_malloc =
    call (allow_syscalls (nr_munmap ∷ nr_brk ∷ []))
    ▸ allow_futex_op futex_wake
    ▸ call (add_policy_on_syscall nr_mremap (arg_32 3 ∷ allow_if mremap_maymove))
    ▸ add_func_on_mmap system_mmap

-- Which sanitizers the build has.
pub record Sanitizers : Type 0 where
  pub any : Bool
  pub asan : Bool

abbrev pub when : Bool → Method → Method
when true m = m
when false m = return_this

unfoldable pub allow_llvm_sanitizers : Sanitizers → FileSystem → Method
allow_llvm_sanitizers build fs =
    when build.any (
      allow_mmap
      ▸ call (allow_syscall nr_munmap)
      ▸ call (
          add_policy_on_syscall nr_mprotect (
            arg_32 2
            ∷ bpf_stmt alu_and (0xffff_ffff - (prot_read + prot_write))
            ∷ allow_if prot_none))
      ▸ call (
          add_policy_on_syscall nr_madvise
            (arg_32 2 ∷ (allow_if madv_dontdump ++ allow_if madv_nohugepage)))
      ▸ add_directory fs (codes "/proc") true
      ▸ allow_get_pids
      ▸ call (overridable_block_syscall_with_errno nr_ioctl eperm)
      ▸ call (overridable_block_syscall_with_errno nr_sched_getaffinity eperm)
      ▸ call (overridable_block_syscall_with_errno nr_readlink enoent)
      ▸ call (overridable_block_syscall_with_errno nr_readlinkat enoent))
    ▸ when build.asan (call (allow_syscall nr_sigaltstack))
