-- ===== src/PolicyBuilder/Groups/Memory/Sound.antt =====
-- The methods of sandboxed_api/sandbox2/policybuilder.cc for memory allocators keep a builder sound.
use googlectf2023_fastbox.Prelude.{ℕ, Bool, true, false, refl}
use googlectf2023_fastbox.PolicyBuilder.Keeps.{Keeps, Keeps-policy, keeps_rules}
use googlectf2023_fastbox.PolicyBuilder.FileMounts.{FileSystem}
use googlectf2023_fastbox.PolicyBuilder.FileMounts.Sound.{mount_rules}
use googlectf2023_fastbox.PolicyBuilder.Groups.Process.Sound.{process_rules}
use googlectf2023_fastbox.PolicyBuilder.Groups.Memory.{
  CpuFenceMode, require_fast_fences, allow_slow_fences, Sanitizers, allow_mmap, allow_futex_op,
  allow_restartable_sequences, allow_restartable_sequences_with_proc_files, allow_scudo_malloc,
  allow_tc_malloc, allow_system_malloc, allow_llvm_sanitizers, when,
}
use googlectf2023_fastbox.PolicyBuilder.State.{Method}

pub Keeps-allow_mmap : Keeps allow_mmap
unfolding allow_mmap
Keeps-allow_mmap = search keeps_rules

pub Keeps-allow_futex_op : (op : ℕ) → Keeps (allow_futex_op op)
unfolding allow_futex_op
Keeps-allow_futex_op op = Keeps-policy _ _ refl

ruleset futex_rules = (keeps_rules, Keeps-allow_futex_op)

pub Keeps-allow_restartable_sequences :
    (mode : CpuFenceMode) → Keeps (allow_restartable_sequences mode)
unfolding allow_restartable_sequences
Keeps-allow_restartable_sequences require_fast_fences = search futex_rules depth 20
Keeps-allow_restartable_sequences allow_slow_fences = search futex_rules depth 20

ruleset memory_parts =
    (futex_rules, mount_rules, process_rules, Keeps-allow_mmap, Keeps-allow_restartable_sequences)

pub Keeps-allow_restartable_sequences_with_proc_files :
    (fs : FileSystem) (mode : CpuFenceMode)
    → Keeps (allow_restartable_sequences_with_proc_files fs mode)
unfolding allow_restartable_sequences_with_proc_files
Keeps-allow_restartable_sequences_with_proc_files fs require_fast_fences =
    search memory_parts depth 20
Keeps-allow_restartable_sequences_with_proc_files fs allow_slow_fences =
    search memory_parts depth 20

pub Keeps-allow_scudo_malloc : Keeps allow_scudo_malloc
unfolding allow_scudo_malloc
Keeps-allow_scudo_malloc = search memory_parts depth 20

pub Keeps-allow_tc_malloc : Keeps allow_tc_malloc
unfolding allow_tc_malloc
Keeps-allow_tc_malloc = search memory_parts depth 20

pub Keeps-allow_system_malloc : Keeps allow_system_malloc
unfolding allow_system_malloc
Keeps-allow_system_malloc = search memory_parts depth 20

Keeps-when : (b : Bool) (m : Method) → Keeps m → Keeps (when b m)
Keeps-when true m k = k
Keeps-when false m k = search keeps_rules

pub Keeps-allow_llvm_sanitizers :
    (build : Sanitizers) (fs : FileSystem) → Keeps (allow_llvm_sanitizers build fs)
unfolding allow_llvm_sanitizers
Keeps-allow_llvm_sanitizers build fs = search (memory_parts, Keeps-when) depth 24

pub ruleset memory_rules = (
  keeps_rules, mount_rules, process_rules, Keeps-allow_mmap, Keeps-allow_futex_op,
  Keeps-allow_restartable_sequences, Keeps-allow_restartable_sequences_with_proc_files,
  Keeps-allow_scudo_malloc, Keeps-allow_tc_malloc, Keeps-allow_system_malloc,
  Keeps-allow_llvm_sanitizers,
)
