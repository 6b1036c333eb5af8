-- ===== src/PolicyBuilder/Rules.antt =====
-- sandboxed_api/sandbox2/policybuilder.cc: the methods that append to the policies.
pub mod Known
pub mod Sound
pub mod Func
pub mod First
use googlectf2023_fastbox.Prelude.{
  ℕ, Bool, true, false, ◌||◌, List, [], ◌∷◌, ◌++◌, Option, none, some, ◌==◌, if◌then◌else◌,
  contains, length,
}
use googlectf2023_fastbox.Status.{invalid_argument, internal}
use googlectf2023_fastbox.Linux.Syscalls.{nr_bpf, nr_ptrace, nr_mmap}
use googlectf2023_fastbox.Bpf.{SockFilter, syscall, allow, errno, bpf_jump, jmp_jeq}
use googlectf2023_fastbox.Bpf.Labels.{Item, resolve_bpf_func}
use googlectf2023_fastbox.PolicyBuilder.Dispatch.{Added, added, refused, policy_on_syscalls}
use googlectf2023_fastbox.PolicyBuilder.State.{PolicyBuilder, Method, set_error, ◌▸◌}

-- `handled_syscalls_.insert(num).second`, and the set behind it
abbrev pub is_new : ℕ → PolicyBuilder → Bool
is_new num b = if contains num b.handled_syscalls then false else true

abbrev handle : ℕ → PolicyBuilder → PolicyBuilder
handle num b = record b { handled_syscalls = b.handled_syscalls ++ num ∷ [] }

unfoldable pub allow_syscall : ℕ → PolicyBuilder → PolicyBuilder
allow_syscall num b =
    if is_new num b
    then record (handle num b) { user_policy = b.user_policy ++ syscall num allow }
    else b

unfoldable pub allow_syscalls : List ℕ → PolicyBuilder → PolicyBuilder
unfolding allow_syscall
allow_syscalls [] b = b
allow_syscalls (num ∷ nums) b = allow_syscalls nums (allow_syscall num b)

-- The `int error` of this and the next methods is a number here: none below 0 is passed.
unfoldable pub block_syscall_with_errno : ℕ → ℕ → PolicyBuilder → PolicyBuilder
block_syscall_with_errno num error b =
    if is_new num b
    then record (handle num b) {
      user_policy = b.user_policy ++ syscall num (errno error);
      user_policy_handles_bpf = (num == nr_bpf) || b.user_policy_handles_bpf;
      user_policy_handles_ptrace = (num == nr_ptrace) || b.user_policy_handles_ptrace;
    }
    else b

unfoldable pub block_syscalls_with_errno : List ℕ → ℕ → PolicyBuilder → PolicyBuilder
unfolding block_syscall_with_errno
block_syscalls_with_errno [] error b = b
block_syscalls_with_errno (num ∷ nums) error b =
    block_syscalls_with_errno nums error (block_syscall_with_errno num error b)

unfoldable pub overridable_block_syscall_with_errno : ℕ → ℕ → PolicyBuilder → PolicyBuilder
overridable_block_syscall_with_errno num error b = record b {
  overridable_policy = b.overridable_policy ++ syscall num (errno error);
}

abbrev pub append_policy : Added → PolicyBuilder → PolicyBuilder
append_policy (added out) b = record b { user_policy = b.user_policy ++ out }
append_policy (refused e) b = set_error invalid_argument b

-- AddPolicyOnSyscalls, with a policy that is a list of instructions
unfoldable pub add_policy_on_syscalls : List ℕ → List SockFilter → PolicyBuilder → PolicyBuilder
add_policy_on_syscalls nums policy b = append_policy (policy_on_syscalls nums policy) b

unfoldable pub add_policy_on_syscall : ℕ → List SockFilter → PolicyBuilder → PolicyBuilder
unfolding add_policy_on_syscalls
add_policy_on_syscall num policy b = add_policy_on_syscalls (num ∷ []) policy b

-- kMmapSyscalls
abbrev pub mmap_syscalls : List ℕ
mmap_syscalls = nr_mmap ∷ []

-- The methods that take a `BpfFunc`. The policy is appended also where its jumps were not resolved;
-- then the error is set.
abbrev pub with_resolved :
    List ℕ → PolicyBuilder → Option (List SockFilter × Bool) → Option PolicyBuilder
with_resolved nums b none = none
with_resolved nums b (some (policy, failed)) =
    some (add_policy_on_syscalls nums policy (if failed then set_error internal b else b))

unfoldable pub add_func_on_syscalls : List ℕ → List Item → Method
add_func_on_syscalls nums f b = with_resolved nums b (resolve_bpf_func f)

unfoldable pub add_func_on_syscall : ℕ → List Item → Method
unfolding add_func_on_syscalls
add_func_on_syscall num f = add_func_on_syscalls (num ∷ []) f

unfoldable pub add_policy_on_mmap : List SockFilter → PolicyBuilder → PolicyBuilder
unfolding add_policy_on_syscalls
add_policy_on_mmap policy b = add_policy_on_syscalls mmap_syscalls policy b

unfoldable pub add_func_on_mmap : List Item → Method
unfolding add_func_on_syscalls
add_func_on_mmap f = add_func_on_syscalls mmap_syscalls f

-- A method that cannot end the process.
abbrev pub call : (PolicyBuilder → PolicyBuilder) → Method
call f b = some (f b)

-- JEQ32(value, ALLOW)
abbrev pub allow_if : ℕ → List SockFilter
allow_if value = bpf_jump jmp_jeq value 0 1 ∷ allow ∷ []
