-- ===== src/PolicyBuilder/Dispatch.antt =====
-- sandboxed_api/sandbox2/policybuilder.cc: the program that `AddPolicyOnSyscalls` puts together, the
-- jumps for each system call of the list in front of the policy.
pub mod Correct
pub mod Fragment
pub mod Helper
use googlectf2023_fastbox.Prelude.{
  ℕ, ◌+◌, ◌-◌, ◌%◌, ◌^◌, Bool, true, false, List, [], ◌∷◌, ◌++◌, Option, none, some, ltb,
  if◌then◌else◌, length,
}
use googlectf2023_fastbox.Bpf.{SockFilter, bpf_stmt, bpf_jump, jmp_ja, jmp_jeq, load_syscall_nr}
use googlectf2023_fastbox.PolicyBuilder.Verify.{verify}

-- The variables `out`, `do_policy_loc` and `last` of the loop.
pub record Chain : Type 0 where
  pub out : List SockFilter
  pub do_policy_loc : ℕ
  pub last : Bool

-- kMaxShortJump
abbrev pub max_short_jump : ℕ
max_short_jump = 255

abbrev pub u8 : ℕ → ℕ
u8 n = n % 0x100

abbrev pub u32 : ℕ → ℕ
u32 n = n % 2 ^ 32

abbrev pub ja : ℕ → SockFilter
ja k = bpf_stmt jmp_ja k

-- `if (last)`: the way past the policy, as a long jump or as the `jf` that is returned.
unfoldable pub skip_policy : Chain → Chain × ℕ
skip_policy c =
    if c.last
    then (if ltb max_short_jump (length c.out)
        then (record c { out = ja (u32 (length c.out)) ∷ c.out; last = false }, 0)
        else (record c { last = false }, u8 (length c.out)))
    else (c, 0)

-- The helper jump, where the policy or the last helper jump is out of reach. `do_policy_loc` is the
-- length of a tail of `out`, and `policy_size` no more than it, so no difference wraps.
unfoldable pub helper_jump : ℕ → Chain × ℕ → Chain × ℕ
helper_jump policy_size (c, jf) =
    if ltb max_short_jump (length c.out - c.do_policy_loc)
    then (
      record c {
        out = ja (u32 (length c.out - policy_size)) ∷ c.out;
        do_policy_loc = length c.out + 1;
      },
      u8 (jf + 1),
    )
    else (c, jf)

-- One round of the loop.
unfoldable pub prepend : ℕ → ℕ → Chain → Chain
unfolding skip_policy helper_jump
prepend policy_size num c =
    let (c', jf) = helper_jump policy_size (skip_policy c) in
    let jt = u8 (length c'.out - c'.do_policy_loc) in
    record c' { out = bpf_jump jmp_jeq num jt jf ∷ c'.out }

-- The loop runs over `nums` from its end.
unfoldable pub prepend_all : ℕ → Chain → List ℕ → Chain
prepend_all policy_size c [] = c
prepend_all policy_size c (num ∷ nums) = prepend policy_size num (prepend_all policy_size c nums)

abbrev pub start : List SockFilter → Chain
start out = record { out = out; do_policy_loc = length out; last = true }

pub data AddError : Type 0 where
  jump_out_of_bounds policy_too_long : AddError

pub data Added : Type 0 where
  added : List SockFilter → Added
  refused : AddError → Added

-- What follows the check of the policy.
unfoldable pub dispatch : List ℕ → ℕ → List SockFilter → Added
dispatch nums policy_size verified =
    let out = verified ++ (load_syscall_nr ∷ []) in
    if ltb (2 ^ 32 - 1) (length out)
    then refused policy_too_long
    else added (prepend_all policy_size (start out) nums).out

abbrev pub or_refused : Option (List SockFilter) → (List SockFilter → Added) → Added
or_refused none f = refused jump_out_of_bounds
or_refused (some out) f = f out

-- The instructions that `AddPolicyOnSyscalls` appends to the user policy, or its error.
unfoldable pub policy_on_syscalls : List ℕ → List SockFilter → Added
policy_on_syscalls nums policy = or_refused (verify policy) (dispatch nums (length policy))
