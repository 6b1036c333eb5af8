-- ===== src/Tests/Builders.antt =====
-- The rules of small policies.
use googlectf2023_fastbox.Prelude.{
  ◌≡◌, refl, false, List, [], ◌∷◌, ◌++◌, none, some, if◌then◌else◌, ◌==◌, replicate, contains,
  arith,
}
use googlectf2023_fastbox.Linux.Syscalls.{nr_read, nr_write, nr_fcntl}
use googlectf2023_fastbox.Bpf.{
  SockFilter, bpf_jump, jmp_jeq, jmp_ja, deny, arg_32, load_syscall_nr, ret_allow,
}
use googlectf2023_fastbox.Bpf.Exec.{Words, exec}
use googlectf2023_fastbox.Bpf.Verdict.{IsFragment, IsFragment-nil, verdict_of, ◌or_else◌}
use googlectf2023_fastbox.Bpf.Labels.{
  BpfLabel, unplaced, jump_mark, label_mark, Resolved, bpf_resolve_jumps, resolve, resolve_one,
  resolve_jump, place_label,
}
use googlectf2023_fastbox.Bpf.Labels.Lands.{Lands}
use googlectf2023_fastbox.Bpf.Labels.Targets.{bpf_resolve_jumps-Lands}
use googlectf2023_fastbox.PolicyBuilder.Verify.{verify, check_bpf_bounds, retrace}
use googlectf2023_fastbox.PolicyBuilder.Verify.Sound.{Ends, verify-Ends}
use googlectf2023_fastbox.PolicyBuilder.Dispatch.{
  added, policy_on_syscalls, dispatch, prepend_all, prepend, skip_policy, helper_jump,
}
use googlectf2023_fastbox.PolicyBuilder.Dispatch.Fragment.{
  policy_on_syscalls-IsFragment, policy_on_syscalls-verdict,
}
use googlectf2023_fastbox.PolicyBuilder.Dispatch.Helper.{chain_of, helper_jump-skips}
use googlectf2023_fastbox.PolicyBuilder.State.{new_builder}
use googlectf2023_fastbox.PolicyBuilder.Rules.{allow_if, allow_syscalls, block_syscall_with_errno}
use googlectf2023_fastbox.PolicyBuilder.Rules.First.{
  is_named, allow_syscalls-verdict, block_syscall_with_errno-allowed,
}

-- fcntl with F_GETFD
abbrev getfd : List SockFilter
getfd = arg_32 1 ∷ allow_if 1

abbrev getfd_rule : List SockFilter
getfd_rule = bpf_jump jmp_jeq nr_fcntl 0 4 ∷ (getfd ++ (load_syscall_nr ∷ []))

getfd_rule_is : policy_on_syscalls (nr_fcntl ∷ []) getfd ≡ added getfd_rule
unfolding policy_on_syscalls verify check_bpf_bounds retrace dispatch prepend_all prepend
    skip_policy helper_jump
getfd_rule_is = refl

getfd_verified : verify getfd ≡ some getfd
unfolding verify check_bpf_bounds retrace
getfd_verified = refl

policy_on_syscalls-verdict_example :
    (p' : List SockFilter) × (verify getfd ≡ some p')
    × ((d : Words)
        → verdict_of d getfd_rule
          ≡ (if contains (d 0) (nr_fcntl ∷ []) then verdict_of d p' else none))
policy_on_syscalls-verdict_example =
    policy_on_syscalls-verdict nr_fcntl [] getfd getfd_rule_is (omega arith)

policy_on_syscalls-IsFragment_example : IsFragment getfd_rule
policy_on_syscalls-IsFragment_example =
    policy_on_syscalls-IsFragment nr_fcntl [] getfd getfd_rule_is (omega arith) refl

-- A call of fcntl with F_GETFD.
abbrev getfd_words : Words
getfd_words offset = if offset == 0 then nr_fcntl else if offset == 24 then 1 else 0

verify-Ends_example : Ends (exec getfd_words nr_fcntl 0 getfd)
verify-Ends_example = verify-Ends getfd_words getfd nr_fcntl 0 refl getfd_verified (omega arith)

allow_syscalls-verdict_example :
    verdict_of getfd_words (allow_syscalls (nr_read ∷ nr_fcntl ∷ []) new_builder).user_policy
    ≡ verdict_of getfd_words []
      or_else (if is_named (getfd_words 0) (nr_read ∷ nr_fcntl ∷ []) new_builder
          then some ret_allow
          else none)
allow_syscalls-verdict_example =
    allow_syscalls-verdict (nr_read ∷ nr_fcntl ∷ []) new_builder getfd_words IsFragment-nil

-- EIO
block_syscall_with_errno-allowed_example :
    block_syscall_with_errno nr_read 5 (allow_syscalls (nr_read ∷ nr_write ∷ []) new_builder)
    ≡ allow_syscalls (nr_read ∷ nr_write ∷ []) new_builder
block_syscall_with_errno-allowed_example =
    block_syscall_with_errno-allowed nr_read 5 (nr_read ∷ nr_write ∷ []) new_builder refl

abbrev many_jumps : List SockFilter
many_jumps = replicate 256 (bpf_jump jmp_jeq nr_read 0 0)

helper_jump-skips_example :
    exec getfd_words 0 0
      (helper_jump 1 (chain_of many_jumps (deny ∷ load_syscall_nr ∷ []) false, 0)).0.out
    ≡ exec getfd_words 0 1 (deny ∷ load_syscall_nr ∷ [])
helper_jump-skips_example =
    helper_jump-skips many_jumps (deny ∷ load_syscall_nr ∷ []) 1 0 false getfd_words 0 refl
      (omega arith) (omega arith)

abbrev one_label : List BpfLabel
one_label = record { label = "end"; location = unplaced } ∷ []

-- JUMP(&l, end), DENY, LABEL(&l, end)
abbrev jumping : List SockFilter
jumping =
    bpf_jump jmp_ja 0 jump_mark jump_mark ∷ deny ∷ bpf_jump jmp_ja 0 label_mark label_mark ∷ []

abbrev jumped : Resolved
jumped = record {
  code = 0;
  filter = bpf_jump jmp_ja 1 0 0 ∷ deny ∷ bpf_jump jmp_ja 0 0 0 ∷ [];
  labels = record { label = "end"; location = 2 } ∷ [];
}

jumped_is : bpf_resolve_jumps one_label jumping ≡ some jumped
unfolding bpf_resolve_jumps resolve resolve_one resolve_jump place_label
jumped_is = refl

bpf_resolve_jumps-Lands_example : Lands jumping jumped.filter 0 0
bpf_resolve_jumps-Lands_example =
    bpf_resolve_jumps-Lands one_label jumping jumped 0 (bpf_jump jmp_ja 0 jump_mark jump_mark)
      jumped_is refl refl refl (record { code = refl; jt = refl; jf = refl; id = refl })
