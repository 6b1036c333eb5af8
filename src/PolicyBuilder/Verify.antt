-- ===== src/PolicyBuilder/Verify.antt =====
-- sandboxed_api/sandbox2/policybuilder.cc: the checks that `AddPolicyOnSyscalls` makes of a policy
-- that it is given.
pub mod Sound
use googlectf2023_fastbox.Prelude.{
  ℕ, ◌+◌, ◌*◌, ◌/◌, ◌%◌, Bool, true, not, ◌&&◌, List, [], ◌∷◌, Option, none, some, ◌==◌, leb,
  if◌then◌else◌, length,
}
use googlectf2023_fastbox.Bpf.{SockFilter, ret_k, ret_trace, ret_data, trace}
use mathlib.Core.Option

-- BPF_CLASS and BPF_OP
abbrev pub bpf_class : ℕ → ℕ
bpf_class code = code % 8

abbrev pub bpf_op : ℕ → ℕ
bpf_op code = code / 16 % 16 * 16

-- BPF_JMP
abbrev bpf_jmp : ℕ
bpf_jmp = 0x05

unfoldable pub check_bpf_bounds : SockFilter → ℕ → Bool
check_bpf_bounds filter max_jmp =
    if bpf_class filter.code == bpf_jmp
    then (if bpf_op filter.code == 0
        then leb filter.k max_jmp
        else leb filter.jt max_jmp && leb filter.jf max_jmp)
    else true

-- cpu::kX8664, which `Syscall::GetHostArch` returns on the build that is modelled
abbrev pub host_arch : ℕ
host_arch = 0xcaf1

abbrev pub sandbox2_trace : SockFilter
sandbox2_trace = trace host_arch

-- `k & SECCOMP_RET_ACTION`
abbrev ret_action : ℕ → ℕ
ret_action k = k / 0x1_0000 % 0x8000 * 0x1_0000

-- A trace with another value becomes SANDBOX2_TRACE.
unfoldable pub retrace : SockFilter → SockFilter
retrace filter =
    if filter.code == ret_k
      && ret_action filter.k == ret_trace
      && not (ret_data filter.k == host_arch)
    then sandbox2_trace
    else filter

-- The loop over `out`: the instructions behind one are as many as its `max_jump`. `none` is the
-- error "bpf jump out of bounds".
unfoldable pub verify : List SockFilter → Option (List SockFilter)
verify [] = some []
verify (filter ∷ rest) =
    let verified = verify rest in
    if check_bpf_bounds filter (length rest)
    then Option.map (λ out. retrace filter ∷ out) verified
    else none
