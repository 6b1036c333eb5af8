-- ===== src/PolicyBuilder/Dispatch/Helper.antt =====
-- The helper jump of `AddPolicyOnSyscalls` (sandboxed_api/sandbox2/policybuilder.cc), which stands where
-- the policy is out of reach of the jumps of a long list.
use googlectf2023_fastbox.Prelude.{
  ℕ, suc, ◌+◌, ◌-◌, ◌<◌, ◌^◌, ◌≡◌, ap, ◌∙◌, Bool, List, [], ◌∷◌, ◌++◌, arith, length, length-append,
}
use googlectf2023_fastbox.Bpf.{SockFilter}
use googlectf2023_fastbox.Bpf.Exec.{Words, exec}
use googlectf2023_fastbox.PolicyBuilder.Dispatch.{Chain, helper_jump, ja}
use googlectf2023_fastbox.PolicyBuilder.Dispatch.Correct.{exec-ja}

-- The chain with `jumps` in front of `policy`, to which `do_policy_loc` points.
abbrev pub chain_of : List SockFilter → List SockFilter → Bool → Chain
chain_of jumps policy last = record {
  out = jumps ++ policy;
  do_policy_loc = length policy;
  last = last;
}

helper_jump-far :
    (jumps policy : List SockFilter) (size jf : ℕ) (last : Bool)
    → length policy ≡ size + 1
    → 255 < length jumps
    → length jumps + size < 2 ^ 32 - 1
    → (helper_jump size (chain_of jumps policy last, jf)).0.out
      ≡ ja (length jumps + 1) ∷ (jumps ++ policy)
unfolding helper_jump
helper_jump-far jumps policy size jf last p far fits = ground (arith, length-append jumps policy)

exec_skip_more :
    (d : Words) (a : ℕ) (p q : List SockFilter) (n : ℕ)
    → exec d a (length p + n) (p ++ q) ≡ exec d a n q
unfolding exec
exec_skip_more d a [] q n = ap (λ k. exec d a k q) (omega arith)
exec_skip_more d a (i ∷ p) q n =
    let more : suc (length p) + n ≡ suc (length p + n) = omega arith in
    ap (λ k. exec d a k (i ∷ (p ++ q))) more ∙ exec_skip_more d a p q n

-- The policy with LOAD_SYSCALL_NR behind it has `size + 1` instructions. Where more than 255 jumps stand
-- in front of it, and no length exceeds 32 bits, the helper jump that is put in front of them enters
-- the policy at its second instruction.
pub helper_jump-skips :
    (jumps policy : List SockFilter) (size jf : ℕ) (last : Bool) (d : Words) (a : ℕ)
    → length policy ≡ size + 1
    → 255 < length jumps
    → length jumps + size < 2 ^ 32 - 1
    → exec d a 0 (helper_jump size (chain_of jumps policy last, jf)).0.out ≡ exec d a 1 policy
helper_jump-skips jumps policy size jf last d a p far fits =
    ap (exec d a 0) (helper_jump-far jumps policy size jf last p far fits)
    ∙ exec-ja d a (length jumps + 1) (jumps ++ policy)
    ∙ exec_skip_more d a jumps policy 1
