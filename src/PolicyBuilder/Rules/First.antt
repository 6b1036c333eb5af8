-- ===== src/PolicyBuilder/Rules/First.antt =====
-- The order of the methods of sandboxed_api/sandbox2/policybuilder.cc that allow or block calls.
use googlectf2023_fastbox.Prelude.{
  ℕ, ◌≡◌, refl, sym, ap, ◌∙◌, Bool, true, false, not, ◌&&◌, ◌||◌, Bool-cases, inl, inr, List, [],
  ◌∷◌, ◌++◌, Option, none, some, arith, ◌==◌, if◌then◌else◌, contains,
}
use mathlib.Core.Path.{subst}
use googlectf2023_fastbox.Bpf.{SockFilter, syscall, ret_allow, ret_k, nr_offset, bpf_stmt}
use googlectf2023_fastbox.Bpf.Exec.{Words}
use googlectf2023_fastbox.Bpf.Verdict.{
  IsFragment, IsFragment-append, verdict-append, verdict_of, ◌or_else◌,
}
use googlectf2023_fastbox.PolicyBuilder.State.{PolicyBuilder}
use googlectf2023_fastbox.PolicyBuilder.Rules.{
  allow_syscall, allow_syscalls, block_syscall_with_errno,
}
use googlectf2023_fastbox.PolicyBuilder.Rules.Sound.{syscall-IsFragment, syscall-verdict}

-- A call that no rule names yet, and that the list names.
abbrev pub is_named : ℕ → List ℕ → PolicyBuilder → Bool
is_named nr nums b = contains nr nums && not (contains nr b.handled_syscalls)

contains-append :
    (num x : ℕ) (xs : List ℕ) → contains num (xs ++ x ∷ []) ≡ (contains num xs || (num == x))
contains-append num x [] = ground arith
contains-append num x (y ∷ xs) = ground (arith, contains-append num x xs)

-- One rule behind the others.
rule-verdict :
    (d : Words) (p : List SockFilter) (num k : ℕ)
    → IsFragment p
    → verdict_of d (p ++ syscall num (bpf_stmt ret_k k))
      ≡ verdict_of d p or_else (if d nr_offset == num then some k else none)
rule-verdict d p num k frag =
    verdict-append d p (syscall num (bpf_stmt ret_k k)) frag
    ∙ ap (λ o. verdict_of d p or_else o) (syscall-verdict d num k)

-- The two options, one behind the other, are the option for the longer list.
named-cons :
    (x : Option ℕ) (nr num k : ℕ) (nums handled : List ℕ)
    → contains num handled ≡ false
    → (x or_else (if nr == num then some k else none))
        or_else (if contains nr nums && not (contains nr (handled ++ num ∷ []))
            then some k
            else none)
      ≡ x or_else (if contains nr (num ∷ nums) && not (contains nr handled) then some k else none)
named-cons none nr num k nums handled h = ground (arith, contains-append nr num handled)
named-cons (some v) nr num k nums handled h = refl

named-old :
    (x : Option ℕ) (nr num k : ℕ) (nums handled : List ℕ)
    → contains num handled ≡ true
    → x or_else (if contains nr nums && not (contains nr handled) then some k else none)
      ≡ x or_else (if contains nr (num ∷ nums) && not (contains nr handled) then some k else none)
named-old none nr num k nums handled h = ground arith
named-old (some v) nr num k nums handled h = refl

or_else-none : (x : Option ℕ) → x ≡ x or_else none
or_else-none none = refl
or_else-none (some v) = refl

-- The builder after a rule for a call that had none.
abbrev ruled : ℕ → ℕ → PolicyBuilder → PolicyBuilder
ruled num k b = record b {
  handled_syscalls = b.handled_syscalls ++ num ∷ [];
  user_policy = b.user_policy ++ syscall num (bpf_stmt ret_k k);
}

allow-old :
    (num : ℕ) (b : PolicyBuilder) → contains num b.handled_syscalls ≡ true → allow_syscall num b ≡ b
unfolding allow_syscall
allow-old num b h = rw h

allow-new :
    (num : ℕ) (b : PolicyBuilder)
    → contains num b.handled_syscalls ≡ false
    → allow_syscall num b ≡ ruled num ret_allow b
unfolding allow_syscall
allow-new num b h = rw h

-- Where the user policy is a fragment, AllowSyscalls allows on top of it those of its calls that no
-- method has handled yet, where the policy before does not decide, and decides no other call.
pub allow_syscalls-verdict :
    (nums : List ℕ) (b : PolicyBuilder) (d : Words)
    → IsFragment b.user_policy
    → verdict_of d (allow_syscalls nums b).user_policy
      ≡ verdict_of d b.user_policy
        or_else (if is_named (d nr_offset) nums b then some ret_allow else none)
unfolding allow_syscalls
allow_syscalls-verdict [] b d frag = or_else-none _
allow_syscalls-verdict (num ∷ nums) b d frag = elim (Bool-cases (contains num b.handled_syscalls)) [
  | inl old ↦
      ap (λ c. verdict_of d (allow_syscalls nums c).user_policy) (allow-old num b old)
      ∙ allow_syscalls-verdict nums b d frag
      ∙ named-old (verdict_of d b.user_policy) (d nr_offset) num ret_allow nums b.handled_syscalls
          old
  | inr new ↦
      ap (λ c. verdict_of d (allow_syscalls nums c).user_policy) (allow-new num b new)
      ∙ allow_syscalls-verdict nums (ruled num ret_allow b) d
          (IsFragment-append b.user_policy _ frag (syscall-IsFragment num ret_allow))
      ∙ ap
          (λ o.
            o
            or_else (if is_named (d nr_offset) nums (ruled num ret_allow b)
                then some ret_allow
                else none))
          (rule-verdict d b.user_policy num ret_allow frag)
      ∙ named-cons (verdict_of d b.user_policy) (d nr_offset) num ret_allow nums b.handled_syscalls
          new
]

pub allow_syscalls-IsFragment :
    (nums : List ℕ) (b : PolicyBuilder)
    → IsFragment b.user_policy
    → IsFragment (allow_syscalls nums b).user_policy
unfolding allow_syscalls
allow_syscalls-IsFragment [] b frag = frag
allow_syscalls-IsFragment (num ∷ nums) b frag =
    elim (Bool-cases (contains num b.handled_syscalls)) [
      | inl old ↦
          subst (λ c. IsFragment (allow_syscalls nums c).user_policy) (sym (allow-old num b old))
            (allow_syscalls-IsFragment nums b frag)
      | inr new ↦
          subst (λ c. IsFragment (allow_syscalls nums c).user_policy) (sym (allow-new num b new))
            (allow_syscalls-IsFragment nums (ruled num ret_allow b)
              (IsFragment-append b.user_policy _ frag (syscall-IsFragment num ret_allow)))
    ]

-- The calls that are handled afterwards.
allow_syscalls-handled :
    (nums : List ℕ) (b : PolicyBuilder) (n : ℕ)
    → contains n (allow_syscalls nums b).handled_syscalls
      ≡ (contains n nums || contains n b.handled_syscalls)
unfolding allow_syscalls
allow_syscalls-handled [] b n = refl
allow_syscalls-handled (num ∷ nums) b n = elim (Bool-cases (contains num b.handled_syscalls)) [
  | inl old ↦
      ap (λ c. contains n (allow_syscalls nums c).handled_syscalls) (allow-old num b old)
      ∙ allow_syscalls-handled nums b n
      ∙ already n num nums b.handled_syscalls old
  | inr new ↦
      ap (λ c. contains n (allow_syscalls nums c).handled_syscalls) (allow-new num b new)
      ∙ allow_syscalls-handled nums (ruled num ret_allow b) n
      ∙ ground (arith, contains-append n num b.handled_syscalls)
]
  where
    already :
        (n num : ℕ) (nums handled : List ℕ)
        → contains num handled ≡ true
        → (contains n nums || contains n handled) ≡ (contains n (num ∷ nums) || contains n handled)
    already n num nums handled h = ground arith

both :
    (x : Option ℕ) (p q h : Bool) (k : ℕ)
    → (x or_else (if p && not h then some k else none))
        or_else (if q && not (p || h) then some k else none)
      ≡ (x or_else (if q && not h then some k else none))
        or_else (if p && not (q || h) then some k else none)
both none p q h k = ground arith
both (some v) p q h k = refl

allow_twice :
    (xs ys : List ℕ) (b : PolicyBuilder) (d : Words)
    → IsFragment b.user_policy
    → verdict_of d (allow_syscalls ys (allow_syscalls xs b)).user_policy
      ≡ (verdict_of d b.user_policy
          or_else (if is_named (d nr_offset) xs b then some ret_allow else none))
        or_else (if contains (d nr_offset) ys
              && not (contains (d nr_offset) xs || contains (d nr_offset) b.handled_syscalls)
            then some ret_allow
            else none)
allow_twice xs ys b d frag =
    allow_syscalls-verdict ys (allow_syscalls xs b) d (allow_syscalls-IsFragment xs b frag)
    ∙ rw (allow_syscalls-verdict xs b d frag, allow_syscalls-handled xs b (d nr_offset)) refl

-- Where the user policy is a fragment, two lists of calls may be allowed in either order: the verdicts are
-- the same.
allow_syscalls_comm :
    (xs ys : List ℕ) (b : PolicyBuilder) (d : Words)
    → IsFragment b.user_policy
    → verdict_of d (allow_syscalls ys (allow_syscalls xs b)).user_policy
      ≡ verdict_of d (allow_syscalls xs (allow_syscalls ys b)).user_policy
allow_syscalls_comm xs ys b d frag =
    allow_twice xs ys b d frag
    ∙ both (verdict_of d b.user_policy) (contains (d nr_offset) xs) (contains (d nr_offset) ys)
        (contains (d nr_offset) b.handled_syscalls) ret_allow
    ∙ sym (allow_twice ys xs b d frag)

block-handled :
    (num error : ℕ) (b : PolicyBuilder)
    → contains num b.handled_syscalls ≡ true
    → block_syscall_with_errno num error b ≡ b
unfolding block_syscall_with_errno
block-handled num error b h = rw h

-- A call of a list that was allowed is not blocked afterwards: BlockSyscallWithErrno changes nothing of
-- the builder.
pub block_syscall_with_errno-allowed :
    (num error : ℕ) (nums : List ℕ) (b : PolicyBuilder)
    → contains num nums ≡ true
    → block_syscall_with_errno num error (allow_syscalls nums b) ≡ allow_syscalls nums b
block_syscall_with_errno-allowed num error nums b h =
    block-handled num error (allow_syscalls nums b)
      (allow_syscalls-handled nums b num ∙ ground arith)
