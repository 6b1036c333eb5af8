-- ===== src/PolicyBuilder/Rules/Sound.antt =====
-- What every method that appends to a policy keeps.
use googlectf2023_fastbox.Prelude.{
  ℕ, ◌≡◌, ◌≢◌, refl, sym, ◌∙◌, Bool, true, false, ◌||◌, Bool-cases, inl, inr, ◌⊎◌, List, [], ◌∷◌,
  ◌++◌, Option, none, some, arith, ◌==◌, ==_iff, if◌then◌else◌, contains,
}
use googlectf2023_fastbox.Status.{StatusCode}
use googlectf2023_fastbox.Linux.Syscalls.{nr_bpf, nr_ptrace}
use googlectf2023_fastbox.Bpf.{SockFilter, syscall, errno, ret_allow, ret_k, nr_offset, bpf_stmt}
use googlectf2023_fastbox.Bpf.Exec.{Words, exec, effect, returned, fell}
use googlectf2023_fastbox.Bpf.Verdict.{
  Settles, decided, passed, IsFragment, IsFragment-append, verdict-append, verdict_of,
}
use googlectf2023_fastbox.PolicyBuilder.Verify.Sound.{AllKnown}
use googlectf2023_fastbox.PolicyBuilder.Dispatch.{Added, added, refused, policy_on_syscalls}
use googlectf2023_fastbox.PolicyBuilder.Dispatch.Fragment.{
  IsShort, policy_on_syscalls-IsFragment, policy_on_syscalls-verdict,
}
use googlectf2023_fastbox.PolicyBuilder.State.{PolicyBuilder, set_error}
use googlectf2023_fastbox.PolicyBuilder.Rules.{
  is_new, allow_syscall, allow_syscalls, block_syscall_with_errno,
  overridable_block_syscall_with_errno, append_policy, add_policy_on_syscalls,
}

exec-syscall :
    (d : Words) (num k : ℕ)
    → exec d (d nr_offset) 0 (syscall num (bpf_stmt ret_k k))
      ≡ (if d nr_offset == num then returned k else fell (d nr_offset) 0)
unfolding exec effect
exec-syscall d num k = ground arith

pub syscall-IsFragment : (num k : ℕ) → IsFragment (syscall num (bpf_stmt ret_k k))
syscall-IsFragment num k d = rw (exec-syscall d num k) (either (d nr_offset == num))
  where
    either : (b : Bool) → Settles (d nr_offset) (if b then returned k else fell (d nr_offset) 0)
    either true = decided k
    either false = passed refl

pub syscall-verdict :
    (d : Words) (num k : ℕ)
    → verdict_of d (syscall num (bpf_stmt ret_k k)) ≡ (if d nr_offset == num then some k else none)
syscall-verdict d num k = rw (exec-syscall d num k) (ground arith)

-- What `handled` and the flag tell of the verdicts on call `num`: with the flag set it is decided,
-- and not allowed.
pub record Guards (num : ℕ) (flag : Bool) (handled : List ℕ) (policy : List SockFilter)
    : Type 0 where
  pub unseen :
      (d : Words) → d nr_offset ≡ num → contains num handled ≡ false → verdict_of d policy ≡ none
  pub blocked :
      (d : Words)
      → d nr_offset ≡ num
      → flag ≡ true
      → (v : ℕ) × (verdict_of d policy ≡ some v) × (v ≢ ret_allow)

-- The default action, where there is one, returns.
abbrev pub IsAction : Option SockFilter → Type 0
IsAction none = Unit {0}
IsAction (some i) = i.code ≡ ret_k

pub record IsSound (b : PolicyBuilder) : Type 0 where
  pub user : IsFragment b.user_policy
  pub action : IsAction b.default_action
  pub overridable : IsFragment b.overridable_policy
  pub bpf : Guards nr_bpf b.user_policy_handles_bpf b.handled_syscalls b.user_policy
  pub ptrace : Guards nr_ptrace b.user_policy_handles_ptrace b.handled_syscalls b.user_policy

-- Appending a piece that does not decide call `num`.
Guards-append :
    (num : ℕ) (flag : Bool) (handled : List ℕ) (p q : List SockFilter)
    → IsFragment p
    → ((d : Words) → d nr_offset ≡ num → verdict_of d q ≡ none)
    → Guards num flag handled p
    → Guards num flag handled (p ++ q)
Guards-append num flag handled p q frag quiet g = record {
  unseen = λ d e c. verdict-append d p q frag ∙ ground (arith, g.unseen d e c, quiet d e);
  blocked = λ d e f.
      let (v, h, ne) = g.blocked d e f in (v, verdict-append d p q frag ∙ ground arith, ne);
}

contains-append :
    (num x : ℕ) (xs : List ℕ) → contains num (xs ++ x ∷ []) ≡ (contains num xs || (num == x))
contains-append num x [] = ground arith
contains-append num x (y ∷ xs) = ground (arith, contains-append num x xs)

-- Appending the rule for a call that was not handled before.
Guards-handle :
    (num : ℕ) (flag flag' : Bool) (handled : List ℕ) (p : List SockFilter) (x k : ℕ)
    → IsFragment p
    → contains x handled ≡ false
    → (flag' ≡ true → (flag ≡ true) ⊎ ((num ≡ x) × (k ≢ ret_allow)))
    → Guards num flag handled p
    → Guards num flag' (handled ++ x ∷ []) (p ++ syscall x (bpf_stmt ret_k k))
Guards-handle num flag flag' handled p x k frag fresh f g = record {
  unseen = λ d e c.
      let old : contains num handled ≡ false = ground (arith, contains-append num x handled) in
      verdict-append d p (syscall x (bpf_stmt ret_k k)) frag
      ∙ ground (arith, contains-append num x handled, syscall-verdict d x k, g.unseen d e old);
  blocked = λ d e t. elim (f t) [
    | inl old ↦
        let (v, h, ne) = g.blocked d e old in
        (v, verdict-append d p (syscall x (bpf_stmt ret_k k)) frag ∙ ground arith, ne)
    | inr (same, ne) ↦
        let unseen : contains num handled ≡ false = rw same fresh in
        (
          k,
          verdict-append d p (syscall x (bpf_stmt ret_k k)) frag
              ∙ ground (arith, syscall-verdict d x k, g.unseen d e unseen),
          ne,
        )
  ];
}

is_new-fresh :
    (num : ℕ) (b : PolicyBuilder) → is_new num b ≡ true → contains num b.handled_syscalls ≡ false
is_new-fresh num b h = ground arith

pub allow_syscall-IsSound :
    (num : ℕ) (b : PolicyBuilder) → IsSound b → IsSound (allow_syscall num b)
unfolding allow_syscall
allow_syscall-IsSound num b s = elim (Bool-cases (is_new num b)) [
  | inl new ↦ rw new (record {
    user = IsFragment-append b.user_policy _ s.user (syscall-IsFragment num ret_allow);
    action = s.action;
    overridable = s.overridable;
    bpf = Guards-handle nr_bpf _ _ _ _ num ret_allow s.user (is_new-fresh num b new) inl s.bpf;
    ptrace =
        Guards-handle nr_ptrace _ _ _ _ num ret_allow s.user (is_new-fresh num b new) inl s.ptrace;
  })
  | inr old ↦ rw old s
]

pub allow_syscalls-IsSound :
    (nums : List ℕ) (b : PolicyBuilder) → IsSound b → IsSound (allow_syscalls nums b)
unfolding allow_syscalls
allow_syscalls-IsSound [] b s = s
allow_syscalls-IsSound (num ∷ nums) b s =
    allow_syscalls-IsSound nums (allow_syscall num b) (allow_syscall-IsSound num b s)

-- An errno is no permission.
errno-ne : (e : ℕ) → (errno e).k ≢ ret_allow
errno-ne e h = omega arith

pub block_syscall_with_errno-IsSound :
    (num error : ℕ) (b : PolicyBuilder) → IsSound b → IsSound (block_syscall_with_errno num error b)
unfolding block_syscall_with_errno
block_syscall_with_errno-IsSound num error b s = elim (Bool-cases (is_new num b)) [
  | inl new ↦ rw new (record {
    user = IsFragment-append b.user_policy _ s.user (syscall-IsFragment num _);
    action = s.action;
    overridable = s.overridable;
    bpf =
        Guards-handle nr_bpf _ _ _ _ num _ s.user (is_new-fresh num b new)
          (set_or nr_bpf b.user_policy_handles_bpf) s.bpf;
    ptrace =
        Guards-handle nr_ptrace _ _ _ _ num _ s.user (is_new-fresh num b new)
          (set_or nr_ptrace b.user_policy_handles_ptrace) s.ptrace;
  })
  | inr old ↦ rw old s
]
  where
    set_or :
        (n : ℕ) (flag : Bool)
        → ((num == n) || flag) ≡ true
        → (flag ≡ true) ⊎ ((n ≡ num) × ((errno error).k ≢ ret_allow))
    set_or n flag h = elim (Bool-cases (num == n)) [
      | inl e ↦ inr (sym ((==_iff num n).0 e), errno-ne error)
      | inr e ↦ inl (ground arith)
    ]

pub overridable-IsSound :
    (num error : ℕ) (b : PolicyBuilder)
    → IsSound b
    → IsSound (overridable_block_syscall_with_errno num error b)
unfolding overridable_block_syscall_with_errno
overridable-IsSound num error b s = record {
  user = s.user;
  action = s.action;
  overridable = IsFragment-append b.overridable_policy _ s.overridable (syscall-IsFragment num _);
  bpf = s.bpf;
  ptrace = s.ptrace;
}

-- The calls that a policy may be added to without deciding bpf or ptrace.
abbrev pub Spares : List ℕ → Type 0
Spares nums = (contains nr_bpf nums ≡ false) × (contains nr_ptrace nums ≡ false)

pub set_error-IsSound :
    (code : StatusCode) (b : PolicyBuilder) → IsSound b → IsSound (set_error code b)
unfolding set_error
set_error-IsSound code b s = record {
  user = s.user;
  action = s.action;
  overridable = s.overridable;
  bpf = s.bpf;
  ptrace = s.ptrace;
}

not_listed :
    (nums : List ℕ) (n m : ℕ) (o : Option ℕ)
    → n ≡ m
    → contains m nums ≡ false
    → (if contains n nums then o else none) ≡ none
not_listed nums n m o e h = rw (e, h)

append_policy-IsSound :
    (num : ℕ) (nums : List ℕ) (policy : List SockFilter) (a : Added) (b : PolicyBuilder)
    → policy_on_syscalls (num ∷ nums) policy ≡ a
    → AllKnown policy
    → IsShort (num ∷ nums) policy
    → Spares (num ∷ nums)
    → IsSound b
    → IsSound (append_policy a b)
append_policy-IsSound num nums policy (refused e) b h known short spares s = set_error-IsSound _ b s
append_policy-IsSound num nums policy (added out) b h known short spares s =
    let (p', v, on) = policy_on_syscalls-verdict num nums policy h short in
    record {
      user =
          IsFragment-append b.user_policy out s.user
            (policy_on_syscalls-IsFragment num nums policy h short known);
      action = s.action;
      overridable = s.overridable;
      bpf =
          Guards-append nr_bpf _ _ b.user_policy out s.user
            (λ d e. on d ∙ not_listed (num ∷ nums) _ nr_bpf _ e spares.0) s.bpf;
      ptrace =
          Guards-append nr_ptrace _ _ b.user_policy out s.user
            (λ d e. on d ∙ not_listed (num ∷ nums) _ nr_ptrace _ e spares.1) s.ptrace;
    }

-- A policy of known instructions, on calls other than bpf and ptrace.
pub add_policy_on_syscalls-IsSound :
    (num : ℕ) (nums : List ℕ) (policy : List SockFilter) (b : PolicyBuilder)
    → AllKnown policy
    → IsShort (num ∷ nums) policy
    → Spares (num ∷ nums)
    → IsSound b
    → IsSound (add_policy_on_syscalls (num ∷ nums) policy b)
unfolding add_policy_on_syscalls
add_policy_on_syscalls-IsSound num nums policy b known short spares s =
    append_policy-IsSound num nums policy _ b refl known short spares s
