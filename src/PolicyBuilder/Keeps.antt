-- ===== src/PolicyBuilder/Keeps.antt =====
-- Rules for what the methods of sandboxed_api/sandbox2/policybuilder.cc keep, one for each way in
-- which a method is put together.
pub mod Same
use googlectf2023_fastbox.Prelude.{
  ℕ, ◌+◌, ◌≤◌, ◌≡◌, refl, sym, ap, ◌∙◌, Bool, true, false, not, ◌&&◌, Option, none, some,
  Option-cases, inl, inr, List, [], ◌∷◌, ◌++◌, arith, ◌==◌,
}
use mathlib.Core.Path.{subst}
use googlectf2023_fastbox.Linux.Syscalls.{nr_bpf, nr_ptrace}
use googlectf2023_fastbox.Bpf.{SockFilter}
use googlectf2023_fastbox.Bpf.Labels.{Item}
use googlectf2023_fastbox.PolicyBuilder.Verify.Sound.{all_known, &&-left, &&-right}
use googlectf2023_fastbox.PolicyBuilder.State.{
  PolicyBuilder, Method, ◌▸◌, return_this, enable_namespaces, set_error,
}
use googlectf2023_fastbox.PolicyBuilder.Rules.{
  call, allow_syscall, allow_syscalls, block_syscall_with_errno,
  overridable_block_syscall_with_errno, add_policy_on_syscall, add_func_on_syscall,
  add_func_on_mmap, mmap_syscalls,
}
use googlectf2023_fastbox.PolicyBuilder.Rules.Known.{known_items}
use googlectf2023_fastbox.PolicyBuilder.Rules.Sound.{
  IsSound, Spares, allow_syscall-IsSound, allow_syscalls-IsSound, block_syscall_with_errno-IsSound,
  overridable-IsSound, add_policy_on_syscalls-IsSound, set_error-IsSound,
}
use googlectf2023_fastbox.PolicyBuilder.Rules.Func.{
  add_func_on_syscalls-IsSound, length-IsShort, some-eq,
}

-- Where the method returns, it leaves a sound builder.
pub record Keeps (m : Method) : Type 0 where
  pub at : (b : PolicyBuilder) {b' : PolicyBuilder} → IsSound b → m b ≡ some b' → IsSound b'

pub Keeps-return : Keeps return_this
Keeps-return = record { at = λ b s e. subst IsSound (some-eq e) s }

pub Keeps-call :
    (f : PolicyBuilder → PolicyBuilder)
    → ((b : PolicyBuilder) → IsSound b → IsSound (f b))
    → Keeps (call f)
Keeps-call f h = record { at = λ b s e. subst IsSound (some-eq e) (h b s) }

pub ▸-some :
    (m n : Method) (b : PolicyBuilder) {c : PolicyBuilder}
    → (m ▸ n) b ≡ some c
    → (b' : PolicyBuilder) × (m b ≡ some b') × (n b' ≡ some c)
▸-some m n b {c} h = started (m b) h
  where
    started :
        (o : Option PolicyBuilder)
        → (elim o [ none ↦ none | some b' ↦ n b' ]) ≡ some c
        → (b' : PolicyBuilder) × (o ≡ some b') × (n b' ≡ some c)
    started none e = cc
    started (some b') e = (b', refl, e)

pub Keeps-▸ : (m n : Method) → Keeps m → Keeps n → Keeps (m ▸ n)
Keeps-▸ m n km kn = record {
  at = λ b s e. let (b', first, later) = ▸-some m n b e in kn.at b' (km.at b s first) later;
}

pub Keeps-allow_syscall : (num : ℕ) → Keeps (call (allow_syscall num))
Keeps-allow_syscall num = Keeps-call _ (allow_syscall-IsSound num)

pub Keeps-allow_syscalls : (nums : List ℕ) → Keeps (call (allow_syscalls nums))
Keeps-allow_syscalls nums = Keeps-call _ (allow_syscalls-IsSound nums)

pub Keeps-block : (num error : ℕ) → Keeps (call (block_syscall_with_errno num error))
Keeps-block num error = Keeps-call _ (block_syscall_with_errno-IsSound num error)

pub Keeps-overridable :
    (num error : ℕ) → Keeps (call (overridable_block_syscall_with_errno num error))
Keeps-overridable num error = Keeps-call _ (overridable-IsSound num error)

-- The test that a policy given in the code passes: it is not about bpf or ptrace.
abbrev pub spared : ℕ → Bool
spared num = not (nr_bpf == num) && not (nr_ptrace == num)

spared-Spares : (num : ℕ) → spared num ≡ true → Spares (num ∷ [])
spared-Spares num h = (ground arith, ground arith)

pub Keeps-policy :
    (num : ℕ) (policy : List SockFilter)
    → (spared num && all_known policy) ≡ true
    → Keeps (call (add_policy_on_syscall num policy))
unfolding add_policy_on_syscall
Keeps-policy num policy h = Keeps-call _ (λ b s.
    add_policy_on_syscalls-IsSound num [] policy b (&&-right (spared num) (all_known policy) h)
      (length-IsShort (num ∷ []) policy (omega arith))
      (spared-Spares num (&&-left (spared num) (all_known policy) h)) s)

pub Keeps-func :
    (num : ℕ) (f : List Item)
    → (spared num && known_items f) ≡ true
    → Keeps (add_func_on_syscall num f)
unfolding add_func_on_syscall
Keeps-func num f h = record {
  at = λ b s e.
      add_func_on_syscalls-IsSound num [] f b (&&-right (spared num) (known_items f) h)
        (spared-Spares num (&&-left (spared num) (known_items f) h)) (omega arith) s e;
}

pub Keeps-mmap : (f : List Item) → known_items f ≡ true → Keeps (add_func_on_mmap f)
unfolding add_func_on_mmap
Keeps-mmap f h = record {
  at = λ b s e. add_func_on_syscalls-IsSound _ [] f b h (refl, refl) (omega arith) s e;
}

pub ruleset keeps_rules = (
  refl, Keeps-return, Keeps-▸, Keeps-allow_syscall, Keeps-allow_syscalls, Keeps-block,
  Keeps-overridable, Keeps-policy, Keeps-func, Keeps-mmap,
)
