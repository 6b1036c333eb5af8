-- ===== src/PolicyBuilder/Settings.antt =====
-- The fields of `PolicyBuilder` (sandboxed_api/sandbox2/policybuilder.h) that only their own methods set,
-- and rules for the methods that leave them alone.
pub mod Mounted
pub mod Files
pub mod Process
pub mod Groups
pub mod Asked
use googlectf2023_fastbox.Prelude.{
  ℕ, ◌≡◌, refl, sym, ap, ◌∙◌, Bool, true, false, List, [], ◌∷◌, Option, none, some, Option-cases,
  inl, inr, arith, if◌then◌else◌,
}
use googlectf2023_fastbox.Text.{Bytes}
use googlectf2023_fastbox.Status.{Status, ok_status}
use googlectf2023_fastbox.Bpf.{SockFilter}
use googlectf2023_fastbox.Bpf.Labels.{Item, resolve_bpf_func}
use googlectf2023_fastbox.Mounts.{Mounts}
use googlectf2023_fastbox.PolicyBuilder.Dispatch.{Added, added, refused, policy_on_syscalls}
use googlectf2023_fastbox.PolicyBuilder.State.{
  PolicyBuilder, Method, ◌▸◌, return_this, enable_namespaces, set_error,
}
use googlectf2023_fastbox.PolicyBuilder.Rules.{
  call, allow_syscall, allow_syscalls, block_syscall_with_errno, block_syscalls_with_errno,
  overridable_block_syscall_with_errno, add_policy_on_syscall, add_policy_on_syscalls,
  append_policy, add_func_on_syscall, add_func_on_syscalls, with_resolved, add_func_on_mmap, is_new,
}
use googlectf2023_fastbox.PolicyBuilder.Rules.Func.{some-eq}
use googlectf2023_fastbox.PolicyBuilder.Keeps.{▸-some}

pub record Settings : Type 0 where
  pub on_violation : Bool
  pub on_signal : Bool
  pub on_timeout : Bool
  pub on_kill : Bool
  pub on_exit : Bool
  pub namespaces : Bool
  pub unrestricted_networking : Bool
  pub mount_propagation : Bool
  pub hostname : Bytes

abbrev pub settings_of : PolicyBuilder → Settings
settings_of b = record {
  on_violation = b.collect_stacktrace_on_violation;
  on_signal = b.collect_stacktrace_on_signal;
  on_timeout = b.collect_stacktrace_on_timeout;
  on_kill = b.collect_stacktrace_on_kill;
  on_exit = b.collect_stacktrace_on_exit;
  namespaces = b.use_namespaces;
  unrestricted_networking = b.allow_unrestricted_networking;
  mount_propagation = b.allow_mount_propagation;
  hostname = b.hostname;
}

-- Where the method returns, it has set none of these.
pub record Settled (m : Method) : Type 0 where
  pub at : (b b' : PolicyBuilder) → m b ≡ some b' → settings_of b' ≡ settings_of b

pub Settled-return : Settled return_this
Settled-return = record { at = λ b b' e. sym (ap settings_of (some-eq e)) }

pub Settled-call :
    (f : PolicyBuilder → PolicyBuilder)
    → ((b : PolicyBuilder) → settings_of (f b) ≡ settings_of b)
    → Settled (call f)
Settled-call f h = record { at = λ b b' e. sym (ap settings_of (some-eq e)) ∙ h b }

pub Settled-▸ : (m n : Method) → Settled m → Settled n → Settled (m ▸ n)
Settled-▸ m n sm sn = record {
  at = λ b b' e. let (c, first, later) = ▸-some m n b e in sn.at c b' later ∙ sm.at b c first;
}

pub Settled-enable_namespaces : Settled enable_namespaces
unfolding enable_namespaces
Settled-enable_namespaces = record { at = λ b b' e. ground arith }

pub either-settings :
    (t : Bool) (x y b : PolicyBuilder)
    → settings_of x ≡ settings_of b
    → settings_of y ≡ settings_of b
    → settings_of (if t then x else y) ≡ settings_of b
either-settings true x y b hx hy = hx
either-settings false x y b hx hy = hy

allow_syscall-settings :
    (num : ℕ) (b : PolicyBuilder) → settings_of (allow_syscall num b) ≡ settings_of b
unfolding allow_syscall
allow_syscall-settings num b = either-settings (is_new num b) _ b b refl refl

allow_syscalls-settings :
    (nums : List ℕ) (b : PolicyBuilder) → settings_of (allow_syscalls nums b) ≡ settings_of b
unfolding allow_syscalls
allow_syscalls-settings [] b = refl
allow_syscalls-settings (num ∷ nums) b =
    allow_syscalls-settings nums (allow_syscall num b) ∙ allow_syscall-settings num b

block-settings :
    (num error : ℕ) (b : PolicyBuilder)
    → settings_of (block_syscall_with_errno num error b) ≡ settings_of b
unfolding block_syscall_with_errno
block-settings num error b = either-settings (is_new num b) _ b b refl refl

blocks-settings :
    (nums : List ℕ) (error : ℕ) (b : PolicyBuilder)
    → settings_of (block_syscalls_with_errno nums error b) ≡ settings_of b
unfolding block_syscalls_with_errno
blocks-settings [] error b = refl
blocks-settings (num ∷ nums) error b =
    blocks-settings nums error (block_syscall_with_errno num error b) ∙ block-settings num error b

append-settings : (r : Added) (b : PolicyBuilder) → settings_of (append_policy r b) ≡ settings_of b
unfolding set_error
append-settings (added out) b = refl
append-settings (refused e) b = refl

policies-settings :
    (nums : List ℕ) (policy : List SockFilter) (b : PolicyBuilder)
    → settings_of (add_policy_on_syscalls nums policy b) ≡ settings_of b
unfolding add_policy_on_syscalls
policies-settings nums policy b = append-settings (policy_on_syscalls nums policy) b

pub Settled-allow_syscall : (num : ℕ) → Settled (call (allow_syscall num))
Settled-allow_syscall num = Settled-call _ (allow_syscall-settings num)

pub Settled-allow_syscalls : (nums : List ℕ) → Settled (call (allow_syscalls nums))
Settled-allow_syscalls nums = Settled-call _ (allow_syscalls-settings nums)

pub Settled-block : (num error : ℕ) → Settled (call (block_syscall_with_errno num error))
Settled-block num error = Settled-call _ (block-settings num error)

pub Settled-blocks :
    (nums : List ℕ) (error : ℕ) → Settled (call (block_syscalls_with_errno nums error))
Settled-blocks nums error = Settled-call _ (blocks-settings nums error)

pub Settled-overridable :
    (num error : ℕ) → Settled (call (overridable_block_syscall_with_errno num error))
unfolding overridable_block_syscall_with_errno
Settled-overridable num error = Settled-call _ (λ b. refl)

pub Settled-policies :
    (nums : List ℕ) (policy : List SockFilter) → Settled (call (add_policy_on_syscalls nums policy))
Settled-policies nums policy = Settled-call _ (policies-settings nums policy)

pub Settled-policy :
    (num : ℕ) (policy : List SockFilter) → Settled (call (add_policy_on_syscall num policy))
unfolding add_policy_on_syscall
Settled-policy num policy = Settled-call _ (policies-settings (num ∷ []) policy)

pub Settled-funcs : (nums : List ℕ) (f : List Item) → Settled (add_func_on_syscalls nums f)
unfolding add_func_on_syscalls set_error
Settled-funcs nums f = record { at = λ b b' e. resolved (resolve_bpf_func f) b b' e }
  where
    resolved :
        (o : Option (List SockFilter × Bool)) (b b' : PolicyBuilder)
        → with_resolved nums b o ≡ some b'
        → settings_of b' ≡ settings_of b
    resolved none b b' e = absurd (cc e)
    resolved (some (policy, true)) b b' e =
        sym (ap settings_of (some-eq e)) ∙ policies-settings nums policy _
    resolved (some (policy, false)) b b' e =
        sym (ap settings_of (some-eq e)) ∙ policies-settings nums policy b

pub Settled-func : (num : ℕ) (f : List Item) → Settled (add_func_on_syscall num f)
unfolding add_func_on_syscall
Settled-func num f = Settled-funcs _ f

pub Settled-mmap : (f : List Item) → Settled (add_func_on_mmap f)
unfolding add_func_on_mmap
Settled-mmap f = Settled-funcs _ f

pub ruleset settings_rules = (
  Settled-return, Settled-▸, Settled-enable_namespaces, Settled-allow_syscall,
  Settled-allow_syscalls, Settled-block, Settled-blocks, Settled-overridable, Settled-policies,
  Settled-policy, Settled-funcs, Settled-func, Settled-mmap,
)
