-- ===== src/PolicyBuilder/Calls/Sound.antt =====
-- Calls of a `PolicyBuilder` (sandboxed_api/sandbox2/policybuilder.cc) and its soundness.
use googlectf2023_fastbox.Prelude.{
  ℕ, ◌≤◌, ◌≡◌, refl, true, false, List, [], ◌∷◌, some, length, arith,
}
use googlectf2023_fastbox.Text.{Bytes}
use googlectf2023_fastbox.Bpf.{SockFilter}
use googlectf2023_fastbox.Bpf.Labels.{Item}
use googlectf2023_fastbox.Linux.Syscalls.{nr_bpf, nr_ptrace}
use googlectf2023_fastbox.Bpf.Exec.{exec}
use googlectf2023_fastbox.Bpf.Verdict.{IsFragment-nil}
use googlectf2023_fastbox.PolicyBuilder.Verify.Sound.{AllKnown}
use googlectf2023_fastbox.PolicyBuilder.Dispatch.Fragment.{IsShort}
use googlectf2023_fastbox.PolicyBuilder.State
use googlectf2023_fastbox.PolicyBuilder.State.{PolicyBuilder, Method, new_builder}
use googlectf2023_fastbox.PolicyBuilder.Rules
use googlectf2023_fastbox.PolicyBuilder.Rules.Known.{known_items}
use googlectf2023_fastbox.PolicyBuilder.Rules.Sound.{
  IsSound, Guards, Spares, block_syscall_with_errno-IsSound, add_policy_on_syscalls-IsSound,
}
use googlectf2023_fastbox.PolicyBuilder.Rules.Func.{add_func_on_syscalls-IsSound}
use googlectf2023_fastbox.PolicyBuilder.Keeps.{
  Keeps, Keeps-call, Keeps-return, Keeps-▸, keeps_rules,
}
use googlectf2023_fastbox.PolicyBuilder.Keeps.Same.{Keeps-same, rules_of, IsSound-same}
use googlectf2023_fastbox.PolicyBuilder.FileMounts.Sound.{mount_rules, Keeps-enable_namespaces}
use googlectf2023_fastbox.PolicyBuilder.Groups.Memory.Sound.{memory_rules}
use googlectf2023_fastbox.PolicyBuilder.Groups.Network.Sound.{network_rules}
use googlectf2023_fastbox.PolicyBuilder.Calls.Groups.{group_method-Keeps}
use googlectf2023_fastbox.PolicyBuilder.Calls.{
  Host, Call, apply, apply_all, allow_group, allow_syscalls, block_syscalls_with_errno,
  add_policy_on_syscalls, add_func_on_syscalls, allow_futex_op, allow_restartable_sequences,
  allow_restartable_sequences_with_proc_files, allow_llvm_sanitizers, allow_ipv4, allow_ipv6,
  add_file_at, add_directory_at, add_tmpfs, set_hostname, allow_unrestricted_networking,
  enable_namespaces, disable_namespaces, set_root_writable, danger_allow_mount_propagation,
  default_action_allow_all, collect_stacktraces_on_violation, collect_stacktraces_on_signal,
  collect_stacktraces_on_timeout, collect_stacktraces_on_kill, collect_stacktraces_on_exit,
}

block_syscalls_with_errno-IsSound :
    (nums : List ℕ) (error : ℕ) (b : PolicyBuilder)
    → IsSound b
    → IsSound (Rules.block_syscalls_with_errno nums error b)
unfolding Rules.block_syscalls_with_errno
block_syscalls_with_errno-IsSound [] error b s = s
block_syscalls_with_errno-IsSound (num ∷ nums) error b s =
    block_syscalls_with_errno-IsSound nums error (Rules.block_syscall_with_errno num error b)
      (block_syscall_with_errno-IsSound num error b s)

-- What is asked of a policy that the user writes: a list of calls that is neither empty nor longer
-- than the jumps reach, without bpf and ptrace; and instructions that the machine knows.
abbrev pub IsPlain : Call → Type 0
IsPlain (add_policy_on_syscalls nums policy) =
    (1 ≤ length nums) × AllKnown policy × IsShort nums policy × Spares nums
IsPlain (add_func_on_syscalls nums f) =
    (1 ≤ length nums) × (length nums ≤ 255) × (known_items f ≡ true) × Spares nums
IsPlain c = Unit {0}

Keeps-blocks :
    (nums : List ℕ) (error : ℕ) → Keeps (Rules.call (Rules.block_syscalls_with_errno nums error))
Keeps-blocks nums error = Keeps-call _ (block_syscalls_with_errno-IsSound nums error)

Keeps-policies :
    (nums : List ℕ) (policy : List SockFilter)
    → IsPlain (add_policy_on_syscalls nums policy)
    → Keeps (Rules.call (Rules.add_policy_on_syscalls nums policy))
Keeps-policies [] policy plain = absurd (omega (arith, plain.0))
Keeps-policies (num ∷ nums) policy (_, known, short, spares) =
    Keeps-call _ (λ b s. add_policy_on_syscalls-IsSound num nums policy b known short spares s)

Keeps-funcs :
    (nums : List ℕ) (f : List Item)
    → IsPlain (add_func_on_syscalls nums f)
    → Keeps (Rules.add_func_on_syscalls nums f)
Keeps-funcs [] f plain = absurd (omega (arith, plain.0))
Keeps-funcs (num ∷ nums) f (_, short, known, spares) = record {
  at = λ b s e. add_func_on_syscalls-IsSound num nums f b known spares short s e;
}

-- The methods that set a field.
Keeps-disable : Keeps State.disable_namespaces
unfolding State.disable_namespaces
Keeps-disable = Keeps-same _ (λ b c h. ground arith)

Keeps-set :
    (f : PolicyBuilder → PolicyBuilder)
    → ((b : PolicyBuilder) → rules_of b ≡ rules_of (f b))
    → Keeps (Rules.call f)
Keeps-set f h = Keeps-call f (λ b s. IsSound-same b (f b) (h b) s)

Keeps-unrestricted : Keeps State.allow_unrestricted
unfolding State.allow_unrestricted
Keeps-unrestricted = Keeps-▸ _ _ Keeps-enable_namespaces (Keeps-set _ (λ b. refl))

Keeps-hostname : (name : Bytes) → Keeps (State.set_hostname name)
unfolding State.set_hostname
Keeps-hostname name = Keeps-▸ _ _ Keeps-enable_namespaces (Keeps-set _ (λ b. refl))

Keeps-default_action : Keeps State.default_action_allow_all
unfolding State.default_action_allow_all
Keeps-default_action = Keeps-call _ (λ b s. record {
  user = s.user;
  action = refl;
  overridable = s.overridable;
  bpf = s.bpf;
  ptrace = s.ptrace;
})

ruleset call_rules = (
  keeps_rules, mount_rules, memory_rules, network_rules, group_method-Keeps, Keeps-blocks,
  Keeps-policies, Keeps-funcs, Keeps-disable, Keeps-unrestricted, Keeps-hostname,
  Keeps-default_action,
)

apply-Keeps : (h : Host) (c : Call) → IsPlain c → Keeps (apply h c)
unfolding apply State.danger_allow_mount_propagation State.collect_stacktraces_on_violation
    State.collect_stacktraces_on_signal State.collect_stacktraces_on_timeout
    State.collect_stacktraces_on_kill State.collect_stacktraces_on_exit
apply-Keeps h (allow_group g) p = group_method-Keeps g
apply-Keeps h (allow_syscalls nums) p = search call_rules
apply-Keeps h (block_syscalls_with_errno nums error) p = search call_rules
apply-Keeps h (add_policy_on_syscalls nums policy) p = Keeps-policies nums policy p
apply-Keeps h (add_func_on_syscalls nums f) p = Keeps-funcs nums f p
apply-Keeps h (allow_futex_op op) p = search call_rules
apply-Keeps h (allow_restartable_sequences mode) p = search call_rules
apply-Keeps h (allow_restartable_sequences_with_proc_files mode) p = search call_rules
apply-Keeps h allow_llvm_sanitizers p = search call_rules
apply-Keeps h (allow_ipv4 ip_and_mask port) p = search call_rules
apply-Keeps h (allow_ipv6 ip_and_mask port) p = search call_rules
apply-Keeps h (add_file_at outside inside is_ro) p = search call_rules
apply-Keeps h (add_directory_at outside inside is_ro) p = search call_rules
apply-Keeps h (add_tmpfs inside size) p = search call_rules
apply-Keeps h (set_hostname name) p = search call_rules
apply-Keeps h allow_unrestricted_networking p = search call_rules
apply-Keeps h enable_namespaces p = search call_rules
apply-Keeps h disable_namespaces p = search call_rules
apply-Keeps h set_root_writable p = search call_rules
apply-Keeps h danger_allow_mount_propagation p = Keeps-set _ (λ b. refl)
apply-Keeps h default_action_allow_all p = search call_rules
apply-Keeps h (collect_stacktraces_on_violation enable) p = Keeps-set _ (λ b. refl)
apply-Keeps h (collect_stacktraces_on_signal enable) p = Keeps-set _ (λ b. refl)
apply-Keeps h (collect_stacktraces_on_timeout enable) p = Keeps-set _ (λ b. refl)
apply-Keeps h (collect_stacktraces_on_kill enable) p = Keeps-set _ (λ b. refl)
apply-Keeps h (collect_stacktraces_on_exit enable) p = Keeps-set _ (λ b. refl)

abbrev pub ArePlain : List Call → Type 0
ArePlain [] = Unit {0}
ArePlain (c ∷ cs) = IsPlain c × ArePlain cs

pub apply_all-Keeps : (h : Host) (cs : List Call) → ArePlain cs → Keeps (apply_all h cs)
unfolding apply_all
apply_all-Keeps h [] p = Keeps-return
apply_all-Keeps h (c ∷ cs) (p, ps) =
    Keeps-▸ (apply h c) (apply_all h cs) (apply-Keeps h c p) (apply_all-Keeps h cs ps)

false-ne-true : false ≡ true → ⊥
false-ne-true h = cc

unset-Guards : (num : ℕ) → Guards num false [] []
unfolding exec
unset-Guards num = record { unseen = λ d e c. refl; blocked = λ d e f. absurd (false-ne-true f) }

pub new_builder-IsSound : IsSound new_builder
new_builder-IsSound = record {
  user = IsFragment-nil;
  action = tt;
  overridable = IsFragment-nil;
  bpf = unset-Guards nr_bpf;
  ptrace = unset-Guards nr_ptrace;
}

-- A builder that has had any calls of the modelled public methods, those with policies of the user's
-- being plain, is sound: its policies are fragments, and where it says that the user's policy handles
-- bpf or ptrace, that policy decides every such call, and does not allow it.
pub apply_all-IsSound :
    (h : Host) (cs : List Call) {b : PolicyBuilder}
    → ArePlain cs
    → apply_all h cs new_builder ≡ some b
    → IsSound b
apply_all-IsSound h cs p e =
    let k = apply_all-Keeps h cs p in k.at new_builder new_builder-IsSound e
