-- ===== src/PolicyBuilder/Settings/Asked.antt =====
-- The settings of the policy that `TryBuild` of sandboxed_api/sandbox2/policybuilder.cc returns, as the
-- calls before it asked for them.
use googlectf2023_fastbox.Prelude.{
  ◌≡◌, refl, sym, ap, ◌∙◌, true, false, not, ◌&&◌, List, [], ◌∷◌, none, some, arith,
}
use mathlib.Core.Path.{subst}
use googlectf2023_fastbox.Text.{codes, bytes_eq}
use googlectf2023_fastbox.Status.{value}
use googlectf2023_fastbox.PolicyBuilder.State
use googlectf2023_fastbox.PolicyBuilder.State.{
  PolicyBuilder, Method, ◌▸◌, new_builder, default_hostname,
}
use googlectf2023_fastbox.PolicyBuilder.Rules.{call}
use googlectf2023_fastbox.PolicyBuilder.Rules.Func.{some-eq}
use googlectf2023_fastbox.PolicyBuilder.Keeps.{▸-some}
use googlectf2023_fastbox.PolicyBuilder.Build.{
  Namespace, Policy, MovedFrom, built_policy, try_build,
}
use googlectf2023_fastbox.PolicyBuilder.Build.Once.{try_build-value}
use googlectf2023_fastbox.PolicyBuilder.Settings.{
  Settings, settings_of, Settled, settings_rules, Settled-enable_namespaces,
}
use googlectf2023_fastbox.PolicyBuilder.Settings.Mounted.{
  mount_rules, Settled-allow_ipv4, Settled-allow_ipv6,
}
use googlectf2023_fastbox.PolicyBuilder.Settings.Groups.{
  Settled-allow_futex_op, Settled-allow_restartable_sequences, Settled-with_proc_files,
  Settled-allow_llvm_sanitizers, group_method-Settled,
}
use googlectf2023_fastbox.PolicyBuilder.Calls.{
  Host, Call, apply, apply_all, allow_group, allow_syscalls, block_syscalls_with_errno,
  add_policy_on_syscalls, add_func_on_syscalls, allow_futex_op, allow_restartable_sequences,
  allow_restartable_sequences_with_proc_files, allow_llvm_sanitizers, allow_ipv4, allow_ipv6,
  add_file_at, add_directory_at, add_tmpfs, set_hostname, allow_unrestricted_networking,
  enable_namespaces, disable_namespaces, set_root_writable, danger_allow_mount_propagation,
  default_action_allow_all, collect_stacktraces_on_violation, collect_stacktraces_on_signal,
  collect_stacktraces_on_timeout, collect_stacktraces_on_kill, collect_stacktraces_on_exit,
}

-- The settings for a program that asks for none.
abbrev pub default_settings : Settings
default_settings = record {
  on_violation = true;
  on_signal = true;
  on_timeout = true;
  on_kill = false;
  on_exit = false;
  namespaces = true;
  unrestricted_networking = false;
  mount_propagation = false;
  hostname = codes "sandbox2";
}

-- What a call asks for; every other call asks for nothing.
abbrev pub ask : Call → Settings → Settings
ask (set_hostname name) s = record s { hostname = name }
ask allow_unrestricted_networking s = record s { unrestricted_networking = true }
ask disable_namespaces s = record s { namespaces = false }
ask danger_allow_mount_propagation s = record s { mount_propagation = true }
ask (collect_stacktraces_on_violation enable) s = record s { on_violation = enable }
ask (collect_stacktraces_on_signal enable) s = record s { on_signal = enable }
ask (collect_stacktraces_on_timeout enable) s = record s { on_timeout = enable }
ask (collect_stacktraces_on_kill enable) s = record s { on_kill = enable }
ask (collect_stacktraces_on_exit enable) s = record s { on_exit = enable }
ask c s = s

-- The last call that asks for a setting counts.
abbrev pub ask_all : List Call → Settings → Settings
ask_all [] s = s
ask_all (c ∷ cs) s = ask_all cs (ask c s)

-- A policy with these settings.
pub record Obeys (s : Settings) (p : Policy) : Type 0 where
  pub violation : p.collect_stacktrace_on_violation ≡ s.on_violation
  pub signal : p.collect_stacktrace_on_signal ≡ s.on_signal
  pub timeout : p.collect_stacktrace_on_timeout ≡ s.on_timeout
  pub kill : p.collect_stacktrace_on_kill ≡ s.on_kill
  pub exit : p.collect_stacktrace_on_exit ≡ s.on_exit
  pub alone : s.namespaces ≡ false → p.namespace ≡ none
  pub apart :
      s.namespaces ≡ true
      → (n : Namespace) × (p.namespace ≡ some n)
        × (n.hostname ≡ s.hostname)
        × (n.allow_unrestricted_networking ≡ s.unrestricted_networking)
        × (n.allow_mount_propagation ≡ s.mount_propagation)
  pub named :
      s.namespaces ≡ true
      → s.unrestricted_networking ≡ true
      → bytes_eq s.hostname default_hostname ≡ true

-- A method does to the settings what its call asks for.
abbrev Asks : Call → Method → Type 0
Asks c m = (b b' : PolicyBuilder) → m b ≡ some b' → settings_of b' ≡ ask c (settings_of b)

Asks-set :
    (c : Call) (f : PolicyBuilder → PolicyBuilder)
    → ((b : PolicyBuilder) → settings_of (f b) ≡ ask c (settings_of b))
    → Asks c (call f)
Asks-set c f h b b' e = sym (ap settings_of (some-eq e)) ∙ h b

Asks-enabled :
    (c : Call) (f : PolicyBuilder → PolicyBuilder)
    → ((b : PolicyBuilder) → settings_of (f b) ≡ ask c (settings_of b))
    → Asks c (State.enable_namespaces ▸ call f)
Asks-enabled c f h b b' e =
    let (b1, first, later) = ▸-some State.enable_namespaces (call f) b e in
    let kept = Settled-enable_namespaces in
    Asks-set c f h b1 b' later ∙ ap (ask c) (kept.at b b1 first)

Asks-disable : Asks disable_namespaces State.disable_namespaces
unfolding State.disable_namespaces
Asks-disable b b' e = ground arith

ruleset call_settings = (
  settings_rules, mount_rules, Settled-allow_ipv4, Settled-allow_ipv6, Settled-allow_futex_op,
  Settled-allow_restartable_sequences, Settled-with_proc_files, Settled-allow_llvm_sanitizers,
  group_method-Settled,
)

asks_nothing :
    (m : Method)
    → Settled m
    → (b b' : PolicyBuilder) → m b ≡ some b'
    → settings_of b' ≡ settings_of b
asks_nothing m s = s.at

apply-asked : (h : Host) (c : Call) → Asks c (apply h c)
unfolding apply State.danger_allow_mount_propagation State.collect_stacktraces_on_violation
    State.collect_stacktraces_on_signal State.collect_stacktraces_on_timeout
    State.collect_stacktraces_on_kill State.collect_stacktraces_on_exit State.set_hostname
    State.allow_unrestricted State.default_action_allow_all
apply-asked h (allow_group g) = asks_nothing _ (group_method-Settled g)
apply-asked h (allow_syscalls nums) = asks_nothing _ (search call_settings)
apply-asked h (block_syscalls_with_errno nums error) = asks_nothing _ (search call_settings)
apply-asked h (add_policy_on_syscalls nums policy) = asks_nothing _ (search call_settings)
apply-asked h (add_func_on_syscalls nums f) = asks_nothing _ (search call_settings)
apply-asked h (allow_futex_op op) = asks_nothing _ (search call_settings)
apply-asked h (allow_restartable_sequences mode) = asks_nothing _ (search call_settings)
apply-asked h (allow_restartable_sequences_with_proc_files mode) =
    asks_nothing _ (search call_settings)
apply-asked h allow_llvm_sanitizers = asks_nothing _ (search call_settings)
apply-asked h (allow_ipv4 ip_and_mask port) = asks_nothing _ (search call_settings)
apply-asked h (allow_ipv6 ip_and_mask port) = asks_nothing _ (search call_settings)
apply-asked h (add_file_at outside inside is_ro) = asks_nothing _ (search call_settings)
apply-asked h (add_directory_at outside inside is_ro) = asks_nothing _ (search call_settings)
apply-asked h (add_tmpfs inside size) = asks_nothing _ (search call_settings)
apply-asked h (set_hostname name) = Asks-enabled (set_hostname name) _ (λ b. refl)
apply-asked h allow_unrestricted_networking =
    Asks-enabled allow_unrestricted_networking _ (λ b. refl)
apply-asked h enable_namespaces = asks_nothing _ (search call_settings)
apply-asked h disable_namespaces = Asks-disable
apply-asked h set_root_writable = asks_nothing _ (search call_settings)
apply-asked h danger_allow_mount_propagation = Asks-set danger_allow_mount_propagation _ (λ b. refl)
apply-asked h default_action_allow_all = Asks-set default_action_allow_all _ (λ b. refl)
apply-asked h (collect_stacktraces_on_violation enable) =
    Asks-set (collect_stacktraces_on_violation enable) _ (λ b. refl)
apply-asked h (collect_stacktraces_on_signal enable) =
    Asks-set (collect_stacktraces_on_signal enable) _ (λ b. refl)
apply-asked h (collect_stacktraces_on_timeout enable) =
    Asks-set (collect_stacktraces_on_timeout enable) _ (λ b. refl)
apply-asked h (collect_stacktraces_on_kill enable) =
    Asks-set (collect_stacktraces_on_kill enable) _ (λ b. refl)
apply-asked h (collect_stacktraces_on_exit enable) =
    Asks-set (collect_stacktraces_on_exit enable) _ (λ b. refl)

apply_all-asked :
    (h : Host) (cs : List Call) (b b' : PolicyBuilder)
    → apply_all h cs b ≡ some b'
    → settings_of b' ≡ ask_all cs (settings_of b)
unfolding apply_all
apply_all-asked h [] b b' e = sym (ap settings_of (some-eq e))
apply_all-asked h (c ∷ cs) b b' e =
    let (b1, first, later) = ▸-some (apply h c) (apply_all h cs) b e in
    apply_all-asked h cs b1 b' later ∙ ap (ask_all cs) (apply-asked h c b b1 first)

built_policy-Obeys :
    (b : PolicyBuilder)
    → (b.use_namespaces
        && (b.allow_unrestricted_networking && not (bytes_eq b.hostname default_hostname)))
      ≡ false
    → Obeys (settings_of b) (built_policy b)
built_policy-Obeys b named = record {
  violation = refl;
  signal = refl;
  timeout = refl;
  kill = refl;
  exit = refl;
  alone = λ e. ground arith;
  apart = λ e. (
    record {
      allow_unrestricted_networking = b.allow_unrestricted_networking;
      mounts = b.mounts;
      hostname = b.hostname;
      allow_mount_propagation = b.allow_mount_propagation;
    },
    ground arith,
    refl,
    refl,
    refl,
  );
  named = λ e u. ground arith;
}

-- Whatever calls a builder has had, if TryBuild then returns a policy, it collects stack traces on
-- the events that the calls asked for; it has no namespace if they asked for none, and else one with
-- the host name, the networking and the mount propagation that they asked for. Each setting is that
-- of the last call that sets it, or the default. With namespaces and unrestricted
-- networking, the host name is the default one.
pub try_build-asked :
    (h : Host) (cs : List Call) (moved : MovedFrom) {b b' : PolicyBuilder} {p : Policy}
    → apply_all h cs new_builder ≡ some b
    → try_build moved b ≡ (value p, b')
    → Obeys (ask_all cs default_settings) p
try_build-asked h cs moved {b} {p = p} called built =
    let (can, same, left) = try_build-value moved b built in
    subst (λ s. Obeys s p) (apply_all-asked h cs new_builder b called)
      (subst (Obeys (settings_of b)) (sym same) (built_policy-Obeys b can.named))
