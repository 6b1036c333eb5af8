-- ===== src/PolicyBuilder/Keeps/Same.antt =====
-- Methods of sandboxed_api/sandbox2/policybuilder.cc that leave the rules alone.
use googlectf2023_fastbox.Prelude.{ℕ, ◌≡◌, sym, Bool, List, Option, some}
use mathlib.Core.Path.{subst}
use googlectf2023_fastbox.Linux.Syscalls.{nr_bpf, nr_ptrace}
use googlectf2023_fastbox.Bpf.{SockFilter}
use googlectf2023_fastbox.Bpf.Verdict.{IsFragment}
use googlectf2023_fastbox.PolicyBuilder.State.{PolicyBuilder, Method}
use googlectf2023_fastbox.PolicyBuilder.Rules.Sound.{IsSound, IsAction, Guards}
use googlectf2023_fastbox.PolicyBuilder.Keeps.{Keeps}

-- The fields that the rules are kept in.
pub record RuleFields : Type 0 where
  pub user_policy : List SockFilter
  pub action : Option SockFilter
  pub overridable_policy : List SockFilter
  pub handles_bpf : Bool
  pub handles_ptrace : Bool
  pub handled : List ℕ

abbrev pub rules_of : PolicyBuilder → RuleFields
rules_of b = record {
  user_policy = b.user_policy;
  action = b.default_action;
  overridable_policy = b.overridable_policy;
  handles_bpf = b.user_policy_handles_bpf;
  handles_ptrace = b.user_policy_handles_ptrace;
  handled = b.handled_syscalls;
}

record SoundRules (r : RuleFields) : Type 0 where
  user : IsFragment r.user_policy
  action : IsAction r.action
  overridable : IsFragment r.overridable_policy
  bpf : Guards nr_bpf r.handles_bpf r.handled r.user_policy
  ptrace : Guards nr_ptrace r.handles_ptrace r.handled r.user_policy

pub IsSound-same : (b c : PolicyBuilder) → rules_of b ≡ rules_of c → IsSound b → IsSound c
IsSound-same b c e s =
    let t : SoundRules (rules_of c) = subst SoundRules e (record {
      user = s.user;
      action = s.action;
      overridable = s.overridable;
      bpf = s.bpf;
      ptrace = s.ptrace;
    }) in
    record {
      user = t.user;
      action = t.action;
      overridable = t.overridable;
      bpf = t.bpf;
      ptrace = t.ptrace;
    }

-- What a method does to the rules is nothing.
pub Keeps-same :
    (m : Method) → ((b c : PolicyBuilder) → m b ≡ some c → rules_of c ≡ rules_of b) → Keeps m
Keeps-same m h = record { at = λ b {b'} s e. IsSound-same b b' (sym (h b b' e)) s }
