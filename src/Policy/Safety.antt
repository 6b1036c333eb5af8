-- ===== src/Policy/Safety.antt =====
-- The filters of sandboxed_api/sandbox2/policy.cc for the policies that
-- sandboxed_api/sandbox2/policybuilder.cc builds.
use googlectf2023_fastbox.Prelude.{
  ℕ, ◌≡◌, ◌≢◌, refl, sym, ap, ◌∙◌, Bool, true, false, List, [], ◌∷◌, ◌++◌, Option, none, some,
  arith,
}
use mathlib.Core.Path.{subst}
use googlectf2023_fastbox.Linux.Syscalls.{nr_bpf, nr_ptrace}
use googlectf2023_fastbox.Linux.Constants.{audit_arch_x86_64}
use googlectf2023_fastbox.Bpf.{SockFilter, ret_k, ret_allow, nr_offset, arch_offset}
use googlectf2023_fastbox.Bpf.Exec.{Words, exec, effect, returned}
use googlectf2023_fastbox.Bpf.Machine.{Machine}
use googlectf2023_fastbox.Bpf.Verdict.{
  decided, passed, IsFragment, IsFragment-append, verdict_of, verdict-append, ◌or_else◌,
}
use googlectf2023_fastbox.PolicyBuilder.State.{PolicyBuilder, new_builder}
use googlectf2023_fastbox.PolicyBuilder.Rules.Sound.{IsSound, IsAction, Guards}
use googlectf2023_fastbox.PolicyBuilder.Build.{Policy, MovedFrom, built_policy, pushed, try_build}
use googlectf2023_fastbox.PolicyBuilder.Build.Once.{try_build-value}
use googlectf2023_fastbox.PolicyBuilder.Calls.{Host, Call, apply_all}
use googlectf2023_fastbox.PolicyBuilder.Calls.Sound.{ArePlain, apply_all-IsSound}
use googlectf2023_fastbox.Status.{value}
use googlectf2023_fastbox.Policy.{Flags, get_policy}
use googlectf2023_fastbox.Policy.Default.{default_verdict, is_untraced_clone}
use googlectf2023_fastbox.Policy.Final.{final_verdict, or_kill, notified, get_policy-verdict}

action-IsFragment : (o : Option SockFilter) → IsAction o → IsFragment (pushed o)
unfolding exec effect
action-IsFragment none h d = passed refl
action-IsFragment (some i) h d = rw (returning i h) (decided i.k)
  where
    returning : (i : SockFilter) → i.code ≡ ret_k → exec d (d nr_offset) 0 (i ∷ []) ≡ returned i.k
    returning i h = ground (arith, h)

-- The rules of a built policy are a fragment.
pub built_policy-IsFragment :
    (b : PolicyBuilder) → IsSound b → IsFragment (built_policy b).user_policy
built_policy-IsFragment b s = IsFragment-append b.user_policy _ s.user (
    IsFragment-append (pushed b.default_action) b.overridable_policy
      (action-IsFragment b.default_action s.action) s.overridable)

-- A call that no policy is to allow: of another architecture, ptrace, bpf, or a clone that would
-- not be traced.
pub data IsForbidden (d : Words) : Type 0 where
  foreign : d arch_offset ≢ audit_arch_x86_64 → IsForbidden d
  ptrace : d nr_offset ≡ nr_ptrace → IsForbidden d
  bpf : d nr_offset ≡ nr_bpf → IsForbidden d
  untraced : is_untraced_clone d ≡ true → IsForbidden d

notified-ne : (u : Bool) (v : ℕ) → v ≢ ret_allow → notified u v ≢ ret_allow
notified-ne true v h e = ground arith
notified-ne false v h e = h e

foreign-ne :
    (u t b : Bool) (d : Words) (o : Option ℕ)
    → d arch_offset ≢ audit_arch_x86_64
    → or_kill (default_verdict u t b d or_else o) ≢ ret_allow
foreign-ne true t b d o h e = ground arith
foreign-ne false t b d o h e = ground arith

untraced-ne :
    (u t b : Bool) (d : Words) (o : Option ℕ)
    → is_untraced_clone d ≡ true
    → or_kill (default_verdict u t b d or_else o) ≢ ret_allow
untraced-ne true t b d o h e = ground arith
untraced-ne false t b d o h e = ground arith

-- A call that is not decided by the default policy where the user's rules decide it.
ptrace-ne :
    (u t b : Bool) (d : Words) (o : Option ℕ)
    → d nr_offset ≡ nr_ptrace
    → (t ≡ true → (v : ℕ) × (o ≡ some v) × (v ≢ ret_allow))
    → or_kill (default_verdict u t b d or_else o) ≢ ret_allow
ptrace-ne true true b d o h k e = let (v, eq, ne) = k refl in ground arith
ptrace-ne true false b d o h k e = ground arith
ptrace-ne false true b d o h k e = let (v, eq, ne) = k refl in ground arith
ptrace-ne false false b d o h k e = ground arith

bpf-ne :
    (u t b : Bool) (d : Words) (o : Option ℕ)
    → d nr_offset ≡ nr_bpf
    → (b ≡ true → (v : ℕ) × (o ≡ some v) × (v ≢ ret_allow))
    → or_kill (default_verdict u t b d or_else o) ≢ ret_allow
bpf-ne true t true d o h k e = let (v, eq, ne) = k refl in ground arith
bpf-ne true t false d o h k e = ground arith
bpf-ne false t true d o h k e = let (v, eq, ne) = k refl in ground arith
bpf-ne false t false d o h k e = ground arith

-- What the rules decide is decided for the built policy.
built-decided :
    (num : ℕ) (flag : Bool) (b : PolicyBuilder) (d : Words)
    → IsSound b
    → Guards num flag b.handled_syscalls b.user_policy
    → d nr_offset ≡ num
    → flag ≡ true
    → (v : ℕ) × (verdict_of d (built_policy b).user_policy ≡ some v) × (v ≢ ret_allow)
built-decided num flag b d s g e t =
    let (v, h, ne) = g.blocked d e t in
    (
      v,
      verdict-append d b.user_policy _ s.user
          ∙ ap (λ o. o or_else verdict_of d (pushed b.default_action ++ b.overridable_policy)) h,
      ne,
    )

final-ne :
    (u : Bool) (b : PolicyBuilder) (d : Words)
    → IsSound b
    → IsForbidden d
    → final_verdict u (built_policy b) d ≢ ret_allow
final-ne u b d s f = notified-ne u _ (elim f [
  | foreign h ↦ foreign-ne u _ _ d _ h
  | ptrace h ↦
      ptrace-ne u b.user_policy_handles_ptrace b.user_policy_handles_bpf d _ h
        (built-decided nr_ptrace _ b d s s.ptrace h)
  | bpf h ↦
      bpf-ne u b.user_policy_handles_ptrace b.user_policy_handles_bpf d _ h
        (built-decided nr_bpf _ b d s s.bpf h)
  | untraced h ↦ untraced-ne u _ _ d _ h
])

built_by :
    (h : Host) (cs : List Call) (moved : MovedFrom) {b b' : PolicyBuilder} {p : Policy}
    → ArePlain cs
    → apply_all h cs new_builder ≡ some b
    → try_build moved b ≡ (value p, b')
    → IsSound b × (p ≡ built_policy b)
built_by h cs moved {b} plain calls built =
    (apply_all-IsSound h cs plain calls, (try_build-value moved b built).1)

-- The verdict of each layer of a builder's rules, the first that has one counting.
abbrev pub action_verdict : Option SockFilter → Option ℕ
action_verdict none = none
action_verdict (some i) = some i.k

abbrev pub layered_verdict : Bool → PolicyBuilder → Words → ℕ
layered_verdict user_notif b d = notified user_notif (
    or_kill (
      default_verdict user_notif b.user_policy_handles_ptrace b.user_policy_handles_bpf d
      or_else (verdict_of d b.user_policy
          or_else (action_verdict b.default_action or_else verdict_of d b.overridable_policy))))

action-verdict :
    (d : Words) (o : Option SockFilter) → IsAction o → verdict_of d (pushed o) ≡ action_verdict o
unfolding exec effect
action-verdict d none h = refl
action-verdict d (some i) h = ground (arith, h)

final-layered :
    (u : Bool) (b : PolicyBuilder) (d : Words)
    → IsSound b
    → final_verdict u (built_policy b) d ≡ layered_verdict u b d
final-layered u b d s =
    ap
      (λ o. notified u (
        or_kill
          (default_verdict u b.user_policy_handles_ptrace b.user_policy_handles_bpf d or_else o)))
      (verdict-append d b.user_policy (pushed b.default_action ++ b.overridable_policy) s.user
        ∙ ap (λ o. verdict_of d b.user_policy or_else o)
            (verdict-append d (pushed b.default_action) b.overridable_policy
                (action-IsFragment b.default_action s.action)
              ∙ ap (λ o. o or_else verdict_of d b.overridable_policy)
                  (action-verdict d b.default_action s.action)))

some-code : {p q : List SockFilter} → some p ≡ some q → p ≡ q
some-code h = cc

built-IsFragment :
    (b : PolicyBuilder) (p : Policy) → IsSound b → p ≡ built_policy b → IsFragment p.user_policy
built-IsFragment b p s same =
    subst (λ q. IsFragment q.user_policy) (sym same) (built_policy-IsFragment b s)

module _ (h : Host) (cs : List Call) (moved : MovedFrom) (m : Machine) (flags : Flags)
    (user_notif : Bool) {b b' : PolicyBuilder} {p : Policy} where
  -- For a policy that is built after any calls of the builder's methods, those with policies of the
  -- user's being plain, and where neither of the two flags is set: its filter is made, and on every
  -- machine the filter's verdict on every call is that of the first layer that decides it, which are
  -- the default policy, the user's rules, the default action and the overridable rules, and KILL if
  -- none does; the notifying monitor has its verdict in place of KILL.
  pub get_policy-layered :
      ArePlain cs
      → apply_all h cs new_builder ≡ some b
      → try_build moved b ≡ (value p, b')
      → flags.permit_all ≡ false
      → flags.permit_all_and_log ≡ false
      → (out : List SockFilter) × (get_policy flags user_notif p ≡ some out)
        × ((d : Words) → m.run d out 0 ≡ some (layered_verdict user_notif b d))
  get_policy-layered plain calls built all log =
      let (s, same) = built_by h cs moved plain calls built in
      let (out, made, runs) =
        get_policy-verdict m flags user_notif p all log (built-IsFragment b p s same) in
      (
        out,
        made,
        λ d.
            runs d
            ∙ ap some
                (ap (λ q. final_verdict user_notif q d) same ∙ final-layered user_notif b d s),
      )

  -- For a policy that is built after any calls of the builder's methods, where each policy of the
  -- user's is plain (for a list of calls that is not empty, within reach of the jumps and without
  -- ptrace and bpf, and of known instructions), and where neither of the two flags that permit all
  -- calls is set: the filter that is made does not allow a forbidden call, which is one of another architecture, ptrace, bpf, or a clone with
  -- CLONE_UNTRACED. Every machine has another verdict on it.
  pub get_policy-IsForbidden :
      {out : List SockFilter}
      → ArePlain cs
      → apply_all h cs new_builder ≡ some b
      → try_build moved b ≡ (value p, b')
      → flags.permit_all ≡ false
      → flags.permit_all_and_log ≡ false
      → get_policy flags user_notif p ≡ some out
      → (d : Words) → IsForbidden d
      → (v : ℕ) × (m.run d out 0 ≡ some v) × (v ≢ ret_allow)
  get_policy-IsForbidden plain calls built all log got d f =
      let (s, same) = built_by h cs moved plain calls built in
      let (out', made, runs) =
        get_policy-verdict m flags user_notif p all log (built-IsFragment b p s same) in
      (
        final_verdict user_notif p d,
        ap (λ q. m.run d q 0) (some-code (sym got ∙ made)) ∙ runs d,
        subst (λ q. final_verdict user_notif q d ≢ ret_allow) (sym same)
            (final-ne user_notif b d s f),
      )
