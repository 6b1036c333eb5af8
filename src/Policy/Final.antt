-- ===== src/Policy/Final.antt =====
-- The verdict of the filter that sandboxed_api/sandbox2/policy.cc installs.
use googlectf2023_fastbox.Prelude.{
  ℕ, zero, suc, ◌≡◌, refl, ap, ◌∙◌, Bool, true, false, List, [], ◌∷◌, ◌++◌, map, Option, none, some,
  if◌then◌else◌, ◌==◌, arith,
}
use mathlib.Core.List.{append_assoc}
use googlectf2023_fastbox.Bpf.{
  SockFilter, ret_kill, ret_user_notif, kill, nr_offset, load_syscall_nr,
}
use googlectf2023_fastbox.Bpf.Exec.{
  Words, exec, effect, returned, fell, stuck, Outcome, Effect, done, next, fault, follow,
}
use googlectf2023_fastbox.Bpf.Machine.{Machine, run_exec}
use googlectf2023_fastbox.Bpf.Verdict.{IsFragment, verdict, verdict_of, verdict-append, ◌or_else◌}
use googlectf2023_fastbox.PolicyBuilder.Build.{Policy}
use googlectf2023_fastbox.Policy.{Flags, get_policy, notify_kill}
use googlectf2023_fastbox.Policy.Default.{default_verdict}
use googlectf2023_fastbox.Policy.Default.Code.{start_code, dangerous_code, default_code-resolved}
use googlectf2023_fastbox.Policy.Default.Pieces.{
  default-Decides, Decides-IsFragment, Decides-verdict,
}

-- The verdict that the notifying monitor has in place of KILL.
abbrev pub notified : Bool → ℕ → ℕ
notified false v = v
notified true v = if v == ret_kill then ret_user_notif else v

abbrev notified_outcome : Outcome → Outcome
notified_outcome (returned v) = returned (notified true v)
notified_outcome (fell a n) = fell a n
notified_outcome stuck = stuck

abbrev notified_effect : Effect → Effect
notified_effect (done v) = done (notified true v)
notified_effect (next a n) = next a n
notified_effect fault = fault

effect-notify_kill :
    (d : Words) (i : SockFilter) (a : ℕ)
    → effect d (notify_kill i) a ≡ notified_effect (effect d i a)
unfolding effect notify_kill
effect-notify_kill d i a = ground arith

follow-notified :
    (f g : ℕ → ℕ → Outcome) (e : Effect)
    → ((a n : ℕ) → g a n ≡ notified_outcome (f a n))
    → follow g (notified_effect e) ≡ notified_outcome (follow f e)
follow-notified f g (done v) h = refl
follow-notified f g (next a n) h = h a n
follow-notified f g fault h = refl

exec-notify_kill :
    (d : Words) (a n : ℕ) (p : List SockFilter)
    → exec d a n (map notify_kill p) ≡ notified_outcome (exec d a n p)
unfolding exec
exec-notify_kill d a n [] = refl
exec-notify_kill d a (suc n) (i ∷ p) = exec-notify_kill d a n p
exec-notify_kill d a zero (i ∷ p) =
    ap (follow (λ a' n'. exec d a' n' (map notify_kill p))) (effect-notify_kill d i a)
    ∙ follow-notified (λ a' n'. exec d a' n' p) (λ a' n'. exec d a' n' (map notify_kill p))
        (effect d i a) (λ a' n'. exec-notify_kill d a' n' p)

-- What decides a call that no rule decides.
abbrev pub or_kill : Option ℕ → ℕ
or_kill (some v) = v
or_kill none = ret_kill

or_kill-verdict :
    (d : Words) (p : List SockFilter)
    → IsFragment p
    → verdict_of d (p ++ kill ∷ []) ≡ some (or_kill (verdict_of d p))
unfolding exec effect
or_kill-verdict d p frag = verdict-append d p (kill ∷ []) frag ∙ either (verdict_of d p)
  where
    either : (o : Option ℕ) → o or_else some ret_kill ≡ some (or_kill o)
    either none = refl
    either (some v) = refl

-- The default policy first, then the user's rules, then KILL.
abbrev pub final_verdict : Bool → Policy → Words → ℕ
final_verdict user_notif p d = notified user_notif (
    or_kill (
      default_verdict user_notif p.user_policy_handles_ptrace p.user_policy_handles_bpf d
      or_else verdict_of d p.user_policy))

abbrev whole : Bool → Policy → List SockFilter
whole user_notif p =
    (start_code user_notif ++ dangerous_code p.user_policy_handles_ptrace p.user_policy_handles_bpf)
    ++ (load_syscall_nr ∷ [])
    ++ p.user_policy
    ++ (kill ∷ [])

-- The filter that is made for a policy; that of the notifying monitor is rewritten.
abbrev pub notified_code : Bool → List SockFilter → List SockFilter
notified_code u code = if u then map notify_kill code else code

get_policy-whole :
    (flags : Flags) (u : Bool) (p : Policy)
    → flags.permit_all ≡ false
    → flags.permit_all_and_log ≡ false
    → get_policy flags u p ≡ some (notified_code u (whole u p))
unfolding get_policy
get_policy-whole flags u p all log = rw (all, log, default_code-resolved u p) refl

whole-verdict :
    (u : Bool) (p : Policy) (d : Words)
    → IsFragment p.user_policy
    → verdict_of d (whole u p)
      ≡ some (
          or_kill (
            default_verdict u p.user_policy_handles_ptrace p.user_policy_handles_bpf d
            or_else verdict_of d p.user_policy))
whole-verdict u p d frag =
    let t = p.user_policy_handles_ptrace in
    let b = p.user_policy_handles_bpf in
    let start = (start_code u ++ dangerous_code t b) ++ (load_syscall_nr ∷ []) in
    let v = default_verdict u t b in
    let decides = default-Decides u t b in
    let is_start = Decides-IsFragment start v decides in
    ap (verdict_of d) (append_assoc start p.user_policy (kill ∷ []))
    ∙ verdict-append d start (p.user_policy ++ (kill ∷ [])) is_start
    ∙ rw (Decides-verdict start v d decides, or_kill-verdict d p.user_policy frag)
        (either (v d) (verdict_of d p.user_policy))
  where
    either : (x y : Option ℕ) → x or_else some (or_kill y) ≡ some (or_kill (x or_else y))
    either none y = refl
    either (some v) y = refl

either_outcome :
    (u : Bool) (o : Outcome) {v : ℕ}
    → verdict o ≡ some v
    → (if u then notified_outcome o else o) ≡ returned (notified u v)
either_outcome true o h = ground arith
either_outcome false o h = ground arith

whole-exec :
    (u : Bool) (p : Policy) (d : Words) (v : ℕ)
    → verdict_of d (whole u p) ≡ some v
    → exec d 0 0 (notified_code u (whole u p)) ≡ returned (notified u v)
unfolding exec effect notify_kill
whole-exec true p d v h =
    exec-notify_kill d (d nr_offset) 0 (whole true p) ∙ either_outcome true _ h
whole-exec false p d v h = either_outcome false (exec d (d nr_offset) 0 (whole false p)) h

-- For a policy whose rules are a fragment, and where neither of the two flags is set, the filter is made
-- and has on every machine and every call the verdict of the default policy, else of the rules, else
-- KILL, and in place of KILL the notifying monitor's.
pub get_policy-verdict :
    (m : Machine) (flags : Flags) (u : Bool) (p : Policy)
    → flags.permit_all ≡ false
    → flags.permit_all_and_log ≡ false
    → IsFragment p.user_policy
    → (out : List SockFilter) × (get_policy flags u p ≡ some out)
      × ((d : Words) → m.run d out 0 ≡ some (final_verdict u p d))
get_policy-verdict m flags u p all log frag = (
  notified_code u (whole u p),
  get_policy-whole flags u p all log,
  λ d. run_exec m d 0 0 _ _ (whole-exec u p d _ (whole-verdict u p d frag)),
)
