-- ===== src/Policy/Default/Pieces.antt =====
-- Each piece of the default policy of sandboxed_api/sandbox2/policy.cc, run on a call.
use googlectf2023_fastbox.Prelude.{
  ℕ, ◌≡◌, refl, ◌∙◌, Bool, true, false, List, [], ◌∷◌, ◌++◌, Option, none, some, if◌then◌else◌,
  arith,
}
use googlectf2023_fastbox.Linux.Syscalls.{nr_ptrace, nr_bpf}
use googlectf2023_fastbox.Bpf.{
  SockFilter, bpf_stmt, ret_k, ret_kill, ret_allow, load_syscall_nr, nr_offset,
}
use googlectf2023_fastbox.Bpf.Exec.{Words, exec, effect, returned, fell, Outcome}
use googlectf2023_fastbox.Bpf.Verdict.{Settles, decided, passed, IsFragment, verdict_of, ◌or_else◌}
use googlectf2023_fastbox.PolicyBuilder.Verify.{sandbox2_trace}
use googlectf2023_fastbox.Bpf.Exec.{resume, exec-append}
use googlectf2023_fastbox.Bpf.Verdict.{verdict}
use mathlib.Core.Path.{subst}
use googlectf2023_fastbox.Policy.Default.{
  arch_verdict, is_listener, is_first_execveat, is_untraced_clone, is_new_listener, start_verdict,
  unless_handled, dangerous_verdict, default_verdict,
}
use googlectf2023_fastbox.Policy.Default.Code.{
  traced_arch, notified_start_code, notified_seccomp, execveat_check, denied_unless, clone_check,
  seccomp_check, start_code, dangerous_code,
}

-- The run ends with that verdict, or is left with the number of the call loaded.
abbrev ends_with : Words → Option ℕ → Outcome
ends_with d (some v) = returned v
ends_with d none = fell (d nr_offset) 0

abbrev pub Decides : List SockFilter → (Words → Option ℕ) → Type 0
Decides q v = (d : Words) → exec d (d nr_offset) 0 q ≡ ends_with d (v d)

resume-ends_with :
    (d : Words) (x y : Option ℕ) (q : List SockFilter)
    → exec d (d nr_offset) 0 q ≡ ends_with d y
    → resume d (ends_with d x) q ≡ ends_with d (x or_else y)
resume-ends_with d (some v) y q h = refl
resume-ends_with d none y q h = h

Decides-append :
    (p q : List SockFilter) (v w : Words → Option ℕ)
    → Decides p v
    → Decides q w
    → Decides (p ++ q) (λ d. v d or_else w d)
Decides-append p q v w hp hq d =
    exec-append d (d nr_offset) 0 p q ∙ rw (hp d) (resume-ends_with d (v d) (w d) q (hq d))

traced_arch-Decides : Decides traced_arch (arch_verdict false)
unfolding exec effect
traced_arch-Decides d = ground arith

notified_arch-Decides : Decides notified_start_code (arch_verdict true)
unfolding exec effect
notified_arch-Decides d = ground arith

listener-Decides : Decides notified_seccomp (λ d. if is_listener d then some ret_allow else none)
unfolding exec effect
listener-Decides d = ground arith

execveat-Decides :
    (k : ℕ)
    → Decides
        (execveat_check (bpf_stmt ret_k k))
        (λ d. if is_first_execveat d then some k else none)
unfolding exec effect
execveat-Decides k d = ground arith

denied-Decides :
    (handled : Bool) (num : ℕ) → Decides (denied_unless handled num) (unless_handled handled num)
unfolding exec effect
denied-Decides true num d = refl
denied-Decides false num d = ground arith

clone-Decides : Decides clone_check (λ d. if is_untraced_clone d then some ret_kill else none)
unfolding exec effect
clone-Decides d = ground arith

-- Once the number of the call is loaded again.
seccomp-Decides :
    Decides
      (seccomp_check ++ (load_syscall_nr ∷ []))
      (λ d. if is_new_listener d then some ret_kill else none)
unfolding exec effect
seccomp-Decides d = ground arith

start-Decides : (user_notif : Bool) → Decides (start_code user_notif) (start_verdict user_notif)
start-Decides true =
    Decides-append _ _ _ _ notified_arch-Decides
      (Decides-append _ _ _ _ listener-Decides (execveat-Decides ret_allow))
start-Decides false = Decides-append _ _ _ _ traced_arch-Decides (execveat-Decides sandbox2_trace.k)

abbrev reloaded : Bool → Bool → List SockFilter
reloaded t b =
    denied_unless t nr_ptrace
    ++ (denied_unless b nr_bpf ++ (clone_check ++ (seccomp_check ++ (load_syscall_nr ∷ []))))

reloaded-Decides : (t b : Bool) → Decides (reloaded t b) (dangerous_verdict t b)
reloaded-Decides t b = Decides-append _ _ _ _ (denied-Decides t nr_ptrace) (
    Decides-append _ _ _ _ (denied-Decides b nr_bpf)
      (Decides-append _ _ _ _ clone-Decides seccomp-Decides))

reloaded_same :
    (u t b : Bool)
    → start_code u ++ reloaded t b ≡ (start_code u ++ dangerous_code t b) ++ (load_syscall_nr ∷ [])
reloaded_same true true true = refl
reloaded_same true true false = refl
reloaded_same true false true = refl
reloaded_same true false false = refl
reloaded_same false true true = refl
reloaded_same false true false = refl
reloaded_same false false true = refl
reloaded_same false false false = refl

-- The whole default policy, with the LOAD_SYSCALL_NR that `GetPolicy` puts behind it.
pub default-Decides :
    (u t b : Bool)
    → Decides
        ((start_code u ++ dangerous_code t b) ++ (load_syscall_nr ∷ []))
        (default_verdict u t b)
default-Decides u t b =
    subst (λ p. Decides p (default_verdict u t b)) (reloaded_same u t b)
      (Decides-append (start_code u) (reloaded t b) (start_verdict u) (dangerous_verdict t b)
        (start-Decides u) (reloaded-Decides t b))

ends_with-Settles : (d : Words) (o : Option ℕ) → Settles (d nr_offset) (ends_with d o)
ends_with-Settles d (some v) = decided v
ends_with-Settles d none = passed refl

verdict-ends_with : (d : Words) (o : Option ℕ) → verdict (ends_with d o) ≡ o
verdict-ends_with d (some v) = refl
verdict-ends_with d none = refl

pub Decides-IsFragment : (p : List SockFilter) (v : Words → Option ℕ) → Decides p v → IsFragment p
Decides-IsFragment p v h d = rw (h d) (ends_with-Settles d (v d))

pub Decides-verdict :
    (p : List SockFilter) (v : Words → Option ℕ) (d : Words) → Decides p v → verdict_of d p ≡ v d
Decides-verdict p v d h = rw (h d) (verdict-ends_with d (v d))
