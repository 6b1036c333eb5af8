-- ===== src/Monitor/Judged.antt =====
-- sandboxed_api/sandbox2/monitor_ptrace.cc: what becomes of a call that violates the policy.
use googlectf2023_fastbox.Prelude.{
  ℕ, ◌≡◌, refl, sym, ap, Bool, true, false, not, List, [], ◌∷◌, some, if◌then◌else◌,
}
use mathlib.Core.Path.{subst}
use googlectf2023_fastbox.Monitor.{
  StatusEnum, violation, is_unset, set_exit_status_code, Result, Syscall, ViolationType, Act,
  continue_process, stop_process, complete_syscall, skip_syscall, event_signal,
  event_syscall_violation, event_syscall_return, Setup, PtraceMonitor,
  action_process_syscall_violation,
}
use googlectf2023_fastbox.Monitor.Outcomes.{
  Outcome, same, decided, violated, continued, signalled, ended, enabled, finished, stopped,
  inspected, forgotten, after_wait-Outcome,
}
use googlectf2023_fastbox.Monitor.Runs.{
  Event, deadline_passed, dump_requested, kill_requested, network_violated, no_child, waited,
  loop_body, kill_sandboxee, interrupt_sandboxee, run,
}

pub is_report : Act → Bool
is_report (event_syscall_violation s t) = true
is_report (continue_process pid sig) = false
is_report (stop_process pid sig) = false
is_report (complete_syscall pid sig) = false
is_report (skip_syscall pid) = false
is_report (event_signal pid sig) = false
is_report (event_syscall_return s v) = false

-- No violation is reported.
pub data Quiet : List Act → Type 0 where
  quiet : Quiet []
  calm : {a : Act} {acts : List Act} → is_report a ≡ false → Quiet acts → Quiet (a ∷ acts)

-- Either no violation is reported, or one is, as the last thing but that the call is skipped, and
-- the result is about that call.
pub data Judged (m : PtraceMonitor) : Type 0 where
  clear : Quiet m.acts → Judged m
  judged :
      (pid : ℕ) (s : Syscall) (t : ViolationType) (acts : List Act)
      → m.acts ≡ skip_syscall pid ∷ event_syscall_violation s t ∷ acts
      → Quiet acts
      → m.result.final_status ≡ violation
      → m.result.reason_code ≡ s.nr
      → m.result.syscall ≡ some s
      → Judged m

set_exit_status_code-unset :
    (s : StatusEnum) (code : ℕ) (r : Result)
    → is_unset r.final_status ≡ true
    → set_exit_status_code s code r ≡ record r { final_status = s; reason_code = code }
unfolding set_exit_status_code
set_exit_status_code-unset s code r e =
    ap (λ b. if not b then r else record r { final_status = s; reason_code = code }) e

kept-Judged :
    {c : Setup} {pid : ℕ} {m m' : PtraceMonitor}
    → Outcome c pid m m'
    → is_unset m.result.final_status ≡ true
    → Quiet m.acts
    → Judged m'
unfolding action_process_syscall_violation is_report
kept-Judged (same m) e q = clear q
kept-Judged (decided s code m) e q = clear q
kept-Judged {pid = pid} (violated s t m) e q =
    judged pid s t m.acts refl q
      (ap (λ r. r.final_status) (set_exit_status_code-unset violation s.nr m.result e))
      (ap (λ r. r.reason_code) (set_exit_status_code-unset violation s.nr m.result e)) refl
kept-Judged (continued sig m) e q = clear (calm refl q)
kept-Judged (signalled sig m) e q = clear (calm refl (calm refl q))
kept-Judged (ended s v m) e q = clear (calm refl (calm refl q))
kept-Judged (enabled m) e q = clear (calm refl q)
kept-Judged (finished s code m) e q = clear (calm refl q)
kept-Judged (stopped m) e q = clear (calm refl q)
kept-Judged (inspected s m h) e q = clear (calm refl q)
kept-Judged (forgotten o) e q = kept-Judged o e q

loop_body-Judged :
    (c : Setup) (e : Event) (m : PtraceMonitor)
    → is_unset m.result.final_status ≡ true
    → Quiet m.acts
    → Judged (loop_body c e m)
unfolding loop_body kill_sandboxee interrupt_sandboxee
loop_body-Judged c (deadline_passed true) m u q = clear q
loop_body-Judged c (deadline_passed false) m u q = clear q
loop_body-Judged c (dump_requested true) m u q = clear q
loop_body-Judged c (dump_requested false) m u q = clear q
loop_body-Judged c (kill_requested true) m u q = clear q
loop_body-Judged c (kill_requested false) m u q = clear q
loop_body-Judged c (network_violated killed) m u q = by_flags m.network_violation killed
  where
    by_flags :
        (b k : Bool)
        → Judged (if b then m else kill_sandboxee k (record m { network_violation = true }))
    by_flags true k = clear q
    by_flags false true = clear q
    by_flags false false = clear q
loop_body-Judged c no_child m u q = clear q
loop_body-Judged c (waited pid status event_msg regs) m u q =
    kept-Judged (after_wait-Outcome c pid status event_msg regs m) u q

-- From a monitor that has reported no violation, or one as said here, the loop of Run, whatever it
-- finds, reports none, or exactly one: then the call is skipped, the loop continues no process any
-- more, the status is VIOLATION with the number of that call for its reason, and the result holds the
-- call.
pub run-Judged : (c : Setup) (es : List Event) (m : PtraceMonitor) → Judged m → Judged (run c es m)
unfolding run
run-Judged c [] m j = j
run-Judged c (e ∷ es) m (judged pid s t acts a q f r y) =
    subst (λ b. Judged (if b then run c es (loop_body c e m) else m)) (sym (ap is_unset f))
      (judged pid s t acts a q f r y)
run-Judged c (e ∷ es) m (clear q) =
    by_status (is_unset m.result.final_status) refl (λ j. run-Judged c es (loop_body c e m) j)
  where
    by_status :
        (b : Bool)
        → is_unset m.result.final_status ≡ b
        → (Judged (loop_body c e m) → Judged (run c es (loop_body c e m)))
        → Judged (if b then run c es (loop_body c e m) else m)
    by_status true u rest = rest (loop_body-Judged c e m u q)
    by_status false u rest = clear q
