-- ===== src/Monitor/Runs.antt =====
-- sandboxed_api/sandbox2/monitor_ptrace.cc: the loop of the monitor, over what happens to it.
use googlectf2023_fastbox.Prelude.{
  ℕ, ◌≡◌, refl, sym, Bool, true, false, List, [], ◌∷◌, ◌==◌, if◌then◌else◌,
}
use mathlib.Core.Path.{subst}
use googlectf2023_fastbox.Monitor.{
  internal_error, is_unset, Syscall, inspect_after_return, Setup, PtraceMonitor, Fetch, EventMsg,
  set_status, erase_pid, action_process_syscall_violation,
}
use googlectf2023_fastbox.Monitor.Stops.{after_wait}
use googlectf2023_fastbox.Monitor.Outcomes.{
  Outcome, same, decided, violated, continued, signalled, ended, enabled, finished, stopped,
  inspected, forgotten, after_wait-Outcome,
}

-- What a round of the loop finds, in this order: a deadline that has passed, a request to dump the
-- stack or to kill, a violation of the network proxy, each with whether kill(2) or ptrace(2) then
-- succeeds; and no child left, or a process that waitpid(2) returns, with what the handlers then
-- ask of the kernel. A round that finds several is as many elements of the list.
pub data Event : Type 0 where
  deadline_passed dump_requested kill_requested network_violated : Bool → Event
  no_child : Event
  waited : ℕ → ℕ → EventMsg → Fetch → Event

abbrev pub failed_kill : ℕ
failed_kill = 17

-- KillSandboxee
unfoldable pub kill_sandboxee : Bool → PtraceMonitor → PtraceMonitor
kill_sandboxee killed m = if killed then m else set_status internal_error failed_kill m

abbrev pub failed_interrupt : ℕ
failed_interrupt = 18

-- InterruptSandboxee
unfoldable pub interrupt_sandboxee : Bool → PtraceMonitor → PtraceMonitor
interrupt_sandboxee interrupted m =
    if interrupted then m else set_status internal_error failed_interrupt m

abbrev pub failed_child : ℕ
failed_child = 19

-- A part of the loop's body.
unfoldable pub loop_body : Setup → Event → PtraceMonitor → PtraceMonitor
unfolding kill_sandboxee interrupt_sandboxee
loop_body c (deadline_passed killed) m = kill_sandboxee killed (record m { timed_out = true })
loop_body c (dump_requested interrupted) m = interrupt_sandboxee interrupted m
loop_body c no_child m = set_status internal_error failed_child m
loop_body c (kill_requested killed) m = kill_sandboxee killed (record m { external_kill = true })
loop_body c (network_violated killed) m =
    if m.network_violation then m else kill_sandboxee killed (record m { network_violation = true })
loop_body c (waited pid status event_msg regs) m = after_wait c pid status event_msg regs m

-- Run, the loop: it ends when the status is set.
unfoldable pub run : Setup → List Event → PtraceMonitor → PtraceMonitor
unfolding loop_body
run c [] m = m
run c (e ∷ es) m =
    let rest = run c es (loop_body c e m) in if is_unset m.result.final_status then rest else m

-- Every call in progress is one for which `Notify` has asked to inspect what it returns.
unfoldable pub AllInspected : Setup → List (ℕ × Syscall) → Type 0
AllInspected c [] = Unit {0}
AllInspected c ((pid, s) ∷ calls) =
    (c.event_syscall_trace s ≡ inspect_after_return) × AllInspected c calls

erase_pid-AllInspected :
    (c : Setup) (pid : ℕ) (calls : List (ℕ × Syscall))
    → AllInspected c calls
    → AllInspected c (erase_pid pid calls)
unfolding AllInspected
erase_pid-AllInspected c pid [] h = tt
erase_pid-AllInspected c pid ((key, s) ∷ calls) h =
    by_key (key == pid) (erase_pid-AllInspected c pid calls h.1)
  where
    by_key :
        (b : Bool)
        → AllInspected c (erase_pid pid calls)
        → AllInspected c (if b then erase_pid pid calls else (key, s) ∷ erase_pid pid calls)
    by_key true others = others
    by_key false others = (h.0, others)

kept-AllInspected :
    {c : Setup} {pid : ℕ} {m m' : PtraceMonitor}
    → Outcome c pid m m'
    → AllInspected c m.syscalls_in_progress
    → AllInspected c m'.syscalls_in_progress
unfolding AllInspected action_process_syscall_violation
kept-AllInspected (same m) h = h
kept-AllInspected (decided s code m) h = h
kept-AllInspected (violated s t m) h = h
kept-AllInspected (continued sig m) h = h
kept-AllInspected (signalled sig m) h = h
kept-AllInspected {c = c} {pid = pid} (ended s v m) h =
    erase_pid-AllInspected c pid m.syscalls_in_progress h
kept-AllInspected (enabled m) h = h
kept-AllInspected (finished s code m) h = h
kept-AllInspected (stopped m) h = h
kept-AllInspected {c = c} {pid = pid} (inspected s m e) h =
    (e, erase_pid-AllInspected c pid m.syscalls_in_progress h)
kept-AllInspected {c = c} {pid = pid} {m = m} (forgotten o) h =
    kept-AllInspected o (erase_pid-AllInspected c pid m.syscalls_in_progress h)

kill_sandboxee-calls :
    (killed : Bool) (m : PtraceMonitor)
    → (kill_sandboxee killed m).syscalls_in_progress ≡ m.syscalls_in_progress
unfolding kill_sandboxee
kill_sandboxee-calls true m = refl
kill_sandboxee-calls false m = refl

interrupt_sandboxee-calls :
    (interrupted : Bool) (m : PtraceMonitor)
    → (interrupt_sandboxee interrupted m).syscalls_in_progress ≡ m.syscalls_in_progress
unfolding interrupt_sandboxee
interrupt_sandboxee-calls true m = refl
interrupt_sandboxee-calls false m = refl

loop_body-AllInspected :
    (c : Setup) (e : Event) (m : PtraceMonitor)
    → AllInspected c m.syscalls_in_progress
    → AllInspected c (loop_body c e m).syscalls_in_progress
unfolding loop_body
loop_body-AllInspected c (deadline_passed killed) m h =
    subst (AllInspected c) (sym (kill_sandboxee-calls killed (record m { timed_out = true }))) h
loop_body-AllInspected c no_child m h = h
loop_body-AllInspected c (dump_requested interrupted) m h =
    subst (AllInspected c) (sym (interrupt_sandboxee-calls interrupted m)) h
loop_body-AllInspected c (kill_requested killed) m h =
    subst (AllInspected c) (sym (kill_sandboxee-calls killed (record m { external_kill = true }))) h
loop_body-AllInspected c (network_violated killed) m h = by_flag m.network_violation
  where
    by_flag :
        (b : Bool)
        → AllInspected c
            (if b
              then m
              else kill_sandboxee killed
                  (record m { network_violation = true })).syscalls_in_progress
    by_flag true = h
    by_flag false =
        subst (AllInspected c)
          (sym (kill_sandboxee-calls killed (record m { network_violation = true }))) h
loop_body-AllInspected c (waited pid status event_msg regs) m h =
    kept-AllInspected (after_wait-Outcome c pid status event_msg regs m) h

-- Where every call that the monitor holds as in progress is one for which `Notify` asks to inspect
-- what it returns, that is so after the loop of Run, whatever it finds.
pub run-AllInspected :
    (c : Setup) (es : List Event) (m : PtraceMonitor)
    → AllInspected c m.syscalls_in_progress
    → AllInspected c (run c es m).syscalls_in_progress
unfolding run
run-AllInspected c [] m h = h
run-AllInspected c (e ∷ es) m h =
    by_status (is_unset m.result.final_status)
      (run-AllInspected c es (loop_body c e m) (loop_body-AllInspected c e m h))
  where
    by_status :
        (b : Bool)
        → AllInspected c (run c es (loop_body c e m)).syscalls_in_progress
        → AllInspected c (if b then run c es (loop_body c e m) else m).syscalls_in_progress
    by_status true rest = rest
    by_status false rest = h
