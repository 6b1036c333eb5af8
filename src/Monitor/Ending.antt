-- ===== src/Monitor/Ending.antt =====
-- sandboxed_api/sandbox2/monitor_ptrace.cc: the loop of the monitor ends with the main process.
use googlectf2023_fastbox.Prelude.{
  ℕ, ◌≡◌, refl, sym, ap, Bool, true, false, not, ◌||◌, List, [], ◌∷◌, ◌++◌, ==_refl, if◌then◌else◌,
}
use mathlib.Core.Path.{subst}
use googlectf2023_fastbox.Monitor.{
  StatusEnum, ok, setup_error, violation, signaled, timeout, external_kill, is_unset,
  set_exit_status_code, violation_network, Result, Setup, PtraceMonitor, Fetch, EventMsg,
  set_status,
}
use googlectf2023_fastbox.Monitor.Stops.{
  after_wait, if_exited, if_signaled, main_exited, signaled_exit, term_sig, exit_status,
  failed_monitor, if_stopped, state_process_stopped,
}
use googlectf2023_fastbox.Monitor.Runs.{Event, waited, loop_body, run}

-- The status is set.
pub Ended : PtraceMonitor → Type 0
Ended m = is_unset m.result.final_status ≡ false

either-Ended : (b : Bool) (x y : PtraceMonitor) → Ended x → Ended y → Ended (if b then x else y)
either-Ended true x y ex ey = ex
either-Ended false x y ex ey = ey

set_status-Ended :
    (s : StatusEnum) (code : ℕ) (m : PtraceMonitor)
    → is_unset s ≡ false
    → Ended (set_status s code m)
unfolding Ended set_exit_status_code
set_status-Ended s code m e = by_status (is_unset m.result.final_status) refl
  where
    chosen : Bool → Result
    chosen b =
        if not b then m.result else record (m.result) { final_status = s; reason_code = code }

    by_status :
        (b : Bool) → is_unset m.result.final_status ≡ b → is_unset (chosen b).final_status ≡ false
    by_status true u = e
    by_status false u = u

main_exited-Ended : (st : ℕ) (m : PtraceMonitor) → Ended (main_exited st m)
main_exited-Ended st m =
    either-Ended (not m.wait_for_execve) _ _ (set_status-Ended ok (exit_status st) m refl)
      (set_status-Ended setup_error failed_monitor m refl)

signaled_exit-Ended : (st : ℕ) (m : PtraceMonitor) → Ended (signaled_exit st m)
signaled_exit-Ended st m =
    either-Ended m.network_violation _ _ (set_status-Ended violation violation_network m refl) (
      either-Ended m.external_kill _ _ (set_status-Ended external_kill 0 m refl) (
        either-Ended m.timed_out _ _ (set_status-Ended timeout 0 m refl)
          (set_status-Ended signaled (term_sig st) m refl)))

after_wait-Ended :
    (c : Setup) (st : ℕ) (event_msg : EventMsg) (regs : Fetch) (m : PtraceMonitor)
    → (if_exited st || if_signaled st) ≡ true
    → Ended (after_wait c c.main_pid st event_msg regs m)
unfolding after_wait
after_wait-Ended c st event_msg regs m h =
    subst (λ b. Ended (at_exit b (if_exited st) (if_signaled st))) (sym (==_refl c.main_pid))
      (by_kind (if_exited st) (if_signaled st) h)
  where
    at_exit : Bool → Bool → Bool → PtraceMonitor
    at_exit main b1 b2 =
        if b1
        then if main then main_exited st m else m
        else if b2
        then if main then signaled_exit st m else m
        else if if_stopped st
        then state_process_stopped c c.main_pid st event_msg regs m
        else m

    by_kind : (b1 b2 : Bool) → (b1 || b2) ≡ true → Ended (at_exit true b1 b2)
    by_kind true b2 e = main_exited-Ended st m
    by_kind false true e = signaled_exit-Ended st m
    by_kind false false e = absurd (cc e)

run-stays : (c : Setup) (es : List Event) (m : PtraceMonitor) → Ended m → run c es m ≡ m
unfolding run Ended
run-stays c [] m h = refl
run-stays c (e ∷ es) m h = ap (λ b. if b then run c es (loop_body c e m) else m) h

-- One element of the list, where the status is unset or set.
round-ends :
    (m n n' : PtraceMonitor)
    → Ended n × (n' ≡ n)
    → Ended (if is_unset m.result.final_status then n else m)
      × ((if is_unset m.result.final_status then n' else m)
          ≡ (if is_unset m.result.final_status then n else m))
unfolding Ended
round-ends m n n' h = by_status (is_unset m.result.final_status) refl
  where
    by_status :
        (b : Bool)
        → is_unset m.result.final_status ≡ b
        → (is_unset (if b then n else m).result.final_status ≡ false)
          × ((if b then n' else m) ≡ (if b then n else m))
    by_status true u = h
    by_status false u = (u, refl)

-- If waitpid(2) returns that the main process has exited or was killed by a signal, then the
-- status is set when the loop is through with that, whatever happened before and happens after it,
-- so that the loop ends; and what happens after it changes nothing.
pub run-ends :
    (c : Setup) (es later : List Event) (st : ℕ) (event_msg : EventMsg) (regs : Fetch)
    (m : PtraceMonitor)
    → (if_exited st || if_signaled st) ≡ true
    → let exit = waited c.main_pid st event_msg regs in
      (Ended (run c (es ++ (exit ∷ [])) m)
        × (run c (es ++ (exit ∷ later)) m ≡ run c (es ++ (exit ∷ [])) m))
unfolding run loop_body Ended
run-ends c [] later st event_msg regs m h =
    let ended = after_wait-Ended c st event_msg regs m h in
    round-ends m (after_wait c c.main_pid st event_msg regs m)
      (run c later (after_wait c c.main_pid st event_msg regs m)) (ended, run-stays c later _ ended)
run-ends c (e ∷ es) later st event_msg regs m h =
    round-ends m _ _ (run-ends c es later st event_msg regs (loop_body c e m) h)
