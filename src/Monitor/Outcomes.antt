-- ===== src/Monitor/Outcomes.antt =====
-- sandboxed_api/sandbox2/monitor_ptrace.cc: the ways in which the handling of a stop can end.
use googlectf2023_fastbox.Prelude.{
  ℕ, ◌≡◌, refl, Bool, true, false, not, ◌&&◌, ◌||◌, Option, none, some, ◌==◌, ltb, if◌then◌else◌,
  ◌%◌, ◌^◌,
}
use googlectf2023_fastbox.PolicyBuilder.Verify.{host_arch}
use googlectf2023_fastbox.Linux.Syscalls.{nr_execveat}
use googlectf2023_fastbox.Policy.{cpu_unknown}
use googlectf2023_fastbox.Monitor.{
  StatusEnum, ok, setup_error, violation, signaled, timeout, external_kill, violation_network,
  internal_error, failed_fetch, failed_inspect, failed_getevent, Syscall, ViolationType,
  syscall_violation, architecture_switch_violation, TraceAction, allow, deny, inspect_after_return,
  Setup, PtraceMonitor, Regs, Fetch, fetched, EventMsg, message, esrch, getevent_failed,
  continue_process, stop_process, complete_syscall, event_signal, event_syscall_return, act,
  set_status, erase, in_progress, find_pid, action_process_syscall_violation,
  action_process_syscall, after_trace, seccomp_call, seccomp_fetched, event_ptrace_seccomp, cpu_max,
  returned, syscall_exit, event_syscall_exit, ends_call, event_ptrace_new_process,
  event_ptrace_exec, creates_process, executes,
}
use googlectf2023_fastbox.Monitor
use googlectf2023_fastbox.Monitor.Stops.{
  exited, failed_monitor, exit_fetched, event_ptrace_exit, event_ptrace_stop, handle_event,
  with_message, state_process_stopped, signaled_exit, after_wait, term_sig, exit_status, is_seccomp,
  if_exited, if_signaled, if_stopped, stop_sig, ptrace_event, is_syscall_exit,
}

-- The monitor before and after.
pub data Outcome (c : Setup) (pid : ℕ) : PtraceMonitor → PtraceMonitor → Type 0 where
  same : (m : PtraceMonitor) → Outcome c pid m m
  decided : (s : StatusEnum) (code : ℕ) (m : PtraceMonitor) → Outcome c pid m (set_status s code m)
  violated :
      (s : Syscall) (t : ViolationType) (m : PtraceMonitor)
      → Outcome c pid m (action_process_syscall_violation pid s t m)
  continued : (sig : ℕ) (m : PtraceMonitor) → Outcome c pid m (act (continue_process pid sig) m)
  signalled :
      (sig : ℕ) (m : PtraceMonitor)
      → Outcome c pid m (act (continue_process pid sig) (act (event_signal pid sig) m))
  ended :
      (s : Syscall) (v : ℕ) (m : PtraceMonitor)
      → Outcome c pid m
          (act (continue_process pid 0) (erase pid (act (event_syscall_return s v) m)))
  enabled :
      (m : PtraceMonitor)
      → Outcome c pid m (act (continue_process pid 0) (record m { wait_for_execve = false }))
  finished :
      (s : StatusEnum) (code : ℕ) (m : PtraceMonitor)
      → Outcome c pid m (act (continue_process pid 0) (set_status s code m))
  stopped : (m : PtraceMonitor) → Outcome c pid m (act (stop_process pid 0) m)
  inspected :
      (s : Syscall) (m : PtraceMonitor)
      → c.event_syscall_trace s ≡ inspect_after_return
      → Outcome c pid m (act (complete_syscall pid 0) (in_progress pid s m))
  forgotten : {m m' : PtraceMonitor} → Outcome c pid (erase pid m) m' → Outcome c pid m m'

module _ (c : Setup) (pid : ℕ) where
  either-Outcome :
      (b : Bool) {m x y : PtraceMonitor}
      → Outcome c pid m x
      → Outcome c pid m y
      → Outcome c pid m (if b then x else y)
  either-Outcome true ox oy = ox
  either-Outcome false ox oy = oy

  after_trace-Outcome :
      (s : Syscall) (a : TraceAction) (m : PtraceMonitor)
      → c.event_syscall_trace s ≡ a
      → Outcome c pid m (after_trace c pid s a m)
  after_trace-Outcome s allow m e = continued 0 m
  after_trace-Outcome s inspect_after_return m e = inspected s m e
  after_trace-Outcome s deny m e =
      either-Outcome c.log_file (continued 0 m)
        (either-Outcome c.permit_all (continued 0 m) (violated s syscall_violation m))

  seccomp_fetched-Outcome :
      (arch : ℕ) (regs : Fetch) (m : PtraceMonitor)
      → Outcome c pid m (seccomp_fetched c pid arch regs m)
  unfolding action_process_syscall
  seccomp_fetched-Outcome arch Monitor.not_found m = same m
  seccomp_fetched-Outcome arch Monitor.fetch_failed m = decided internal_error failed_fetch m
  seccomp_fetched-Outcome arch (fetched regs) m =
      let s = regs.to_syscall arch in
      either-Outcome (not (arch == host_arch)) (violated s architecture_switch_violation m) (
        either-Outcome ((s.nr == nr_execveat) && m.wait_for_execve) (continued 0 m)
          (after_trace-Outcome s (c.event_syscall_trace s) m refl))

  event_ptrace_seccomp-Outcome :
      (event_msg : ℕ) (regs : Fetch) (m : PtraceMonitor)
      → Outcome c pid m (event_ptrace_seccomp c pid event_msg regs m)
  unfolding event_ptrace_seccomp
  event_ptrace_seccomp-Outcome event_msg regs m =
      either-Outcome (ltb event_msg cpu_unknown || ltb cpu_max event_msg) (same m)
        (seccomp_fetched-Outcome event_msg regs m)

  syscall_exit-Outcome :
      (regs : Fetch) (o : Option Syscall) (m : PtraceMonitor)
      → Outcome c pid m (syscall_exit pid regs o m)
  syscall_exit-Outcome regs none m = decided internal_error failed_inspect m
  syscall_exit-Outcome Monitor.not_found (some s) m = same m
  syscall_exit-Outcome Monitor.fetch_failed (some s) m = decided internal_error failed_fetch m
  syscall_exit-Outcome (fetched regs) (some s) m = ended s regs.return_value m

  ends_call-Outcome :
      (expected : ℕ → Bool) (value : ℕ) (o : Option Syscall) (m : PtraceMonitor)
      → Outcome c pid m (ends_call expected pid value o m)
  ends_call-Outcome expected value none m = continued 0 m
  ends_call-Outcome expected value (some s) m =
      either-Outcome (not (expected s.nr)) (decided internal_error failed_inspect m)
        (ended s value m)

  event_ptrace_exec-Outcome : (m : PtraceMonitor) → Outcome c pid m (event_ptrace_exec pid m)
  unfolding event_ptrace_exec
  event_ptrace_exec-Outcome m =
      either-Outcome m.wait_for_execve (enabled m)
        (ends_call-Outcome executes 0 (find_pid pid m.syscalls_in_progress) m)

  exited-Outcome : (event_msg : ℕ) (m : PtraceMonitor) → Outcome c pid m (exited c pid event_msg m)
  exited-Outcome event_msg m =
      main_or_not (pid == c.main_pid) m.network_violation m.external_kill m.timed_out
        (if_exited event_msg)
    where
      main_or_not :
          (b1 b2 b3 b4 b5 : Bool)
          → Outcome c pid m (
              act (continue_process pid 0) (
                if b1
                then (if b2
                    then set_status violation violation_network m
                    else if b3
                    then set_status external_kill 0 m
                    else if b4
                    then set_status timeout 0 m
                    else if b5
                    then set_status ok (exit_status event_msg) m
                    else set_status signaled (term_sig event_msg) m)
                else m))
      main_or_not false b2 b3 b4 b5 = continued 0 m
      main_or_not true true b3 b4 b5 = finished _ _ m
      main_or_not true false true b4 b5 = finished _ _ m
      main_or_not true false false true b5 = finished _ _ m
      main_or_not true false false false true = finished _ _ m
      main_or_not true false false false false = finished _ _ m

  exit_fetched-Outcome :
      (event_msg : ℕ) (regs : Fetch) (m : PtraceMonitor)
      → Outcome c pid m (exit_fetched c pid event_msg regs m)
  exit_fetched-Outcome event_msg Monitor.not_found m = decided internal_error failed_fetch m
  exit_fetched-Outcome event_msg Monitor.fetch_failed m = decided internal_error failed_fetch m
  exit_fetched-Outcome event_msg (fetched regs) m =
      either-Outcome (is_seccomp event_msg)
        (violated (regs.to_syscall host_arch) syscall_violation m) (exited-Outcome event_msg m)

  event_ptrace_exit-Outcome :
      (event_msg : ℕ) (regs : Fetch) (m : PtraceMonitor)
      → Outcome c pid m (event_ptrace_exit c pid event_msg regs m)
  unfolding event_ptrace_exit
  event_ptrace_exit-Outcome event_msg regs m = forgotten (
      either-Outcome
        (if_exited event_msg && (not c.collect_stacktrace_on_exit || not (pid == c.main_pid)))
        (continued 0 (erase pid m))
        (either-Outcome (is_seccomp event_msg || ((pid == c.main_pid) || c.log_all_stack_traces))
          (exit_fetched-Outcome event_msg regs (erase pid m))
          (exited-Outcome event_msg (erase pid m))))

  handle_event-Outcome :
      (event stopsig event_msg : ℕ) (regs : Fetch) (m : PtraceMonitor)
      → Outcome c pid m (handle_event c pid event stopsig event_msg regs m)
  unfolding handle_event event_ptrace_new_process event_ptrace_stop
  handle_event-Outcome event stopsig event_msg regs m =
      either-Outcome ((event == 1) || ((event == 2) || (event == 3)))
        (ends_call-Outcome creates_process event_msg (find_pid pid m.syscalls_in_progress) m)
        (either-Outcome (event == 5) (continued 0 m) (
          either-Outcome (event == 4) (event_ptrace_exec-Outcome m) (
            either-Outcome (event == 6) (event_ptrace_exit-Outcome event_msg regs m) (
              either-Outcome (event == 128) (either-Outcome _ (continued 0 m) (stopped m)) (
                either-Outcome (event == 7) (event_ptrace_seccomp-Outcome event_msg regs m)
                  (same m))))))

  with_message-Outcome :
      (st : ℕ) (event_msg : EventMsg) (regs : Fetch) (m : PtraceMonitor)
      → Outcome c pid m (with_message c pid st event_msg regs m)
  unfolding event_syscall_exit
  with_message-Outcome st esrch regs m = same m
  with_message-Outcome st getevent_failed regs m = decided internal_error failed_getevent m
  with_message-Outcome st (message event_msg) regs m =
      either-Outcome (is_syscall_exit st)
        (syscall_exit-Outcome regs (find_pid pid m.syscalls_in_progress) m)
        (handle_event-Outcome (ptrace_event st) (stop_sig st) (event_msg % 2 ^ 32) regs m)

  pub state_process_stopped-Outcome :
      (st : ℕ) (event_msg : EventMsg) (regs : Fetch) (m : PtraceMonitor)
      → Outcome c pid m (state_process_stopped c pid st event_msg regs m)
  unfolding state_process_stopped
  state_process_stopped-Outcome st event_msg regs m =
      either-Outcome ((ptrace_event st == 0) && not (is_syscall_exit st))
        (signalled (stop_sig st) m) (with_message-Outcome st event_msg regs m)

  signaled_exit-Outcome : (st : ℕ) (m : PtraceMonitor) → Outcome c pid m (signaled_exit st m)
  signaled_exit-Outcome st m =
      either-Outcome m.network_violation (decided violation violation_network m) (
        either-Outcome m.external_kill (decided external_kill 0 m)
          (either-Outcome m.timed_out (decided timeout 0 m) (decided signaled (term_sig st) m)))

  pub after_wait-Outcome :
      (st : ℕ) (event_msg : EventMsg) (regs : Fetch) (m : PtraceMonitor)
      → Outcome c pid m (after_wait c pid st event_msg regs m)
  unfolding after_wait
  after_wait-Outcome st event_msg regs m =
      either-Outcome (if_exited st)
        (either-Outcome (pid == c.main_pid)
          (either-Outcome (not m.wait_for_execve) (decided ok (exit_status st) m)
            (decided setup_error failed_monitor m))
          (same m))
        (either-Outcome (if_signaled st)
          (either-Outcome (pid == c.main_pid) (signaled_exit-Outcome st m) (same m))
          (either-Outcome (if_stopped st) (state_process_stopped-Outcome st event_msg regs m)
            (same m)))
