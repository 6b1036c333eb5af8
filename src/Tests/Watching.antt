-- ===== src/Tests/Watching.antt =====
-- Runs of the modelled monitors: sandboxed_api/sandbox2/monitor_ptrace.cc and
-- monitor_unotify.cc.
use googlectf2023_fastbox.Prelude.{ℕ, ◌≡◌, refl, ◌+◌, ◌*◌, List, false, [], ◌∷◌, none, some}
use googlectf2023_fastbox.Linux.Syscalls.{nr_ptrace}
use googlectf2023_fastbox.PolicyBuilder.Verify.{host_arch}
use googlectf2023_fastbox.Monitor.{
  unset, violation, Syscall, syscall_violation, deny, inspect_after_return, continue_process,
  skip_syscall, event_signal, event_syscall_violation, Setup, PtraceMonitor, Fetch, fetched,
  message, action_process_syscall, action_process_syscall_violation, event_ptrace_seccomp,
  set_exit_status_code,
}
use googlectf2023_fastbox.Monitor.Stops.{after_wait, state_process_stopped, handle_event}
use googlectf2023_fastbox.Monitor.Runs.{
  AllInspected, run-AllInspected, Event, waited, loop_body, run,
}
use googlectf2023_fastbox.Monitor.Judged.{Judged, clear, quiet, run-Judged}
use googlectf2023_fastbox.Monitor.Ending.{Ended, run-ends}
use googlectf2023_fastbox.Unotify.{
  kill_main, kill_init_process, report, UnotifyMonitor, SeccompNotif, notif, enoent, Round,
  deadline_passed, woken, notified, wait_over, status_came, handle_unotify, watch_round, watch,
  after_watch, run_unotify,
}
use googlectf2023_fastbox.Unotify.Reports.{Reported, untold, run_unotify-Reported}

abbrev setup : Setup
setup = record {
  main_pid = 7;
  event_syscall_trace = λ s. deny;
  log_file = false;
  permit_all = false;
  log_all_stack_traces = false;
  collect_stacktrace_on_exit = false;
}

abbrev watching : PtraceMonitor
watching = record {
  wait_for_execve = false;
  syscalls_in_progress = [];
  result = record { final_status = unset; reason_code = 0; syscall = none };
  network_violation = false;
  external_kill = false;
  timed_out = false;
  acts = [];
}

abbrev ptrace_call : ℕ → Syscall
ptrace_call arch = record { arch = arch; nr = nr_ptrace; args = []; pid = 7; sp = 0; ip = 0 }

abbrev registers : Fetch
registers = fetched (record { to_syscall = ptrace_call; return_value = 0 })

-- SIGUSR1 is delivered.
abbrev signal_stop : Event
signal_stop = waited 7 (0x7f + 10 * 0x100) (message 0) registers

-- The filter's answer to ptrace(2).
abbrev seccomp_stop : Event
seccomp_stop = waited 7 (0x7f + 5 * 0x100 + 7 * 0x1_0000) (message host_arch) registers

-- exit(3)
abbrev exited_main : Event
exited_main = waited 7 (3 * 0x100) (message 0) registers

found :
    (run setup (signal_stop ∷ seccomp_stop ∷ exited_main ∷ []) watching).acts
    ≡ skip_syscall 7
      ∷ event_syscall_violation (ptrace_call host_arch) syscall_violation
      ∷ continue_process 7 10
      ∷ event_signal 7 10
      ∷ []
unfolding run loop_body after_wait state_process_stopped handle_event event_ptrace_seccomp
    action_process_syscall action_process_syscall_violation set_exit_status_code
found = refl

status_found :
    (run setup (signal_stop ∷ seccomp_stop ∷ exited_main ∷ []) watching).result ≡ record {
      final_status = violation;
      reason_code = nr_ptrace;
      syscall = some (ptrace_call host_arch);
    }
unfolding run loop_body after_wait state_process_stopped handle_event event_ptrace_seccomp
    action_process_syscall action_process_syscall_violation set_exit_status_code
status_found = refl

run-Judged_example : Judged (run setup (signal_stop ∷ seccomp_stop ∷ exited_main ∷ []) watching)
run-Judged_example =
    run-Judged setup (signal_stop ∷ seccomp_stop ∷ exited_main ∷ []) watching (clear quiet)

run-ends_example :
    Ended (run setup (signal_stop ∷ exited_main ∷ []) watching)
    × (run setup (signal_stop ∷ exited_main ∷ seccomp_stop ∷ []) watching
        ≡ run setup (signal_stop ∷ exited_main ∷ []) watching)
run-ends_example =
    run-ends setup (signal_stop ∷ []) (seccomp_stop ∷ []) (3 * 0x100) (message 0) registers watching
      refl

abbrev inspecting : Setup
inspecting = record setup { event_syscall_trace = λ s. inspect_after_return }

in_progress_found :
    (run inspecting (seccomp_stop ∷ []) watching).syscalls_in_progress
    ≡ (7, ptrace_call host_arch) ∷ []
unfolding run loop_body after_wait state_process_stopped handle_event event_ptrace_seccomp
    action_process_syscall
in_progress_found = refl

run-AllInspected_example :
    AllInspected inspecting (run inspecting (seccomp_stop ∷ []) watching).syscalls_in_progress
unfolding AllInspected
run-AllInspected_example = run-AllInspected inspecting (seccomp_stop ∷ []) watching tt

abbrev notifying : UnotifyMonitor
notifying = record {
  result = record { final_status = unset; reason_code = 0; syscall = none };
  network_violation = false;
  external_kill = false;
  timed_out = false;
  requests = [];
}

-- The notification of ptrace(2).
abbrev ptrace_notif : SeccompNotif
ptrace_notif = record {
  pid = 7;
  nr = nr_ptrace;
  arch = 0xc000_003e;
  args = [];
  instruction_pointer = 0;
}

abbrev ptrace_found : List Round
ptrace_found = woken ∷ notified false enoent ∷ notified false (notif ptrace_notif) ∷ []

requests_made :
    (run_unotify ptrace_found wait_over notifying).requests
    ≡ kill_init_process
      ∷ kill_main
      ∷ report (ptrace_call host_arch) syscall_violation
      ∷ report (ptrace_call host_arch) syscall_violation
      ∷ []
unfolding run_unotify after_watch watch watch_round handle_unotify set_exit_status_code
requests_made = refl

-- A notification that is gone before it is read ends the wait for the status, so that a kill after
-- it leaves the status unset.
never_set :
    (run_unotify
      (notified false enoent ∷ deadline_passed false ∷ [])
      (status_came 2 9)
      notifying).result.final_status
    ≡ unset
unfolding run_unotify after_watch watch watch_round handle_unotify set_exit_status_code
never_set = refl

run_unotify-Reported_example : Reported (run_unotify ptrace_found wait_over notifying)
run_unotify-Reported_example = run_unotify-Reported ptrace_found wait_over notifying untold
