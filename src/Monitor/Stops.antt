-- ===== src/Monitor/Stops.antt =====
-- sandboxed_api/sandbox2/monitor_ptrace.cc: the exit of a process, and which handler a stop leads to.
use googlectf2023_fastbox.Prelude.{
  ℕ, ◌+◌, ◌/◌, ◌%◌, ◌^◌, Bool, not, ◌&&◌, ◌||◌, ◌==◌, if◌then◌else◌,
}
use googlectf2023_fastbox.PolicyBuilder.Verify.{host_arch}
use googlectf2023_fastbox.Monitor.{
  StatusEnum, ok, setup_error, violation, signaled, timeout, external_kill, internal_error,
  failed_fetch, failed_getevent, violation_network, syscall_violation, continue_process,
  stop_process, event_signal, Setup, PtraceMonitor, Regs, Fetch, fetched, EventMsg, message, esrch,
  getevent_failed, act, set_status, erase, action_process_syscall_violation, event_ptrace_seccomp,
  event_syscall_exit, event_ptrace_new_process, event_ptrace_exec,
}
use googlectf2023_fastbox.Monitor

-- WTERMSIG, WEXITSTATUS, WIFEXITED and WIFSIGNALED of the C library; WSTOPSIG and __WPTRACEEVENT
abbrev pub term_sig : ℕ → ℕ
term_sig status = status % 2 ^ 7

abbrev pub exit_status : ℕ → ℕ
exit_status status = status / 2 ^ 8 % 2 ^ 8

abbrev pub if_exited : ℕ → Bool
if_exited status = term_sig status == 0

abbrev pub if_signaled : ℕ → Bool
if_signaled status = not (term_sig status == 0) && not (term_sig status == 0x7f)

abbrev pub stop_sig : ℕ → ℕ
stop_sig status = exit_status status

abbrev pub ptrace_event : ℕ → ℕ
ptrace_event status = status / 2 ^ 16 % 2 ^ 8

abbrev pub sigtrap : ℕ
sigtrap = 5

abbrev pub sigstop : ℕ
sigstop = 19

abbrev pub sigtstp : ℕ
sigtstp = 20

abbrev pub sigttin : ℕ
sigttin = 21

abbrev pub sigttou : ℕ
sigttou = 22

abbrev pub sigsys : ℕ
sigsys = 31

-- The status of the main process, at its last stop.
abbrev pub main_exit : ℕ → PtraceMonitor → PtraceMonitor
main_exit event_msg m =
    if m.network_violation
    then set_status violation violation_network m
    else if m.external_kill
    then set_status external_kill 0 m
    else if m.timed_out
    then set_status timeout 0 m
    else if if_exited event_msg
    then set_status ok (exit_status event_msg) m
    else set_status signaled (term_sig event_msg) m

-- What follows the test for a violation.
abbrev pub exited : Setup → ℕ → ℕ → PtraceMonitor → PtraceMonitor
exited c pid event_msg m =
    act (continue_process pid 0) (if pid == c.main_pid then main_exit event_msg m else m)

abbrev pub is_seccomp : ℕ → Bool
is_seccomp event_msg = if_signaled event_msg && (term_sig event_msg == sigsys)

abbrev pub exit_fetched : Setup → ℕ → ℕ → Fetch → PtraceMonitor → PtraceMonitor
exit_fetched c pid event_msg Monitor.not_found m = set_status internal_error failed_fetch m
exit_fetched c pid event_msg Monitor.fetch_failed m = set_status internal_error failed_fetch m
exit_fetched c pid event_msg (fetched regs) m =
    if is_seccomp event_msg
    then action_process_syscall_violation pid (regs.to_syscall host_arch) syscall_violation m
    else exited c pid event_msg m

abbrev pub exit_slow : Setup → ℕ → ℕ → Fetch → PtraceMonitor → PtraceMonitor
exit_slow c pid event_msg regs m =
    if is_seccomp event_msg || ((pid == c.main_pid) || c.log_all_stack_traces)
    then exit_fetched c pid event_msg regs m
    else exited c pid event_msg m

-- EventPtraceExit
unfoldable pub event_ptrace_exit : Setup → ℕ → ℕ → Fetch → PtraceMonitor → PtraceMonitor
event_ptrace_exit c pid event_msg regs m =
    if if_exited event_msg && (not c.collect_stacktrace_on_exit || not (pid == c.main_pid))
    then act (continue_process pid 0) (erase pid m)
    else exit_slow c pid event_msg regs (erase pid m)

-- EventPtraceStop
unfoldable pub event_ptrace_stop : ℕ → ℕ → PtraceMonitor → PtraceMonitor
event_ptrace_stop pid stopsig m =
    if not (stopsig == sigstop)
      && (not (stopsig == sigtstp) && (not (stopsig == sigttin) && not (stopsig == sigttou)))
    then act (continue_process pid 0) m
    else act (stop_process pid 0) m

-- The switch over the event.
unfoldable pub handle_event : Setup → ℕ → ℕ → ℕ → ℕ → Fetch → PtraceMonitor → PtraceMonitor
handle_event c pid event stopsig event_msg regs m =
    if (event == 1) || ((event == 2) || (event == 3))
    then event_ptrace_new_process pid event_msg m
    else if event == 5
    then act (continue_process pid 0) m
    else if event == 4
    then event_ptrace_exec pid m
    else if event == 6
    then event_ptrace_exit c pid event_msg regs m
    else if event == 128
    then event_ptrace_stop pid stopsig m
    else if event == 7
    then event_ptrace_seccomp c pid event_msg regs m
    else m

abbrev pub is_syscall_exit : ℕ → Bool
is_syscall_exit status = stop_sig status == sigtrap + 0x80

abbrev pub with_message : Setup → ℕ → ℕ → EventMsg → Fetch → PtraceMonitor → PtraceMonitor
with_message c pid status esrch regs m = m
with_message c pid status getevent_failed regs m = set_status internal_error failed_getevent m
with_message c pid status (message event_msg) regs m =
    if is_syscall_exit status
    then event_syscall_exit pid regs m
    else handle_event c pid (ptrace_event status) (stop_sig status) (event_msg % 2 ^ 32) regs m

-- StateProcessStopped
unfoldable pub state_process_stopped :
    Setup → ℕ → ℕ → EventMsg → Fetch → PtraceMonitor → PtraceMonitor
state_process_stopped c pid status event_msg regs m =
    if (ptrace_event status == 0) && not (is_syscall_exit status)
    then act (continue_process pid (stop_sig status)) (act (event_signal pid (stop_sig status)) m)
    else with_message c pid status event_msg regs m

abbrev pub failed_monitor : ℕ
failed_monitor = 16

abbrev pub signaled_exit : ℕ → PtraceMonitor → PtraceMonitor
signaled_exit status m =
    if m.network_violation
    then set_status violation violation_network m
    else if m.external_kill
    then set_status external_kill 0 m
    else if m.timed_out
    then set_status timeout 0 m
    else set_status signaled (term_sig status) m

abbrev pub main_exited : ℕ → PtraceMonitor → PtraceMonitor
main_exited status m =
    if not m.wait_for_execve
    then set_status ok (exit_status status) m
    else set_status setup_error failed_monitor m

abbrev pub if_stopped : ℕ → Bool
if_stopped status = status % 2 ^ 8 == 0x7f

-- Run, the part of its loop after waitpid(2) has returned a process.
unfoldable pub after_wait : Setup → ℕ → ℕ → EventMsg → Fetch → PtraceMonitor → PtraceMonitor
after_wait c pid status event_msg regs m =
    if if_exited status
    then if pid == c.main_pid then main_exited status m else m
    else if if_signaled status
    then if pid == c.main_pid then signaled_exit status m else m
    else if if_stopped status
    then state_process_stopped c pid status event_msg regs m
    else m
