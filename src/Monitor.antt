-- ===== src/Monitor.antt =====
-- sandboxed_api/sandbox2/monitor_ptrace.cc: what the ptrace monitor does at each stop of a process of
-- the sandboxee. Stack traces, which are only reported, are left out.
pub mod Stops
pub mod Outcomes
pub mod Runs
pub mod Judged
pub mod Ending
use googlectf2023_fastbox.Prelude.{
  ℕ, ◌-◌, ◌/◌, ◌%◌, ◌^◌, Bool, true, false, not, ◌&&◌, ◌||◌, List, [], ◌∷◌, Option, none, some,
  ◌==◌, ltb, if◌then◌else◌,
}
use googlectf2023_fastbox.Linux.Syscalls.{
  nr_clone, nr_clone3, nr_fork, nr_vfork, nr_execve, nr_execveat,
}
use googlectf2023_fastbox.Policy.{cpu_unknown}
use googlectf2023_fastbox.PolicyBuilder.Verify.{host_arch}

-- Result::StatusEnum
pub data StatusEnum : Type 0 where
  unset ok setup_error violation signaled timeout external_kill internal_error : StatusEnum

-- Result::ReasonCodeEnum, those that the handlers use
abbrev pub failed_fetch : ℕ
failed_fetch = 14

abbrev pub failed_getevent : ℕ
failed_getevent = 15

abbrev pub failed_inspect : ℕ
failed_inspect = 20

abbrev pub violation_network : ℕ
violation_network = 0x1000_0000

pub record Syscall : Type 0 where
  pub arch : ℕ
  pub nr : ℕ
  pub args : List ℕ
  pub pid : ℕ
  pub sp : ℕ
  pub ip : ℕ

-- Result, without what is only reported
pub record Result : Type 0 where
  pub final_status : StatusEnum
  pub reason_code : ℕ
  pub syscall : Option Syscall

abbrev pub is_unset : StatusEnum → Bool
is_unset unset = true
is_unset s = false

-- Result::SetExitStatusCode
unfoldable pub set_exit_status_code : StatusEnum → ℕ → Result → Result
set_exit_status_code s code r =
    if not (is_unset r.final_status) then r else record r { final_status = s; reason_code = code }

pub data ViolationType : Type 0 where
  syscall_violation architecture_switch_violation : ViolationType

-- Notify::TraceAction
pub data TraceAction : Type 0 where
  deny allow inspect_after_return : TraceAction

-- What the monitor makes the kernel do, and what it tells its `Notify`.
pub data Act : Type 0 where
  continue_process stop_process complete_syscall : ℕ → ℕ → Act
  skip_syscall : ℕ → Act
  event_signal : ℕ → ℕ → Act
  event_syscall_violation : Syscall → ViolationType → Act
  event_syscall_return : Syscall → ℕ → Act

-- What does not change while the monitor runs. `event_syscall_trace` is the answer of `Notify`, the
-- program's own.
pub record Setup : Type 0 where
  pub main_pid : ℕ
  pub event_syscall_trace : Syscall → TraceAction
  pub log_file : Bool
  pub permit_all : Bool
  pub log_all_stack_traces : Bool
  pub collect_stacktrace_on_exit : Bool

-- The fields of PtraceMonitor that the handlers use, and what they have done so far, the last first.
pub record PtraceMonitor : Type 0 where
  pub wait_for_execve : Bool
  pub syscalls_in_progress : List (ℕ × Syscall)
  pub result : Result
  pub network_violation : Bool
  pub external_kill : Bool
  pub timed_out : Bool
  pub acts : List Act

-- Regs: the call, once its architecture is known, and the value that it returns.
pub record Regs : Type 0 where
  pub to_syscall : ℕ → Syscall
  pub return_value : ℕ

-- Regs::Fetch
pub data Fetch : Type 0 where
  fetched : Regs → Fetch
  not_found fetch_failed : Fetch

-- ptrace(PTRACE_GETEVENTMSG)
pub data EventMsg : Type 0 where
  message : ℕ → EventMsg
  esrch getevent_failed : EventMsg

abbrev pub act : Act → PtraceMonitor → PtraceMonitor
act a m = record m { acts = a ∷ m.acts }

abbrev pub set_status : StatusEnum → ℕ → PtraceMonitor → PtraceMonitor
set_status s code m = record m { result = set_exit_status_code s code m.result }

-- syscalls_in_progress_: find, erase and operator[]
abbrev pub find_pid : ℕ → List (ℕ × Syscall) → Option Syscall
find_pid pid [] = none
find_pid pid ((key, s) ∷ rest) = if key == pid then some s else find_pid pid rest

abbrev pub erase_pid : ℕ → List (ℕ × Syscall) → List (ℕ × Syscall)
erase_pid pid [] = []
erase_pid pid ((key, s) ∷ rest) =
    let others = erase_pid pid rest in if key == pid then others else (key, s) ∷ others

abbrev pub erase : ℕ → PtraceMonitor → PtraceMonitor
erase pid m = record m { syscalls_in_progress = erase_pid pid m.syscalls_in_progress }

abbrev pub in_progress : ℕ → Syscall → PtraceMonitor → PtraceMonitor
in_progress pid s m = record m {
  syscalls_in_progress = (pid, s) ∷ erase_pid pid m.syscalls_in_progress;
}

abbrev pub with_syscall : Syscall → PtraceMonitor → PtraceMonitor
with_syscall s m = record m { result = record (m.result) { syscall = some s } }

-- ActionProcessSyscallViolation
unfoldable pub action_process_syscall_violation :
    ℕ → Syscall → ViolationType → PtraceMonitor → PtraceMonitor
action_process_syscall_violation pid s type m =
    act (skip_syscall pid)
      (with_syscall s (set_status violation s.nr (act (event_syscall_violation s type) m)))

-- What follows the answer of `Notify`.
abbrev pub after_trace : Setup → ℕ → Syscall → TraceAction → PtraceMonitor → PtraceMonitor
after_trace c pid s allow m = act (continue_process pid 0) m
after_trace c pid s inspect_after_return m = act (complete_syscall pid 0) (in_progress pid s m)
after_trace c pid s deny m =
    if c.log_file
    then act (continue_process pid 0) m
    else if c.permit_all
    then act (continue_process pid 0) m
    else action_process_syscall_violation pid s syscall_violation m

-- ActionProcessSyscall
unfoldable pub action_process_syscall : Setup → ℕ → Syscall → PtraceMonitor → PtraceMonitor
action_process_syscall c pid s m =
    if (s.nr == nr_execveat) && m.wait_for_execve
    then act (continue_process pid 0) m
    else after_trace c pid s (c.event_syscall_trace s) m

-- sapi::cpu::kMax
abbrev pub cpu_max : ℕ
cpu_max = 0xcaf5

abbrev pub seccomp_call : Setup → ℕ → ℕ → Syscall → PtraceMonitor → PtraceMonitor
seccomp_call c pid arch s m =
    if not (arch == host_arch)
    then action_process_syscall_violation pid s architecture_switch_violation m
    else action_process_syscall c pid s m

abbrev pub seccomp_fetched : Setup → ℕ → ℕ → Fetch → PtraceMonitor → PtraceMonitor
seccomp_fetched c pid arch not_found m = m
seccomp_fetched c pid arch fetch_failed m = set_status internal_error failed_fetch m
seccomp_fetched c pid arch (fetched regs) m = seccomp_call c pid arch (regs.to_syscall arch) m

-- EventPtraceSeccomp
unfoldable pub event_ptrace_seccomp : Setup → ℕ → ℕ → Fetch → PtraceMonitor → PtraceMonitor
event_ptrace_seccomp c pid event_msg regs m =
    if ltb event_msg cpu_unknown || ltb cpu_max event_msg
    then m
    else seccomp_fetched c pid event_msg regs m

abbrev pub returned : ℕ → Syscall → Fetch → PtraceMonitor → PtraceMonitor
returned pid s not_found m = m
returned pid s fetch_failed m = set_status internal_error failed_fetch m
returned pid s (fetched regs) m =
    act (continue_process pid 0) (erase pid (act (event_syscall_return s regs.return_value) m))

abbrev pub syscall_exit : ℕ → Fetch → Option Syscall → PtraceMonitor → PtraceMonitor
syscall_exit pid regs none m = set_status internal_error failed_inspect m
syscall_exit pid regs (some s) m = returned pid s regs m

-- EventSyscallExit
unfoldable pub event_syscall_exit : ℕ → Fetch → PtraceMonitor → PtraceMonitor
event_syscall_exit pid regs m = syscall_exit pid regs (find_pid pid m.syscalls_in_progress) m

abbrev pub creates_process : ℕ → Bool
creates_process nr = (nr == nr_clone) || (nr == nr_clone3) || (nr == nr_fork) || (nr == nr_vfork)

abbrev pub executes : ℕ → Bool
executes nr = (nr == nr_execve) || (nr == nr_execveat)

-- A call in progress ends without a stop of its own, if it is one that can.
abbrev pub ends_call : (ℕ → Bool) → ℕ → ℕ → Option Syscall → PtraceMonitor → PtraceMonitor
ends_call expected pid value none m = act (continue_process pid 0) m
ends_call expected pid value (some s) m =
    if not (expected s.nr)
    then set_status internal_error failed_inspect m
    else act (continue_process pid 0) (erase pid (act (event_syscall_return s value) m))

-- EventPtraceNewProcess
unfoldable pub event_ptrace_new_process : ℕ → ℕ → PtraceMonitor → PtraceMonitor
event_ptrace_new_process pid event_msg m =
    ends_call creates_process pid event_msg (find_pid pid m.syscalls_in_progress) m

-- EventPtraceExec
unfoldable pub event_ptrace_exec : ℕ → PtraceMonitor → PtraceMonitor
event_ptrace_exec pid m =
    if m.wait_for_execve
    then act (continue_process pid 0) (record m { wait_for_execve = false })
    else ends_call executes pid 0 (find_pid pid m.syscalls_in_progress) m
