-- ===== src/Unotify.antt =====
-- sandboxed_api/sandbox2/monitor_unotify.cc: the monitor that the kernel notifies of the calls that
-- the filter does not allow. Of stack traces there is only whether they fail to read registers.
pub mod Reports
use googlectf2023_fastbox.Prelude.{
  ℕ, Bool, true, false, not, ◌&&◌, ◌||◌, List, [], ◌∷◌, Option, none, some, ◌==◌, if◌then◌else◌,
}
use googlectf2023_fastbox.Policy.{cpu_unknown, cpu_x86}
use googlectf2023_fastbox.PolicyBuilder.Verify.{host_arch}
use googlectf2023_fastbox.Monitor.{
  StatusEnum, ok, setup_error, violation, signaled, timeout, external_kill, internal_error,
  failed_fetch, violation_network, Syscall, Result, is_unset, set_exit_status_code, ViolationType,
  syscall_violation, architecture_switch_violation,
}
use googlectf2023_fastbox.Monitor.Stops.{failed_monitor}

-- What the monitor makes the kernel do, and what it tells its `Notify`.
pub data Request : Type 0 where
  kill_main kill_init_process : Request
  report : Syscall → ViolationType → Request

-- The fields of UnotifyMonitor that the loop uses, and what it has asked for, the last first.
pub record UnotifyMonitor : Type 0 where
  pub result : Result
  pub network_violation : Bool
  pub external_kill : Bool
  pub timed_out : Bool
  pub requests : List Request

-- struct seccomp_notif, with its struct seccomp_data
pub record SeccompNotif : Type 0 where
  pub pid : ℕ
  pub nr : ℕ
  pub arch : ℕ
  pub args : List ℕ
  pub instruction_pointer : ℕ

-- ioctl(SECCOMP_IOCTL_NOTIF_RECV)
pub data Received : Type 0 where
  notif : SeccompNotif → Received
  enoent recv_failed : Received

abbrev pub ask : Request → UnotifyMonitor → UnotifyMonitor
ask r m = record m { requests = r ∷ m.requests }

abbrev pub set_result : StatusEnum → ℕ → UnotifyMonitor → UnotifyMonitor
set_result s code m = record m { result = set_exit_status_code s code m.result }

-- AUDIT_ARCH_AARCH64, AUDIT_ARCH_ARM, AUDIT_ARCH_X86_64, AUDIT_ARCH_I386 and AUDIT_ARCH_PPC64LE
abbrev pub audit_arch_to_cpu_arch : ℕ → ℕ
audit_arch_to_cpu_arch arch =
    if arch == 0xc000_00b7
    then 0xcaf4
    else if arch == 0x4000_0028
    then 0xcaf5
    else if arch == 0xc000_003e
    then host_arch
    else if arch == 0x4000_0003
    then cpu_x86
    else if arch == 0xc000_0015
    then 0xcaf3
    else cpu_unknown

-- MaybeGetStackTrace, where the argument says whether a stack trace is collected and its registers
-- cannot be read though the process is there.
abbrev pub maybe_get_stack_trace : Bool → UnotifyMonitor → UnotifyMonitor
maybe_get_stack_trace fails m = if fails then set_result internal_error failed_fetch m else m

abbrev pub syscall_of : SeccompNotif → Syscall
syscall_of req = record {
  arch = audit_arch_to_cpu_arch req.arch;
  nr = req.nr;
  args = req.args;
  pid = req.pid;
  sp = 0;
  ip = req.instruction_pointer;
}

abbrev pub violation_type : Syscall → ViolationType
violation_type s = if s.arch == host_arch then syscall_violation else architecture_switch_violation

abbrev pub with_call : Syscall → UnotifyMonitor → UnotifyMonitor
with_call s m = record m { result = record (m.result) { syscall = some s } }

-- The call that violates the policy is reported, the result set and the sandboxee killed.
abbrev pub handle_violation : Bool → Syscall → UnotifyMonitor → UnotifyMonitor
handle_violation fails s m =
    let told = maybe_get_stack_trace fails (ask (report s (violation_type s)) m) in
    let decided = ask (report s (violation_type s)) (set_result violation s.nr told) in
    ask kill_main (with_call s decided)

abbrev pub failed_notify : ℕ
failed_notify = 4

-- HandleUnotify
unfoldable pub handle_unotify : Bool → Received → UnotifyMonitor → UnotifyMonitor
handle_unotify fails enoent m = m
handle_unotify fails recv_failed m = set_result internal_error failed_notify m
handle_unotify fails (notif req) m = handle_violation fails (syscall_of req) m

-- CLD_EXITED, CLD_KILLED and CLD_DUMPED
abbrev pub cld_exited : ℕ
cld_exited = 1

abbrev pub cld_killed : ℕ
cld_killed = 2

abbrev pub cld_dumped : ℕ
cld_dumped = 3

abbrev pub killed_by : ℕ → UnotifyMonitor → UnotifyMonitor
killed_by status m =
    if m.network_violation
    then set_result violation violation_network m
    else if m.external_kill
    then set_result external_kill 0 m
    else if m.timed_out
    then set_result timeout 0 m
    else set_result signaled status m

-- SetExitStatusFromStatusPipe, with the two numbers that it reads.
unfoldable pub set_exit_status_from_status_pipe : ℕ → ℕ → UnotifyMonitor → UnotifyMonitor
set_exit_status_from_status_pipe code status m =
    if code == cld_exited
    then set_result ok status m
    else if (code == cld_killed) || (code == cld_dumped)
    then killed_by status m
    else set_result setup_error failed_monitor m

-- What a round of the loop finds, in this order: a deadline that has passed, a request to kill, a
-- violation of the network proxy, each with whether the stack trace fails; nothing; a status in its
-- pipe, or the end of the pipe; or a notification.
pub data Round : Type 0 where
  deadline_passed kill_requested network_violated : Bool → Round
  woken hung_up : Round
  status_read : ℕ → ℕ → Round
  notified : Bool → Received → Round

-- What poll(2) and the pipe give in the wait after the loop.
pub data Wait : Type 0 where
  wait_over status_hung_up nothing_there : Wait
  status_came : ℕ → ℕ → Wait

-- The monitor with the variables of the loop: `left` is set by a break.
pub record Watch : Type 0 where
  pub monitor : UnotifyMonitor
  pub wait_for_sandboxee : Bool
  pub left : Bool

abbrev pub leave : Bool → UnotifyMonitor → Watch
leave wait m = record { monitor = m; wait_for_sandboxee = wait; left = true }

abbrev pub stay : Bool → UnotifyMonitor → Watch
stay wait m = record { monitor = m; wait_for_sandboxee = wait; left = false }

abbrev pub killed_after : Bool → Bool → UnotifyMonitor → Watch
killed_after fails wait m = leave wait (ask kill_main (maybe_get_stack_trace fails m))

-- The loop's body.
unfoldable pub watch_round : Round → Bool → UnotifyMonitor → Watch
watch_round (deadline_passed fails) wait m = killed_after fails wait (record m { timed_out = true })
watch_round (kill_requested fails) wait m =
    killed_after fails wait (record m { external_kill = true })
watch_round (network_violated fails) wait m =
    if m.network_violation
    then stay wait m
    else killed_after fails wait (record m { network_violation = true })
watch_round woken wait m = stay wait m
watch_round (status_read code status) wait m =
    leave false (set_exit_status_from_status_pipe code status m)
watch_round hung_up wait m = leave false (set_result internal_error failed_monitor m)
watch_round (notified fails received) wait m = stay false (handle_unotify fails received m)

-- The loop.
unfoldable pub watch : List Round → Watch → Watch
watch [] w = w
watch (r ∷ rs) w =
    let rest = watch rs (watch_round r w.wait_for_sandboxee w.monitor) in
    if is_unset w.monitor.result.final_status && not w.left then rest else w

abbrev pub wait_result : Wait → UnotifyMonitor → UnotifyMonitor
wait_result wait_over m = m
wait_result nothing_there m = m
wait_result status_hung_up m = set_result internal_error failed_monitor m
wait_result (status_came code status) m = set_exit_status_from_status_pipe code status m

-- What follows the loop.
unfoldable pub after_watch : Wait → Watch → UnotifyMonitor
after_watch v w =
    ask kill_init_process (if w.wait_for_sandboxee then wait_result v w.monitor else w.monitor)

-- Run, after the set-up.
unfoldable pub run_unotify : List Round → Wait → UnotifyMonitor → UnotifyMonitor
run_unotify rs v m = after_watch v (watch rs (stay true m))
