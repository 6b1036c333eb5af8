-- ===== src/Unotify/Reports.antt =====
-- sandboxed_api/sandbox2/monitor_unotify.cc: how often a violation is reported.
use googlectf2023_fastbox.Prelude.{
  ℕ, ◌≡◌, refl, sym, ap, ◌∙◌, Bool, true, false, not, ◌&&◌, List, [], ◌∷◌, ◌++◌, some,
  if◌then◌else◌, ◌==◌, ◌||◌,
}
use mathlib.Core.Path.{subst}
use googlectf2023_fastbox.Monitor.{
  StatusEnum, ok, setup_error, violation, signaled, timeout, external_kill, internal_error,
  violation_network, Syscall, Result, is_unset, set_exit_status_code, ViolationType,
}
use googlectf2023_fastbox.Monitor.Stops.{failed_monitor}
use googlectf2023_fastbox.Unotify.{
  Request, kill_main, kill_init_process, report, UnotifyMonitor, notif, enoent, recv_failed, ask,
  set_result, syscall_of, violation_type, handle_violation, handle_unotify, cld_exited, cld_killed,
  cld_dumped, set_exit_status_from_status_pipe, Round, deadline_passed, kill_requested,
  network_violated, woken, hung_up, status_read, notified, Wait, wait_over, status_hung_up,
  nothing_there, status_came, Watch, stay, killed_after, watch_round, watch, wait_result,
  after_watch, run_unotify,
}

-- Nothing is reported.
pub data Untold : List Request → Type 0 where
  untold : Untold []
  main_killed : {rs : List Request} → Untold rs → Untold (kill_main ∷ rs)
  init_killed : {rs : List Request} → Untold rs → Untold (kill_init_process ∷ rs)

-- No violation is reported; or one is, twice in a row, and the main process is killed right after
-- it, the status is set and the result holds the call.
pub data Reported (m : UnotifyMonitor) : Type 0 where
  not_reported : Untold m.requests → Reported m
  twice :
      (s : Syscall) (t : ViolationType) (later before : List Request)
      → m.requests ≡ later ++ (kill_main ∷ report s t ∷ report s t ∷ before)
      → Untold later
      → Untold before
      → m.result.syscall ≡ some s
      → is_unset m.result.final_status ≡ false
      → Reported m

-- A status that is set stays.
set_exit_status_code-set :
    (s : StatusEnum) (code : ℕ) (r : Result)
    → is_unset r.final_status ≡ false
    → set_exit_status_code s code r ≡ r
unfolding set_exit_status_code
set_exit_status_code-set s code r e =
    ap (λ b. if not b then r else record r { final_status = s; reason_code = code }) e

set_exit_status_code-sets :
    (s : StatusEnum) (code : ℕ) (r : Result)
    → is_unset s ≡ false
    → is_unset (set_exit_status_code s code r).final_status ≡ false
unfolding set_exit_status_code
set_exit_status_code-sets s code r e = by_status (is_unset r.final_status) refl
  where
    chosen : Bool → Result
    chosen b = if not b then r else record r { final_status = s; reason_code = code }

    by_status : (b : Bool) → is_unset r.final_status ≡ b → is_unset (chosen b).final_status ≡ false
    by_status true u = e
    by_status false u = u

set_result-Reported :
    (s : StatusEnum) (code : ℕ) (m : UnotifyMonitor) → Reported m → Reported (set_result s code m)
set_result-Reported s code m (not_reported q) = not_reported q
set_result-Reported s code m (twice c t later before a ql qb y u) =
    let same = set_exit_status_code-set s code m.result u in
    twice c t later before a ql qb (ap (λ r. r.syscall) same ∙ y)
      (ap (λ r. is_unset r.final_status) same ∙ u)

either-Reported :
    (b : Bool) {x y : UnotifyMonitor} → Reported x → Reported y → Reported (if b then x else y)
either-Reported true rx ry = rx
either-Reported false rx ry = ry

-- The status that is read may set the result, and does no more.
status_pipe-Reported :
    (code status : ℕ) (m : UnotifyMonitor)
    → Reported m
    → Reported (set_exit_status_from_status_pipe code status m)
unfolding set_exit_status_from_status_pipe
status_pipe-Reported code status m r =
    either-Reported (code == cld_exited) (set_result-Reported ok status m r) (
      either-Reported ((code == cld_killed) || (code == cld_dumped))
        (either-Reported m.network_violation (set_result-Reported violation violation_network m r) (
          either-Reported m.external_kill (set_result-Reported external_kill 0 m r) (
            either-Reported m.timed_out (set_result-Reported timeout 0 m r)
              (set_result-Reported signaled status m r))))
        (set_result-Reported setup_error failed_monitor m r))

killed_after-Reported :
    (fails wait : Bool) (m : UnotifyMonitor)
    → Untold m.requests
    → Reported (killed_after fails wait m).monitor
killed_after-Reported true wait m q = not_reported (main_killed q)
killed_after-Reported false wait m q = not_reported (main_killed q)

handle_violation-Reported :
    (fails : Bool) (s : Syscall) (m : UnotifyMonitor)
    → Untold m.requests
    → Reported (handle_violation fails s m)
handle_violation-Reported true s m q =
    twice s (violation_type s) [] m.requests refl untold q refl
      (set_exit_status_code-sets violation s.nr _ refl)
handle_violation-Reported false s m q =
    twice s (violation_type s) [] m.requests refl untold q refl
      (set_exit_status_code-sets violation s.nr m.result refl)

watch_round-Reported :
    (r : Round) (wait : Bool) (m : UnotifyMonitor)
    → Untold m.requests
    → Reported (watch_round r wait m).monitor
unfolding watch_round handle_unotify
watch_round-Reported (deadline_passed fails) wait m q = killed_after-Reported fails wait _ q
watch_round-Reported (kill_requested fails) wait m q = killed_after-Reported fails wait _ q
watch_round-Reported (network_violated fails) wait m q = by_flag m.network_violation
  where
    by_flag :
        (b : Bool)
        → Reported
            (if b
              then stay wait m
              else killed_after fails wait (record m { network_violation = true })).monitor
    by_flag true = not_reported q
    by_flag false = killed_after-Reported fails wait _ q
watch_round-Reported woken wait m q = not_reported q
watch_round-Reported (status_read code status) wait m q =
    status_pipe-Reported code status m (not_reported q)
watch_round-Reported hung_up wait m q = not_reported q
watch_round-Reported (notified fails enoent) wait m q = not_reported q
watch_round-Reported (notified fails recv_failed) wait m q = not_reported q
watch_round-Reported (notified fails (notif req)) wait m q =
    handle_violation-Reported fails (syscall_of req) m q

watch-Reported : (rs : List Round) (w : Watch) → Reported w.monitor → Reported (watch rs w).monitor
unfolding watch
watch-Reported [] w h = h
watch-Reported (r ∷ rs) w (twice s t later before a ql qb y u) =
    subst
      (λ b.
        Reported
          (if b && not w.left
            then watch rs (watch_round r w.wait_for_sandboxee w.monitor)
            else w).monitor)
      (sym u) (twice s t later before a ql qb y u)
watch-Reported (r ∷ rs) w (not_reported q) =
    by_flag (is_unset w.monitor.result.final_status && not w.left)
      (watch-Reported rs _ (watch_round-Reported r w.wait_for_sandboxee w.monitor q))
  where
    by_flag :
        (b : Bool)
        → Reported (watch rs (watch_round r w.wait_for_sandboxee w.monitor)).monitor
        → Reported
            (if b then watch rs (watch_round r w.wait_for_sandboxee w.monitor) else w).monitor
    by_flag true h = h
    by_flag false h = not_reported q

wait_result-Reported : (v : Wait) (m : UnotifyMonitor) → Reported m → Reported (wait_result v m)
wait_result-Reported wait_over m h = h
wait_result-Reported nothing_there m h = h
wait_result-Reported status_hung_up m h = set_result-Reported internal_error failed_monitor m h
wait_result-Reported (status_came code status) m h = status_pipe-Reported code status m h

init_killed-Reported : (m : UnotifyMonitor) → Reported m → Reported (ask kill_init_process m)
init_killed-Reported m (not_reported q) = not_reported (init_killed q)
init_killed-Reported m (twice s t later before a ql qb y u) =
    twice s t (kill_init_process ∷ later) before (ap (λ rs. kill_init_process ∷ rs) a)
      (init_killed ql) qb y u

-- If no violation has been reported before, then Run, whatever its rounds find, reports none; or it
-- reports one call twice in a row, kills the main process right after that and reports nothing
-- more, and ends with a status that is set and with that call in the result.
pub run_unotify-Reported :
    (rs : List Round) (v : Wait) (m : UnotifyMonitor)
    → Untold m.requests
    → Reported (run_unotify rs v m)
unfolding run_unotify after_watch
run_unotify-Reported rs v m q =
    let w = watch rs (stay true m) in
    let h = watch-Reported rs (stay true m) (not_reported q) in
    init_killed-Reported _
      (either-Reported w.wait_for_sandboxee (wait_result-Reported v w.monitor h) h)
