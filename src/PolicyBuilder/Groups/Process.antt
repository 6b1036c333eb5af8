-- ===== src/PolicyBuilder/Groups/Process.antt =====
-- sandboxed_api/sandbox2/policybuilder.cc: the methods that allow groups of calls for processes, signals, time and identity.
-- A call that x86-64 does not have is left out, as the preprocessor leaves it out.
pub mod Sound
use googlectf2023_fastbox.Prelude.{ℕ, [], ◌∷◌, ◌++◌}
use googlectf2023_fastbox.Linux.Syscalls.{
  nr_alarm, nr_clock_gettime, nr_clock_nanosleep, nr_clone, nr_epoll_create, nr_epoll_create1,
  nr_epoll_ctl, nr_epoll_pwait, nr_epoll_pwait2, nr_epoll_wait, nr_eventfd, nr_eventfd2, nr_exit,
  nr_exit_group, nr_fork, nr_getegid, nr_geteuid, nr_getgid, nr_getgroups, nr_getpgid, nr_getpgrp,
  nr_getpid, nr_getppid, nr_getrandom, nr_getresgid, nr_getresuid, nr_getrlimit, nr_gettid,
  nr_gettimeofday, nr_getuid, nr_inotify_init, nr_inotify_init1, nr_madvise, nr_nanosleep, nr_poll,
  nr_ppoll, nr_prctl, nr_pselect6, nr_rt_sigaction, nr_rt_sigprocmask, nr_rt_sigreturn, nr_select,
  nr_setitimer, nr_setrlimit, nr_sigaltstack, nr_time, nr_vfork, nr_wait4,
}
use googlectf2023_fastbox.Linux.Constants.{
  grnd_nonblock, madv_dontneed, madv_hugepage, madv_nohugepage, madv_remove, pr_set_name,
}
use googlectf2023_fastbox.Bpf.{arg_32}
use googlectf2023_fastbox.PolicyBuilder.State.{Method, ◌▸◌}
use googlectf2023_fastbox.PolicyBuilder.Rules.{
  call, allow_if, allow_syscall, allow_syscalls, add_policy_on_syscall,
}

unfoldable pub allow_epoll_wait : Method
allow_epoll_wait = call (allow_syscalls (nr_epoll_wait ∷ nr_epoll_pwait ∷ nr_epoll_pwait2 ∷ []))

unfoldable pub allow_epoll : Method
unfolding allow_epoll_wait
allow_epoll =
    call (allow_syscalls (nr_epoll_create ∷ nr_epoll_create1 ∷ nr_epoll_ctl ∷ []))
    ▸ allow_epoll_wait

unfoldable pub allow_inotify_init : Method
allow_inotify_init = call (allow_syscalls (nr_inotify_init ∷ nr_inotify_init1 ∷ []))

unfoldable pub allow_select : Method
allow_select = call (allow_syscalls (nr_select ∷ nr_pselect6 ∷ []))

unfoldable pub allow_exit : Method
allow_exit = call (allow_syscalls (nr_exit ∷ nr_exit_group ∷ []))

unfoldable pub allow_fork : Method
allow_fork = call (allow_syscalls (nr_fork ∷ nr_vfork ∷ nr_clone ∷ []))

unfoldable pub allow_wait : Method
allow_wait = call (allow_syscalls (nr_wait4 ∷ []))

unfoldable pub allow_alarm : Method
allow_alarm = call (allow_syscalls (nr_alarm ∷ nr_setitimer ∷ []))

unfoldable pub allow_handle_signals : Method
allow_handle_signals =
    call
      (allow_syscalls (nr_rt_sigaction ∷ nr_rt_sigreturn ∷ nr_rt_sigprocmask ∷ nr_sigaltstack ∷ []))

unfoldable pub allow_time : Method
allow_time = call (allow_syscalls (nr_time ∷ nr_gettimeofday ∷ nr_clock_gettime ∷ []))

unfoldable pub allow_sleep : Method
allow_sleep = call (allow_syscalls (nr_clock_nanosleep ∷ nr_nanosleep ∷ []))

unfoldable pub allow_get_ids : Method
allow_get_ids = call (
    allow_syscalls (
      nr_getuid ∷ nr_geteuid ∷ nr_getresuid ∷ nr_getgid ∷ nr_getegid ∷ nr_getresgid ∷ nr_getgroups
      ∷ []))

unfoldable pub allow_get_pids : Method
allow_get_pids = call (allow_syscalls (nr_getpid ∷ nr_getppid ∷ nr_gettid ∷ []))

unfoldable pub allow_get_pgids : Method
allow_get_pgids = call (allow_syscalls (nr_getpgid ∷ nr_getpgrp ∷ []))

unfoldable pub allow_get_rlimit : Method
allow_get_rlimit = call (allow_syscalls (nr_getrlimit ∷ []))

unfoldable pub allow_set_rlimit : Method
allow_set_rlimit = call (allow_syscalls (nr_setrlimit ∷ []))

unfoldable pub allow_poll : Method
allow_poll = call (allow_syscalls (nr_poll ∷ nr_ppoll ∷ []))

unfoldable pub allow_event_fd : Method
allow_event_fd = call (allow_syscalls (nr_eventfd ∷ nr_eventfd2 ∷ []))

unfoldable pub allow_get_random : Method
allow_get_random =
    call (add_policy_on_syscall nr_getrandom (arg_32 2 ∷ (allow_if 0 ++ allow_if grnd_nonblock)))

-- kMadv_WipeOnFork
abbrev madv_wipe_on_fork : ℕ
madv_wipe_on_fork = 18

unfoldable pub allow_wipe_on_fork : Method
allow_wipe_on_fork = call (
    add_policy_on_syscall nr_madvise
      (arg_32 2 ∷ (allow_if madv_wipe_on_fork ++ allow_if 0xffff_ffff)))

unfoldable pub allow_limited_madvise : Method
allow_limited_madvise = call (
    add_policy_on_syscall nr_madvise (
      arg_32 2
      ∷ (allow_if madv_dontneed
          ++ allow_if madv_remove
          ++ allow_if madv_hugepage
          ++ allow_if madv_nohugepage)))

unfoldable pub allow_prctl_set_name : Method
allow_prctl_set_name = call (add_policy_on_syscall nr_prctl (arg_32 0 ∷ (allow_if pr_set_name)))
