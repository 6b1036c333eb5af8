-- ===== src/PolicyBuilder/Groups/Process/Sound.antt =====
-- The methods of sandboxed_api/sandbox2/policybuilder.cc for processes keep a builder sound.
use googlectf2023_fastbox.PolicyBuilder.Keeps.{Keeps, keeps_rules}
use googlectf2023_fastbox.PolicyBuilder.Groups.Process.{
  allow_epoll_wait, allow_epoll, allow_inotify_init, allow_select, allow_exit, allow_fork,
  allow_wait, allow_alarm, allow_handle_signals, allow_time, allow_sleep, allow_get_ids,
  allow_get_pids, allow_get_pgids, allow_get_rlimit, allow_set_rlimit, allow_poll, allow_event_fd,
  allow_get_random, allow_wipe_on_fork, allow_limited_madvise, allow_prctl_set_name,
}

pub Keeps-allow_epoll_wait : Keeps allow_epoll_wait
unfolding allow_epoll_wait
Keeps-allow_epoll_wait = search keeps_rules depth 12

pub Keeps-allow_epoll : Keeps allow_epoll
unfolding allow_epoll
Keeps-allow_epoll = search keeps_rules depth 12

pub Keeps-allow_inotify_init : Keeps allow_inotify_init
unfolding allow_inotify_init
Keeps-allow_inotify_init = search keeps_rules depth 12

pub Keeps-allow_select : Keeps allow_select
unfolding allow_select
Keeps-allow_select = search keeps_rules depth 12

pub Keeps-allow_exit : Keeps allow_exit
unfolding allow_exit
Keeps-allow_exit = search keeps_rules depth 12

pub Keeps-allow_fork : Keeps allow_fork
unfolding allow_fork
Keeps-allow_fork = search keeps_rules depth 12

pub Keeps-allow_wait : Keeps allow_wait
unfolding allow_wait
Keeps-allow_wait = search keeps_rules depth 12

pub Keeps-allow_alarm : Keeps allow_alarm
unfolding allow_alarm
Keeps-allow_alarm = search keeps_rules depth 12

pub Keeps-allow_handle_signals : Keeps allow_handle_signals
unfolding allow_handle_signals
Keeps-allow_handle_signals = search keeps_rules depth 12

pub Keeps-allow_time : Keeps allow_time
unfolding allow_time
Keeps-allow_time = search keeps_rules depth 12

pub Keeps-allow_sleep : Keeps allow_sleep
unfolding allow_sleep
Keeps-allow_sleep = search keeps_rules depth 12

pub Keeps-allow_get_ids : Keeps allow_get_ids
unfolding allow_get_ids
Keeps-allow_get_ids = search keeps_rules depth 12

pub Keeps-allow_get_pids : Keeps allow_get_pids
unfolding allow_get_pids
Keeps-allow_get_pids = search keeps_rules depth 12

pub Keeps-allow_get_pgids : Keeps allow_get_pgids
unfolding allow_get_pgids
Keeps-allow_get_pgids = search keeps_rules depth 12

pub Keeps-allow_get_rlimit : Keeps allow_get_rlimit
unfolding allow_get_rlimit
Keeps-allow_get_rlimit = search keeps_rules depth 12

pub Keeps-allow_set_rlimit : Keeps allow_set_rlimit
unfolding allow_set_rlimit
Keeps-allow_set_rlimit = search keeps_rules depth 12

pub Keeps-allow_poll : Keeps allow_poll
unfolding allow_poll
Keeps-allow_poll = search keeps_rules depth 12

pub Keeps-allow_event_fd : Keeps allow_event_fd
unfolding allow_event_fd
Keeps-allow_event_fd = search keeps_rules depth 12

pub Keeps-allow_get_random : Keeps allow_get_random
unfolding allow_get_random
Keeps-allow_get_random = search keeps_rules depth 12

pub Keeps-allow_wipe_on_fork : Keeps allow_wipe_on_fork
unfolding allow_wipe_on_fork
Keeps-allow_wipe_on_fork = search keeps_rules depth 12

pub Keeps-allow_limited_madvise : Keeps allow_limited_madvise
unfolding allow_limited_madvise
Keeps-allow_limited_madvise = search keeps_rules depth 12

pub Keeps-allow_prctl_set_name : Keeps allow_prctl_set_name
unfolding allow_prctl_set_name
Keeps-allow_prctl_set_name = search keeps_rules depth 12

pub ruleset process_rules = (
  Keeps-allow_epoll_wait, Keeps-allow_epoll, Keeps-allow_inotify_init, Keeps-allow_select,
  Keeps-allow_exit, Keeps-allow_fork, Keeps-allow_wait, Keeps-allow_alarm,
  Keeps-allow_handle_signals, Keeps-allow_time, Keeps-allow_sleep, Keeps-allow_get_ids,
  Keeps-allow_get_pids, Keeps-allow_get_pgids, Keeps-allow_get_rlimit, Keeps-allow_set_rlimit,
  Keeps-allow_poll, Keeps-allow_event_fd, Keeps-allow_get_random, Keeps-allow_wipe_on_fork,
  Keeps-allow_limited_madvise, Keeps-allow_prctl_set_name,
)
