-- ===== src/PolicyBuilder/Settings/Process.antt =====
-- The methods of sandboxed_api/sandbox2/policybuilder.cc for processes set no setting.
use googlectf2023_fastbox.PolicyBuilder.Settings.{Settled, settings_rules}
use googlectf2023_fastbox.PolicyBuilder.Groups.Process

pub Settled-allow_epoll_wait : Settled Process.allow_epoll_wait
unfolding Process.allow_epoll_wait
Settled-allow_epoll_wait = search settings_rules depth 12

pub Settled-allow_epoll : Settled Process.allow_epoll
unfolding Process.allow_epoll
Settled-allow_epoll = search settings_rules depth 12

pub Settled-allow_inotify_init : Settled Process.allow_inotify_init
unfolding Process.allow_inotify_init
Settled-allow_inotify_init = search settings_rules depth 12

pub Settled-allow_select : Settled Process.allow_select
unfolding Process.allow_select
Settled-allow_select = search settings_rules depth 12

pub Settled-allow_exit : Settled Process.allow_exit
unfolding Process.allow_exit
Settled-allow_exit = search settings_rules depth 12

pub Settled-allow_fork : Settled Process.allow_fork
unfolding Process.allow_fork
Settled-allow_fork = search settings_rules depth 12

pub Settled-allow_wait : Settled Process.allow_wait
unfolding Process.allow_wait
Settled-allow_wait = search settings_rules depth 12

pub Settled-allow_alarm : Settled Process.allow_alarm
unfolding Process.allow_alarm
Settled-allow_alarm = search settings_rules depth 12

pub Settled-allow_handle_signals : Settled Process.allow_handle_signals
unfolding Process.allow_handle_signals
Settled-allow_handle_signals = search settings_rules depth 12

pub Settled-allow_time : Settled Process.allow_time
unfolding Process.allow_time
Settled-allow_time = search settings_rules depth 12

pub Settled-allow_sleep : Settled Process.allow_sleep
unfolding Process.allow_sleep
Settled-allow_sleep = search settings_rules depth 12

pub Settled-allow_get_ids : Settled Process.allow_get_ids
unfolding Process.allow_get_ids
Settled-allow_get_ids = search settings_rules depth 12

pub Settled-allow_get_pids : Settled Process.allow_get_pids
unfolding Process.allow_get_pids
Settled-allow_get_pids = search settings_rules depth 12

pub Settled-allow_get_pgids : Settled Process.allow_get_pgids
unfolding Process.allow_get_pgids
Settled-allow_get_pgids = search settings_rules depth 12

pub Settled-allow_get_rlimit : Settled Process.allow_get_rlimit
unfolding Process.allow_get_rlimit
Settled-allow_get_rlimit = search settings_rules depth 12

pub Settled-allow_set_rlimit : Settled Process.allow_set_rlimit
unfolding Process.allow_set_rlimit
Settled-allow_set_rlimit = search settings_rules depth 12

pub Settled-allow_poll : Settled Process.allow_poll
unfolding Process.allow_poll
Settled-allow_poll = search settings_rules depth 12

pub Settled-allow_event_fd : Settled Process.allow_event_fd
unfolding Process.allow_event_fd
Settled-allow_event_fd = search settings_rules depth 12

pub Settled-allow_get_random : Settled Process.allow_get_random
unfolding Process.allow_get_random
Settled-allow_get_random = search settings_rules depth 12

pub Settled-allow_wipe_on_fork : Settled Process.allow_wipe_on_fork
unfolding Process.allow_wipe_on_fork
Settled-allow_wipe_on_fork = search settings_rules depth 12

pub Settled-allow_limited_madvise : Settled Process.allow_limited_madvise
unfolding Process.allow_limited_madvise
Settled-allow_limited_madvise = search settings_rules depth 12

pub Settled-allow_prctl_set_name : Settled Process.allow_prctl_set_name
unfolding Process.allow_prctl_set_name
Settled-allow_prctl_set_name = search settings_rules depth 12

pub ruleset process_settings = (
  settings_rules, Settled-allow_epoll_wait, Settled-allow_epoll, Settled-allow_inotify_init,
  Settled-allow_select, Settled-allow_exit, Settled-allow_fork, Settled-allow_wait,
  Settled-allow_alarm, Settled-allow_handle_signals, Settled-allow_time, Settled-allow_sleep,
  Settled-allow_get_ids, Settled-allow_get_pids, Settled-allow_get_pgids, Settled-allow_get_rlimit,
  Settled-allow_set_rlimit, Settled-allow_poll, Settled-allow_event_fd, Settled-allow_get_random,
  Settled-allow_wipe_on_fork, Settled-allow_limited_madvise, Settled-allow_prctl_set_name,
)
