-- ===== src/PolicyBuilder/Calls/Groups.antt =====
-- The methods of sandboxed_api/sandbox2/policybuilder.cc that allow a group of calls, and soundness.
use googlectf2023_fastbox.PolicyBuilder.Keeps.{Keeps}
use googlectf2023_fastbox.PolicyBuilder.Groups.Files.Sound.{
  Keeps-allow_open, Keeps-allow_stat, Keeps-allow_access, Keeps-allow_dup, Keeps-allow_pipe,
  Keeps-allow_chmod, Keeps-allow_chown, Keeps-allow_read, Keeps-allow_write, Keeps-allow_readdir,
  Keeps-allow_readlink, Keeps-allow_link, Keeps-allow_symlink, Keeps-allow_mkdir, Keeps-allow_utime,
  Keeps-allow_unlink, Keeps-allow_rename, Keeps-allow_safe_fcntl, Keeps-allow_tcgets,
}
use googlectf2023_fastbox.PolicyBuilder.Groups.Process.Sound.{
  Keeps-allow_epoll_wait, Keeps-allow_epoll, Keeps-allow_inotify_init, Keeps-allow_select,
  Keeps-allow_exit, Keeps-allow_fork, Keeps-allow_wait, Keeps-allow_alarm,
  Keeps-allow_handle_signals, Keeps-allow_time, Keeps-allow_sleep, Keeps-allow_get_ids,
  Keeps-allow_get_pids, Keeps-allow_get_pgids, Keeps-allow_get_rlimit, Keeps-allow_set_rlimit,
  Keeps-allow_poll, Keeps-allow_event_fd, Keeps-allow_get_random, Keeps-allow_wipe_on_fork,
  Keeps-allow_prctl_set_name,
}
use googlectf2023_fastbox.PolicyBuilder.Groups.Memory.Sound.{
  Keeps-allow_mmap, Keeps-allow_scudo_malloc, Keeps-allow_tc_malloc, Keeps-allow_system_malloc,
}
use googlectf2023_fastbox.PolicyBuilder.Groups.Startup.Sound.{
  Keeps-allow_static_startup, Keeps-allow_dynamic_startup, Keeps-allow_log_forwarding,
}
use googlectf2023_fastbox.PolicyBuilder.Groups.Network.Sound.{
  Keeps-add_network_proxy_policy, Keeps-add_network_proxy_handler_policy,
}
use googlectf2023_fastbox.PolicyBuilder.Calls.{
  Group, group_method, allow_open, allow_stat, allow_access, allow_dup, allow_pipe, allow_chmod,
  allow_chown, allow_read, allow_write, allow_readdir, allow_readlink, allow_link, allow_symlink,
  allow_mkdir, allow_utime, allow_unlink, allow_rename, allow_safe_fcntl, allow_tcgets,
  allow_epoll_wait, allow_epoll, allow_inotify_init, allow_select, allow_exit, allow_fork,
  allow_wait, allow_alarm, allow_handle_signals, allow_time, allow_sleep, allow_get_ids,
  allow_get_pids, allow_get_pgids, allow_get_rlimit, allow_set_rlimit, allow_poll, allow_event_fd,
  allow_get_random, allow_wipe_on_fork, allow_prctl_set_name, allow_mmap, allow_scudo_malloc,
  allow_tc_malloc, allow_system_malloc, allow_static_startup, allow_dynamic_startup,
  allow_log_forwarding, add_network_proxy_policy, add_network_proxy_handler_policy,
}

pub group_method-Keeps : (g : Group) → Keeps (group_method g)
group_method-Keeps allow_open = Keeps-allow_open
group_method-Keeps allow_stat = Keeps-allow_stat
group_method-Keeps allow_access = Keeps-allow_access
group_method-Keeps allow_dup = Keeps-allow_dup
group_method-Keeps allow_pipe = Keeps-allow_pipe
group_method-Keeps allow_chmod = Keeps-allow_chmod
group_method-Keeps allow_chown = Keeps-allow_chown
group_method-Keeps allow_read = Keeps-allow_read
group_method-Keeps allow_write = Keeps-allow_write
group_method-Keeps allow_readdir = Keeps-allow_readdir
group_method-Keeps allow_readlink = Keeps-allow_readlink
group_method-Keeps allow_link = Keeps-allow_link
group_method-Keeps allow_symlink = Keeps-allow_symlink
group_method-Keeps allow_mkdir = Keeps-allow_mkdir
group_method-Keeps allow_utime = Keeps-allow_utime
group_method-Keeps allow_unlink = Keeps-allow_unlink
group_method-Keeps allow_rename = Keeps-allow_rename
group_method-Keeps allow_safe_fcntl = Keeps-allow_safe_fcntl
group_method-Keeps allow_tcgets = Keeps-allow_tcgets
group_method-Keeps allow_epoll_wait = Keeps-allow_epoll_wait
group_method-Keeps allow_epoll = Keeps-allow_epoll
group_method-Keeps allow_inotify_init = Keeps-allow_inotify_init
group_method-Keeps allow_select = Keeps-allow_select
group_method-Keeps allow_exit = Keeps-allow_exit
group_method-Keeps allow_fork = Keeps-allow_fork
group_method-Keeps allow_wait = Keeps-allow_wait
group_method-Keeps allow_alarm = Keeps-allow_alarm
group_method-Keeps allow_handle_signals = Keeps-allow_handle_signals
group_method-Keeps allow_time = Keeps-allow_time
group_method-Keeps allow_sleep = Keeps-allow_sleep
group_method-Keeps allow_get_ids = Keeps-allow_get_ids
group_method-Keeps allow_get_pids = Keeps-allow_get_pids
group_method-Keeps allow_get_pgids = Keeps-allow_get_pgids
group_method-Keeps allow_get_rlimit = Keeps-allow_get_rlimit
group_method-Keeps allow_set_rlimit = Keeps-allow_set_rlimit
group_method-Keeps allow_poll = Keeps-allow_poll
group_method-Keeps allow_event_fd = Keeps-allow_event_fd
group_method-Keeps allow_get_random = Keeps-allow_get_random
group_method-Keeps allow_wipe_on_fork = Keeps-allow_wipe_on_fork
group_method-Keeps allow_prctl_set_name = Keeps-allow_prctl_set_name
group_method-Keeps allow_mmap = Keeps-allow_mmap
group_method-Keeps allow_scudo_malloc = Keeps-allow_scudo_malloc
group_method-Keeps allow_tc_malloc = Keeps-allow_tc_malloc
group_method-Keeps allow_system_malloc = Keeps-allow_system_malloc
group_method-Keeps allow_static_startup = Keeps-allow_static_startup
group_method-Keeps allow_dynamic_startup = Keeps-allow_dynamic_startup
group_method-Keeps allow_log_forwarding = Keeps-allow_log_forwarding
group_method-Keeps add_network_proxy_policy = Keeps-add_network_proxy_policy
group_method-Keeps add_network_proxy_handler_policy = Keeps-add_network_proxy_handler_policy
