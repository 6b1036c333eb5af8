-- ===== src/PolicyBuilder/Settings/Groups.antt =====
-- The methods of sandboxed_api/sandbox2/policybuilder.cc that allow a group of calls set no setting.
use googlectf2023_fastbox.Prelude.{ℕ, refl, Bool, true, false, Option, none, some}
use googlectf2023_fastbox.NetworkProxy.Filtering.{AllowedHosts}
use googlectf2023_fastbox.PolicyBuilder.State.{Method, set_error}
use googlectf2023_fastbox.PolicyBuilder.Rules.{call}
use googlectf2023_fastbox.PolicyBuilder.FileMounts.{FileSystem}
use googlectf2023_fastbox.PolicyBuilder.Settings.{Settled, Settled-call, settings_rules}
use googlectf2023_fastbox.PolicyBuilder.Settings.Mounted.{mount_rules}
use googlectf2023_fastbox.PolicyBuilder.Settings.Files.{
  Settled-allow_open, Settled-allow_stat, Settled-allow_access, Settled-allow_dup,
  Settled-allow_pipe, Settled-allow_chmod, Settled-allow_chown, Settled-allow_read,
  Settled-allow_write, Settled-allow_readdir, Settled-allow_readlink, Settled-allow_link,
  Settled-allow_symlink, Settled-allow_mkdir, Settled-allow_utime, Settled-allow_unlink,
  Settled-allow_rename, Settled-allow_safe_fcntl, Settled-allow_tcgets, files_settings,
}
use googlectf2023_fastbox.PolicyBuilder.Settings.Process.{
  Settled-allow_epoll_wait, Settled-allow_epoll, Settled-allow_inotify_init, Settled-allow_select,
  Settled-allow_exit, Settled-allow_fork, Settled-allow_wait, Settled-allow_alarm,
  Settled-allow_handle_signals, Settled-allow_time, Settled-allow_sleep, Settled-allow_get_ids,
  Settled-allow_get_pids, Settled-allow_get_pgids, Settled-allow_get_rlimit,
  Settled-allow_set_rlimit, Settled-allow_poll, Settled-allow_event_fd, Settled-allow_get_random,
  Settled-allow_wipe_on_fork, Settled-allow_prctl_set_name, process_settings,
}
use googlectf2023_fastbox.PolicyBuilder.Groups.Memory
use googlectf2023_fastbox.PolicyBuilder.Groups.Memory.{
  CpuFenceMode, require_fast_fences, allow_slow_fences, Sanitizers, when,
}
use googlectf2023_fastbox.PolicyBuilder.Groups.Startup
use googlectf2023_fastbox.PolicyBuilder.Groups.Network
use googlectf2023_fastbox.PolicyBuilder.Groups.Network.{once, proxy_rules}
use googlectf2023_fastbox.PolicyBuilder.Calls.{
  Group, group_method, allow_open, allow_stat, allow_access, allow_dup, allow_pipe, allow_chmod,
  allow_chown, allow_read, allow_write, allow_readdir, allow_readlink, allow_link, allow_symlink,
  allow_mkdir, allow_utime, allow_unlink, allow_rename, allow_safe_fcntl, allow_tcgets,
  allow_epoll_wait, allow_epoll, allow_inotify_init, allow_select, allow_exit, allow_fork,
  allow_wait, allow_alarm, allow_handle_signals, allow_time, allow_sleep, allow_get_ids,
  allow_get_pids, allow_get_pgids, allow_get_rlimit, allow_set_rlimit, allow_poll, allow_event_fd,
  allow_get_random, allow_wipe_on_fork, allow_prctl_set_name, allow_mmap, allow_scudo_malloc,
  allow_tc_malloc, allow_system_malloc, allow_static_startup, allow_dynamic_startup,
  allow_log_forwarding, add_network_proxy_policy, add_network_proxy_handler_policy,
}

pub Settled-allow_futex_op : (op : ℕ) → Settled (Memory.allow_futex_op op)
unfolding Memory.allow_futex_op
Settled-allow_futex_op op = search settings_rules

pub Settled-allow_restartable_sequences :
    (mode : CpuFenceMode) → Settled (Memory.allow_restartable_sequences mode)
unfolding Memory.allow_restartable_sequences
Settled-allow_restartable_sequences require_fast_fences =
    search (settings_rules, Settled-allow_futex_op) depth 20
Settled-allow_restartable_sequences allow_slow_fences =
    search (settings_rules, Settled-allow_futex_op) depth 20

Settled-allow_mmap : Settled Memory.allow_mmap
unfolding Memory.allow_mmap
Settled-allow_mmap = search settings_rules

ruleset parts = (
  files_settings, process_settings, mount_rules, Settled-allow_mmap, Settled-allow_futex_op,
  Settled-allow_restartable_sequences,
)

pub Settled-with_proc_files :
    (fs : FileSystem) (mode : CpuFenceMode)
    → Settled (Memory.allow_restartable_sequences_with_proc_files fs mode)
unfolding Memory.allow_restartable_sequences_with_proc_files
Settled-with_proc_files fs require_fast_fences = search parts depth 20
Settled-with_proc_files fs allow_slow_fences = search parts depth 20

Settled-allow_scudo_malloc : Settled Memory.allow_scudo_malloc
unfolding Memory.allow_scudo_malloc
Settled-allow_scudo_malloc = search parts depth 20

Settled-allow_tc_malloc : Settled Memory.allow_tc_malloc
unfolding Memory.allow_tc_malloc
Settled-allow_tc_malloc = search parts depth 20

Settled-allow_system_malloc : Settled Memory.allow_system_malloc
unfolding Memory.allow_system_malloc
Settled-allow_system_malloc = search parts depth 20

Settled-when : (b : Bool) (m : Method) → Settled m → Settled (when b m)
Settled-when true m s = s
Settled-when false m s = search settings_rules

pub Settled-allow_llvm_sanitizers :
    (build : Sanitizers) (fs : FileSystem) → Settled (Memory.allow_llvm_sanitizers build fs)
unfolding Memory.allow_llvm_sanitizers
Settled-allow_llvm_sanitizers build fs = search (parts, Settled-when) depth 24

ruleset all_parts =
    (parts, Settled-allow_scudo_malloc, Settled-allow_tc_malloc, Settled-allow_system_malloc)

Settled-allow_static_startup : Settled Startup.allow_static_startup
unfolding Startup.allow_static_startup
Settled-allow_static_startup = search all_parts depth 20

Settled-allow_dynamic_startup : Settled Startup.allow_dynamic_startup
unfolding Startup.allow_dynamic_startup
Settled-allow_dynamic_startup = search (all_parts, Settled-allow_static_startup) depth 20

Settled-allow_log_forwarding : Settled Startup.allow_log_forwarding
unfolding Startup.allow_log_forwarding
Settled-allow_log_forwarding = search all_parts depth 20

Settled-proxy_rules : Settled proxy_rules
unfolding proxy_rules
Settled-proxy_rules = search all_parts depth 20

Settled-hosts :
    (hosts : Option AllowedHosts) → Settled (call (λ b. record b { allowed_hosts = hosts }))
Settled-hosts hosts = Settled-call _ (λ b. refl)

Settled-once : (hosts : Option AllowedHosts) → Settled (once hosts)
unfolding set_error
Settled-once (some hosts) = Settled-call _ (λ b. refl)
Settled-once none = search (settings_rules, Settled-hosts, Settled-proxy_rules) depth 6

Settled-add_network_proxy_policy : Settled Network.add_network_proxy_policy
unfolding Network.add_network_proxy_policy
Settled-add_network_proxy_policy = record {
  at = λ b b' e. let s = Settled-once b.allowed_hosts in s.at b b' e;
}

Settled-add_network_proxy_handler_policy : Settled Network.add_network_proxy_handler_policy
unfolding Network.add_network_proxy_handler_policy
Settled-add_network_proxy_handler_policy =
    search (settings_rules, Settled-add_network_proxy_policy) depth 12

pub group_method-Settled : (g : Group) → Settled (group_method g)
group_method-Settled allow_open = Settled-allow_open
group_method-Settled allow_stat = Settled-allow_stat
group_method-Settled allow_access = Settled-allow_access
group_method-Settled allow_dup = Settled-allow_dup
group_method-Settled allow_pipe = Settled-allow_pipe
group_method-Settled allow_chmod = Settled-allow_chmod
group_method-Settled allow_chown = Settled-allow_chown
group_method-Settled allow_read = Settled-allow_read
group_method-Settled allow_write = Settled-allow_write
group_method-Settled allow_readdir = Settled-allow_readdir
group_method-Settled allow_readlink = Settled-allow_readlink
group_method-Settled allow_link = Settled-allow_link
group_method-Settled allow_symlink = Settled-allow_symlink
group_method-Settled allow_mkdir = Settled-allow_mkdir
group_method-Settled allow_utime = Settled-allow_utime
group_method-Settled allow_unlink = Settled-allow_unlink
group_method-Settled allow_rename = Settled-allow_rename
group_method-Settled allow_safe_fcntl = Settled-allow_safe_fcntl
group_method-Settled allow_tcgets = Settled-allow_tcgets
group_method-Settled allow_epoll_wait = Settled-allow_epoll_wait
group_method-Settled allow_epoll = Settled-allow_epoll
group_method-Settled allow_inotify_init = Settled-allow_inotify_init
group_method-Settled allow_select = Settled-allow_select
group_method-Settled allow_exit = Settled-allow_exit
group_method-Settled allow_fork = Settled-allow_fork
group_method-Settled allow_wait = Settled-allow_wait
group_method-Settled allow_alarm = Settled-allow_alarm
group_method-Settled allow_handle_signals = Settled-allow_handle_signals
group_method-Settled allow_time = Settled-allow_time
group_method-Settled allow_sleep = Settled-allow_sleep
group_method-Settled allow_get_ids = Settled-allow_get_ids
group_method-Settled allow_get_pids = Settled-allow_get_pids
group_method-Settled allow_get_pgids = Settled-allow_get_pgids
group_method-Settled allow_get_rlimit = Settled-allow_get_rlimit
group_method-Settled allow_set_rlimit = Settled-allow_set_rlimit
group_method-Settled allow_poll = Settled-allow_poll
group_method-Settled allow_event_fd = Settled-allow_event_fd
group_method-Settled allow_get_random = Settled-allow_get_random
group_method-Settled allow_wipe_on_fork = Settled-allow_wipe_on_fork
group_method-Settled allow_prctl_set_name = Settled-allow_prctl_set_name
group_method-Settled allow_mmap = Settled-allow_mmap
group_method-Settled allow_scudo_malloc = Settled-allow_scudo_malloc
group_method-Settled allow_tc_malloc = Settled-allow_tc_malloc
group_method-Settled allow_system_malloc = Settled-allow_system_malloc
group_method-Settled allow_static_startup = Settled-allow_static_startup
group_method-Settled allow_dynamic_startup = Settled-allow_dynamic_startup
group_method-Settled allow_log_forwarding = Settled-allow_log_forwarding
group_method-Settled add_network_proxy_policy = Settled-add_network_proxy_policy
group_method-Settled add_network_proxy_handler_policy = Settled-add_network_proxy_handler_policy
