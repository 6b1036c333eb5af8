-- ===== src/PolicyBuilder/Calls.antt =====
-- The public methods of `PolicyBuilder` (sandboxed_api/sandbox2/policybuilder.h) as one type of
-- calls, and a builder's life as a list of them.
pub mod Groups
pub mod Sound
use googlectf2023_fastbox.Prelude.{ℕ, Bool, List, [], ◌∷◌, Option}
use googlectf2023_fastbox.Text.{Bytes}
use googlectf2023_fastbox.NetworkProxy.Filtering.{NetLib}
use googlectf2023_fastbox.Bpf.{SockFilter}
use googlectf2023_fastbox.Bpf.Labels.{Item}
use googlectf2023_fastbox.PolicyBuilder.State
use googlectf2023_fastbox.PolicyBuilder.State.{Method, ◌▸◌, return_this}
use googlectf2023_fastbox.PolicyBuilder.Rules
use googlectf2023_fastbox.PolicyBuilder.Rules.{call}
use googlectf2023_fastbox.PolicyBuilder.FileMounts
use googlectf2023_fastbox.PolicyBuilder.FileMounts.{FileSystem}
use googlectf2023_fastbox.PolicyBuilder.Groups.Files
use googlectf2023_fastbox.PolicyBuilder.Groups.Process
use googlectf2023_fastbox.PolicyBuilder.Groups.Memory
use googlectf2023_fastbox.PolicyBuilder.Groups.Memory.{CpuFenceMode, Sanitizers}
use googlectf2023_fastbox.PolicyBuilder.Groups.Startup
use googlectf2023_fastbox.PolicyBuilder.Groups.Network

-- What the methods use of the system: its files, its text forms of addresses, its build.
pub record Host : Type 0 where
  pub files : FileSystem
  pub net : NetLib
  pub build : Sanitizers

-- The methods with no arguments that allow a group of calls.
pub data Group : Type 0 where
  allow_open allow_stat allow_access allow_dup allow_pipe allow_chmod allow_chown allow_read : Group
  allow_write allow_readdir allow_readlink allow_link allow_symlink allow_mkdir allow_utime : Group
  allow_unlink allow_rename allow_safe_fcntl allow_tcgets : Group
  allow_epoll_wait allow_epoll allow_inotify_init allow_select allow_exit allow_fork : Group
  allow_wait allow_alarm allow_handle_signals allow_time allow_sleep allow_get_ids : Group
  allow_get_pids allow_get_pgids allow_get_rlimit allow_set_rlimit allow_poll allow_event_fd : Group
  allow_get_random allow_wipe_on_fork allow_prctl_set_name : Group
  allow_mmap allow_scudo_malloc allow_tc_malloc allow_system_malloc : Group
  allow_static_startup allow_dynamic_startup allow_log_forwarding : Group
  add_network_proxy_policy add_network_proxy_handler_policy : Group

pub data Call : Type 0 where
  allow_group : Group → Call
  allow_syscalls : List ℕ → Call
  block_syscalls_with_errno : List ℕ → ℕ → Call
  add_policy_on_syscalls : List ℕ → List SockFilter → Call
  add_func_on_syscalls : List ℕ → List Item → Call
  allow_futex_op : ℕ → Call
  allow_restartable_sequences : CpuFenceMode → Call
  allow_restartable_sequences_with_proc_files : CpuFenceMode → Call
  allow_llvm_sanitizers : Call
  allow_ipv4 allow_ipv6 : Bytes → ℕ → Call
  add_file_at add_directory_at : Bytes → Bytes → Bool → Call
  add_tmpfs : Bytes → ℕ → Call
  set_hostname : Bytes → Call
  allow_unrestricted_networking enable_namespaces disable_namespaces : Call
  set_root_writable danger_allow_mount_propagation default_action_allow_all : Call
  collect_stacktraces_on_violation collect_stacktraces_on_signal collect_stacktraces_on_timeout :
      Bool → Call
  collect_stacktraces_on_kill collect_stacktraces_on_exit : Bool → Call

abbrev pub group_method : Group → Method
group_method allow_open = Files.allow_open
group_method allow_stat = Files.allow_stat
group_method allow_access = Files.allow_access
group_method allow_dup = Files.allow_dup
group_method allow_pipe = Files.allow_pipe
group_method allow_chmod = Files.allow_chmod
group_method allow_chown = Files.allow_chown
group_method allow_read = Files.allow_read
group_method allow_write = Files.allow_write
group_method allow_readdir = Files.allow_readdir
group_method allow_readlink = Files.allow_readlink
group_method allow_link = Files.allow_link
group_method allow_symlink = Files.allow_symlink
group_method allow_mkdir = Files.allow_mkdir
group_method allow_utime = Files.allow_utime
group_method allow_unlink = Files.allow_unlink
group_method allow_rename = Files.allow_rename
group_method allow_safe_fcntl = Files.allow_safe_fcntl
group_method allow_tcgets = Files.allow_tcgets
group_method allow_epoll_wait = Process.allow_epoll_wait
group_method allow_epoll = Process.allow_epoll
group_method allow_inotify_init = Process.allow_inotify_init
group_method allow_select = Process.allow_select
group_method allow_exit = Process.allow_exit
group_method allow_fork = Process.allow_fork
group_method allow_wait = Process.allow_wait
group_method allow_alarm = Process.allow_alarm
group_method allow_handle_signals = Process.allow_handle_signals
group_method allow_time = Process.allow_time
group_method allow_sleep = Process.allow_sleep
group_method allow_get_ids = Process.allow_get_ids
group_method allow_get_pids = Process.allow_get_pids
group_method allow_get_pgids = Process.allow_get_pgids
group_method allow_get_rlimit = Process.allow_get_rlimit
group_method allow_set_rlimit = Process.allow_set_rlimit
group_method allow_poll = Process.allow_poll
group_method allow_event_fd = Process.allow_event_fd
group_method allow_get_random = Process.allow_get_random
group_method allow_wipe_on_fork = Process.allow_wipe_on_fork
group_method allow_prctl_set_name = Process.allow_prctl_set_name
group_method allow_mmap = Memory.allow_mmap
group_method allow_scudo_malloc = Memory.allow_scudo_malloc
group_method allow_tc_malloc = Memory.allow_tc_malloc
group_method allow_system_malloc = Memory.allow_system_malloc
group_method allow_static_startup = Startup.allow_static_startup
group_method allow_dynamic_startup = Startup.allow_dynamic_startup
group_method allow_log_forwarding = Startup.allow_log_forwarding
group_method add_network_proxy_policy = Network.add_network_proxy_policy
group_method add_network_proxy_handler_policy = Network.add_network_proxy_handler_policy

unfoldable pub apply : Host → Call → Method
apply h (allow_group g) = group_method g
apply h (allow_syscalls nums) = call (Rules.allow_syscalls nums)
apply h (block_syscalls_with_errno nums error) = call (Rules.block_syscalls_with_errno nums error)
apply h (add_policy_on_syscalls nums policy) = call (Rules.add_policy_on_syscalls nums policy)
apply h (add_func_on_syscalls nums f) = Rules.add_func_on_syscalls nums f
apply h (allow_futex_op op) = Memory.allow_futex_op op
apply h (allow_restartable_sequences mode) = Memory.allow_restartable_sequences mode
apply h (allow_restartable_sequences_with_proc_files mode) =
    Memory.allow_restartable_sequences_with_proc_files h.files mode
apply h allow_llvm_sanitizers = Memory.allow_llvm_sanitizers h.build h.files
apply h (allow_ipv4 ip_and_mask port) = Network.allow_ipv4 h.net ip_and_mask port
apply h (allow_ipv6 ip_and_mask port) = Network.allow_ipv6 h.net ip_and_mask port
apply h (add_file_at outside inside is_ro) = FileMounts.add_file_at h.files outside inside is_ro
apply h (add_directory_at outside inside is_ro) =
    FileMounts.add_directory_at h.files outside inside is_ro
apply h (add_tmpfs inside size) = FileMounts.add_tmpfs h.files inside size
apply h (set_hostname name) = State.set_hostname name
apply h allow_unrestricted_networking = State.allow_unrestricted
apply h enable_namespaces = State.enable_namespaces
apply h disable_namespaces = State.disable_namespaces
apply h set_root_writable = FileMounts.set_root_writable
apply h danger_allow_mount_propagation = State.danger_allow_mount_propagation
apply h default_action_allow_all = State.default_action_allow_all
apply h (collect_stacktraces_on_violation enable) = State.collect_stacktraces_on_violation enable
apply h (collect_stacktraces_on_signal enable) = State.collect_stacktraces_on_signal enable
apply h (collect_stacktraces_on_timeout enable) = State.collect_stacktraces_on_timeout enable
apply h (collect_stacktraces_on_kill enable) = State.collect_stacktraces_on_kill enable
apply h (collect_stacktraces_on_exit enable) = State.collect_stacktraces_on_exit enable

unfoldable pub apply_all : Host → List Call → Method
unfolding apply
apply_all h [] = return_this
apply_all h (c ∷ cs) = apply h c ▸ apply_all h cs
