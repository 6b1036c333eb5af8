-- ===== src/PolicyBuilder/Settings/Files.antt =====
-- The methods of sandboxed_api/sandbox2/policybuilder.cc for files set no setting.
use googlectf2023_fastbox.PolicyBuilder.Settings.{Settled, settings_rules}
use googlectf2023_fastbox.PolicyBuilder.Groups.Files

pub Settled-allow_open : Settled Files.allow_open
unfolding Files.allow_open
Settled-allow_open = search settings_rules depth 12

pub Settled-allow_stat : Settled Files.allow_stat
unfolding Files.allow_stat
Settled-allow_stat = search settings_rules depth 12

pub Settled-allow_access : Settled Files.allow_access
unfolding Files.allow_access
Settled-allow_access = search settings_rules depth 12

pub Settled-allow_dup : Settled Files.allow_dup
unfolding Files.allow_dup
Settled-allow_dup = search settings_rules depth 12

pub Settled-allow_pipe : Settled Files.allow_pipe
unfolding Files.allow_pipe
Settled-allow_pipe = search settings_rules depth 12

pub Settled-allow_chmod : Settled Files.allow_chmod
unfolding Files.allow_chmod
Settled-allow_chmod = search settings_rules depth 12

pub Settled-allow_chown : Settled Files.allow_chown
unfolding Files.allow_chown
Settled-allow_chown = search settings_rules depth 12

pub Settled-allow_read : Settled Files.allow_read
unfolding Files.allow_read
Settled-allow_read = search settings_rules depth 12

pub Settled-allow_write : Settled Files.allow_write
unfolding Files.allow_write
Settled-allow_write = search settings_rules depth 12

pub Settled-allow_readdir : Settled Files.allow_readdir
unfolding Files.allow_readdir
Settled-allow_readdir = search settings_rules depth 12

pub Settled-allow_readlink : Settled Files.allow_readlink
unfolding Files.allow_readlink
Settled-allow_readlink = search settings_rules depth 12

pub Settled-allow_link : Settled Files.allow_link
unfolding Files.allow_link
Settled-allow_link = search settings_rules depth 12

pub Settled-allow_symlink : Settled Files.allow_symlink
unfolding Files.allow_symlink
Settled-allow_symlink = search settings_rules depth 12

pub Settled-allow_mkdir : Settled Files.allow_mkdir
unfolding Files.allow_mkdir
Settled-allow_mkdir = search settings_rules depth 12

pub Settled-allow_utime : Settled Files.allow_utime
unfolding Files.allow_utime
Settled-allow_utime = search settings_rules depth 12

pub Settled-allow_unlink : Settled Files.allow_unlink
unfolding Files.allow_unlink
Settled-allow_unlink = search settings_rules depth 12

pub Settled-allow_rename : Settled Files.allow_rename
unfolding Files.allow_rename
Settled-allow_rename = search settings_rules depth 12

pub Settled-allow_safe_fcntl : Settled Files.allow_safe_fcntl
unfolding Files.allow_safe_fcntl
Settled-allow_safe_fcntl = search settings_rules depth 12

pub Settled-allow_tcgets : Settled Files.allow_tcgets
unfolding Files.allow_tcgets
Settled-allow_tcgets = search settings_rules depth 12

pub ruleset files_settings = (
  settings_rules, Settled-allow_open, Settled-allow_stat, Settled-allow_access, Settled-allow_dup,
  Settled-allow_pipe, Settled-allow_chmod, Settled-allow_chown, Settled-allow_read,
  Settled-allow_write, Settled-allow_readdir, Settled-allow_readlink, Settled-allow_link,
  Settled-allow_symlink, Settled-allow_mkdir, Settled-allow_utime, Settled-allow_unlink,
  Settled-allow_rename, Settled-allow_safe_fcntl, Settled-allow_tcgets,
)
