-- ===== src/PolicyBuilder/Groups/Files/Sound.antt =====
-- The methods of sandboxed_api/sandbox2/policybuilder.cc for files keep a builder sound.
use googlectf2023_fastbox.PolicyBuilder.Keeps.{Keeps, keeps_rules}
use googlectf2023_fastbox.PolicyBuilder.Groups.Files.{
  allow_open, allow_stat, allow_access, allow_dup, allow_pipe, allow_chmod, allow_chown, allow_read,
  allow_write, allow_readdir, allow_readlink, allow_link, allow_symlink, allow_mkdir, allow_utime,
  allow_unlink, allow_rename, allow_safe_fcntl, allow_tcgets,
}

pub Keeps-allow_open : Keeps allow_open
unfolding allow_open
Keeps-allow_open = search keeps_rules depth 12

pub Keeps-allow_stat : Keeps allow_stat
unfolding allow_stat
Keeps-allow_stat = search keeps_rules depth 12

pub Keeps-allow_access : Keeps allow_access
unfolding allow_access
Keeps-allow_access = search keeps_rules depth 12

pub Keeps-allow_dup : Keeps allow_dup
unfolding allow_dup
Keeps-allow_dup = search keeps_rules depth 12

pub Keeps-allow_pipe : Keeps allow_pipe
unfolding allow_pipe
Keeps-allow_pipe = search keeps_rules depth 12

pub Keeps-allow_chmod : Keeps allow_chmod
unfolding allow_chmod
Keeps-allow_chmod = search keeps_rules depth 12

pub Keeps-allow_chown : Keeps allow_chown
unfolding allow_chown
Keeps-allow_chown = search keeps_rules depth 12

pub Keeps-allow_read : Keeps allow_read
unfolding allow_read
Keeps-allow_read = search keeps_rules depth 12

pub Keeps-allow_write : Keeps allow_write
unfolding allow_write
Keeps-allow_write = search keeps_rules depth 12

pub Keeps-allow_readdir : Keeps allow_readdir
unfolding allow_readdir
Keeps-allow_readdir = search keeps_rules depth 12

pub Keeps-allow_readlink : Keeps allow_readlink
unfolding allow_readlink
Keeps-allow_readlink = search keeps_rules depth 12

pub Keeps-allow_link : Keeps allow_link
unfolding allow_link
Keeps-allow_link = search keeps_rules depth 12

pub Keeps-allow_symlink : Keeps allow_symlink
unfolding allow_symlink
Keeps-allow_symlink = search keeps_rules depth 12

pub Keeps-allow_mkdir : Keeps allow_mkdir
unfolding allow_mkdir
Keeps-allow_mkdir = search keeps_rules depth 12

pub Keeps-allow_utime : Keeps allow_utime
unfolding allow_utime
Keeps-allow_utime = search keeps_rules depth 12

pub Keeps-allow_unlink : Keeps allow_unlink
unfolding allow_unlink
Keeps-allow_unlink = search keeps_rules depth 12

pub Keeps-allow_rename : Keeps allow_rename
unfolding allow_rename
Keeps-allow_rename = search keeps_rules depth 12

pub Keeps-allow_safe_fcntl : Keeps allow_safe_fcntl
unfolding allow_safe_fcntl
Keeps-allow_safe_fcntl = search keeps_rules depth 12

pub Keeps-allow_tcgets : Keeps allow_tcgets
unfolding allow_tcgets
Keeps-allow_tcgets = search keeps_rules depth 12

pub ruleset files_rules = (
  Keeps-allow_open, Keeps-allow_stat, Keeps-allow_access, Keeps-allow_dup, Keeps-allow_pipe,
  Keeps-allow_chmod, Keeps-allow_chown, Keeps-allow_read, Keeps-allow_write, Keeps-allow_readdir,
  Keeps-allow_readlink, Keeps-allow_link, Keeps-allow_symlink, Keeps-allow_mkdir, Keeps-allow_utime,
  Keeps-allow_unlink, Keeps-allow_rename, Keeps-allow_safe_fcntl, Keeps-allow_tcgets,
)
