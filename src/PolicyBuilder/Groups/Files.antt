-- ===== src/PolicyBuilder/Groups/Files.antt =====
-- sandboxed_api/sandbox2/policybuilder.cc: the methods that allow groups of calls for reading and writing files.
-- A call that x86-64 does not have is left out, as the preprocessor leaves it out.
pub mod Sound
use googlectf2023_fastbox.Prelude.{ℕ, [], ◌∷◌, ◌++◌}
use googlectf2023_fastbox.Linux.Syscalls.{
  nr_access, nr_chmod, nr_chown, nr_creat, nr_dup, nr_dup2, nr_dup3, nr_faccessat, nr_faccessat2,
  nr_fchmod, nr_fchmodat, nr_fchown, nr_fchownat, nr_fcntl, nr_fstat, nr_fstatfs, nr_getdents,
  nr_getdents64, nr_ioctl, nr_lchown, nr_link, nr_linkat, nr_lstat, nr_mkdir, nr_mkdirat,
  nr_newfstatat, nr_open, nr_openat, nr_pipe, nr_pipe2, nr_pread64, nr_preadv, nr_pwrite64,
  nr_pwritev, nr_read, nr_readlink, nr_readlinkat, nr_readv, nr_rename, nr_renameat, nr_renameat2,
  nr_rmdir, nr_stat, nr_statfs, nr_symlink, nr_symlinkat, nr_unlink, nr_unlinkat, nr_utime,
  nr_utimensat, nr_utimes, nr_write, nr_writev,
}
use googlectf2023_fastbox.Linux.Constants.{
  f_dupfd, f_dupfd_cloexec, f_getfd, f_getfl, f_getlk, f_setfd, f_setfl, f_setlk, f_setlkw, tcgets,
}
use googlectf2023_fastbox.Bpf.{arg_32}
use googlectf2023_fastbox.PolicyBuilder.State.{Method, ◌▸◌}
use googlectf2023_fastbox.PolicyBuilder.Rules.{
  call, allow_if, allow_syscall, allow_syscalls, add_policy_on_syscall,
}

unfoldable pub allow_open : Method
allow_open =
    call (allow_syscall nr_creat) ▸ call (allow_syscall nr_open) ▸ call (allow_syscall nr_openat)

unfoldable pub allow_stat : Method
allow_stat =
    call (allow_syscall nr_fstat)
    ▸ call (allow_syscall nr_fstatfs)
    ▸ call (allow_syscall nr_lstat)
    ▸ call (allow_syscall nr_newfstatat)
    ▸ call (allow_syscall nr_stat)
    ▸ call (allow_syscall nr_statfs)

unfoldable pub allow_access : Method
allow_access =
    call (allow_syscall nr_access)
    ▸ call (allow_syscall nr_faccessat)
    ▸ call (allow_syscall nr_faccessat2)

unfoldable pub allow_dup : Method
allow_dup =
    call (allow_syscall nr_dup) ▸ call (allow_syscall nr_dup2) ▸ call (allow_syscall nr_dup3)

unfoldable pub allow_pipe : Method
allow_pipe = call (allow_syscall nr_pipe) ▸ call (allow_syscall nr_pipe2)

unfoldable pub allow_chmod : Method
allow_chmod =
    call (allow_syscall nr_chmod)
    ▸ call (allow_syscall nr_fchmod)
    ▸ call (allow_syscall nr_fchmodat)

unfoldable pub allow_chown : Method
allow_chown =
    call (allow_syscall nr_chown)
    ▸ call (allow_syscall nr_lchown)
    ▸ call (allow_syscall nr_fchown)
    ▸ call (allow_syscall nr_fchownat)

unfoldable pub allow_read : Method
allow_read = call (allow_syscalls (nr_read ∷ nr_readv ∷ nr_preadv ∷ nr_pread64 ∷ []))

unfoldable pub allow_write : Method
allow_write = call (allow_syscalls (nr_write ∷ nr_writev ∷ nr_pwritev ∷ nr_pwrite64 ∷ []))

unfoldable pub allow_readdir : Method
allow_readdir = call (allow_syscalls (nr_getdents ∷ nr_getdents64 ∷ []))

unfoldable pub allow_readlink : Method
allow_readlink = call (allow_syscalls (nr_readlink ∷ nr_readlinkat ∷ []))

unfoldable pub allow_link : Method
allow_link = call (allow_syscalls (nr_link ∷ nr_linkat ∷ []))

unfoldable pub allow_symlink : Method
allow_symlink = call (allow_syscalls (nr_symlink ∷ nr_symlinkat ∷ []))

unfoldable pub allow_mkdir : Method
allow_mkdir = call (allow_syscalls (nr_mkdir ∷ nr_mkdirat ∷ []))

unfoldable pub allow_utime : Method
allow_utime = call (allow_syscalls (nr_utime ∷ nr_utimes ∷ nr_utimensat ∷ []))

unfoldable pub allow_unlink : Method
allow_unlink = call (allow_syscalls (nr_rmdir ∷ nr_unlink ∷ nr_unlinkat ∷ []))

unfoldable pub allow_rename : Method
allow_rename = call (allow_syscalls (nr_rename ∷ nr_renameat ∷ nr_renameat2 ∷ []))

unfoldable pub allow_safe_fcntl : Method
allow_safe_fcntl = call (
    add_policy_on_syscall nr_fcntl (
      arg_32 1
      ∷ (allow_if f_getfd
          ++ allow_if f_setfd
          ++ allow_if f_getfl
          ++ allow_if f_setfl
          ++ allow_if f_getlk
          ++ allow_if f_setlk
          ++ allow_if f_setlkw
          ++ allow_if f_dupfd
          ++ allow_if f_dupfd_cloexec)))

unfoldable pub allow_tcgets : Method
allow_tcgets = call (add_policy_on_syscall nr_ioctl (arg_32 1 ∷ (allow_if tcgets)))
