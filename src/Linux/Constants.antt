-- ===== src/Linux/Constants.antt =====
-- The constants of the x86-64 Linux headers that the policies use.
use googlectf2023_fastbox.Prelude.{ℕ}

abbrev pub futex_wait : ℕ
futex_wait = 0

abbrev pub futex_wake : ℕ
futex_wake = 1

abbrev pub futex_wait_bitset : ℕ
futex_wait_bitset = 9

abbrev pub futex_cmd_mask : ℕ
futex_cmd_mask = 0xffff_fe7f

abbrev pub prot_none : ℕ
prot_none = 0

abbrev pub prot_read : ℕ
prot_read = 1

abbrev pub prot_write : ℕ
prot_write = 2

abbrev pub prot_exec : ℕ
prot_exec = 4

abbrev pub map_file : ℕ
map_file = 0

abbrev pub map_private : ℕ
map_private = 2

abbrev pub map_fixed : ℕ
map_fixed = 0x10

abbrev pub map_anonymous : ℕ
map_anonymous = 0x20

abbrev pub map_denywrite : ℕ
map_denywrite = 0x800

abbrev pub map_noreserve : ℕ
map_noreserve = 0x4000

abbrev pub mremap_maymove : ℕ
mremap_maymove = 1

abbrev pub madv_dontneed : ℕ
madv_dontneed = 4

abbrev pub madv_remove : ℕ
madv_remove = 9

abbrev pub madv_hugepage : ℕ
madv_hugepage = 14

abbrev pub madv_nohugepage : ℕ
madv_nohugepage = 15

abbrev pub madv_dontdump : ℕ
madv_dontdump = 16

abbrev pub f_dupfd : ℕ
f_dupfd = 0

abbrev pub f_getfd : ℕ
f_getfd = 1

abbrev pub f_setfd : ℕ
f_setfd = 2

abbrev pub f_getfl : ℕ
f_getfl = 3

abbrev pub f_setfl : ℕ
f_setfl = 4

abbrev pub f_getlk : ℕ
f_getlk = 5

abbrev pub f_setlk : ℕ
f_setlk = 6

abbrev pub f_setlkw : ℕ
f_setlkw = 7

abbrev pub f_dupfd_cloexec : ℕ
f_dupfd_cloexec = 1030

abbrev pub tcgets : ℕ
tcgets = 0x5401

abbrev pub sig_block : ℕ
sig_block = 0

abbrev pub sig_unblock : ℕ
sig_unblock = 1

abbrev pub sig_setmask : ℕ
sig_setmask = 2

abbrev pub grnd_nonblock : ℕ
grnd_nonblock = 1

abbrev pub sigabrt : ℕ
sigabrt = 6

abbrev pub sigsys : ℕ
sigsys = 31

abbrev pub sigrtmin : ℕ
sigrtmin = 32

abbrev pub pr_set_name : ℕ
pr_set_name = 15

abbrev pub arch_set_fs : ℕ
arch_set_fs = 0x1002

abbrev pub eperm : ℕ
eperm = 1

abbrev pub enoent : ℕ
enoent = 2

abbrev pub af_inet : ℕ
af_inet = 2

abbrev pub af_inet6 : ℕ
af_inet6 = 10

abbrev pub sol_socket : ℕ
sol_socket = 1

abbrev pub so_type : ℕ
so_type = 3

abbrev pub at_empty_path : ℕ
at_empty_path = 0x1000

abbrev pub clone_untraced : ℕ
clone_untraced = 0x80_0000

abbrev pub seccomp_filter_flag_new_listener : ℕ
seccomp_filter_flag_new_listener = 8

abbrev pub audit_arch_x86_64 : ℕ
audit_arch_x86_64 = 0xc000_003e

abbrev pub audit_arch_i386 : ℕ
audit_arch_i386 = 0x4000_0003
