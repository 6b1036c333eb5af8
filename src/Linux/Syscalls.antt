-- ===== src/Linux/Syscalls.antt =====
-- The system call numbers of x86-64 Linux (asm/unistd_64.h), as in the table of
-- sandboxed_api/sandbox2/syscall_defs.cc.
use googlectf2023_fastbox.Prelude.{ℕ}

abbrev pub nr_read : ℕ
nr_read = 0

abbrev pub nr_write : ℕ
nr_write = 1

abbrev pub nr_open : ℕ
nr_open = 2

abbrev pub nr_close : ℕ
nr_close = 3

abbrev pub nr_stat : ℕ
nr_stat = 4

abbrev pub nr_fstat : ℕ
nr_fstat = 5

abbrev pub nr_lstat : ℕ
nr_lstat = 6

abbrev pub nr_poll : ℕ
nr_poll = 7

abbrev pub nr_lseek : ℕ
nr_lseek = 8

abbrev pub nr_mmap : ℕ
nr_mmap = 9

abbrev pub nr_mprotect : ℕ
nr_mprotect = 10

abbrev pub nr_munmap : ℕ
nr_munmap = 11

abbrev pub nr_brk : ℕ
nr_brk = 12

abbrev pub nr_rt_sigaction : ℕ
nr_rt_sigaction = 13

abbrev pub nr_rt_sigprocmask : ℕ
nr_rt_sigprocmask = 14

abbrev pub nr_rt_sigreturn : ℕ
nr_rt_sigreturn = 15

abbrev pub nr_ioctl : ℕ
nr_ioctl = 16

abbrev pub nr_pread64 : ℕ
nr_pread64 = 17

abbrev pub nr_pwrite64 : ℕ
nr_pwrite64 = 18

abbrev pub nr_readv : ℕ
nr_readv = 19

abbrev pub nr_writev : ℕ
nr_writev = 20

abbrev pub nr_access : ℕ
nr_access = 21

abbrev pub nr_pipe : ℕ
nr_pipe = 22

abbrev pub nr_select : ℕ
nr_select = 23

abbrev pub nr_mremap : ℕ
nr_mremap = 25

abbrev pub nr_mincore : ℕ
nr_mincore = 27

abbrev pub nr_madvise : ℕ
nr_madvise = 28

abbrev pub nr_dup : ℕ
nr_dup = 32

abbrev pub nr_dup2 : ℕ
nr_dup2 = 33

abbrev pub nr_nanosleep : ℕ
nr_nanosleep = 35

abbrev pub nr_alarm : ℕ
nr_alarm = 37

abbrev pub nr_setitimer : ℕ
nr_setitimer = 38

abbrev pub nr_getpid : ℕ
nr_getpid = 39

abbrev pub nr_socket : ℕ
nr_socket = 41

abbrev pub nr_connect : ℕ
nr_connect = 42

abbrev pub nr_recvmsg : ℕ
nr_recvmsg = 47

abbrev pub nr_getsockopt : ℕ
nr_getsockopt = 55

abbrev pub nr_clone : ℕ
nr_clone = 56

abbrev pub nr_fork : ℕ
nr_fork = 57

abbrev pub nr_vfork : ℕ
nr_vfork = 58

abbrev pub nr_exit : ℕ
nr_exit = 60

abbrev pub nr_wait4 : ℕ
nr_wait4 = 61

abbrev pub nr_kill : ℕ
nr_kill = 62

abbrev pub nr_uname : ℕ
nr_uname = 63

abbrev pub nr_fcntl : ℕ
nr_fcntl = 72

abbrev pub nr_getdents : ℕ
nr_getdents = 78

abbrev pub nr_rename : ℕ
nr_rename = 82

abbrev pub nr_mkdir : ℕ
nr_mkdir = 83

abbrev pub nr_rmdir : ℕ
nr_rmdir = 84

abbrev pub nr_creat : ℕ
nr_creat = 85

abbrev pub nr_link : ℕ
nr_link = 86

abbrev pub nr_unlink : ℕ
nr_unlink = 87

abbrev pub nr_symlink : ℕ
nr_symlink = 88

abbrev pub nr_readlink : ℕ
nr_readlink = 89

abbrev pub nr_chmod : ℕ
nr_chmod = 90

abbrev pub nr_fchmod : ℕ
nr_fchmod = 91

abbrev pub nr_chown : ℕ
nr_chown = 92

abbrev pub nr_fchown : ℕ
nr_fchown = 93

abbrev pub nr_lchown : ℕ
nr_lchown = 94

abbrev pub nr_gettimeofday : ℕ
nr_gettimeofday = 96

abbrev pub nr_getrlimit : ℕ
nr_getrlimit = 97

abbrev pub nr_ptrace : ℕ
nr_ptrace = 101

abbrev pub nr_getuid : ℕ
nr_getuid = 102

abbrev pub nr_getgid : ℕ
nr_getgid = 104

abbrev pub nr_geteuid : ℕ
nr_geteuid = 107

abbrev pub nr_getegid : ℕ
nr_getegid = 108

abbrev pub nr_getppid : ℕ
nr_getppid = 110

abbrev pub nr_getpgrp : ℕ
nr_getpgrp = 111

abbrev pub nr_getgroups : ℕ
nr_getgroups = 115

abbrev pub nr_getresuid : ℕ
nr_getresuid = 118

abbrev pub nr_getresgid : ℕ
nr_getresgid = 120

abbrev pub nr_getpgid : ℕ
nr_getpgid = 121

abbrev pub nr_sigaltstack : ℕ
nr_sigaltstack = 131

abbrev pub nr_utime : ℕ
nr_utime = 132

abbrev pub nr_statfs : ℕ
nr_statfs = 137

abbrev pub nr_fstatfs : ℕ
nr_fstatfs = 138

abbrev pub nr_prctl : ℕ
nr_prctl = 157

abbrev pub nr_arch_prctl : ℕ
nr_arch_prctl = 158

abbrev pub nr_setrlimit : ℕ
nr_setrlimit = 160

abbrev pub nr_gettid : ℕ
nr_gettid = 186

abbrev pub nr_time : ℕ
nr_time = 201

abbrev pub nr_futex : ℕ
nr_futex = 202

abbrev pub nr_sched_setaffinity : ℕ
nr_sched_setaffinity = 203

abbrev pub nr_sched_getaffinity : ℕ
nr_sched_getaffinity = 204

abbrev pub nr_epoll_create : ℕ
nr_epoll_create = 213

abbrev pub nr_getdents64 : ℕ
nr_getdents64 = 217

abbrev pub nr_set_tid_address : ℕ
nr_set_tid_address = 218

abbrev pub nr_clock_gettime : ℕ
nr_clock_gettime = 228

abbrev pub nr_clock_nanosleep : ℕ
nr_clock_nanosleep = 230

abbrev pub nr_exit_group : ℕ
nr_exit_group = 231

abbrev pub nr_epoll_wait : ℕ
nr_epoll_wait = 232

abbrev pub nr_epoll_ctl : ℕ
nr_epoll_ctl = 233

abbrev pub nr_utimes : ℕ
nr_utimes = 235

abbrev pub nr_inotify_init : ℕ
nr_inotify_init = 253

abbrev pub nr_openat : ℕ
nr_openat = 257

abbrev pub nr_mkdirat : ℕ
nr_mkdirat = 258

abbrev pub nr_fchownat : ℕ
nr_fchownat = 260

abbrev pub nr_newfstatat : ℕ
nr_newfstatat = 262

abbrev pub nr_unlinkat : ℕ
nr_unlinkat = 263

abbrev pub nr_renameat : ℕ
nr_renameat = 264

abbrev pub nr_linkat : ℕ
nr_linkat = 265

abbrev pub nr_symlinkat : ℕ
nr_symlinkat = 266

abbrev pub nr_readlinkat : ℕ
nr_readlinkat = 267

abbrev pub nr_fchmodat : ℕ
nr_fchmodat = 268

abbrev pub nr_faccessat : ℕ
nr_faccessat = 269

abbrev pub nr_pselect6 : ℕ
nr_pselect6 = 270

abbrev pub nr_ppoll : ℕ
nr_ppoll = 271

abbrev pub nr_set_robust_list : ℕ
nr_set_robust_list = 273

abbrev pub nr_utimensat : ℕ
nr_utimensat = 280

abbrev pub nr_epoll_pwait : ℕ
nr_epoll_pwait = 281

abbrev pub nr_eventfd : ℕ
nr_eventfd = 284

abbrev pub nr_eventfd2 : ℕ
nr_eventfd2 = 290

abbrev pub nr_epoll_create1 : ℕ
nr_epoll_create1 = 291

abbrev pub nr_dup3 : ℕ
nr_dup3 = 292

abbrev pub nr_pipe2 : ℕ
nr_pipe2 = 293

abbrev pub nr_inotify_init1 : ℕ
nr_inotify_init1 = 294

abbrev pub nr_preadv : ℕ
nr_preadv = 295

abbrev pub nr_pwritev : ℕ
nr_pwritev = 296

abbrev pub nr_prlimit64 : ℕ
nr_prlimit64 = 302

abbrev pub nr_getcpu : ℕ
nr_getcpu = 309

abbrev pub nr_renameat2 : ℕ
nr_renameat2 = 316

abbrev pub nr_seccomp : ℕ
nr_seccomp = 317

abbrev pub nr_getrandom : ℕ
nr_getrandom = 318

abbrev pub nr_bpf : ℕ
nr_bpf = 321

abbrev pub nr_execveat : ℕ
nr_execveat = 322

abbrev pub nr_membarrier : ℕ
nr_membarrier = 324

abbrev pub nr_rseq : ℕ
nr_rseq = 334

abbrev pub nr_faccessat2 : ℕ
nr_faccessat2 = 439

abbrev pub nr_epoll_pwait2 : ℕ
nr_epoll_pwait2 = 441

abbrev pub nr_execve : ℕ
nr_execve = 59

abbrev pub nr_clone3 : ℕ
nr_clone3 = 435
