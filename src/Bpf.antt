-- ===== src/Bpf.antt =====
-- Classic BPF as the sandbox writes it: `struct sock_filter` and the macros of
-- sandboxed_api/sandbox2/util/bpf_helper.h, for a little-endian 64-bit build.
-- Opcodes, offsets and verdicts are the constants of linux/filter.h and linux/seccomp.h.
pub mod Exec
pub mod Machine
pub mod Labels
pub mod Verdict
use googlectf2023_fastbox.Prelude.{ℕ, ◌+◌, ◌*◌, ◌%◌, List, [], ◌∷◌}

-- linux/filter.h: `code` has 16 bits, `jt` and `jf` 8, `k` 32.
pub record SockFilter : Type 0 where
  pub code : ℕ
  pub jt : ℕ
  pub jf : ℕ
  pub k : ℕ

-- BPF_LD + BPF_W + BPF_ABS
abbrev pub ld_w_abs : ℕ
ld_w_abs = 0x20

-- BPF_JMP + BPF_JA, and BPF_JMP + BPF_JEQ + BPF_K and its like
abbrev pub jmp_ja : ℕ
jmp_ja = 0x05

abbrev pub jmp_jeq : ℕ
jmp_jeq = 0x15

abbrev pub jmp_jgt : ℕ
jmp_jgt = 0x25

abbrev pub jmp_jge : ℕ
jmp_jge = 0x35

abbrev pub jmp_jset : ℕ
jmp_jset = 0x45

-- BPF_ALU + BPF_AND + BPF_K
abbrev pub alu_and : ℕ
alu_and = 0x54

-- BPF_RET + BPF_K
abbrev pub ret_k : ℕ
ret_k = 0x06

-- BPF_STMT and BPF_JUMP
abbrev pub bpf_stmt : ℕ → ℕ → SockFilter
bpf_stmt code k = record { code = code; jt = 0; jf = 0; k = k }

abbrev pub bpf_jump : ℕ → ℕ → ℕ → ℕ → SockFilter
bpf_jump code k jt jf = record { code = code; jt = jt; jf = jf; k = k }

-- Verdicts. SECCOMP_RET_KILL is 0.
abbrev pub ret_kill : ℕ
ret_kill = 0

abbrev pub ret_trap : ℕ
ret_trap = 0x0003_0000

abbrev pub ret_errno : ℕ
ret_errno = 0x0005_0000

abbrev pub ret_user_notif : ℕ
ret_user_notif = 0x7fc0_0000

abbrev pub ret_trace : ℕ
ret_trace = 0x7ff0_0000

abbrev pub ret_allow : ℕ
ret_allow = 0x7fff_0000

-- `val & SECCOMP_RET_DATA`
abbrev pub ret_data : ℕ → ℕ
ret_data val = val % 0x1_0000

-- The low bits of the verdicts are zero, so the macros' `|` is a sum.
abbrev pub deny : SockFilter
deny = bpf_stmt ret_k ret_kill

abbrev pub kill : SockFilter
kill = bpf_stmt ret_k ret_kill

abbrev pub trap : ℕ → SockFilter
trap val = bpf_stmt ret_k (ret_trap + ret_data val)

abbrev pub errno : ℕ → SockFilter
errno val = bpf_stmt ret_k (ret_errno + ret_data val)

abbrev pub trace : ℕ → SockFilter
trace val = bpf_stmt ret_k (ret_trace + ret_data val)

abbrev pub allow : SockFilter
allow = bpf_stmt ret_k ret_allow

-- Offsets into `struct seccomp_data`: `nr`, `arch`, and the low word of `args[idx]`.
abbrev pub nr_offset : ℕ
nr_offset = 0

abbrev pub arch_offset : ℕ
arch_offset = 4

abbrev pub lo_arg : ℕ → ℕ
lo_arg idx = 16 + 8 * idx

abbrev pub load_syscall_nr : SockFilter
load_syscall_nr = bpf_stmt ld_w_abs nr_offset

abbrev pub load_arch : SockFilter
load_arch = bpf_stmt ld_w_abs arch_offset

abbrev pub arg_32 : ℕ → SockFilter
arg_32 idx = bpf_stmt ld_w_abs (lo_arg idx)

-- SYSCALL(nr, jt)
abbrev pub syscall : ℕ → SockFilter → List SockFilter
syscall nr jt = bpf_jump jmp_jeq nr 0 1 ∷ jt ∷ []
