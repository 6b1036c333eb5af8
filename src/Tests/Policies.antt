-- ===== src/Tests/Policies.antt =====
-- A policy of the sandbox at work: reading is allowed, ptrace is answered with EPERM.
use googlectf2023_fastbox.Prelude.{
  ℕ, ◌+◌, ◌≡◌, ◌≢◌, refl, true, false, List, [], ◌∷◌, ◌++◌, none, some, if◌then◌else◌, ◌==◌,
}
use googlectf2023_fastbox.Status.{invalid_argument, value, status}
use googlectf2023_fastbox.Linux.Syscalls.{nr_read, nr_readv, nr_preadv, nr_pread64, nr_ptrace}
use googlectf2023_fastbox.Linux.Constants.{audit_arch_x86_64, eperm}
use googlectf2023_fastbox.Bpf.{
  ret_trace, SockFilter, syscall, allow, errno, ret_allow, load_syscall_nr, kill,
}
use googlectf2023_fastbox.Bpf.Exec.{Words}
use googlectf2023_fastbox.PolicyBuilder.State.{PolicyBuilder, new_builder}
use googlectf2023_fastbox.PolicyBuilder.Rules.{
  allow_syscall, allow_syscalls, block_syscall_with_errno, block_syscalls_with_errno,
}
use googlectf2023_fastbox.PolicyBuilder.Rules.Sound.{IsSound}
use googlectf2023_fastbox.PolicyBuilder.Groups.Files.{allow_read}
use googlectf2023_fastbox.PolicyBuilder.Build.{MovedFrom, built_policy, left_behind, try_build}
use googlectf2023_fastbox.PolicyBuilder.Build.Once.{try_build-once}
use googlectf2023_fastbox.PolicyBuilder.Calls.{
  Host, Call, allow_group, allow_read as allow_reads, block_syscalls_with_errno as blocks, apply,
  apply_all,
}
use googlectf2023_fastbox.PolicyBuilder.Calls.Sound.{apply_all-IsSound}
use googlectf2023_fastbox.Bpf.Labels.{
  assemble, seccomp_bpf_label, bpf_resolve_jumps, resolve, resolve_one, resolve_jump, place_label,
}
use googlectf2023_fastbox.Policy.Default.Code.{start_code, dangerous_code}
use googlectf2023_fastbox.Policy.{Flags, get_policy, get_default_policy}
use googlectf2023_fastbox.Policy.Final.{final_verdict, get_policy-verdict}
use googlectf2023_fastbox.Policy.Safety.{
  ptrace, layered_verdict, get_policy-IsForbidden, get_policy-layered, built_policy-IsFragment,
}
use googlectf2023_fastbox.Policy.Tracking.{traced_arch_of, get_policy-traced}
use googlectf2023_fastbox.Tests.Interpreter.{interpreter}

-- A host with no files and no addresses.
abbrev pub host : Host
host = record {
  files = record { stat = λ path. none; is_on_read_only_dev = λ path. false };
  net = record {
    inet_pton4 = λ s. status invalid_argument;
    inet_pton6 = λ s. status invalid_argument;
    simple_atoi = λ s. none;
  };
  build = record { any = false; asan = false };
}

abbrev pub emptied : MovedFrom
emptied = record { mounts = λ m. m; user_policy = λ p. []; allowed_hosts = λ h. h }

abbrev no_flags : Flags
no_flags = record { permit_all = false; permit_all_and_log = false }

abbrev calls : List Call
calls = allow_group allow_reads ∷ blocks (nr_ptrace ∷ []) eperm ∷ []

-- The builder after the calls.
abbrev called : PolicyBuilder
called = record new_builder {
  handled_syscalls = nr_read ∷ nr_readv ∷ nr_preadv ∷ nr_pread64 ∷ nr_ptrace ∷ [];
  user_policy =
      syscall nr_read allow
      ++ syscall nr_readv allow
      ++ syscall nr_preadv allow
      ++ syscall nr_pread64 allow
      ++ syscall nr_ptrace (errno eperm);
  user_policy_handles_ptrace = true;
}

called_is : apply_all host calls new_builder ≡ some called
unfolding apply_all apply allow_read allow_syscalls allow_syscall block_syscalls_with_errno
    block_syscall_with_errno
called_is = refl

built_is : try_build emptied called ≡ (value (built_policy called), left_behind emptied called)
unfolding try_build
built_is = refl

-- A call of ptrace by a 64-bit program.
abbrev ptrace_words : Words
ptrace_words offset =
    if offset == 0 then nr_ptrace else if offset == 4 then audit_arch_x86_64 else 0

layered_example :
    (out : List SockFilter) × (get_policy no_flags false (built_policy called) ≡ some out)
    × ((d : Words) → interpreter.run d out 0 ≡ some (layered_verdict false called d))
layered_example =
    get_policy-layered host calls emptied interpreter no_flags false (tt, (tt, tt)) called_is
      built_is refl refl

apply_all-IsSound_example : IsSound called
apply_all-IsSound_example = apply_all-IsSound host calls (tt, (tt, tt)) called_is

get_policy-verdict_example :
    (out : List SockFilter) × (get_policy no_flags true (built_policy called) ≡ some out)
    × ((d : Words) → interpreter.run d out 0 ≡ some (final_verdict true (built_policy called) d))
get_policy-verdict_example =
    get_policy-verdict interpreter no_flags true (built_policy called) refl refl
      (built_policy-IsFragment called (apply_all-IsSound host calls (tt, (tt, tt)) called_is))

abbrev installed : List SockFilter
installed =
    (start_code false ++ dangerous_code true false)
    ++ (load_syscall_nr ∷ [])
    ++ (called.user_policy ++ [])
    ++ (kill ∷ [])

installed_is : get_policy no_flags false (built_policy called) ≡ some installed
unfolding get_policy get_default_policy assemble seccomp_bpf_label bpf_resolve_jumps resolve
    resolve_one resolve_jump place_label
installed_is = refl

get_policy-IsForbidden_example :
    (v : ℕ) × (interpreter.run ptrace_words installed 0 ≡ some v) × (v ≢ ret_allow)
get_policy-IsForbidden_example =
    get_policy-IsForbidden host calls emptied interpreter no_flags false (tt, (tt, tt)) called_is
      built_is refl refl installed_is ptrace_words (ptrace refl)

try_build-once_example :
    try_build emptied (left_behind emptied called)
    ≢ (value (built_policy called), left_behind emptied called)
try_build-once_example = try_build-once emptied called built_is

get_policy-traced_example :
    (out : List SockFilter) × (get_policy
        (record { permit_all = true; permit_all_and_log = false })
        true
        (built_policy called)
      ≡ some out)
    × ((d : Words) → interpreter.run d out 0 ≡ some (ret_trace + traced_arch_of d))
get_policy-traced_example =
    get_policy-traced interpreter (record { permit_all = true; permit_all_and_log = false }) true
      (built_policy called) refl
