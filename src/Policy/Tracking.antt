-- ===== src/Policy/Tracking.antt =====
-- The filter of sandboxed_api/sandbox2/policy.cc where a flag permits all calls.
use googlectf2023_fastbox.Prelude.{
  ℕ, ◌+◌, ◌≡◌, refl, Bool, true, ◌||◌, List, some, arith, ◌==◌, if◌then◌else◌,
}
use googlectf2023_fastbox.Linux.Constants.{audit_arch_x86_64, audit_arch_i386}
use googlectf2023_fastbox.Bpf.{SockFilter, ret_trace, arch_offset}
use googlectf2023_fastbox.Bpf.Exec.{Words, exec, effect, returned}
use googlectf2023_fastbox.Bpf.Machine.{Machine, run_exec}
use googlectf2023_fastbox.PolicyBuilder.Verify.{host_arch}
use googlectf2023_fastbox.PolicyBuilder.Build.{Policy}
use googlectf2023_fastbox.Policy.{Flags, cpu_unknown, cpu_x86, get_policy, get_tracking_policy}

-- The value by which the monitor learns the architecture of a call.
abbrev pub traced_arch_of : Words → ℕ
traced_arch_of d =
    if d arch_offset == audit_arch_x86_64
    then host_arch
    else if d arch_offset == audit_arch_i386
    then cpu_x86
    else cpu_unknown

tracking-exec :
    (d : Words) → exec d 0 0 get_tracking_policy ≡ returned (ret_trace + traced_arch_of d)
unfolding exec effect get_tracking_policy
tracking-exec d = ground arith

-- Where one of the two flags is set, the filter is made whatever the policy and the mode, and on every
-- machine each call is traced, with the value of its architecture.
pub get_policy-traced :
    (m : Machine) (flags : Flags) (user_notif : Bool) (p : Policy)
    → (flags.permit_all || flags.permit_all_and_log) ≡ true
    → (out : List SockFilter) × (get_policy flags user_notif p ≡ some out)
      × ((d : Words) → m.run d out 0 ≡ some (ret_trace + traced_arch_of d))
unfolding get_policy
get_policy-traced m flags user_notif p h =
    (get_tracking_policy, rw h refl, λ d. run_exec m d 0 0 get_tracking_policy _ (tracking-exec d))
