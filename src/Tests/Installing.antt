-- ===== src/Tests/Installing.antt =====
-- The filter of a policy on its way to a sandboxee, by sandboxed_api/sandbox2/policy.cc and
-- client.cc.
use googlectf2023_fastbox.Prelude.{ℕ, ◌^◌, ◌<◌, ◌≡◌, refl, true, false, some, length, arith}
use googlectf2023_fastbox.PolicyBuilder.State.{new_builder}
use googlectf2023_fastbox.PolicyBuilder.Build.{built_policy}
use googlectf2023_fastbox.Policy.{Flags, get_policy, get_tracking_policy}
use googlectf2023_fastbox.Comms.RoundTrip.{Arrives}
use googlectf2023_fastbox.Client.{policy_bytes, sock_fprog, send_policy, receive_policy}
use googlectf2023_fastbox.Client.Installed.{FitsFields, AllFit, send_policy-installed}
use googlectf2023_fastbox.Tests.Sockets.{
  socket, contents, socket-Writes, socket-Reads, monitor, sandboxee,
}

abbrev flags : Flags
flags = record { permit_all = true; permit_all_and_log = false }

fits :
    (c t f k : ℕ)
    → c < 2 ^ 16
    → t < 2 ^ 8
    → f < 2 ^ 8
    → k < 2 ^ 32
    → FitsFields (record { code = c; jt = t; jf = f; k = k })
fits c t f k hc ht hf hk = record { code_16 = hc; jt_8 = ht; jf_8 = hf; k_32 = hk }

tracking_fits : AllFit get_tracking_policy
unfolding get_tracking_policy
tracking_fits = (
  fits _ _ _ _ (omega arith) (omega arith) (omega arith) (omega arith),
  (
    fits _ _ _ _ (omega arith) (omega arith) (omega arith) (omega arith),
    (
      fits _ _ _ _ (omega arith) (omega arith) (omega arith) (omega arith),
      (
        fits _ _ _ _ (omega arith) (omega arith) (omega arith) (omega arith),
        (
          fits _ _ _ _ (omega arith) (omega arith) (omega arith) (omega arith),
          (fits _ _ _ _ (omega arith) (omega arith) (omega arith) (omega arith), tt),
        ),
      ),
    ),
  ),
)

send_policy-installed_example :
    Arrives socket contents monitor sandboxee
      (send_policy socket flags true (built_policy new_builder))
      (receive_policy socket)
      (policy_bytes get_tracking_policy)
    × (sock_fprog (policy_bytes get_tracking_policy)
        ≡ some (record { len = length get_tracking_policy; filter = get_tracking_policy }))
unfolding get_policy
send_policy-installed_example =
    send_policy-installed socket contents monitor sandboxee (socket-Writes (some 3))
      (socket-Reads (some 4)) refl flags true (built_policy new_builder) get_tracking_policy refl
      tracking_fits (omega arith)
