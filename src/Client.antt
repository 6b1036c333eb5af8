-- ===== src/Client.antt =====
-- sandboxed_api/sandbox2/policy.cc and client.cc: how the sandboxee gets the filter of its policy
-- and makes the kernel's program of it.
pub mod Installed
use googlectf2023_fastbox.Prelude.{
  ℕ, zero, suc, ◌-◌, ◌*◌, ◌/◌, ◌%◌, ◌^◌, Bool, true, false, List, [], ◌∷◌, ◌++◌, Option, none, some,
  ltb, length, if◌then◌else◌,
}
use googlectf2023_fastbox.Text.{Bytes}
use googlectf2023_fastbox.Bpf.{SockFilter}
use googlectf2023_fastbox.Comms.Kernel.{Kernel, Op, ◌>>=◌, succeed, refuse}
use googlectf2023_fastbox.Comms.Tlv.{le_bytes, from_le}
use googlectf2023_fastbox.Comms.Messages.{send_bytes, recv_bytes}
use googlectf2023_fastbox.Policy.{Flags, get_policy}
use googlectf2023_fastbox.PolicyBuilder.Build.{Policy}

-- sizeof(sock_filter)
abbrev pub sock_filter_size : ℕ
sock_filter_size = 8

-- A sock_filter in memory.
abbrev pub filter_bytes : SockFilter → Bytes
filter_bytes f = le_bytes 2 f.code ++ (le_bytes 1 f.jt ++ (le_bytes 1 f.jf ++ le_bytes 4 f.k))

-- The array of a vector of them, read as bytes.
unfoldable pub policy_bytes : List SockFilter → Bytes
policy_bytes [] = []
policy_bytes (f ∷ fs) = filter_bytes f ++ policy_bytes fs

-- An array of bytes, read as a number of them.
unfoldable pub read_filters : ℕ → Bytes → List SockFilter
read_filters (suc n) (c0 ∷ c1 ∷ jt ∷ jf ∷ k0 ∷ k1 ∷ k2 ∷ k3 ∷ rest) =
    record {
      code = from_le (c0 ∷ c1 ∷ []);
      jt = from_le (jt ∷ []);
      jf = from_le (jf ∷ []);
      k = from_le (k0 ∷ k1 ∷ k2 ∷ k3 ∷ []);
    }
    ∷ read_filters n rest
read_filters n bytes = []

-- struct sock_fprog, with the filters that its pointer leads to
pub record SockFprog : Type 0 where
  pub len : ℕ
  pub filter : List SockFilter

-- ApplyPolicyAndBecomeTracee: the program that it makes; `none` is where the check ends the
-- process.
unfoldable pub sock_fprog : Bytes → Option SockFprog
sock_fprog policy =
    let n = length policy / sock_filter_size in
    if ltb (2 ^ 16 - 1) n
    then none
    else some (record { len = n % 2 ^ 16; filter = read_filters (n % 2 ^ 16) policy })

module _ {W : Type 0} (k : Kernel W) where
  abbrev sent_policy : Option (List SockFilter) → Op W (Unit {0})
  sent_policy none = refuse
  sent_policy (some policy) = send_bytes k (policy_bytes policy)

  -- Policy::SendPolicy; it returns false too where making the policy ends the process.
  unfoldable pub send_policy : Flags → Bool → Policy → Op W (Unit {0})
  send_policy flags user_notif p = sent_policy (get_policy flags user_notif p)

  -- ReceivePolicy: what becomes `policy_`; `none` is where the check ends the process.
  unfoldable pub receive_policy : Op W Bytes
  receive_policy = recv_bytes k
