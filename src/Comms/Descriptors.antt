-- ===== src/Comms/Descriptors.antt =====
-- sandboxed_api/sandbox2/comms.cc: `SendFD` and `RecvFD`, which pass a descriptor.
use googlectf2023_fastbox.Prelude.{
  ℕ, zero, suc, Bool, not, ◌&&◌, List, [], ◌∷◌, ◌++◌, Option, none, ◌==◌, length, if◌then◌else◌,
}
use googlectf2023_fastbox.Text.{Bytes}
use googlectf2023_fastbox.Comms.Kernel.{
  CallResult, done, failed, Cmsghdr, Msghdr, Kernel, is_fatal_error, epipe, Endpoint, Op, refuse,
  succeed,
}
use googlectf2023_fastbox.Comms.Connection.{terminate}
use googlectf2023_fastbox.Comms.Transfer.{fail, in_world}
use googlectf2023_fastbox.Comms.Tlv.{tag_fd, le_bytes, from_le}

-- SOL_SOCKET, SCM_RIGHTS and CMSG_LEN(sizeof(int)) of the x86-64 headers
abbrev pub sol_socket : ℕ
sol_socket = 1

abbrev pub scm_rights : ℕ
scm_rights = 1

abbrev pub cmsg_len_int : ℕ
cmsg_len_int = 20

-- sizeof(InternalTLV)
abbrev pub internal_tlv_size : ℕ
internal_tlv_size = 8

-- The tag, the first field of an InternalTLV.
abbrev pub tlv_tag : Bytes → ℕ
tlv_tag (a ∷ b ∷ c ∷ d ∷ rest) = from_le (a ∷ b ∷ c ∷ d ∷ [])
tlv_tag bytes = 0

-- How the loop over the control messages ends. `out_of_fuel` is no value of the code.
pub data Scan : Type 0 where
  found : ℕ → Scan
  missing : Scan
  out_of_fuel : Scan

abbrev pub is_rights : Cmsghdr → Bool
is_rights c = (c.cmsg_level == sol_socket) && (c.cmsg_type == scm_rights)

abbrev pub has_one_fd : Cmsghdr → Bool
has_one_fd c = c.cmsg_len == cmsg_len_int

-- The loop of `RecvFD`. The `continue` goes back to the test without a step to the next message.
unfoldable pub scan : ℕ → List Cmsghdr → Scan
scan fuel [] = missing
scan zero (c ∷ cs) = out_of_fuel
scan (suc fuel) (c ∷ cs) =
    let next = scan fuel cs in
    let again = scan fuel (c ∷ cs) in
    if is_rights c then if not (has_one_fd c) then again else found c.fds else next

-- The message of SendFD.
abbrev pub fd_message : ℕ → Msghdr
fd_message fd = record {
  iov = le_bytes 4 tag_fd ++ le_bytes 4 0;
  control =
      (record {
        cmsg_len = cmsg_len_int;
        cmsg_level = sol_socket;
        cmsg_type = scm_rights;
        fds = fd;
      })
      ∷ [];
}

module _ {W : Type 0} (k : Kernel W) where
  abbrev pub recv_fd_checks : ℕ → Msghdr → Endpoint W → Endpoint W × Scan
  recv_fd_checks fuel msg p =
      if not (length msg.iov == internal_tlv_size)
      then (p, missing)
      else if not (tlv_tag msg.iov == tag_fd)
      then (p, missing)
      else (p, scan fuel msg.control)

  abbrev pub recv_fd_received : ℕ → Endpoint W → W × CallResult Msghdr → Endpoint W × Scan
  recv_fd_received fuel p (w, failed errno) =
      ((if is_fatal_error errno then terminate k (in_world p w) else in_world p w), missing)
  recv_fd_received fuel p (w, done msg) =
      if length msg.iov == 0
      then (terminate k (in_world p w), missing)
      else recv_fd_checks fuel msg (in_world p w)

  -- RecvFD: a descriptor, or `missing` where it returns false.
  unfoldable pub recv_fd : ℕ → Endpoint W → Endpoint W × Scan
  unfolding scan
  recv_fd fuel p = recv_fd_received fuel p (k.recvmsg p.world p.comms.connection_fd)

  abbrev pub send_fd_sent : Endpoint W → W × CallResult ℕ → Endpoint W × Option (Unit {0})
  send_fd_sent p (w, failed errno) =
      if errno == epipe
      then (terminate k (in_world p w), none)
      else fail k (is_fatal_error errno) (in_world p w)
  send_fd_sent p (w, done len) =
      (if not (len == internal_tlv_size) then refuse else succeed tt) (in_world p w)

  -- SendFD
  unfoldable pub send_fd : ℕ → Op W (Unit {0})
  send_fd fd p = send_fd_sent p (k.sendmsg p.world p.comms.connection_fd (fd_message fd))
