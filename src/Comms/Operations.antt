-- ===== src/Comms/Operations.antt =====
-- sandboxed_api/sandbox2/comms.cc: the effect of each member function on the state of the channel.
use googlectf2023_fastbox.Prelude.{
  ℕ, refl, inl, inr, Bool, true, false, not, [], Option, none, some, length, ltb, ◌==◌,
  if◌then◌else◌,
}
use googlectf2023_fastbox.Text.{Bytes}
use googlectf2023_fastbox.Comms.Kernel.{
  CallResult, done, failed, Kernel, Msghdr, Comms, is_fatal_error, epipe, Endpoint, succeed, refuse,
}
use googlectf2023_fastbox.Comms.Connection.{is_connected, terminate}
use googlectf2023_fastbox.Comms.Transfer.{in_world, send, recv}
use googlectf2023_fastbox.Comms.Tlv.{
  le_bytes, from_le, send_tlv, recv_tl, recv_tlv, recv_tlv_into, recv_int, send_value, send_lv,
  send_parts, checked_tl, recv_length, recv_value, recv_generic, recv_value_into, recv_into,
  checked_int, tag_fd, tag_proto2,
}
use googlectf2023_fastbox.Comms.Messages.{
  parsed, serialized, proto_received, send_proto_buf, recv_proto_buf,
}
use googlectf2023_fastbox.Comms.Descriptors.{
  Scan, scan, tlv_tag, internal_tlv_size, missing, recv_fd_checks, recv_fd_received, send_fd_sent,
  recv_fd, send_fd, fd_message,
}
use googlectf2023_fastbox.Comms.Effects.{
  Stays, Stays-trans, Ok, unchanged-Ok, terminate-closed, write_failed-Ok, and_then-Ok, if-Ok,
  send-Ok, recv-Ok,
}

module _ {W : Type 0} (k : Kernel W) where
  send_value-Ok : (value : Bytes) (p : Endpoint W) → Ok k p.comms (send_value k value p)
  send_value-Ok value p =
      if-Ok k _ (send k value) (succeed tt) p (send-Ok k value p) (unchanged-Ok k refl)

  send_lv-Ok : (value : Bytes) (p : Endpoint W) → Ok k p.comms (send_lv k value p)
  send_lv-Ok value p =
      and_then-Ok k p (λ _. send_value k value) (send k (le_bytes 8 (length value)) p)
        (send-Ok k _ p) (λ _ p'. send_value-Ok value p')

  send_parts-Ok :
      (tag : ℕ) (value : Bytes) (p : Endpoint W) → Ok k p.comms (send_parts k tag value p)
  send_parts-Ok tag value p =
      and_then-Ok k p (λ _. send_lv k value) (send k (le_bytes 4 tag) p) (send-Ok k _ p)
        (λ _ p'. send_lv-Ok value p')

  pub send_tlv-Ok :
      (tag : ℕ) (value : Bytes) (p : Endpoint W) → Ok k p.comms (send_tlv k tag value p)
  unfolding send_tlv
  send_tlv-Ok tag value p =
      if-Ok k _ refuse (send_parts k tag value) p (unchanged-Ok k refl) (send_parts-Ok tag value p)

  checked_tl-Ok : (tag len : ℕ) (p : Endpoint W) → Ok k p.comms (checked_tl k tag len p)
  checked_tl-Ok tag len p =
      if-Ok k _ refuse (succeed (tag, len)) p (unchanged-Ok k refl) (unchanged-Ok k refl)

  recv_tl-Ok : (p : Endpoint W) → Ok k p.comms (recv_tl k p)
  unfolding recv_tl
  recv_tl-Ok p = and_then-Ok k p (recv_length k) (recv k 4 p) (recv-Ok k 4 p) (λ tag p'.
      and_then-Ok k p' (λ len. checked_tl k (from_le tag) (from_le len)) (recv k 8 p')
        (recv-Ok k 8 p') (λ len p''. checked_tl-Ok (from_le tag) (from_le len) p''))

  recv_value-Ok : (len : ℕ) (p : Endpoint W) → Ok k p.comms (recv_value k len p)
  recv_value-Ok len p =
      if-Ok k (len == 0) (succeed []) (recv k len) p (unchanged-Ok k refl) (recv-Ok k len p)

  pub recv_tlv-Ok : (p : Endpoint W) → Ok k p.comms (recv_tlv k p)
  unfolding recv_tlv
  recv_tlv-Ok p = and_then-Ok k p (recv_generic k) (recv_tl k p) (recv_tl-Ok p) (λ tl p'.
      and_then-Ok k p' (λ v. succeed (tl.0, v)) (recv_value k tl.1 p') (recv_value-Ok tl.1 p')
        (λ v p''. unchanged-Ok k refl))

  recv_value_into-Ok : (size len : ℕ) (p : Endpoint W) → Ok k p.comms (recv_value_into k size len p)
  recv_value_into-Ok size len p =
      if-Ok k (len == 0) (succeed []) (if ltb size len then refuse else recv k len) p
        (unchanged-Ok k refl)
        (if-Ok k (ltb size len) refuse (recv k len) p (unchanged-Ok k refl) (recv-Ok k len p))

  recv_tlv_into-Ok : (size : ℕ) (p : Endpoint W) → Ok k p.comms (recv_tlv_into k size p)
  unfolding recv_tlv_into
  recv_tlv_into-Ok size p =
      and_then-Ok k p (recv_into k size) (recv_tl k p) (recv_tl-Ok p) (λ tl p'.
        and_then-Ok k p' (λ v. succeed (tl.0, tl.1, v)) (recv_value_into k size tl.1 p')
          (recv_value_into-Ok size tl.1 p') (λ v p''. unchanged-Ok k refl))

  checked_int-Ok :
      (len tag : ℕ) (m : ℕ × ℕ × Bytes) (p : Endpoint W) → Ok k p.comms (checked_int k len tag m p)
  checked_int-Ok len tag m p =
      if-Ok k (not (m.0 == tag)) refuse (if not (m.1 == len) then refuse else succeed (from_le m.2))
        p (unchanged-Ok k refl)
        (if-Ok k (not (m.1 == len)) refuse (succeed (from_le m.2)) p (unchanged-Ok k refl)
          (unchanged-Ok k refl))

  pub recv_int-Ok : (len tag : ℕ) (p : Endpoint W) → Ok k p.comms (recv_int k len tag p)
  unfolding recv_int
  recv_int-Ok len tag p =
      and_then-Ok k p (checked_int k len tag) (recv_tlv_into k len p) (recv_tlv_into-Ok len p)
        (λ m p'. checked_int-Ok len tag m p')

  send_fd_sent-Ok : (p : Endpoint W) (r : W × CallResult ℕ) → Ok k p.comms (send_fd_sent k p r)
  send_fd_sent-Ok p (w, failed errno) =
      write_failed-Ok k (errno == epipe) (is_fatal_error errno) (in_world p w)
  send_fd_sent-Ok p (w, done len) =
      if-Ok k (not (len == internal_tlv_size)) refuse (succeed tt) (in_world p w)
        (unchanged-Ok k refl) (unchanged-Ok k refl)

  pub send_fd-Ok : (fd : ℕ) (p : Endpoint W) → Ok k p.comms (send_fd k fd p)
  unfolding send_fd
  send_fd-Ok fd p = send_fd_sent-Ok p (k.sendmsg p.world p.comms.connection_fd (fd_message fd))

  pub either-Stays :
      (b : Bool) (c : Comms) (p q : Endpoint W)
      → Stays c p.comms
      → Stays c q.comms
      → Stays c (if b then p else q).comms
  either-Stays true c p q hp hq = hp
  either-Stays false c p q hp hq = hq

  pub either_scan-Stays :
      (b : Bool) (c : Comms) (p q : Endpoint W × Scan)
      → Stays c p.0.comms
      → Stays c q.0.comms
      → Stays c (if b then p else q).0.comms
  either_scan-Stays true c p q hp hq = hp
  either_scan-Stays false c p q hp hq = hq

  recv_fd_received-Stays :
      (fuel : ℕ) (p : Endpoint W) (r : W × CallResult Msghdr)
      → Stays p.comms (recv_fd_received k fuel p r).0.comms
  recv_fd_received-Stays fuel p (w, failed errno) =
      either-Stays (is_fatal_error errno) p.comms _ _ (inr (terminate-closed k (in_world p w)))
        (inl refl)
  recv_fd_received-Stays fuel p (w, done msg) =
      either_scan-Stays (length msg.iov == 0) p.comms (terminate k (in_world p w), missing)
        (recv_fd_checks k fuel msg (in_world p w)) (inr (terminate-closed k (in_world p w)))
        (either_scan-Stays (not (length msg.iov == internal_tlv_size)) p.comms
          (in_world p w, missing) _ (inl refl)
          (either_scan-Stays (not (tlv_tag msg.iov == tag_fd)) p.comms (in_world p w, missing)
            (in_world p w, scan fuel msg.control) (inl refl) (inl refl)))

  pub recv_fd-Stays : (fuel : ℕ) (p : Endpoint W) → Stays p.comms (recv_fd k fuel p).0.comms
  unfolding recv_fd
  recv_fd-Stays fuel p = recv_fd_received-Stays fuel p (k.recvmsg p.world p.comms.connection_fd)

  module _ {M : Type 0} (serialize : M → Option Bytes) (parse : Bytes → Option M) where
    parsed-Ok : (o : Option M) (p : Endpoint W) → Ok k p.comms (parsed k serialize parse o p)
    parsed-Ok none p = unchanged-Ok k refl
    parsed-Ok (some m) p = unchanged-Ok k refl

    serialized-Ok :
        (o : Option Bytes) (p : Endpoint W) → Ok k p.comms (serialized k serialize parse o p)
    serialized-Ok none p = unchanged-Ok k refl
    serialized-Ok (some str) p = send_tlv-Ok tag_proto2 str p

    pub send_proto_buf-Ok :
        (m : M) (p : Endpoint W) → Ok k p.comms (send_proto_buf k serialize parse m p)
    unfolding send_proto_buf
    send_proto_buf-Ok m p = serialized-Ok (serialize m) p

    proto_received-Stays :
        (c : Comms) (r : Endpoint W × Option (ℕ × Bytes))
        → Stays c r.0.comms
        → Stays c (proto_received k serialize parse r).0.comms
    proto_received-Stays c (p, none) h =
        either-Stays (is_connected p.comms) c p (terminate k p) h
          (Stays-trans h (inr (terminate-closed k p)))
    proto_received-Stays c (p, some (tag, bytes)) h =
        Stays-trans h
          (if-Ok k (not (tag == tag_proto2)) refuse (parsed k serialize parse (parse bytes)) p
            (unchanged-Ok k refl) (parsed-Ok (parse bytes) p)).stays

    pub recv_proto_buf-Stays :
        (p : Endpoint W) → Stays p.comms (recv_proto_buf k serialize parse p).0.comms
    unfolding recv_proto_buf
    recv_proto_buf-Stays p = proto_received-Stays p.comms (recv_tlv k p) (recv_tlv-Ok p).stays
