-- ===== src/Comms/RoundTrip.antt =====
-- What goes in at one end of the channel of sandboxed_api/sandbox2/comms.cc and comes out at the
-- other.
use googlectf2023_fastbox.Prelude.{
  ℕ, ◌^◌, ◌<◌, ◌≤◌, ◌≡◌, refl, ap, ◌∙◌, Bool, true, false, not, [], ◌++◌, some, length, ◌==◌,
  if◌then◌else◌, arith, ==_refl,
}
use mathlib.Core.List.{append-nil}
use googlectf2023_fastbox.Text.{Bytes}
use googlectf2023_fastbox.Comms.Kernel.{Kernel, Endpoint, Op, ◌>>=◌, succeed, refuse}
use googlectf2023_fastbox.Comms.Transfer.{in_world}
use googlectf2023_fastbox.Comms.Tlv.{
  tag_bool, tag_int8, tag_uint8, tag_int16, tag_uint16, tag_int32, tag_uint32, tag_int64,
  tag_uint64, tag_string, tag_bytes, max_msg_size, le_bytes, from_le, send_tlv, recv_tlv, recv_int,
  send_generic, checked_int,
}
use googlectf2023_fastbox.Comms.Messages.{
  of_tag, bool_byte, send_uint8, recv_uint8, send_int8, recv_int8, send_uint16, recv_uint16,
  send_int16, recv_int16, send_uint32, recv_uint32, send_int32, recv_int32, send_uint64,
  recv_uint64, send_int64, recv_int64, send_bool, recv_bool, send_string, recv_string, send_bytes,
  recv_bytes,
}
use googlectf2023_fastbox.Comms.Stream.{Writes, Reads, Leaves}
use googlectf2023_fastbox.Comms.Wire.{
  frame, length-le_bytes, from_le-le_bytes, bind-Leaves, succeed-Leaves, else-Leaves,
  send_tlv-Leaves, recv_tlv-Leaves, recv_tlv_into-Leaves,
}

module _ {W : Type 0} (k : Kernel W) (pending : W → Bytes) where
  -- The first call returns true, then the second one, at the other end, returns true with `b`.
  -- Neither changes its object, and the stream is empty again.
  pub record Arrives {B : Type 0} (tx rx : Endpoint W) (send : Op W (Unit {0})) (recv : Op W B)
      (b : B) : Type 0 where
    pub between : W
    pub after : W
    pub sent : send tx ≡ (in_world tx between, some tt)
    pub received : recv (in_world rx between) ≡ (in_world rx after, some b)
    pub drained : pending after ≡ []

  frame_nil :
      (q : Bytes) (tag : ℕ) (value : Bytes) → q ≡ [] → q ++ frame tag value ≡ frame tag value ++ []
  frame_nil q tag value e = cc (e, append-nil (frame tag value))

  abbrev right_length : ℕ → ℕ → Op W ℕ
  right_length n v =
      if not (length (le_bytes n v) == n) then refuse else succeed (from_le (le_bytes n v))

  pub checked_int-Leaves :
      (p : Endpoint W) (n tag v : ℕ) (q : Bytes)
      → v < 256 ^ n
      → pending p.world ≡ q
      → Leaves k pending p v q (checked_int k n tag (tag, length (le_bytes n v), le_bytes n v) p)
  checked_int-Leaves p n tag v q h e =
      else-Leaves k pending refuse (right_length n v) (ground (arith, ==_refl tag)) (
        else-Leaves k pending refuse (succeed (from_le (le_bytes n v)))
          (ground (arith, length-le_bytes n v))
          (record {
            after = p.world;
            result = ap (λ v. (p, some v)) (from_le-le_bytes n v h);
            left_over = e;
          }))

  pub recv_int-Leaves :
      (p : Endpoint W)
      → Reads k p.comms.connection_fd pending
      → (n tag v : ℕ) (rest : Bytes) → tag < 256 ^ 4
      → n ≤ max_msg_size
      → v < 256 ^ n
      → pending p.world ≡ frame tag (le_bytes n v) ++ rest
      → Leaves k pending p v rest (recv_int k n tag p)
  unfolding recv_int
  recv_int-Leaves p rd n tag v rest ht hn h e =
      bind-Leaves k pending (checked_int k n tag)
        (recv_tlv_into-Leaves k pending p rd n tag (le_bytes n v) rest ht
          (omega (arith, length-le_bytes n v)) (omega (arith, length-le_bytes n v)) e)
        (λ w e'. checked_int-Leaves (in_world p w) n tag v rest h e')

  arrives :
      {B : Type 0} {tx rx : Endpoint W} {send : Op W (Unit {0})} {recv : Op W B} {b : B} (q : Bytes)
      → Leaves k pending tx tt q (send tx)
      → ((w : W) → pending w ≡ q → Leaves k pending (in_world rx w) b [] (recv (in_world rx w)))
      → Arrives tx rx send recv b
  arrives q s r =
      let g = r s.after s.left_over in
      record {
        between = s.after;
        after = g.after;
        sent = s.result;
        received = g.result;
        drained = g.left_over;
      }

  module _ (tx rx : Endpoint W) (wr : Writes k tx.comms.connection_fd pending)
      (rd : Reads k rx.comms.connection_fd pending) (idle : pending tx.world ≡ []) where
    int_sent :
        (n tag v : ℕ)
        → n ≤ max_msg_size
        → Leaves k pending tx tt
            (pending tx.world ++ frame tag (le_bytes n v))
            (send_generic k n tag v tx)
    unfolding send_generic
    int_sent n tag v hn =
        send_tlv-Leaves k pending tx wr tag (le_bytes n v) (omega (arith, length-le_bytes n v))

    int_received :
        (n tag v : ℕ) (w : W)
        → tag < 256 ^ 4
        → n ≤ max_msg_size
        → v < 256 ^ n
        → pending w ≡ pending tx.world ++ frame tag (le_bytes n v)
        → Leaves k pending (in_world rx w) v [] (recv_int k n tag (in_world rx w))
    int_received n tag v w ht hn h e =
        recv_int-Leaves (in_world rx w) rd n tag v [] ht hn h
          (e ∙ frame_nil _ tag (le_bytes n v) idle)

    int-Arrives :
        (n tag v : ℕ)
        → tag < 256 ^ 4
        → n ≤ max_msg_size
        → v < 256 ^ n
        → Arrives tx rx (send_generic k n tag v) (recv_int k n tag) v
    int-Arrives n tag v ht hn h =
        arrives (pending tx.world ++ frame tag (le_bytes n v)) (int_sent n tag v hn)
          (λ w e. int_received n tag v w ht hn h e)

    -- On a stream socket with nothing in it, an integer of any of the widths, sent at one end by
    -- the call for its type, is what the call for that type receives at the other end; both calls
    -- return true and leave the stream empty, however the transfers are split.
    pub integers-Arrives :
        (v8 v16 v32 v64 : ℕ)
        → v8 < 2 ^ 8
        → v16 < 2 ^ 16
        → v32 < 2 ^ 32
        → v64 < 2 ^ 64
        → Arrives tx rx (send_uint8 k v8) (recv_uint8 k) v8
          × Arrives tx rx (send_int8 k v8) (recv_int8 k) v8
          × Arrives tx rx (send_uint16 k v16) (recv_uint16 k) v16
          × Arrives tx rx (send_int16 k v16) (recv_int16 k) v16
          × Arrives tx rx (send_uint32 k v32) (recv_uint32 k) v32
          × Arrives tx rx (send_int32 k v32) (recv_int32 k) v32
          × Arrives tx rx (send_uint64 k v64) (recv_uint64 k) v64
          × Arrives tx rx (send_int64 k v64) (recv_int64 k) v64
    unfolding send_uint8 recv_uint8 send_int8 recv_int8 send_uint16 recv_uint16 send_int16
        recv_int16 send_uint32 recv_uint32 send_int32 recv_int32 send_uint64 recv_uint64 send_int64
        recv_int64
    integers-Arrives a b c d ha hb hc hd = (
      int-Arrives 1 tag_uint8 a (omega arith) (omega arith) ha,
      int-Arrives 1 tag_int8 a (omega arith) (omega arith) ha,
      int-Arrives 2 tag_uint16 b (omega arith) (omega arith) hb,
      int-Arrives 2 tag_int16 b (omega arith) (omega arith) hb,
      int-Arrives 4 tag_uint32 c (omega arith) (omega arith) hc,
      int-Arrives 4 tag_int32 c (omega arith) (omega arith) hc,
      int-Arrives 8 tag_uint64 d (omega arith) (omega arith) hd,
      int-Arrives 8 tag_int64 d (omega arith) (omega arith) hd,
    )

    -- the rest of a call, after a message whose tag is checked
    of_tag-Leaves :
        (w : W) (tag : ℕ) (value : Bytes)
        → pending w ≡ []
        → Leaves k pending (in_world rx w) value [] (of_tag k tag (tag, value) (in_world rx w))
    of_tag-Leaves w tag value e =
        else-Leaves k pending refuse (succeed value) (ground (arith, ==_refl tag))
          (succeed-Leaves k pending value (in_world rx w) [] e)

    bytes_back :
        (tag : ℕ) (value : Bytes)
        → tag < 256 ^ 4
        → length value ≤ max_msg_size
        → Arrives tx rx (send_tlv k tag value) (recv_tlv k >>= of_tag k tag) value
    bytes_back tag value ht h =
        arrives (pending tx.world ++ frame tag value) (send_tlv-Leaves k pending tx wr tag value h)
          (λ w e.
            bind-Leaves k pending (of_tag k tag)
              (recv_tlv-Leaves k pending (in_world rx w) rd tag value [] ht h
                (e ∙ frame_nil _ tag value idle))
              (λ w' e'. of_tag-Leaves w' tag value e'))

    -- On a stream socket with nothing in it, a text and a sequence of bytes of at most 2^31 - 1
    -- bytes arrive at the other end unchanged, the empty ones too; both calls return true and
    -- leave the stream empty, however the transfers are split.
    pub texts-Arrive :
        (text bytes : Bytes)
        → length text ≤ max_msg_size
        → length bytes ≤ max_msg_size
        → Arrives tx rx (send_string k text) (recv_string k) text
          × Arrives tx rx (send_bytes k bytes) (recv_bytes k) bytes
    unfolding send_string recv_string send_bytes recv_bytes
    texts-Arrive text bytes ht hb =
        (bytes_back tag_string text (omega arith) ht, bytes_back tag_bytes bytes (omega arith) hb)

    bool_back : (v : Bool) → not (bool_byte v == 0) ≡ v
    bool_back true = refl
    bool_back false = refl

    small_bool : (v : Bool) → bool_byte v < 256 ^ 1
    small_bool true = omega arith
    small_bool false = omega arith

    pub bool-Arrives : (v : Bool) → Arrives tx rx (send_bool k v) (recv_bool k) v
    unfolding send_bool recv_bool
    bool-Arrives v =
        arrives (pending tx.world ++ frame tag_bool (le_bytes 1 (bool_byte v)))
          (int_sent 1 tag_bool (bool_byte v) (omega arith))
          (λ w e.
            bind-Leaves k pending (λ n. succeed (not (n == 0)))
              (int_received 1 tag_bool (bool_byte v) w (omega arith) (omega arith) (small_bool v) e)
              (λ w' e'. record {
                after = w';
                result = ap (λ b. (in_world rx w', some b)) (bool_back v);
                left_over = e';
              }))
