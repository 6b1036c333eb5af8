-- ===== src/Comms/Messages.antt =====
-- sandboxed_api/sandbox2/comms.{h,cc}: the calls for integers, texts, bytes and protocol buffers. A
-- signed integer is its bit pattern.
use googlectf2023_fastbox.Prelude.{
  ℕ, Bool, true, false, not, Option, none, some, ◌==◌, if◌then◌else◌,
}
use googlectf2023_fastbox.Text.{Bytes}
use googlectf2023_fastbox.Comms.Kernel.{Kernel, Endpoint, Op, ◌>>=◌, succeed, refuse}
use googlectf2023_fastbox.Comms.Connection.{is_connected, terminate}
use googlectf2023_fastbox.Comms.Tlv.{
  tag_bool, tag_int8, tag_uint8, tag_int16, tag_uint16, tag_int32, tag_uint32, tag_int64,
  tag_uint64, tag_string, tag_bytes, tag_proto2, send_tlv, recv_tlv, recv_int, send_generic,
}

-- The byte of a bool.
abbrev pub bool_byte : Bool → ℕ
bool_byte true = 1
bool_byte false = 0

module _ {W : Type 0} (k : Kernel W) where
  unfoldable pub recv_uint8 : Op W ℕ
  recv_uint8 = recv_int k 1 tag_uint8

  unfoldable pub send_uint8 : ℕ → Op W (Unit {0})
  send_uint8 v = send_generic k 1 tag_uint8 v

  unfoldable pub recv_int8 : Op W ℕ
  recv_int8 = recv_int k 1 tag_int8

  unfoldable pub send_int8 : ℕ → Op W (Unit {0})
  send_int8 v = send_generic k 1 tag_int8 v

  unfoldable pub recv_uint16 : Op W ℕ
  recv_uint16 = recv_int k 2 tag_uint16

  unfoldable pub send_uint16 : ℕ → Op W (Unit {0})
  send_uint16 v = send_generic k 2 tag_uint16 v

  unfoldable pub recv_int16 : Op W ℕ
  recv_int16 = recv_int k 2 tag_int16

  unfoldable pub send_int16 : ℕ → Op W (Unit {0})
  send_int16 v = send_generic k 2 tag_int16 v

  unfoldable pub recv_uint32 : Op W ℕ
  recv_uint32 = recv_int k 4 tag_uint32

  unfoldable pub send_uint32 : ℕ → Op W (Unit {0})
  send_uint32 v = send_generic k 4 tag_uint32 v

  unfoldable pub recv_int32 : Op W ℕ
  recv_int32 = recv_int k 4 tag_int32

  unfoldable pub send_int32 : ℕ → Op W (Unit {0})
  send_int32 v = send_generic k 4 tag_int32 v

  unfoldable pub recv_uint64 : Op W ℕ
  recv_uint64 = recv_int k 8 tag_uint64

  unfoldable pub send_uint64 : ℕ → Op W (Unit {0})
  send_uint64 v = send_generic k 8 tag_uint64 v

  unfoldable pub recv_int64 : Op W ℕ
  recv_int64 = recv_int k 8 tag_int64

  unfoldable pub send_int64 : ℕ → Op W (Unit {0})
  send_int64 v = send_generic k 8 tag_int64 v

  -- RecvBool: the byte is read as a bool, which a byte other than 0 makes true.
  unfoldable pub recv_bool : Op W Bool
  recv_bool = recv_int k 1 tag_bool >>= (λ v. succeed (not (v == 0)))

  unfoldable pub send_bool : Bool → Op W (Unit {0})
  send_bool v = send_generic k 1 tag_bool (bool_byte v)

  -- The value of a message, if it has the tag.
  abbrev pub of_tag : ℕ → ℕ × Bytes → Op W Bytes
  of_tag tag m = if not (m.0 == tag) then refuse else succeed m.1

  unfoldable pub recv_string : Op W Bytes
  recv_string = recv_tlv k >>= of_tag tag_string

  unfoldable pub send_string : Bytes → Op W (Unit {0})
  send_string v = send_tlv k tag_string v

  unfoldable pub recv_bytes : Op W Bytes
  recv_bytes = recv_tlv k >>= of_tag tag_bytes

  unfoldable pub send_bytes : Bytes → Op W (Unit {0})
  send_bytes v = send_tlv k tag_bytes v

  -- The protocol buffers: the two functions of the library are parameters.
  module _ {M : Type 0} (serialize : M → Option Bytes) (parse : Bytes → Option M) where
    abbrev pub serialized : Option Bytes → Op W (Unit {0})
    serialized none = refuse
    serialized (some str) = send_tlv k tag_proto2 str

    -- SendProtoBuf
    unfoldable pub send_proto_buf : M → Op W (Unit {0})
    send_proto_buf message = serialized (serialize message)

    abbrev pub parsed : Option M → Op W M
    parsed none = refuse
    parsed (some message) = succeed message

    -- RecvProtoBuf, after its RecvTLV
    abbrev pub proto_received : Endpoint W × Option (ℕ × Bytes) → Endpoint W × Option M
    proto_received (p, none) = (if is_connected p.comms then p else terminate k p, none)
    proto_received (p, some (tag, bytes)) =
        (if not (tag == tag_proto2) then refuse else parsed (parse bytes)) p

    -- RecvProtoBuf
    unfoldable pub recv_proto_buf : Op W M
    recv_proto_buf p = proto_received (recv_tlv k p)
