-- ===== src/Comms/Tlv.antt =====
-- sandboxed_api/sandbox2/comms.{h,cc}: messages of a tag, a length and a value, and the typed
-- calls on top of them.
use googlectf2023_fastbox.Prelude.{
  ℕ, zero, suc, ◌+◌, ◌*◌, ◌/◌, ◌%◌, not, [], ◌∷◌, ◌==◌, ltb, length, if◌then◌else◌,
}
use googlectf2023_fastbox.Text.{Bytes}
use googlectf2023_fastbox.Comms.Kernel.{Kernel, Op, ◌>>=◌, ◌>>◌, succeed, refuse}
use googlectf2023_fastbox.Comms.Transfer.{send, recv}

-- kTagBool and the others
abbrev pub tag_bool : ℕ
tag_bool = 0x8000_0001

abbrev pub tag_int8 : ℕ
tag_int8 = 0x8000_0002

abbrev pub tag_uint8 : ℕ
tag_uint8 = 0x8000_0003

abbrev pub tag_int16 : ℕ
tag_int16 = 0x8000_0004

abbrev pub tag_uint16 : ℕ
tag_uint16 = 0x8000_0005

abbrev pub tag_int32 : ℕ
tag_int32 = 0x8000_0006

abbrev pub tag_uint32 : ℕ
tag_uint32 = 0x8000_0007

abbrev pub tag_int64 : ℕ
tag_int64 = 0x8000_0008

abbrev pub tag_uint64 : ℕ
tag_uint64 = 0x8000_0009

abbrev pub tag_string : ℕ
tag_string = 0x8000_0100

abbrev pub tag_bytes : ℕ
tag_bytes = 0x8000_0101

abbrev pub tag_proto2 : ℕ
tag_proto2 = 0x8000_0102

abbrev pub tag_fd : ℕ
tag_fd = 0x8000_0201

-- GetMaxMsgSize: the largest int32_t
abbrev pub max_msg_size : ℕ
max_msg_size = 0x7fff_ffff

-- The bytes of a number in memory, on the little-endian machines that the library supports.
unfoldable pub le_bytes : ℕ → ℕ → Bytes
le_bytes zero v = []
le_bytes (suc n) v = v % 256 ∷ le_bytes n (v / 256)

-- The number that bytes in memory are.
unfoldable pub from_le : Bytes → ℕ
from_le [] = 0
from_le (b ∷ bs) = b + 256 * from_le bs

module _ {W : Type 0} (k : Kernel W) where
  -- The last two parts of SendTLV.
  abbrev pub send_value : Bytes → Op W (Unit {0})
  send_value value = if ltb 0 (length value) then send k value else succeed tt

  abbrev pub send_lv : Bytes → Op W (Unit {0})
  send_lv value = do send k (le_bytes 8 (length value)); send_value value

  abbrev pub send_parts : ℕ → Bytes → Op W (Unit {0})
  send_parts tag value = do send k (le_bytes 4 tag); send_lv value

  -- SendTLV, where the length is that of the value
  unfoldable pub send_tlv : ℕ → Bytes → Op W (Unit {0})
  send_tlv tag value = if ltb max_msg_size (length value) then refuse else send_parts tag value

  abbrev pub checked_tl : ℕ → ℕ → Op W (ℕ × ℕ)
  checked_tl tag length = if ltb max_msg_size length then refuse else succeed (tag, length)

  abbrev pub recv_length : Bytes → Op W (ℕ × ℕ)
  recv_length tag = recv k 8 >>= (λ len. checked_tl (from_le tag) (from_le len))

  -- RecvTL
  unfoldable pub recv_tl : Op W (ℕ × ℕ)
  recv_tl = recv k 4 >>= recv_length

  abbrev pub recv_value : ℕ → Op W Bytes
  recv_value length = if length == 0 then succeed [] else recv k length

  abbrev pub recv_generic : ℕ × ℕ → Op W (ℕ × Bytes)
  recv_generic tl = recv_value tl.1 >>= (λ v. succeed (tl.0, v))

  -- RecvTLVGeneric, the value resized to what comes
  unfoldable pub recv_tlv : Op W (ℕ × Bytes)
  recv_tlv = recv_tl >>= recv_generic

  abbrev pub recv_value_into : ℕ → ℕ → Op W Bytes
  recv_value_into buffer_size length =
      if length == 0 then succeed [] else if ltb buffer_size length then refuse else recv k length

  abbrev pub recv_into : ℕ → ℕ × ℕ → Op W (ℕ × ℕ × Bytes)
  recv_into buffer_size tl = recv_value_into buffer_size tl.1 >>= (λ v. succeed (tl.0, tl.1, v))

  -- RecvTLV into a buffer of `buffer_size` bytes; the value is what the buffer then starts with.
  unfoldable pub recv_tlv_into : ℕ → Op W (ℕ × ℕ × Bytes)
  recv_tlv_into buffer_size = recv_tl >>= recv_into buffer_size

  abbrev pub checked_int : ℕ → ℕ → ℕ × ℕ × Bytes → Op W ℕ
  checked_int len tag m =
      if not (m.0 == tag)
      then refuse
      else if not (m.1 == len)
      then refuse
      else succeed (from_le m.2)

  -- RecvInt
  unfoldable pub recv_int : ℕ → ℕ → Op W ℕ
  recv_int len tag = recv_tlv_into len >>= checked_int len tag

  -- SendGeneric, of a value of `size` bytes
  unfoldable pub send_generic : ℕ → ℕ → ℕ → Op W (Unit {0})
  send_generic size tag v = send_tlv tag (le_bytes size v)
