-- ===== src/Tests/Channel.antt =====
-- Runs of the channel of sandboxed_api/sandbox2/comms.cc.
use googlectf2023_fastbox.Prelude.{
  ℕ, ◌≤◌, ◌≡◌, refl, inr, false, List, [], ◌∷◌, some, length, arith, take, ◌-◌,
}
use googlectf2023_fastbox.Text.{Bytes, codes}
use googlectf2023_fastbox.Comms.Kernel.{Endpoint, Cmsghdr}
use googlectf2023_fastbox.Comms.Connection.{terminate, connect, new_named, create_sockaddr_un}
use googlectf2023_fastbox.Comms.Tlv.{le_bytes, send_tlv, recv_tlv, recv_int}
use googlectf2023_fastbox.Comms.Wire.{frame}
use googlectf2023_fastbox.Comms.RoundTrip.{Arrives, integers-Arrives, texts-Arrive}
use googlectf2023_fastbox.Comms.Messages.{
  send_uint8, recv_uint8, send_int8, recv_int8, send_uint16, recv_uint16, send_int16, recv_int16,
  send_uint32, recv_uint32, send_int32, recv_int32, send_uint64, recv_uint64, send_int64,
  recv_int64, send_string, recv_string, send_bytes, recv_bytes,
}
use googlectf2023_fastbox.Comms.Fifo.{Action, put, get, queue_run, channel_run, channel_run-queue}
use googlectf2023_fastbox.Comms.Truncated.{Breaks, recv_tlv-Breaks}
use googlectf2023_fastbox.Comms.Refusals.{Refuses, recv_int-Refuses}
use googlectf2023_fastbox.Comms.Effects.{Stays}
use googlectf2023_fastbox.Comms.Reach.{
  IsWell, sends, receives, terminates, transfers, connects, here, after, transfers-Stays,
  steps-IsWell,
}
use googlectf2023_fastbox.Comms.Descriptors.{scan, missing, out_of_fuel}
use googlectf2023_fastbox.Comms.Scan.{scan-first}
use googlectf2023_fastbox.Comms.Address.{create_sockaddr_un-seen}
use googlectf2023_fastbox.Tests.Sockets.{
  socket, contents, socket-Writes, socket-Reads, socket-AtEnd, monitor, sandboxee,
}

integers-Arrives_example :
    Arrives socket contents monitor sandboxee (send_uint8 socket 200) (recv_uint8 socket) 200
    × Arrives socket contents monitor sandboxee (send_int8 socket 200) (recv_int8 socket) 200
    × Arrives socket contents monitor sandboxee
        (send_uint16 socket 40000)
        (recv_uint16 socket)
        40000
    × Arrives socket contents monitor sandboxee (send_int16 socket 40000) (recv_int16 socket) 40000
    × Arrives socket contents monitor sandboxee
        (send_uint32 socket 0x0a0b_0c01)
        (recv_uint32 socket)
        0x0a0b_0c01
    × Arrives socket contents monitor sandboxee
        (send_int32 socket 0x0a0b_0c01)
        (recv_int32 socket)
        0x0a0b_0c01
    × Arrives socket contents monitor sandboxee
        (send_uint64 socket 0x1_0000_0000)
        (recv_uint64 socket)
        0x1_0000_0000
    × Arrives socket contents monitor sandboxee
        (send_int64 socket 0x1_0000_0000)
        (recv_int64 socket)
        0x1_0000_0000
integers-Arrives_example =
    integers-Arrives socket contents monitor sandboxee (socket-Writes (some 3))
      (socket-Reads (some 4)) refl 200 40000 0x0a0b_0c01 0x1_0000_0000 (omega arith) (omega arith)
      (omega arith) (omega arith)

texts-Arrive_example :
    Arrives socket contents monitor sandboxee
      (send_string socket (codes "ready"))
      (recv_string socket)
      (codes "ready")
    × Arrives socket contents monitor sandboxee (send_bytes socket []) (recv_bytes socket) []
texts-Arrive_example =
    texts-Arrive socket contents monitor sandboxee (socket-Writes (some 3)) (socket-Reads (some 4))
      refl (codes "ready") [] (omega arith) (omega arith)

abbrev pub actions : List Action
actions = put (1, codes "a") ∷ put (2, []) ∷ get ∷ put (3, codes "bcd") ∷ get ∷ get ∷ []

channel_run-queue_example :
    channel_run socket monitor.comms sandboxee.comms actions []
    ≡ some ((1, codes "a") ∷ (2, []) ∷ (3, codes "bcd") ∷ [])
unfolding queue_run
channel_run-queue_example =
    channel_run-queue socket monitor.comms sandboxee.comms contents (socket-Writes (some 3))
      (socket-Reads (some 4)) actions [] _
      ((omega arith, omega arith), ((omega arith, omega arith), ((omega arith, omega arith), tt)))
      refl refl

-- The tag and a part of the length.
abbrev pub truncated : Bytes
truncated = 1 ∷ 0 ∷ 0 ∷ 0 ∷ 2 ∷ 0 ∷ []

recv_tlv-Breaks_example :
    Breaks socket contents sandboxee.comms
      (recv_tlv socket (record { comms = sandboxee.comms; world = truncated }))
unfolding frame le_bytes
recv_tlv-Breaks_example =
    recv_tlv-Breaks socket contents (record { comms = sandboxee.comms; world = truncated })
      (socket-Reads (some 4)) (socket-AtEnd (some 4)) 1 (codes "ab")
      (0 ∷ 0 ∷ 0 ∷ 0 ∷ 0 ∷ 0 ∷ codes "ab") (omega arith) (omega arith) (omega arith) refl

abbrev pub long_message : Bytes
long_message = 1 ∷ 0 ∷ 0 ∷ 0 ∷ 3 ∷ 0 ∷ 0 ∷ 0 ∷ 0 ∷ 0 ∷ 0 ∷ 0 ∷ codes "abc"

recv_int-Refuses_example :
    Refuses socket contents
      (record { comms = sandboxee.comms; world = long_message })
      (codes "abc")
      (recv_int socket 2 1 (record { comms = sandboxee.comms; world = long_message }))
unfolding frame le_bytes
recv_int-Refuses_example =
    recv_int-Refuses socket contents (record { comms = sandboxee.comms; world = long_message })
      (socket-Reads (some 4)) 2 1 1 (codes "abc") [] (omega arith) (omega arith) (inr (omega arith))
      refl

-- A transfer each way, and then the end.
transfers-Stays_example :
    Stays monitor.comms
      (terminate socket (recv_tlv socket (send_tlv socket 1 [] monitor).0).0).comms
transfers-Stays_example =
    transfers-Stays {M = Bytes} socket (λ m. some m) (λ b. some b) {p = monitor}
      (after (sends 1 [] monitor) (
        after (receives (send_tlv socket 1 [] monitor).0)
          (after (terminates (recv_tlv socket (send_tlv socket 1 [] monitor).0).0) here)))

abbrev pub named : Endpoint Bytes
named = record { comms = new_named (codes "/tmp/comms") false; world = [] }

steps-IsWell_example : IsWell (terminate socket (connect socket named).0).comms
unfolding IsWell
steps-IsWell_example =
    steps-IsWell {M = Bytes} socket (λ m. some m) (λ b. some b) {p = named}
      (after (connects named) (after (transfers (terminates (connect socket named).0)) here)) refl

abbrev pub rights : ℕ → Cmsghdr
rights n = record { cmsg_len = n; cmsg_level = 1; cmsg_type = 1; fds = 7 }

abbrev pub credentials : Cmsghdr
credentials = record { cmsg_len = 28; cmsg_level = 1; cmsg_type = 2; fds = 0 }

-- two descriptors in one message
scan-first_example :
    (scan 9 (credentials ∷ rights 24 ∷ []) ≡ out_of_fuel) × (scan 9 (credentials ∷ []) ≡ missing)
scan-first_example = scan-first 9 (credentials ∷ []) [] (rights 24) (refl, tt) refl (omega arith)

create_sockaddr_un-seen_example :
    (length (create_sockaddr_un named.comms).sun_path ≡ 108)
    × (2 ≤ (create_sockaddr_un named.comms).slen)
    × ((create_sockaddr_un named.comms).slen ≤ 110)
    × (take ((create_sockaddr_un named.comms).slen - 2) (create_sockaddr_un named.comms).sun_path
        ≡ codes "/tmp/comms")
create_sockaddr_un-seen_example = create_sockaddr_un-seen named.comms
