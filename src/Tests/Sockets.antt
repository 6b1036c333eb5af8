-- ===== src/Tests/Sockets.antt =====
-- A socket that takes two bytes at a time and gives one, and the channel of
-- sandboxed_api/sandbox2/comms.cc on it.
use googlectf2023_fastbox.Prelude.{
  ℕ, ◌<◌, ◌≡◌, refl, true, [], ◌∷◌, ◌++◌, none, some, length, arith,
}
use googlectf2023_fastbox.Text.{Bytes, codes}
use googlectf2023_fastbox.Comms.Kernel.{Fd, CallResult, done, failed, Kernel, Endpoint}
use googlectf2023_fastbox.Comms.Connection.{new_connected}
use googlectf2023_fastbox.Comms.Stream.{Writes, Reads, Taken, Given}
use googlectf2023_fastbox.Comms.Truncated.{AtEnd}

abbrev pub taken : Bytes → Bytes → Bytes × CallResult ℕ
taken w [] = (w, done 0)
taken w (a ∷ []) = (w ++ (a ∷ []), done 1)
taken w (a ∷ b ∷ bytes) = (w ++ (a ∷ b ∷ []), done 2)

abbrev pub given : Bytes → Bytes × CallResult Bytes
given [] = ([], done [])
given (b ∷ w) = (w, done (b ∷ []))

-- The world is what is in the socket.
pub socket : Kernel Bytes
socket = record {
  write = λ w fd bytes. taken w bytes;
  read = λ w fd n. given w;
  close = λ w fd. w;
  socket = λ w. (w, some 3);
  bind = λ w fd address. (w, true);
  listen = λ w fd. (w, true);
  accept = λ w fd. (w, some 4);
  connect = λ w fd address. (w, true);
  dup = λ w fd. (w, some 5);
  peer_creds = λ w fd. none;
  sendmsg = λ w fd msg. (w, done 8);
  recvmsg = λ w fd. (w, failed 11);
}

abbrev pub contents : Bytes → Bytes
contents w = w

write_law : (fd : Fd) (w bytes : Bytes) → 0 < length bytes → Taken socket fd contents w bytes
unfolding socket
write_law fd w [] h = absurd (omega arith)
write_law fd w (a ∷ []) h = record {
  next = w ++ (a ∷ []);
  count = 0;
  took = refl;
  within = omega arith;
  queued = refl;
}
write_law fd w (a ∷ b ∷ bytes) h = record {
  next = w ++ (a ∷ b ∷ []);
  count = 1;
  took = refl;
  within = omega arith;
  queued = refl;
}

read_law : (fd : Fd) (w : Bytes) (n : ℕ) → 0 < n → 0 < length w → Given socket fd contents w n
unfolding socket
read_law fd [] n hn h = absurd (omega arith)
read_law fd (b ∷ w) n hn h = record {
  next = w;
  first = b;
  others = [];
  gave = refl;
  within = omega arith;
  queued = refl;
}

pub socket-Writes : (fd : Fd) → Writes socket fd contents
socket-Writes fd = record { takes = write_law fd }

pub socket-Reads : (fd : Fd) → Reads socket fd contents
socket-Reads fd = record { gives = read_law fd }

no_more :
    (fd : Fd) (w : Bytes) (n : ℕ) → w ≡ [] → (w' : Bytes) × (socket.read w fd n ≡ (w', done []))
unfolding socket
no_more fd [] n e = ([], refl)
no_more fd (b ∷ w) n e = absurd (cc e)

pub socket-AtEnd : (fd : Fd) → AtEnd socket contents fd
socket-AtEnd fd = record { ends = λ w n h e. no_more fd w n e }

abbrev pub monitor : Endpoint Bytes
monitor = record { comms = new_connected (codes "monitor") 3; world = [] }

abbrev pub sandboxee : Endpoint Bytes
sandboxee = record { comms = new_connected (codes "sandboxee") 4; world = [] }
