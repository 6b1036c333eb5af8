-- ===== src/Comms/Connection.antt =====
-- sandboxed_api/sandbox2/comms.cc: the constructors, and how a channel is opened and closed.
use googlectf2023_fastbox.Prelude.{
  ℕ, zero, suc, ◌+◌, Bool, true, false, [], ◌∷◌, Option, none, some, ◌==◌, ltb, length,
  if◌then◌else◌,
}
use googlectf2023_fastbox.Text.{Bytes}
use googlectf2023_fastbox.Comms.Kernel.{
  Fd, SockaddrUn, Ucred, Kernel, State, unconnected, connected, terminated, Comms, Endpoint, Op,
  succeed, refuse,
}

-- Comms(socket_name, abstract_uds)
abbrev pub new_named : Bytes → Bool → Comms
new_named socket_name abstract_uds = record {
  socket_name = socket_name;
  abstract_uds = abstract_uds;
  connection_fd = none;
  bind_fd = none;
  state = unconnected;
}

-- Comms(fd); the name, which only the log shows, is a parameter.
abbrev pub new_connected : Bytes → ℕ → Comms
new_connected socket_name fd = record {
  socket_name = socket_name;
  abstract_uds = true;
  connection_fd = some fd;
  bind_fd = none;
  state = connected;
}

abbrev pub is_connected_state : State → Bool
is_connected_state unconnected = false
is_connected_state connected = true
is_connected_state terminated = false

abbrev pub is_terminated_state : State → Bool
is_terminated_state unconnected = false
is_terminated_state connected = false
is_terminated_state terminated = true

-- IsConnected
unfoldable pub is_connected : Comms → Bool
is_connected c = is_connected_state c.state

-- IsTerminated
unfoldable pub is_terminated : Comms → Bool
is_terminated c = is_terminated_state c.state

-- The bytes before the first NUL.
abbrev pub c_str : Bytes → Bytes
c_str [] = []
c_str (x ∷ s) = if x == 0 then [] else x ∷ c_str s

-- strncpy into a field of `n` bytes, of a string without NUL.
abbrev pub strncpy : ℕ → Bytes → Bytes
strncpy zero s = []
strncpy (suc n) [] = 0 ∷ strncpy n []
strncpy (suc n) (x ∷ s) = x ∷ strncpy n s

-- sizeof(sockaddr_un), of which 2 bytes are the family and 108 the path
abbrev pub sockaddr_un_size : ℕ
sockaddr_un_size = 110

abbrev pub sun_path_of : Bool → Bytes → Bytes
sun_path_of true name = 0 ∷ strncpy 107 name
sun_path_of false name = strncpy 108 name

-- sizeof(sun_family) is 2.
abbrev pub slen_of : Bool → Bytes → ℕ
slen_of true name = 2 + length name + 1
slen_of false name = 2 + length name

abbrev pub capped : ℕ → ℕ
capped slen = if ltb sockaddr_un_size slen then sockaddr_un_size else slen

-- CreateSockaddrUn
unfoldable pub create_sockaddr_un : Comms → SockaddrUn
create_sockaddr_un c =
    let name = c_str c.socket_name in
    record {
      sun_path = sun_path_of c.abstract_uds name;
      slen = capped (slen_of c.abstract_uds name);
    }

module _ {W : Type 0} (k : Kernel W) where
  abbrev pub close_fd : Fd → W → W
  close_fd none w = w
  close_fd (some fd) w = k.close w (some fd)

  unfoldable pub terminate : Endpoint W → Endpoint W
  terminate p = record {
    comms = record (p.comms) { state = terminated; bind_fd = none; connection_fd = none };
    world = close_fd p.comms.connection_fd (close_fd p.comms.bind_fd p.world);
  }

  abbrev pub with_bind_fd : Fd → W → Comms → Endpoint W
  with_bind_fd fd w c = record { comms = record c { bind_fd = fd }; world = w }

  abbrev pub close_bind_fd : Fd → W → Comms → Endpoint W × Option (Unit {0})
  close_bind_fd fd w c = refuse (with_bind_fd none (k.close w fd) c)

  -- Listen, after the bind and the listen
  abbrev pub listen_end : Fd → Comms → W × Bool → Endpoint W × Option (Unit {0})
  listen_end fd c (w, true) = succeed tt (with_bind_fd fd w c)
  listen_end fd c (w, false) = close_bind_fd fd w c

  abbrev pub listen_bound : Fd → Comms → W × Bool → Endpoint W × Option (Unit {0})
  listen_bound fd c (w, true) = listen_end fd c (k.listen w fd)
  listen_bound fd c (w, false) = close_bind_fd fd w c

  abbrev pub listen_socket : Comms → W × Fd → Endpoint W × Option (Unit {0})
  listen_socket c (w, none) = refuse (with_bind_fd none w c)
  listen_socket c (w, some fd) =
      listen_bound (some fd) c (k.bind w (some fd) (create_sockaddr_un c))

  -- Listen
  unfoldable pub listen : Op W (Unit {0})
  listen p = if is_connected p.comms then succeed tt p else listen_socket p.comms (k.socket p.world)

  abbrev pub accept_end : Comms → W × Fd → Endpoint W × Option (Unit {0})
  accept_end c (w, none) = refuse (record {
    comms = record c { connection_fd = none; bind_fd = none };
    world = k.close w c.bind_fd;
  })
  accept_end c (w, some fd) =
      succeed tt
        (record { comms = record c { connection_fd = some fd; state = connected }; world = w })

  -- Accept
  unfoldable pub accept : Op W (Unit {0})
  accept p =
      if is_connected p.comms
      then succeed tt p
      else accept_end p.comms (k.accept p.world p.comms.bind_fd)

  abbrev pub connect_end : Fd → Comms → W × Bool → Endpoint W × Option (Unit {0})
  connect_end fd c (w, true) =
      succeed tt (record { comms = record c { connection_fd = fd; state = connected }; world = w })
  connect_end fd c (w, false) =
      refuse (record { comms = record c { connection_fd = none }; world = k.close w fd })

  abbrev pub connect_socket : Comms → W × Fd → Endpoint W × Option (Unit {0})
  connect_socket c (w, none) =
      refuse (record { comms = record c { connection_fd = none }; world = w })
  connect_socket c (w, some fd) =
      connect_end (some fd) c (k.connect w (some fd) (create_sockaddr_un c))

  -- Connect
  unfoldable pub connect : Op W (Unit {0})
  connect p =
      if is_connected p.comms then succeed tt p else connect_socket p.comms (k.socket p.world)

  abbrev pub moved : Fd → Comms → W × Fd → Endpoint W × Option (Unit {0})
  moved old c (w, none) = (record { comms = c; world = w }, none)
  moved old c (w, some fd) =
      (record { comms = record c { connection_fd = some fd }; world = k.close w old }, some tt)

  abbrev pub move_from : Fd → Op W (Unit {0})
  move_from none p = refuse p
  move_from (some fd) p = moved (some fd) p.comms (k.dup p.world (some fd))

  -- MoveToAnotherFd; `none` is where a SAPI_RAW_CHECK ends the process.
  unfoldable pub move_to_another_fd : Op W (Unit {0})
  move_to_another_fd p = move_from p.comms.connection_fd p

  -- RecvCreds
  unfoldable pub recv_creds : Op W Ucred
  recv_creds p = (p, k.peer_creds p.world p.comms.connection_fd)
