-- ===== src/Comms/Reach.antt =====
-- sandboxed_api/sandbox2/comms.{h,cc}: the states that a channel can get into, on any kernel.
use googlectf2023_fastbox.Prelude.{
  ℕ, ◌≡◌, refl, sym, ap, ◌∙◌, inl, inr, Bool, true, false, Option, none, some, if◌then◌else◌,
}
use mathlib.Core.Path.{subst}
use googlectf2023_fastbox.Text.{Bytes}
use googlectf2023_fastbox.Comms.Kernel.{Fd, Kernel, Comms, Endpoint, succeed}
use googlectf2023_fastbox.Comms.Connection.{
  is_connected, is_connected_state, terminate, create_sockaddr_un, listen, accept, connect,
  move_to_another_fd, listen_socket, listen_bound, listen_end, accept_end, connect_socket,
  connect_end, moved, move_from,
}
use googlectf2023_fastbox.Comms.Transfer.{in_world}
use googlectf2023_fastbox.Comms.Tlv.{send_tlv, recv_tlv, recv_int}
use googlectf2023_fastbox.Comms.Messages.{send_proto_buf, recv_proto_buf}
use googlectf2023_fastbox.Comms.Descriptors.{recv_fd, send_fd}
use googlectf2023_fastbox.Comms.Effects.{closed, Stays, Stays-trans, terminate-closed}
use googlectf2023_fastbox.Comms.Operations.{
  send_tlv-Ok, recv_tlv-Ok, recv_int-Ok, send_fd-Ok, recv_fd-Stays, send_proto_buf-Ok,
  recv_proto_buf-Stays,
}

has_fd : Fd → Bool
has_fd none = false
has_fd (some fd) = true

-- There is a connection's descriptor in the state kConnected and in no other.
unfoldable pub IsWell : Comms → Type 0
unfolding has_fd
IsWell c = is_connected_state c.state ≡ has_fd c.connection_fd

module _ {W M : Type 0} (k : Kernel W) (serialize : M → Option Bytes)
    (parse : Bytes → Option M) where
  -- One transfer, or what other processes do to the world meanwhile. The typed calls are sends and
  -- receptions of these kinds.
  pub data Transfer : Endpoint W → Endpoint W → Type 0 where
    sends : (tag : ℕ) (value : Bytes) (p : Endpoint W) → Transfer p (send_tlv k tag value p).0
    receives : (p : Endpoint W) → Transfer p (recv_tlv k p).0
    receives_int : (len tag : ℕ) (p : Endpoint W) → Transfer p (recv_int k len tag p).0
    sends_fd : (fd : ℕ) (p : Endpoint W) → Transfer p (send_fd k fd p).0
    receives_fd : (fuel : ℕ) (p : Endpoint W) → Transfer p (recv_fd k fuel p).0
    sends_proto : (m : M) (p : Endpoint W) → Transfer p (send_proto_buf k serialize parse m p).0
    receives_proto : (p : Endpoint W) → Transfer p (recv_proto_buf k serialize parse p).0
    terminates : (p : Endpoint W) → Transfer p (terminate k p)
    elsewhere : (w : W) (p : Endpoint W) → Transfer p (in_world p w)

  -- Any call.
  pub data Step : Endpoint W → Endpoint W → Type 0 where
    transfers : {p q : Endpoint W} → Transfer p q → Step p q
    listens : (p : Endpoint W) → Step p (listen k p).0
    accepts : (p : Endpoint W) → Step p (accept k p).0
    connects : (p : Endpoint W) → Step p (connect k p).0
    moves : (p : Endpoint W) → Step p (move_to_another_fd k p).0

  pub data Star (R : Endpoint W → Endpoint W → Type 0) : Endpoint W → Endpoint W → Type 0 where
    here : {p : Endpoint W} → Star R p p
    after : {p q r : Endpoint W} → R p q → Star R q r → Star R p r

  one-Stays : {p q : Endpoint W} → Transfer p q → Stays p.comms q.comms
  one-Stays (sends tag value p) = (send_tlv-Ok k tag value p).stays
  one-Stays (receives p) = (recv_tlv-Ok k p).stays
  one-Stays (receives_int len tag p) = (recv_int-Ok k len tag p).stays
  one-Stays (sends_fd fd p) = (send_fd-Ok k fd p).stays
  one-Stays (receives_fd fuel p) = recv_fd-Stays k fuel p
  one-Stays (sends_proto m p) = (send_proto_buf-Ok k serialize parse m p).stays
  one-Stays (receives_proto p) = recv_proto_buf-Stays k serialize parse p
  one-Stays (terminates p) = inr (terminate-closed k p)
  one-Stays (elsewhere w p) = inl refl

  -- Whatever the kernel answers, after any sequence of transfers, failing ones included, the
  -- object has the fields that it had before, or those of that object after `Terminate`.
  pub transfers-Stays : {p q : Endpoint W} → Star Transfer p q → Stays p.comms q.comms
  transfers-Stays here = inl refl
  transfers-Stays (after t ts) = Stays-trans (one-Stays t) (transfers-Stays ts)

  kept-IsWell : {c c' : Comms} → IsWell c → Stays c c' → IsWell c'
  unfolding IsWell closed
  kept-IsWell h (inl e) = subst IsWell (sym e) h
  kept-IsWell h (inr e) = subst IsWell (sym e) refl

  listen_end-IsWell :
      (fd : Fd) (c : Comms) (r : W × Bool) → IsWell c → IsWell (listen_end k fd c r).0.comms
  unfolding IsWell
  listen_end-IsWell fd c (w, true) h = h
  listen_end-IsWell fd c (w, false) h = h

  listen_bound-IsWell :
      (fd : Fd) (c : Comms) (r : W × Bool) → IsWell c → IsWell (listen_bound k fd c r).0.comms
  unfolding IsWell
  listen_bound-IsWell fd c (w, true) h = listen_end-IsWell fd c (k.listen w fd) h
  listen_bound-IsWell fd c (w, false) h = h

  listen_socket-IsWell : (c : Comms) (r : W × Fd) → IsWell c → IsWell (listen_socket k c r).0.comms
  unfolding IsWell
  listen_socket-IsWell c (w, none) h = h
  listen_socket-IsWell c (w, some fd) h =
      listen_bound-IsWell (some fd) c (k.bind w (some fd) (create_sockaddr_un c)) h

  -- Each of the three calls that open a channel does nothing where it is open.
  unless_connected-IsWell :
      (p : Endpoint W) (r : Endpoint W × Option (Unit {0}))
      → IsWell p.comms
      → (is_connected p.comms ≡ false → IsWell r.0.comms)
      → IsWell (if is_connected p.comms then succeed tt p else r).0.comms
  unless_connected-IsWell p r h g = by_test (is_connected p.comms) g
    where
      by_test :
          (b : Bool)
          → (b ≡ false → IsWell r.0.comms)
          → IsWell (if b then succeed tt p else r).0.comms
      by_test true g = h
      by_test false g = g refl

  accept_end-IsWell :
      (c : Comms) (r : W × Fd) → is_connected c ≡ false → IsWell (accept_end k c r).0.comms
  unfolding IsWell is_connected
  accept_end-IsWell c (w, none) h = h
  accept_end-IsWell c (w, some fd) h = refl

  connect_end-IsWell :
      (fd : ℕ) (c : Comms) (r : W × Bool)
      → is_connected c ≡ false
      → IsWell (connect_end k (some fd) c r).0.comms
  unfolding IsWell is_connected
  connect_end-IsWell fd c (w, true) h = refl
  connect_end-IsWell fd c (w, false) h = h

  connect_socket-IsWell :
      (c : Comms) (r : W × Fd) → is_connected c ≡ false → IsWell (connect_socket k c r).0.comms
  unfolding IsWell is_connected
  connect_socket-IsWell c (w, none) h = h
  connect_socket-IsWell c (w, some fd) h =
      connect_end-IsWell fd c (k.connect w (some fd) (create_sockaddr_un c)) h

  moved-IsWell :
      (old : ℕ) (c : Comms) (r : W × Fd)
      → c.connection_fd ≡ some old
      → IsWell c
      → IsWell (moved k (some old) c r).0.comms
  unfolding IsWell
  moved-IsWell old c (w, none) e h = h
  moved-IsWell old c (w, some fd) e h = h ∙ ap has_fd e

  move_from-IsWell :
      (fd : Fd) (p : Endpoint W)
      → p.comms.connection_fd ≡ fd
      → IsWell p.comms
      → IsWell (move_from k fd p).0.comms
  move_from-IsWell none p e h = h
  move_from-IsWell (some fd) p e h = moved-IsWell fd p.comms (k.dup p.world (some fd)) e h

  one-IsWell : {p q : Endpoint W} → Step p q → IsWell p.comms → IsWell q.comms
  unfolding listen accept connect move_to_another_fd
  one-IsWell (transfers t) h = kept-IsWell h (one-Stays t)
  one-IsWell (listens p) h =
      unless_connected-IsWell p (listen_socket k p.comms (k.socket p.world)) h
        (λ e. listen_socket-IsWell p.comms (k.socket p.world) h)
  one-IsWell (accepts p) h =
      unless_connected-IsWell p (accept_end k p.comms (k.accept p.world p.comms.bind_fd)) h
        (λ e. accept_end-IsWell p.comms (k.accept p.world p.comms.bind_fd) e)
  one-IsWell (connects p) h =
      unless_connected-IsWell p (connect_socket k p.comms (k.socket p.world)) h
        (λ e. connect_socket-IsWell p.comms (k.socket p.world) e)
  one-IsWell (moves p) h = move_from-IsWell p.comms.connection_fd p refl h

  -- Whatever the kernel answers, from an object with a descriptor for its connection just when
  -- its state is kConnected, any sequence of calls leads to such objects only.
  pub steps-IsWell : {p q : Endpoint W} → Star Step p q → IsWell p.comms → IsWell q.comms
  steps-IsWell here h = h
  steps-IsWell (after s ss) h = steps-IsWell ss (one-IsWell s h)
