-- ===== src/Comms/Kernel.antt =====
-- The system calls that sandboxed_api/sandbox2/comms.cc makes, as a parameter, and the fields of
-- `Comms`. A world is whatever the system keeps between two calls.
use googlectf2023_fastbox.Prelude.{ℕ, Bool, not, ◌&&◌, List, Option, none, some, ◌==◌}
use googlectf2023_fastbox.Text.{Bytes}

-- A descriptor; -1, which the code keeps where it has none, is `none`.
abbrev pub Fd : Type 0
Fd = Option ℕ

-- What a call returns: a result, or -1 with the errno.
pub data CallResult (A : Type 0) : Type 0 where
  done : A → CallResult A
  failed : ℕ → CallResult A

-- struct sockaddr_un, with the length that is passed along with it.
pub record SockaddrUn : Type 0 where
  pub sun_path : Bytes
  pub slen : ℕ

-- struct ucred
pub record Ucred : Type 0 where
  pub pid : ℕ
  pub uid : ℕ
  pub gid : ℕ

-- struct cmsghdr with the descriptor that it carries.
pub record Cmsghdr : Type 0 where
  pub cmsg_len : ℕ
  pub cmsg_level : ℕ
  pub cmsg_type : ℕ
  pub fds : ℕ

-- What recvmsg fills in: the bytes and the control messages.
pub record Msghdr : Type 0 where
  pub iov : Bytes
  pub control : List Cmsghdr

-- The calls, where TEMP_FAILURE_RETRY stands round one with the retries in it. A read returns the
-- bytes that it read, a write how many it took.
pub record Kernel (W : Type 0) : Type 0 where
  pub write : W → Fd → Bytes → W × CallResult ℕ
  pub read : W → Fd → ℕ → W × CallResult Bytes
  pub close : W → Fd → W
  pub socket : W → W × Fd
  pub bind : W → Fd → SockaddrUn → W × Bool
  pub listen : W → Fd → W × Bool
  pub accept : W → Fd → W × Fd
  pub connect : W → Fd → SockaddrUn → W × Bool
  pub dup : W → Fd → W × Fd
  pub peer_creds : W → Fd → Option Ucred
  pub sendmsg : W → Fd → Msghdr → W × CallResult ℕ
  pub recvmsg : W → Fd → W × CallResult Msghdr

-- errno values of the x86-64 headers
abbrev pub eintr : ℕ
eintr = 4

abbrev pub eagain : ℕ
eagain = 11

abbrev pub ewouldblock : ℕ
ewouldblock = 11

abbrev pub enomem : ℕ
enomem = 12

abbrev pub efault : ℕ
efault = 14

abbrev pub einval : ℕ
einval = 22

abbrev pub epipe : ℕ
epipe = 32

-- IsFatalError
unfoldable pub is_fatal_error : ℕ → Bool
is_fatal_error saved_errno =
    not (saved_errno == eagain)
    && not (saved_errno == ewouldblock)
    && not (saved_errno == efault)
    && not (saved_errno == eintr)
    && not (saved_errno == einval)
    && not (saved_errno == enomem)

pub data State : Type 0 where
  unconnected connected terminated : State

pub record Comms : Type 0 where
  pub socket_name : Bytes
  pub abstract_uds : Bool
  pub connection_fd : Fd
  pub bind_fd : Fd
  pub state : State

-- One end of a channel: the object and the world in which it makes its calls.
pub record Endpoint (W : Type 0) : Type 0 where
  pub comms : Comms
  pub world : W

-- A member function: `none` is its `false`, and `some` its `true` with what it has written through
-- its pointers. What it writes there before it returns false is left out.
abbrev pub Op : Type 0 → Type 0 → Type 0
Op W A = Endpoint W → Endpoint W × Option A

abbrev pub and_then :
    {W A B : Type 0} → (A → Op W B) → Endpoint W × Option A → Endpoint W × Option B
and_then f (p, none) = (p, none)
and_then f (p, some a) = f a p

infixl 5 ◌>>=◌ ◌>>◌
abbrev pub ◌>>=◌ : {W A B : Type 0} → Op W A → (A → Op W B) → Op W B
◌>>=◌ m f p = and_then f (m p)

abbrev pub ◌>>◌ : {W A B : Type 0} → Op W A → Op W B → Op W B
m >> n = m >>= (λ _. n)

abbrev pub succeed : {W A : Type 0} → A → Op W A
succeed a p = (p, some a)

abbrev pub refuse : {W A : Type 0} → Op W A
refuse p = (p, none)
