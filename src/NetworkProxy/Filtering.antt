-- ===== src/NetworkProxy/Filtering.antt =====
-- sandboxed_api/sandbox2/network_proxy/filtering.{h,cc}: the hosts that a sandboxee may connect to.
pub mod Masks
pub mod Bits
pub mod Prefix
pub mod Dotted
pub mod Networks
pub mod Allow
use googlectf2023_fastbox.Prelude.{
  ℕ, zero, suc, ◌+◌, ◌-◌, ◌*◌, ◌/◌, ◌%◌, ◌^◌, Bool, true, false, not, ◌&&◌, ◌||◌, List, [], ◌∷◌,
  ◌++◌, Option, none, some, ◌==◌, ltb, leb, if◌then◌else◌, bit_and, replicate,
}
use googlectf2023_fastbox.Text.{Bytes, empty, str_contains}
use googlectf2023_fastbox.Status.{
  Status, StatusCode, ok_status, error, invalid_argument, StatusOr, value, status,
}

-- Addresses, masks and ports in network byte order, as the code keeps them.
pub record IPv4 : Type 0 where
  pub ip : ℕ
  pub mask : ℕ
  pub port : ℕ

-- An in6_addr is its 16 bytes.
pub record IPv6 : Type 0 where
  pub ip : List ℕ
  pub mask : List ℕ
  pub port : ℕ

pub record AllowedHosts : Type 0 where
  pub allowed_ipv4 : List IPv4
  pub allowed_ipv6 : List IPv6

abbrev pub no_hosts : AllowedHosts
no_hosts = record { allowed_ipv4 = []; allowed_ipv6 = [] }

-- What the code calls and the repository does not hold: inet_pton(3), by address family, and
-- absl::SimpleAtoi<uint32_t>. `status` of an inet_pton is the code of its error.
pub record NetLib : Type 0 where
  pub inet_pton4 : Bytes → StatusOr ℕ
  pub inet_pton6 : Bytes → StatusOr (List ℕ)
  pub simple_atoi : Bytes → Option ℕ

-- htonl and htons of a little-endian host; ntohl is htonl.
unfoldable pub htonl : ℕ → ℕ
htonl n =
    n % 0x100 * 0x100_0000
    + n / 0x100 % 0x100 * 0x1_0000
    + n / 0x1_0000 % 0x100 * 0x100
    + n / 0x100_0000 % 0x100

unfoldable pub htons : ℕ → ℕ
htons n = n % 0x100 * 0x100 + n / 0x100 % 0x100

-- The string before the first '/', and the one behind it if there is one.
abbrev pub split_mask : Bytes → Bytes × Option Bytes
split_mask [] = ([], none)
split_mask (c ∷ s) =
    let (ip, mask) = split_mask s in if c == b'/' then ([], some s) else (c ∷ ip, mask)

-- What `ParseIpAndMask` stores; an empty `mask` is none.
pub record IpAndMask : Type 0 where
  pub ip : Bytes
  pub mask : Bytes
  pub cidr : ℕ

abbrev parsed_cidr : Bytes → Option ℕ → StatusOr IpAndMask
parsed_cidr ip none = status invalid_argument
parsed_cidr ip (some cidr) =
    if cidr == 0
    then status invalid_argument
    else value (record { ip = ip; mask = []; cidr = cidr })

-- The flag tells that `mask` is not a null pointer.
abbrev parse_mask : NetLib → Bool → Bytes → Option Bytes → StatusOr IpAndMask
parse_mask lib takes_mask ip none = value (record { ip = ip; mask = []; cidr = 0 })
parse_mask lib takes_mask ip (some mask_or_cidr) =
    if not (str_contains mask_or_cidr b'.')
    then parsed_cidr ip (lib.simple_atoi mask_or_cidr)
    else if not takes_mask
    then status invalid_argument
    else value (record { ip = ip; mask = mask_or_cidr; cidr = 0 })

unfoldable pub parse_ip_and_mask : NetLib → Bool → Bytes → StatusOr IpAndMask
parse_ip_and_mask lib takes_mask ip_and_mask =
    let (ip, mask) = split_mask ip_and_mask in parse_mask lib takes_mask ip mask

-- `while (cidr--) { tmp >>= 1; tmp |= bit; }`: the bit is clear after the shift.
unfoldable pub shift_in : ℕ → ℕ → ℕ → ℕ
shift_in bit zero tmp = tmp
shift_in bit (suc cidr) tmp = shift_in bit cidr (tmp / 2 + bit)

unfoldable pub cidr_to_in_addr : ℕ → StatusOr ℕ
unfolding shift_in htonl
cidr_to_in_addr cidr =
    if ltb 32 cidr then status invalid_argument else value (htonl (shift_in 0x8000_0000 cidr 0))

-- The bytes that `CidrToIn6Addr` writes, and the zeros behind them. The recursion is on the bytes
-- left.
unfoldable pub fill_mask : ℕ → ℕ → List ℕ
unfolding shift_in
fill_mask zero cidr = []
fill_mask (suc left) cidr =
    let more = 0xff ∷ fill_mask left (cidr - 8) in
    if leb 8 cidr then more else shift_in 0x80 cidr 0 ∷ replicate left 0

unfoldable pub cidr_to_in6_addr : ℕ → StatusOr (List ℕ)
unfolding fill_mask
cidr_to_in6_addr cidr = if ltb 128 cidr then status invalid_argument else value (fill_mask 16 cidr)

-- `~m + 1` and `m - 1` of 32-bit words.
unfoldable pub is_ipv4_mask_correct : ℕ → Bool
unfolding htonl
is_ipv4_mask_correct mask =
    let m = htonl mask in
    let n = (2 ^ 32 - 1 - m + 1) % 2 ^ 32 in
    if m == 0 then false else bit_and n ((n + 2 ^ 32 - 1) % 2 ^ 32) == 0

infixl 10 ◌>>=◌
abbrev ◌>>=◌ : {A B : Type 0} → StatusOr A → (A → StatusOr B) → StatusOr B
value a >>= f = f a
status code >>= f = status code

-- The mask that is written out, or that of the prefix length; a length of 0 stands for 32.
unfoldable pub ipv4_mask : NetLib → Bytes → ℕ → StatusOr ℕ
unfolding is_ipv4_mask_correct cidr_to_in_addr
ipv4_mask lib mask cidr =
    if not (empty mask)
    then (do
      m ← lib.inet_pton4 mask
      if is_ipv4_mask_correct m then value m else status invalid_argument)
    else if ltb 32 cidr
    then status invalid_argument
    else cidr_to_in_addr (if cidr == 0 then 32 else cidr)

abbrev pub add4 : AllowedHosts → StatusOr IPv4 → AllowedHosts × Status
add4 hosts (value entry) =
    (record hosts { allowed_ipv4 = hosts.allowed_ipv4 ++ entry ∷ [] }, ok_status)
add4 hosts (status code) = (hosts, error code)

abbrev add6 : AllowedHosts → StatusOr IPv6 → AllowedHosts × Status
add6 hosts (value entry) =
    (record hosts { allowed_ipv6 = hosts.allowed_ipv6 ++ entry ∷ [] }, ok_status)
add6 hosts (status code) = (hosts, error code)

-- The entry that `AllowIPv4` adds, or its error.
unfoldable pub ipv4_entry : NetLib → Bytes → ℕ → StatusOr IPv4
unfolding parse_ip_and_mask ipv4_mask htons
ipv4_entry lib ip_and_mask port = do
  parsed ← parse_ip_and_mask lib true ip_and_mask
  m ← ipv4_mask lib parsed.mask parsed.cidr
  addr ← lib.inet_pton4 parsed.ip
  value (record { ip = addr; mask = m; port = htons port })

unfoldable pub allow_ipv4 : NetLib → Bytes → ℕ → AllowedHosts → AllowedHosts × Status
unfolding ipv4_entry
allow_ipv4 lib ip_and_mask port hosts = add4 hosts (ipv4_entry lib ip_and_mask port)

unfoldable pub allow_ipv6 : NetLib → Bytes → ℕ → AllowedHosts → AllowedHosts × Status
unfolding parse_ip_and_mask cidr_to_in6_addr htons
allow_ipv6 lib ip_and_mask port hosts = add6 hosts (do
  parsed ← parse_ip_and_mask lib false ip_and_mask
  addr ← lib.inet_pton6 parsed.ip
  m ← cidr_to_in6_addr (if parsed.cidr == 0 then 128 else parsed.cidr)
  value (record { ip = addr; mask = m; port = htons port }))

-- The socket address that `IsHostAllowed` is given, by its family. On any other the code aborts.
pub data SockAddr : Type 0 where
  sockaddr_in : ℕ → ℕ → SockAddr
  sockaddr_in6 : List ℕ → ℕ → SockAddr
  other_family : SockAddr

abbrev port_matches : ℕ → ℕ → Bool
port_matches entry_port port = entry_port == 0 || entry_port == port

unfoldable pub ipv4_matches : ℕ → ℕ → IPv4 → Bool
ipv4_matches addr port entry =
    (bit_and entry.ip entry.mask == bit_and addr entry.mask) && port_matches entry.port port

-- The bytes of the entry, of its mask and of the address, in step.
unfoldable pub masked_eq : List ℕ → List ℕ → List ℕ → Bool
masked_eq (i ∷ ip) (m ∷ mask) (a ∷ addr) = (bit_and i m == bit_and a m) && masked_eq ip mask addr
masked_eq _ _ _ = true

unfoldable pub ipv6_matches : List ℕ → ℕ → IPv6 → Bool
unfolding masked_eq
ipv6_matches addr port entry = masked_eq entry.ip entry.mask addr && port_matches entry.port port

unfoldable pub any_ipv4 : ℕ → ℕ → List IPv4 → Bool
unfolding ipv4_matches
any_ipv4 addr port [] = false
any_ipv4 addr port (entry ∷ entries) = ipv4_matches addr port entry || any_ipv4 addr port entries

unfoldable pub any_ipv6 : List ℕ → ℕ → List IPv6 → Bool
unfolding ipv6_matches
any_ipv6 addr port [] = false
any_ipv6 addr port (entry ∷ entries) = ipv6_matches addr port entry || any_ipv6 addr port entries

-- `none` is LOG(FATAL).
unfoldable pub is_host_allowed : SockAddr → AllowedHosts → Option Bool
unfolding any_ipv4 any_ipv6
is_host_allowed (sockaddr_in addr port) hosts = some (any_ipv4 addr port hosts.allowed_ipv4)
is_host_allowed (sockaddr_in6 addr port) hosts = some (any_ipv6 addr port hosts.allowed_ipv6)
is_host_allowed other_family hosts = none
