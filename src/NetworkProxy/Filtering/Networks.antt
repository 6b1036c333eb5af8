-- ===== src/NetworkProxy/Filtering/Networks.antt =====
-- The networks that sandboxed_api/sandbox2/network_proxy/filtering.cc allows, and the entries and masks
-- that stand for them.
use googlectf2023_fastbox.Prelude.{
  ℕ, zero, suc, ◌<◌, ◌/◌, ◌≤◌, ◌≡◌, refl, ap, ◌∙◌, Bool, true, false, ◌&&◌, ◌||◌, List, [], ◌∷◌,
  ◌++◌, Option, none, some, arith, ◌==◌, ltb, le→ltb, lt→ltb, length, if◌then◌else◌,
}
use googlectf2023_fastbox.Text.{bytes_eq, bytes_eq_iff}
use googlectf2023_fastbox.Status.{value, status, invalid_argument}
use googlectf2023_fastbox.Comms.Tlv.{le_bytes}
use googlectf2023_fastbox.Comms.Wire.{length-le_bytes}
use googlectf2023_fastbox.PolicyBuilder.Verify.Sound.{&&-left, &&-right}
use googlectf2023_fastbox.NetworkProxy.Filtering.{
  IPv4, IPv6, AllowedHosts, NetLib, SockAddr, sockaddr_in, sockaddr_in6, other_family, ipv4_matches,
  ipv6_matches, masked_eq, ipv4_mask, any_ipv4, any_ipv6, is_host_allowed, htons, htonl, shift_in,
  fill_mask, cidr_to_in_addr, cidr_to_in6_addr, add4, add6,
}
use googlectf2023_fastbox.NetworkProxy.Filtering.Masks.{all_below, all_below-at, are_bytes}
use googlectf2023_fastbox.NetworkProxy.Filtering.Bits.{above, masked_eq-le_bytes}
use googlectf2023_fastbox.NetworkProxy.Filtering.Prefix.{same_prefix, masked_eq-fill_mask}

-- The prefix length that a text asks for; none, or 0, is all bits.
abbrev pub prefix_length : ℕ → ℕ → ℕ
prefix_length bits cidr = if cidr == 0 then bits else cidr

-- A port in network order is the one that is allowed; port 0 allows any.
abbrev pub is_port : ℕ → ℕ → Bool
is_port port q = (htons port == 0) || (htons port == q)

-- The network of an IPv4 address in network order, as it lies in memory: the addresses that agree
-- with it on the first bits.
abbrev pub in_ipv4_network : ℕ → ℕ → ℕ → SockAddr → Bool
in_ipv4_network cidr net port (sockaddr_in addr q) =
    same_prefix cidr (le_bytes 4 net) (le_bytes 4 addr) && is_port port q
in_ipv4_network cidr net port (sockaddr_in6 addr q) = false
in_ipv4_network cidr net port other_family = false

abbrev pub in_ipv6_network : ℕ → List ℕ → ℕ → SockAddr → Bool
in_ipv6_network cidr net port (sockaddr_in addr q) = false
in_ipv6_network cidr net port (sockaddr_in6 addr q) = same_prefix cidr net addr && is_port port q
in_ipv6_network cidr net port other_family = false

-- The answer of `IsHostAllowed` where a network is allowed besides.
abbrev pub or_in : (SockAddr → Bool) → SockAddr → Option Bool → Option Bool
or_in network a none = none
or_in network a (some b) = some (b || network a)

-- The sixteen bytes of an in6_addr.
unfoldable pub IsIn6Addr : List ℕ → Type 0
IsIn6Addr bytes = (length bytes ≡ 16) × (are_bytes bytes ≡ true)

unfoldable pub IsSockAddr : SockAddr → Type 0
IsSockAddr (sockaddr_in addr port) = Unit {0}
IsSockAddr (sockaddr_in6 addr port) = IsIn6Addr addr
IsSockAddr other_family = Unit {0}

any_ipv4-append :
    (addr port : ℕ) (entry : IPv4) (entries : List IPv4)
    → any_ipv4 addr port (entries ++ entry ∷ [])
      ≡ (any_ipv4 addr port entries || ipv4_matches addr port entry)
unfolding any_ipv4
any_ipv4-append addr port entry [] = ground arith
any_ipv4-append addr port entry (e ∷ entries) =
    ground (arith, any_ipv4-append addr port entry entries)

any_ipv6-append :
    (addr : List ℕ) (port : ℕ) (entry : IPv6) (entries : List IPv6)
    → any_ipv6 addr port (entries ++ entry ∷ [])
      ≡ (any_ipv6 addr port entries || ipv6_matches addr port entry)
unfolding any_ipv6
any_ipv6-append addr port entry [] = ground arith
any_ipv6-append addr port entry (e ∷ entries) =
    ground (arith, any_ipv6-append addr port entry entries)

or-false : (b : Bool) → b ≡ (b || false)
or-false true = refl
or-false false = refl

le_bytes-are_bytes : (n v : ℕ) → are_bytes (le_bytes n v) ≡ true
unfolding le_bytes
le_bytes-are_bytes zero v = refl
le_bytes-are_bytes (suc n) v = ground (arith, le_bytes-are_bytes n (v / 256))

-- The mask of a prefix length has the bytes that `CidrToIn6Addr` would write.
abbrev pub mask4 : ℕ → ℕ
mask4 cidr = htonl (shift_in 0x8000_0000 cidr 0)

abbrev mask4_ok : ℕ → Bool
mask4_ok cidr = bytes_eq (le_bytes 4 (mask4 cidr)) (fill_mask 4 cidr) && (above 4 (mask4 cidr) == 0)

masks4_ok : all_below 33 mask4_ok ≡ true
unfolding le_bytes htonl shift_in fill_mask
masks4_ok = refl

ipv4_matches-prefix :
    (cidr net addr port q : ℕ)
    → cidr ≤ 32
    → ipv4_matches addr q (record { ip = net; mask = mask4 cidr; port = htons port })
      ≡ in_ipv4_network cidr net port (sockaddr_in addr q)
unfolding ipv4_matches
ipv4_matches-prefix cidr net addr port q h =
    ap (λ b. b && is_port port q)
      (masked_eq-le_bytes 4 net addr (mask4 cidr) nothing_above
        ∙ ap (λ m. masked_eq (le_bytes 4 net) m (le_bytes 4 addr)) written
        ∙ masked_eq-fill_mask 4 cidr (le_bytes 4 net) (le_bytes 4 addr) (length-le_bytes 4 net)
            (length-le_bytes 4 addr) (le_bytes-are_bytes 4 net) (le_bytes-are_bytes 4 addr))
  where
    ok : mask4_ok cidr ≡ true
    ok = all_below-at 33 mask4_ok cidr masks4_ok (omega arith)

    written : le_bytes 4 (mask4 cidr) ≡ fill_mask 4 cidr
    written = (bytes_eq_iff _ _).0 (&&-left _ (above 4 (mask4 cidr) == 0) ok)

    nothing_above : above 4 (mask4 cidr) ≡ 0
    nothing_above =
        let rest = &&-right (bytes_eq (le_bytes 4 (mask4 cidr)) (fill_mask 4 cidr)) _ ok in
        ground (arith, rest)

pub added4 :
    (cidr net port : ℕ) (hosts : AllowedHosts) (a : SockAddr)
    → cidr ≤ 32
    → is_host_allowed a
        (add4 hosts (value (record { ip = net; mask = mask4 cidr; port = htons port }))).0
      ≡ or_in (in_ipv4_network cidr net port) a (is_host_allowed a hosts)
unfolding is_host_allowed
added4 cidr net port hosts (sockaddr_in addr q) h = ap some (
    any_ipv4-append addr q _ hosts.allowed_ipv4
    ∙ ap (λ b. any_ipv4 addr q hosts.allowed_ipv4 || b)
        (ipv4_matches-prefix cidr net addr port q h))
added4 cidr net port hosts (sockaddr_in6 addr q) h = ap some (or-false _)
added4 cidr net port hosts other_family h = refl

pub added6 :
    (cidr : ℕ) (net : List ℕ) (port : ℕ) (hosts : AllowedHosts) (a : SockAddr)
    → IsIn6Addr net
    → IsSockAddr a
    → is_host_allowed a
        (add6 hosts (value (record { ip = net; mask = fill_mask 16 cidr; port = htons port }))).0
      ≡ or_in (in_ipv6_network cidr net port) a (is_host_allowed a hosts)
unfolding is_host_allowed ipv6_matches IsIn6Addr IsSockAddr
added6 cidr net port hosts (sockaddr_in addr q) hn ha = ap some (or-false _)
added6 cidr net port hosts (sockaddr_in6 addr q) hn ha = ap some (
    any_ipv6-append addr q _ hosts.allowed_ipv6
    ∙ ap (λ b. any_ipv6 addr q hosts.allowed_ipv6 || (b && is_port port q))
        (masked_eq-fill_mask 16 cidr net addr hn.0 ha.0 hn.1 ha.1))
added6 cidr net port hosts other_family hn ha = refl

pub prefix_length-le : (bits cidr : ℕ) → cidr ≤ bits → prefix_length bits cidr ≤ bits
prefix_length-le bits cidr h = ground arith

pub ipv4_mask-cidr :
    (lib : NetLib) (cidr : ℕ)
    → cidr ≤ 32
    → ipv4_mask lib [] cidr ≡ value (mask4 (prefix_length 32 cidr))
unfolding ipv4_mask cidr_to_in_addr
ipv4_mask-cidr lib cidr h =
    ap
      (λ b.
        if b
        then status invalid_argument
        else if ltb 32 (prefix_length 32 cidr)
        then status invalid_argument
        else value (mask4 (prefix_length 32 cidr)))
      (le→ltb 32 cidr h)
    ∙ ap (λ b. if b then status invalid_argument else value (mask4 (prefix_length 32 cidr)))
        (le→ltb 32 (prefix_length 32 cidr) (prefix_length-le 32 cidr h))

pub ipv4_mask-long :
    (lib : NetLib) (cidr : ℕ) → 32 < cidr → ipv4_mask lib [] cidr ≡ status invalid_argument
unfolding ipv4_mask
ipv4_mask-long lib cidr h =
    ap
      (λ b. if b then status invalid_argument else cidr_to_in_addr (if cidr == 0 then 32 else cidr))
      (lt→ltb 32 cidr h)

pub cidr_to_in6_addr-value :
    (cidr : ℕ) → cidr ≤ 128 → cidr_to_in6_addr cidr ≡ value (fill_mask 16 cidr)
unfolding cidr_to_in6_addr
cidr_to_in6_addr-value cidr h =
    ap (λ b. if b then status invalid_argument else value (fill_mask 16 cidr)) (le→ltb 128 cidr h)
