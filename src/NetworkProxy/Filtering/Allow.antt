-- ===== src/NetworkProxy/Filtering/Allow.antt =====
-- Which hosts sandboxed_api/sandbox2/network_proxy/filtering.cc allows after a network is added.
use googlectf2023_fastbox.Prelude.{ℕ, ◌<◌, ◌≢◌, ◌≤◌, ◌≡◌, false, [], Option, none, some}
use googlectf2023_fastbox.Text.{Bytes, empty}
use googlectf2023_fastbox.Status.{Status, error, ok_status, value, invalid_argument}
use googlectf2023_fastbox.NetworkProxy.Filtering.{
  AllowedHosts, NetLib, SockAddr, is_host_allowed, htonl,
}
use googlectf2023_fastbox.NetworkProxy.Filtering.Masks.{leading}
use googlectf2023_fastbox.NetworkProxy.Filtering.Networks.{prefix_length, in_ipv4_network, or_in}

-- The number of leading bits that the second part of a text asks for: a prefix length, or the mask
-- that inet_pton(3) makes of it; none if it is no number or mask of the kind.
pub data AsksFor (lib : NetLib) (cidr : ℕ) : Bytes → Option ℕ → Type 0 where
  by_length : cidr ≤ 32 → AsksFor lib cidr [] (some (prefix_length 32 cidr))
  too_long : 32 < cidr → AsksFor lib cidr [] none
  by_mask :
      {mask : Bytes} {m p : ℕ}
      → empty mask ≡ false
      → lib.inet_pton4 mask ≡ value m
      → 1 ≤ p
      → p ≤ 32
      → htonl m ≡ leading p
      → AsksFor lib cidr mask (some p)
  no_mask :
      {mask : Bytes} {m : ℕ}
      → empty mask ≡ false
      → lib.inet_pton4 mask ≡ value m
      → ((p : ℕ) → 1 ≤ p → p ≤ 32 → htonl m ≢ leading p)
      → AsksFor lib cidr mask none

-- AllowIPv4 has refused a text that asks for no prefix, and changed nothing; or it has succeeded, and
-- IsHostAllowed accepts what it accepted before and the hosts of the network, and no other.
abbrev pub Answers4 : AllowedHosts → ℕ → ℕ → SockAddr → AllowedHosts × Status → Option ℕ → Type 0
Answers4 hosts net port a r none = r ≡ (hosts, error invalid_argument)
Answers4 hosts net port a r (some p) =
    (r.1 ≡ ok_status)
    × (is_host_allowed a r.0 ≡ or_in (in_ipv4_network p net port) a (is_host_allowed a hosts))
