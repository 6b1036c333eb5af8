-- ===== src/Tests/Parts.antt =====
-- Mounts and the filter of the network proxy at small inputs.
use googlectf2023_fastbox.Prelude.{
  ℕ, ◌-◌, ◌^◌, ◌≡◌, ◌≢◌, refl, true, false, List, [], ◌∷◌, none, some, arith, if◌then◌else◌, length,
  replicate, map,
}
use googlectf2023_fastbox.Text.{Bytes, codes, bytes_eq}
use googlectf2023_fastbox.Status.{ok_status, value, status, invalid_argument}
use googlectf2023_fastbox.FilePath.{
  clean_path, clean_parts, clean_part, clean_result, is_absolute_path,
}
use googlectf2023_fastbox.FilePath.Clean.{clean_path_idem}
use googlectf2023_fastbox.Mounts.{
  Node, file_node, dir_node, Mounts, new_mounts, Stat, insert, insert_at, set_node, check_node,
  components,
}
use googlectf2023_fastbox.Mounts.Tree.{lookup}
use googlectf2023_fastbox.Mounts.Insert.{Holds}
use googlectf2023_fastbox.Mounts.Calls.{
  IsWell, insert-Holds, insert-keeps, insert-IsWell, new_mounts-IsWell,
}
use googlectf2023_fastbox.PolicyBuilder.State.{PolicyBuilder, new_builder}
use googlectf2023_fastbox.PolicyBuilder.Build.{Policy, try_build}
use googlectf2023_fastbox.PolicyBuilder.FileMounts
use googlectf2023_fastbox.PolicyBuilder.FileMounts.Refused.{may_mount, add_file_at-refused}
use googlectf2023_fastbox.Tests.Policies.{host, emptied}
use googlectf2023_fastbox.NetworkProxy.Filtering.{
  NetLib, no_hosts, htonl, htons, cidr_to_in_addr, cidr_to_in6_addr, is_ipv4_mask_correct,
  ipv4_mask, parse_ip_and_mask, shift_in, ipv4_entry, ipv4_matches, allow_ipv4, is_host_allowed,
  sockaddr_in, any_ipv4,
}
use googlectf2023_fastbox.NetworkProxy.Filtering.Masks.{
  leading, big_endian, are_bytes, cidr_to_in_addr-leading, cidr_to_in6_addr-leading,
}

abbrev no_files : Stat
no_files path = none

abbrev libc : Bytes
libc = codes "/lib/../lib/libc.so"

abbrev libc_node : Node
libc_node = file_node libc false

libc_ok : (insert no_files libc libc_node new_mounts).1 ≡ ok_status
unfolding insert check_node insert_at set_node clean_path clean_parts clean_part clean_result
    is_absolute_path
libc_ok = refl

insert-Holds_example :
    Holds no_files libc_node (
      lookup
        (components (clean_path libc))
        (insert no_files libc libc_node new_mounts).0.mount_tree)
insert-Holds_example = insert-Holds no_files libc libc_node new_mounts libc_ok

abbrev with_libc : Mounts
with_libc = (insert no_files libc libc_node new_mounts).0

abbrev libc_parts : List Bytes
libc_parts = codes "lib" ∷ codes "libc.so" ∷ []

with_libc_holds : lookup libc_parts with_libc.mount_tree ≡ some libc_node
unfolding insert check_node insert_at set_node clean_path clean_parts clean_part clean_result
    is_absolute_path
with_libc_holds = refl

-- A directory below the file is refused, and the file is still there.
insert-keeps_example :
    lookup libc_parts
      (insert no_files
        (codes "/lib/libc.so/x")
        (dir_node (codes "/x") false)
        with_libc).0.mount_tree
    ≡ some libc_node
insert-keeps_example =
    insert-keeps no_files (codes "/lib/libc.so/x") (dir_node (codes "/x") false) with_libc
      libc_parts libc_node with_libc_holds

insert-IsWell_example : IsWell (insert no_files libc libc_node new_mounts).0
insert-IsWell_example = insert-IsWell no_files libc libc_node new_mounts new_mounts-IsWell

cidr_to_in_addr-leading_example :
    (m : ℕ) × (cidr_to_in_addr 24 ≡ value m)
    × (htonl m ≡ leading 24)
    × (is_ipv4_mask_correct m ≡ true)
cidr_to_in_addr-leading_example = cidr_to_in_addr-leading 24 (omega arith) (omega arith)

cidr_to_in6_addr-leading_example :
    (m : List ℕ) × (cidr_to_in6_addr 61 ≡ value m)
    × (length m ≡ 16)
    × (are_bytes m ≡ true)
    × (big_endian 0 m ≡ 2 ^ 128 - 2 ^ (128 - 61))
cidr_to_in6_addr-leading_example = cidr_to_in6_addr-leading 61 (omega arith)

-- 2001:db8::
abbrev documented : List ℕ
documented = 0x20 ∷ 0x01 ∷ 0x0d ∷ 0xb8 ∷ replicate 12 0

-- A library that reads one address of each family and two numbers.
abbrev one_net : NetLib
one_net = record {
  inet_pton4 = λ s.
      if bytes_eq s (codes "10.0.0.0")
      then value 10
      else if bytes_eq s (codes "255.240.0.0")
      then value 0xf0ff
      else status invalid_argument;
  inet_pton6 =
      λ s. if bytes_eq s (codes "2001:db8::") then value documented else status invalid_argument;
  simple_atoi = λ s.
      if bytes_eq s (codes "12")
      then some 12
      else if bytes_eq s (codes "33")
      then some 33
      else none;
}

-- 10.15.1.1 is in 10.0.0.0/12, 10.16.1.1 is not, and another port is not.
tried_hosts :
    map
      (λ a. is_host_allowed a (allow_ipv4 one_net (codes "10.0.0.0/12") 80 no_hosts).0)
      (sockaddr_in 0x0101_0f0a 20480
        ∷ sockaddr_in 0x0101_100a 20480
        ∷ sockaddr_in 0x0101_0f0a 80
        ∷ [])
    ≡ some true ∷ some false ∷ some false ∷ []
unfolding allow_ipv4 ipv4_entry parse_ip_and_mask ipv4_mask cidr_to_in_addr shift_in htonl htons
    is_host_allowed any_ipv4 ipv4_matches
tried_hosts = refl

-- 2001:db8:7fff::
abbrev inside : List ℕ
inside = 0x20 ∷ 0x01 ∷ 0x0d ∷ 0xb8 ∷ 0x7f ∷ 0xff ∷ replicate 10 0

is_absolute : is_absolute_path (codes "/a/../b//./c") ≡ true
unfolding is_absolute_path
is_absolute = refl

clean_path_idem_example :
    clean_path (clean_path (codes "/a/../b//./c")) ≡ clean_path (codes "/a/../b//./c")
clean_path_idem_example = clean_path_idem (codes "/a/../b//./c") is_absolute

mem_refused : may_mount host.files (codes "/proc/self/mem") true ≡ false
unfolding is_absolute_path clean_path clean_parts clean_part clean_result
mem_refused = refl

-- A builder is not given /proc/self/mem.
add_file_at-refused_example :
    (c : PolicyBuilder) × (FileMounts.add_file_at host.files
        (codes "/proc/self/mem")
        (codes "/mem")
        true
        new_builder
      ≡ some c)
    × (c.mounts ≡ new_mounts)
    × ((p : Policy) (c' : PolicyBuilder) → try_build emptied c ≢ (value p, c'))
add_file_at-refused_example =
    add_file_at-refused host.files (codes "/proc/self/mem") (codes "/mem") true emptied new_builder
      refl mem_refused
