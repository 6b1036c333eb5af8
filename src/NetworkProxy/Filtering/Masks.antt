-- ===== src/NetworkProxy/Filtering/Masks.antt =====
-- The masks of sandboxed_api/sandbox2/network_proxy/filtering.cc, for every prefix length.
use googlectf2023_fastbox.Prelude.{
  ℕ, zero, suc, ◌+◌, ◌-◌, ◌*◌, ◌^◌, ◌≤◌, ◌<◌, ◌≡◌, refl, ◌⊎◌, inl, inr, Bool, true, ◌&&◌, List, [],
  ◌∷◌, arith, ◌==◌, ==_iff, ltb, length,
}
use mathlib.Core.Path.{subst}
use googlectf2023_fastbox.Status.{value}
use googlectf2023_fastbox.NetworkProxy.Filtering.{
  htonl, shift_in, cidr_to_in_addr, fill_mask, cidr_to_in6_addr, is_ipv4_mask_correct,
}
use googlectf2023_fastbox.PolicyBuilder.Verify.Sound.{&&-left, &&-right}

-- A test that holds below a bound, tried at each number.
abbrev pub all_below : ℕ → (ℕ → Bool) → Bool
all_below zero f = true
all_below (suc n) f = f n && all_below n f

pub all_below-at : (n : ℕ) (f : ℕ → Bool) (i : ℕ) → all_below n f ≡ true → i < n → f i ≡ true
all_below-at zero f i h lt = absurd (omega arith)
all_below-at (suc n) f i h lt = elim (last_or i n (omega arith)) [
  | inl e ↦ rw e (&&-left (f n) (all_below n f) h)
  | inr lt' ↦ all_below-at n f i (&&-right (f n) (all_below n f) h) lt'
]
  where
    last_or : (i n : ℕ) → i ≤ n → (i ≡ n) ⊎ (i < n)
    last_or i n le = ground arith

-- The first `cidr` of 32 bits.
abbrev pub leading : ℕ → ℕ
leading cidr = 2 ^ 32 - 2 ^ (32 - cidr)

abbrev masks_ok : ℕ → Bool
masks_ok n =
    (htonl (htonl (shift_in 0x8000_0000 (n + 1) 0)) == leading (n + 1))
    && is_ipv4_mask_correct (htonl (shift_in 0x8000_0000 (n + 1) 0))

masks_ok-32 : all_below 32 masks_ok ≡ true
unfolding htonl shift_in is_ipv4_mask_correct
masks_ok-32 = refl

pub at_one_less :
    (cidr : ℕ)
    → 1 ≤ cidr
    → cidr ≤ 32
    → (htonl (htonl (shift_in 0x8000_0000 cidr 0)) ≡ leading cidr)
      × (is_ipv4_mask_correct (htonl (shift_in 0x8000_0000 cidr 0)) ≡ true)
at_one_less zero one le = absurd (omega arith)
at_one_less (suc n) one le =
    let at : masks_ok n ≡ true = all_below-at 32 masks_ok n masks_ok-32 (omega arith) in
    let next : n + 1 ≡ suc n = omega arith in
    subst
      (λ c.
        (htonl (htonl (shift_in 0x8000_0000 c 0)) ≡ leading c)
        × (is_ipv4_mask_correct (htonl (shift_in 0x8000_0000 c 0)) ≡ true))
      next
      (
        (==_iff _ _).0 (&&-left _ _ at),
        &&-right (htonl (htonl (shift_in 0x8000_0000 (n + 1) 0)) == leading (n + 1)) _ at,
      )

-- For a prefix length from 1 to 32, CidrToInAddr makes the mask that has that many leading bits in host
-- order, and IsIPv4MaskCorrect accepts it.
pub cidr_to_in_addr-leading :
    (cidr : ℕ)
    → 1 ≤ cidr
    → cidr ≤ 32
    → (m : ℕ) × (cidr_to_in_addr cidr ≡ value m)
      × (htonl m ≡ leading cidr)
      × (is_ipv4_mask_correct m ≡ true)
unfolding cidr_to_in_addr
cidr_to_in_addr-leading cidr one le =
    let (leads, correct) = at_one_less cidr one le in
    (htonl (shift_in 0x8000_0000 cidr 0), ground arith, leads, correct)

-- The number whose bytes these are, the highest first.
abbrev pub big_endian : ℕ → List ℕ → ℕ
big_endian high [] = high
big_endian high (x ∷ xs) = big_endian (high * 256 + x) xs

-- Each is a byte.
abbrev pub are_bytes : List ℕ → Bool
are_bytes [] = true
are_bytes (x ∷ xs) = ltb x 256 && are_bytes xs

abbrev bytes_ok : ℕ → Bool
bytes_ok n =
    (length (fill_mask 16 n) == 16)
    && (are_bytes (fill_mask 16 n) && (big_endian 0 (fill_mask 16 n) == 2 ^ 128 - 2 ^ (128 - n)))

bytes_ok-129 : all_below 129 bytes_ok ≡ true
unfolding fill_mask shift_in
bytes_ok-129 = refl

-- For a prefix length up to 128, CidrToIn6Addr makes sixteen bytes, which are the mask that has that
-- many leading bits.
pub cidr_to_in6_addr-leading :
    (cidr : ℕ)
    → cidr ≤ 128
    → (m : List ℕ) × (cidr_to_in6_addr cidr ≡ value m)
      × (length m ≡ 16)
      × (are_bytes m ≡ true)
      × (big_endian 0 m ≡ 2 ^ 128 - 2 ^ (128 - cidr))
unfolding cidr_to_in6_addr
cidr_to_in6_addr-leading cidr le =
    let ok = all_below-at 129 bytes_ok cidr bytes_ok-129 (omega arith) in
    let rest = &&-right (length (fill_mask 16 cidr) == 16) _ ok in
    (
      fill_mask 16 cidr,
      ground arith,
      (==_iff _ _).0 (&&-left _ _ ok),
      &&-left _ _ rest,
      (==_iff _ _).0 (&&-right (are_bytes (fill_mask 16 cidr)) _ rest),
    )
