-- ===== src/NetworkProxy/Filtering/Dotted.antt =====
-- The masks in dotted form that `IsIPv4MaskCorrect` of
-- sandboxed_api/sandbox2/network_proxy/filtering.cc accepts.
use Prim.Native.Nat.{min}
use native.Mathlib.Numerals.{unary_clauses}
use googlectf2023_fastbox.Prelude.{
  ℕ, zero, suc, ◌+◌, ◌-◌, ◌*◌, ◌/◌, ◌%◌, ◌^◌, ◌≤◌, ◌<◌, ◌≡◌, refl, ap, ◌∙◌, ◌⊎◌, inl, inr, true,
  false, bit_and, arith, ◌==◌, lt-or-ge, if◌then◌else◌,
}
use googlectf2023_fastbox.NetworkProxy.Filtering.{htonl, is_ipv4_mask_correct}
use googlectf2023_fastbox.NetworkProxy.Filtering.Masks.{leading}
use googlectf2023_fastbox.NetworkProxy.Filtering.Bits.{lowest_bit, zero-bit_and, bit_and-same}

-- The conjunction of a number with itself.
bit_and_self : (n x : ℕ) → x ≤ n → bit_and x x ≡ x
bit_and_self n zero h = zero-bit_and 0
bit_and_self zero (suc x) h = absurd (omega arith)
bit_and_self (suc n) (suc x) h =
    ground (arith, lowest_bit (suc x) (suc x), bit_and_self n (suc x / 2) (omega arith))

pow_suc : (k : ℕ) → 2 ^ suc k ≡ 2 * 2 ^ k
pow_suc k = simp unary_clauses (omega arith)

double : (x k : ℕ) → x ≡ x / 2 * 2 → x / 2 ≡ 2 ^ k → x ≡ 2 ^ suc k
double x k e h = omega (arith, e, h, pow_suc k)

-- A number whose lowest bit, taken away, leaves no other is a power of 2.
power_of_two : (n x : ℕ) → x ≤ n → 1 ≤ x → bit_and x (x - 1) ≡ 0 → (k : ℕ) × (x ≡ 2 ^ k)
power_of_two zero x h p z = absurd (omega arith)
power_of_two (suc n) x h p z = elim (even_or_odd x) [
  | inl even ↦
      let step : bit_and x (x - 1) ≡ bit_and (x / 2) (x / 2 - 1) * 2 + min (x % 2) ((x - 1) % 2) =
        lowest_bit x (x - 1)
        ∙ ap (λ t. t * 2 + min (x % 2) ((x - 1) % 2)) (bit_and-same refl (omega arith)) in
      let (k, half) = power_of_two n (x / 2) (omega arith) (omega arith) (omega (arith, step, z)) in
      (suc k, double x k (omega arith) half)
  | inr odd ↦
      let step : bit_and x (x - 1) ≡ bit_and (x / 2) (x / 2) * 2 + min (x % 2) ((x - 1) % 2) =
        lowest_bit x (x - 1)
        ∙ ap (λ t. t * 2 + min (x % 2) ((x - 1) % 2)) (bit_and-same refl (omega arith)) in
      (0, omega (arith, step, z, bit_and_self (x / 2) (x / 2) (omega arith)))
]
  where
    even_or_odd : (x : ℕ) → (x % 2 ≡ 0) ⊎ (x % 2 ≡ 1)
    even_or_odd x = ground arith

pub htonl-htonl : (x : ℕ) → x < 2 ^ 32 → htonl (htonl x) ≡ x
unfolding htonl
htonl-htonl x h = omega arith

pub htonl-lt : (x : ℕ) → htonl x < 2 ^ 32
unfolding htonl
htonl-lt x = omega arith

below_32 : (k : ℕ) → 2 ^ k < 2 ^ 32 → k ≤ 31
below_32 k h = elim (lt-or-ge k 32) [
  | inl lt ↦ omega arith
  | inr ge ↦ absurd (omega (arith, large k ge))
]
  where
    same : (k : ℕ) → 32 ≤ suc k → k < 32 → suc k ≡ 32
    same k h lt = omega arith

    large : (k : ℕ) → 32 ≤ k → 2 ^ 32 ≤ 2 ^ k
    large zero h = absurd (omega arith)
    large (suc k) h = elim (lt-or-ge k 32) [
      | inl lt ↦ omega (arith, ap (λ j. 2 ^ j) (same k h lt))
      | inr ge ↦ omega (arith, large k ge, pow_suc k)
    ]

-- The test on a mask in host order.
host_leading :
    (mask : ℕ)
    → mask < 2 ^ 32
    → (let n = (2 ^ 32 - 1 - mask + 1) % 2 ^ 32 in
        (if mask == 0 then false else bit_and n ((n + 2 ^ 32 - 1) % 2 ^ 32) == 0) ≡ true)
    → (cidr : ℕ) × (1 ≤ cidr) × (cidr ≤ 32) × (mask ≡ leading cidr)
host_leading mask h e =
    let n = 2 ^ 32 - mask in
    let m = (2 ^ 32 - 1 - mask + 1) % 2 ^ 32 in
    let (positive, none_left) = passed mask (bit_and m ((m + 2 ^ 32 - 1) % 2 ^ 32)) e in
    let z : bit_and n (n - 1) ≡ 0 =
      bit_and-same {c = m} {d = (m + 2 ^ 32 - 1) % 2 ^ 32} (omega arith) (omega arith)
      ∙ none_left in
    let (k, power) = power_of_two n n (omega arith) (omega arith) z in
    let small : k ≤ 31 = below_32 k (omega (arith, power)) in
    let back : 2 ^ (32 - (32 - k)) ≡ 2 ^ k = ap (λ j. 2 ^ j) (omega arith) in
    (32 - k, omega arith, omega arith, omega (arith, power, back))
  where
    passed : (x y : ℕ) → (if x == 0 then false else y == 0) ≡ true → (1 ≤ x) × (y ≡ 0)
    passed x y e = ground arith

-- A mask that is accepted has some leading bits, in host order.
pub is_ipv4_mask_correct-leading :
    (m : ℕ)
    → is_ipv4_mask_correct m ≡ true
    → (cidr : ℕ) × (1 ≤ cidr) × (cidr ≤ 32) × (htonl m ≡ leading cidr)
unfolding is_ipv4_mask_correct
is_ipv4_mask_correct-leading m e = host_leading (htonl m) (htonl-lt m) e
