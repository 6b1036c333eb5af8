-- ===== src/NetworkProxy/Filtering/Bits.antt =====
-- The conjunction of words that sandboxed_api/sandbox2/network_proxy/filtering.cc compares addresses
-- by, taken apart into bytes.
use Prim.Native.Nat.{min, digits, bit_and-bitwise}
use googlectf2023_fastbox.Prelude.{
  ℕ, zero, suc, ◌+◌, ◌*◌, ◌/◌, ◌%◌, ◌≤◌, ◌<◌, ◌≡◌, refl, ap, ◌∙◌, bit_and, arith, ◌&&◌, ◌==◌,
}
use googlectf2023_fastbox.Comms.Tlv.{le_bytes}
use googlectf2023_fastbox.NetworkProxy.Filtering.{masked_eq}

-- The fuel of the operation's meaning does not count.
enough_fuel :
    (f : ℕ → ℕ → ℕ) (k l x y : ℕ)
    → x ≤ k
    → x ≤ l
    → digits (λ t. 0) f k x y ≡ digits (λ t. 0) f l x y
enough_fuel f zero zero x y hk hl = refl
enough_fuel f zero (suc l) zero y hk hl = refl
enough_fuel f zero (suc l) (suc x) y hk hl = absurd (omega arith)
enough_fuel f (suc k) zero zero y hk hl = refl
enough_fuel f (suc k) zero (suc x) y hk hl = absurd (omega arith)
enough_fuel f (suc k) (suc l) zero y hk hl = refl
enough_fuel f (suc k) (suc l) (suc x) y hk hl =
    rw (enough_fuel f k l (suc x / 2) (y / 2) (omega arith) (omega arith))

pub lowest_bit : (x y : ℕ) → bit_and x y ≡ bit_and (x / 2) (y / 2) * 2 + min (x % 2) (y % 2)
lowest_bit zero y = simp bit_and-bitwise (omega arith)
lowest_bit (suc x) y =
    simp bit_and-bitwise
      (omega (arith, enough_fuel min x (suc x / 2) (suc x / 2) (y / 2) (omega arith) (omega arith)))

-- Numbers below `w` are digits to the base `w`, each of which has its own conjunction.
record IsBase (w : ℕ) : Type 0 where
  apart :
      (a b r s : ℕ)
      → r < w
      → s < w
      → bit_and (w * a + r) (w * b + s) ≡ w * bit_and a b + bit_and r s
  within : (r s : ℕ) → r < w → s < w → bit_and r s < w

pub zero-bit_and : (y : ℕ) → bit_and 0 y ≡ 0
zero-bit_and y = simp bit_and-bitwise refl

pub bit_and-same : {a b c d : ℕ} → a ≡ c → b ≡ d → bit_and a b ≡ bit_and c d
bit_and-same {a} {b} {c} {d} p q = ap (λ t. bit_and t b) p ∙ ap (λ t. bit_and c t) q

IsBase-one : IsBase 1
IsBase-one = record {
  apart = λ a b r s hr hs.
      let whole : bit_and (1 * a + r) (1 * b + s) ≡ bit_and a b =
        bit_and-same (omega arith) (omega arith) in
      let none_left : bit_and r s ≡ bit_and 0 s = bit_and-same (omega arith) refl in
      omega (arith, whole, none_left, zero-bit_and s);
  within = λ r s hr hs.
      let none_left : bit_and r s ≡ bit_and 0 s = bit_and-same (omega arith) refl in
      omega (arith, none_left, zero-bit_and s);
}

IsBase-double : (w : ℕ) → IsBase w → IsBase (2 * w)
IsBase-double w i = record {
  apart = λ a b r s hr hs.
      let half : bit_and ((2 * w * a + r) / 2) ((2 * w * b + s) / 2)
          ≡ bit_and (w * a + r / 2) (w * b + s / 2) =
        bit_and-same (omega arith) (omega arith) in
      omega (
        arith,
        lowest_bit (2 * w * a + r) (2 * w * b + s),
        half,
        i.apart a b (r / 2) (s / 2) (omega arith) (omega arith),
        lowest_bit r s,
      );
  within = λ r s hr hs.
      omega (arith, lowest_bit r s, i.within (r / 2) (s / 2) (omega arith) (omega arith));
}

IsBase-bytes : IsBase 256
IsBase-bytes = IsBase-double 128 (
    IsBase-double 64 (
      IsBase-double 32 (
        IsBase-double 16
          (IsBase-double 8 (IsBase-double 4 (IsBase-double 2 (IsBase-double 1 IsBase-one)))))))

last_byte :
    (x m : ℕ) → bit_and x m ≡ 256 * bit_and (x / 256) (m / 256) + bit_and (x % 256) (m % 256)
last_byte x m =
    bit_and-same (omega arith) (omega arith)
    ∙ IsBase-bytes.apart (x / 256) (m / 256) (x % 256) (m % 256) (omega arith) (omega arith)

-- What is left of a number above its first bytes.
abbrev pub above : ℕ → ℕ → ℕ
above zero m = m
above (suc n) m = above n (m / 256)

bit_and-zero : (n x : ℕ) → x ≤ n → bit_and x 0 ≡ 0
bit_and-zero n zero h = zero-bit_and 0
bit_and-zero zero (suc x) h = absurd (omega arith)
bit_and-zero (suc n) (suc x) h =
    omega (arith, lowest_bit (suc x) 0, bit_and-zero n (suc x / 2) (omega arith))

pub bit_and-none : (x : ℕ) {m : ℕ} → m ≡ 0 → bit_and x m ≡ 0
bit_and-none x h = bit_and-same refl h ∙ bit_and-zero x x (omega arith)

two_digits :
    (a b r s : ℕ) → r < 256 → s < 256 → (256 * a + r == 256 * b + s) ≡ ((r == s) && (a == b))
two_digits a b r s hr hs = ground arith

-- Words under a mask are equal just where their bytes are under the bytes of the mask.
pub masked_eq-le_bytes :
    (n x y m : ℕ)
    → above n m ≡ 0
    → (bit_and x m == bit_and y m) ≡ masked_eq (le_bytes n x) (le_bytes n m) (le_bytes n y)
unfolding masked_eq le_bytes
masked_eq-le_bytes zero x y m h = ground (arith, bit_and-none x h, bit_and-none y h)
masked_eq-le_bytes (suc n) x y m h =
    rw (last_byte x m, last_byte y m)
      (two_digits (bit_and (x / 256) (m / 256)) (bit_and (y / 256) (m / 256)) _ _
          (IsBase-bytes.within (x % 256) (m % 256) (omega arith) (omega arith))
          (IsBase-bytes.within (y % 256) (m % 256) (omega arith) (omega arith))
        ∙ ap (λ b. (bit_and (x % 256) (m % 256) == bit_and (y % 256) (m % 256)) && b)
            (masked_eq-le_bytes n (x / 256) (y / 256) (m / 256) h))
