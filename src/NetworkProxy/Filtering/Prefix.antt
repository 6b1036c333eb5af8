-- ===== src/NetworkProxy/Filtering/Prefix.antt =====
-- When two addresses agree on the first bits, for the masks of
-- sandboxed_api/sandbox2/network_proxy/filtering.cc.
use googlectf2023_fastbox.Prelude.{
  ℕ, zero, suc, ◌-◌, ◌*◌, ◌/◌, ◌^◌, ◌≤◌, ◌<◌, ◌≡◌, refl, sym, ap, ◌∙◌, inl, inr, Bool, true, false,
  ◌&&◌, List, [], ◌∷◌, arith, ◌==◌, ==_iff, Bool-cases, leb, ltb, lt-or-ge, bit_and, length,
  replicate, if◌then◌else◌,
}
use mathlib.Core.Path.{subst}
use googlectf2023_fastbox.NetworkProxy.Filtering.Bits.{bit_and-none}
use googlectf2023_fastbox.PolicyBuilder.Verify.Sound.{&&-left, &&-right}
use googlectf2023_fastbox.NetworkProxy.Filtering.{shift_in, fill_mask, masked_eq}
use googlectf2023_fastbox.NetworkProxy.Filtering.Masks.{all_below, all_below-at, are_bytes}

-- The first `cidr` bits of two addresses of the same length, whose bytes these are, the highest
-- first, are the same.
abbrev pub same_prefix : ℕ → List ℕ → List ℕ → Bool
same_prefix cidr [] ys = true
same_prefix cidr (a ∷ xs) [] = true
same_prefix cidr (a ∷ xs) (b ∷ ys) =
    if leb 8 cidr
    then (a == b) && same_prefix (cidr - 8) xs ys
    else a / 2 ^ (8 - cidr) == b / 2 ^ (8 - cidr)

-- A byte under a mask of leading bits, and its highest bits.
abbrev byte_ok : ℕ → ℕ → Bool
byte_ok c i =
    (bit_and i (shift_in 0x80 c 0) == i / 2 ^ (8 - c) * 2 ^ (8 - c))
    && (bit_and i (shift_in 0x80 c 0) / 2 ^ (8 - c) == i / 2 ^ (8 - c))

bytes_ok : all_below 8 (λ c. all_below 256 (byte_ok c)) ≡ true
unfolding shift_in
bytes_ok = refl

full_ok : all_below 256 (λ i. bit_and i 0xff == i) ≡ true
full_ok = refl

masked_eq-zeros : (n : ℕ) (xs ys : List ℕ) → masked_eq xs (replicate n 0) ys ≡ true
unfolding masked_eq
masked_eq-zeros zero [] ys = refl
masked_eq-zeros zero (a ∷ xs) ys = refl
masked_eq-zeros (suc n) [] ys = refl
masked_eq-zeros (suc n) (a ∷ xs) [] = refl
masked_eq-zeros (suc n) (a ∷ xs) (b ∷ ys) =
    rw (bit_and-none a refl, bit_and-none b refl) (masked_eq-zeros n xs ys)

==-same : (x y u v : ℕ) → (x ≡ y → u ≡ v) → (u ≡ v → x ≡ y) → (x == y) ≡ (u == v)
==-same x y u v f g = elim (Bool-cases (x == y)) [
  | inl e ↦ ground (arith, f ((==_iff x y).0 e))
  | inr n ↦ elim (Bool-cases (u == v)) [
    | inl e ↦ ground (arith, g ((==_iff u v).0 e))
    | inr n' ↦ n ∙ sym n'
  ]
]

byte_at :
    (c a : ℕ)
    → c < 8
    → a < 256
    → (bit_and a (shift_in 0x80 c 0) ≡ a / 2 ^ (8 - c) * 2 ^ (8 - c))
      × (bit_and a (shift_in 0x80 c 0) / 2 ^ (8 - c) ≡ a / 2 ^ (8 - c))
byte_at c a hc ha =
    let ok : byte_ok c a ≡ true =
      all_below-at 256 (byte_ok c) a
        (all_below-at 8 (λ c'. all_below 256 (byte_ok c')) c bytes_ok hc) ha in
    (
      (==_iff _ _).0 (&&-left _ _ ok),
      (==_iff _ _).0
          (&&-right (bit_and a (shift_in 0x80 c 0) == a / 2 ^ (8 - c) * 2 ^ (8 - c)) _ ok),
    )

-- On some of the bits of one byte.
same_byte :
    (c a b : ℕ)
    → c < 8
    → a < 256
    → b < 256
    → (bit_and a (shift_in 0x80 c 0) == bit_and b (shift_in 0x80 c 0))
      ≡ (a / 2 ^ (8 - c) == b / 2 ^ (8 - c))
same_byte c a b hc ha hb =
    let (ka, qa) = byte_at c a hc ha in
    let (kb, qb) = byte_at c b hc hb in
    ==-same _ _ _ _ (λ e. sym qa ∙ ap (λ t. t / 2 ^ (8 - c)) e ∙ qb)
      (λ e. ka ∙ ap (λ t. t * 2 ^ (8 - c)) e ∙ sym kb)

all_of_byte : (a : ℕ) → a < 256 → bit_and a 0xff ≡ a
all_of_byte a h = (==_iff _ _).0 (all_below-at 256 (λ i. bit_and i 0xff == i) a full_ok h)

-- An address is in a network of the mask with so many leading bits just where it agrees with the
-- network's on these.
pub masked_eq-fill_mask :
    (n cidr : ℕ) (xs ys : List ℕ)
    → length xs ≡ n
    → length ys ≡ n
    → are_bytes xs ≡ true
    → are_bytes ys ≡ true
    → masked_eq xs (fill_mask n cidr) ys ≡ same_prefix cidr xs ys
unfolding masked_eq fill_mask
masked_eq-fill_mask zero cidr [] ys lx ly hx hy = refl
masked_eq-fill_mask zero cidr (a ∷ xs) ys lx ly hx hy = absurd (omega (arith, lx))
masked_eq-fill_mask (suc n) cidr [] ys lx ly hx hy = refl
masked_eq-fill_mask (suc n) cidr (a ∷ xs) [] lx ly hx hy = absurd (omega (arith, ly))
masked_eq-fill_mask (suc n) cidr (a ∷ xs) (b ∷ ys) lx ly hx hy = elim (lt-or-ge cidr 8) [
  | inl few ↦ subst at_test (sym (fewer few)) (
      ap (λ t. (bit_and a (shift_in 0x80 cidr 0) == bit_and b (shift_in 0x80 cidr 0)) && t)
        (masked_eq-zeros n xs ys)
      ∙ &&-true _
      ∙ same_byte cidr a b few a_byte b_byte)
  | inr many ↦ subst at_test (sym (more many)) (
      rw (all_of_byte a a_byte, all_of_byte b b_byte)
        (ap (λ t. (a == b) && t)
          (masked_eq-fill_mask n (cidr - 8) xs ys (omega (arith, lx)) (omega (arith, ly))
            (&&-right (ltb a 256) (are_bytes xs) hx) (&&-right (ltb b 256) (are_bytes ys) hy))))
]
  where
    at_test : Bool → Type 0
    at_test t =
        masked_eq (a ∷ xs)
          (if t then 0xff ∷ fill_mask n (cidr - 8) else shift_in 0x80 cidr 0 ∷ replicate n 0)
          (b ∷ ys)
        ≡ (if t
            then (a == b) && same_prefix (cidr - 8) xs ys
            else a / 2 ^ (8 - cidr) == b / 2 ^ (8 - cidr))

    fewer : cidr < 8 → leb 8 cidr ≡ false
    fewer h = ground arith

    more : 8 ≤ cidr → leb 8 cidr ≡ true
    more h = ground arith

    byte_of : (x : ℕ) (zs : List ℕ) → (ltb x 256 && are_bytes zs) ≡ true → x < 256
    byte_of x zs h = ground arith

    a_byte : a < 256
    a_byte = byte_of a xs hx

    b_byte : b < 256
    b_byte = byte_of b ys hy

    &&-true : (t : Bool) → (t && true) ≡ t
    &&-true true = refl
    &&-true false = refl
