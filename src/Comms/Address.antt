-- ===== src/Comms/Address.antt =====
-- The socket address that sandboxed_api/sandbox2/comms.cc makes of a name.
use googlectf2023_fastbox.Prelude.{
  ℕ, zero, suc, ◌+◌, ◌-◌, ◌≤◌, ◌≡◌, refl, sym, ap, ◌∙◌, ◌⊎◌, inl, inr, Bool, true, false, [], ◌∷◌,
  length, take, arith,
}
use googlectf2023_fastbox.Text.{Bytes}
use googlectf2023_fastbox.Comms.Kernel.{Comms}
use googlectf2023_fastbox.Comms.Connection.{
  sun_path_of, slen_of, capped, c_str, strncpy, create_sockaddr_un,
}

length-strncpy : (n : ℕ) (s : Bytes) → length (strncpy n s) ≡ n
length-strncpy zero s = refl
length-strncpy (suc n) [] = ap suc (length-strncpy n [])
length-strncpy (suc n) (x ∷ s) = ap suc (length-strncpy n s)

-- the bytes of a copy up to the length of the text, or to the end of the field
take-strncpy : (m n : ℕ) (s : Bytes) → m ≤ n → m ≤ length s → take m (strncpy n s) ≡ take m s
take-strncpy zero n s h h' = refl
take-strncpy (suc m) zero s h h' = absurd (omega arith)
take-strncpy (suc m) (suc n) [] h h' = absurd (omega arith)
take-strncpy (suc m) (suc n) (x ∷ s) h h' =
    ap (◌∷◌ x) (take-strncpy m n s (omega arith) (omega arith))

take-all : (n : ℕ) (s : Bytes) → length s ≤ n → take n s ≡ s
take-all zero [] h = refl
take-all zero (x ∷ s) h = absurd (omega arith)
take-all (suc n) [] h = refl
take-all (suc n) (x ∷ s) h = ap (◌∷◌ x) (take-all n s (omega arith))

-- The name as the kernel sees it: with a NUL in front of it if it is abstract.
abbrev pub seen_name : Bool → Bytes → Bytes
seen_name true name = 0 ∷ name
seen_name false name = name

slen_of-seen : (b : Bool) (name : Bytes) → slen_of b name ≡ 2 + length (seen_name b name)
slen_of-seen true name = omega arith
slen_of-seen false name = refl

length-path : (b : Bool) (name : Bytes) → length (sun_path_of b name) ≡ 108
length-path true name = omega (arith, length-strncpy 107 name)
length-path false name = length-strncpy 108 name

take-path :
    (b : Bool) (name : Bytes) (m : ℕ)
    → m ≤ 108
    → m ≤ length (seen_name b name)
    → take m (sun_path_of b name) ≡ take m (seen_name b name)
take-path false name m h h' = take-strncpy m 108 name h h'
take-path true name zero h h' = refl
take-path true name (suc m) h h' = ap (◌∷◌ 0) (take-strncpy m 107 name (omega arith) (omega arith))

capped_cases :
    (b : Bool) (name : Bytes)
    → (capped (slen_of b name) - 2 ≡ 108) × (108 ≤ length (seen_name b name))
      ⊎ (capped (slen_of b name) - 2 ≡ length (seen_name b name))
        × (length (seen_name b name) ≤ 108)
capped_cases b name = ground (arith, slen_of-seen b name)

counted :
    (b : Bool) (name : Bytes)
    → take (capped (slen_of b name) - 2) (sun_path_of b name) ≡ take 108 (seen_name b name)
counted b name = elim (capped_cases b name) [
  | inl h ↦ ap (λ (m : ℕ). take m (sun_path_of b name)) h.0 ∙ take-path b name 108 (omega arith) h.1
  | inr h ↦
      ap (λ (m : ℕ). take m (sun_path_of b name)) h.0
      ∙ take-path b name (length (seen_name b name)) h.1 (omega arith)
      ∙ take-all (length (seen_name b name)) (seen_name b name) (omega arith)
      ∙ sym (take-all 108 (seen_name b name) h.1)
]

-- The path has 108 bytes, and the length counts the 2 bytes of the family and at most those. The
-- part of the path that it counts is the name, after a NUL if the name is abstract, up to 108
-- bytes.
pub create_sockaddr_un-seen :
    (c : Comms)
    → (length (create_sockaddr_un c).sun_path ≡ 108)
      × (2 ≤ (create_sockaddr_un c).slen)
      × ((create_sockaddr_un c).slen ≤ 110)
      × (take ((create_sockaddr_un c).slen - 2) (create_sockaddr_un c).sun_path
          ≡ take 108 (seen_name c.abstract_uds (c_str c.socket_name)))
unfolding create_sockaddr_un
create_sockaddr_un-seen c =
    let b = c.abstract_uds in
    let name = c_str c.socket_name in
    (
      length-path b name,
      ground (arith, slen_of-seen b name),
      ground (arith, slen_of-seen b name),
      counted b name,
    )
