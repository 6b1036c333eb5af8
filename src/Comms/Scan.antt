-- ===== src/Comms/Scan.antt =====
-- The loop of `RecvFD` in sandboxed_api/sandbox2/comms.cc over the control messages.
use mathlib.Core.Logic.{inl, inr}
use googlectf2023_fastbox.Prelude.{
  ℕ, zero, suc, ◌<◌, ◌≡◌, refl, sym, ap, ◌∙◌, true, false, List, [], ◌∷◌, ◌++◌, length,
  if◌then◌else◌, arith, Bool-cases,
}
use googlectf2023_fastbox.Comms.Kernel.{Cmsghdr}
use googlectf2023_fastbox.Comms.Descriptors.{
  found, missing, out_of_fuel, scan, is_rights, has_one_fd,
}

-- None of the messages is one with descriptors.
abbrev pub NoRights : List Cmsghdr → Type 0
NoRights [] = Unit {0}
NoRights (c ∷ cs) = (is_rights c ≡ false) × NoRights cs

scan_other :
    (fuel : ℕ) (c : Cmsghdr) (cs : List Cmsghdr)
    → is_rights c ≡ false
    → scan (suc fuel) (c ∷ cs) ≡ scan fuel cs
unfolding scan
scan_other fuel c cs h = ground (arith, h)

one_found :
    (fuel : ℕ) (c : Cmsghdr) (cs : List Cmsghdr)
    → is_rights c ≡ true
    → has_one_fd c ≡ true
    → scan (suc fuel) (c ∷ cs) ≡ found c.fds
unfolding scan
one_found fuel c cs h h' = ground (arith, h, h')

scan_again :
    (fuel : ℕ) (c : Cmsghdr) (cs : List Cmsghdr)
    → is_rights c ≡ true
    → has_one_fd c ≡ false
    → scan (suc fuel) (c ∷ cs) ≡ scan fuel (c ∷ cs)
unfolding scan
scan_again fuel c cs h h' = ground (arith, h, h')

repeated :
    (fuel : ℕ) (c : Cmsghdr) (cs : List Cmsghdr)
    → is_rights c ≡ true
    → has_one_fd c ≡ false
    → scan fuel (c ∷ cs) ≡ (if has_one_fd c then found c.fds else out_of_fuel)
unfolding scan
repeated zero c cs h other = ap (λ b. if b then found c.fds else out_of_fuel) (sym other)
repeated (suc fuel) c cs h other = scan_again fuel c cs h other ∙ repeated fuel c cs h other

scan_at :
    (fuel : ℕ) (c : Cmsghdr) (cs : List Cmsghdr)
    → is_rights c ≡ true
    → 0 < fuel
    → scan fuel (c ∷ cs) ≡ (if has_one_fd c then found c.fds else out_of_fuel)
scan_at zero c cs h hf = absurd (omega arith)
scan_at (suc fuel) c cs h hf = elim (Bool-cases (has_one_fd c)) [
  | inl one ↦ one_found fuel c cs h one ∙ ap (λ b. if b then found c.fds else out_of_fuel) (sym one)
  | inr other ↦ scan_again fuel c cs h other ∙ repeated fuel c cs h other
]

-- With more rounds than there are messages before the first one that carries descriptors, the loop
-- gives its descriptor if it carries one, and has not ended if it does not: the `continue` repeats
-- it for good. Where no message carries descriptors the loop ends without one.
pub scan-first :
    (fuel : ℕ) (before after : List Cmsghdr) (c : Cmsghdr)
    → NoRights before
    → is_rights c ≡ true
    → length before < fuel
    → (scan fuel (before ++ (c ∷ after)) ≡ (if has_one_fd c then found c.fds else out_of_fuel))
      × (scan fuel before ≡ missing)
unfolding scan
scan-first zero before after c nb h hf = absurd (omega arith)
scan-first (suc fuel) [] after c nb h hf = (scan_at (suc fuel) c after h hf, refl)
scan-first (suc fuel) (b ∷ before) after c nb h hf =
    let ih = scan-first fuel before after c nb.1 h (omega arith) in
    (scan_other fuel b (before ++ (c ∷ after)) nb.0 ∙ ih.0, scan_other fuel b before nb.0 ∙ ih.1)
