-- ===== src/Bpf/Exec.antt =====
-- What a filter does to the words of `struct seccomp_data`, in the cases that the kernel documents
-- for classic BPF: the independent description against which filters are read.
use googlectf2023_fastbox.Prelude.{
  ℕ, zero, suc, bit_and, ◌≡◌, refl, List, [], ◌∷◌, ◌++◌, ◌==◌, ltb, leb, if◌then◌else◌,
}
use googlectf2023_fastbox.Bpf.{
  SockFilter, ld_w_abs, jmp_ja, jmp_jeq, jmp_jgt, jmp_jge, jmp_jset, alu_and, ret_k,
}

-- The words of the system call, by their offset.
abbrev pub Words : Type 0
Words = ℕ → ℕ

-- One instruction returns a verdict, or sets the accumulator and skips some instructions.
pub data Effect : Type 0 where
  done : ℕ → Effect
  next : ℕ → ℕ → Effect
  fault : Effect

-- A run returns, or leaves the program with an accumulator and instructions yet to be skipped.
pub data Outcome : Type 0 where
  returned : ℕ → Outcome
  fell : ℕ → ℕ → Outcome
  stuck : Outcome

unfoldable pub effect : Words → SockFilter → ℕ → Effect
effect d i a =
    if i.code == ret_k
    then done i.k
    else if i.code == ld_w_abs
    then next (d i.k) 0
    else if i.code == jmp_ja
    then next a i.k
    else if i.code == jmp_jeq
    then next a (if a == i.k then i.jt else i.jf)
    else if i.code == jmp_jgt
    then next a (if ltb i.k a then i.jt else i.jf)
    else if i.code == jmp_jge
    then next a (if leb i.k a then i.jt else i.jf)
    else if i.code == jmp_jset
    then next a (if bit_and a i.k == 0 then i.jf else i.jt)
    else if i.code == alu_and
    then next (bit_and a i.k) 0
    else fault

-- What an effect makes of the run of the instructions behind it.
abbrev pub follow : (ℕ → ℕ → Outcome) → Effect → Outcome
follow rest (done v) = returned v
follow rest (next a n) = rest a n
follow rest fault = stuck

unfoldable pub exec : Words → ℕ → ℕ → List SockFilter → Outcome
exec d a n [] = fell a n
exec d a (suc n) (i ∷ p) = exec d a n p
exec d a zero (i ∷ p) = follow (λ a' n'. exec d a' n' p) (effect d i a)

-- What follows a program runs where the program was left.
abbrev pub resume : Words → Outcome → List SockFilter → Outcome
resume d (returned v) q = returned v
resume d (fell a n) q = exec d a n q
resume d stuck q = stuck

resume-follow :
    (d : Words) (q : List SockFilter) (f g : ℕ → ℕ → Outcome) (e : Effect)
    → ((a n : ℕ) → g a n ≡ resume d (f a n) q)
    → follow g e ≡ resume d (follow f e) q
resume-follow d q f g (done v) h = refl
resume-follow d q f g (next a n) h = h a n
resume-follow d q f g fault h = refl

pub exec-append :
    (d : Words) (a n : ℕ) (p q : List SockFilter) → exec d a n (p ++ q) ≡ resume d (exec d a n p) q
unfolding exec
exec-append d a n [] q = refl
exec-append d a (suc n) (i ∷ p) q = exec-append d a n p q
exec-append d a zero (i ∷ p) q =
    resume-follow d q (λ a' n'. exec d a' n' p) (λ a' n'. exec d a' n' (p ++ q)) (effect d i a)
      (λ a' n'. exec-append d a' n' p q)
