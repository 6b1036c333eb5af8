-- ===== src/Bpf/Machine.antt =====
-- The kernel's filter machine, which is not part of the repository, by the laws that its
-- documentation gives: one for each kind of instruction that the sandbox writes.
use googlectf2023_fastbox.Prelude.{
  ℕ, zero, suc, bit_and, ◌≡◌, Option, some, List, [], ◌∷◌, ◌==◌, ltb, leb, if◌then◌else◌, drop,
  arith, ◌∙◌,
}
use googlectf2023_fastbox.Bpf.{
  SockFilter, ld_w_abs, jmp_ja, jmp_jeq, jmp_jgt, jmp_jge, jmp_jset, alu_and, ret_k,
}
use googlectf2023_fastbox.Bpf.Exec.{
  Words, effect, exec, returned, done, next, fault, Effect, follow,
}

-- `run d p a` is the verdict of program `p` on the call `d`, with accumulator `a`.
pub record Machine : Type 0 where
  pub run : Words → List SockFilter → ℕ → Option ℕ
  pub run-ret :
      (d : Words) (i : SockFilter) (p : List SockFilter) (a : ℕ)
      → i.code ≡ ret_k
      → run d (i ∷ p) a ≡ some i.k
  pub run-ld :
      (d : Words) (i : SockFilter) (p : List SockFilter) (a : ℕ)
      → i.code ≡ ld_w_abs
      → run d (i ∷ p) a ≡ run d p (d i.k)
  pub run-ja :
      (d : Words) (i : SockFilter) (p : List SockFilter) (a : ℕ)
      → i.code ≡ jmp_ja
      → run d (i ∷ p) a ≡ run d (drop i.k p) a
  pub run-jeq :
      (d : Words) (i : SockFilter) (p : List SockFilter) (a : ℕ)
      → i.code ≡ jmp_jeq
      → run d (i ∷ p) a ≡ run d (drop (if a == i.k then i.jt else i.jf) p) a
  pub run-jgt :
      (d : Words) (i : SockFilter) (p : List SockFilter) (a : ℕ)
      → i.code ≡ jmp_jgt
      → run d (i ∷ p) a ≡ run d (drop (if ltb i.k a then i.jt else i.jf) p) a
  pub run-jge :
      (d : Words) (i : SockFilter) (p : List SockFilter) (a : ℕ)
      → i.code ≡ jmp_jge
      → run d (i ∷ p) a ≡ run d (drop (if leb i.k a then i.jt else i.jf) p) a
  pub run-jset :
      (d : Words) (i : SockFilter) (p : List SockFilter) (a : ℕ)
      → i.code ≡ jmp_jset
      → run d (i ∷ p) a ≡ run d (drop (if bit_and a i.k == 0 then i.jf else i.jt) p) a
  pub run-and :
      (d : Words) (i : SockFilter) (p : List SockFilter) (a : ℕ)
      → i.code ≡ alu_and
      → run d (i ∷ p) a ≡ run d p (bit_and a i.k)

-- What a machine makes of the effect of one instruction.
abbrev Follows : (ℕ → ℕ → Option ℕ) → Effect → Option ℕ → Type 0
Follows rest (done v) r = r ≡ some v
Follows rest (next a n) r = r ≡ rest a n
Follows rest fault r = Unit {0}

module _ (m : Machine) where
  run-effect :
      (d : Words) (i : SockFilter) (p : List SockFilter) (a : ℕ)
      → Follows (λ a' n'. m.run d (drop n' p) a') (effect d i a) (m.run d (i ∷ p) a)
  unfolding effect
  run-effect d i p a = ground (
    arith,
    m.run-ret d i p a,
    m.run-ld d i p a,
    m.run-ja d i p a,
    m.run-jeq d i p a,
    m.run-jgt d i p a,
    m.run-jge d i p a,
    m.run-jset d i p a,
    m.run-and d i p a,
  )

  -- A run that returns does so on every machine.
  pub run_exec :
      (d : Words) (a n : ℕ) (p : List SockFilter) (v : ℕ)
      → exec d a n p ≡ returned v
      → m.run d (drop n p) a ≡ some v
  unfolding exec
  run_exec d a zero [] v h = cc
  run_exec d a (suc n) [] v h = cc
  run_exec d a (suc n) (i ∷ p) v h = run_exec d a n p v h
  run_exec d a zero (i ∷ p) v h =
      finish (effect d i a) (m.run d (i ∷ p) a) (run-effect d i p a) (λ a' n'. run_exec d a' n' p v)
        h
    where
      finish :
          (e : Effect) (r : Option ℕ)
          → Follows (λ a' n'. m.run d (drop n' p) a') e r
          → ((a' n' : ℕ) → exec d a' n' p ≡ returned v → m.run d (drop n' p) a' ≡ some v)
          → follow (λ a' n'. exec d a' n' p) e ≡ returned v
          → r ≡ some v
      finish (done w) r l ih e = cc
      finish (next a' n') r l ih e = l ∙ ih a' n' e
      finish fault r l ih e = cc
