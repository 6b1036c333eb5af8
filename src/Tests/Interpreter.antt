-- ===== src/Tests/Interpreter.antt =====
-- An interpreter with the laws that are asked of the kernel's filter machine.
use googlectf2023_fastbox.Prelude.{
  ℕ, zero, suc, bit_and, ◌≡◌, refl, ap, ◌∙◌, List, [], ◌∷◌, Option, some, arith, drop, ◌==◌, ltb,
  leb, if◌then◌else◌,
}
use googlectf2023_fastbox.Bpf.{SockFilter}
use googlectf2023_fastbox.Bpf.Exec.{Words, done, next, exec, effect, follow}
use googlectf2023_fastbox.Bpf.Verdict.{verdict}
use googlectf2023_fastbox.Bpf.Machine.{Machine}

abbrev pub interpret : Words → List SockFilter → ℕ → Option ℕ
interpret d p a = verdict (exec d a 0 p)

exec-drop :
    (d : Words) (a n : ℕ) (p : List SockFilter)
    → verdict (exec d a n p) ≡ verdict (exec d a 0 (drop n p))
unfolding exec
exec-drop d a zero p = refl
exec-drop d a (suc n) [] = refl
exec-drop d a (suc n) (i ∷ p) = exec-drop d a n p

pub interpret-next :
    (d : Words) (i : SockFilter) (p : List SockFilter) (a a' n : ℕ)
    → effect d i a ≡ next a' n
    → interpret d (i ∷ p) a ≡ interpret d (drop n p) a'
unfolding exec
interpret-next d i p a a' n h =
    ap (λ e. verdict (follow (λ a' n'. exec d a' n' p) e)) h ∙ exec-drop d a' n p

pub interpret-done :
    (d : Words) (i : SockFilter) (p : List SockFilter) (a v : ℕ)
    → effect d i a ≡ done v
    → interpret d (i ∷ p) a ≡ some v
unfolding exec
interpret-done d i p a v h = ap (λ e. verdict (follow (λ a' n'. exec d a' n' p) e)) h

pub interpreter : Machine
unfolding effect
interpreter = record {
  run = interpret;
  run-ret = λ d i p a h. interpret-done d i p a i.k (ground arith);
  run-ld = λ d i p a h. interpret-next d i p a (d i.k) 0 (ground arith);
  run-ja = λ d i p a h. interpret-next d i p a a i.k (ground arith);
  run-jeq = λ d i p a h. interpret-next d i p a a (if a == i.k then i.jt else i.jf) (ground arith);
  run-jgt = λ d i p a h. interpret-next d i p a a (if ltb i.k a then i.jt else i.jf) (ground arith);
  run-jge = λ d i p a h. interpret-next d i p a a (if leb i.k a then i.jt else i.jf) (ground arith);
  run-jset = λ d i p a h.
      interpret-next d i p a a (if bit_and a i.k == 0 then i.jf else i.jt) (ground arith);
  run-and = λ d i p a h. interpret-next d i p a (bit_and a i.k) 0 (ground arith);
}
