-- ===== src/Bpf/Verdict.antt =====
-- The verdict of a filter on a call, with the call's number in the accumulator, as the filters of
-- sandboxed_api/sandbox2/policybuilder.cc are entered and left.
use googlectf2023_fastbox.Prelude.{ℕ, ◌≡◌, refl, List, [], ◌∷◌, ◌++◌, Option, none, some, arith}
use googlectf2023_fastbox.Bpf.{SockFilter, nr_offset, load_syscall_nr}
use googlectf2023_fastbox.Bpf.Exec.{
  Words, Outcome, returned, fell, stuck, exec, effect, resume, exec-append,
}
use googlectf2023_fastbox.Bpf.Machine.{Machine, run_exec}

abbrev pub verdict : Outcome → Option ℕ
verdict (returned v) = some v
verdict (fell a n) = none
verdict stuck = none

-- `none` where no instruction returns.
abbrev pub verdict_of : Words → List SockFilter → Option ℕ
verdict_of d p = verdict (exec d (d nr_offset) 0 p)

infixr 20 ◌or_else◌
abbrev pub ◌or_else◌ : Option ℕ → Option ℕ → Option ℕ
none or_else b = b
some v or_else b = some v

-- The run returns, or is left with the number of the call loaded again.
pub data Settles (nr : ℕ) : Outcome → Type 0 where
  decided : (v : ℕ) → Settles nr (returned v)
  passed : {a : ℕ} → a ≡ nr → Settles nr (fell a 0)

-- A piece of a filter that can be followed by another.
abbrev pub IsFragment : List SockFilter → Type 0
IsFragment p = (d : Words) → Settles (d nr_offset) (exec d (d nr_offset) 0 p)

pub IsFragment-nil : IsFragment []
unfolding exec
IsFragment-nil d = passed refl

resume-Settles :
    (d : Words) (o : Outcome) (q : List SockFilter)
    → Settles (d nr_offset) o
    → Settles (d nr_offset) (exec d (d nr_offset) 0 q)
    → Settles (d nr_offset) (resume d o q)
resume-Settles d (returned v) q (decided w) s = decided v
resume-Settles d (fell a n) q (passed e) s = rw e s
resume-Settles d stuck q h s = elim h [ ]

pub IsFragment-append : (p q : List SockFilter) → IsFragment p → IsFragment q → IsFragment (p ++ q)
IsFragment-append p q hp hq d =
    rw (exec-append d (d nr_offset) 0 p q)
      (resume-Settles d (exec d (d nr_offset) 0 p) q (hp d) (hq d))

verdict-resume :
    (d : Words) (o : Outcome) (q : List SockFilter)
    → Settles (d nr_offset) o
    → verdict (resume d o q) ≡ verdict o or_else verdict_of d q
verdict-resume d (returned v) q (decided w) = refl
verdict-resume d (fell a n) q (passed e) = rw e
verdict-resume d stuck q h = elim h [ ]

-- The first piece that returns decides.
pub verdict-append :
    (d : Words) (p q : List SockFilter)
    → IsFragment p
    → verdict_of d (p ++ q) ≡ verdict_of d p or_else verdict_of d q
verdict-append d p q h =
    rw (exec-append d (d nr_offset) 0 p q) (verdict-resume d (exec d (d nr_offset) 0 p) q (h d))

verdict-some : (o : Outcome) (v : ℕ) → verdict o ≡ some v → o ≡ returned v
verdict-some o v h = ground arith

-- The verdict is that of every machine.
pub run_verdict :
    (m : Machine) (d : Words) (p : List SockFilter) (v : ℕ)
    → verdict_of d p ≡ some v
    → m.run d p (d nr_offset) ≡ some v
run_verdict m d p v h = run_exec m d (d nr_offset) 0 p v (verdict-some _ v h)

-- A program that ends is a fragment once it loads the number of the call again.
reload-resume : (d : Words) (a : ℕ) → exec d a 0 (load_syscall_nr ∷ []) ≡ fell (d nr_offset) 0
unfolding exec effect
reload-resume d a = refl
