-- ===== src/PolicyBuilder/Dispatch/Fragment.antt =====
-- What `AddPolicyOnSyscalls` (sandboxed_api/sandbox2/policybuilder.cc) appends, as a piece of a filter.
use googlectf2023_fastbox.Prelude.{
  ℕ, zero, suc, ◌+◌, ◌≤◌, ◌<◌, ◌^◌, ◌≡◌, refl, ap, ◌∙◌, Bool, true, false, List, [], ◌∷◌, ◌++◌,
  Option, none, some, arith, ltb, if◌then◌else◌, length, length-append, contains,
}
use mathlib.Core.List.{append_assoc, append-nil}
use googlectf2023_fastbox.Bpf.{SockFilter, nr_offset, load_syscall_nr}
use googlectf2023_fastbox.Bpf.Exec.{
  Words, Outcome, returned, fell, stuck, exec, effect, resume, exec-append,
}
use googlectf2023_fastbox.Bpf.Verdict.{Settles, decided, passed, IsFragment, verdict, verdict_of}
use googlectf2023_fastbox.PolicyBuilder.Verify.{verify}
use googlectf2023_fastbox.PolicyBuilder.Verify.Sound.{Ends, AllKnown, verify-Ends, length-verify}
use googlectf2023_fastbox.PolicyBuilder.Dispatch.{
  Added, added, policy_on_syscalls, dispatch, or_refused, prepend_all, start,
}
use googlectf2023_fastbox.PolicyBuilder.Dispatch.Correct.{far, prepend_all-Routes}

-- The policy with its postcondition, the number of the call in the accumulator.
abbrev reloading : List SockFilter → List SockFilter
reloading p = p ++ (load_syscall_nr ∷ [])

resume_load-Settles :
    (d : Words) (o : Outcome) → Ends o → Settles (d nr_offset) (resume d o (load_syscall_nr ∷ []))
unfolding exec effect
resume_load-Settles d (returned v) e = decided v
resume_load-Settles d (fell a zero) e = passed refl
resume_load-Settles d (fell a (suc n)) e = elim e [ ]
resume_load-Settles d stuck e = elim e [ ]

reloading-Settles :
    (d : Words) (p p' : List SockFilter)
    → AllKnown p
    → verify p ≡ some p'
    → Settles (d nr_offset) (exec d (d nr_offset) 0 (reloading p'))
reloading-Settles d p p' known h = rw (exec-append d (d nr_offset) 0 p' (load_syscall_nr ∷ [])) (
    resume_load-Settles d (exec d (d nr_offset) 0 p')
      (verify-Ends d p (d nr_offset) 0 known h (omega arith)))

or_refused-added :
    (v : Option (List SockFilter)) (f : List SockFilter → Added) {out : List SockFilter}
    → or_refused v f ≡ added out
    → (p' : List SockFilter) × (v ≡ some p') × (f p' ≡ added out)
or_refused-added none f h = cc
or_refused-added (some p') f h = (p', refl, h)

dispatch-added :
    (nums : List ℕ) (n : ℕ) (p' : List SockFilter) {out : List SockFilter}
    → dispatch nums n p' ≡ added out
    → (length (reloading p') < 2 ^ 32) × (out ≡ (prepend_all n (start (reloading p')) nums).out)
unfolding dispatch
dispatch-added nums n p' {out} h = (ground arith, ground arith)

pub policy_on_syscalls-added :
    (nums : List ℕ) (policy : List SockFilter) {out : List SockFilter}
    → policy_on_syscalls nums policy ≡ added out
    → (p' : List SockFilter) × (verify policy ≡ some p')
      × (length (reloading p') < 2 ^ 32)
      × (out ≡ (prepend_all (length policy) (start (reloading p')) nums).out)
unfolding policy_on_syscalls
policy_on_syscalls-added nums policy h =
    let (p', v, e) = or_refused-added (verify policy) (dispatch nums (length policy)) h in
    let (fits, o) = dispatch-added nums (length policy) p' e in (p', v, fits, o)

-- The number of jumps that an unaided chain may have, one less where the policy is far.
abbrev pub IsShort : List ℕ → List SockFilter → Type 0
IsShort nums policy = length nums + (if ltb 254 (length policy) then 1 else 0) ≤ 256

far-reloading :
    (p p' : List SockFilter)
    → verify p ≡ some p'
    → far (reloading p') ≡ (if ltb 254 (length p) then 1 else 0)
far-reloading p p' h = ground (arith, length-verify p h, length-append p' (load_syscall_nr ∷ []))

module _ (num : ℕ) (nums : List ℕ) (policy : List SockFilter) {out : List SockFilter} where
  pub routed :
      policy_on_syscalls (num ∷ nums) policy ≡ added out
      → IsShort (num ∷ nums) policy
      → (p' : List SockFilter) × (verify policy ≡ some p')
        × ((d : Words) (a : ℕ) (q : List SockFilter)
            → exec d a 0 (out ++ q)
              ≡ (if contains a (num ∷ nums) then exec d a 0 (reloading p' ++ q) else exec d a 0 q))
  routed h short =
      let (p', v, fits, e) = policy_on_syscalls-added (num ∷ nums) policy h in
      let r =
        prepend_all-Routes (length policy) num nums (reloading p') fits
          (omega (arith, far-reloading policy p' v)) in
      (
        p',
        v,
        λ d a q.
            ap (λ o. exec d a 0 (o ++ q)) (e ∙ r.out_is)
            ∙ ap (exec d a 0) (append_assoc r.jumps (reloading p') q)
            ∙ r.routes d a q,
      )

resume_load-verdict :
    (d : Words) (o : Outcome) → verdict (resume d o (load_syscall_nr ∷ [])) ≡ verdict o
unfolding exec effect
resume_load-verdict d (returned v) = refl
resume_load-verdict d (fell a zero) = refl
resume_load-verdict d (fell a (suc n)) = refl
resume_load-verdict d stuck = refl

reloading-verdict : (d : Words) (p : List SockFilter) → verdict_of d (reloading p) ≡ verdict_of d p
reloading-verdict d p =
    rw (exec-append d (d nr_offset) 0 p (load_syscall_nr ∷ []))
      (resume_load-verdict d (exec d (d nr_offset) 0 p))

if-Settles :
    (nr : ℕ) (b : Bool) (o : Outcome) → Settles nr o → Settles nr (if b then o else fell nr 0)
if-Settles nr true o s = s
if-Settles nr false o s = passed refl

if-verdict :
    (nr : ℕ) (b : Bool) (o : Outcome)
    → verdict (if b then o else fell nr 0) ≡ (if b then verdict o else none)
if-verdict nr true o = refl
if-verdict nr false o = refl

module _ (num : ℕ) (nums : List ℕ) (policy : List SockFilter) {out : List SockFilter} where
  alone :
      policy_on_syscalls (num ∷ nums) policy ≡ added out
      → IsShort (num ∷ nums) policy
      → (p' : List SockFilter) × (verify policy ≡ some p')
        × ((d : Words)
            → exec d (d nr_offset) 0 out ≡ (
                if contains (d nr_offset) (num ∷ nums)
                then exec d (d nr_offset) 0 (reloading p')
                else fell (d nr_offset) 0))
  unfolding exec
  alone h short =
      let (p', v, r) = routed num nums policy h short in
      (p', v, λ d. simp append-nil at (r d (d nr_offset) []))

  -- What AddPolicyOnSyscalls appends for a list of calls that is not empty and within reach of the
  -- jumps, and a policy of known instructions, returns a verdict on every call or is left at its end
  -- with the number of the call loaded.
  pub policy_on_syscalls-IsFragment :
      policy_on_syscalls (num ∷ nums) policy ≡ added out
      → IsShort (num ∷ nums) policy
      → AllKnown policy
      → IsFragment out
  policy_on_syscalls-IsFragment h short known d =
      let (p', v, r) = alone h short in
      rw (r d) (
        if-Settles _ (contains (d nr_offset) (num ∷ nums)) _
          (reloading-Settles d policy p' known v))

  -- What AddPolicyOnSyscalls appends for a list of calls that is not empty and within reach of the
  -- jumps has, on the listed calls, the verdict of the policy as it was verified, and on the others
  -- none.
  pub policy_on_syscalls-verdict :
      policy_on_syscalls (num ∷ nums) policy ≡ added out
      → IsShort (num ∷ nums) policy
      → (p' : List SockFilter) × (verify policy ≡ some p')
        × ((d : Words)
            → verdict_of d out
              ≡ (if contains (d nr_offset) (num ∷ nums) then verdict_of d p' else none))
  policy_on_syscalls-verdict h short =
      let (p', v, r) = alone h short in
      (
        p',
        v,
        λ d.
            ap verdict (r d)
            ∙ if-verdict _ (contains (d nr_offset) (num ∷ nums)) _
            ∙ ap (λ o. if contains (d nr_offset) (num ∷ nums) then o else none)
                (reloading-verdict d p'),
      )
