-- ===== src/PolicyBuilder/Verify/Sound.antt =====
-- Runs of a policy that passed the checks of `AddPolicyOnSyscalls`
-- (sandboxed_api/sandbox2/policybuilder.cc).
use googlectf2023_fastbox.Prelude.{
  ℕ, zero, suc, ◌≤◌, ◌≡◌, List, [], ◌∷◌, some, arith, true, length, ◌==◌, ◌||◌, ◌&&◌, Bool, ap, sym,
  ◌∙◌,
}
use mathlib.Core.Path.{subst}
use googlectf2023_fastbox.Bpf.{
  SockFilter, ld_w_abs, jmp_ja, jmp_jeq, jmp_jgt, jmp_jge, jmp_jset, alu_and, ret_k,
}
use googlectf2023_fastbox.Bpf.Exec.{
  Words, Effect, done, next, fault, Outcome, returned, fell, effect, exec, follow,
}
use googlectf2023_fastbox.PolicyBuilder.Verify.{check_bpf_bounds, verify, retrace}

-- The kinds of instruction that the macros of bpf_helper.h build from 32-bit tests.
abbrev pub is_known : ℕ → Bool
is_known code =
    code == ret_k
    || code == ld_w_abs
    || code == jmp_ja
    || code == jmp_jeq
    || code == jmp_jgt
    || code == jmp_jge
    || code == jmp_jset
    || code == alu_and

abbrev pub IsKnown : SockFilter → Type 0
IsKnown i = is_known i.code ≡ true

abbrev pub all_known : List SockFilter → Bool
all_known [] = true
all_known (i ∷ p) = is_known i.code && all_known p

abbrev pub AllKnown : List SockFilter → Type 0
AllKnown p = all_known p ≡ true

pub &&-left : (a b : Bool) → (a && b) ≡ true → a ≡ true
&&-left a b h = ground arith

pub &&-right : (a b : Bool) → (a && b) ≡ true → b ≡ true
&&-right a b h = ground arith

-- The run returns a verdict, or comes to the end of the program and not further.
pub data Ends : Outcome → Type 0 where
  verdict : (v : ℕ) → Ends (returned v)
  end : (a : ℕ) → Ends (fell a 0)

-- An effect that leads to no more than `n` instructions ahead.
abbrev Within : ℕ → Effect → Type 0
Within n (done v) = Unit {0}
Within n (next a k) = k ≤ n
Within n fault = ⊥

effect-Within :
    (d : Words) (i : SockFilter) (a n : ℕ)
    → IsKnown i
    → check_bpf_bounds i n ≡ true
    → Within n (effect d (retrace i) a)
unfolding effect check_bpf_bounds retrace
effect-Within d i a n known h = ground arith

follow-Ends :
    (n : ℕ) (rest : ℕ → ℕ → Outcome) (e : Effect)
    → Within n e
    → ((a k : ℕ) → k ≤ n → Ends (rest a k))
    → Ends (follow rest e)
follow-Ends n rest (done v) w h = verdict v
follow-Ends n rest (next a k) w h = h a k w
follow-Ends n rest fault w h = absurd w

verify-cons :
    (i : SockFilter) (p : List SockFilter) {q : List SockFilter}
    → verify (i ∷ p) ≡ some q
    → (r : List SockFilter) × (verify p ≡ some r)
      × (q ≡ retrace i ∷ r)
      × (check_bpf_bounds i (length p) ≡ true)
unfolding verify
verify-cons i p h = ground arith

verify-nil : {q : List SockFilter} → verify [] ≡ some q → [] ≡ q
unfolding verify
verify-nil h = cc

pub length-verify :
    (p : List SockFilter) {q : List SockFilter} → verify p ≡ some q → length q ≡ length p
unfolding verify
length-verify [] {q} h = ap length (sym (verify-nil h))
length-verify (i ∷ p) {q} h =
    let (r, vr, e, c) = verify-cons i p h in ap length e ∙ ap suc (length-verify p vr)

cons-Ends :
    (d : Words) (i : SockFilter) (r : List SockFilter) (m a n : ℕ)
    → IsKnown i
    → check_bpf_bounds i m ≡ true
    → n ≤ suc m
    → ((a k : ℕ) → k ≤ m → Ends (exec d a k r))
    → Ends (exec d a n (retrace i ∷ r))
unfolding exec
cons-Ends d i r m a zero known c le ih =
    follow-Ends m (λ a' n'. exec d a' n' r) (effect d (retrace i) a) (effect-Within d i a m known c)
      ih
cons-Ends d i r m a (suc n) known c le ih = ih a n (omega arith)

nil-Ends : (d : Words) (a n : ℕ) → n ≤ 0 → Ends (exec d a n [])
unfolding exec
nil-Ends d a zero le = end a
nil-Ends d a (suc n) le = absurd (omega arith)

-- A policy of known instructions that AddPolicyOnSyscalls has verified returns a verdict or is left at
-- its end, wherever a jump enters it and whatever the accumulator: no jump leads beyond the end.
pub verify-Ends :
    (d : Words) (p : List SockFilter) {q : List SockFilter} (a n : ℕ)
    → AllKnown p
    → verify p ≡ some q
    → n ≤ length p
    → Ends (exec d a n q)
verify-Ends d [] {q} a n known h le =
    subst (λ q. Ends (exec d a n q)) (verify-nil h) (nil-Ends d a n le)
verify-Ends d (i ∷ p) a n known h le =
    let (r, vr, e, c) = verify-cons i p h in
    subst (λ q. Ends (exec d a n q)) (sym e)
      (cons-Ends d i r (length p) a n (&&-left _ (all_known p) known) c le
        (λ a' k le'. verify-Ends d p a' k (&&-right (is_known i.code) (all_known p) known) vr le'))
