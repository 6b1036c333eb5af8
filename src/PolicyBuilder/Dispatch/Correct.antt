-- ===== src/PolicyBuilder/Dispatch/Correct.antt =====
-- Which calls run the policy that `AddPolicyOnSyscalls` (sandboxed_api/sandbox2/policybuilder.cc) was
-- given.
use googlectf2023_fastbox.Prelude.{
  ℕ, ◌+◌, ◌≤◌, ◌<◌, ◌^◌, ◌≡◌, refl, ap, false, Bool-cases, inl, inr, List, [], ◌∷◌, ◌++◌, arith,
  ltb, ◌==◌, if◌then◌else◌, length, length-append, contains,
}
use googlectf2023_fastbox.Bpf.{SockFilter, bpf_jump, jmp_jeq}
use googlectf2023_fastbox.Bpf.Exec.{Words, exec, effect}
use googlectf2023_fastbox.PolicyBuilder.Dispatch.{
  Chain, max_short_jump, ja, prepend, prepend_all, start,
}

-- A jump over a whole program.
pub exec_skip :
    (d : Words) (a : ℕ) (p q : List SockFilter) → exec d a (length p) (p ++ q) ≡ exec d a 0 q
unfolding exec
exec_skip d a [] q = refl
exec_skip d a (i ∷ p) q = exec_skip d a p q

-- 1 where the policy is skipped by a jump of its own.
abbrev pub far : List SockFilter → ℕ
far body = if ltb max_short_jump (length body) then 1 else 0

-- The chain of jumps `jumps` before `body` takes the listed calls to `body` and the others past it.
pub record Routes (body : List SockFilter) (nums : List ℕ) (c : Chain) : Type 0 where
  pub jumps : List SockFilter
  pub out_is : c.out ≡ jumps ++ body
  pub loc_is : c.do_policy_loc ≡ length body
  pub not_last : c.last ≡ false
  pub size : length jumps ≡ length nums + far body
  pub routes :
      (d : Words) (a : ℕ) (q : List SockFilter)
      → exec d a 0 (jumps ++ (body ++ q))
        ≡ (if contains a nums then exec d a 0 (body ++ q) else exec d a 0 q)

pub exec_jeq :
    (d : Words) (a k jt jf : ℕ) (p : List SockFilter)
    → exec d a 0 (bpf_jump jmp_jeq k jt jf ∷ p) ≡ (if a == k then exec d a jt p else exec d a jf p)
unfolding exec effect
exec_jeq d a k jt jf p = ground arith

pub exec-ja : (d : Words) (a k : ℕ) (p : List SockFilter) → exec d a 0 (ja k ∷ p) ≡ exec d a k p
unfolding exec effect
exec-ja d a k p = refl

-- A round after the first, where the policy is in reach of a short jump.
prepend_later :
    (policy_size num : ℕ) (body jumps : List SockFilter) (c : Chain)
    → c.out ≡ jumps ++ body
    → c.do_policy_loc ≡ length body
    → c.last ≡ false
    → length jumps ≤ 255
    → prepend policy_size num c
      ≡ record c { out = bpf_jump jmp_jeq num (length jumps) 0 ∷ (jumps ++ body) }
unfolding prepend
prepend_later policy_size num body jumps c o l n s =
    ground (arith, length-append jumps body, ap length o)

-- The first round, with a policy that a short jump skips and with a longer one.
prepend_first :
    (policy_size num : ℕ) (body : List SockFilter)
    → length body ≤ 255
    → prepend policy_size num (start body) ≡ record {
      out = bpf_jump jmp_jeq num 0 (length body) ∷ body;
      do_policy_loc = length body;
      last = false;
    }
unfolding prepend
prepend_first policy_size num body s = ground arith

prepend_first_far :
    (policy_size num : ℕ) (body : List SockFilter)
    → 255 < length body
    → length body < 2 ^ 32
    → prepend policy_size num (start body) ≡ record {
      out = bpf_jump jmp_jeq num 1 0 ∷ ja (length body) ∷ body;
      do_policy_loc = length body;
      last = false;
    }
unfolding prepend
prepend_first_far policy_size num body s fits = ground arith

first_far-Routes :
    (policy_size num : ℕ) (body : List SockFilter)
    → 255 < length body
    → length body < 2 ^ 32
    → Routes body (num ∷ []) (prepend policy_size num (start body))
first_far-Routes policy_size num body s fits =
    rw (prepend_first_far policy_size num body s fits) (record {
      jumps = bpf_jump jmp_jeq num 1 0 ∷ ja (length body) ∷ [];
      out_is = refl;
      loc_is = refl;
      not_last = refl;
      size = ground arith;
      routes = λ d a q. ground (
        arith,
        exec_jeq d a num 1 0 (ja (length body) ∷ (body ++ q)),
        exec-ja d a (length body) (body ++ q),
        exec_skip d a body q,
        exec_skip d a (ja (length body) ∷ []) (body ++ q),
      );
    })

first_near-Routes :
    (policy_size num : ℕ) (body : List SockFilter)
    → length body ≤ 255
    → Routes body (num ∷ []) (prepend policy_size num (start body))
first_near-Routes policy_size num body s = rw (prepend_first policy_size num body s) (record {
  jumps = bpf_jump jmp_jeq num 0 (length body) ∷ [];
  out_is = refl;
  loc_is = refl;
  not_last = refl;
  size = ground arith;
  routes =
      λ d a q. ground (arith, exec_jeq d a num 0 (length body) (body ++ q), exec_skip d a body q);
})

next-Routes :
    (policy_size num other : ℕ) (nums : List ℕ) (body : List SockFilter) (c : Chain)
    → length nums + far body < 255
    → Routes body (other ∷ nums) c
    → Routes body (num ∷ other ∷ nums) (prepend policy_size num c)
next-Routes policy_size num other nums body c short r =
    rw
      (prepend_later policy_size num body r.jumps c r.out_is r.loc_is r.not_last
        (omega (arith, r.size)))
      (record {
        jumps = bpf_jump jmp_jeq num (length r.jumps) 0 ∷ r.jumps;
        out_is = refl;
        loc_is = r.loc_is;
        not_last = r.not_last;
        size = omega (arith, r.size);
        routes = λ d a q. ground (
          arith,
          exec_jeq d a num (length r.jumps) 0 (r.jumps ++ (body ++ q)),
          exec_skip d a r.jumps (body ++ q),
          r.routes d a q,
        );
      })

-- A list that is short enough to need no helper jump is routed.
pub prepend_all-Routes :
    (policy_size num : ℕ) (nums : List ℕ) (body : List SockFilter)
    → length body < 2 ^ 32
    → length nums + far body < 256
    → Routes body (num ∷ nums) (prepend_all policy_size (start body) (num ∷ nums))
unfolding prepend_all
prepend_all-Routes policy_size num [] body fits short = elim (Bool-cases (ltb 255 (length body))) [
  | inl h ↦ first_far-Routes policy_size num body (ground arith) fits
  | inr h ↦ first_near-Routes policy_size num body (ground arith)
]
prepend_all-Routes policy_size num (other ∷ nums) body fits short =
    next-Routes policy_size num other nums body _ (omega arith)
      (prepend_all-Routes policy_size other nums body fits (omega arith))
