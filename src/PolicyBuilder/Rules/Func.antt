-- ===== src/PolicyBuilder/Rules/Func.antt =====
-- The methods of sandboxed_api/sandbox2/policybuilder.cc that take a policy with labels, and soundness.
use googlectf2023_fastbox.Prelude.{
  ℕ, ◌≤◌, ◌≡◌, sym, ap, ◌∙◌, Bool, true, false, Option-cases, inl, inr, List, ◌∷◌, none, some,
  arith, if◌then◌else◌, length,
}
use mathlib.Core.Path.{subst}
use googlectf2023_fastbox.Status.{internal}
use googlectf2023_fastbox.Bpf.{SockFilter}
use googlectf2023_fastbox.Bpf.Labels.{Item, resolve_bpf_func}
use googlectf2023_fastbox.PolicyBuilder.Dispatch.Fragment.{IsShort}
use googlectf2023_fastbox.PolicyBuilder.State.{PolicyBuilder, set_error}
use googlectf2023_fastbox.PolicyBuilder.Rules.{add_policy_on_syscalls, add_func_on_syscalls}
use googlectf2023_fastbox.PolicyBuilder.Rules.{with_resolved}
use googlectf2023_fastbox.PolicyBuilder.Rules.Sound.{
  IsSound, Spares, set_error-IsSound, add_policy_on_syscalls-IsSound,
}
use googlectf2023_fastbox.PolicyBuilder.Rules.Known.{known_items, resolve_bpf_func-AllKnown}

pub some-eq : {b c : PolicyBuilder} → some b ≡ some c → b ≡ c
some-eq h = cc

none-ne-some : {b : PolicyBuilder} → none ≡ some b → ⊥
none-ne-some h = cc

pub length-IsShort : (nums : List ℕ) (p : List SockFilter) → length nums ≤ 255 → IsShort nums p
length-IsShort nums p h = ground arith

func-IsSound :
    (num : ℕ) (nums : List ℕ) (f : List Item) (p : List SockFilter) (failed : Bool)
    (b : PolicyBuilder)
    → resolve_bpf_func f ≡ some (p, failed)
    → known_items f ≡ true
    → Spares (num ∷ nums)
    → length (num ∷ nums) ≤ 255
    → IsSound b
    → IsSound (add_policy_on_syscalls (num ∷ nums) p (if failed then set_error internal b else b))
func-IsSound num nums f p failed b e known spares short s =
    add_policy_on_syscalls-IsSound num nums p _ (resolve_bpf_func-AllKnown f p failed e known)
      (length-IsShort (num ∷ nums) p short) spares (either failed)
  where
    either : (x : Bool) → IsSound (if x then set_error internal b else b)
    either true = set_error-IsSound internal b s
    either false = s

-- The same for a policy with labels, whose jumps are resolved first.
pub add_func_on_syscalls-IsSound :
    (num : ℕ) (nums : List ℕ) (f : List Item) (b : PolicyBuilder) {b' : PolicyBuilder}
    → known_items f ≡ true
    → Spares (num ∷ nums)
    → length (num ∷ nums) ≤ 255
    → IsSound b
    → add_func_on_syscalls (num ∷ nums) f b ≡ some b'
    → IsSound b'
unfolding add_func_on_syscalls
add_func_on_syscalls-IsSound num nums f b {b'} known spares short s h =
    elim (Option-cases (resolve_bpf_func f)) [
      | inl e ↦ absurd (none-ne-some (sym (ap (with_resolved (num ∷ nums) b) e) ∙ h))
      | inr ((p, failed), e) ↦
          subst IsSound (some-eq (sym (ap (with_resolved (num ∷ nums) b) e) ∙ h))
            (func-IsSound num nums f p failed b e known spares short s)
    ]
