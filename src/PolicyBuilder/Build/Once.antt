-- ===== src/PolicyBuilder/Build/Once.antt =====
-- When `TryBuild` of sandboxed_api/sandbox2/policybuilder.cc builds a policy.
use googlectf2023_fastbox.Prelude.{◌≤◌, ◌≡◌, ◌≢◌, ap, true, false, not, ◌&&◌, arith, length}
use googlectf2023_fastbox.Text.{bytes_eq}
use googlectf2023_fastbox.Status.{ok_status, value}
use googlectf2023_fastbox.PolicyBuilder.State.{PolicyBuilder, default_hostname}
use googlectf2023_fastbox.PolicyBuilder.Build.{
  Policy, MovedFrom, max_user_policy_length, built_policy, left_behind, try_build,
}

-- What a builder needs for a policy to be built.
pub record CanBuild (b : PolicyBuilder) : Type 0 where
  pub short : length b.user_policy ≤ max_user_policy_length
  pub no_error : b.last_status ≡ ok_status
  pub first : b.already_built ≡ false
  pub named :
      (b.use_namespaces
        && (b.allow_unrestricted_networking && not (bytes_eq b.hostname default_hostname)))
      ≡ false

-- Where TryBuild returns a policy, the builder could build, the policy is that of its members, and they
-- are moved out of the builder that is left.
pub try_build-value :
    (moved : MovedFrom) (b : PolicyBuilder) {p : Policy} {b' : PolicyBuilder}
    → try_build moved b ≡ (value p, b')
    → CanBuild b × (p ≡ built_policy b) × (b' ≡ left_behind moved b)
unfolding try_build
try_build-value moved b {p} {b'} h = (
  record {
    short = ground arith;
    no_error = ground arith;
    first = ground arith;
    named = ground arith;
  },
  ground arith,
  ground arith,
)

-- After TryBuild has returned a policy, TryBuild on the builder that is left never returns one.
pub try_build-once :
    (moved : MovedFrom) (b : PolicyBuilder) {p q : Policy} {b' b'' : PolicyBuilder}
    → try_build moved b ≡ (value p, b')
    → try_build moved b' ≢ (value q, b'')
try_build-once moved b {p} {q} {b'} {b''} first second =
    let (can, same, left) = try_build-value moved b first in
    let (can', same', left') = try_build-value moved b' second in
    let again = can'.first in
    let built : b'.already_built ≡ true = ap (λ x. x.already_built) left in cc
