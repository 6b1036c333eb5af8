-- ===== src/Tests/Asked.antt =====
-- The settings of a policy after some calls of the methods of sandboxed_api/sandbox2/policybuilder.h.
use googlectf2023_fastbox.Prelude.{◌≡◌, refl, true, false, List, [], ◌∷◌, some}
use googlectf2023_fastbox.Text.{codes}
use googlectf2023_fastbox.Status.{value}
use googlectf2023_fastbox.PolicyBuilder.State
use googlectf2023_fastbox.PolicyBuilder.State.{PolicyBuilder, new_builder, enable_namespaces}
use googlectf2023_fastbox.PolicyBuilder.Build.{built_policy, left_behind, try_build}
use googlectf2023_fastbox.PolicyBuilder.Settings.Asked.{
  Obeys, ask_all, default_settings, try_build-asked,
}
use googlectf2023_fastbox.PolicyBuilder.Calls.{
  Call, apply, apply_all, set_hostname, collect_stacktraces_on_kill, collect_stacktraces_on_signal,
}
use googlectf2023_fastbox.Tests.Policies.{host, emptied}

abbrev set_calls : List Call
set_calls =
    set_hostname (codes "box")
    ∷ collect_stacktraces_on_kill false
    ∷ collect_stacktraces_on_signal false
    ∷ collect_stacktraces_on_kill true
    ∷ []

abbrev set_up : PolicyBuilder
set_up = record new_builder {
  requires_namespaces = true;
  hostname = codes "box";
  collect_stacktrace_on_kill = true;
  collect_stacktrace_on_signal = false;
}

set_up_is : apply_all host set_calls new_builder ≡ some set_up
unfolding apply_all apply State.set_hostname enable_namespaces State.collect_stacktraces_on_kill
    State.collect_stacktraces_on_signal
set_up_is = refl

policy_is : try_build emptied set_up ≡ (value (built_policy set_up), left_behind emptied set_up)
unfolding try_build
policy_is = refl

try_build-asked_example : Obeys (ask_all set_calls default_settings) (built_policy set_up)
try_build-asked_example = try_build-asked host set_calls emptied set_up_is policy_is
