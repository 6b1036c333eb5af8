-- ===== src/PolicyBuilder/Groups/Network/Sound.antt =====
-- The methods of sandboxed_api/sandbox2/policybuilder.cc for the network proxy keep a builder sound.
use googlectf2023_fastbox.Prelude.{ℕ, Option, some, none, ◌≡◌, refl, sym}
use googlectf2023_fastbox.Text.{Bytes}
use googlectf2023_fastbox.Status.{Status, ok_status, error, failed_precondition}
use googlectf2023_fastbox.NetworkProxy.Filtering
use googlectf2023_fastbox.NetworkProxy.Filtering.{AllowedHosts, NetLib, no_hosts}
use googlectf2023_fastbox.PolicyBuilder.State.{PolicyBuilder, set_error}
use googlectf2023_fastbox.PolicyBuilder.Keeps.{Keeps, Keeps-call, keeps_rules}
use googlectf2023_fastbox.PolicyBuilder.Keeps.Same.{rules_of, IsSound-same}
use googlectf2023_fastbox.PolicyBuilder.Rules.{call}
use googlectf2023_fastbox.PolicyBuilder.Rules.Sound.{set_error-IsSound}
use googlectf2023_fastbox.PolicyBuilder.Groups.Files.Sound.{files_rules}
use googlectf2023_fastbox.PolicyBuilder.Groups.Memory.Sound.{memory_rules}
use googlectf2023_fastbox.PolicyBuilder.Groups.Network.{
  proxy_rules, once, add_network_proxy_policy, add_network_proxy_handler_policy, with_hosts,
  on_hosts, allow_ipv4, allow_ipv6,
}

Keeps-proxy_rules : Keeps proxy_rules
unfolding proxy_rules
Keeps-proxy_rules = search (keeps_rules, files_rules, memory_rules) depth 20

Keeps-hosts : (hosts : Option AllowedHosts) → Keeps (call (λ b. record b { allowed_hosts = hosts }))
Keeps-hosts hosts = Keeps-call _ (λ b s. IsSound-same b _ refl s)

Keeps-once : (hosts : Option AllowedHosts) → Keeps (once hosts)
Keeps-once (some hosts) = Keeps-call _ (set_error-IsSound failed_precondition)
Keeps-once none = search (keeps_rules, Keeps-hosts, Keeps-proxy_rules) depth 6

pub Keeps-add_network_proxy_policy : Keeps add_network_proxy_policy
unfolding add_network_proxy_policy
Keeps-add_network_proxy_policy = record {
  at = λ b s e. let k = Keeps-once b.allowed_hosts in k.at b s e;
}

pub Keeps-add_network_proxy_handler_policy : Keeps add_network_proxy_handler_policy
unfolding add_network_proxy_handler_policy
Keeps-add_network_proxy_handler_policy =
    search (keeps_rules, Keeps-add_network_proxy_policy) depth 12

with_hosts-rules :
    (b : PolicyBuilder) (r : AllowedHosts × Status) → rules_of (with_hosts b r) ≡ rules_of b
unfolding set_error
with_hosts-rules b (hosts, ok_status) = refl
with_hosts-rules b (hosts, error code) = refl

on_hosts-rules :
    (f : AllowedHosts → AllowedHosts × Status) (o : Option AllowedHosts) (b : PolicyBuilder)
    → rules_of (on_hosts f o b) ≡ rules_of b
unfolding set_error
on_hosts-rules f none b = refl
on_hosts-rules f (some hosts) b = with_hosts-rules b (f hosts)

pub Keeps-allow_ipv4 :
    (lib : NetLib) (ip_and_mask : Bytes) (port : ℕ) → Keeps (allow_ipv4 lib ip_and_mask port)
unfolding allow_ipv4
Keeps-allow_ipv4 lib ip_and_mask port = Keeps-call _ (λ b s.
    IsSound-same b _
      (sym (on_hosts-rules (Filtering.allow_ipv4 lib ip_and_mask port) b.allowed_hosts b)) s)

pub Keeps-allow_ipv6 :
    (lib : NetLib) (ip_and_mask : Bytes) (port : ℕ) → Keeps (allow_ipv6 lib ip_and_mask port)
unfolding allow_ipv6
Keeps-allow_ipv6 lib ip_and_mask port = Keeps-call _ (λ b s.
    IsSound-same b _
      (sym (on_hosts-rules (Filtering.allow_ipv6 lib ip_and_mask port) b.allowed_hosts b)) s)

pub ruleset network_rules = (
  Keeps-add_network_proxy_policy, Keeps-add_network_proxy_handler_policy, Keeps-allow_ipv4,
  Keeps-allow_ipv6,
)
