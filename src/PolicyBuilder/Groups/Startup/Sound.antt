-- ===== src/PolicyBuilder/Groups/Startup/Sound.antt =====
-- The methods of sandboxed_api/sandbox2/policybuilder.cc for startup and logging keep a builder sound.
use googlectf2023_fastbox.PolicyBuilder.Keeps.{Keeps, keeps_rules}
use googlectf2023_fastbox.PolicyBuilder.Groups.Files.Sound.{files_rules}
use googlectf2023_fastbox.PolicyBuilder.Groups.Memory.Sound.{memory_rules}
use googlectf2023_fastbox.PolicyBuilder.Groups.Startup.{
  allow_static_startup, allow_dynamic_startup, allow_log_forwarding,
}

ruleset startup_parts = (keeps_rules, files_rules, memory_rules)

pub Keeps-allow_static_startup : Keeps allow_static_startup
unfolding allow_static_startup
Keeps-allow_static_startup = search startup_parts depth 20

pub Keeps-allow_dynamic_startup : Keeps allow_dynamic_startup
unfolding allow_dynamic_startup
Keeps-allow_dynamic_startup = search (startup_parts, Keeps-allow_static_startup) depth 20

pub Keeps-allow_log_forwarding : Keeps allow_log_forwarding
unfolding allow_log_forwarding
Keeps-allow_log_forwarding = search startup_parts depth 20
