-- ===== src/PolicyBuilder/Settings/Mounted.antt =====
-- The methods of sandboxed_api/sandbox2/policybuilder.cc that add mounts or hosts set no setting.
use googlectf2023_fastbox.Prelude.{ℕ, ◌≡◌, refl, Bool, false, not, ◌&&◌, Option, none, some}
use googlectf2023_fastbox.Text.{Bytes, codes, bytes_eq, starts_with}
use googlectf2023_fastbox.Mounts
use googlectf2023_fastbox.Mounts.Removal
use googlectf2023_fastbox.Mounts.{Mounts}
use googlectf2023_fastbox.Status.{Status, ok_status, error, StatusOr, value, status}
use googlectf2023_fastbox.NetworkProxy.Filtering
use googlectf2023_fastbox.NetworkProxy.Filtering.{AllowedHosts, NetLib}
use googlectf2023_fastbox.PolicyBuilder.State.{PolicyBuilder, set_error, enable_namespaces, ◌▸◌}
use googlectf2023_fastbox.PolicyBuilder.Groups.Network
use googlectf2023_fastbox.PolicyBuilder.Groups.Network.{with_hosts, on_hosts}
use googlectf2023_fastbox.PolicyBuilder.Settings.{
  Settled, Settled-call, Settled-▸, Settled-enable_namespaces, settings_of, either-settings,
}
use googlectf2023_fastbox.PolicyBuilder.FileMounts.{
  FileSystem, proc_self, validate_absolute_path, mounted, checked, checked_file, checked_directory,
  add_file_at, add_file, add_directory_at, add_directory, set_root_writable, add_tmpfs,
}

mounted-settings :
    (b : PolicyBuilder) (r : Mounts × Status) → settings_of (mounted b r) ≡ settings_of b
unfolding set_error
mounted-settings b (m, ok_status) = refl
mounted-settings b (m, error code) = refl

checked-settings :
    (fs : FileSystem) (outside : Bytes) (is_ro : Bool) (excepted : Bytes → Bool)
    (add : Bytes → Mounts → Mounts × Status) (path : StatusOr Bytes) (b : PolicyBuilder)
    → settings_of (checked fs outside is_ro excepted add path b) ≡ settings_of b
unfolding set_error
checked-settings fs outside is_ro excepted add (status code) b = refl
checked-settings fs outside is_ro excepted add (value path) b =
    either-settings (starts_with path proc_self && not (excepted path)) _ _ b refl (
      either-settings (not is_ro && fs.is_on_read_only_dev path) _ _ b refl
        (mounted-settings b (add path b.mounts)))

Settled-checked :
    (f : PolicyBuilder → PolicyBuilder)
    → ((b : PolicyBuilder) → settings_of (f b) ≡ settings_of b)
    → Settled (enable_namespaces ▸ (λ b. some (f b)))
Settled-checked f h =
    Settled-▸ enable_namespaces (λ b. some (f b)) Settled-enable_namespaces (Settled-call f h)

pub Settled-add_file_at :
    (fs : FileSystem) (outside inside : Bytes) (is_ro : Bool)
    → Settled (add_file_at fs outside inside is_ro)
unfolding add_file_at
Settled-add_file_at fs outside inside is_ro =
    Settled-checked (checked_file fs outside inside is_ro) (
      checked-settings fs outside is_ro (λ path. bytes_eq path (codes "/proc/self/cpuset"))
        (λ path. Mounts.add_file_at fs.stat path inside is_ro) (validate_absolute_path outside))

pub Settled-add_directory_at :
    (fs : FileSystem) (outside inside : Bytes) (is_ro : Bool)
    → Settled (add_directory_at fs outside inside is_ro)
unfolding add_directory_at
Settled-add_directory_at fs outside inside is_ro =
    Settled-checked (checked_directory fs outside inside is_ro) (
      checked-settings fs outside is_ro (λ path. false)
        (λ path. Mounts.add_directory_at fs.stat path inside is_ro)
        (validate_absolute_path outside))

pub Settled-add_file :
    (fs : FileSystem) (path : Bytes) (is_ro : Bool) → Settled (add_file fs path is_ro)
unfolding add_file
Settled-add_file fs path is_ro = Settled-add_file_at fs path path is_ro

pub Settled-add_directory :
    (fs : FileSystem) (path : Bytes) (is_ro : Bool) → Settled (add_directory fs path is_ro)
unfolding add_directory
Settled-add_directory fs path is_ro = Settled-add_directory_at fs path path is_ro

pub Settled-set_root_writable : Settled set_root_writable
unfolding set_root_writable
Settled-set_root_writable =
    Settled-checked (λ b. record b { mounts = Mounts.set_root_writable b.mounts }) (λ b. refl)

pub Settled-add_tmpfs :
    (fs : FileSystem) (inside : Bytes) (size : ℕ) → Settled (add_tmpfs fs inside size)
unfolding add_tmpfs
Settled-add_tmpfs fs inside size =
    Settled-checked (λ b. mounted b (Removal.add_tmpfs fs.stat inside size b.mounts))
      (λ b. mounted-settings b (Removal.add_tmpfs fs.stat inside size b.mounts))

on_hosts-settings :
    (f : AllowedHosts → AllowedHosts × Status) (o : Option AllowedHosts) (b : PolicyBuilder)
    → settings_of (on_hosts f o b) ≡ settings_of b
unfolding set_error
on_hosts-settings f none b = refl
on_hosts-settings f (some hosts) b = by_status (f hosts)
  where
    by_status : (r : AllowedHosts × Status) → settings_of (with_hosts b r) ≡ settings_of b
    by_status (hosts', ok_status) = refl
    by_status (hosts', error code) = refl

pub Settled-allow_ipv4 :
    (lib : NetLib) (ip_and_mask : Bytes) (port : ℕ)
    → Settled (Network.allow_ipv4 lib ip_and_mask port)
unfolding Network.allow_ipv4
Settled-allow_ipv4 lib ip_and_mask port =
    Settled-call _
      (λ b. on_hosts-settings (Filtering.allow_ipv4 lib ip_and_mask port) b.allowed_hosts b)

pub Settled-allow_ipv6 :
    (lib : NetLib) (ip_and_mask : Bytes) (port : ℕ)
    → Settled (Network.allow_ipv6 lib ip_and_mask port)
unfolding Network.allow_ipv6
Settled-allow_ipv6 lib ip_and_mask port =
    Settled-call _
      (λ b. on_hosts-settings (Filtering.allow_ipv6 lib ip_and_mask port) b.allowed_hosts b)

pub ruleset mount_rules = (
  Settled-add_file_at, Settled-add_directory_at, Settled-add_file, Settled-add_directory,
  Settled-set_root_writable, Settled-add_tmpfs,
)
