-- ===== src/PolicyBuilder/FileMounts.antt =====
-- sandboxed_api/sandbox2/policybuilder.cc: the methods that add to the mounts.
pub mod Sound
pub mod Refused
use googlectf2023_fastbox.Prelude.{
  Bool, true, false, not, ◌&&◌, List, Option, none, some, if◌then◌else◌, ℕ,
}
use googlectf2023_fastbox.Text.{Bytes, codes, bytes_eq, starts_with}
use googlectf2023_fastbox.Status.{
  Status, StatusCode, ok_status, error, invalid_argument, failed_precondition, internal, StatusOr,
  value, status,
}
use googlectf2023_fastbox.FilePath.{is_absolute_path, clean_path}
use googlectf2023_fastbox.Mounts
use googlectf2023_fastbox.Mounts.Removal
use googlectf2023_fastbox.Mounts.{Mounts, Stat}
use googlectf2023_fastbox.PolicyBuilder.State.{
  PolicyBuilder, Method, set_error, enable_namespaces, ◌▸◌,
}

-- The file system: stat(2), and the read-only flag that statvfs(2) finds for `IsOnReadOnlyDev`.
pub record FileSystem : Type 0 where
  pub stat : Stat
  pub is_on_read_only_dev : Bytes → Bool

unfoldable pub validate_path : Bytes → StatusOr Bytes
validate_path path =
    let fixed_path = clean_path path in
    if not (bytes_eq fixed_path path) then status invalid_argument else value fixed_path

unfoldable pub validate_absolute_path : Bytes → StatusOr Bytes
unfolding validate_path
validate_absolute_path path =
    if not (is_absolute_path path) then status invalid_argument else validate_path path

abbrev pub proc_self : Bytes
proc_self = codes "/proc/self"

-- The mounts after a call, and SetError(InternalError) where it failed.
abbrev pub mounted : PolicyBuilder → Mounts × Status → PolicyBuilder
mounted b (m, ok_status) = record b { mounts = m }
mounted b (m, error code) = set_error internal (record b { mounts = m })

-- The tests that AddFileAt and AddDirectoryAt share, with the paths below /proc/self that the one
-- excepts, and the call that follows them.
abbrev pub checked :
    FileSystem
    → Bytes
    → Bool
    → (Bytes → Bool)
    → (Bytes → Mounts → Mounts × Status)
    → StatusOr Bytes
    → PolicyBuilder
    → PolicyBuilder
checked fs outside is_ro excepted add (status code) b = set_error code b
checked fs outside is_ro excepted add (value valid_outside) b =
    if starts_with valid_outside proc_self && not (excepted valid_outside)
    then set_error invalid_argument b
    else if not is_ro && fs.is_on_read_only_dev valid_outside
    then set_error failed_precondition b
    else mounted b (add valid_outside b.mounts)

-- What follows EnableNamespaces.
abbrev pub checked_file : FileSystem → Bytes → Bytes → Bool → PolicyBuilder → PolicyBuilder
checked_file fs outside inside is_ro =
    checked fs outside is_ro (λ path. bytes_eq path (codes "/proc/self/cpuset"))
      (λ path. Mounts.add_file_at fs.stat path inside is_ro) (validate_absolute_path outside)

abbrev pub checked_directory : FileSystem → Bytes → Bytes → Bool → PolicyBuilder → PolicyBuilder
checked_directory fs outside inside is_ro =
    checked fs outside is_ro (λ path. false)
      (λ path. Mounts.add_directory_at fs.stat path inside is_ro) (validate_absolute_path outside)

unfoldable pub add_file_at : FileSystem → Bytes → Bytes → Bool → Method
add_file_at fs outside inside is_ro =
    enable_namespaces ▸ (λ b. some (checked_file fs outside inside is_ro b))

unfoldable pub add_file : FileSystem → Bytes → Bool → Method
unfolding add_file_at
add_file fs path is_ro = add_file_at fs path path is_ro

unfoldable pub add_directory_at : FileSystem → Bytes → Bytes → Bool → Method
add_directory_at fs outside inside is_ro =
    enable_namespaces ▸ (λ b. some (checked_directory fs outside inside is_ro b))

unfoldable pub add_directory : FileSystem → Bytes → Bool → Method
unfolding add_directory_at
add_directory fs path is_ro = add_directory_at fs path path is_ro

unfoldable pub set_root_writable : Method
set_root_writable =
    enable_namespaces ▸ (λ b. some (record b { mounts = Mounts.set_root_writable b.mounts }))

unfoldable pub add_tmpfs : FileSystem → Bytes → ℕ → Method
add_tmpfs fs inside size =
    enable_namespaces ▸ (λ b. some (mounted b (Removal.add_tmpfs fs.stat inside size b.mounts)))
