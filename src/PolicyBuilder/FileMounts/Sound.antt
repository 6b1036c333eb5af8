-- ===== src/PolicyBuilder/FileMounts/Sound.antt =====
-- The methods of sandboxed_api/sandbox2/policybuilder.cc that add mounts keep the rules.
use googlectf2023_fastbox.Prelude.{ℕ, ◌≡◌, refl, sym, Bool, some, false, arith}
use googlectf2023_fastbox.Text.{Bytes, codes, bytes_eq}
use googlectf2023_fastbox.Mounts
use googlectf2023_fastbox.Mounts.Removal
use googlectf2023_fastbox.Mounts.{Mounts}
use googlectf2023_fastbox.Status.{Status, ok_status, error, StatusOr, value, status}
use googlectf2023_fastbox.PolicyBuilder.State.{PolicyBuilder, set_error, enable_namespaces, ◌▸◌}
use googlectf2023_fastbox.PolicyBuilder.Keeps.{Keeps, Keeps-call, Keeps-▸}
use googlectf2023_fastbox.PolicyBuilder.Keeps.Same.{rules_of, Keeps-same, IsSound-same}
use googlectf2023_fastbox.PolicyBuilder.FileMounts.{
  FileSystem, validate_absolute_path, mounted, checked, checked_file, checked_directory,
  add_file_at, add_file, add_directory_at, add_directory, set_root_writable, add_tmpfs,
}

pub Keeps-enable_namespaces : Keeps enable_namespaces
unfolding enable_namespaces
Keeps-enable_namespaces = Keeps-same _ (λ b c h. ground arith)

mounted-rules : (b : PolicyBuilder) (r : Mounts × Status) → rules_of (mounted b r) ≡ rules_of b
unfolding set_error
mounted-rules b (m, ok_status) = refl
mounted-rules b (m, error code) = refl

checked-rules :
    (fs : FileSystem) (outside : Bytes) (is_ro : Bool) (excepted : Bytes → Bool)
    (add : Bytes → Mounts → Mounts × Status) (path : StatusOr Bytes) (b : PolicyBuilder)
    → rules_of (checked fs outside is_ro excepted add path b) ≡ rules_of b
unfolding set_error
checked-rules fs outside is_ro excepted add (status code) b = refl
checked-rules fs outside is_ro excepted add (value path) b =
    ground (arith, mounted-rules b (add path b.mounts))

Keeps-checked :
    (f : PolicyBuilder → PolicyBuilder)
    → ((b : PolicyBuilder) → rules_of (f b) ≡ rules_of b)
    → Keeps (enable_namespaces ▸ (λ b. some (f b)))
Keeps-checked f h =
    Keeps-▸ enable_namespaces (λ b. some (f b)) Keeps-enable_namespaces
      (Keeps-call f (λ b s. IsSound-same b (f b) (sym (h b)) s))

pub Keeps-add_file_at :
    (fs : FileSystem) (outside inside : Bytes) (is_ro : Bool)
    → Keeps (add_file_at fs outside inside is_ro)
unfolding add_file_at
Keeps-add_file_at fs outside inside is_ro = Keeps-checked (checked_file fs outside inside is_ro) (
    checked-rules fs outside is_ro (λ path. bytes_eq path (codes "/proc/self/cpuset"))
      (λ path. Mounts.add_file_at fs.stat path inside is_ro) (validate_absolute_path outside))

pub Keeps-add_directory_at :
    (fs : FileSystem) (outside inside : Bytes) (is_ro : Bool)
    → Keeps (add_directory_at fs outside inside is_ro)
unfolding add_directory_at
Keeps-add_directory_at fs outside inside is_ro =
    Keeps-checked (checked_directory fs outside inside is_ro) (
      checked-rules fs outside is_ro (λ path. false)
        (λ path. Mounts.add_directory_at fs.stat path inside is_ro)
        (validate_absolute_path outside))

pub Keeps-add_file :
    (fs : FileSystem) (path : Bytes) (is_ro : Bool) → Keeps (add_file fs path is_ro)
unfolding add_file
Keeps-add_file fs path is_ro = Keeps-add_file_at fs path path is_ro

pub Keeps-add_directory :
    (fs : FileSystem) (path : Bytes) (is_ro : Bool) → Keeps (add_directory fs path is_ro)
unfolding add_directory
Keeps-add_directory fs path is_ro = Keeps-add_directory_at fs path path is_ro

pub Keeps-set_root_writable : Keeps set_root_writable
unfolding set_root_writable
Keeps-set_root_writable =
    Keeps-checked (λ b. record b { mounts = Mounts.set_root_writable b.mounts }) (λ b. refl)

pub Keeps-add_tmpfs :
    (fs : FileSystem) (inside : Bytes) (size : ℕ) → Keeps (add_tmpfs fs inside size)
unfolding add_tmpfs
Keeps-add_tmpfs fs inside size =
    Keeps-checked (λ b. mounted b (Removal.add_tmpfs fs.stat inside size b.mounts))
      (λ b. mounted-rules b (Removal.add_tmpfs fs.stat inside size b.mounts))

pub ruleset mount_rules = (
  Keeps-enable_namespaces, Keeps-add_file_at, Keeps-add_directory_at, Keeps-add_file,
  Keeps-add_directory, Keeps-set_root_writable, Keeps-add_tmpfs,
)
