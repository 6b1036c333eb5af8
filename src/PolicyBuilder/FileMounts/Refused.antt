-- ===== src/PolicyBuilder/FileMounts/Refused.antt =====
-- What `AddFileAt` of sandboxed_api/sandbox2/policybuilder.cc refuses to mount, and what follows for the
-- policy.
use googlectf2023_fastbox.Prelude.{◌≡◌, ◌≢◌, ap, Bool, true, false, not, ◌&&◌, none, some, arith}
use googlectf2023_fastbox.Text.{Bytes, codes, bytes_eq, starts_with}
use googlectf2023_fastbox.Status.{ok_status, value}
use googlectf2023_fastbox.FilePath.{is_absolute_path, clean_path}
use googlectf2023_fastbox.PolicyBuilder.State.{PolicyBuilder, enable_namespaces, set_error}
use googlectf2023_fastbox.PolicyBuilder.FileMounts.{
  FileSystem, proc_self, validate_path, validate_absolute_path, checked_file, add_file_at,
}
use googlectf2023_fastbox.PolicyBuilder.Build.{Policy, MovedFrom, try_build}
use googlectf2023_fastbox.PolicyBuilder.Build.Once.{try_build-value}

-- A file may be mounted by a path that is absolute and clean, and that is not below /proc/self unless
-- it is /proc/self/cpuset; and to be written to, if it is not on a read-only device.
abbrev pub may_mount : FileSystem → Bytes → Bool → Bool
may_mount fs outside is_ro =
    is_absolute_path outside
    && bytes_eq (clean_path outside) outside
    && not (
        starts_with (clean_path outside) proc_self
        && not (bytes_eq (clean_path outside) (codes "/proc/self/cpuset")))
    && not (not is_ro && fs.is_on_read_only_dev (clean_path outside))

enabled :
    (b : PolicyBuilder)
    → b.use_namespaces ≡ true
    → enable_namespaces b ≡ some (record b { requires_namespaces = true })
unfolding enable_namespaces
enabled b h = ground arith

refused :
    (fs : FileSystem) (outside inside : Bytes) (is_ro : Bool) (b : PolicyBuilder)
    → may_mount fs outside is_ro ≡ false
    → ((checked_file fs outside inside is_ro b).mounts ≡ b.mounts)
      × ((checked_file fs outside inside is_ro b).last_status ≢ ok_status)
unfolding validate_absolute_path validate_path set_error
refused fs outside inside is_ro b h = (ground arith, λ e. ground arith)

-- Where a file may not be mounted, AddFileAt on a builder with namespaces leaves the mounts as they
-- were and sets an error, so that TryBuild returns no policy.
pub add_file_at-refused :
    (fs : FileSystem) (outside inside : Bytes) (is_ro : Bool) (moved : MovedFrom)
    (b : PolicyBuilder)
    → b.use_namespaces ≡ true
    → may_mount fs outside is_ro ≡ false
    → (c : PolicyBuilder) × (add_file_at fs outside inside is_ro b ≡ some c)
      × (c.mounts ≡ b.mounts)
      × ((p : Policy) (c' : PolicyBuilder) → try_build moved c ≢ (value p, c'))
unfolding add_file_at
add_file_at-refused fs outside inside is_ro moved b ns h =
    let d = record b { requires_namespaces = true } in
    let (same, bad) = refused fs outside inside is_ro d h in
    (
      checked_file fs outside inside is_ro d,
      ap (λ o. elim o [ none ↦ none | some c ↦ some (checked_file fs outside inside is_ro c) ])
          (enabled b ns),
      same,
      λ p c' built.
          let (can, _, _) = try_build-value moved (checked_file fs outside inside is_ro d) built in
          bad can.no_error,
    )
