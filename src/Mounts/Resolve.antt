-- ===== src/Mounts/Resolve.antt =====
-- sandboxed_api/sandbox2/mounts.cc: where a path inside leads outside.
pub mod Found
use googlectf2023_fastbox.Prelude.{
  ℕ, Bool, true, false, not, List, [], ◌∷◌, ◌++◌, Option, none, some, if◌then◌else◌,
}
use googlectf2023_fastbox.Text.{Bytes, codes, empty, strip_prefix, str_split, str_join}
use googlectf2023_fastbox.Status.{StatusOr, value, status, invalid_argument, not_found}
use googlectf2023_fastbox.FilePath.{is_absolute_path, clean_path, join_path}
use googlectf2023_fastbox.Mounts.{
  Node, file_node, dir_node, tmpfs_node, root_node, MountTree, Entries, tree, nil, cons, node_of,
  entries_of, find, Mounts,
}

-- The parts that the loop of `ResolvePath` splits off, until its tail is empty.
abbrev pub tail_parts : Bytes → List Bytes
tail_parts tail = if empty tail then [] else str_split tail b'/'

-- The switch at the end of the loop.
abbrev pub outside_of : Option Node → StatusOr Bytes
outside_of (some (file_node outside writable)) = value outside
outside_of (some (dir_node outside writable)) = value outside
outside_of (some (root_node writable)) = status not_found
outside_of (some (tmpfs_node options)) = status not_found
outside_of none = status not_found

-- Where the tree does not go on.
abbrev pub below_node : Option Node → Bytes → StatusOr Bytes
below_node (some (dir_node outside writable)) tail = value (join_path outside tail)
below_node (some (file_node outside writable)) tail = status not_found
below_node (some (root_node writable)) tail = status not_found
below_node (some (tmpfs_node options)) tail = status not_found
below_node none tail = status not_found

-- The loop of `ResolvePath`; the tail is the parts that are left, joined.
unfoldable pub resolve_at : List Bytes → MountTree → StatusOr Bytes
resolve_at [] t = outside_of (node_of t)
resolve_at (cur ∷ parts) t = elim (find cur (entries_of t)) [
  | none ↦ below_node (node_of t) (str_join (cur ∷ parts) b'/')
  | some u ↦ resolve_at parts u
]

-- ResolvePath
unfoldable pub resolve_path : Bytes → Mounts → StatusOr Bytes
resolve_path path m =
    if not (is_absolute_path path)
    then status invalid_argument
    else resolve_at (tail_parts (strip_prefix (clean_path path) b'/')) m.mount_tree
