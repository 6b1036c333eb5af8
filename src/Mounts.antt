-- ===== src/Mounts.antt =====
-- sandboxed_api/sandbox2/mounts.{h,cc} and mount_tree.proto: the tree of the mounts.
pub mod Tree
pub mod Insert
pub mod Leaves
pub mod Calls
pub mod Resolve
pub mod Removal
use googlectf2023_fastbox.Prelude.{
  ℕ, zero, suc, ◌+◌, Bool, true, false, not, ◌&&◌, ◌||◌, List, [], ◌∷◌, ◌++◌, Option, none, some,
  ◌==◌, if◌then◌else◌,
}
use googlectf2023_fastbox.Text.{Bytes, bytes_eq, empty, str_contains, strip_prefix, str_split}
use googlectf2023_fastbox.Status.{
  Status, StatusCode, ok_status, error, invalid_argument, failed_precondition, not_found, StatusOr,
  value, status,
}
use googlectf2023_fastbox.FilePath.{is_absolute_path, clean_path, join_path}

-- MountTree::Node, the oneof: `outside` and `writable` of a file or a directory, the options of a
-- tmpfs, `writable` of the root. A node with none of them set is left out: no method passes one.
pub data Node : Type 0 where
  file_node dir_node : Bytes → Bool → Node
  tmpfs_node : Bytes → Node
  root_node : Bool → Node

-- MountTree: an optional node, and a map from path components to trees.
mutual
  pub data MountTree : Type 0 where
    tree : Option Node → Entries → MountTree

  pub data Entries : Type 0 where
    nil : Entries
    cons : Bytes → MountTree → Entries → Entries

abbrev pub node_of : MountTree → Option Node
node_of (tree n es) = n

abbrev pub entries_of : MountTree → Entries
entries_of (tree n es) = es

abbrev pub empty_tree : MountTree
empty_tree = tree none nil

-- entries().find(name)
abbrev pub find : Bytes → Entries → Option MountTree
find name nil = none
find name (cons key t es) = if bytes_eq key name then some t else find name es

-- The map with `t` at `name`.
abbrev pub assign : Bytes → MountTree → Entries → Entries
assign name t nil = cons name t nil
assign name t (cons key u es) =
    let rest = assign name t es in if bytes_eq key name then cons key t es else cons key u rest

abbrev pub or_empty : Option MountTree → MountTree
or_empty none = empty_tree
or_empty (some t) = t

abbrev pub no_entries : Entries → Bool
no_entries nil = true
no_entries (cons name t es) = false

abbrev pub has_file_node : Option Node → Bool
has_file_node (some (file_node outside writable)) = true
has_file_node none = false
has_file_node (some (dir_node outside writable)) = false
has_file_node (some (tmpfs_node options)) = false
has_file_node (some (root_node writable)) = false

-- The mounts of a sandbox that is being built.
pub record Mounts : Type 0 where
  pub mount_tree : MountTree

-- The default constructor.
abbrev pub new_mounts : Mounts
new_mounts = record { mount_tree = tree (some (root_node false)) nil }

pub path_contains_null_byte : Bytes → Bool
path_contains_null_byte path = str_contains path 0

abbrev pub bool_eq : Bool → Bool → Bool
bool_eq true b = b
bool_eq false b = not b

-- The device and the inode that stat(2) finds, if it succeeds: the file system is a parameter.
abbrev pub Stat : Type 0
Stat = Bytes → Option (ℕ × ℕ)

abbrev same_stat : Option (ℕ × ℕ) → Option (ℕ × ℕ) → Bool
same_stat none s = false
same_stat (some s) none = false
same_stat (some (dev1, ino1)) (some (dev2, ino2)) = (dev1 == dev2) && (ino1 == ino2)

-- The tree with `child` below `part`.
abbrev pub put_back : Bytes → MountTree → MountTree × Status → MountTree × Status
put_back part (tree n es) (child, st) = (tree n (assign part child es), st)

abbrev check_outside : Bytes → Option StatusCode
check_outside outside =
    if empty outside
    then some invalid_argument
    else if path_contains_null_byte outside
    then some invalid_argument
    else none

-- The switch over the new node.
unfoldable pub check_node : Node → Option StatusCode
unfolding path_contains_null_byte
check_node (file_node outside writable) = check_outside outside
check_node (dir_node outside writable) = check_outside outside
check_node (root_node writable) = some invalid_argument
check_node (tmpfs_node options) = none

abbrev pub with_tree : Mounts → MountTree × Status → Mounts × Status
with_tree m (t, st) = (record m { mount_tree = t }, st)

-- The components of a clean absolute path.
abbrev pub components : Bytes → List Bytes
components fixed_path = str_split (strip_prefix fixed_path b'/') b'/'

module _ (stat : Stat) where
  unfoldable pub is_same_file : Bytes → Bytes → Bool
  is_same_file path1 path2 =
      if bytes_eq path1 path2 then true else same_stat (stat path1) (stat path2)

  unfoldable pub is_equivalent_node : Node → Node → Bool
  unfolding is_same_file
  is_equivalent_node (file_node o1 w1) (file_node o2 w2) = bool_eq w1 w2 && is_same_file o1 o2
  is_equivalent_node (dir_node o1 w1) (dir_node o2 w2) = bool_eq w1 w2 && is_same_file o1 o2
  is_equivalent_node (tmpfs_node o1) (tmpfs_node o2) = bytes_eq o1 o2
  is_equivalent_node (root_node w1) (root_node w2) = bool_eq w1 w2
  is_equivalent_node n1 n2 = false

  -- The end of `Insert`, at the tree that the path leads to.
  unfoldable pub set_node : Node → MountTree → MountTree × Status
  set_node new_node (tree (some node) es) =
      if is_equivalent_node node new_node
      then (tree (some node) es, ok_status)
      else (tree (some node) es, error failed_precondition)
  set_node new_node (tree none es) =
      if has_file_node (some new_node) && not (no_entries es)
      then (tree none es, error failed_precondition)
      else (tree (some new_node) es, ok_status)

  -- The walk of `Insert` along the components; the trees that it creates stay where it fails.
  unfoldable pub insert_at : List Bytes → Node → MountTree → MountTree × Status
  unfolding set_node
  insert_at [] new_node t = (t, ok_status)
  insert_at (final_part ∷ []) new_node t =
      put_back final_part t (set_node new_node (or_empty (find final_part (entries_of t))))
  insert_at (part ∷ next ∷ parts) new_node t =
      let child = or_empty (find part (entries_of t)) in
      let deeper = insert_at (next ∷ parts) new_node child in
      put_back part t
        (if has_file_node (node_of child) then (child, error failed_precondition) else deeper)

  unfoldable pub insert : Bytes → Node → Mounts → Mounts × Status
  unfolding path_contains_null_byte check_node
  insert path new_node m =
      let fixed_path = clean_path path in
      if path_contains_null_byte path
      then (m, error invalid_argument)
      else elim (check_node new_node) [
        | some code ↦ (m, error code)
        | none ↦
            if not (is_absolute_path fixed_path)
            then (m, error invalid_argument)
            else if bytes_eq fixed_path (b'/' ∷ [])
            then (m, error invalid_argument)
            else with_tree m (insert_at (components fixed_path) new_node m.mount_tree)
      ]

  unfoldable pub add_file_at : Bytes → Bytes → Bool → Mounts → Mounts × Status
  add_file_at outside inside is_ro m = insert inside (file_node outside (not is_ro)) m

  unfoldable pub add_file : Bytes → Bool → Mounts → Mounts × Status
  unfolding add_file_at
  add_file path is_ro m = add_file_at path path is_ro m

  unfoldable pub add_directory_at : Bytes → Bytes → Bool → Mounts → Mounts × Status
  add_directory_at outside inside is_ro m = insert inside (dir_node outside (not is_ro)) m

-- SetRootWritable: mutable_root_node() makes the root's node a root node.
unfoldable pub set_root_writable : Mounts → Mounts
set_root_writable m = record m {
  mount_tree = tree (some (root_node true)) (entries_of m.mount_tree);
}

abbrev root_read_only : Option Node → Bool
root_read_only (some (root_node writable)) = not writable
root_read_only none = false
root_read_only (some (file_node o w)) = false
root_read_only (some (dir_node o w)) = false
root_read_only (some (tmpfs_node o)) = false

unfoldable pub is_root_read_only : Mounts → Bool
is_root_read_only m = root_read_only (node_of m.mount_tree)
