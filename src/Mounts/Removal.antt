-- ===== src/Mounts/Removal.antt =====
-- sandboxed_api/sandbox2/mounts.cc: `Remove`, `AddTmpfs` and the listing of the mounts.
pub mod Removed
pub mod Again
use googlectf2023_fastbox.Prelude.{
  ℕ, zero, suc, ◌+◌, ◌/◌, ◌%◌, Bool, true, false, not, List, [], ◌∷◌, ◌++◌, Option, none, some,
  if◌then◌else◌, ltb,
}
use googlectf2023_fastbox.Text.{Bytes, codes, bytes_eq}
use googlectf2023_fastbox.Status.{Status, ok_status, error, invalid_argument, not_found}
use googlectf2023_fastbox.FilePath.{is_absolute_path, clean_path}
use googlectf2023_fastbox.Mounts.{
  Node, file_node, dir_node, tmpfs_node, root_node, MountTree, Entries, tree, nil, cons, node_of,
  entries_of, empty_tree, find, assign, has_file_node, Mounts, path_contains_null_byte, components,
  Stat, insert,
}

abbrev pub with_child : Bytes → MountTree → Option MountTree → Option MountTree
with_child part (tree n es) none = none
with_child part (tree n es) (some child) = some (tree n (assign part child es))

-- The walk of `Remove`; `none` is NotFound, which leaves the tree as it is.
unfoldable pub remove_at : List Bytes → MountTree → Option MountTree
remove_at [] t = some empty_tree
remove_at (part ∷ parts) t = elim (has_file_node (node_of t)) [
  | true ↦ none
  | false ↦ elim (find part (entries_of t)) [
    | none ↦ none
    | some u ↦ with_child part t (remove_at parts u)
  ]
]

abbrev pub removed : Mounts → Option MountTree → Mounts × Status
removed m none = (m, error not_found)
removed m (some t) = (record m { mount_tree = t }, ok_status)

-- Remove
unfoldable pub remove : Bytes → Mounts → Mounts × Status
unfolding path_contains_null_byte
remove path m =
    let fixed_path = clean_path path in
    if path_contains_null_byte path
    then (m, error invalid_argument)
    else if not (is_absolute_path fixed_path)
    then (m, error invalid_argument)
    else if bytes_eq fixed_path (b'/' ∷ [])
    then (m, error invalid_argument)
    else removed m (remove_at (components fixed_path) m.mount_tree)

-- A size_t in decimal, of at most 20 digits.
unfoldable pub decimal : ℕ → ℕ → Bytes
decimal zero n = []
decimal (suc fuel) n =
    let more = decimal fuel (n / 10) in (if ltb n 10 then [] else more) ++ ((b'0' + n % 10) ∷ [])

-- AddTmpfs
unfoldable pub add_tmpfs : Stat → Bytes → ℕ → Mounts → Mounts × Status
unfolding decimal
add_tmpfs stat inside sz m = insert stat inside (tmpfs_node (codes "size=" ++ decimal 20 sz)) m

-- The two lists, outside and inside.
abbrev Listing : Type 0
Listing = List Bytes × List Bytes

abbrev both : Listing → Listing → Listing
both (o, i) (o', i') = (o ++ o', i ++ i')

abbrev rw_str : Bool → Bytes
rw_str true = codes "W "
rw_str false = codes "R "

abbrev listed_node : Option Node → Bytes → Listing
listed_node (some (dir_node outside writable)) path =
    ((outside ++ codes "/") ∷ [], (rw_str writable ++ path ++ codes "/") ∷ [])
listed_node (some (file_node outside writable)) path =
    (outside ∷ [], (rw_str writable ++ path) ∷ [])
listed_node (some (tmpfs_node options)) path = ((codes "tmpfs: " ++ options) ∷ [], path ∷ [])
listed_node (some (root_node writable)) path = ([], [])
listed_node none path = ([], [])

-- RecursivelyListMountsImpl
unfoldable mutual
  pub list_tree : MountTree → Bytes → Listing
  list_tree (tree n es) path = both (listed_node n path) (list_entries es path)

  pub list_entries : Entries → Bytes → Listing
  list_entries nil path = ([], [])
  list_entries (cons name t es) path =
      both (list_tree t (path ++ (b'/' ∷ name))) (list_entries es path)

-- RecursivelyListMounts
unfoldable pub recursively_list_mounts : Mounts → Listing
unfolding list_tree
recursively_list_mounts m = list_tree m.mount_tree []
