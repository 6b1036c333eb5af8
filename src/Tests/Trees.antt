-- ===== src/Tests/Trees.antt =====
-- Runs of `ResolvePath`, `Remove` and the listing of sandboxed_api/sandbox2/mounts.cc.
use googlectf2023_fastbox.Prelude.{◌≡◌, refl, inl, true, false, [], ◌∷◌, ◌++◌, none, some}
use googlectf2023_fastbox.Text.{Bytes, codes}
use googlectf2023_fastbox.Status.{ok_status, value}
use googlectf2023_fastbox.FilePath.{
  is_absolute_path, clean_path, clean_parts, clean_part, clean_result,
}
use googlectf2023_fastbox.Mounts.{
  Node, file_node, dir_node, MountTree, tree, nil, cons, Mounts, new_mounts, Stat, is_same_file,
  insert, insert_at, set_node, check_node, components,
}
use googlectf2023_fastbox.Mounts.Tree.{lookup}
use googlectf2023_fastbox.Mounts.Resolve.{resolve_path}
use googlectf2023_fastbox.Mounts.Resolve.Found.{resolve_path-insert}
use googlectf2023_fastbox.Mounts.Removal.{remove, remove_at, list_tree, recursively_list_mounts}
use googlectf2023_fastbox.Mounts.Removal.Again.{remove-gone, remove-insert}

-- A system on which no file is found, so that only equal names name the same file.
abbrev no_stat : Stat
no_stat path = none

abbrev etc : Bytes
etc = codes "/etc"

abbrev etc_node : Node
etc_node = dir_node (codes "/srv/etc") false

etc_ok : (insert no_stat etc etc_node new_mounts).1 ≡ ok_status
unfolding insert check_node insert_at set_node clean_path clean_parts clean_part clean_result
    is_absolute_path
etc_ok = refl

resolve_path-insert_example :
    (out : Bytes) × (resolve_path etc (insert no_stat etc etc_node new_mounts).0 ≡ value out)
    × (is_same_file no_stat out (codes "/srv/etc") ≡ true)
unfolding is_absolute_path
resolve_path-insert_example =
    resolve_path-insert no_stat etc etc_node (codes "/srv/etc") new_mounts refl refl etc_ok

abbrev etc_tree : MountTree
etc_tree = tree none (cons (codes "etc") (tree (some etc_node) nil) nil)

abbrev with_etc : Mounts
with_etc = record { mount_tree = etc_tree }

removed_ok : (remove etc with_etc).1 ≡ ok_status
unfolding remove remove_at clean_path clean_parts clean_part clean_result is_absolute_path
removed_ok = refl

remove-gone_example :
    (lookup (components (clean_path etc) ++ (codes "ssl" ∷ [])) (remove etc with_etc).0.mount_tree
      ≡ none)
    × (lookup (codes "lib" ∷ []) (remove etc with_etc).0.mount_tree
        ≡ lookup (codes "lib" ∷ []) with_etc.mount_tree)
unfolding clean_path clean_parts clean_part clean_result is_absolute_path
remove-gone_example =
    remove-gone etc with_etc (codes "ssl" ∷ []) (codes "lib" ∷ []) removed_ok (inl refl)

remove-insert_example :
    (insert no_stat etc (file_node (codes "/srv/passwd") true) (remove etc with_etc).0).1
    ≡ ok_status
unfolding check_node
remove-insert_example =
    remove-insert no_stat etc (file_node (codes "/srv/passwd") true) with_etc removed_ok refl

listed : recursively_list_mounts with_etc ≡ (codes "/srv/etc/" ∷ [], codes "R /etc/" ∷ [])
unfolding recursively_list_mounts list_tree
listed = refl
