-- ===== src/Mounts/Removal/Again.antt =====
-- `Remove` of sandboxed_api/sandbox2/mounts.cc as its callers see it, and `Insert` after it.
use googlectf2023_fastbox.Prelude.{
  ◌≡◌, refl, sym, ap, Bool, true, false, not, List, [], ◌∷◌, ◌++◌, Option, none, some,
  if◌then◌else◌,
}
use mathlib.Core.Path.{subst}
use googlectf2023_fastbox.Text.{Bytes, bytes_eq}
use googlectf2023_fastbox.Status.{Status, StatusCode, ok_status, error, invalid_argument}
use googlectf2023_fastbox.FilePath.{is_absolute_path, clean_path}
use googlectf2023_fastbox.Mounts.{
  Node, MountTree, Mounts, Stat, path_contains_null_byte, components, check_node, with_tree,
  insert_at, insert,
}
use googlectf2023_fastbox.Mounts.Tree.{lookup}
use googlectf2023_fastbox.Mounts.Removal.{remove_at, removed, remove}
use googlectf2023_fastbox.Mounts.Removal.Removed.{
  Removes, Apart, remove_at-Removes, Removes-gone, Removes-keeps, Removes-insert,
}

-- The checks of `Remove`, all passed, and the walk.
record Passed (m : Mounts) (b1 b2 b3 : Bool) (o : Option MountTree) (r : Mounts × Status)
    : Type 0 where
  no_null : b1 ≡ false
  absolute : b2 ≡ false
  not_root : b3 ≡ false
  left : MountTree
  walk : o ≡ some left
  result : r ≡ (record m { mount_tree = left }, ok_status)

abbrev tested : Mounts → Bool → Bool → Bool → Mounts × Status → Mounts × Status
tested m b1 b2 b3 r =
    if b1
    then (m, error invalid_argument)
    else if b2
    then (m, error invalid_argument)
    else if b3
    then (m, error invalid_argument)
    else r

tested-Passed :
    (m : Mounts) (b1 b2 b3 : Bool) (o : Option MountTree)
    → (tested m b1 b2 b3 (removed m o)).1 ≡ ok_status
    → Passed m b1 b2 b3 o (tested m b1 b2 b3 (removed m o))
tested-Passed m true b2 b3 o h = absurd (cc h)
tested-Passed m false true b3 o h = absurd (cc h)
tested-Passed m false false true o h = absurd (cc h)
tested-Passed m false false false none h = absurd (cc h)
tested-Passed m false false false (some t) h = record {
  no_null = refl;
  absolute = refl;
  not_root = refl;
  left = t;
  walk = refl;
  result = refl;
}

remove-Passed :
    (path : Bytes) (m : Mounts)
    → (remove path m).1 ≡ ok_status
    → Passed m
        (path_contains_null_byte path)
        (not (is_absolute_path (clean_path path)))
        (bytes_eq (clean_path path) (b'/' ∷ []))
        (remove_at (components (clean_path path)) m.mount_tree)
        (remove path m)
unfolding remove
remove-Passed path m h = tested-Passed m _ _ _ _ h

remove-Removes :
    (path : Bytes) (m : Mounts)
    → (remove path m).1 ≡ ok_status
    → Removes (components (clean_path path)) m.mount_tree (remove path m).0.mount_tree
remove-Removes path m h =
    let p = remove-Passed path m h in
    subst (Removes (components (clean_path path)) m.mount_tree)
      (ap (λ r. r.0.mount_tree) (sym p.result))
      (remove_at-Removes (components (clean_path path)) m.mount_tree p.left p.walk)

-- Where `Remove` succeeds, nothing is mounted at the path or below it any more, and every path
-- that does not go to it or below it leads to what it led to before.
pub remove-gone :
    (path : Bytes) (m : Mounts) (below other : List Bytes)
    → (remove path m).1 ≡ ok_status
    → Apart (components (clean_path path)) other
    → (lookup (components (clean_path path) ++ below) (remove path m).0.mount_tree ≡ none)
      × (lookup other (remove path m).0.mount_tree ≡ lookup other m.mount_tree)
remove-gone path m below other h ha =
    let r = remove-Removes path m h in (Removes-gone r below, Removes-keeps r other ha)

inserted :
    (stat : Stat) (new : Node) (m : Mounts) (parts : List Bytes) (b1 b2 b3 : Bool)
    (o : Option StatusCode)
    → b1 ≡ false
    → b2 ≡ false
    → b3 ≡ false
    → o ≡ none
    → (insert_at stat parts new m.mount_tree).1 ≡ ok_status
    → (if◌then◌else◌ {A = Mounts × Status} b1
        (m, error invalid_argument)
        (elim o as (λ _. Mounts × Status) [
          | some code ↦ (m, error code)
          | none ↦
              if b2
              then (m, error invalid_argument)
              else if b3
              then (m, error invalid_argument)
              else with_tree m (insert_at stat parts new m.mount_tree)
        ])).1
      ≡ ok_status
inserted stat new m parts true b2 b3 o h1 h2 h3 ho h = absurd (cc h1)
inserted stat new m parts false true b3 o h1 h2 h3 ho h = absurd (cc h2)
inserted stat new m parts false false true o h1 h2 h3 ho h = absurd (cc h3)
inserted stat new m parts false false false (some code) h1 h2 h3 ho h = absurd (cc ho)
inserted stat new m parts false false false none h1 h2 h3 ho h = h

-- Where `Remove` succeeds, `Insert` at the same path then succeeds with any node that it does not
-- refuse by itself, one that conflicts with what was removed too.
pub remove-insert :
    (stat : Stat) (path : Bytes) (new : Node) (m : Mounts)
    → (remove path m).1 ≡ ok_status
    → check_node new ≡ none
    → (insert stat path new (remove path m).0).1 ≡ ok_status
unfolding insert
remove-insert stat path new m h hn =
    let p = remove-Passed path m h in
    inserted stat new (remove path m).0 (components (clean_path path)) _ _ _ (check_node new)
      p.no_null p.absolute p.not_root hn (Removes-insert stat new (remove-Removes path m h))
