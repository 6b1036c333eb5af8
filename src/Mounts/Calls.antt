-- ===== src/Mounts/Calls.antt =====
-- `Insert` of sandboxed_api/sandbox2/mounts.cc as its callers see it: what a path leads to before and
-- after.
use googlectf2023_fastbox.Prelude.{
  ℕ, ◌≡◌, refl, ap, ◌∙◌, Bool, true, false, not, List, [], ◌∷◌, Option, none, some, if◌then◌else◌,
  ◌==◌,
}
use googlectf2023_fastbox.Text.{Bytes, bytes_eq, str_split, strip_prefix, onto_first}
use googlectf2023_fastbox.FilePath.{is_absolute_path, clean_path}
use googlectf2023_fastbox.Status.{Status, StatusCode, ok_status, error, invalid_argument}
use googlectf2023_fastbox.Mounts.{
  Node, MountTree, tree, entries_of, no_entries, Mounts, new_mounts, node_of, has_file_node, Stat,
  insert_at, insert, check_node, components, with_tree,
}
use googlectf2023_fastbox.Mounts.Tree.{lookup, tree_at, insert_at-keeps}
use googlectf2023_fastbox.Mounts.Insert.{Holds, insert_at-Holds}
use googlectf2023_fastbox.Mounts.Leaves.{FilesAreLeaves, insert_at-FilesAreLeaves}

-- A check that has not refused the call.
pub passed :
    (b : Bool) (code : StatusCode) (m : Mounts) (rest : Mounts × Status)
    → (if◌then◌else◌ {A = Mounts × Status} b (m, error code) rest).1 ≡ ok_status
    → (b ≡ false) × (rest.1 ≡ ok_status)
passed true code m rest h = absurd (cc h)
passed false code m rest h = (refl, h)

-- Either the arguments are refused and nothing changes, or the path is walked.
data Outcome (stat : Stat) (path : Bytes) (new : Node) (m : Mounts) : Mounts × Status → Type 0 where
  refused : (code : StatusCode) → Outcome stat path new m (m, error code)
  walked : Outcome stat path new m (
    record m { mount_tree = (insert_at stat (components (clean_path path)) new m.mount_tree).0 },
    (insert_at stat (components (clean_path path)) new m.mount_tree).1,
  )

unless-Outcome :
    (stat : Stat) (path : Bytes) (new : Node) (m : Mounts) (b : Bool) (code : StatusCode)
    (rest : Mounts × Status)
    → Outcome stat path new m rest
    → Outcome stat path new m (if b then (m, error code) else rest)
unless-Outcome stat path new m true code rest o = refused code
unless-Outcome stat path new m false code rest o = o

insert-Outcome :
    (stat : Stat) (path : Bytes) (new : Node) (m : Mounts)
    → Outcome stat path new m (insert stat path new m)
unfolding insert
insert-Outcome stat path new m = unless-Outcome stat path new m _ _ _ (by_node (check_node new))
  where
    by_node :
        (o : Option StatusCode)
        → Outcome stat path new m (elim o [
          | some code ↦ (m, error code)
          | none ↦
              if not (is_absolute_path (clean_path path))
              then (m, error invalid_argument)
              else if bytes_eq (clean_path path) (b'/' ∷ [])
              then (m, error invalid_argument)
              else with_tree m (insert_at stat (components (clean_path path)) new m.mount_tree)
        ])
    by_node (some code) = refused code
    by_node none =
        unless-Outcome stat path new m (not (is_absolute_path (clean_path path))) invalid_argument
          (if bytes_eq (clean_path path) (b'/' ∷ [])
            then (m, error invalid_argument)
            else with_tree m (insert_at stat (components (clean_path path)) new m.mount_tree))
          (unless-Outcome stat path new m (bytes_eq (clean_path path) (b'/' ∷ [])) invalid_argument
            (with_tree m (insert_at stat (components (clean_path path)) new m.mount_tree)) walked)

-- A path always has components.
data Parts : List Bytes → Type 0 where
  parts_of : (part : Bytes) (parts : List Bytes) → Parts (part ∷ parts)

str_split-Parts : (s : Bytes) (c : ℕ) → Parts (str_split s c)
str_split-Parts [] c = parts_of [] []
str_split-Parts (x ∷ s) c = by_rest (str_split s c) (str_split-Parts s c) (x == c)
  where
    by_rest :
        (rest : List Bytes)
        → Parts rest
        → (b : Bool) → Parts (if b then [] ∷ rest else onto_first x rest)
    by_rest rest p true = parts_of [] rest
    by_rest [] p false = parts_of _ _
    by_rest (part ∷ parts) p false = parts_of (x ∷ part) parts

insert_at-found :
    (stat : Stat) (parts : List Bytes) (new : Node) (t : MountTree)
    → Parts parts
    → (insert_at stat parts new t).1 ≡ ok_status
    → Holds stat new (lookup parts (insert_at stat parts new t).0)
insert_at-found stat [] new t p h = elim p [ ]
insert_at-found stat (part ∷ parts) new t p h = insert_at-Holds stat part parts new t h

-- Where `Insert` succeeds, the clean path leads to the new node, or to one that counts as equivalent
-- to it.
pub insert-Holds :
    (stat : Stat) (path : Bytes) (new : Node) (m : Mounts)
    → (insert stat path new m).1 ≡ ok_status
    → Holds stat new (lookup (components (clean_path path)) (insert stat path new m).0.mount_tree)
insert-Holds stat path new m h =
    by_outcome (insert stat path new m) (insert-Outcome stat path new m) h
  where
    by_outcome :
        (r : Mounts × Status)
        → Outcome stat path new m r
        → r.1 ≡ ok_status
        → Holds stat new (lookup (components (clean_path path)) r.0.mount_tree)
    by_outcome _ (refused code) h = cc
    by_outcome _ walked h =
        insert_at-found stat (components (clean_path path)) new m.mount_tree
          (str_split-Parts (strip_prefix (clean_path path) b'/') b'/') h

-- Every node that a path leads to is there as it was after `Insert`, whether that succeeds or fails.
pub insert-keeps :
    (stat : Stat) (path : Bytes) (new : Node) (m : Mounts) (other : List Bytes) (n : Node)
    → lookup other m.mount_tree ≡ some n
    → lookup other (insert stat path new m).0.mount_tree ≡ some n
insert-keeps stat path new m other n h =
    by_outcome (insert stat path new m) (insert-Outcome stat path new m)
  where
    by_outcome :
        (r : Mounts × Status) → Outcome stat path new m r → lookup other r.0.mount_tree ≡ some n
    by_outcome _ (refused code) = h
    by_outcome _ walked =
        insert_at-keeps stat (components (clean_path path)) new m.mount_tree other n h

-- The root is no file, and below a file there is nothing.
pub record IsWell (m : Mounts) : Type 0 where
  pub root : has_file_node (node_of m.mount_tree) ≡ false
  pub leaves : FilesAreLeaves m.mount_tree

insert_at-root :
    (stat : Stat) (parts : List Bytes) (new : Node) (t : MountTree)
    → node_of (insert_at stat parts new t).0 ≡ node_of t
unfolding insert_at
insert_at-root stat [] new t = refl
insert_at-root stat (part ∷ []) new (tree n es) = refl
insert_at-root stat (part ∷ next ∷ parts) new (tree n es) = refl

-- `Insert` keeps, whether it succeeds or fails, that the root is no file and that no file has anything
-- below it.
pub insert-IsWell :
    (stat : Stat) (path : Bytes) (new : Node) (m : Mounts)
    → IsWell m
    → IsWell (insert stat path new m).0
insert-IsWell stat path new m w =
    by_outcome (insert stat path new m) (insert-Outcome stat path new m)
  where
    by_outcome : (r : Mounts × Status) → Outcome stat path new m r → IsWell r.0
    by_outcome _ (refused code) = w
    by_outcome _ walked = record {
      root =
          ap has_file_node (insert_at-root stat (components (clean_path path)) new m.mount_tree)
          ∙ w.root;
      leaves =
          insert_at-FilesAreLeaves stat (components (clean_path path)) new m.mount_tree w.root
            w.leaves;
    }

new_mounts-leaf :
    (path : List Bytes) (u : MountTree)
    → tree_at path new_mounts.mount_tree ≡ some u
    → has_file_node (node_of u) ≡ true
    → no_entries (entries_of u) ≡ true
new_mounts-leaf [] u h f = cc
new_mounts-leaf (q ∷ qs) u h f = cc

pub new_mounts-IsWell : IsWell new_mounts
new_mounts-IsWell = record { root = refl; leaves = record { leaf = new_mounts-leaf } }
