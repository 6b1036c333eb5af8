-- ===== src/Mounts/Resolve/Found.antt =====
-- What `ResolvePath` of sandboxed_api/sandbox2/mounts.cc finds after the calls that add mounts.
use googlectf2023_fastbox.Prelude.{
  ◌≡◌, refl, ap, ◌∙◌, inl, inr, Bool, true, false, not, ◌&&◌, List, [], ◌∷◌, ◌++◌, Option, none,
  some, if◌then◌else◌, ◌==◌, arith, Bool-cases,
}
use googlectf2023_fastbox.Text.{Bytes, bytes_eq, bytes_eq_iff, strip_prefix, str_join}
use googlectf2023_fastbox.Status.{
  Status, StatusCode, ok_status, error, StatusOr, value, status, invalid_argument,
}
use googlectf2023_fastbox.FilePath.{is_absolute_path, clean_path, join_path}
use googlectf2023_fastbox.Mounts.{
  Node, file_node, dir_node, tmpfs_node, root_node, MountTree, node_of, entries_of, find, Mounts,
  Stat, bool_eq, is_same_file, is_equivalent_node, insert, insert_at, check_node, with_tree,
  components,
}
use googlectf2023_fastbox.Mounts.Tree.{tree_at, node_at, lookup}
use googlectf2023_fastbox.Mounts.Insert.{Holds}
use googlectf2023_fastbox.Mounts.Calls.{insert-Holds, passed}
use googlectf2023_fastbox.Mounts.Resolve.{
  tail_parts, outside_of, below_node, resolve_at, resolve_path,
}

-- On a path to a node the loop comes to the switch over the node.
resolve_at-lookup :
    (parts : List Bytes) (t : MountTree) (n : Node)
    → lookup parts t ≡ some n
    → resolve_at parts t ≡ outside_of (some n)
unfolding resolve_at
resolve_at-lookup [] t n h = ap outside_of h
resolve_at-lookup (cur ∷ parts) t n h =
    by_find (find cur (entries_of t)) (λ u e. resolve_at-lookup parts u n e) h
  where
    by_find :
        (o : Option MountTree)
        → ((u : MountTree) → lookup parts u ≡ some n → resolve_at parts u ≡ outside_of (some n))
        → node_at (elim o [ none ↦ none | some u ↦ tree_at parts u ]) ≡ some n
        → (elim o as (λ _. StatusOr Bytes) [
          | none ↦ below_node (node_of t) (str_join (cur ∷ parts) b'/')
          | some u ↦ resolve_at parts u
        ])
          ≡ outside_of (some n)
    by_find none deeper e = absurd (cc e)
    by_find (some u) deeper e = deeper u e

-- Where a path leads to a mounted directory and its next part has no entry there, what is left of
-- the path is resolved below the directory's path outside.
resolve_at-below :
    (parts rest : List Bytes) (cur outside : Bytes) (writable : Bool) (t u : MountTree)
    → tree_at parts t ≡ some u
    → node_of u ≡ some (dir_node outside writable)
    → find cur (entries_of u) ≡ none
    → resolve_at (parts ++ (cur ∷ rest)) t ≡ value (join_path outside (str_join (cur ∷ rest) b'/'))
unfolding resolve_at
resolve_at-below [] rest cur outside writable t u h hn hf =
    ap
      (λ o. elim o as (λ _. StatusOr Bytes) [
        | none ↦ below_node (node_of t) (str_join (cur ∷ rest) b'/')
        | some v ↦ resolve_at rest v
      ])
      no_entry
    ∙ ap (λ n. below_node n (str_join (cur ∷ rest) b'/')) its_node
  where
    no_entry : find cur (entries_of t) ≡ none
    no_entry = cc (h, hf)

    its_node : node_of t ≡ some (dir_node outside writable)
    its_node = cc (h, hn)
resolve_at-below (part ∷ parts) rest cur outside writable t u h hn hf =
    by_find (find part (entries_of t))
      (λ u' e. resolve_at-below parts rest cur outside writable u' u e hn hf) h
  where
    by_find :
        (o : Option MountTree)
        → ((u' : MountTree)
            → tree_at parts u' ≡ some u
            → resolve_at (parts ++ (cur ∷ rest)) u'
              ≡ value (join_path outside (str_join (cur ∷ rest) b'/')))
        → (elim o as (λ _. Option MountTree) [ none ↦ none | some u' ↦ tree_at parts u' ]) ≡ some u
        → (elim o as (λ _. StatusOr Bytes) [
          | none ↦ below_node (node_of t) (str_join (part ∷ (parts ++ (cur ∷ rest))) b'/')
          | some u' ↦ resolve_at (parts ++ (cur ∷ rest)) u'
        ])
          ≡ value (join_path outside (str_join (cur ∷ rest) b'/'))
    by_find none deeper e = absurd (cc e)
    by_find (some u') deeper e = deeper u' e

below_root :
    (s : Bytes)
    → not (is_absolute_path s) ≡ false
    → bytes_eq s (b'/' ∷ []) ≡ false
    → tail_parts (strip_prefix s b'/') ≡ components s
unfolding is_absolute_path
below_root [] ha hr = absurd (cc ha)
below_root (x ∷ []) ha hr = absurd (ground arith)
below_root (x ∷ y ∷ s) ha hr = elim (Bool-cases (x == b'/')) [
  | inl e ↦ rw e refl
  | inr e ↦ rw e refl
]

-- A call of `Insert` that succeeds has seen a clean path that is absolute and not the root.
insert-tail :
    (stat : Stat) (path : Bytes) (new : Node) (m : Mounts)
    → (insert stat path new m).1 ≡ ok_status
    → tail_parts (strip_prefix (clean_path path) b'/') ≡ components (clean_path path)
unfolding insert
insert-tail stat path new m h = by_node (check_node new) (passed _ _ m _ h).1
  where
    by_node :
        (o : Option StatusCode)
        → (elim o as (λ _. Mounts × Status) [
          | some code ↦ (m, error code)
          | none ↦
              if not (is_absolute_path (clean_path path))
              then (m, error invalid_argument)
              else if bytes_eq (clean_path path) (b'/' ∷ [])
              then (m, error invalid_argument)
              else with_tree m (insert_at stat (components (clean_path path)) new m.mount_tree)
        ]).1
          ≡ ok_status
        → tail_parts (strip_prefix (clean_path path) b'/') ≡ components (clean_path path)
    by_node (some code) e = absurd (cc e)
    by_node none e =
        let is_abs = passed (not (is_absolute_path (clean_path path))) invalid_argument m _ e in
        let not_root =
          passed (bytes_eq (clean_path path) (b'/' ∷ [])) invalid_argument m _ is_abs.1 in
        below_root (clean_path path) is_abs.0 not_root.0

same_file_refl : (stat : Stat) (o : Bytes) → is_same_file stat o o ≡ true
unfolding is_same_file
same_file_refl stat o = rw ((bytes_eq_iff o o).1 refl) refl

still_same :
    (stat : Stat) (o1 o2 outside : Bytes) (b : Bool)
    → (b && is_same_file stat o1 o2) ≡ true
    → value o2 ≡ value outside
    → is_same_file stat o1 outside ≡ true
still_same stat o1 o2 outside true h e = cc (h, e)
still_same stat o1 o2 outside false h e = absurd (cc h)

-- Equivalent nodes stand for the same file outside.
equivalent_outside :
    (stat : Stat) (n new : Node) (outside : Bytes)
    → is_equivalent_node stat n new ≡ true
    → outside_of (some new) ≡ value outside
    → (o : Bytes) × (outside_of (some n) ≡ value o) × (is_same_file stat o outside ≡ true)
unfolding is_equivalent_node
equivalent_outside stat (file_node o1 w1) (file_node o2 w2) outside h e =
    (o1, refl, still_same stat o1 o2 outside (bool_eq w1 w2) h e)
equivalent_outside stat (dir_node o1 w1) (dir_node o2 w2) outside h e =
    (o1, refl, still_same stat o1 o2 outside (bool_eq w1 w2) h e)
equivalent_outside stat (tmpfs_node o1) (tmpfs_node o2) outside h e = absurd (cc e)
equivalent_outside stat (root_node w1) (root_node w2) outside h e = absurd (cc e)
equivalent_outside stat (file_node o1 w1) _ outside h e = absurd (cc h)
equivalent_outside stat (dir_node o1 w1) _ outside h e = absurd (cc h)
equivalent_outside stat (tmpfs_node o1) _ outside h e = absurd (cc h)
equivalent_outside stat (root_node w1) _ outside h e = absurd (cc h)

held_outside :
    (stat : Stat) (new : Node) (o : Option Node) (outside : Bytes) (h : Holds stat new o)
    → outside_of (some new) ≡ value outside
    → (out : Bytes) × (outside_of (some h.node) ≡ value out)
      × (is_same_file stat out outside ≡ true)
held_outside stat new o outside h e = elim (h.same) [
  | inl same ↦ (outside, ap (λ n. outside_of (some n)) same ∙ e, same_file_refl stat outside)
  | inr equivalent ↦ equivalent_outside stat h.node new outside equivalent e
]

-- Where adding a file or a directory at an absolute path succeeds, ResolvePath of that path then
-- gives the path outside that was added, or one that names the same file.
pub resolve_path-insert :
    (stat : Stat) (path : Bytes) (new : Node) (outside : Bytes) (m : Mounts)
    → is_absolute_path path ≡ true
    → outside_of (some new) ≡ value outside
    → (insert stat path new m).1 ≡ ok_status
    → (out : Bytes) × (resolve_path path (insert stat path new m).0 ≡ value out)
      × (is_same_file stat out outside ≡ true)
unfolding resolve_path
resolve_path-insert stat path new outside m ha e h =
    let held = insert-Holds stat path new m h in
    let o = held_outside stat new _ outside held e in
    (
      o.0,
      ap
            (λ b.
              if not b
              then status invalid_argument
              else resolve_at (tail_parts (strip_prefix (clean_path path) b'/'))
                  (insert stat path new m).0.mount_tree)
            ha
          ∙ ap (λ parts. resolve_at parts (insert stat path new m).0.mount_tree)
              (insert-tail stat path new m h)
          ∙ resolve_at-lookup _ _ held.node held.held
          ∙ o.1,
      o.2,
    )
