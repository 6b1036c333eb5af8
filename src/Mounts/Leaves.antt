-- ===== src/Mounts/Leaves.antt =====
-- Files in the tree of sandboxed_api/sandbox2/mounts.cc, and what is below them.
use googlectf2023_fastbox.Prelude.{
  ◌≡◌, refl, sym, ap, ◌∙◌, true, false, not, ◌&&◌, Bool-cases, inl, inr, List, [], ◌∷◌, Option,
  none, some, arith,
}
use mathlib.Core.Path.{subst}
use googlectf2023_fastbox.Text.{Bytes, bytes_eq, bytes_eq_iff}
use googlectf2023_fastbox.Status.{Status}
use googlectf2023_fastbox.Mounts.{
  Node, MountTree, tree, node_of, entries_of, empty_tree, find, or_empty, no_entries, has_file_node,
  Stat, is_equivalent_node, set_node, insert_at, put_back,
}
use googlectf2023_fastbox.Mounts.Tree.{
  tree_at, below, tree_at-put_back, tree_at-other, either-keeps,
}

-- Below a file there is nothing, at any depth.
pub record FilesAreLeaves (t : MountTree) : Type 0 where
  pub leaf :
      (path : List Bytes) (u : MountTree)
      → tree_at path t ≡ some u
      → has_file_node (node_of u) ≡ true
      → no_entries (entries_of u) ≡ true

some-tree : {t u : MountTree} → some t ≡ some u → t ≡ u
some-tree h = cc

true-ne-false : true ≡ false → ⊥
true-ne-false h = cc

put_back-node :
    (part : Bytes) (t child : MountTree) (st : Status)
    → node_of (put_back part t (child, st)).0 ≡ node_of t
put_back-node part (tree n es) child st = refl

put_back-leaf :
    (part : Bytes) (t child : MountTree) (st : Status) (path : List Bytes) (u : MountTree)
    → has_file_node (node_of t) ≡ false
    → FilesAreLeaves t
    → FilesAreLeaves child
    → tree_at path (put_back part t (child, st)).0 ≡ some u
    → has_file_node (node_of u) ≡ true
    → no_entries (entries_of u) ≡ true
put_back-leaf part t child st [] u top lt lc h f =
    let at_top : has_file_node (node_of (put_back part t (child, st)).0) ≡ false =
      ap has_file_node (put_back-node part t child st) ∙ top in
    let same : (put_back part t (child, st)).0 ≡ u = some-tree h in
    absurd (true-ne-false (sym f ∙ sym (ap (λ x. has_file_node (node_of x)) same) ∙ at_top))
put_back-leaf part t child st (q ∷ qs) u top lt lc h f = elim (Bool-cases (bytes_eq part q)) [
  | inl e ↦
      lc.leaf qs u
        (sym (tree_at-put_back part t child st qs)
          ∙ subst (λ x. tree_at (x ∷ qs) (put_back part t (child, st)).0 ≡ some u)
              (sym ((bytes_eq_iff part q).0 e)) h)
        f
  | inr e ↦ lt.leaf (q ∷ qs) u (sym (tree_at-other part q t child st qs e) ∙ h) f
]

nothing-FilesAreLeaves : FilesAreLeaves empty_tree
nothing-FilesAreLeaves = record { leaf = leaf }
  where
    leaf :
        (path : List Bytes) (u : MountTree)
        → tree_at path empty_tree ≡ some u
        → has_file_node (node_of u) ≡ true
        → no_entries (entries_of u) ≡ true
    leaf [] u h f = cc
    leaf (q ∷ qs) u h f = cc

below-FilesAreLeaves :
    (part : Bytes) (t : MountTree) → FilesAreLeaves t → FilesAreLeaves (below part t)
below-FilesAreLeaves part t l = by_find (find part (entries_of t)) refl
  where
    by_find : (o : Option MountTree) → find part (entries_of t) ≡ o → FilesAreLeaves (or_empty o)
    by_find none e = nothing-FilesAreLeaves
    by_find (some u) e = record {
      leaf = λ path v h f.
          l.leaf (part ∷ path) v (ap (λ o. elim o [ none ↦ none | some w ↦ tree_at path w ]) e ∙ h)
            f;
    }

set_node-FilesAreLeaves :
    (stat : Stat) (new : Node) (t : MountTree)
    → FilesAreLeaves t
    → FilesAreLeaves (set_node stat new t).0
unfolding set_node
set_node-FilesAreLeaves stat new (tree (some m) es) l =
    either-keeps FilesAreLeaves (is_equivalent_node stat m new) _ _ l l
set_node-FilesAreLeaves stat new (tree none es) l =
    elim (Bool-cases (has_file_node (some new) && not (no_entries es))) [
      | inl e ↦ rw e l
      | inr e ↦ rw e (record { leaf = λ path u h f. leaf path u h f e })
    ]
  where
    leaf :
        (path : List Bytes) (u : MountTree)
        → tree_at path (tree (some new) es) ≡ some u
        → has_file_node (node_of u) ≡ true
        → (has_file_node (some new) && not (no_entries es)) ≡ false
        → no_entries (entries_of u) ≡ true
    leaf [] u h f e =
        let same : tree (some new) es ≡ u = some-tree h in
        subst (λ x. has_file_node (node_of x) ≡ true → no_entries (entries_of x) ≡ true) same
          (λ g. ground arith) f
    leaf (q ∷ qs) u h f e = l.leaf (q ∷ qs) u h f

-- Insertion keeps files without entries, whether it succeeds or fails, in a tree whose root is no
-- file.
pub insert_at-FilesAreLeaves :
    (stat : Stat) (parts : List Bytes) (new : Node) (t : MountTree)
    → has_file_node (node_of t) ≡ false
    → FilesAreLeaves t
    → FilesAreLeaves (insert_at stat parts new t).0
unfolding insert_at
insert_at-FilesAreLeaves stat [] new t top l = l
insert_at-FilesAreLeaves stat (part ∷ []) new t top l = record {
  leaf = λ path u h f.
      put_back-leaf part t _ _ path u top l
        (set_node-FilesAreLeaves stat new (below part t) (below-FilesAreLeaves part t l)) h f;
}
insert_at-FilesAreLeaves stat (part ∷ next ∷ parts) new t top l =
    let lb = below-FilesAreLeaves part t l in
    record {
      leaf = λ path u h f.
          put_back-leaf part t _ _ path u top l
            (elim (Bool-cases (has_file_node (node_of (below part t)))) [
              | inl e ↦ rw e lb
              | inr e ↦ rw e (insert_at-FilesAreLeaves stat (next ∷ parts) new (below part t) e lb)
            ])
            h f;
    }
