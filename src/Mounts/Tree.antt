-- ===== src/Mounts/Tree.antt =====
-- What paths lead to in the tree of sandboxed_api/sandbox2/mounts.cc, before and after an insertion.
use googlectf2023_fastbox.Prelude.{
  ◌≡◌, refl, sym, ap, ◌∙◌, Bool, true, false, not, ◌&&◌, Bool-cases, inl, inr, List, [], ◌∷◌,
  Option, none, some, arith, if◌then◌else◌,
}
use mathlib.Core.Path.{subst}
use googlectf2023_fastbox.Text.{Bytes, bytes_eq, bytes_eq_iff}
use googlectf2023_fastbox.Status.{Status, error, failed_precondition}
use googlectf2023_fastbox.Mounts.{
  Node, MountTree, Entries, tree, nil, cons, node_of, entries_of, find, assign, or_empty,
  no_entries, has_file_node, Stat, is_equivalent_node, set_node, insert_at, put_back,
}

-- The tree, and the node, that the path leads to.
abbrev pub tree_at : List Bytes → MountTree → Option MountTree
tree_at [] t = some t
tree_at (part ∷ parts) t = elim (find part (entries_of t)) [
  | none ↦ none
  | some u ↦ tree_at parts u
]

abbrev pub node_at : Option MountTree → Option Node
node_at none = none
node_at (some t) = node_of t

abbrev pub lookup : List Bytes → MountTree → Option Node
lookup parts t = node_at (tree_at parts t)

bytes_eq_refl : (a : Bytes) → bytes_eq a a ≡ true
bytes_eq_refl a = (bytes_eq_iff a a).1 refl

pub find-assign :
    (name : Bytes) (t : MountTree) (es : Entries) → find name (assign name t es) ≡ some t
find-assign name t nil = rw (bytes_eq_refl name) refl
find-assign name t (cons key u es) = elim (Bool-cases (bytes_eq key name)) [
  | inl e ↦ rw (e, e) refl
  | inr e ↦ rw (e, e) (find-assign name t es)
]

pub find-assign_other :
    (name other : Bytes) (t : MountTree) (es : Entries)
    → bytes_eq name other ≡ false
    → find other (assign name t es) ≡ find other es
find-assign_other name other t nil h = rw h refl
find-assign_other name other t (cons key u es) h = elim (Bool-cases (bytes_eq key name)) [
  | inl e ↦
      let differs : bytes_eq key other ≡ false = rw ((bytes_eq_iff key name).0 e) h in
      ground (arith, differs)
  | inr e ↦ ground (arith, find-assign_other name other t es h)
]

-- The tree below `part`, there or not.
abbrev pub below : Bytes → MountTree → MountTree
below part t = or_empty (find part (entries_of t))

pub tree_at-put_back :
    (part : Bytes) (t child : MountTree) (st : Status) (qs : List Bytes)
    → tree_at (part ∷ qs) (put_back part t (child, st)).0 ≡ tree_at qs child
tree_at-put_back part (tree n es) child st qs =
    ap (λ o. elim o [ none ↦ none | some u ↦ tree_at qs u ]) (find-assign part child es)

pub tree_at-other :
    (part q : Bytes) (t child : MountTree) (st : Status) (qs : List Bytes)
    → bytes_eq part q ≡ false
    → tree_at (q ∷ qs) (put_back part t (child, st)).0 ≡ tree_at (q ∷ qs) t
tree_at-other part q (tree n es) child st qs h =
    ap (λ o. elim o [ none ↦ none | some u ↦ tree_at qs u ]) (find-assign_other part q child es h)

-- What is found below `part` is found in the tree below.
found :
    (part : Bytes) (t : MountTree) (qs : List Bytes) (n : Node)
    → lookup (part ∷ qs) t ≡ some n
    → lookup qs (below part t) ≡ some n
found part t qs n h = by_find (find part (entries_of t)) h
  where
    by_find :
        (o : Option MountTree)
        → node_at (elim o [ none ↦ none | some u ↦ tree_at qs u ]) ≡ some n
        → lookup qs (or_empty o) ≡ some n
    by_find none e = cc
    by_find (some u) e = e

-- One step of the walk does not lose what is below.
put_back-keeps :
    (part : Bytes) (t child : MountTree) (st : Status) (path : List Bytes) (n : Node)
    → ((qs : List Bytes) → lookup qs (below part t) ≡ some n → lookup qs child ≡ some n)
    → lookup path t ≡ some n
    → lookup path (put_back part t (child, st)).0 ≡ some n
put_back-keeps part (tree m es) child st [] n k h = h
put_back-keeps part t child st (q ∷ qs) n k h = elim (Bool-cases (bytes_eq part q)) [
  | inl e ↦
      subst (λ x. lookup (x ∷ qs) (put_back part t (child, st)).0 ≡ some n)
        ((bytes_eq_iff part q).0 e)
        (ap node_at (tree_at-put_back part t child st qs)
          ∙ k qs (
              found part t qs n
                (subst (λ x. lookup (x ∷ qs) t ≡ some n) (sym ((bytes_eq_iff part q).0 e)) h)))
  | inr e ↦ ap node_at (tree_at-other part q t child st qs e) ∙ h
]

pub either-keeps :
    (P : MountTree → Type 0) (b : Bool) (x y : MountTree × Status)
    → P x.0
    → P y.0
    → P (if◌then◌else◌ {A = MountTree × Status} b x y).0
either-keeps P true x y px py = px
either-keeps P false x y px py = py

placed-keeps :
    (new : Node) (es : Entries) (path : List Bytes) (n : Node)
    → lookup path (tree none es) ≡ some n
    → lookup path (tree (some new) es) ≡ some n
placed-keeps new es [] n h = cc
placed-keeps new es (q ∷ qs) n h = h

set_node-keeps :
    (stat : Stat) (new : Node) (t : MountTree) (path : List Bytes) (n : Node)
    → lookup path t ≡ some n
    → lookup path (set_node stat new t).0 ≡ some n
unfolding set_node
set_node-keeps stat new (tree (some m) es) path n h =
    either-keeps (λ t. lookup path t ≡ some n) (is_equivalent_node stat m new) _ _ h h
set_node-keeps stat new (tree none es) path n h =
    either-keeps (λ t. lookup path t ≡ some n) (has_file_node (some new) && not (no_entries es)) _ _
      h (placed-keeps new es path n h)

-- A node that the tree holds is held by it after any insertion, whether that succeeds or fails.
pub insert_at-keeps :
    (stat : Stat) (parts : List Bytes) (new : Node) (t : MountTree) (path : List Bytes) (n : Node)
    → lookup path t ≡ some n
    → lookup path (insert_at stat parts new t).0 ≡ some n
unfolding insert_at
insert_at-keeps stat [] new t path n h = h
insert_at-keeps stat (part ∷ []) new t path n h =
    put_back-keeps part t _ _ path n (λ qs e. set_node-keeps stat new (below part t) qs n e) h
insert_at-keeps stat (part ∷ next ∷ parts) new t path n h =
    put_back-keeps part t _ _ path n
      (λ qs e.
        either-keeps (λ u. lookup qs u ≡ some n) (has_file_node (node_of (below part t)))
          (below part t, error failed_precondition)
          (insert_at stat (next ∷ parts) new (below part t)) e
          (insert_at-keeps stat (next ∷ parts) new (below part t) qs n e))
      h
