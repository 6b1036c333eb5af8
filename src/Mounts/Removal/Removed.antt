-- ===== src/Mounts/Removal/Removed.antt =====
-- What a path leads to after `Remove` of sandboxed_api/sandbox2/mounts.cc.
use googlectf2023_fastbox.Prelude.{
  ◌≡◌, refl, sym, ap, ◌∙◌, ◌⊎◌, inl, inr, Bool, true, false, ◌&&◌, List, [], ◌∷◌, ◌++◌, Option,
  none, some, if◌then◌else◌, Bool-cases,
}
use mathlib.Core.Path.{subst}
use googlectf2023_fastbox.Text.{Bytes, bytes_eq, bytes_eq_iff}
use googlectf2023_fastbox.Status.{Status, ok_status, error, failed_precondition}
use googlectf2023_fastbox.Mounts.{
  Node, MountTree, Entries, tree, nil, node_of, entries_of, empty_tree, find, assign, or_empty,
  has_file_node, Stat, set_node, insert_at,
}
use googlectf2023_fastbox.Mounts.Tree.{tree_at, node_at, lookup, find-assign, find-assign_other}
use googlectf2023_fastbox.Mounts.Removal.{with_child, remove_at}

-- The walk of a removal that succeeds: the steps down to the tree that it clears.
pub data Removes : List Bytes → MountTree → MountTree → Type 0 where
  cleared : (t : MountTree) → Removes [] t empty_tree
  stepped :
      {part : Bytes} {parts : List Bytes} {n : Option Node} {es : Entries} {u u' : MountTree}
      → has_file_node n ≡ false
      → find part es ≡ some u
      → Removes parts u u'
      → Removes (part ∷ parts) (tree n es) (tree n (assign part u' es))

child_walked :
    (part : Bytes) (t t' : MountTree) (o : Option MountTree)
    → with_child part t o ≡ some t'
    → (u' : MountTree) × (o ≡ some u') × (t' ≡ tree (node_of t) (assign part u' (entries_of t)))
child_walked part (tree n es) t' none h = absurd (cc h)
child_walked part (tree n es) t' (some u') h = (u', refl, sym (cc h))

pub remove_at-Removes :
    (parts : List Bytes) (t t' : MountTree) → remove_at parts t ≡ some t' → Removes parts t t'
unfolding remove_at
remove_at-Removes [] t t' h = subst (Removes [] t) (cc h) (cleared t)
remove_at-Removes (part ∷ parts) (tree n es) t' h =
    by_node (has_file_node n) refl (find part es) refl (λ u u' e. remove_at-Removes parts u u' e) h
  where
    by_node :
        (b : Bool)
        → has_file_node n ≡ b
        → (o : Option MountTree) → find part es ≡ o
        → ((u u' : MountTree) → remove_at parts u ≡ some u' → Removes parts u u')
        → (elim b as (λ _. Option MountTree) [
          | true ↦ none
          | false ↦ elim o [
            | none ↦ none
            | some u ↦ with_child part (tree n es) (remove_at parts u)
          ]
        ])
          ≡ some t'
        → Removes (part ∷ parts) (tree n es) t'
    by_node true eb o eo ih e = absurd (cc e)
    by_node false eb none eo ih e = absurd (cc e)
    by_node false eb (some u) eo ih e =
        let c = child_walked part (tree n es) t' (remove_at parts u) e in
        subst (Removes (part ∷ parts) (tree n es)) (sym c.2) (stepped eb eo (ih u c.0 c.1))

lookup-empty : (qs : List Bytes) → lookup qs empty_tree ≡ none
lookup-empty [] = refl
lookup-empty (q ∷ qs) = refl

abbrev down : List Bytes → Option MountTree → Option MountTree
down qs none = none
down qs (some u) = tree_at qs u

down-tree_at :
    (q : Bytes) (qs : List Bytes) (n : Option Node) (es : Entries)
    → tree_at (q ∷ qs) (tree n es) ≡ down qs (find q es)
down-tree_at q qs n es = by_find (find q es)
  where
    by_find :
        (o : Option MountTree)
        → (elim o as (λ _. Option MountTree) [ none ↦ none | some u ↦ tree_at qs u ]) ≡ down qs o
    by_find none = refl
    by_find (some u) = refl

-- What is found below the part that a step went to, and below the others.
step_there :
    (part : Bytes) (qs : List Bytes) (n : Option Node) (es : Entries) (u' : MountTree)
    → tree_at (part ∷ qs) (tree n (assign part u' es)) ≡ tree_at qs u'
step_there part qs n es u' =
    down-tree_at part qs n (assign part u' es) ∙ ap (down qs) (find-assign part u' es)

step_elsewhere :
    (part q : Bytes) (qs : List Bytes) (n : Option Node) (es : Entries) (u' : MountTree)
    → bytes_eq part q ≡ false
    → tree_at (q ∷ qs) (tree n (assign part u' es)) ≡ tree_at (q ∷ qs) (tree n es)
step_elsewhere part q qs n es u' h =
    down-tree_at q qs n (assign part u' es)
    ∙ ap (down qs) (find-assign_other part q u' es h)
    ∙ sym (down-tree_at q qs n es)

pub Removes-gone :
    {parts : List Bytes} {t t' : MountTree}
    → Removes parts t t'
    → (qs : List Bytes) → lookup (parts ++ qs) t' ≡ none
Removes-gone (cleared t) qs = lookup-empty qs
Removes-gone (stepped {part = part} {parts = parts} {n = n} {es = es} {u' = u'} hn hf r) qs =
    ap node_at (step_there part (parts ++ qs) n es u') ∙ Removes-gone r qs

-- A path that does not go to the other path or below it.
abbrev pub Apart : List Bytes → List Bytes → Type 0
Apart [] qs = ⊥
Apart (p ∷ ps) [] = Unit {0}
Apart (p ∷ ps) (q ∷ qs) = (bytes_eq p q ≡ false) ⊎ Apart ps qs

pub Removes-keeps :
    {parts : List Bytes} {t t' : MountTree}
    → Removes parts t t'
    → (qs : List Bytes) → Apart parts qs
    → lookup qs t' ≡ lookup qs t
Removes-keeps (cleared t) qs h = absurd h
Removes-keeps (stepped hn hf r) [] h = refl
Removes-keeps (stepped {part = part} {n = n} {es = es} {u' = u'} hn hf r) (q ∷ qs) (inl h) =
    ap node_at (step_elsewhere part q qs n es u' h)
Removes-keeps (stepped {part = part} {n = n} {es = es} {u = u} {u' = u'} hn hf r) (q ∷ qs) (inr h) =
    elim (Bool-cases (bytes_eq part q)) [
      | inl e ↦
          subst (λ x. lookup (x ∷ qs) (tree n (assign part u' es)) ≡ lookup (x ∷ qs) (tree n es))
            ((bytes_eq_iff part q).0 e)
            (ap node_at (step_there part qs n es u')
              ∙ Removes-keeps r qs h
              ∙ ap node_at (sym (down-tree_at part qs n es ∙ ap (down qs) hf)))
      | inr e ↦ ap node_at (step_elsewhere part q qs n es u' e)
    ]

set_node-empty : (stat : Stat) (new : Node) → (set_node stat new empty_tree).1 ≡ ok_status
unfolding set_node
set_node-empty stat new = by_file (has_file_node (some new))
  where
    by_file :
        (b : Bool)
        → (if◌then◌else◌ {A = MountTree × Status}
            (b && false)
            (empty_tree, error failed_precondition)
            (tree (some new) nil, ok_status)).1
          ≡ ok_status
    by_file true = refl
    by_file false = refl

Removes-node :
    {part : Bytes} {parts : List Bytes} {t t' : MountTree}
    → Removes (part ∷ parts) t t'
    → has_file_node (node_of t') ≡ false
Removes-node (stepped hn hf r) = hn

abbrev insert_below : Stat → Node → Bytes → List Bytes → MountTree → MountTree × Status
insert_below stat new next parts child =
    if has_file_node (node_of child)
    then (child, error failed_precondition)
    else insert_at stat (next ∷ parts) new child

pub Removes-insert :
    {parts : List Bytes} {t t' : MountTree} (stat : Stat) (new : Node)
    → Removes parts t t'
    → (insert_at stat parts new t').1 ≡ ok_status
unfolding insert_at
Removes-insert stat new (cleared t) = refl
Removes-insert stat new (stepped {part = part} {n = n} {es = es} hn hf (cleared t)) =
    ap (λ o. (set_node stat new (or_empty o)).1) (find-assign part empty_tree es)
    ∙ set_node-empty stat new
Removes-insert stat new
      (stepped {part = part} {n = n} {es = es} hn hf
        (stepped {part = next} {parts = parts} {n = n'} {es = es'} {u' = u'} hn' hf' r)) =
    ap (λ o. (insert_below stat new next parts (or_empty o)).1)
      (find-assign part (tree n' (assign next u' es')) es)
    ∙ ap
        (λ b.
          (if◌then◌else◌ {A = MountTree × Status} b
            (tree n' (assign next u' es'), error failed_precondition)
            (insert_at stat (next ∷ parts) new (tree n' (assign next u' es')))).1)
        hn'
    ∙ Removes-insert stat new (stepped {n = n'} {es = es'} hn' hf' r)
