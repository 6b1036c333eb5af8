-- ===== src/Mounts/Insert.antt =====
-- What an insertion into the tree of sandboxed_api/sandbox2/mounts.cc leaves behind.
use googlectf2023_fastbox.Prelude.{
  ◌≡◌, refl, sym, ap, Bool, true, false, not, ◌&&◌, ◌⊎◌, inl, inr, List, [], ◌∷◌, Option, none,
  some, if◌then◌else◌,
}
use mathlib.Core.Path.{subst}
use googlectf2023_fastbox.Text.{Bytes}
use googlectf2023_fastbox.Status.{Status, StatusCode, ok_status, error, failed_precondition}
use googlectf2023_fastbox.Mounts.{
  Node, MountTree, tree, node_of, no_entries, has_file_node, Stat, is_equivalent_node, set_node,
  insert_at, put_back,
}
use googlectf2023_fastbox.Mounts.Tree.{node_at, lookup, below, tree_at-put_back}

-- The end of an insertion that succeeds: the node is there, or one that counts as the same.
pub record Holds (stat : Stat) (new : Node) (o : Option Node) : Type 0 where
  pub node : Node
  pub held : o ≡ some node
  pub same : (node ≡ new) ⊎ (is_equivalent_node stat node new ≡ true)

-- What is true of the branch that is taken, if that branch is a success.
either-ok :
    (P : MountTree → Type 0) (b : Bool) (x y : MountTree × Status)
    → (b ≡ true → x.1 ≡ ok_status → P x.0)
    → (b ≡ false → y.1 ≡ ok_status → P y.0)
    → (if◌then◌else◌ {A = MountTree × Status} b x y).1 ≡ ok_status
    → P (if◌then◌else◌ {A = MountTree × Status} b x y).0
either-ok P true x y px py h = px refl h
either-ok P false x y px py h = py refl h

error-ne-ok : (P : Type 0) (code : StatusCode) → error code ≡ ok_status → P
error-ne-ok P code h = cc

set_node-Holds :
    (stat : Stat) (new : Node) (t : MountTree)
    → (set_node stat new t).1 ≡ ok_status
    → Holds stat new (node_of (set_node stat new t).0)
unfolding set_node
set_node-Holds stat new (tree (some m) es) h =
    either-ok (λ t. Holds stat new (node_of t)) (is_equivalent_node stat m new) _ _
      (λ e ok. record { node = m; held = refl; same = inr e }) (λ e bad. error-ne-ok _ _ bad) h
set_node-Holds stat new (tree none es) h =
    either-ok (λ t. Holds stat new (node_of t)) (has_file_node (some new) && not (no_entries es)) _
      _ (λ e bad. error-ne-ok _ _ bad) (λ e ok. record { node = new; held = refl; same = inl refl })
      h

put_back-Holds :
    (stat : Stat) (new : Node) (part : Bytes) (t child : MountTree) (st : Status) (qs : List Bytes)
    → Holds stat new (lookup qs child)
    → Holds stat new (lookup (part ∷ qs) (put_back part t (child, st)).0)
put_back-Holds stat new part t child st qs h =
    subst (Holds stat new) (sym (ap node_at (tree_at-put_back part t child st qs))) h

put_back-status :
    (part : Bytes) (t child : MountTree) (st : Status)
    → (put_back part t (child, st)).1 ≡ ok_status
    → st ≡ ok_status
put_back-status part (tree n es) child st h = h

-- Where the insertion along a path succeeds, the path leads to the new node, or to one that was
-- there and is equivalent to it.
pub insert_at-Holds :
    (stat : Stat) (part : Bytes) (parts : List Bytes) (new : Node) (t : MountTree)
    → (insert_at stat (part ∷ parts) new t).1 ≡ ok_status
    → Holds stat new (lookup (part ∷ parts) (insert_at stat (part ∷ parts) new t).0)
unfolding insert_at
insert_at-Holds stat part [] new t h =
    put_back-Holds stat new part t _ _ []
      (set_node-Holds stat new (below part t) (put_back-status part t _ _ h))
insert_at-Holds stat part (next ∷ parts) new t h =
    put_back-Holds stat new part t _ _ (next ∷ parts) (
      either-ok (λ u. Holds stat new (lookup (next ∷ parts) u))
        (has_file_node (node_of (below part t))) (below part t, error failed_precondition)
        (insert_at stat (next ∷ parts) new (below part t)) (λ e bad. error-ne-ok _ _ bad)
        (λ e ok. insert_at-Holds stat next parts new (below part t) ok)
        (put_back-status part t _ _ h))
