-- ===== src/PolicyBuilder/Rules/Known.antt =====
-- Policies with labels are made of known instructions, before and after their jumps are resolved.
use googlectf2023_fastbox.Prelude.{
  ℕ, ◌+◌, ◌≡◌, refl, Bool, true, ◌&&◌, List, [], ◌∷◌, Option, none, some, Option-cases, arith, inl,
  inr,
}
use googlectf2023_fastbox.Bpf.{SockFilter}
use googlectf2023_fastbox.Bpf.Labels.{
  BpfLabel, BpfLabels, Item, insn, jump, label, seccomp_bpf_label, assemble, marked, no_labels,
  Resolved, resolve, resolve_one, then_one, bpf_resolve_jumps, resolve_bpf_func,
}
use googlectf2023_fastbox.PolicyBuilder.Verify.Sound.{
  is_known, all_known, AllKnown, &&-left, &&-right,
}

abbrev pub known_items : List Item → Bool
known_items [] = true
known_items (insn i ∷ items) = is_known i.code && known_items items
known_items (jump name ∷ items) = known_items items
known_items (label name ∷ items) = known_items items

resolve_one-AllKnown :
    (offset : ℕ) (i : SockFilter) (r : Resolved) {s : Resolved}
    → resolve_one offset i r ≡ some s
    → is_known i.code ≡ true
    → AllKnown r.filter
    → AllKnown s.filter
unfolding resolve_one
resolve_one-AllKnown offset i r h k ks = ground arith

resolve-AllKnown :
    (offset : ℕ) (p : List SockFilter) (ls : List BpfLabel) {s : Resolved}
    → resolve offset p ls ≡ some s
    → AllKnown p
    → AllKnown s.filter
unfolding resolve
resolve-AllKnown offset [] ls {s} h k = ground arith
resolve-AllKnown offset (i ∷ rest) ls {s} h k =
    started (resolve (offset + 1) rest ls)
      (λ r e. resolve-AllKnown (offset + 1) rest ls {s = r} e (&&-right (is_known i.code) _ k)) h
  where
    started :
        (o : Option Resolved)
        → ((r : Resolved) → o ≡ some r → AllKnown r.filter)
        → then_one offset i o ≡ some s
        → AllKnown s.filter
    started none ih e = cc
    started (some r) ih e =
        resolve_one-AllKnown offset i r e (&&-left (is_known i.code) (all_known rest) k) (ih r refl)

marked-AllKnown :
    (mark : ℕ) (o : Option (ℕ × BpfLabels))
    (rest : BpfLabels → Option (List SockFilter × BpfLabels)) (p : List SockFilter) (l : BpfLabels)
    → marked mark o rest ≡ some (p, l)
    → ((ls : BpfLabels) (q : List SockFilter) (l' : BpfLabels)
        → rest ls ≡ some (q, l')
        → AllKnown q)
    → AllKnown p
marked-AllKnown mark none rest p l h ih = cc
marked-AllKnown mark (some (id, ls)) rest p l h ih = elim (Option-cases (rest ls)) [
  | inl e ↦ ground arith
  | inr ((q, l'), e) ↦ ground (arith, ih ls q l' e)
]

assemble-AllKnown :
    (items : List Item) (ls : BpfLabels) (p : List SockFilter) (l : BpfLabels)
    → assemble items ls ≡ some (p, l)
    → known_items items ≡ true
    → AllKnown p
unfolding assemble
assemble-AllKnown [] ls p l h k = ground arith
assemble-AllKnown (insn i ∷ items) ls p l h k = elim (Option-cases (assemble items ls)) [
  | inl e ↦ ground arith
  | inr ((q, l'), e) ↦
      ground (arith, assemble-AllKnown items ls q l' e (&&-right (is_known i.code) _ k))
]
assemble-AllKnown (jump name ∷ items) ls p l h k =
    marked-AllKnown _ (seccomp_bpf_label ls name) (assemble items) p l h
      (λ ls' q l' e. assemble-AllKnown items ls' q l' e k)
assemble-AllKnown (label name ∷ items) ls p l h k =
    marked-AllKnown _ (seccomp_bpf_label ls name) (assemble items) p l h
      (λ ls' q l' e. assemble-AllKnown items ls' q l' e k)

bpf_resolve_jumps-AllKnown :
    (ls : List BpfLabel) (p : List SockFilter) {s : Resolved}
    → bpf_resolve_jumps ls p ≡ some s
    → AllKnown p
    → AllKnown s.filter
bpf_resolve_jumps-AllKnown ls p {s} h k = elim (Option-cases (resolve 0 p ls)) [
  | inl e ↦ unfold bpf_resolve_jumps in ground arith
  | inr (r, e) ↦ unfold bpf_resolve_jumps in ground (arith, resolve-AllKnown 0 p ls e k)
]

pub resolve_bpf_func-AllKnown :
    (items : List Item) (p : List SockFilter) (failed : Bool)
    → resolve_bpf_func items ≡ some (p, failed)
    → known_items items ≡ true
    → AllKnown p
unfolding resolve_bpf_func
resolve_bpf_func-AllKnown items p failed h k = elim (Option-cases (assemble items no_labels)) [
  | inl e ↦ ground arith
  | inr ((q, l), e) ↦ elim (Option-cases (bpf_resolve_jumps l.labels q)) [
    | inl e' ↦ ground arith
    | inr (r, e') ↦ ground (
      arith,
      bpf_resolve_jumps-AllKnown l.labels q e' (assemble-AllKnown items no_labels q l e k),
    )
  ]
]
