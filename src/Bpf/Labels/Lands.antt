-- ===== src/Bpf/Labels/Lands.antt =====
-- Where the jumps of a resolved policy lead.
use googlectf2023_fastbox.Prelude.{
  ℕ, zero, suc, ◌+◌, ◌-◌, ◌<◌, ◌^◌, ◌≡◌, ◌≢◌, refl, sym, ap, ◌∙◌, ◌⊎◌, inl, inr, List, [], ◌∷◌,
  Option, none, some, arith, ◌==◌, Option-cases, length, get_elem?, set, if◌then◌else◌,
}
use mathlib.Core.Option
use mathlib.Core.Path.{subst}
use googlectf2023_fastbox.Bpf.{SockFilter, bpf_stmt, jmp_ja}
use googlectf2023_fastbox.Bpf.Labels.{
  BpfLabel, unplaced, jump_mark, label_mark, Resolved, resolve, resolve_one, then_one,
}

-- JUMP and LABEL of label `k`, as they stand before they are resolved.
pub record IsJump (k : ℕ) (i : SockFilter) : Type 0 where
  pub code : i.code ≡ jmp_ja
  pub jt : i.jt ≡ jump_mark
  pub jf : i.jf ≡ jump_mark
  pub id : i.k ≡ k

pub record IsLabel (k : ℕ) (i : SockFilter) : Type 0 where
  pub code : i.code ≡ jmp_ja
  pub jt : i.jt ≡ label_mark
  pub jf : i.jf ≡ label_mark
  pub id : i.k ≡ k

abbrev pub location_of : List BpfLabel → ℕ → Option ℕ
location_of ls k = Option.map (λ l. l.location) (get_elem? ls k)

-- The walk has not met label `k` in `p`, or has placed it where it stands.
data Placed (offset : ℕ) (p : List SockFilter) (k : ℕ) (at : Option ℕ) : Type 0 where
  unmet : at ≡ some unplaced → Placed offset p k at
  met :
      (t : ℕ) (i : SockFilter)
      → at ≡ some (offset + t)
      → t < length p
      → get_elem? p t ≡ some i
      → IsLabel k i
      → Placed offset p k at

-- A round that makes no error follows rounds that made none.
resolve_one-code :
    (offset : ℕ) (i : SockFilter) (r : Resolved) {s : Resolved}
    → resolve_one offset i r ≡ some s
    → s.code ≡ 0
    → r.code ≡ 0
unfolding resolve_one
resolve_one-code offset i r h c = ground arith

-- It puts one instruction in front of the others.
resolve_one-filter :
    (offset : ℕ) (i : SockFilter) (r : Resolved) (j : ℕ) {s : Resolved}
    → resolve_one offset i r ≡ some s
    → get_elem? s.filter (suc j) ≡ get_elem? r.filter j
unfolding resolve_one
resolve_one-filter offset i r j h = ground arith

location_of-set :
    (ls : List BpfLabel) (i k : ℕ) (v : BpfLabel) {l : BpfLabel}
    → get_elem? ls i ≡ some l
    → location_of (set ls i v) k ≡ (if i == k then some v.location else location_of ls k)
location_of-set [] i k v h = cc
location_of-set (x ∷ ls) zero zero v h = ground arith
location_of-set (x ∷ ls) zero (suc k) v h = ground arith
location_of-set (x ∷ ls) (suc i) zero v h = ground arith
location_of-set (x ∷ ls) (suc i) (suc k) v h = location_of-set ls i k v h ∙ ground arith

-- It leaves the places alone, but for that of a label that it meets.
resolve_one-labels :
    (offset : ℕ) (i : SockFilter) (r : Resolved) (k : ℕ) {s : Resolved}
    → resolve_one offset i r ≡ some s
    → s.code ≡ 0
    → (location_of s.labels k ≡ location_of r.labels k)
      ⊎ (IsLabel k i × (location_of s.labels k ≡ some offset))
unfolding resolve_one
resolve_one-labels offset i r k h c = elim (Option-cases (get_elem? r.labels i.k)) [
  | inl e ↦ ground arith
  | inr (l, e) ↦ ground (arith, location_of-set r.labels i.k k (record l { location = offset }) e)
]

-- A jump that it resolves leads to the place of its label.
resolve_one-jump :
    (offset : ℕ) (i : SockFilter) (r : Resolved) (t : ℕ) {s : Resolved}
    → resolve_one offset i r ≡ some s
    → s.code ≡ 0
    → IsJump i.k i
    → location_of r.labels i.k ≡ some (offset + 1 + t)
    → offset + 1 + t < 2 ^ 32
    → get_elem? s.filter 0 ≡ some (bpf_stmt jmp_ja t)
unfolding resolve_one
resolve_one-jump offset i r t h c jump e fits = elim (Option-cases (get_elem? r.labels i.k)) [
  | inl n ↦ ground arith
  | inr (l, n) ↦ ground arith
]

-- A jump is not resolved while its label is unplaced.
resolve_one-unmet :
    (offset : ℕ) (i : SockFilter) (r : Resolved) {s : Resolved}
    → resolve_one offset i r ≡ some s
    → s.code ≡ 0
    → IsJump i.k i
    → location_of r.labels i.k ≢ some unplaced
unfolding resolve_one
resolve_one-unmet offset i r h c jump e = elim (Option-cases (get_elem? r.labels i.k)) [
  | inl n ↦ ground arith
  | inr (l, n) ↦ ground arith
]

resolve-cons :
    (offset : ℕ) (i : SockFilter) (rest : List SockFilter) (ls : List BpfLabel) {s : Resolved}
    → resolve offset (i ∷ rest) ls ≡ some s
    → (r : Resolved) × (resolve (offset + 1) rest ls ≡ some r) × (resolve_one offset i r ≡ some s)
unfolding resolve
resolve-cons offset i rest ls {s} h = started (resolve (offset + 1) rest ls) h
  where
    started :
        (o : Option Resolved)
        → then_one offset i o ≡ some s
        → (r : Resolved) × (o ≡ some r) × (resolve_one offset i r ≡ some s)
    started none e = cc
    started (some r) e = (r, refl, e)

resolve-nil :
    (offset : ℕ) (ls : List BpfLabel) {s : Resolved} → resolve offset [] ls ≡ some s → s.labels ≡ ls
unfolding resolve
resolve-nil offset ls h = ground arith

Placed-cons :
    (offset : ℕ) (i : SockFilter) (p : List SockFilter) (k : ℕ) (at at' : Option ℕ)
    → Placed (offset + 1) p k at
    → (at' ≡ at) ⊎ (IsLabel k i × (at' ≡ some offset))
    → Placed offset (i ∷ p) k at'
Placed-cons offset i p k at at' (unmet e) (inl same) = unmet (same ∙ e)
Placed-cons offset i p k at at' (met t i' e lt g l) (inl same) =
    met (suc t) i' (same ∙ e ∙ ap some (omega arith)) (omega arith) g l
Placed-cons offset i p k at at' placed (inr (l, e)) =
    met 0 i (e ∙ ap some (omega arith)) (omega arith) refl l

resolve-Placed :
    (offset : ℕ) (p : List SockFilter) (ls : List BpfLabel) (k : ℕ) {s : Resolved}
    → resolve offset p ls ≡ some s
    → s.code ≡ 0
    → location_of ls k ≡ some unplaced
    → Placed offset p k (location_of s.labels k)
resolve-Placed offset [] ls k h c e =
    unmet (ap (λ l. location_of l k) (resolve-nil offset ls h) ∙ e)
resolve-Placed offset (i ∷ rest) ls k h c e =
    let (r, h', one) = resolve-cons offset i rest ls h in
    Placed-cons offset i rest k _ _
      (resolve-Placed (offset + 1) rest ls k h' (resolve_one-code offset i r one c) e)
      (resolve_one-labels offset i r k one c)

-- The instruction at `j` jumps ahead to LABEL `k` of the policy before it was resolved.
pub record Lands (p out : List SockFilter) (j k : ℕ) : Type 0 where
  pub distance : ℕ
  pub target : ℕ
  pub label : SockFilter
  pub resolved : get_elem? out j ≡ some (bpf_stmt jmp_ja distance)
  pub target_is : target ≡ j + 1 + distance
  pub inside : target < length p
  pub target_holds : get_elem? p target ≡ some label
  pub is_label : IsLabel k label

-- The jump in front of `rest` lands.
first-Lands :
    (offset : ℕ) (i : SockFilter) (rest : List SockFilter) (r s : Resolved)
    → resolve_one offset i r ≡ some s
    → s.code ≡ 0
    → IsJump i.k i
    → offset + suc (length rest) < 2 ^ 32 - 1
    → Placed (offset + 1) rest i.k (location_of r.labels i.k)
    → Lands (i ∷ rest) s.filter 0 i.k
first-Lands offset i rest r s one c jump fits (unmet e) =
    absurd (resolve_one-unmet offset i r one c jump e)
first-Lands offset i rest r s one c jump fits (met t l e lt g is) = record {
  distance = t;
  target = suc t;
  label = l;
  resolved = resolve_one-jump offset i r t one c jump e (omega arith);
  target_is = omega arith;
  inside = omega arith;
  target_holds = g;
  is_label = is;
}

later-Lands :
    (i : SockFilter) (rest out out' : List SockFilter) (j k : ℕ)
    → get_elem? out' (suc j) ≡ get_elem? out j
    → Lands rest out j k
    → Lands (i ∷ rest) out' (suc j) k
later-Lands i rest out out' j k e l = record {
  distance = l.distance;
  target = suc l.target;
  label = l.label;
  resolved = e ∙ l.resolved;
  target_is = omega (arith, l.target_is);
  inside = omega (arith, l.inside);
  target_holds = l.target_holds;
  is_label = l.is_label;
}

pub resolve-Lands :
    (offset : ℕ) (p : List SockFilter) (ls : List BpfLabel) (j : ℕ) (i : SockFilter) (s : Resolved)
    → resolve offset p ls ≡ some s
    → s.code ≡ 0
    → location_of ls i.k ≡ some unplaced
    → offset + length p < 2 ^ 32 - 1
    → get_elem? p j ≡ some i
    → IsJump i.k i
    → Lands p s.filter j i.k
resolve-Lands offset [] ls j i s h c e fits g jump = cc
resolve-Lands offset (x ∷ rest) ls zero i s h c e fits g jump =
    let (r, h', one) = resolve-cons offset x rest ls h in
    let x_is : x ≡ i = cc in
    let placed : Placed (offset + 1) rest i.k (location_of r.labels i.k) =
      resolve-Placed (offset + 1) rest ls i.k h' (resolve_one-code offset x r one c) e in
    let one' : resolve_one offset i r ≡ some s =
      ap (λ y. resolve_one offset y r) (sym x_is) ∙ one in
    subst (λ y. Lands (y ∷ rest) s.filter 0 i.k) (sym x_is)
      (first-Lands offset i rest r s one' c jump fits placed)
resolve-Lands offset (x ∷ rest) ls (suc j) i s h c e fits g jump =
    let (r, h', one) = resolve-cons offset x rest ls h in
    later-Lands x rest r.filter s.filter j i.k (resolve_one-filter offset x r j one) (
      resolve-Lands (offset + 1) rest ls j i r h' (resolve_one-code offset x r one c) e
        (omega arith) g jump)
