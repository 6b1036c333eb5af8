-- ===== src/Bpf/Labels.antt =====
-- sandboxed_api/sandbox2/util/bpf_helper.{h,c}: jumps to labels, and the walk that resolves them.
pub mod Lands
pub mod Targets
use text.Mathlib.Text.{◌==◌ as str_eq}
use googlectf2023_fastbox.Prelude.{
  ℕ, zero, suc, ◌+◌, ◌-◌, ◌%◌, ◌^◌, String, Bool, ◌&&◌, ◌||◌, not, List, [], ◌∷◌, ◌++◌, Option,
  none, some, ◌==◌, ltb, if◌then◌else◌, length, get_elem?, set, replicate,
}
use googlectf2023_fastbox.Bpf.{SockFilter, bpf_jump, jmp_ja, jmp_jeq, jmp_jset, jmp_jge, jmp_jgt}

-- struct __bpf_label
pub record BpfLabel : Type 0 where
  pub label : String
  pub location : ℕ

-- struct bpf_labels, an array of BPF_LABELS_MAX entries of which `count` are in use.
pub record BpfLabels : Type 0 where
  pub count : ℕ
  pub labels : List BpfLabel

abbrev pub bpf_labels_max : ℕ
bpf_labels_max = 256

-- `bpf_labels l = {0}`
abbrev pub no_labels : BpfLabels
no_labels = record {
  count = 0;
  labels = replicate bpf_labels_max (record { label = ""; location = 0 });
}

-- The location of a label that is not placed yet.
abbrev pub unplaced : ℕ
unplaced = 0xffff_ffff

-- The loop of `seccomp_bpf_label` over the labels in use.
find_label : String → ℕ → List BpfLabel → ℕ → Option ℕ
find_label name zero ls id = none
find_label name (suc n) [] id = none
find_label name (suc n) (l ∷ ls) id =
    if str_eq name l.label then some id else find_label name n ls (id + 1)

abbrev add_label : String → BpfLabels → ℕ × BpfLabels
add_label name ls = (
  ls.count,
  record {
    count = ls.count + 1;
    labels = set ls.labels ls.count (record { label = name; location = unplaced });
  },
)

abbrev known_or : Option ℕ → BpfLabels → ℕ × BpfLabels → ℕ × BpfLabels
known_or (some id) ls new = (id, ls)
known_or none ls new = new

-- `none` is `exit(1)`.
unfoldable pub seccomp_bpf_label : BpfLabels → String → Option (ℕ × BpfLabels)
unfolding find_label
seccomp_bpf_label ls name =
    if ls.count == bpf_labels_max
    then none
    else if ls.count == 0
    then some (add_label name ls)
    else some (known_or (find_label name ls.count ls.labels 0) ls (add_label name ls))

-- What a policy with labels lists: plain instructions, JUMP and LABEL.
pub data Item : Type 0 where
  insn : SockFilter → Item
  jump : String → Item
  label : String → Item

-- JEQ32 and its kin: a test, then what is done where it holds.
abbrev pub jeq32 : ℕ → Item → List Item
jeq32 value jt = insn (bpf_jump jmp_jeq value 0 1) ∷ jt ∷ []

abbrev pub jne32 : ℕ → Item → List Item
jne32 value jt = insn (bpf_jump jmp_jeq value 1 0) ∷ jt ∷ []

abbrev pub ja32 : ℕ → Item → List Item
ja32 value jt = insn (bpf_jump jmp_jset value 0 1) ∷ jt ∷ []

abbrev pub jge32 : ℕ → Item → List Item
jge32 value jt = insn (bpf_jump jmp_jge value 0 1) ∷ jt ∷ []

abbrev pub jgt32 : ℕ → Item → List Item
jgt32 value jt = insn (bpf_jump jmp_jgt value 0 1) ∷ jt ∷ []

abbrev pub jle32 : ℕ → Item → List Item
jle32 value jt = insn (bpf_jump jmp_jgt value 1 0) ∷ jt ∷ []

abbrev pub jlt32 : ℕ → Item → List Item
jlt32 value jt = insn (bpf_jump jmp_jge value 1 0) ∷ jt ∷ []

-- JUMP_JT, JUMP_JF, LABEL_JT, LABEL_JF
abbrev pub jump_mark : ℕ
jump_mark = 0xff

abbrev pub label_mark : ℕ
label_mark = 0xfe

abbrev pub marked :
    ℕ
    → Option (ℕ × BpfLabels)
    → (BpfLabels → Option (List SockFilter × BpfLabels))
    → Option (List SockFilter × BpfLabels)
marked mark none rest = none
marked mark (some (id, ls)) rest = elim (rest ls) [
  | none ↦ none
  | some (out, ls') ↦ some (bpf_jump jmp_ja id mark mark ∷ out, ls')
]

-- The list as C++ builds it, from left to right, each JUMP and LABEL looking its label up.
unfoldable pub assemble : List Item → BpfLabels → Option (List SockFilter × BpfLabels)
assemble [] ls = some ([], ls)
assemble (insn i ∷ items) ls = elim (assemble items ls) [
  | none ↦ none
  | some (out, ls') ↦ some (i ∷ out, ls')
]
assemble (jump name ∷ items) ls = marked jump_mark (seccomp_bpf_label ls name) (assemble items)
assemble (label name ∷ items) ls = marked label_mark (seccomp_bpf_label ls name) (assemble items)

-- What the walk of `bpf_resolve_jumps` has done: its return code so far, and the arrays.
pub record Resolved : Type 0 where
  pub code : ℕ
  pub filter : List SockFilter
  pub labels : List BpfLabel

-- Places of the array that the walk reads; `none` is an index out of range, undefined in C.
abbrev place_of : List BpfLabel → ℕ → Option BpfLabel
place_of ls k = get_elem? ls k

-- `case (JUMP_JT<<8)|JUMP_JF`; the difference is one of 32-bit words.
unfoldable pub resolve_jump : ℕ → SockFilter → Resolved → BpfLabel → Resolved
resolve_jump offset i r l =
    if l.location == unplaced then record r { code = 1; filter = i ∷ r.filter } else record r {
      filter =
          record i { k = (l.location + 2 ^ 32 - (offset + 1)) % 2 ^ 32; jt = 0; jf = 0 } ∷ r.filter;
    }

-- `case (LABEL_JT<<8)|LABEL_JF`
unfoldable pub place_label : ℕ → SockFilter → Resolved → BpfLabel → Resolved
place_label offset i r l =
    if l.location == unplaced
    then record r {
      filter = record i { k = 0; jt = 0; jf = 0 } ∷ r.filter;
      labels = set r.labels i.k (record l { location = offset });
    }
    else record r { code = 1; filter = i ∷ r.filter }

abbrev at_label : Option BpfLabel → (BpfLabel → Resolved) → Option Resolved
at_label none f = none
at_label (some l) f = some (f l)

-- One round of the walk, at `offset`. A round after an error does nothing.
unfoldable pub resolve_one : ℕ → SockFilter → Resolved → Option Resolved
unfolding resolve_jump place_label
resolve_one offset i r =
    if not (r.code == 0)
    then some (record r { filter = i ∷ r.filter })
    else if not (i.code == jmp_ja)
    then some (record r { filter = i ∷ r.filter })
    else if i.jt == jump_mark && i.jf == jump_mark
    then at_label (place_of r.labels i.k) (resolve_jump offset i r)
    else if i.jt == label_mark && i.jf == label_mark
    then at_label (place_of r.labels i.k) (place_label offset i r)
    else some (record r { filter = i ∷ r.filter })

abbrev pub then_one : ℕ → SockFilter → Option Resolved → Option Resolved
then_one offset i none = none
then_one offset i (some r) = resolve_one offset i r

-- The walk goes backwards: what lies behind `offset` first.
unfoldable pub resolve : ℕ → List SockFilter → List BpfLabel → Option Resolved
resolve offset [] ls = some (record { code = 0; filter = []; labels = ls })
resolve offset (i ∷ rest) ls = then_one offset i (resolve (offset + 1) rest ls)

-- BPF_MAXINSNS
abbrev bpf_maxinsns : ℕ
bpf_maxinsns = 4096

-- The return code is 0, 1 or, for a count out of range, -1, which is written 2 here.
unfoldable pub bpf_resolve_jumps : List BpfLabel → List SockFilter → Option Resolved
bpf_resolve_jumps labels filter =
    if ltb (length filter) 1 || ltb bpf_maxinsns (length filter)
    then some (record { code = 2; filter = filter; labels = labels })
    else resolve 0 filter labels

-- PolicyBuilder::ResolveBpfFunc: the policy, and whether "Cannot resolve bpf jumps" was set. `none`
-- is an exit, or undefined.
unfoldable pub resolve_bpf_func : List Item → Option (List SockFilter × Bool)
resolve_bpf_func items = elim (assemble items no_labels) [
  | none ↦ none
  | some (policy, l) ↦ elim (bpf_resolve_jumps l.labels policy) [
    | none ↦ none
    | some r ↦ some (r.filter, not (r.code == 0))
  ]
]
