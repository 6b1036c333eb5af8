-- ===== src/Bpf/Labels/Targets.antt =====
-- Where every jump of a policy leads that `bpf_resolve_jumps` (sandboxed_api/sandbox2/util/bpf_helper.c)
-- has resolved.
use googlectf2023_fastbox.Prelude.{ℕ, ◌≤◌, ◌≡◌, List, some, arith, length, get_elem?}
use googlectf2023_fastbox.Bpf.{SockFilter}
use googlectf2023_fastbox.Bpf.Labels.{BpfLabel, unplaced, Resolved, resolve, bpf_resolve_jumps}
use googlectf2023_fastbox.Bpf.Labels.Lands.{IsJump, Lands, location_of, resolve-Lands}

resolved :
    (labels : List BpfLabel) (filter : List SockFilter) (r : Resolved)
    → bpf_resolve_jumps labels filter ≡ some r
    → r.code ≡ 0
    → (resolve 0 filter labels ≡ some r) × (length filter ≤ 4096)
unfolding bpf_resolve_jumps
resolved labels filter r h c = (ground arith, ground arith)

-- Where `bpf_resolve_jumps` returns 0, each JUMP to a label that was not placed before becomes a jump
-- that leads to a LABEL of that name, which lies behind it and inside the policy.
pub bpf_resolve_jumps-Lands :
    (labels : List BpfLabel) (filter : List SockFilter) (r : Resolved) (j : ℕ) (i : SockFilter)
    → bpf_resolve_jumps labels filter ≡ some r
    → r.code ≡ 0
    → location_of labels i.k ≡ some unplaced
    → get_elem? filter j ≡ some i
    → IsJump i.k i
    → Lands filter r.filter j i.k
bpf_resolve_jumps-Lands labels filter r j i h c new at jump =
    let (walked, short) = resolved labels filter r h c in
    resolve-Lands 0 filter labels j i r walked c new (omega arith) at jump
