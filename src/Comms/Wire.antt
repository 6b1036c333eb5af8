-- ===== src/Comms/Wire.antt =====
-- The messages of sandboxed_api/sandbox2/comms.cc as they stand on a stream socket.
use googlectf2023_fastbox.Prelude.{
  ℕ, zero, suc, ◌*◌, ◌/◌, ◌^◌, ◌<◌, ◌≤◌, ◌≡◌, refl, sym, ap, ◌∙◌, Bool, true, false, [], ◌∷◌, ◌++◌,
  Option, some, length, ltb, if◌then◌else◌, arith, lt→ltb, le→ltb,
}
use mathlib.Core.List.{append-nil, append_assoc}
use native.Mathlib.Numerals.{unary_clauses}
use googlectf2023_fastbox.Text.{Bytes}
use googlectf2023_fastbox.Comms.Kernel.{Kernel, Endpoint, Op, and_then, succeed, refuse}
use googlectf2023_fastbox.Comms.Transfer.{in_world, send, recv}
use googlectf2023_fastbox.Comms.Tlv.{
  max_msg_size, le_bytes, from_le, send_tlv, recv_tl, recv_tlv, send_value, send_lv, send_parts,
  checked_tl, recv_length, recv_value, recv_generic, recv_value_into, recv_into, recv_tlv_into,
}
use googlectf2023_fastbox.Comms.Stream.{Writes, Reads, Leaves, send-Leaves, recv-Leaves}

pub length-le_bytes : (n v : ℕ) → length (le_bytes n v) ≡ n
unfolding le_bytes
length-le_bytes zero v = refl
length-le_bytes (suc n) v = omega (arith, length-le_bytes n (v / 256))

pow_suc : (n : ℕ) → 256 ^ suc n ≡ 256 * 256 ^ n
pow_suc n = simp unary_clauses (omega arith)

pub from_le-le_bytes : (n v : ℕ) → v < 256 ^ n → from_le (le_bytes n v) ≡ v
unfolding le_bytes from_le
from_le-le_bytes zero v h = omega arith
from_le-le_bytes (suc n) v h =
    omega (arith, from_le-le_bytes n (v / 256) (omega (arith, pow_suc n)))

-- A message on the wire: the tag, the length and the value.
unfoldable pub frame : ℕ → Bytes → Bytes
frame tag value = le_bytes 4 tag ++ (le_bytes 8 (length value) ++ value)

frame_queued :
    (q t l value : Bytes) {q' q'' : Bytes}
    → q' ≡ q ++ t
    → q'' ≡ q' ++ l
    → q'' ++ value ≡ q ++ (t ++ (l ++ value))
frame_queued q t l value e e' =
    cc (e, e', append_assoc (q ++ t) l value, append_assoc q t (l ++ value))

frame_first :
    (tag : ℕ) (value rest : Bytes)
    → frame tag value ++ rest ≡ le_bytes 4 tag ++ (le_bytes 8 (length value) ++ (value ++ rest))
unfolding frame
frame_first tag value rest = cc (
  append_assoc (le_bytes 4 tag) (le_bytes 8 (length value) ++ value) rest,
  append_assoc (le_bytes 8 (length value)) value rest,
)

module _ {W : Type 0} (k : Kernel W) (pending : W → Bytes) where
  pub bind-Leaves :
      {A B : Type 0} {p : Endpoint W} {a : A} {b : B} {q q' : Bytes} {r : Endpoint W × Option A}
      (f : A → Op W B)
      → Leaves k pending p a q r
      → ((w : W) → pending w ≡ q → Leaves k pending (in_world p w) b q' (f a (in_world p w)))
      → Leaves k pending p b q' (and_then f r)
  bind-Leaves {p = p} {b = b} {q' = q'} f l g =
      let next = g l.after l.left_over in
      record {
        after = next.after;
        result = ap (and_then f) l.result ∙ next.result;
        left_over = next.left_over;
      }

  pub succeed-Leaves :
      {A : Type 0} (a : A) (p : Endpoint W) (q : Bytes)
      → pending p.world ≡ q
      → Leaves k pending p a q (p, some a)
  succeed-Leaves a p q e = record { after = p.world; result = refl; left_over = e }

  pub same-Leaves :
      {A : Type 0} {p : Endpoint W} {a : A} {q q' : Bytes} {r r' : Endpoint W × Option A}
      → r' ≡ r
      → q ≡ q'
      → Leaves k pending p a q r
      → Leaves k pending p a q' r'
  same-Leaves e e' l = record {
    after = l.after;
    result = e ∙ l.result;
    left_over = l.left_over ∙ e';
  }

  pub recv_n :
      (p : Endpoint W)
      → Reads k p.comms.connection_fd pending
      → (n : ℕ) (bytes rest : Bytes) → length bytes ≡ n
      → pending p.world ≡ bytes ++ rest
      → Leaves k pending p bytes rest (recv k n p)
  recv_n p rd n bytes rest e h =
      same-Leaves (ap (λ n. recv k n p) (sym e)) refl (recv-Leaves k pending p rd bytes rest h)

  pub then-Leaves :
      {A : Type 0} {b : Bool} {p : Endpoint W} {a : A} {q : Bytes} (x y : Op W A)
      → b ≡ true
      → Leaves k pending p a q (x p)
      → Leaves k pending p a q ((if b then x else y) p)
  then-Leaves {p = p} x y e l =
      same-Leaves (ap (λ b. (if◌then◌else◌ {A = Op W _} b x y) p) e) refl l

  pub else-Leaves :
      {A : Type 0} {b : Bool} {p : Endpoint W} {a : A} {q : Bytes} (x y : Op W A)
      → b ≡ false
      → Leaves k pending p a q (y p)
      → Leaves k pending p a q ((if b then x else y) p)
  else-Leaves {p = p} x y e l =
      same-Leaves (ap (λ b. (if◌then◌else◌ {A = Op W _} b x y) p) e) refl l

  send_value-Leaves :
      (p : Endpoint W)
      → Writes k p.comms.connection_fd pending
      → (value : Bytes) → Leaves k pending p tt (pending p.world ++ value) (send_value k value p)
  send_value-Leaves p wr [] = succeed-Leaves tt p _ (sym (append-nil (pending p.world)))
  send_value-Leaves p wr (b ∷ value) =
      then-Leaves (send k (b ∷ value)) (succeed tt) (lt→ltb 0 (length (b ∷ value)) (omega arith))
        (send-Leaves k pending p wr (b ∷ value))

  -- On a stream socket a message of legal size is queued as its frame, and the call returns true.
  pub send_tlv-Leaves :
      (p : Endpoint W)
      → Writes k p.comms.connection_fd pending
      → (tag : ℕ) (value : Bytes) → length value ≤ max_msg_size
      → Leaves k pending p tt (pending p.world ++ frame tag value) (send_tlv k tag value p)
  unfolding send_tlv frame
  send_tlv-Leaves p wr tag value h =
      else-Leaves refuse (send_parts k tag value) (le→ltb max_msg_size (length value) h) (
        bind-Leaves (λ _. send_lv k value) (send-Leaves k pending p wr (le_bytes 4 tag))
          (λ w e.
            bind-Leaves (λ _. send_value k value)
              (send-Leaves k pending (in_world p w) wr (le_bytes 8 (length value)))
              (λ w' e'.
                same-Leaves refl (frame_queued (pending p.world) _ _ value e e')
                  (send_value-Leaves (in_world p w') wr value))))

  checked_tl-Leaves :
      (p : Endpoint W) (tag len q : Bytes) (t n : ℕ)
      → from_le tag ≡ t
      → from_le len ≡ n
      → n ≤ max_msg_size
      → pending p.world ≡ q
      → Leaves k pending p (t, n) q (checked_tl k (from_le tag) (from_le len) p)
  checked_tl-Leaves p tag len q t n et en h e =
      same-Leaves (ap₂ et en) refl (
        else-Leaves refuse (succeed (t, n)) (le→ltb max_msg_size n h) (succeed-Leaves (t, n) p q e))
    where
      ap₂ :
          from_le tag ≡ t
          → from_le len ≡ n
          → checked_tl k (from_le tag) (from_le len) p ≡ checked_tl k t n p
      ap₂ a b = cc (a, b)

  -- the header of a message
  pub recv_header-Leaves :
      (p : Endpoint W)
      → Reads k p.comms.connection_fd pending
      → (tag len : ℕ) (rest : Bytes) → tag < 256 ^ 4
      → len ≤ max_msg_size
      → pending p.world ≡ le_bytes 4 tag ++ (le_bytes 8 len ++ rest)
      → Leaves k pending p (tag, len) rest (recv_tl k p)
  unfolding recv_tl
  recv_header-Leaves p rd tag len rest ht h e =
      bind-Leaves (recv_length k) (recv_n p rd 4 (le_bytes 4 tag) _ (length-le_bytes 4 tag) e)
        (λ w e'.
          bind-Leaves (λ l. checked_tl k (from_le (le_bytes 4 tag)) (from_le l))
            (recv_n (in_world p w) rd 8 (le_bytes 8 len) _ (length-le_bytes 8 len) e')
            (λ w' e''.
              checked_tl-Leaves (in_world p w') _ _ _ tag len (from_le-le_bytes 4 tag ht)
                (from_le-le_bytes 8 len (omega arith)) h e''))

  pub recv_tl-Leaves :
      (p : Endpoint W)
      → Reads k p.comms.connection_fd pending
      → (tag : ℕ) (value rest : Bytes) → tag < 256 ^ 4
      → length value ≤ max_msg_size
      → pending p.world ≡ frame tag value ++ rest
      → Leaves k pending p (tag, length value) (value ++ rest) (recv_tl k p)
  recv_tl-Leaves p rd tag value rest ht h e =
      recv_header-Leaves p rd tag (length value) (value ++ rest) ht h
        (e ∙ frame_first tag value rest)

  recv_value-Leaves :
      (p : Endpoint W)
      → Reads k p.comms.connection_fd pending
      → (value rest : Bytes) → pending p.world ≡ value ++ rest
      → Leaves k pending p value rest (recv_value k (length value) p)
  recv_value-Leaves p rd [] rest e = succeed-Leaves [] p rest e
  recv_value-Leaves p rd (b ∷ value) rest e =
      else-Leaves (succeed []) (recv k (length (b ∷ value))) (ground arith)
        (recv-Leaves k pending p rd (b ∷ value) rest e)

  -- On a stream socket that starts with the frame of a message, RecvTLV gives the message and
  -- takes the frame.
  pub recv_tlv-Leaves :
      (p : Endpoint W)
      → Reads k p.comms.connection_fd pending
      → (tag : ℕ) (value rest : Bytes) → tag < 256 ^ 4
      → length value ≤ max_msg_size
      → pending p.world ≡ frame tag value ++ rest
      → Leaves k pending p (tag, value) rest (recv_tlv k p)
  unfolding recv_tlv
  recv_tlv-Leaves p rd tag value rest ht h e =
      bind-Leaves (recv_generic k) (recv_tl-Leaves p rd tag value rest ht h e) (λ w e'.
        bind-Leaves (λ v. succeed (tag, v)) (recv_value-Leaves (in_world p w) rd value rest e')
          (λ w' e''. succeed-Leaves (tag, value) (in_world p w') rest e''))

  recv_value_into-Leaves :
      (p : Endpoint W)
      → Reads k p.comms.connection_fd pending
      → (buffer_size : ℕ) (value rest : Bytes) → length value ≤ buffer_size
      → pending p.world ≡ value ++ rest
      → Leaves k pending p value rest (recv_value_into k buffer_size (length value) p)
  recv_value_into-Leaves p rd n [] rest h e = succeed-Leaves [] p rest e
  recv_value_into-Leaves p rd n (b ∷ value) rest h e =
      else-Leaves (succeed [])
        (if ltb n (length (b ∷ value)) then refuse else recv k (length (b ∷ value))) (ground arith)
        (else-Leaves refuse (recv k (length (b ∷ value))) (le→ltb n (length (b ∷ value)) h)
          (recv-Leaves k pending p rd (b ∷ value) rest e))

  pub recv_tlv_into-Leaves :
      (p : Endpoint W)
      → Reads k p.comms.connection_fd pending
      → (buffer_size tag : ℕ) (value rest : Bytes) → tag < 256 ^ 4
      → length value ≤ max_msg_size
      → length value ≤ buffer_size
      → pending p.world ≡ frame tag value ++ rest
      → Leaves k pending p (tag, length value, value) rest (recv_tlv_into k buffer_size p)
  unfolding recv_tlv_into
  recv_tlv_into-Leaves p rd n tag value rest ht h hn e =
      bind-Leaves (recv_into k n) (recv_tl-Leaves p rd tag value rest ht h e) (λ w e'.
        bind-Leaves (λ v. succeed (tag, length value, v))
          (recv_value_into-Leaves (in_world p w) rd n value rest hn e')
          (λ w' e''. succeed-Leaves (tag, length value, value) (in_world p w') rest e''))
