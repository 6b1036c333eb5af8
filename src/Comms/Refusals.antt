-- ===== src/Comms/Refusals.antt =====
-- sandboxed_api/sandbox2/comms.cc: what becomes of a message that is not the one expected.
use googlectf2023_fastbox.Prelude.{
  ℕ, ◌^◌, ◌<◌, ◌≤◌, ◌≡◌, ◌≢◌, refl, sym, ap, ◌∙◌, ◌⊎◌, inl, inr, Bool, true, false, not, [], ◌++◌,
  Option, none, length, ltb, ◌==◌, if◌then◌else◌, arith, lt-or-ge, le→ltb, lt→ltb,
}
use mathlib.Core.Path.{subst}
use googlectf2023_fastbox.Text.{Bytes}
use googlectf2023_fastbox.Comms.Kernel.{Kernel, Endpoint, Op, and_then, succeed, refuse}
use googlectf2023_fastbox.Comms.Transfer.{in_world, recv}
use googlectf2023_fastbox.Comms.Tlv.{
  max_msg_size, from_le, recv_tlv_into, recv_int, recv_value_into, recv_into, checked_int,
  tag_string, tag_bytes,
}
use googlectf2023_fastbox.Comms.Messages.{of_tag, recv_string, recv_bytes}
use googlectf2023_fastbox.Comms.Stream.{Reads, Leaves}
use googlectf2023_fastbox.Comms.Wire.{frame, recv_tl-Leaves, recv_tlv_into-Leaves, recv_tlv-Leaves}

module _ {W : Type 0} (k : Kernel W) (pending : W → Bytes) where
  -- A call that returns false, changes nothing but the world, and leaves `queue` there.
  pub record Refuses {A : Type 0} (p : Endpoint W) (queue : Bytes) (r : Endpoint W × Option A)
      : Type 0 where
    pub after : W
    pub result : r ≡ (in_world p after, none)
    pub left_over : pending after ≡ queue

  refuse-Refuses :
      {A : Type 0} (p : Endpoint W) (q : Bytes)
      → pending p.world ≡ q
      → Refuses {A = A} p q (p, none)
  refuse-Refuses p q e = record { after = p.world; result = refl; left_over = e }

  bind-Refuses :
      {A B : Type 0} {p : Endpoint W} {a : A} {q q' : Bytes} {r : Endpoint W × Option A}
      (f : A → Op W B)
      → Leaves k pending p a q r
      → ((w : W) → pending w ≡ q → Refuses (in_world p w) q' (f a (in_world p w)))
      → Refuses p q' (and_then f r)
  bind-Refuses f l g =
      let next = g l.after l.left_over in
      record {
        after = next.after;
        result = ap (and_then f) l.result ∙ next.result;
        left_over = next.left_over;
      }

  and_then-Refuses :
      {A B : Type 0} {p : Endpoint W} {q : Bytes} {r : Endpoint W × Option A} (f : A → Op W B)
      → Refuses p q r
      → Refuses p q (and_then f r)
  and_then-Refuses f l = record {
    after = l.after;
    result = ap (and_then f) l.result;
    left_over = l.left_over;
  }

  either-Refuses :
      {A : Type 0} (b : Bool) (x y : Op W A) {p : Endpoint W} {q : Bytes}
      → (b ≡ true → Refuses p q (x p))
      → (b ≡ false → Refuses p q (y p))
      → Refuses p q ((if b then x else y) p)
  either-Refuses true x y hx hy = hx refl
  either-Refuses false x y hx hy = hy refl

  checked_int-Refuses :
      (p : Endpoint W) (len expected tag : ℕ) (value q : Bytes)
      → (tag ≢ expected) ⊎ (length value ≢ len)
      → pending p.world ≡ q
      → Refuses p q (checked_int k len expected (tag, length value, value) p)
  checked_int-Refuses p len expected tag value q h e =
      either-Refuses (not (tag == expected)) refuse
        (if not (length value == len) then refuse else succeed (from_le value))
        (λ _. refuse-Refuses p q e)
        (λ right_tag.
          either-Refuses (not (length value == len)) refuse (succeed (from_le value))
            (λ _. refuse-Refuses p q e) (λ right_length. absurd (ground arith)))

  recv_value_into-Refuses :
      (p : Endpoint W) (len : ℕ) (value q : Bytes)
      → len < length value
      → pending p.world ≡ q
      → Refuses p q (recv_value_into k len (length value) p)
  recv_value_into-Refuses p len value q h e =
      either-Refuses (length value == 0) (succeed [])
        (if ltb len (length value) then refuse else recv k (length value))
        (λ z. absurd (ground arith))
        (λ _.
          either-Refuses (ltb len (length value)) refuse (recv k (length value))
            (λ _. refuse-Refuses p q e) (λ fits. absurd (ground arith)))

  -- On a stream socket that starts with the frame of a message whose tag is not the one expected
  -- or whose length is not that of the integer, RecvInt returns false and the object stays as it
  -- was. The message is taken from the stream, except that a value longer than the integer stays
  -- there, at its start.
  pub recv_int-Refuses :
      (p : Endpoint W)
      → Reads k p.comms.connection_fd pending
      → (len expected tag : ℕ) (value rest : Bytes) → tag < 256 ^ 4
      → length value ≤ max_msg_size
      → (tag ≢ expected) ⊎ (length value ≢ len)
      → pending p.world ≡ frame tag value ++ rest
      → Refuses p
          (if ltb len (length value) then value ++ rest else rest)
          (recv_int k len expected p)
  unfolding recv_int recv_tlv_into
  recv_int-Refuses p rd len expected tag value rest ht hv h e = elim (lt-or-ge len (length value)) [
    | inl long ↦
        subst (λ b. Refuses p (if b then value ++ rest else rest) (recv_int k len expected p))
          (sym (lt→ltb len (length value) long))
          (and_then-Refuses (checked_int k len expected) (
            bind-Refuses (recv_into k len) (recv_tl-Leaves k pending p rd tag value rest ht hv e)
              (λ w e'.
                and_then-Refuses (λ v. succeed (tag, length value, v))
                  (recv_value_into-Refuses (in_world p w) len value (value ++ rest) long e'))))
    | inr fits ↦
        subst (λ b. Refuses p (if b then value ++ rest else rest) (recv_int k len expected p))
          (sym (le→ltb len (length value) fits))
          (bind-Refuses (checked_int k len expected)
            (recv_tlv_into-Leaves k pending p rd len tag value rest ht hv fits e)
            (λ w e'. checked_int-Refuses (in_world p w) len expected tag value rest h e'))
  ]

  of_tag-Refuses :
      (p : Endpoint W) (expected tag : ℕ) (value q : Bytes)
      → tag ≢ expected
      → pending p.world ≡ q
      → Refuses p q (of_tag k expected (tag, value) p)
  of_tag-Refuses p expected tag value q h e =
      either-Refuses (not (tag == expected)) refuse (succeed value) (λ _. refuse-Refuses p q e)
        (λ right_tag. absurd (ground arith))

  -- RecvString and RecvBytes on a message with a tag other than their own
  pub wrong_tag-Refuses :
      (p : Endpoint W)
      → Reads k p.comms.connection_fd pending
      → (tag : ℕ) (value rest : Bytes) → tag < 256 ^ 4
      → length value ≤ max_msg_size
      → tag ≢ tag_string
      → tag ≢ tag_bytes
      → pending p.world ≡ frame tag value ++ rest
      → Refuses p rest (recv_string k p) × Refuses p rest (recv_bytes k p)
  unfolding recv_string recv_bytes
  wrong_tag-Refuses p rd tag value rest ht hv hs hb e =
      let l = recv_tlv-Leaves k pending p rd tag value rest ht hv e in
      (
        bind-Refuses (of_tag k tag_string) l
            (λ w e'. of_tag-Refuses (in_world p w) tag_string tag value rest hs e'),
        bind-Refuses (of_tag k tag_bytes) l
            (λ w e'. of_tag-Refuses (in_world p w) tag_bytes tag value rest hb e'),
      )
