-- ===== src/Comms/Truncated.antt =====
-- sandboxed_api/sandbox2/comms.cc: what a receiver does where the other end closes too early.
use googlectf2023_fastbox.Prelude.{
  ℕ, suc, ◌+◌, ◌-◌, ◌^◌, ◌<◌, ◌≤◌, ◌≡◌, refl, sym, ap, ◌∙◌, ◌⊎◌, inl, inr, [], ◌∷◌, ◌++◌, Option,
  none, some, length, length-append, drop, append-drop, arith, false, ◌==◌, if◌then◌else◌, lt-or-ge,
}
use mathlib.Core.WellFounded.{Acc}
use mathlib.Core.Path.{subst}
use native.Mathlib.Decide.{dec_lt}
use googlectf2023_fastbox.Text.{Bytes}
use googlectf2023_fastbox.Comms.Kernel.{Fd, done, Kernel, Comms, Endpoint, Op, and_then, succeed}
use googlectf2023_fastbox.Comms.Transfer.{got_shrinks, lt_wf, in_world, after_read, recv_loop, recv}
use googlectf2023_fastbox.Comms.Tlv.{
  max_msg_size, le_bytes, from_le, recv_tlv, recv_tl, recv_length, recv_value, recv_generic,
  checked_tl,
}
use googlectf2023_fastbox.Comms.Stream.{Given, Reads, Leaves, dite-either}
use googlectf2023_fastbox.Comms.Effects.{closed, terminate-closed}
use googlectf2023_fastbox.Comms.Wire.{frame, recv_n, recv_header-Leaves, length-le_bytes}

still_short :
    (len : ℕ) (got xs q q' : Bytes)
    → q ≡ xs ++ q'
    → length got + length q < len
    → length (got ++ xs) + length q' < len
still_short len got xs q q' e h =
    omega (arith, length-append got xs, length-append xs q', ap length e)

suc-ne-zero : (n : ℕ) → false ≡ (suc n == 0)
suc-ne-zero n = ground arith

-- Where `q` with what is missing would be `a` and then `b`, either `a` is not complete, or it is.
cut :
    (q lost a b : Bytes)
    → q ++ lost ≡ a ++ b
    → (length q < length a) ⊎ ((q' : Bytes) × (q ≡ a ++ q') × (q' ++ lost ≡ b))
cut q lost a b e = elim (lt-or-ge (length q) (length a)) [
  | inl h ↦ inl h
  | inr h ↦ let meet = append-drop q lost a b e h in inr (drop (length a) q, sym meet.1, sym meet.0)
]

module _ {W : Type 0} (k : Kernel W) (pending : W → Bytes) where
  -- A read of a stream that is empty and whose other end is closed: it gives nothing.
  pub record AtEnd (fd : Fd) : Type 0 where
    pub ends : (w : W) (n : ℕ) → 0 < n → pending w ≡ [] → (w' : W) × (k.read w fd n ≡ (w', done []))

  -- The call returns false, and the object is closed.
  pub record Breaks {A : Type 0} (c : Comms) (r : Endpoint W × Option A) : Type 0 where
    pub refused : r.1 ≡ none
    pub broken : r.0.comms ≡ closed c

  read_end :
      (p : Endpoint W) (n : ℕ) (more : ℕ → Bytes → Op W Bytes)
      → (w' : W) × (k.read p.world p.comms.connection_fd n ≡ (w', done []))
      → Breaks p.comms (after_read k p more (k.read p.world p.comms.connection_fd n))
  read_end p n more (w', e) =
      subst (λ r. Breaks p.comms (after_read k p more r)) (sym e)
        (record { refused = refl; broken = terminate-closed k (in_world p w') })

  read_more :
      (p : Endpoint W) (n : ℕ) (more : ℕ → Bytes → Op W Bytes)
      (g : Given k p.comms.connection_fd pending p.world n)
      → Breaks p.comms (more g.first g.others (in_world p g.next))
      → Breaks p.comms (after_read k p more (k.read p.world p.comms.connection_fd n))
  read_more p n more g b = subst (λ r. Breaks p.comms (after_read k p more r)) (sym g.gave) b

  empty_or_not : (bytes : Bytes) → (bytes ≡ []) ⊎ (0 < length bytes)
  empty_or_not [] = inl refl
  empty_or_not (b ∷ bytes) = inr (omega arith)

  recv_loop-Breaks :
      (p : Endpoint W)
      → Reads k p.comms.connection_fd pending
      → AtEnd p.comms.connection_fd
      → (len : ℕ) (got : Bytes) (left : ℕ) (acc : Acc ◌<◌ left) (e : left ≡ len - length got)
      → length got + length (pending p.world) < len
      → Breaks p.comms (recv_loop k len got left acc e p)
  unfolding recv_loop
  recv_loop-Breaks p rd en len got left (Acc.intro _ smaller) e h =
      dite-either (Breaks p.comms) (dec_lt (length got) len)
        (λ more.
          let shrinks = λ (x : ℕ) (xs : Bytes). got_shrinks len got x xs left e more in
          let next = λ (x : ℕ) (xs : Bytes).
            recv_loop k len (got ++ (x ∷ xs)) _ (smaller _ (shrinks x xs)) refl in
          elim (empty_or_not (pending p.world)) [
            | inl none_left ↦
                read_end p (len - length got) next (en.ends p.world _ (omega arith) none_left)
            | inr some_left ↦
                let g = rd.gives p.world (len - length got) (omega arith) some_left in
                read_more p (len - length got) next g (
                  recv_loop-Breaks (in_world p g.next) rd en len (got ++ (g.first ∷ g.others)) _
                    (smaller _ (shrinks g.first g.others)) refl
                    (still_short len got (g.first ∷ g.others) _ _ g.queued h))
          ])
        (λ stop. absurd (omega arith))

  pub recv-Breaks :
      (p : Endpoint W)
      → Reads k p.comms.connection_fd pending
      → AtEnd p.comms.connection_fd
      → (len : ℕ) → length (pending p.world) < len
      → Breaks p.comms (recv k len p)
  unfolding recv
  recv-Breaks p rd en len h =
      recv_loop-Breaks p rd en len [] _ (lt_wf.apply (len - length {A = ℕ} [])) refl (omega arith)

  and_then-Breaks :
      {A B : Type 0} {c : Comms} (f : A → Op W B) (r : Endpoint W × Option A)
      → Breaks c r
      → Breaks c (and_then f r)
  and_then-Breaks f (p, none) b = record { refused = refl; broken = b.broken }
  and_then-Breaks f (p, some a) b = absurd (cc b.refused)

  bind-Breaks :
      {A B : Type 0} {c : Comms} {p : Endpoint W} {a : A} {q : Bytes} {r : Endpoint W × Option A}
      (f : A → Op W B)
      → Leaves k pending p a q r
      → ((w : W) → pending w ≡ q → Breaks c (f a (in_world p w)))
      → Breaks c (and_then f r)
  bind-Breaks {c = c} f l g =
      subst (λ r. Breaks c (and_then f r)) (sym l.result) (g l.after l.left_over)

  short_header :
      (w : W) (q value : Bytes)
      → pending w ≡ q
      → length q < length (le_bytes 8 (length value))
      → length (pending w) < 8
  short_header w q value e h = omega (arith, ap length e, length-le_bytes 8 (length value))

  short_value :
      (w : W) (q lost value : Bytes)
      → pending w ≡ q
      → q ++ lost ≡ value
      → 0 < length lost
      → length (pending w) < length value
  short_value w q lost value e e' h = omega (arith, ap length e, ap length e', length-append q lost)

  recv_value-Breaks :
      (p : Endpoint W)
      → Reads k p.comms.connection_fd pending
      → AtEnd p.comms.connection_fd
      → (value : Bytes) → length (pending p.world) < length value
      → Breaks p.comms (recv_value k (length value) p)
  recv_value-Breaks p rd en [] h = absurd (omega arith)
  recv_value-Breaks p rd en (b ∷ value) h = if_value (recv-Breaks p rd en (length (b ∷ value)) h)
    where
      if_value :
          Breaks p.comms (recv k (suc (length value)) p)
          → Breaks p.comms (recv_value k (suc (length value)) p)
      if_value h =
          subst (λ t. Breaks p.comms ((if t then succeed [] else recv k (suc (length value))) p))
            (suc-ne-zero (length value)) h

  -- If the other end closes after a part of a message only, wherever that is cut, RecvTLV returns
  -- false and the object is closed.
  pub recv_tlv-Breaks :
      (p : Endpoint W)
      → Reads k p.comms.connection_fd pending
      → AtEnd p.comms.connection_fd
      → (tag : ℕ) (value lost : Bytes) → tag < 256 ^ 4
      → length value ≤ max_msg_size
      → 0 < length lost
      → pending p.world ++ lost ≡ frame tag value
      → Breaks p.comms (recv_tlv k p)
  unfolding recv_tlv recv_tl frame
  recv_tlv-Breaks p rd en tag value lost ht hv hl e =
      elim (cut (pending p.world) lost (le_bytes 4 tag) _ e) [
        | inl h ↦ and_then-Breaks (recv_generic k) _ (
            and_then-Breaks (recv_length k) _
              (recv-Breaks p rd en 4 (omega (arith, length-le_bytes 4 tag))))
        | inr (q, e1, e2) ↦ elim (cut q lost (le_bytes 8 (length value)) value e2) [
          | inl h ↦ and_then-Breaks (recv_generic k) _ (
              bind-Breaks (recv_length k)
                (recv_n k pending p rd 4 (le_bytes 4 tag) q (length-le_bytes 4 tag) e1)
                (λ w ew.
                  and_then-Breaks (λ l. checked_tl k (from_le (le_bytes 4 tag)) (from_le l)) _
                    (recv-Breaks (in_world p w) rd en 8 (short_header w q value ew h))))
          | inr (q', e3, e4) ↦
              bind-Breaks (recv_generic k)
                (recv_header-Leaves k pending p rd tag (length value) q' ht hv
                  (e1 ∙ ap (◌++◌ (le_bytes 4 tag)) e3))
                (λ w ew.
                  and_then-Breaks (λ v. succeed (tag, v)) _
                    (recv_value-Breaks (in_world p w) rd en value
                      (short_value w q' lost value ew e4 hl)))
        ]
      ]
