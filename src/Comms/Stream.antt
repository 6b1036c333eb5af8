-- ===== src/Comms/Stream.antt =====
-- A stream socket as its manual describes it, and what the loops of
-- sandboxed_api/sandbox2/comms.cc do on one.
use googlectf2023_fastbox.Prelude.{
  ℕ, suc, ◌+◌, ◌-◌, ◌<◌, ◌≤◌, ◌≡◌, refl, sym, ap, ◌∙◌, [], ◌∷◌, ◌++◌, Option, some, length,
  length-append, take, drop, take-drop, drop-drop, length-drop, drop-all, append-drop, arith,
}
use mathlib.Core.WellFounded.{Acc}
use mathlib.Core.Logic.{dite}
use mathlib.Core.Path.{subst}
use mathlib.Core.List.{append-nil, append_assoc}
use native.Mathlib.Decide.{dec_lt}
use googlectf2023_fastbox.Text.{Bytes}
use googlectf2023_fastbox.Comms.Kernel.{Fd, done, Kernel, Endpoint, Op}
use googlectf2023_fastbox.Comms.Transfer.{
  sent_shrinks, got_shrinks, lt_wf, in_world, after_write, after_read, send_loop, send, recv_loop,
  recv,
}

module _ {W : Type 0} (k : Kernel W) (fd : Fd) (pending : W → Bytes) where
  -- A write that takes the first bytes of what it is given, one at least.
  pub record Taken (w : W) (bytes : Bytes) : Type 0 where
    pub next : W
    pub count : ℕ
    pub took : k.write w fd bytes ≡ (next, done (suc count))
    pub within : suc count ≤ length bytes
    pub queued : pending next ≡ pending w ++ take (suc count) bytes

  -- A read that gives the first bytes of the queue, one at least and `n` at most.
  pub record Given (w : W) (n : ℕ) : Type 0 where
    pub next : W
    pub first : ℕ
    pub others : Bytes
    pub gave : k.read w fd n ≡ (next, done (first ∷ others))
    pub within : length (first ∷ others) ≤ n
    pub queued : pending w ≡ (first ∷ others) ++ pending next

  -- write(2) on a connected blocking stream socket whose peer is there
  pub record Writes : Type 0 where
    pub takes : (w : W) (bytes : Bytes) → 0 < length bytes → Taken w bytes

  -- read(2) on a blocking stream socket with bytes to read
  pub record Reads : Type 0 where
    pub gives : (w : W) (n : ℕ) → 0 < n → 0 < length (pending w) → Given w n

pub dite-either :
    {P R : Type 0} (Q : R → Type 0) (d : Dec P) {f : P → R} {g : (¬ P) → R}
    → ((h : P) → Q (f h))
    → ((h : ¬ P) → Q (g h))
    → Q (dite d f g)
dite-either Q (yes h) pf pg = pf h
dite-either Q (no h) pf pg = pg h

module _ {W : Type 0} (k : Kernel W) (pending : W → Bytes) where
  -- A call that returns true with `a`, changes nothing but the world, and leaves `queue` there.
  pub record Leaves {A : Type 0} (p : Endpoint W) (a : A) (queue : Bytes)
      (r : Endpoint W × Option A) : Type 0 where
    pub after : W
    pub result : r ≡ (in_world p after, some a)
    pub left_over : pending after ≡ queue

  to_in_world : (p : Endpoint W) → Leaves p tt (pending p.world) (p, some tt)
  to_in_world p = record { after = p.world; result = refl; left_over = refl }

  with_queue :
      {A : Type 0} {p : Endpoint W} {a : A} {q q' : Bytes} {r : Endpoint W × Option A}
      → q ≡ q'
      → Leaves p a q r
      → Leaves p a q' r
  with_queue e l = record { after = l.after; result = l.result; left_over = l.left_over ∙ e }

  -- what has been queued, and what is still to go
  queued_both :
      (total s : ℕ) (w w' : W) (bytes : Bytes)
      → pending w' ≡ pending w ++ take (suc s) (drop total bytes)
      → pending w' ++ drop (total + suc s) bytes ≡ pending w ++ drop total bytes
  queued_both total s w w' bytes e = cc (
    e,
    append_assoc (pending w) (take (suc s) (drop total bytes)) (drop (suc s) (drop total bytes)),
    take-drop (suc s) (drop total bytes),
    drop-drop total (suc s) bytes,
  )

  same_endpoint :
      {A : Type 0} {p : Endpoint W} {w : W} {a : A} {q : Bytes} {r : Endpoint W × Option A}
      → Leaves (in_world p w) a q r
      → Leaves p a q r
  same_endpoint l = record { after = l.after; result = l.result; left_over = l.left_over }

  write_round :
      (p : Endpoint W) (bytes q : Bytes) (more : ℕ → Op W (Unit {0}))
      (t : Taken k p.comms.connection_fd pending p.world bytes)
      → Leaves (in_world p t.next) tt q (more t.count (in_world p t.next))
      → Leaves p tt q (after_write k p more (k.write p.world p.comms.connection_fd bytes))
  write_round p bytes q more t l =
      subst (λ r. Leaves p tt q (after_write k p more r)) (sym t.took) (same_endpoint l)

  read_round :
      {a : Bytes} (p : Endpoint W) (n : ℕ) (q : Bytes) (more : ℕ → Bytes → Op W Bytes)
      (g : Given k p.comms.connection_fd pending p.world n)
      → Leaves (in_world p g.next) a q (more g.first g.others (in_world p g.next))
      → Leaves p a q (after_read k p more (k.read p.world p.comms.connection_fd n))
  read_round {a = a} p n q more g l =
      subst (λ r. Leaves p a q (after_read k p more r)) (sym g.gave) (same_endpoint l)

  nothing_to_send : (q bytes : Bytes) (total : ℕ) → length bytes ≤ total → q ≡ q ++ drop total bytes
  nothing_to_send q bytes total h = cc (append-nil q, drop-all total bytes h)

  pub send_loop-Leaves :
      (p : Endpoint W)
      → Writes k p.comms.connection_fd pending
      → (bytes : Bytes) (total left : ℕ) (acc : Acc ◌<◌ left) (e : left ≡ length bytes - total)
      → total ≤ length bytes
      → Leaves p tt (pending p.world ++ drop total bytes) (send_loop k bytes total left acc e p)
  unfolding send_loop
  send_loop-Leaves p wr bytes total left (Acc.intro _ smaller) e h =
      dite-either (Leaves p tt (pending p.world ++ drop total bytes)) (dec_lt total (length bytes))
        (λ more.
          let t = wr.takes p.world (drop total bytes) (omega (arith, length-drop total bytes)) in
          let shrinks = λ (s : ℕ). sent_shrinks (length bytes) total s left e more in
          write_round p (drop total bytes) (pending p.world ++ drop total bytes)
            (λ s. send_loop k bytes (total + suc s) _ (smaller _ (shrinks s)) refl) t
            (with_queue (queued_both total t.count p.world t.next bytes t.queued) (
              send_loop-Leaves (in_world p t.next) wr bytes (total + suc t.count) _
                (smaller _ (shrinks t.count)) refl
                (omega (arith, length-drop total bytes, t.within)))))
        (λ stop.
          with_queue (nothing_to_send (pending p.world) bytes total (omega arith)) (to_in_world p))

  pub send-Leaves :
      (p : Endpoint W)
      → Writes k p.comms.connection_fd pending
      → (bytes : Bytes) → Leaves p tt (pending p.world ++ bytes) (send k bytes p)
  unfolding send lt_wf
  send-Leaves p wr bytes =
      send_loop-Leaves p wr bytes 0 _ (lt_wf.apply (length bytes - 0)) refl (omega arith)

  with_value :
      {p : Endpoint W} {a a' q : Bytes} {r : Endpoint W × Option Bytes}
      → a ≡ a'
      → Leaves p a q r
      → Leaves p a' q r
  with_value {p = p} e l = record {
    after = l.after;
    result = l.result ∙ ap (λ v. (in_world p l.after, some v)) e;
    left_over = l.left_over;
  }

  some_pending :
      (w : W) (bytes rest : Bytes)
      → pending w ≡ bytes ++ rest
      → 0 < length bytes
      → 0 < length (pending w)
  some_pending w bytes rest e h = omega (arith, length-append bytes rest, ap length e)

  all_received :
      (p : Endpoint W) (got bytes rest : Bytes)
      → length bytes ≤ 0
      → pending p.world ≡ bytes ++ rest
      → Leaves p (got ++ bytes) rest (p, some got)
  all_received p got [] rest h e = record {
    after = p.world;
    result = cc (append-nil got);
    left_over = e;
  }
  all_received p got (b ∷ bytes) rest h e = absurd (omega arith)

  fits :
      (len : ℕ) (got bytes xs : Bytes)
      → length got + length bytes ≡ len
      → length xs ≤ len - length got
      → length xs ≤ length bytes
  fits len got bytes xs h h' = omega arith

  still :
      (len : ℕ) (got bytes xs : Bytes)
      → length got + length bytes ≡ len
      → length xs ≤ length bytes
      → length (got ++ xs) + length (drop (length xs) bytes) ≡ len
  still len got bytes xs h h' = omega (arith, length-append got xs, length-drop (length xs) bytes)

  -- `bytes` is what is still to come, after the bytes in `got`.
  pub recv_loop-Leaves :
      (p : Endpoint W)
      → Reads k p.comms.connection_fd pending
      → (len : ℕ) (got bytes rest : Bytes) (left : ℕ) (acc : Acc ◌<◌ left)
        (e : left ≡ len - length got)
      → length got + length bytes ≡ len
      → pending p.world ≡ bytes ++ rest
      → Leaves p (got ++ bytes) rest (recv_loop k len got left acc e p)
  unfolding recv_loop
  recv_loop-Leaves p rd len got bytes rest left (Acc.intro _ smaller) e h hq =
      dite-either (Leaves p (got ++ bytes) rest) (dec_lt (length got) len)
        (λ more.
          let shrinks = λ (x : ℕ) (xs : Bytes). got_shrinks len got x xs left e more in
          let g =
            rd.gives p.world (len - length got) (omega arith)
              (some_pending p.world bytes rest hq (omega arith)) in
          let cut =
            append-drop bytes rest (g.first ∷ g.others) (pending g.next) (sym hq ∙ g.queued)
              (fits len got bytes (g.first ∷ g.others) h g.within) in
          read_round p (len - length got) rest
            (λ x xs. recv_loop k len (got ++ (x ∷ xs)) _ (smaller _ (shrinks x xs)) refl) g
            (with_value (append_assoc got _ _ ∙ ap (◌++◌ got) cut.1) (
              recv_loop-Leaves (in_world p g.next) rd len (got ++ (g.first ∷ g.others))
                (drop (length (g.first ∷ g.others)) bytes) rest _
                (smaller _ (shrinks g.first g.others)) refl
                (still len got bytes (g.first ∷ g.others) h
                  (fits len got bytes (g.first ∷ g.others) h g.within))
                cut.0)))
        (λ stop. all_received p got bytes rest (omega arith) hq)

  pub recv-Leaves :
      (p : Endpoint W)
      → Reads k p.comms.connection_fd pending
      → (bytes rest : Bytes) → pending p.world ≡ bytes ++ rest
      → Leaves p bytes rest (recv k (length bytes) p)
  unfolding recv lt_wf
  recv-Leaves p rd bytes rest h =
      recv_loop-Leaves p rd (length bytes) [] bytes rest _
        (lt_wf.apply (length bytes - length {A = ℕ} [])) refl (omega arith) h
