-- ===== src/Comms/Effects.antt =====
-- What the transfers of sandboxed_api/sandbox2/comms.cc do to the state of the channel, on any
-- kernel.
use googlectf2023_fastbox.Prelude.{
  ℕ, zero, suc, ◌+◌, ◌-◌, ◌<◌, ◌≡◌, refl, ap, ◌∙◌, ◌⊎◌, inl, inr, Bool, true, false, [], ◌∷◌, ◌++◌,
  Option, none, some, length, drop, ◌==◌, if◌then◌else◌,
}
use mathlib.Core.WellFounded.{Acc}
use native.Mathlib.Decide.{dec_lt}
use googlectf2023_fastbox.Text.{Bytes}
use googlectf2023_fastbox.Comms.Kernel.{
  CallResult, done, failed, Kernel, Comms, terminated, is_fatal_error, epipe, Endpoint, Op,
  and_then,
}
use googlectf2023_fastbox.Comms.Connection.{terminate}
use googlectf2023_fastbox.Comms.Transfer.{
  sent_shrinks, got_shrinks, lt_wf, in_world, fail, after_write, after_read, send_loop, send,
  recv_loop, recv,
}
use googlectf2023_fastbox.Comms.Stream.{dite-either}

-- What Terminate makes of the object.
unfoldable pub closed : Comms → Comms
closed c = record c { state = terminated; bind_fd = none; connection_fd = none }

-- The object is as it was, or it is closed.
abbrev pub Stays : Comms → Comms → Type 0
Stays c c' = (c' ≡ c) ⊎ (c' ≡ closed c)

pub closed-closed : (c : Comms) → closed (closed c) ≡ closed c
unfolding closed
closed-closed c = refl

pub Stays-trans : {a b c : Comms} → Stays a b → Stays b c → Stays a c
Stays-trans (inl e) (inl e') = inl (e' ∙ e)
Stays-trans (inl e) (inr e') = inr (e' ∙ ap closed e)
Stays-trans (inr e) (inl e') = inr (e' ∙ e)
Stays-trans {a = a} (inr e) (inr e') = inr (e' ∙ ap closed e ∙ closed-closed a)

module _ {W : Type 0} (k : Kernel W) where
  -- A result whose object is the one before, or that one closed.
  pub record Ok {A : Type 0} (c : Comms) (r : Endpoint W × Option A) : Type 0 where
    pub stays : Stays c r.0.comms

  pub unchanged-Ok : {A : Type 0} {c : Comms} {r : Endpoint W × Option A} → r.0.comms ≡ c → Ok c r
  unchanged-Ok e = record { stays = inl e }

  closed-Ok : {A : Type 0} {c : Comms} {r : Endpoint W × Option A} → r.0.comms ≡ closed c → Ok c r
  closed-Ok e = record { stays = inr e }

  pub terminate-closed : (p : Endpoint W) → (terminate k p).comms ≡ closed p.comms
  unfolding terminate closed
  terminate-closed p = refl

  pub fail-Ok : (A : Type 0) (fatal : Bool) (p : Endpoint W) → Ok p.comms (fail k {A = A} fatal p)
  fail-Ok A true p = closed-Ok (terminate-closed p)
  fail-Ok A false p = unchanged-Ok refl

  pub and_then-Ok :
      {A B : Type 0} (p : Endpoint W) (f : A → Op W B) (r : Endpoint W × Option A)
      → Ok p.comms r
      → ((a : A) (p' : Endpoint W) → Ok p'.comms (f a p'))
      → Ok p.comms (and_then f r)
  and_then-Ok p f (p', none) h g = record { stays = h.stays }
  and_then-Ok p f (p', some a) h g = record { stays = Stays-trans h.stays (g a p').stays }

  pub if-Ok :
      {A : Type 0} (b : Bool) (x y : Op W A) (p : Endpoint W)
      → Ok p.comms (x p)
      → Ok p.comms (y p)
      → Ok p.comms ((if b then x else y) p)
  if-Ok true x y p hx hy = hx
  if-Ok false x y p hx hy = hy

  pub write_failed-Ok :
      (b fatal : Bool) (p : Endpoint W)
      → Ok {A = Unit {0}} p.comms (if b then (terminate k p, none) else fail k fatal p)
  write_failed-Ok true fatal p = closed-Ok (terminate-closed p)
  write_failed-Ok false fatal p = fail-Ok (Unit {0}) fatal p

  after_write-Ok :
      (p : Endpoint W) (more : ℕ → Op W (Unit {0})) (r : W × CallResult ℕ)
      → ((s : ℕ) (p' : Endpoint W) → Ok p'.comms (more s p'))
      → Ok p.comms (after_write k p more r)
  after_write-Ok p more (w, failed errno) h =
      write_failed-Ok (errno == epipe) (is_fatal_error errno) (in_world p w)
  after_write-Ok p more (w, done zero) h = unchanged-Ok refl
  after_write-Ok p more (w, done (suc s)) h = h s (in_world p w)

  after_read-Ok :
      (p : Endpoint W) (more : ℕ → Bytes → Op W Bytes) (r : W × CallResult Bytes)
      → ((x : ℕ) (xs : Bytes) (p' : Endpoint W) → Ok p'.comms (more x xs p'))
      → Ok p.comms (after_read k p more r)
  after_read-Ok p more (w, failed errno) h = fail-Ok Bytes (is_fatal_error errno) (in_world p w)
  after_read-Ok p more (w, done []) h = closed-Ok (terminate-closed (in_world p w))
  after_read-Ok p more (w, done (x ∷ xs)) h = h x xs (in_world p w)

  send_loop-Ok :
      (bytes : Bytes) (total left : ℕ) (acc : Acc ◌<◌ left) (e : left ≡ length bytes - total)
      (p : Endpoint W)
      → Ok p.comms (send_loop k bytes total left acc e p)
  unfolding send_loop
  send_loop-Ok bytes total left (Acc.intro _ smaller) e p =
      dite-either (Ok p.comms) (dec_lt total (length bytes))
        (λ more.
          after_write-Ok p
            (λ s.
              send_loop k bytes (total + suc s) _
                (smaller _ (sent_shrinks (length bytes) total s left e more)) refl)
            (k.write p.world p.comms.connection_fd (drop total bytes))
            (λ s p'.
              send_loop-Ok bytes (total + suc s) _
                (smaller _ (sent_shrinks (length bytes) total s left e more)) refl p'))
        (λ stop. unchanged-Ok refl)

  recv_loop-Ok :
      (len : ℕ) (got : Bytes) (left : ℕ) (acc : Acc ◌<◌ left) (e : left ≡ len - length got)
      (p : Endpoint W)
      → Ok p.comms (recv_loop k len got left acc e p)
  unfolding recv_loop
  recv_loop-Ok len got left (Acc.intro _ smaller) e p =
      dite-either (Ok p.comms) (dec_lt (length got) len)
        (λ more.
          after_read-Ok p
            (λ x xs.
              recv_loop k len (got ++ (x ∷ xs)) _ (smaller _ (got_shrinks len got x xs left e more))
                refl)
            (k.read p.world p.comms.connection_fd (len - length got))
            (λ x xs p'.
              recv_loop-Ok len (got ++ (x ∷ xs)) _
                (smaller _ (got_shrinks len got x xs left e more)) refl p'))
        (λ stop. unchanged-Ok refl)

  pub send-Ok : (bytes : Bytes) (p : Endpoint W) → Ok p.comms (send k bytes p)
  unfolding send
  send-Ok bytes p = send_loop-Ok bytes 0 _ (lt_wf.apply (length bytes - 0)) refl p

  pub recv-Ok : (len : ℕ) (p : Endpoint W) → Ok p.comms (recv k len p)
  unfolding recv
  recv-Ok len p = recv_loop-Ok len [] _ (lt_wf.apply (len - length {A = ℕ} [])) refl p
