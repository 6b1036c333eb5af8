-- ===== src/Comms/Transfer.antt =====
-- sandboxed_api/sandbox2/comms.cc: `Send` and `Recv`, which go on until all bytes are through.
use googlectf2023_fastbox.Prelude.{
  ℕ, zero, suc, ◌+◌, ◌-◌, ◌<◌, Bool, [], ◌∷◌, ◌++◌, Option, none, ◌==◌, length, length-append, drop,
  if◌then◌else◌, arith, ◌≡◌, refl,
}
use mathlib.Core.WellFounded.{Acc, WellFounded}
use mathlib.Core.Logic.{dite}
use native.Mathlib.Decide.{dec_lt}
use googlectf2023_fastbox.Text.{Bytes}
use googlectf2023_fastbox.Comms.Kernel.{
  CallResult, done, failed, Kernel, is_fatal_error, epipe, Endpoint, Op, refuse, succeed,
}
use googlectf2023_fastbox.Comms.Connection.{terminate}

acc_below : (k n : ℕ) → n < k → Acc ◌<◌ n
acc_below zero n h = absurd (omega arith)
acc_below (suc k) n h = Acc.intro n (λ m hm. acc_below k m (omega arith))

unfoldable pub lt_wf : WellFounded ◌<◌
unfolding acc_below
lt_wf = record { apply = λ n. acc_below (suc n) n (omega arith) }

pub sent_shrinks :
    (len total s left : ℕ) → left ≡ len - total → total < len → len - (total + suc s) < left
sent_shrinks len total s left e h = omega arith

pub got_shrinks :
    (len : ℕ) (got : Bytes) (x : ℕ) (xs : Bytes) (left : ℕ)
    → left ≡ len - length got
    → length got < len
    → len - length (got ++ (x ∷ xs)) < left
got_shrinks len got x xs left e h = omega (arith, length-append got (x ∷ xs))

abbrev pub in_world : {W : Type 0} → Endpoint W → W → Endpoint W
in_world p w = record p { world = w }

module _ {W : Type 0} (k : Kernel W) where
  -- An error that ends the connection, or one after which it stands.
  abbrev pub fail : {A : Type 0} → Bool → Op W A
  fail fatal p = (if fatal then terminate k p else p, none)

  abbrev pub after_write :
      Endpoint W → (ℕ → Op W (Unit {0})) → W × CallResult ℕ → Endpoint W × Option (Unit {0})
  after_write p more (w, failed errno) =
      if errno == epipe
      then (terminate k (in_world p w), none)
      else fail (is_fatal_error errno) (in_world p w)
  after_write p more (w, done zero) = refuse (in_world p w)
  after_write p more (w, done (suc s)) = more s (in_world p w)

  abbrev pub after_read :
      Endpoint W → (ℕ → Bytes → Op W Bytes) → W × CallResult Bytes → Endpoint W × Option Bytes
  after_read p more (w, failed errno) = fail (is_fatal_error errno) (in_world p w)
  after_read p more (w, done []) = (terminate k (in_world p w), none)
  after_read p more (w, done (x ∷ xs)) = more x xs (in_world p w)

  -- The loop of `Send`, after `total_sent` bytes.
  unfoldable pub send_loop :
      (bytes : Bytes) (total_sent left : ℕ)
      → Acc ◌<◌ left
      → left ≡ length bytes - total_sent
      → Op W (Unit {0})
  send_loop bytes total_sent left (Acc.intro _ smaller) e p =
      dite (dec_lt total_sent (length bytes))
        (λ more.
          after_write p
            (λ s.
              send_loop bytes (total_sent + suc s) _
                (smaller _ (sent_shrinks (length bytes) total_sent s left e more)) refl)
            (k.write p.world p.comms.connection_fd (drop total_sent bytes)))
        (λ _. succeed tt p)

  -- Send
  unfoldable pub send : Bytes → Op W (Unit {0})
  unfolding lt_wf
  send bytes = send_loop bytes 0 _ (lt_wf.apply (length bytes - 0)) refl

  -- The loop of `Recv`, after the bytes in `got`; `total_recv` is their number.
  unfoldable pub recv_loop :
      (len : ℕ) (got : Bytes) (left : ℕ) → Acc ◌<◌ left → left ≡ len - length got → Op W Bytes
  recv_loop len got left (Acc.intro _ smaller) e p =
      dite (dec_lt (length got) len)
        (λ more.
          after_read p
            (λ x xs.
              recv_loop len (got ++ (x ∷ xs)) _ (smaller _ (got_shrinks len got x xs left e more))
                refl)
            (k.read p.world p.comms.connection_fd (len - length got)))
        (λ _. succeed got p)

  -- Recv
  unfoldable pub recv : ℕ → Op W Bytes
  unfolding lt_wf
  recv len = recv_loop len [] _ (lt_wf.apply (len - length {A = ℕ} [])) refl
