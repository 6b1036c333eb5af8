-- ===== src/Comms/Fifo.antt =====
-- The channel of sandboxed_api/sandbox2/comms.cc as a queue of messages.
use googlectf2023_fastbox.Prelude.{
  ℕ, ◌^◌, ◌<◌, ◌≤◌, ◌≡◌, refl, sym, ap, ◌∙◌, List, [], ◌∷◌, ◌++◌, Option, none, some, length,
}
use mathlib.Core.List.{append-nil, append_assoc}
use googlectf2023_fastbox.Text.{Bytes}
use googlectf2023_fastbox.Comms.Kernel.{Kernel, Comms, Endpoint}
use googlectf2023_fastbox.Comms.Tlv.{max_msg_size, send_tlv, recv_tlv}
use googlectf2023_fastbox.Comms.Stream.{Writes, Reads}
use googlectf2023_fastbox.Comms.Wire.{frame, send_tlv-Leaves, recv_tlv-Leaves}

abbrev pub Message : Type 0
Message = ℕ × Bytes

-- What the program at one end or the other does next: it sends a message or receives one.
pub data Action : Type 0 where
  put : Message → Action
  get : Action

abbrev cons_to : Message → Option (List Message) → Option (List Message)
cons_to m none = none
cons_to m (some ms) = some (m ∷ ms)

-- The queue: the messages that are received, in order, unless a reception finds it empty.
unfoldable pub queue_run : List Action → List Message → Option (List Message)
queue_run [] queue = some []
queue_run (put m ∷ actions) queue = queue_run actions (queue ++ (m ∷ []))
queue_run (get ∷ actions) [] = none
queue_run (get ∷ actions) (m ∷ queue) = cons_to m (queue_run actions queue)

-- The messages of tags of 32 bits and legal sizes.
abbrev pub Legal : Message → Type 0
Legal m = (m.0 < 256 ^ 4) × (length m.1 ≤ max_msg_size)

abbrev pub AllLegal : List Action → Type 0
AllLegal [] = Unit {0}
AllLegal (put m ∷ actions) = Legal m × AllLegal actions
AllLegal (get ∷ actions) = AllLegal actions

abbrev frames : List Message → Bytes
frames [] = []
frames (m ∷ queue) = frame m.0 m.1 ++ frames queue

abbrev AllLegalMessages : List Message → Type 0
AllLegalMessages [] = Unit {0}
AllLegalMessages (m ∷ queue) = Legal m × AllLegalMessages queue

frames-snoc :
    (queue : List Message) (m : Message)
    → frames (queue ++ (m ∷ [])) ≡ frames queue ++ frame m.0 m.1
frames-snoc [] m = append-nil (frame m.0 m.1)
frames-snoc (m' ∷ queue) m =
    ap (◌++◌ (frame m'.0 m'.1)) (frames-snoc queue m)
    ∙ sym (append_assoc (frame m'.0 m'.1) (frames queue) (frame m.0 m.1))

snoc_all :
    (queue : List Message) (m : Message)
    → AllLegalMessages queue
    → Legal m
    → AllLegalMessages (queue ++ (m ∷ []))
snoc_all [] m hq hm = (hm, tt)
snoc_all (m' ∷ queue) m hq hm = (hq.0, snoc_all queue m hq.1 hm)

received_first :
    (m : Message) (o o' : Option (List Message)) (got : List Message)
    → cons_to m o ≡ some got
    → ((rest : List Message) → o ≡ some rest → o' ≡ some rest)
    → cons_to m o' ≡ some got
received_first m none o' got h ih = cc h
received_first m (some rest) o' got h ih = ap (cons_to m) (ih rest refl) ∙ h

module _ {W : Type 0} (k : Kernel W) (tx rx : Comms) where
  abbrev at : Comms → W → Endpoint W
  at c w = record { comms = c; world = w }

  -- The next actions, in the world that a call leaves, if it returns true.
  abbrev after_put :
      (W → Option (List Message)) → Endpoint W × Option (Unit {0}) → Option (List Message)
  after_put next (p, none) = none
  after_put next (p, some u) = next p.world

  abbrev after_get :
      (W → Option (List Message)) → Endpoint W × Option Message → Option (List Message)
  after_get next (p, none) = none
  after_get next (p, some m) = cons_to m (next p.world)

  -- The two ends: `tx` sends by SendTLV, `rx` receives by RecvTLV; the messages that are received,
  -- in order, unless a call returns false.
  unfoldable pub channel_run : List Action → W → Option (List Message)
  channel_run [] w = some []
  channel_run (put m ∷ actions) w = after_put (channel_run actions) (send_tlv k m.0 m.1 (at tx w))
  channel_run (get ∷ actions) w = after_get (channel_run actions) (recv_tlv k (at rx w))

  module _ (pending : W → Bytes) (wr : Writes k tx.connection_fd pending)
      (rd : Reads k rx.connection_fd pending) where
    run-queue :
        (actions : List Action) (queue : List Message) (w : W)
        → AllLegal actions
        → AllLegalMessages queue
        → pending w ≡ frames queue
        → (got : List Message) → queue_run actions queue ≡ some got
        → channel_run actions w ≡ some got
    unfolding queue_run channel_run
    run-queue [] queue w ha hq e got h = h
    run-queue (put m ∷ actions) queue w ha hq e got h =
        let l = send_tlv-Leaves k pending (at tx w) wr m.0 m.1 ha.0.1 in
        ap (after_put (channel_run actions)) l.result
        ∙ run-queue actions (queue ++ (m ∷ [])) l.after ha.1 (snoc_all queue m hq ha.0)
            (l.left_over ∙ ap (λ b. b ++ frame m.0 m.1) e ∙ sym (frames-snoc queue m)) got h
    run-queue (get ∷ actions) [] w ha hq e got h = cc h
    run-queue (get ∷ actions) (m ∷ queue) w ha hq e got h =
        let l = recv_tlv-Leaves k pending (at rx w) rd m.0 m.1 (frames queue) hq.0.0 hq.0.1 e in
        ap (after_get (channel_run actions)) l.result
        ∙ received_first m (queue_run actions queue) (channel_run actions l.after) got h
            (λ rest. run-queue actions queue l.after ha hq.1 l.left_over rest)

    -- Start with nothing in the stream. Any sequence of sends at one end and receptions at the
    -- other, of messages with tags of 32 bits and at most 2^31 - 1 bytes and with no reception
    -- that would have to wait, gives what a queue of messages gives: each call returns true, and
    -- the messages come out whole and in order, however the transfers are split.
    pub channel_run-queue :
        (actions : List Action) (w : W) (got : List Message)
        → AllLegal actions
        → pending w ≡ []
        → queue_run actions [] ≡ some got
        → channel_run actions w ≡ some got
    channel_run-queue actions w got ha e h = run-queue actions [] w ha tt e got h
