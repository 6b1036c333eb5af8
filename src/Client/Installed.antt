-- ===== src/Client/Installed.antt =====
-- The filter of sandboxed_api/sandbox2/policy.cc on its way to sandboxed_api/sandbox2/client.cc.
use googlectf2023_fastbox.Prelude.{
  ℕ, ◌-◌, ◌*◌, ◌%◌, ◌^◌, ◌<◌, ◌≡◌, refl, sym, ap, ◌∙◌, Bool, List, [], ◌∷◌, Option, none, some, ltb,
  length, le→ltb, if◌then◌else◌, arith,
}
use mathlib.Core.Path.{subst}
use googlectf2023_fastbox.Text.{Bytes}
use googlectf2023_fastbox.Bpf.{SockFilter}
use googlectf2023_fastbox.Comms.Kernel.{Kernel, Endpoint}
use googlectf2023_fastbox.Comms.Tlv.{le_bytes}
use googlectf2023_fastbox.Comms.Messages.{recv_bytes}
use googlectf2023_fastbox.Comms.Stream.{Writes, Reads}
use googlectf2023_fastbox.Comms.Wire.{from_le-le_bytes}
use googlectf2023_fastbox.Comms.RoundTrip.{Arrives, texts-Arrive}
use googlectf2023_fastbox.Policy.{Flags, get_policy}
use googlectf2023_fastbox.PolicyBuilder.Build.{Policy}
use googlectf2023_fastbox.Client.{
  policy_bytes, read_filters, SockFprog, sock_fprog, sent_policy, send_policy, receive_policy,
}

-- The fields are numbers that their types can hold.
pub record FitsFields (f : SockFilter) : Type 0 where
  pub code_16 : f.code < 2 ^ 16
  pub jt_8 : f.jt < 2 ^ 8
  pub jf_8 : f.jf < 2 ^ 8
  pub k_32 : f.k < 2 ^ 32

abbrev pub AllFit : List SockFilter → Type 0
AllFit [] = Unit {0}
AllFit (f ∷ fs) = FitsFields f × AllFit fs

length-policy_bytes : (fs : List SockFilter) → length (policy_bytes fs) ≡ 8 * length fs
unfolding policy_bytes le_bytes
length-policy_bytes [] = refl
length-policy_bytes (f ∷ fs) = omega (arith, length-policy_bytes fs)

filter_of : ℕ → ℕ → ℕ → ℕ → SockFilter
filter_of c t f k = record { code = c; jt = t; jf = f; k = k }

same_filter :
    {c c' t t' f f' k k' : ℕ} {fs fs' : List SockFilter}
    → c ≡ c'
    → t ≡ t'
    → f ≡ f'
    → k ≡ k'
    → fs ≡ fs'
    → filter_of c t f k ∷ fs ≡ filter_of c' t' f' k' ∷ fs'
same_filter ec et ef ek e = cc (ec, et, ef, ek, e)

read-policy_bytes :
    (fs : List SockFilter) → AllFit fs → read_filters (length fs) (policy_bytes fs) ≡ fs
unfolding policy_bytes read_filters le_bytes filter_of
read-policy_bytes [] h = refl
read-policy_bytes (f ∷ fs) h =
    same_filter (from_le-le_bytes 2 f.code h.0.code_16) (from_le-le_bytes 1 f.jt h.0.jt_8)
      (from_le-le_bytes 1 f.jf h.0.jf_8) (from_le-le_bytes 4 f.k h.0.k_32)
      (read-policy_bytes fs h.1)

program : ℕ → List SockFilter → SockFprog
program n fs = record { len = n; filter = fs }

checked_program : List SockFilter → ℕ → Option SockFprog
checked_program fs n =
    if ltb (2 ^ 16 - 1) n
    then none
    else some (program (n % 2 ^ 16) (read_filters (n % 2 ^ 16) (policy_bytes fs)))

fprog_of :
    (fs : List SockFilter)
    → AllFit fs
    → length fs < 2 ^ 16
    → sock_fprog (policy_bytes fs) ≡ some (record { len = length fs; filter = fs })
unfolding sock_fprog program checked_program
fprog_of fs h hl =
    ap (checked_program fs) {y = length fs} (omega (arith, length-policy_bytes fs))
    ∙ ap
        (λ b.
          if b
          then none
          else some
              (program (length fs % 2 ^ 16) (read_filters (length fs % 2 ^ 16) (policy_bytes fs))))
        (le→ltb (2 ^ 16 - 1) (length fs) (omega arith))
    ∙ ap (λ (m : ℕ). some (program m (read_filters m (policy_bytes fs)))) {y = length fs}
        (omega arith)
    ∙ ap (λ l. some (program (length fs) l)) (read-policy_bytes fs h)

module _ {W : Type 0} (k : Kernel W) (pending : W → Bytes) where
  -- The bytes that a call of SendPolicy sends arrive at the client, on a stream socket with
  -- nothing in it, as the array of the policy's filter; where the filter has less than 2^16
  -- instructions, whose fields their types can hold, the program that the client hands to the
  -- kernel is that filter, with its length.
  pub send_policy-installed :
      (tx rx : Endpoint W)
      → Writes k tx.comms.connection_fd pending
      → Reads k rx.comms.connection_fd pending
      → pending tx.world ≡ []
      → (flags : Flags) (user_notif : Bool) (p : Policy) (filter : List SockFilter)
      → get_policy flags user_notif p ≡ some filter
      → AllFit filter
      → length filter < 2 ^ 16
      → Arrives k pending tx rx
          (send_policy k flags user_notif p)
          (receive_policy k)
          (policy_bytes filter)
        × (sock_fprog (policy_bytes filter)
            ≡ some (record { len = length filter; filter = filter }))
  unfolding send_policy receive_policy
  send_policy-installed tx rx wr rd idle flags user_notif p filter e h hl = (
    subst (λ o. Arrives k pending tx rx (sent_policy k o) (recv_bytes k) (policy_bytes filter))
        (sym e)
        (texts-Arrive k pending tx rx wr rd idle [] (policy_bytes filter) (omega arith)
          (omega (arith, length-policy_bytes filter))).1,
    fprog_of filter h hl,
  )
