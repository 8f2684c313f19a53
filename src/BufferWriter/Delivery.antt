-- ===== src/BufferWriter/Delivery.antt =====
-- Clients of a `BufferWriter`: messages appended one after another, and sent one after another.
use lp_net.Prelude.{
  ℕ, zero, suc, ◌+◌, ◌^◌, ◌<◌, ◌≤◌, ◌≡◌, refl, ap, ◌∙◌, arith, List, [], ◌∷◌, ◌++◌, Option, some,
  true, false, not, length-append, ◌==◌, if◌then◌else◌, ◌>>=◌, length, take, map, take_of_length-le,
  append-nil, append_assoc,
}
use mathlib.Core.Path.{subst}
use lp_net.Buffer.{Buffer}
use lp_net.Buffer.Socket.Transfer.{counted}
use lp_net.BufferWriter.{BufferWriter, init, size, full, append, send}
use lp_net.BufferWriter.Frames.{Frames, length-Frames, append_message, send_lem}

pub append_all : (ℕ → List ℕ) → BufferWriter → List (List ℕ) → Option BufferWriter
append_all new_array w [] = some w
append_all new_array w (m ∷ messages) =
    append new_array w m (length m) >>= λ out. append_all new_array out.1 messages

-- What the socket answered to each of `n` calls of `send`.
pub send_all :
    (List ℕ → Option ℕ) → BufferWriter → ℕ → Option (List (Option (Option ℕ)) × BufferWriter)
send_all sock w zero = some ([], w)
send_all sock w (suc n) = do
  (result, answer, w') ← send sock w
  (answers, w'') ← send_all sock w' n
  some (answer ∷ answers, w'')

-- The lengths are `uint32_t`s.
abbrev pub Short : List (List ℕ) → Type 0
Short [] = Unit
Short (m ∷ messages) = (length m < 2 ^ 32) × Short messages

not-full : (w : BufferWriter) → length w.q < w.capacity → full w ≡ false
unfolding full size
not-full w h = not-eq w.capacity (length w.q) h
  where
    not-eq : (n k : ℕ) → k < n → (n == k) ≡ false
    not-eq n k h = ground arith

appended :
    (new_array : ℕ → List ℕ)
    → ((n : ℕ) → length (new_array n) ≡ n)
    → (m : List ℕ) (queued : List (List ℕ)) (w : BufferWriter) → Frames queued w.q
    → length m < 2 ^ 32
    → full w ≡ false
    → (w' : BufferWriter) × (append new_array w m (length m) ≡ some (true, w'))
      × (w'.capacity ≡ w.capacity)
      × Frames (queued ++ m ∷ []) w'.q
appended new_array sized m queued w f short room =
    let (w', ran, cap, f') =
      append_message new_array sized queued w m (length m) f (omega arith) short in
    (
      w',
      ran ∙ ap (λ b. some (not b, w')) room,
      cap,
      subst (λ xs. Frames (queued ++ xs ∷ []) w'.q) (take_of_length-le (length m) m (omega arith))
          (subst (λ b. Frames (if b then queued else queued ++ take (length m) m ∷ []) w'.q) room
            f'),
    )

no-Frames : (q : List Buffer) → Frames [] q → q ≡ []
no-Frames [] f = refl
no-Frames (b ∷ q) f = absurd f

append_all_lem :
    (new_array : ℕ → List ℕ)
    → ((n : ℕ) → length (new_array n) ≡ n)
    → (messages queued : List (List ℕ)) (w : BufferWriter) → Frames queued w.q
    → Short messages
    → length queued + length messages ≤ w.capacity
    → (w' : BufferWriter) × (append_all new_array w messages ≡ some w')
      × (w'.capacity ≡ w.capacity)
      × Frames (queued ++ messages) w'.q
unfolding append_all
append_all_lem new_array sized [] queued w f short room = (w, refl, refl, rw (append-nil queued) f)
append_all_lem new_array sized (m ∷ messages) queued w f (short, others) room =
    let (w1, ran1, cap1, f1) =
      appended new_array sized m queued w f short
        (not-full w (omega (arith, length-Frames queued w.q f))) in
    let (w2, ran2, cap2, f2) =
      append_all_lem new_array sized messages (queued ++ m ∷ []) w1 f1 others
        (omega (arith, length-append queued (m ∷ []), cap1)) in
    (w2, rw ran1 ran2, cap2 ∙ cap1, rw (← append_assoc queued (m ∷ []) messages) f2)

send_all_lem :
    (sock : List ℕ → Option ℕ)
    → ((bytes : List ℕ) → counted (sock bytes) ≤ length bytes)
    → (messages : List (List ℕ)) (w : BufferWriter) → Frames messages w.q
    → send_all sock w (length messages)
      ≡ some (map (λ m. some (sock m)) messages, record w { q = [] })
unfolding send_all
send_all_lem sock honest [] w f = ap (λ q. some ([], record w { q = q })) (no-Frames w.q f)
send_all_lem sock honest (m ∷ messages) w f =
    let (w', ran, cap, f') = send_lem sock m messages w f (honest m) in
    rw (ran, send_all_lem sock honest messages w' f', cap) refl

-- What is appended to an empty queue with room for it, each message shorter than 2 ^ 32 bytes, is handed to the socket message by message, in
-- order and each as a whole, by as many calls of `send`, and leaves the queue empty.
pub append_all-send_all :
    (new_array : ℕ → List ℕ) (sock : List ℕ → Option ℕ)
    → ((n : ℕ) → length (new_array n) ≡ n)
    → ((bytes : List ℕ) → counted (sock bytes) ≤ length bytes)
    → (messages : List (List ℕ)) (qcap : ℕ) → Short messages
    → length messages ≤ qcap
    → (append_all new_array (init qcap) messages >>= λ w. send_all sock w (length messages))
      ≡ some (map (λ m. some (sock m)) messages, init qcap)
unfolding init
append_all-send_all new_array sock sized honest messages qcap short room =
    let (w, ran, cap, f) =
      append_all_lem new_array sized messages [] (init qcap) tt short (omega arith) in
    rw (ran, send_all_lem sock honest messages w f, cap) refl
