-- ===== src/BufferWriter/Frames.antt =====
-- What the queue of a `BufferWriter` holds: one message in each buffer.
use lp_net.Prelude.{
  ℕ, suc, ◌-◌, ◌^◌, ◌<◌, ◌≤◌, ◌≡◌, refl, sym, ap, ap₂, ◌∙◌, arith, List, [], ◌∷◌, ◌++◌, Option,
  some, not, Bool-cases, inl, inr, if◌then◌else◌, length, take, min, take_of_length-le,
}
use lp_net.Buffer
use lp_net.Buffer.{Buffer, readable_bytes, init}
use lp_net.Buffer.Inv.{IsValid, init_lem, readable_bytes-eq-size, size-le-capacity}
use lp_net.Buffer.Window.{window}
use lp_net.Buffer.Refine.{contents, length-contents, write_lem}
use lp_net.Buffer.Socket.{write_fd}
use lp_net.Buffer.Socket.Transfer.{counted, write_fd_lem}
use lp_net.BufferWriter.{BufferWriter, full, append, send}

-- A buffer that holds just the message, from the start of its array.
pub record IsFrame (message : List ℕ) (b : Buffer) : Type 0 where
  pub valid : IsValid b
  pub holds : contents b ≡ message
  pub start : b.get_pos ≡ 0

abbrev pub Frames : List (List ℕ) → List Buffer → Type 0
Frames [] [] = Unit
Frames [] (b ∷ q) = ⊥
Frames (m ∷ messages) [] = ⊥
Frames (m ∷ messages) (b ∷ q) = IsFrame m b × Frames messages q

pub length-Frames :
    (messages : List (List ℕ)) (q : List Buffer) → Frames messages q → length q ≡ length messages
length-Frames [] [] f = refl
length-Frames [] (b ∷ q) f = absurd f
length-Frames (m ∷ messages) [] f = absurd f
length-Frames (m ∷ messages) (b ∷ q) f = ap suc (length-Frames messages q f.1)

Frames-push :
    (messages : List (List ℕ)) (q : List Buffer) (m : List ℕ) (b : Buffer)
    → Frames messages q
    → IsFrame m b
    → Frames (messages ++ m ∷ []) (q ++ b ∷ [])
Frames-push [] [] m b f g = (g, tt)
Frames-push [] (c ∷ q) m b f g = absurd f
Frames-push (n ∷ messages) [] m b f g = absurd f
Frames-push (n ∷ messages) (c ∷ q) m b f g = (f.0, Frames-push messages q m b f.1 g)

fresh_contents :
    (b : Buffer) (len : ℕ) (bytes : List ℕ)
    → Buffer.size b ≡ 0
    → b.capacity ≡ len
    → contents b ++ take (min len (b.capacity - Buffer.size b)) bytes ≡ take len bytes
fresh_contents b len bytes none_yet cap =
    ap₂ ◌++◌ (ap (window b.cells (suc b.capacity) b.get_pos) none_yet)
      (ap (λ k. take k bytes) {y = len} (omega (arith, none_yet, cap)))

module _ (new_array : ℕ → List ℕ) (length-new_array : (n : ℕ) → length (new_array n) ≡ n) where
  -- In a queue of messages, one in each buffer, `append` refuses a message of `len` bytes (below 2 ^ 32) where the queue is full, and otherwise puts all of its `len` bytes
  -- in a buffer of its own behind the others.
  pub append_message :
      (messages : List (List ℕ)) (w : BufferWriter) (bytes : List ℕ) (len : ℕ)
      → Frames messages w.q
      → len ≤ length bytes
      → len < 2 ^ 32
      → (w' : BufferWriter) × (append new_array w bytes len ≡ some (not (full w), w'))
        × (w'.capacity ≡ w.capacity)
        × Frames (if full w then messages else messages ++ take len bytes ∷ []) w'.q
  unfolding append
  append_message messages w bytes len f enough small = elim (Bool-cases (full w)) [
    | inl no_room ↦ rw no_room (w, refl, refl, f)
    | inr room ↦
        let (v, none_yet, start, cap) = init_lem new_array len length-new_array (omega arith) in
        let (b', ran, x) = write_lem v bytes len enough in
        rw room (
          record w { q = w.q ++ b' ∷ [] },
          rw ran refl,
          refl,
          Frames-push messages w.q (take len bytes) b' f record {
            valid = x.valid;
            holds = x.longer ∙ fresh_contents (Buffer.init new_array len) len bytes none_yet cap;
            start = x.kept.1 ∙ start;
          },
        )
  ]

frame_length : {m : List ℕ} {b : Buffer} → IsFrame m b → Buffer.size b ≡ length m
frame_length {m} {b} frame = sym (length-contents b) ∙ ap length frame.holds

frame_send :
    (sock : List ℕ → Option ℕ) {m : List ℕ} {b : Buffer}
    → IsFrame m b
    → counted (sock m) ≤ length m
    → (b' : Buffer) × (write_fd sock b (Buffer.size b) ≡ some (sock m, b'))
frame_send sock {m} {b} frame h =
    let (b', ran, x) =
      write_fd_lem frame.valid sock (Buffer.size b)
        (omega (arith, h, ap (λ t. counted (sock t)) whole, frame_length frame))
        (omega (arith, frame.start, size-le-capacity frame.valid)) in
    (b', ran ∙ ap (λ t. some (sock t, b')) whole)
  where
    whole : take (min (Buffer.size b) (Buffer.size b)) (contents b) ≡ m
    whole =
        take_of_length-le (min (Buffer.size b) (Buffer.size b)) (contents b)
          (omega (arith, length-contents b))
        ∙ frame.holds

-- In a queue of messages, one in each buffer, and with a socket that takes no more than it is
-- offered, `send` hands the whole oldest message to the socket and takes it out of the queue, whatever the
-- socket took of it, and returns its length.
pub send_lem :
    (sock : List ℕ → Option ℕ) (m : List ℕ) (messages : List (List ℕ)) (w : BufferWriter)
    → Frames (m ∷ messages) w.q
    → counted (sock m) ≤ length m
    → (w' : BufferWriter) × (send sock w ≡ some (some (length m), some (sock m), w'))
      × (w'.capacity ≡ w.capacity)
      × Frames messages w'.q
unfolding send
send_lem sock m messages w f h = first w.q refl f
  where
    first :
        (q : List Buffer)
        → q ≡ w.q
        → Frames (m ∷ messages) q
        → (w' : BufferWriter) × (send sock w ≡ some (some (length m), some (sock m), w'))
          × (w'.capacity ≡ w.capacity)
          × Frames messages w'.q
    first [] e f = absurd f
    first (b ∷ rest) e (frame, f) =
        let (b', ran) = frame_send sock frame h in
        (
          record w { q = rest },
          rw (← e, readable_bytes-eq-size b, ran, frame_length frame) refl,
          refl,
          f,
        )
