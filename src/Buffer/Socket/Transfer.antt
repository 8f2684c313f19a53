-- ===== src/Buffer/Socket/Transfer.antt =====
-- What a socket transfer does to a valid buffer, when the range it names is one piece of the array
-- and when it is not.
use native.Mathlib.Nat.{add-zero, mod-eq_of_lt}
use lp_net.Prelude.{
  ℕ, zero, suc, ◌+◌, ◌-◌, ◌%◌, ◌<◌, ◌≤◌, ◌≡◌, refl, sym, ap, ◌∙◌, arith, List, Option, none, some,
  leb, ltb, if◌then◌else◌, length, min, take, sub_size, lt→ltb,
}
use lp_net.Buffer.{Buffer, size, index_of, readable_bytes, writable_bytes}
use lp_net.Buffer.Inv.{IsValid, size-le-capacity, put_pos-size, index_of_lem}
use lp_net.Buffer.Window.{take-window}
use lp_net.Buffer.Refine.{
  contents, advance, Consumed, advance-Consumed, extend, Extended, extend-Extended, if-min,
}
use lp_net.Buffer.Socket.{
  receive, read_fd, write_fd, load_all_lem, load_all_out, store_all_lem, store_all_out,
}

-- The number of bytes that `Buffer::read(fd)` asks for.
unfoldable pub asked : Buffer → ℕ
asked b = min 4096 (b.capacity - size b)

asked_lem :
    {b : Buffer}
    → IsValid b
    → (if leb 4096 (writable_bytes b) then 4096 else writable_bytes b) ≡ asked b
unfolding writable_bytes asked
asked_lem {b} v =
    let room : sub_size b.capacity (size b) ≡ b.capacity - size b =
      omega (arith, size-le-capacity v) in
    rw room (ground arith)

-- The bytes that a negative answer counts: none.
abbrev pub counted : Option ℕ → ℕ
counted none = 0
counted (some k) = k

-- What `write_fd` does with the answer.
abbrev after_send : Buffer → Option ℕ → Option (Option ℕ × Buffer)
after_send b = elim [
  | none ↦ some (none, b)
  | some sent ↦ some (
    some sent,
    record b { get_pos = if ltb 0 sent then index_of b b.get_pos sent else b.get_pos },
  )
]

module _ {b : Buffer} (v : IsValid b) where
  nothing-Consumed : Consumed b 0 b
  nothing-Consumed = record { valid = v; rest = refl; kept = (refl, refl, refl) }

  after_send_lem :
      (o : Option ℕ)
      → counted o ≤ size b
      → (b' : Buffer) × (after_send b o ≡ some (o, b')) × Consumed b (counted o) b'
  after_send_lem none h = (b, refl, nothing-Consumed)
  after_send_lem (some zero) h = (b, refl, nothing-Consumed)
  after_send_lem (some (suc k)) h = (
    advance b (suc k),
    rw
        (
          lt→ltb 0 (suc k) (omega arith),
          index_of_lem b.get_pos (suc k) v (omega arith) (omega (arith, size-le-capacity v)),
        )
        refl,
    advance-Consumed (suc k) v h,
  )

  -- What `read_fd` does with the bytes that arrived.
  moved :
      (cells : List ℕ) (k : ℕ)
      → length cells ≡ length b.cells
      → k ≤ b.capacity
      → (if ltb 0 k then index_of b b.put_pos k else b.put_pos) ≡ (b.put_pos + k) % suc b.capacity
  moved cells zero e h =
      sym (ap (λ t. t % suc b.capacity) (add-zero b.put_pos) ∙ mod-eq_of_lt (omega arith))
  moved cells (suc k) e h =
      rw (lt→ltb 0 (suc k) (omega arith)) (index_of_lem b.put_pos (suc k) v (omega arith) h)

  -- In a valid buffer, the oldest bytes are offered to the socket in order, if they lie in one
  -- piece and the socket takes no more than it is offered; what it took is
  -- consumed, and a negative answer changes nothing.
  pub write_fd_lem :
      (send : List ℕ → Option ℕ) (n : ℕ)
      → counted (send (take (min n (size b)) (contents b))) ≤ min n (size b)
      → b.get_pos + min n (size b) ≤ suc b.capacity
      → (b' : Buffer) × (write_fd send b n ≡ some (send (take (min n (size b)) (contents b)), b'))
        × Consumed b (counted (send (take (min n (size b)) (contents b)))) b'
  unfolding write_fd readable_bytes
  write_fd_lem send n small piece =
      rw
        (
          if-min n (size b),
          load_all_lem b.cells (suc b.capacity) b.get_pos (min n (size b))
              (omega (arith, v.allocated)) piece,
          ← take-window b.cells (suc b.capacity) b.get_pos (min n (size b)) (size b) (omega arith),
        )
        (after_send_lem (send (take (min n (size b)) (contents b))) (omega (arith, small)))

  -- Where the bytes that a valid buffer sends go round the end of the array, the call reads past the
  -- allocated bytes.
  pub write_fd_out :
      (send : List ℕ → Option ℕ) (n : ℕ)
      → suc b.capacity < b.get_pos + min n (size b)
      → write_fd send b n ≡ none
  unfolding write_fd readable_bytes
  write_fd_out send n h =
      rw
        (
          if-min n (size b),
          load_all_out b.cells b.get_pos (min n (size b)) (omega (arith, v.allocated))
              (omega (arith, v.allocated)),
        )
        refl

  received :
      (recv : ℕ → Option (List ℕ)) (answer : Option (List ℕ))
      → recv (asked b) ≡ answer
      → read_fd recv b ≡ receive b answer
  unfolding read_fd
  received recv answer e = ap (λ n. receive b (recv n)) (asked_lem v) ∙ ap (receive b) e

  -- In a valid buffer, what the socket delivers, no more than was asked for, is appended if it fits
  -- before the end of the array.
  pub read_fd_lem :
      (recv : ℕ → Option (List ℕ)) (bytes : List ℕ)
      → recv (asked b) ≡ some bytes
      → length bytes ≤ asked b
      → b.put_pos + length bytes ≤ suc b.capacity
      → (b' : Buffer) × (read_fd recv b ≡ some (some (length bytes), b')) × Extended b bytes b'
  unfolding receive asked
  read_fd_lem recv bytes e small piece =
      let (cells, ran, len, seen) =
        store_all_lem bytes b.cells (suc b.capacity) b.get_pos (size b) b.put_pos
          (omega (arith, v.allocated)) piece (omega (arith, fits))
          (mod-eq_of_lt (omega arith) ∙ sym (put_pos-size v)) in
      (
        extend b cells (length bytes),
        received recv (some bytes) e
            ∙ rw (receive, ran, moved cells (length bytes) len (omega (arith, fits))) refl,
        extend-Extended v cells (length bytes) bytes len fits seen,
      )
    where
      fits : size b + length bytes ≤ b.capacity
      fits = omega (arith, small, size-le-capacity v)

  -- Bytes that the socket delivers to a valid buffer and that do not fit before the end of the array
  -- are written past the allocated bytes.
  pub read_fd_out :
      (recv : ℕ → Option (List ℕ)) (bytes : List ℕ)
      → recv (asked b) ≡ some bytes
      → suc b.capacity < b.put_pos + length bytes
      → read_fd recv b ≡ none
  unfolding receive
  read_fd_out recv bytes e h =
      received recv (some bytes) e
      ∙ rw
          (
            receive,
            store_all_out bytes b.cells b.put_pos (omega (arith, v.allocated))
                (omega (arith, v.allocated)),
          )
          refl

  -- A negative answer of `recv` changes nothing.
  pub read_fd_error :
      (recv : ℕ → Option (List ℕ)) → recv (asked b) ≡ none → read_fd recv b ≡ some (none, b)
  unfolding receive
  read_fd_error recv e = received recv none e
