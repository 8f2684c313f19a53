-- ===== src/BufferReader/Receiving.antt =====
-- `BufferReader::read(sockfd_t)` of a reader without bytes: it offers its own bytes to the socket.
use lp_net.Prelude.{
  ℕ, suc, ◌+◌, ◌≤◌, false, ◌-◌, ◌*◌, ◌^◌, ◌<◌, ◌≡◌, refl, ◌∙◌, arith, List, [], Option, none, some,
  Bool-cases, inl, inr, ltb, min, length, take,
}
use lp_net.Buffer.{Buffer, size, max_bytes_per_read}
use lp_net.Buffer.Inv.{IsValid}
use lp_net.Buffer.Refine.{contents, Consumed}
use lp_net.Buffer.Reset.{reset_lem, size_from_zero}
use lp_net.Buffer.Socket.Transfer.{counted, write_fd_lem}
use lp_net.Buffer.Socket.Empty.{write_fd_empty}
use lp_net.BufferReader.{grow, read_fd}
use lp_net.BufferReader.Growth.{grow_tests}

module _ (new_array : ℕ → List ℕ) (sized : (n : ℕ) → length (new_array n) ≡ n) where
  grow_empty :
      (b : Buffer)
      → IsValid b
      → b.capacity < 2 ^ 30
      → size b ≡ 0
      → (b' : Buffer) × (grow new_array b ≡ some b') × (size b' ≡ 0)
  grow_empty b v small none_left = elim (Bool-cases (ltb (b.capacity - size b) 4096)) [
    | inl few ↦
        let (b', made, seen, cap, put, t) =
          reset_lem new_array sized b (b.capacity * 2) v (omega arith) in
        (
          b',
          grow_tests new_array sized v small ∙ rw (few, made) refl,
          omega (
            arith,
            put,
            none_left,
            t.start,
            size_from_zero b' t.small (omega (arith, t.start)) t.put_in,
          ),
        )
    | inr many ↦ (b, grow_tests new_array sized v small ∙ rw many refl, none_left)
  ]

  result-none :
      (o : Option ℕ) → counted o ≡ 0 → ◌≡◌ {A = ℕ} (elim o [ none ↦ 0 | some len ↦ len ]) 0
  result-none none h = refl
  result-none (some n) h = h

  -- `read(fd)` of a valid reader without bytes, of a capacity below 2 ^ 30, with a socket that takes nothing where it is
  -- offered nothing, returns 0, as for a peer that has closed, and leaves the reader empty: whatever the peer sent is
  -- not read.
  pub read_fd_empty :
      (sock : List ℕ → Option ℕ) (b : Buffer)
      → IsValid b
      → b.capacity < 2 ^ 30
      → size b ≡ 0
      → counted (sock []) ≡ 0
      → (b' : Buffer) × (read_fd new_array sock b ≡ some (0, b')) × (size b' ≡ 0)
  unfolding read_fd
  read_fd_empty sock b v small none_left took =
      let (b', grew, still) = grow_empty b v small none_left in
      (
        b',
        rw (grew, write_fd_empty sock b' max_bytes_per_read still took, result-none (sock []) took)
            refl,
        still,
      )

  result-counted : (o : Option ℕ) → ◌≡◌ {A = ℕ} (elim o [ none ↦ 0 | some len ↦ len ]) (counted o)
  result-counted none = refl
  result-counted (some n) = refl

  -- With at least 4096 bytes free and the oldest bytes in one piece of the array, `read(fd)` offers the
  -- reader's own oldest bytes, at most 4096 of them, to the socket, consumes as many of them as the socket takes, and
  -- returns their number, 0 for a negative answer; no byte is received. The buffer is valid, its capacity is below
  -- 2 ^ 30 and the socket takes no more than it is offered.
  pub read_fd-sends :
      (sock : List ℕ → Option ℕ) (b : Buffer)
      → IsValid b
      → b.capacity < 2 ^ 30
      → ltb (b.capacity - size b) 4096 ≡ false
      → b.get_pos + min 4096 (size b) ≤ suc b.capacity
      → counted (sock (take (min 4096 (size b)) (contents b))) ≤ min 4096 (size b)
      → (b' : Buffer) × (read_fd new_array sock b
          ≡ some (counted (sock (take (min 4096 (size b)) (contents b))), b'))
        × Consumed b (counted (sock (take (min 4096 (size b)) (contents b)))) b'
  unfolding read_fd
  read_fd-sends sock b v small roomy piece took =
      let (b', sent, used) = write_fd_lem v sock 4096 took piece in
      (
        b',
        rw
            (
              grow_tests new_array sized v small,
              roomy,
              sent,
              result-counted (sock (take (min 4096 (size b)) (contents b))),
            )
            refl,
        used,
      )
