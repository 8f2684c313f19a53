-- ===== src/Buffer/Socket/Empty.antt =====
-- `Buffer::write(fd, …)` of a buffer without bytes.
use lp_net.Prelude.{
  ℕ, zero, suc, ◌≡◌, refl, ap, ◌∙◌, arith, List, [], Option, none, some, ltb, if◌then◌else◌, ◌>>=◌,
}
use lp_net.Buffer.{Buffer, size, index_of, readable_bytes}
use lp_net.Buffer.Inv.{readable_bytes-eq-size}
use lp_net.Buffer.Socket.{load_all, write_fd}
use lp_net.Buffer.Socket.Transfer.{counted}

-- What the call does with the answer of the socket.
abbrev answered : Buffer → Option ℕ → Option (Option ℕ × Buffer)
answered b = elim [
  | none ↦ some (none, b)
  | some sent ↦ some (
    some sent,
    record b { get_pos = if ltb 0 sent then index_of b b.get_pos sent else b.get_pos },
  )
]

answered_none : (b : Buffer) (o : Option ℕ) → counted o ≡ 0 → answered b o ≡ some (o, b)
answered_none b none h = refl
answered_none b (some zero) h = refl
answered_none b (some (suc k)) h = absurd (omega (arith, h))

-- The call offers no bytes and changes nothing, if the socket takes nothing then.
pub write_fd_empty :
    (send : List ℕ → Option ℕ) (b : Buffer) (n : ℕ)
    → size b ≡ 0
    → counted (send []) ≡ 0
    → write_fd send b n ≡ some (send [], b)
unfolding write_fd load_all
write_fd_empty send b n none_left took =
    ap (λ len. load_all b.cells b.get_pos len >>= λ bytes. answered b (send bytes))
      {x = if ltb n (readable_bytes b) then n else readable_bytes b} {y = 0}
      (ground (arith, readable_bytes-eq-size b, none_left))
    ∙ answered_none b (send []) took
