-- ===== src/SocketApi/Tests.antt =====
-- Calls of `socket_api` with an operating system that refuses or accepts.
use lp_net.Prelude.{ℕ, ◌≡◌, refl, [], ◌∷◌, Option, none, some}
use lp_net.SocketApi.{SysCall, Log, send_call, ask, send, send_again, send_twice}

abbrev refuses : Log → SysCall → Option ℕ
refuses log call = none

-- A send that is refused is tried once more, and then given up.
two_tries :
    send_twice refuses (λ ip. none) [] (some 4) (7 ∷ [])
    ≡ (none, send_call (some 4) (7 ∷ []) ∷ send_call (some 4) (7 ∷ []) ∷ [])
unfolding send_twice send send_again ask
two_tries = refl
