-- ===== src/SocketApi.antt =====
-- net/socket_util.h, the functions of `socket_api` that open, bind and accept, and those that send and receive, over the
-- calls of the operating system, which are logged. Its answers are a parameter, and `none` is -1.
mod Tests
use lp_net.Prelude.{
  ℕ, ◌≤◌, ◌≡◌, refl, ap, ◌∙◌, List, [], ◌∷◌, ◌++◌, Option, none, some, Bool, true, false,
  if◌then◌else◌, ◌>>=◌, length,
}

-- A call of the operating system; an address is a number.
pub data SysCall : Type 0 where
  socket_call : ℕ → ℕ → ℕ → SysCall
  bind_call : Option ℕ → ℕ → ℕ → SysCall
  listen_call : Option ℕ → ℕ → SysCall
  accept_call : Option ℕ → SysCall
  connect_call : Option ℕ → ℕ → ℕ → SysCall
  send_call : Option ℕ → List ℕ → SysCall

abbrev pub Log : Type 0
Log = List SysCall

-- `sys log call` is the answer after the calls of the log. `pton` is the number that `inet_pton` stores: 0, which was
-- in the struct before, for a text that is no address.
module _ (sys : Log → SysCall → Option ℕ) (pton : List ℕ → Option ℕ) where
  unfoldable pub ask : Log → SysCall → Option ℕ × Log
  ask log call = (sys log call, log ++ call ∷ [])

  unfoldable pub address_of : Option ℕ → ℕ
  address_of none = 0
  address_of (some a) = a

  unfoldable pub socket : Log → ℕ → ℕ → ℕ → Option ℕ × Log
  socket log domain kind protocol = ask log (socket_call domain kind protocol)

  -- A result of 0 of `inet_pton`, for a text that is no address, is no error here.
  unfoldable pub bind : Log → Option ℕ → List ℕ → ℕ → Option ℕ × Log
  bind log fd ip port = ask log (bind_call fd (address_of (pton ip)) port)

  unfoldable pub listen : Log → Option ℕ → ℕ → Option ℕ × Log
  listen log fd backlog = ask log (listen_call fd backlog)

  unfoldable pub after_listen : Option ℕ → Option ℕ × Log → Option ℕ × Log
  after_listen fd (none, log) = (none, log)
  after_listen fd (some r, log) = (fd, log)

  unfoldable pub after_bind : Option ℕ → ℕ → Option ℕ × Log → Option ℕ × Log
  after_bind fd backlog (none, log) = (none, log)
  after_bind fd backlog (some r, log) = after_listen fd (listen log fd backlog)

  unfoldable pub after_socket : List ℕ → ℕ → ℕ → Option ℕ × Log → Option ℕ × Log
  after_socket ip port backlog (fd, log) = after_bind fd backlog (bind log fd ip port)

  unfoldable pub socket_bind_listen : Log → ℕ → ℕ → ℕ → List ℕ → ℕ → ℕ → Option ℕ × Log
  socket_bind_listen log domain kind protocol ip port backlog =
      after_socket ip port backlog (socket log domain kind protocol)

  -- `ntop size` is what `inet_ntop` writes of the peer's address into `size` bytes. `sizeof(ip)` is the size of a pointer.
  unfoldable pub after_accept :
      (ℕ → Option (List ℕ)) → Option ℕ × Log → Option ℕ × Option (List ℕ) × Log
  after_accept ntop (none, log) = (none, none, log)
  after_accept ntop (some client, log) = elim (ntop 8) [
    | none ↦ (none, none, log)
    | some text ↦ (some client, some text, log)
  ]

  unfoldable pub accept : (ℕ → Option (List ℕ)) → Log → Option ℕ → Option ℕ × Option (List ℕ) × Log
  accept ntop log fd = after_accept ntop (ask log (accept_call fd))

  unfoldable pub connect : Log → Option ℕ → List ℕ → ℕ → Option ℕ × Log
  connect log fd ip port = ask log (connect_call fd (address_of (pton ip)) port)

  unfoldable pub send : Log → Option ℕ → List ℕ → Option ℕ × Log
  send log fd bytes = ask log (send_call fd bytes)

  unfoldable pub send_again : Option ℕ → List ℕ → Option ℕ × Log → Option ℕ × Log
  send_again fd bytes (none, log) = ask log (send_call fd bytes)
  send_again fd bytes (some size, log) = (some size, log)

  -- send2: one more try.
  unfoldable pub send_twice : Log → Option ℕ → List ℕ → Option ℕ × Log
  send_twice log fd bytes = send_again fd bytes (send log fd bytes)

  -- A client whose address has more than seven characters (as all but the shortest have) is accepted by the operating system and
  -- refused here, and nothing closes its descriptor. `inet_ntop` fails where the text and its end do not fit.
  pub accept_leaks :
      (ntop : ℕ → Option (List ℕ)) (text : List ℕ) (log : Log) (fd : Option ℕ) (client : ℕ)
      → ((size : ℕ) → size ≤ length text → ntop size ≡ none)
      → 8 ≤ length text
      → sys log (accept_call fd) ≡ some client
      → accept ntop log fd ≡ (none, none, log ++ accept_call fd ∷ [])
  unfolding accept ask after_accept
  accept_leaks ntop text log fd client fails long accepted =
      ap (λ o. after_accept ntop (o, log ++ accept_call fd ∷ [])) accepted
      ∙ ap
          (elim [
            | none ↦ (none, none, log ++ accept_call fd ∷ [])
            | some t ↦ (some client, some t, log ++ accept_call fd ∷ [])
          ])
          (fails 8 long)

  -- A `socket_bind_listen` whose `bind` fails returns no descriptor and does not close the one that it opened.
  pub socket_bind_listen_leaks :
      (log : Log) (domain kind protocol port backlog fd : ℕ) (ip : List ℕ)
      → sys log (socket_call domain kind protocol) ≡ some fd
      → sys
          (log ++ socket_call domain kind protocol ∷ [])
          (bind_call (some fd) (address_of (pton ip)) port)
        ≡ none
      → socket_bind_listen log domain kind protocol ip port backlog ≡ (
        none,
        (log ++ socket_call domain kind protocol ∷ [])
            ++ bind_call (some fd) (address_of (pton ip)) port ∷ [],
      )
  unfolding socket_bind_listen after_socket after_bind socket bind ask
  socket_bind_listen_leaks log domain kind protocol port backlog fd ip opened refused =
      ap (λ o. after_socket ip port backlog (o, log ++ socket_call domain kind protocol ∷ []))
        opened
      ∙ ap
          (λ o. after_bind (some fd) backlog (
            o,
            (log ++ socket_call domain kind protocol ∷ [])
                ++ bind_call (some fd) (address_of (pton ip)) port ∷ [],
          ))
          refused
