-- ===== src/TcpConnection/Closing/Removals.antt =====
-- How often a connection asks to be forgotten, step by step.
use lp_net.Prelude.{
  ℕ, suc, ◌+◌, ◌≡◌, refl, ◌∙◌, arith, List, [], ◌∷◌, ◌++◌, Option, none, some, Bool, true, false,
  if◌then◌else◌, ◌>>=◌,
}
use lp_net.RingBuffer.{locking}
use lp_net.Buffer.{Buffer}
use lp_net.BufferWriter.{BufferWriter}
use lp_net.TcpConnection.{
  Request, update_channel, remove_channel, close_later, on_closed, on_disconnected, TcpConnection,
  ask, lock, unlock, close, on_close, disconnect, watch_writing, written,
}

-- How often the scheduler was asked to forget the connection.
unfoldable pub removals : List Request → ℕ
removals [] = 0
removals (remove_channel fd ∷ rs) = suc (removals rs)
removals (r ∷ rs) = removals rs

pub removals-append :
    (rs : List Request) (r : Request) → removals (rs ++ r ∷ []) ≡ removals rs + removals (r ∷ [])
unfolding removals
removals-append [] r = omega arith
removals-append (remove_channel fd ∷ rs) r = omega (arith, removals-append rs r)
removals-append (update_channel fd ∷ rs) r = removals-append rs r
removals-append (close_later ∷ rs) r = removals-append rs r
removals-append (on_closed ∷ rs) r = removals-append rs r
removals-append (on_disconnected ∷ rs) r = removals-append rs r

-- The removals that were asked for, and the one that is still to come if the connection runs.
unfoldable pub lives : TcpConnection → ℕ
lives c = removals c.requests + (if c.running then 1 else 0)

-- A call that does not return, or returns a connection of which this is true.
abbrev pub Keeps : ℕ → Option TcpConnection → Type 0
Keeps n none = Unit
Keeps n (some c) = lives c ≡ n

pub Keeps-bind :
    (n : ℕ) (o : Option TcpConnection) (f : TcpConnection → Option TcpConnection)
    → Keeps n o
    → ((c : TcpConnection) → lives c ≡ n → Keeps n (f c))
    → Keeps n (o >>= f)
Keeps-bind n none f h k = tt
Keeps-bind n (some c) f h k = k c h

pub lives-close : (c : TcpConnection) → lives (close c) ≡ lives c
unfolding lives close ask removals
lives-close c =
    let gone : List Request = c.requests ++ remove_channel c.fd ∷ [] in
    ground (
      arith,
      removals-append c.requests (remove_channel c.fd),
      removals-append gone on_closed,
      removals-append gone on_disconnected,
      removals-append (gone ++ on_closed ∷ []) on_disconnected,
    )

pub lives-watch_writing : (c : TcpConnection) → lives (watch_writing c) ≡ lives c
unfolding lives watch_writing
lives-watch_writing c = ground arith

pub Keeps-lock : (n : ℕ) (c : TcpConnection) → lives c ≡ n → Keeps n (lock c)
unfolding lives lock locking
Keeps-lock n c h = ground arith

pub Keeps-unlock : (n : ℕ) (c : TcpConnection) → lives c ≡ n → Keeps n (some (unlock c))
unfolding lives
Keeps-unlock n c h = h

pub lives-written : (c : TcpConnection) (o : Option ℕ) → lives (written c o) ≡ lives c
unfolding written
lives-written c none = lives-close c
lives-written c (some size) = lives-watch_writing c

pub on_close-Keeps : (n : ℕ) (c : TcpConnection) → lives c ≡ n → Keeps n (on_close c)
unfolding on_close
on_close-Keeps n c h =
    Keeps-bind n (lock c) _ (Keeps-lock n c h) (λ d k. Keeps-unlock n (close d) (lives-close d ∙ k))

pub disconnect-Keeps : (n : ℕ) (c : TcpConnection) → lives c ≡ n → Keeps n (disconnect c)
unfolding disconnect ask lives removals
disconnect-Keeps n c h =
    Keeps-bind n (lock c) _ (Keeps-lock n c h)
      (λ d k. omega (arith, removals-append d.requests close_later, k))

pub Keeps-if :
    (n : ℕ) (b : Bool) (x y : Option TcpConnection)
    → Keeps n x
    → Keeps n y
    → Keeps n (if b then x else y)
Keeps-if n true x y h k = h
Keeps-if n false x y h k = k

pub Keeps-of {ℓ} :
    {B : Type ℓ} (n : ℕ) (o : Option B) (f : B → Option TcpConnection)
    → ((x : B) → Keeps n (f x))
    → Keeps n (o >>= f)
Keeps-of n none f h = tt
Keeps-of n (some x) f h = h x

pub lives-write_buffer :
    (c : TcpConnection) (w : BufferWriter) (answers : List (Option ℕ))
    → lives (record c { write_buffer = w; answers = answers }) ≡ lives c
unfolding lives
lives-write_buffer c w answers = refl

pub lives-read_buffer :
    (c : TcpConnection) (b : Buffer) → lives (record c { read_buffer = b }) ≡ lives c
unfolding lives
lives-read_buffer c b = refl

pub lives-unlock : (c : TcpConnection) → lives (unlock c) ≡ lives c
unfolding lives
lives-unlock c = refl
