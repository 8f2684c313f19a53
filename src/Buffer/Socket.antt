-- ===== src/Buffer/Socket.antt =====
-- `Buffer::read(fd)` and `Buffer::write(fd, …)`, with the socket as a parameter. Both hand one
-- contiguous range of `data_` to the socket, whatever the ring's wrap-around.
pub mod Transfer
pub mod Empty
use native.Mathlib.Nat.{mod-eq_of_lt, suc-mod}
use lp_net.Prelude.{
  ℕ, zero, suc, ◌+◌, ◌-◌, ◌%◌, ◌<◌, ◌≤◌, ◌≡◌, ◌≢◌, refl, sym, ap, ap₂, ◌∙◌, arith, List, [], ◌∷◌,
  ◌++◌, Option, none, some, Bool, true, false, leb, ltb, if◌then◌else◌, ◌>>=◌, length, load, store,
  min, take, drop, set, length-set, store-set, store_out, get_elem?-eq-get_or, get_elem?_out,
  dec_lt, append-nil, append_assoc,
}
use lp_net.Buffer.{Buffer, size, index_of, readable_bytes, writable_bytes, max_bytes_per_read}
use lp_net.Buffer.Inv.{IsValid}
use lp_net.Buffer.Window.{window, window-push}
use lp_net.Buffer.Refine.{contents}

-- Stores to consecutive places from `p` on: what `recv` does to its buffer.
unfoldable pub store_all : List ℕ → ℕ → List ℕ → Option (List ℕ)
store_all cells p [] = some cells
store_all cells p (x ∷ xs) = do cells' ← store cells p x; store_all cells' (suc p) xs

-- Loads from consecutive places: what `send` does to its buffer.
pub load_all : List ℕ → ℕ → ℕ → Option (List ℕ)
load_all cells p zero = some []
load_all cells p (suc n) = do x ← load cells p; xs ← load_all cells (suc p) n; some (x ∷ xs)

-- What `recv` answered: `none` is a negative result, and some bytes are stored and counted.
pub receive : Buffer → Option (List ℕ) → Option (Option ℕ × Buffer)
receive b none = some (none, b)
receive b (some bytes) = do
  cells ← store_all b.cells b.put_pos bytes
  some (
    some (length bytes),
    record b {
      cells = cells;
      put_pos = if ltb 0 (length bytes) then index_of b b.put_pos (length bytes) else b.put_pos;
    },
  )

-- `recv len` is what `socket_api::recv` answers for a buffer of `len` bytes.
pub read_fd : (ℕ → Option (List ℕ)) → Buffer → Option (Option ℕ × Buffer)
read_fd recv b =
    let len =
      if leb max_bytes_per_read (writable_bytes b) then max_bytes_per_read else writable_bytes b in
    receive b (recv len)

-- `send bytes` is what `socket_api::send` answers: how many bytes it took, or `none`.
pub write_fd : (List ℕ → Option ℕ) → Buffer → ℕ → Option (Option ℕ × Buffer)
write_fd send b n =
    let len = if ltb n (readable_bytes b) then n else readable_bytes b in
    do
      bytes ← load_all b.cells b.get_pos len
      elim (send bytes) [
        | none ↦ some (none, b)
        | some sent ↦ some (
          some sent,
          record b { get_pos = if ltb 0 sent then index_of b b.get_pos sent else b.get_pos },
        )
      ]

pub load_all_lem :
    (cells : List ℕ) (m p n : ℕ)
    → m ≤ length cells
    → p + n ≤ m
    → load_all cells p n ≡ some (window cells m p n)
unfolding load_all
load_all_lem cells m p zero hm h = refl
load_all_lem cells m p (suc n) hm h =
    rw
      (
        mod-eq_of_lt {n = p} {m = m} (omega arith),
        get_elem?-eq-get_or cells p 0 (omega arith),
        load_all_lem cells m (suc p) n hm (omega arith),
      )
      refl

pub load_all_out :
    (cells : List ℕ) (p n : ℕ) → p ≤ length cells → length cells < p + n → load_all cells p n ≡ none
unfolding load_all
load_all_out cells p zero hp h = absurd (omega arith)
load_all_out cells p (suc n) hp h = elim (dec_lt p (length cells)) [
  | yes inside ↦
      rw (get_elem?-eq-get_or cells p 0 inside, load_all_out cells (suc p) n inside (omega arith))
        refl
  | no outside ↦ rw (get_elem?_out cells p (omega arith)) refl
]

pub store_all_lem :
    (bytes cells : List ℕ) (m g n p : ℕ)
    → m ≤ length cells
    → p + length bytes ≤ m
    → n + length bytes ≤ m
    → p % m ≡ (g + n) % m
    → (cells' : List ℕ) × (store_all cells p bytes ≡ some cells')
      × (length cells' ≡ length cells)
      × (window cells' m g (n + length bytes) ≡ window cells m g n ++ bytes)
unfolding store_all
store_all_lem [] cells m g n p hm hp hn e =
    (cells, refl, refl, ap (window cells m g) {x = n + 0} (omega arith) ∙ sym (append-nil _))
store_all_lem (x ∷ bytes) cells m g n p hm hp hn e =
    let (cells', ran, len, seen) =
      store_all_lem bytes (set cells p x) m g (suc n) (suc p) (omega (arith, length-set cells p x))
        (omega arith) (omega arith)
        (suc-mod p m
          ∙ ap (λ t. suc t % m) e
          ∙ sym (suc-mod (g + n) m)
          ∙ ap (λ t. t % m) {x = suc (g + n)} (omega arith)) in
    (
      cells',
      rw (store-set cells p x (omega arith)) ran,
      len ∙ length-set cells p x,
      ap (window cells' m g) {x = n + suc (length bytes)} (omega arith)
          ∙ seen
          ∙ ap (λ q. window (set cells q x) m g (suc n) ++ bytes)
              (sym (mod-eq_of_lt {n = p} {m = m} (omega arith)) ∙ e)
          ∙ ap (λ xs. xs ++ bytes) (window-push cells m g n x (omega arith) hm)
          ∙ append_assoc (window cells m g n) (x ∷ []) bytes,
    )

pub store_all_out :
    (bytes cells : List ℕ) (p : ℕ)
    → p ≤ length cells
    → length cells < p + length bytes
    → store_all cells p bytes ≡ none
unfolding store_all
store_all_out [] cells p hp h = absurd (omega arith)
store_all_out (x ∷ bytes) cells p hp h = elim (dec_lt p (length cells)) [
  | yes inside ↦
      rw
        (
          store-set cells p x inside,
          store_all_out bytes (set cells p x) (suc p) (omega (arith, length-set cells p x))
              (omega (arith, length-set cells p x)),
        )
        refl
  | no outside ↦ rw (store_out cells p x (omega arith)) refl
]
