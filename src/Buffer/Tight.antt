-- ===== src/Buffer/Tight.antt =====
-- Writing to a buffer that `reset` just made: its array is one byte short, but a write that starts at
-- the first byte and stays within the capacity does not reach the missing one.
use lp_net.Prelude.{
  ℕ, zero, suc, ◌+◌, ◌-◌, ◌%◌, ◌^◌, ◌<◌, ◌≤◌, ◌≡◌, refl, sym, ap, ap₂, ◌∙◌, arith, List, ◌++◌, some,
  ◌>>=◌, length, take, drop, min, set, get_or, drop-get_or, store-set, length-set, length-take,
  get_elem?-eq-get_or, sub_size,
}
use lp_net.Buffer.{Buffer, size, write, drain, copy_in}
use lp_net.Buffer.Window.{window, window-piece}
use lp_net.Buffer.Refine.{contents, if-min}
use lp_net.Buffer.Reset.{IsTight, index_of_small, size_from_zero}
use lp_net.Buffer.Socket.{store_all, store_all_lem}

-- The loop of `write`, where it does not go round.
copy_in_straight :
    (b : Buffer) (s : List ℕ) (i rounds : ℕ)
    → b.capacity < 2 ^ 62
    → length b.cells ≡ b.capacity
    → i + rounds ≤ length s
    → b.put_pos + i + rounds ≤ b.capacity
    → copy_in b s i rounds ≡ (
        store_all b.cells (b.put_pos + i) (take rounds (drop i s)) >>= λ cells.
        some (record b { cells = cells }))
unfolding copy_in store_all
copy_in_straight b s i zero small tight hs room = refl
copy_in_straight b s i (suc rounds) small tight hs room =
    rw
      (
        get_elem?-eq-get_or s i 0 (omega arith),
        index_of_small b b.put_pos i small (omega arith),
        drop-get_or i s 0 (omega arith),
        store-set b.cells (b.put_pos + i) (get_or s i 0) (omega arith),
      )
      (copy_in_straight (record b { cells = set b.cells (b.put_pos + i) (get_or s i 0) }) s (suc i)
          rounds small (length-set b.cells (b.put_pos + i) (get_or s i 0) ∙ tight) (omega arith)
          (omega arith)
        ∙ ap
            (λ p.
              store_all (set b.cells (b.put_pos + i) (get_or s i 0)) p
                (take rounds (drop (suc i) s))
              >>= λ cells. some (record b { cells = cells }))
            {x = b.put_pos + suc i} (omega arith))

-- The contents of a buffer that is read from its first byte, as a window of any ring size.
start_at_zero :
    (b : Buffer)
    → b.capacity < 2 ^ 62
    → b.get_pos ≡ 0
    → b.put_pos ≤ b.capacity
    → b.capacity ≤ length b.cells
    → contents b ≡ window b.cells b.capacity 0 b.put_pos
start_at_zero b small start h stored =
    ap₂ (window b.cells (suc b.capacity)) start
      (size_from_zero b small (omega (arith, start)) h ∙ omega (arith, start))
    ∙ window-piece b.cells (suc b.capacity) 0 b.put_pos (omega arith) (omega arith) (omega arith)
    ∙ sym (window-piece b.cells b.capacity 0 b.put_pos (omega arith) (omega arith) (omega arith))

-- What a write leaves behind.
pub record Lengthened (b : Buffer) (taken : List ℕ) (b' : Buffer) : Type 0 where
  pub longer : contents b' ≡ contents b ++ taken
  pub capacity : b'.capacity ≡ b.capacity

pub tight_write :
    {b : Buffer} (s : List ℕ) (n : ℕ)
    → IsTight b
    → n ≤ length s
    → (b' : Buffer) × (write b (some s) n ≡ some (min n (b.capacity - size b), b'))
      × Lengthened b (take (min n (b.capacity - size b)) s) b'
unfolding write drain
tight_write {b} s n t enough =
    let (cells, ran, len, seen) =
      store_all_lem (take k s) b.cells b.capacity 0 b.put_pos b.put_pos (omega (arith, t.tight))
        (omega (arith, length-take k s, filled, t.put_in))
        (omega (arith, length-take k s, filled, t.put_in))
        (ap (λ p. p % b.capacity) {y = 0 + b.put_pos} (omega arith)) in
    (
      record b { cells = cells; put_pos = b.put_pos + k },
      rw
          (
            room,
            if-min n (b.capacity - size b),
            copy_in_straight b s 0 k t.small t.tight (omega arith)
                (omega (arith, filled, t.put_in)),
            ap (λ p. store_all b.cells p (take k s)) {x = b.put_pos + 0} {y = b.put_pos}
                (omega arith),
            ran,
            index_of_small (record b { cells = cells }) b.put_pos k t.small
                (omega (arith, filled, t.put_in)),
          )
          refl,
      record { longer = later cells len seen; capacity = refl },
    )
  where
    k : ℕ
    k = min n (b.capacity - size b)

    filled : size b ≡ b.put_pos
    filled = size_from_zero b t.small (omega (arith, t.start)) t.put_in ∙ omega (arith, t.start)

    room : sub_size b.capacity (size b) ≡ b.capacity - size b
    room = omega (arith, filled, t.put_in, t.small)

    later :
        (cells : List ℕ)
        → length cells ≡ length b.cells
        → window cells b.capacity 0 (b.put_pos + length (take k s))
          ≡ window b.cells b.capacity 0 b.put_pos ++ take k s
        → contents (record b { cells = cells; put_pos = b.put_pos + k }) ≡ contents b ++ take k s
    later cells len seen =
        start_at_zero (record b { cells = cells; put_pos = b.put_pos + k }) t.small t.start
          (omega (arith, filled, t.put_in)) (omega (arith, len, t.tight))
        ∙ ap (window cells b.capacity 0) {y = b.put_pos + length (take k s)}
            (omega (arith, length-take k s))
        ∙ seen
        ∙ ap (λ xs. xs ++ take k s)
            (sym (start_at_zero b t.small t.start t.put_in (omega (arith, t.tight))))
