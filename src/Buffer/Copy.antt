-- ===== src/Buffer/Copy.antt =====
-- The two copy loops of `Buffer::read` and `Buffer::write`.
use lp_net.Prelude.{
  ℕ, zero, suc, ◌+◌, ◌%◌, ◌<◌, ◌≤◌, ◌≡◌, refl, sym, ap, ◌∙◌, arith, List, [], ◌∷◌, ◌++◌, some,
  ◌>>=◌, append-nil, append_assoc, length, take, drop, get_or, set, load, store, length-set,
  length-append, length-take, take-append-drop, get_elem?-eq-get_or, store-set, drop-get_or,
}
use native.Mathlib.Nat.{mod-lt, mod-add-mod, add-zero}
use lp_net.Buffer.{Buffer, index_of, copy_out, copy_in}
use lp_net.Buffer.Inv.{IsValid, index_of_lem}
use lp_net.Buffer.Window.{window, window-push}

store_at :
    (pre : List ℕ) (x : ℕ) (post : List ℕ) (i v : ℕ)
    → length pre ≡ i
    → store (pre ++ (x ∷ post)) i v ≡ some (pre ++ (v ∷ post))
store_at [] x post zero v e = refl
store_at [] x post (suc i) v e = absurd (omega arith)
store_at (y ∷ pre) x post zero v e = absurd (omega arith)
store_at (y ∷ pre) x post (suc i) v e =
    ap (λ o. o >>= λ ys. some (y ∷ ys)) (store_at pre x post i v (omega arith))

pub load_cell :
    {b : Buffer} (p : ℕ)
    → IsValid b
    → load b.cells (p % suc b.capacity) ≡ some (get_or b.cells (p % suc b.capacity) 0)
load_cell {b} p v =
    get_elem?-eq-get_or b.cells _ 0
      (omega (arith, v.allocated, mod-lt p {m = suc b.capacity} (omega arith)))

-- A load from a cell of the ring.
load_ring :
    {b : Buffer} (i : ℕ)
    → IsValid b
    → i ≤ b.capacity
    → load b.cells (index_of b b.get_pos i)
      ≡ some (get_or b.cells ((b.get_pos + i) % suc b.capacity) 0)
load_ring {b} i v h =
    ap (load b.cells) (index_of_lem b.get_pos i v (omega arith) h) ∙ load_cell (b.get_pos + i) v

-- The loop of `read` copies the bytes from the read position on to the places from `i` on, and
-- changes no other place of the caller's array.
pub copy_out_lem :
    {b : Buffer} (old pre post : List ℕ) (i : ℕ)
    → IsValid b
    → length pre ≡ i
    → i + length old ≤ suc b.capacity
    → copy_out b (pre ++ (old ++ post)) i (length old)
      ≡ some (pre ++ (window b.cells (suc b.capacity) (b.get_pos + i) (length old) ++ post))
unfolding copy_out
copy_out_lem [] pre post i v e h = refl
copy_out_lem {b} (x ∷ old) pre post i v e h =
    rw
      (
        load_ring i v (omega arith),
        store_at pre x (old ++ post) i byte e,
        ← append_assoc pre (byte ∷ []) (old ++ post),
        copy_out_lem old (pre ++ byte ∷ []) post (suc i) v
            (omega (arith, length-append pre (byte ∷ []))) (omega arith),
        append_assoc pre (byte ∷ []),
      )
      (ap (λ t. some (pre ++ (byte ∷ window b.cells (suc b.capacity) t (length old) ++ post)))
        (omega arith))
  where
    byte : ℕ
    byte = get_or b.cells ((b.get_pos + i) % suc b.capacity) 0

-- From the start of the array.
pub copy_out_prefix :
    {b : Buffer} (s : List ℕ) (k : ℕ)
    → IsValid b
    → k ≤ length s
    → k ≤ suc b.capacity
    → copy_out b s 0 k ≡ some (window b.cells (suc b.capacity) b.get_pos k ++ drop k s)
copy_out_prefix {b} s k v hs hk =
    let len : length (take k s) ≡ k = omega (arith, length-take k s) in
    rw (take-append-drop k s, len, add-zero) at
      (copy_out_lem {b = b} (take k s) [] (drop k s) 0 v refl (omega (arith, len)))

set-IsValid :
    {b : Buffer} (j byte : ℕ) → IsValid b → IsValid (record b { cells = set b.cells j byte })
set-IsValid {b} j byte v = record {
  allocated = length-set b.cells j byte ∙ v.allocated;
  put_in = v.put_in;
  get_in = v.get_in;
  small = v.small;
}

-- The loop of `write` makes the bytes from position `g` on, `n` of them before it started, longer
-- by the bytes that it copies.
pub copy_in_lem :
    {b : Buffer} (s : List ℕ) (g n : ℕ) (rounds i : ℕ)
    → IsValid b
    → i + rounds ≤ length s
    → n + i + rounds ≤ b.capacity
    → b.put_pos ≡ (g + n) % suc b.capacity
    → (cells : List ℕ) × (copy_in b s i rounds ≡ some (record b { cells = cells }))
      × (length cells ≡ length b.cells)
      × (window cells (suc b.capacity) g (n + i + rounds)
          ≡ window b.cells (suc b.capacity) g (n + i) ++ take rounds (drop i s))
unfolding copy_in
copy_in_lem {b} s g n zero i v hs hn e = (
  b.cells,
  refl,
  refl,
  ap (window b.cells (suc b.capacity) g) {x = n + i + 0} (omega arith) ∙ sym (append-nil _),
)
copy_in_lem {b} s g n (suc rounds) i v hs hn e =
    let (cells, ran, len, seen) =
      copy_in_lem {b = b'} s g n rounds (suc i) (set-IsValid j byte v) (omega arith) (omega arith)
        e in
    (
      cells,
      rw (get_elem?-eq-get_or s i 0 (omega arith), at, store-set b.cells j byte bound) ran,
      len ∙ length-set b.cells j byte,
      ap (window cells (suc b.capacity) g) {x = n + i + suc rounds} (omega arith)
          ∙ seen
          ∙ rw
              (
                drop-get_or i s 0 (omega arith),
                ← append_assoc (window b.cells (suc b.capacity) g (n + i)) (byte ∷ [])
                    (take rounds (drop (suc i) s)),
                ← window-push b.cells (suc b.capacity) g (n + i) byte (omega arith)
                    (omega (arith, v.allocated)),
              )
              (ap (λ t. window b'.cells (suc b.capacity) g t ++ take rounds (drop (suc i) s))
                {x = n + suc i} {y = suc (n + i)} (omega arith)),
    )
  where
    byte : ℕ
    byte = get_or s i 0

    j : ℕ
    j = (g + (n + i)) % suc b.capacity

    b' : Buffer
    b' = record b { cells = set b.cells j byte }

    bound : j < length b.cells
    bound = omega (arith, v.allocated, mod-lt (g + (n + i)) {m = suc b.capacity} (omega arith))

    at : index_of b b.put_pos i ≡ j
    at =
        index_of_lem b.put_pos i v (omega arith) (omega arith)
        ∙ ap (λ t. (t + i) % suc b.capacity) e
        ∙ mod-add-mod (g + n) (suc b.capacity) i
        ∙ ap (λ t. t % suc b.capacity) {x = g + n + i} (omega arith)
