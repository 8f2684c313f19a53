-- ===== src/Buffer/Refine.antt =====
-- A valid `Buffer` behaves as the FIFO of the bytes that it holds.
use native.Mathlib.Nat.{mod-lt, mod-add-mod, mod-mod, add-zero}
use lp_net.Prelude.{
  ℕ, suc, ◌+◌, ◌-◌, ◌%◌, ◌≤◌, ◌≡◌, refl, sym, ap, ◌∙◌, arith, List, ◌++◌, none, some, length, take,
  drop, min, ltb, leb, sub_size, if◌then◌else◌,
}
use lp_net.Buffer.{Buffer, size, index_of, readable_bytes, read, write, fill, drain}
use lp_net.Buffer.Inv.{IsValid, size-le-capacity, put_pos-size, index_of_lem, size_of_positions}
use lp_net.Buffer.Window.{window, window-congr, take-window, drop-window, length-window}
use lp_net.Buffer.Copy.{copy_out_prefix, copy_in_lem}

abbrev pub contents : Buffer → List ℕ
contents b = window b.cells (suc b.capacity) b.get_pos (size b)

pub length-contents : (b : Buffer) → length (contents b) ≡ size b
length-contents b = length-window b.cells (suc b.capacity) b.get_pos (size b)

-- The read position moved by `k` of the bytes that are there.
abbrev pub advance : Buffer → ℕ → Buffer
advance b k = record b { get_pos = (b.get_pos + k) % suc b.capacity }

pub advance-IsValid : {b : Buffer} (k : ℕ) → IsValid b → IsValid (advance b k)
advance-IsValid {b} k v = record {
  allocated = v.allocated;
  put_in = v.put_in;
  get_in = omega (arith, mod-lt (b.get_pos + k) {m = suc b.capacity} (omega arith));
  small = v.small;
}

pub size-advance : {b : Buffer} (k : ℕ) → IsValid b → k ≤ size b → size (advance b k) ≡ size b - k
size-advance {b} k v h =
    size_of_positions (size b - k) (advance-IsValid k v) (omega (arith, size-le-capacity v)) (
      sym (put_pos-size v)
      ∙ ap (λ t. t % suc b.capacity) {x = b.get_pos + size b} {y = b.get_pos + k + (size b - k)}
          (omega arith)
      ∙ sym (mod-add-mod (b.get_pos + k) (suc b.capacity) (size b - k)))

-- What is left is the contents without their first `k` bytes.
pub contents-advance :
    {b : Buffer} (k : ℕ) → IsValid b → k ≤ size b → contents (advance b k) ≡ drop k (contents b)
contents-advance {b} k v h =
    rw (size-advance k v h, drop-window b.cells (suc b.capacity) b.get_pos k (size b) h)
      (window-congr b.cells (suc b.capacity) ((b.get_pos + k) % suc b.capacity) (b.get_pos + k)
        (size b - k) (mod-mod (b.get_pos + k) (suc b.capacity)))

pub if-min : (n m : ℕ) → (if ltb n m then n else m) ≡ min n m
if-min n m = ground arith

pub if-leb : (n m : ℕ) → (if leb n m then n else m) ≡ min n m
if-leb n m = ground arith

-- `index_of b b.get_pos k` is the position of `advance`.
read_state :
    {b : Buffer} (k : ℕ)
    → IsValid b
    → k ≤ size b
    → record b { get_pos = index_of b b.get_pos k } ≡ advance b k
read_state {b} k v h =
    ap (λ p. record b { get_pos = p })
      (index_of_lem b.get_pos k v (omega arith) (omega (arith, size-le-capacity v)))

-- What a read of `k` bytes leaves behind.
pub record Consumed (b : Buffer) (k : ℕ) (b' : Buffer) : Type 0 where
  pub valid : IsValid b'
  pub rest : contents b' ≡ drop k (contents b)
  pub kept : (b'.capacity ≡ b.capacity) × (b'.cells ≡ b.cells) × (b'.put_pos ≡ b.put_pos)

pub advance-Consumed : {b : Buffer} (k : ℕ) → IsValid b → k ≤ size b → Consumed b k (advance b k)
advance-Consumed {b} k v h = record {
  valid = advance-IsValid k v;
  rest = contents-advance k v h;
  kept = (refl, refl, refl);
}

module _ {b : Buffer} (v : IsValid b) where
  fill_lem :
      (s : List ℕ) (k : ℕ)
      → k ≤ size b
      → k ≤ length s
      → fill b (some s) k ≡ some (some (take k (contents b) ++ drop k s))
  unfolding fill
  fill_lem s k h hs =
      rw
        (
          copy_out_prefix s k v hs (omega (arith, size-le-capacity v)),
          take-window b.cells (suc b.capacity) b.get_pos k (size b) h,
        )
        refl

  -- In a valid buffer, `read` into an array that is long enough hands out the oldest bytes, as many as were asked for and are there,
  -- leaves the rest of the array as it was, and keeps the other bytes in order.
  pub read_lem :
      (s : List ℕ) (n : ℕ)
      → min n (size b) ≤ length s
      → (b' : Buffer) × (read b (some s) n
          ≡ some (
            some (take (min n (size b)) (contents b) ++ drop (min n (size b)) s),
            min n (size b),
            b',
          ))
        × Consumed b (min n (size b)) b'
  unfolding read readable_bytes
  read_lem s n hs = (
    advance b k,
    rw (if-min n (size b), fill_lem s k (omega arith) hs, read_state k v (omega arith)) refl,
    advance-Consumed k v (omega arith),
  )
    where
      k : ℕ
      k = min n (size b)

  -- `read` with a null pointer drops the same bytes.
  pub read_null_lem :
      (n : ℕ)
      → (b' : Buffer) × (read b none n ≡ some (none, min n (size b), b'))
        × Consumed b (min n (size b)) b'
  unfolding read readable_bytes fill
  read_null_lem n = (
    advance b k,
    rw (if-min n (size b), read_state k v (omega arith)) refl,
    advance-Consumed k v (omega arith),
  )
    where
      k : ℕ
      k = min n (size b)

-- The write position moved over `k` bytes that were stored.
abbrev pub extend : Buffer → List ℕ → ℕ → Buffer
extend b cells k = record b { cells = cells; put_pos = (b.put_pos + k) % suc b.capacity }

-- What a write leaves behind: the same bytes, and behind them those that were taken.
pub record Extended (b : Buffer) (taken : List ℕ) (b' : Buffer) : Type 0 where
  pub valid : IsValid b'
  pub longer : contents b' ≡ contents b ++ taken
  pub kept : (b'.capacity ≡ b.capacity) × (b'.get_pos ≡ b.get_pos)

module _ {b : Buffer} (v : IsValid b) where
  pub stored-IsValid :
      (cells : List ℕ) → length cells ≡ length b.cells → IsValid (record b { cells = cells })
  stored-IsValid cells e = record {
    allocated = e ∙ v.allocated;
    put_in = v.put_in;
    get_in = v.get_in;
    small = v.small;
  }

  extend-IsValid :
      (cells : List ℕ) (k : ℕ) → length cells ≡ length b.cells → IsValid (extend b cells k)
  extend-IsValid cells k e = record {
    allocated = e ∙ v.allocated;
    put_in = omega (arith, mod-lt (b.put_pos + k) {m = suc b.capacity} (omega arith));
    get_in = v.get_in;
    small = v.small;
  }

  size-extend :
      (cells : List ℕ) (k : ℕ)
      → length cells ≡ length b.cells
      → size b + k ≤ b.capacity
      → size (extend b cells k) ≡ size b + k
  size-extend cells k e h = size_of_positions (size b + k) (extend-IsValid cells k e) h (
      ap (λ t. (t + k) % suc b.capacity) (sym (put_pos-size v))
      ∙ mod-add-mod (b.get_pos + size b) (suc b.capacity) k
      ∙ ap (λ t. t % suc b.capacity) {x = b.get_pos + size b + k} {y = b.get_pos + (size b + k)}
          (omega arith))

  pub extend-Extended :
      (cells : List ℕ) (k : ℕ) (taken : List ℕ)
      → length cells ≡ length b.cells
      → size b + k ≤ b.capacity
      → window cells (suc b.capacity) b.get_pos (size b + k) ≡ contents b ++ taken
      → Extended b taken (extend b cells k)
  extend-Extended cells k taken e h seen = record {
    valid = extend-IsValid cells k e;
    longer = ap (window cells (suc b.capacity) b.get_pos) (size-extend cells k e h) ∙ seen;
    kept = (refl, refl);
  }

  -- In a valid buffer, `write` from an array of at least that many bytes takes the bytes that fit, in order, and puts them behind those that are there.
  pub write_lem :
      (s : List ℕ) (n : ℕ)
      → n ≤ length s
      → (b' : Buffer) × (write b (some s) n ≡ some (min n (b.capacity - size b), b'))
        × Extended b (take (min n (b.capacity - size b)) s) b'
  unfolding write drain
  write_lem s n hs =
      let (cells, ran, len, seen) =
        copy_in_lem s b.get_pos (size b) k 0 v (omega arith) (omega (arith, size-le-capacity v))
          (sym (put_pos-size v)) in
      (
        extend b cells k,
        rw
            (
              room,
              if-min n (b.capacity - size b),
              ran,
              index_of_lem b.put_pos k (stored-IsValid cells len) (omega arith) (omega arith),
            )
            refl,
        extend-Extended cells k (take k s) len (omega (arith, size-le-capacity v)) (
            ap (window cells (suc b.capacity) b.get_pos) fits
            ∙ seen
            ∙ ap (λ t. window b.cells (suc b.capacity) b.get_pos t ++ take k s)
                (add-zero (size b))),
      )
    where
      k : ℕ
      k = min n (b.capacity - size b)

      fits : size b + k ≡ size b + 0 + k
      fits = omega arith

      room : sub_size b.capacity (size b) ≡ b.capacity - size b
      room = omega (arith, size-le-capacity v)
