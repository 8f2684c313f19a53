-- ===== src/Buffer/Window.antt =====
-- The bytes that lie between two positions of a ring of `m` cells.
use native.Mathlib.Nat.{
  suc-mod, mod-eq_of_lt, mod-eq-sub-mod, mod-lt, add-zero, suc-add, mod-add-mod,
}
use lp_net.Prelude.{
  ℕ, zero, suc, ◌+◌, ◌-◌, ◌%◌, ◌<◌, ◌≤◌, ◌≡◌, ◌≢◌, refl, sym, ap, ap₂, ◌∙◌, arith, List, [], ◌∷◌,
  ◌++◌, dec_lt, length, take, drop, drop-get_or, get_or, set, get_or-set_self, get_or-set_ne,
}

-- The `n` bytes from position `p` on, going round at `m`.
abbrev pub window : List ℕ → ℕ → ℕ → ℕ → List ℕ
window cells m p zero = []
window cells m p (suc n) = get_or cells (p % m) 0 ∷ window cells m (suc p) n

pub length-window : (cells : List ℕ) (m p n : ℕ) → length (window cells m p n) ≡ n
length-window cells m p zero = refl
length-window cells m p (suc n) = ap suc (length-window cells m (suc p) n)

-- Only the position within the ring matters.
pub window-congr :
    (cells : List ℕ) (m p q n : ℕ) → p % m ≡ q % m → window cells m p n ≡ window cells m q n
window-congr cells m p q zero e = refl
window-congr cells m p q (suc n) e = ap₂ ◌∷◌ (ap (λ i. get_or cells i 0) e) (
    window-congr cells m (suc p) (suc q) n
      (suc-mod p m ∙ ap (λ t. suc t % m) e ∙ sym (suc-mod q m)))

pub window-append :
    (cells : List ℕ) (m p a b : ℕ)
    → window cells m p (a + b) ≡ window cells m p a ++ window cells m (p + a) b
window-append cells m p zero b = ap₂ (window cells m) (omega arith) (omega arith)
window-append cells m p (suc a) b =
    ap (window cells m p) (suc-add a b)
    ∙ ap (◌∷◌ (get_or cells (p % m) 0)) (
        window-append cells m (suc p) a b
        ∙ ap (λ t. window cells m (suc p) a ++ window cells m t b) (omega arith))

-- Fewer than `m` steps do not come back to where they began.
pub add-mod-ne : (m p k : ℕ) → 0 < k → k < m → (p + k) % m ≢ p % m
add-mod-ne m p k pos small e = grind (arith, mod-lt p {m = m}, mod-add-mod p m k, around)
  where
    r : ℕ
    r = p % m

    around : (r + k) % m ≢ r
    around = elim (dec_lt (r + k) m) [
      | yes h ↦ λ e. omega (arith, mod-eq_of_lt h)
      | no h ↦ λ e. omega (
        arith,
        mod-lt p {m = m},
        mod-eq-sub-mod {n = r + k} {m = m} (omega arith),
        mod-eq_of_lt {n = r + k - m} {m = m} (omega (arith, mod-lt p {m = m})),
      )
    ]

-- A write to a cell outside the window is not seen in it.
pub window-set :
    (cells : List ℕ) (m p n i v : ℕ)
    → ((k : ℕ) → k < n → i ≢ (p + k) % m)
    → window (set cells i v) m p n ≡ window cells m p n
window-set cells m p zero i v out = refl
window-set cells m p (suc n) i v out =
    ap₂ ◌∷◌
      (get_or-set_ne cells i (p % m) v 0
        (λ e. out 0 (omega arith) (e ∙ ap (λ t. t % m) (sym (add-zero p)))))
      (window-set cells m (suc p) n i v
        (λ k h e. out (suc k) (omega arith) (e ∙ ap (λ t. t % m) (omega arith))))

-- A write just past the window makes it longer by the written byte.
pub window-push :
    (cells : List ℕ) (m p n v : ℕ)
    → n < m
    → m ≤ length cells
    → window (set cells ((p + n) % m) v) m p (suc n) ≡ window cells m p n ++ v ∷ []
window-push cells m p n v h alloc =
    ap (window cells' m p) {x = suc n} (omega arith)
    ∙ window-append cells' m p n 1
    ∙ ap₂ ◌++◌ (window-set cells m p n i v apart)
        (ap (λ b. b ∷ []) (get_or-set_self cells i v 0 (omega (arith, mod-lt (p + n) {m = m}))))
  where
    i : ℕ
    i = (p + n) % m

    cells' : List ℕ
    cells' = set cells i v

    apart : (k : ℕ) → k < n → i ≢ (p + k) % m
    apart k hk e =
        add-mod-ne m (p + k) (n - k) (omega arith) (omega arith) (ap (λ t. t % m) (omega arith) ∙ e)

pub take-window :
    (cells : List ℕ) (m p k n : ℕ) → k ≤ n → take k (window cells m p n) ≡ window cells m p k
take-window cells m p zero n h = refl
take-window cells m p (suc k) zero h = absurd (omega arith)
take-window cells m p (suc k) (suc n) h =
    ap (◌∷◌ (get_or cells (p % m) 0)) (take-window cells m (suc p) k n (omega arith))

pub drop-window :
    (cells : List ℕ) (m p k n : ℕ)
    → k ≤ n
    → drop k (window cells m p n) ≡ window cells m (p + k) (n - k)
drop-window cells m p zero n h = ap₂ (window cells m) (omega arith) (omega arith)
drop-window cells m p (suc k) zero h = absurd (omega arith)
drop-window cells m p (suc k) (suc n) h =
    drop-window cells m (suc p) k n (omega arith) ∙ ap₂ (window cells m) (omega arith) (omega arith)

-- A window that does not go round is a piece of the array.
pub window-piece :
    (cells : List ℕ) (m p n : ℕ)
    → p + n ≤ m
    → m ≤ suc (length cells)
    → p + n ≤ length cells
    → window cells m p n ≡ take n (drop p cells)
window-piece cells m p zero h hm hl = refl
window-piece cells m p (suc n) h hm hl =
    rw (drop-get_or p cells 0 (omega arith), mod-eq_of_lt {n = p} {m = m} (omega arith))
      (ap (◌∷◌ (get_or cells p 0)) (window-piece cells m (suc p) n (omega arith) hm (omega arith)))
