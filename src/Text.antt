-- ===== src/Text.antt =====
-- What the code uses of `std::string`: a text is the list of its bytes, and `none` is `npos`, or an
-- exception where a call throws.
pub mod Find
use mathlib.Core.Option
use Prim.Native.Char.{code}
use Prim.Native.String.{String}
use lp_net.Prelude.{
  ℕ, zero, suc, ◌+◌, ◌≡◌, List, [], ◌∷◌, Option, none, some, Bool, true, false, not, ◌&&◌, ◌==◌,
  ltb, if◌then◌else◌, length, take, drop,
}

abbrev pub Str : Type 0
Str = List ℕ

-- The bytes of a literal.
abbrev pub codes : String → Str
codes String.[] = []
codes (String.◌∷◌ c s) = code c ∷ codes s

-- a == b
unfoldable pub same : Str → Str → Bool
same [] [] = true
same [] (y ∷ ys) = false
same (x ∷ xs) [] = false
same (x ∷ xs) (y ∷ ys) = x == y && same xs ys

-- The text begins with the word.
unfoldable pub begins : Str → Str → Bool
begins [] s = true
begins (w ∷ word) [] = false
begins (w ∷ word) (c ∷ s) = if c == w then begins word s else false

-- s.find(word)
unfoldable pub find : Str → Str → Option ℕ
find word [] = if begins word [] then some 0 else none
find word (c ∷ s) = if begins word (c ∷ s) then some 0 else Option.map suc (find word s)

-- s.find(word, start)
unfoldable pub find_at : Str → Str → ℕ → Option ℕ
find_at word s start =
    if ltb (length s) start then none else Option.map (λ i. start + i) (find word (drop start s))

-- s.substr(pos, n), which throws behind the end
unfoldable pub substr : Str → ℕ → ℕ → Option Str
substr s pos n = if ltb (length s) pos then none else some (take n (drop pos s))

-- The first and the last place of a byte of a kind.
unfoldable pub first_that : (ℕ → Bool) → Str → Option ℕ
first_that p [] = none
first_that p (c ∷ s) = if p c then some 0 else Option.map suc (first_that p s)

unfoldable pub last_that : (ℕ → Bool) → Str → Option ℕ
last_that p [] = none
last_that p (c ∷ s) = elim (last_that p s) [
  | some i ↦ some (suc i)
  | none ↦ if p c then some 0 else none
]
