-- ===== src/Strings.antt =====
-- string_utils.h.
pub mod Split
pub mod Ends
pub mod Url
mod Tests
use mathlib.Core.Option
use lp_net.Prelude.{
  ℕ, zero, suc, ◌+◌, ◌-◌, List, [], ◌∷◌, ◌++◌, Option, none, some, Bool, true, false, not, ◌&&◌,
  ◌||◌, ◌==◌, ltb, leb, if◌then◌else◌, ◌>>=◌, length, load, take, drop, map,
}
use lp_net.Text.{Str, same, find, find_at, substr, first_that, last_that}

-- One round of the loop of `split`, with the place that `find` gave; `rounds` are the others.
pub split_round : (ℕ → Option (List Str)) → Str → Str → ℕ → Option ℕ → Option (List Str)
split_round rounds s delim start none = do piece ← substr s start (length s); some (piece ∷ [])
split_round rounds s delim start (some end) = do
  piece ← substr s start (end - start)
  pieces ← rounds (end + length delim)
  some (piece ∷ pieces)

-- The loop from `start` on; `none` if it takes more rounds than `fuel`.
pub split_from : ℕ → Str → Str → ℕ → Option (List Str)
split_from zero s delim start = none
split_from (suc fuel) s delim start =
    split_round (split_from fuel s delim) s delim start (find_at delim s start)

pub split : ℕ → Str → Str → Option (List Str)
split fuel s delim = split_from fuel s delim 0

-- The loop of `start_with`, with the rounds that are left.
pub start_from : Str → Str → ℕ → ℕ → Option Bool
start_from s match_str i zero = some true
start_from s match_str i (suc rounds) = do
  a ← load s i
  b ← load match_str i
  let rest = start_from s match_str (suc i) rounds
  if not (a == b) then some false else rest

pub start_with : Str → Str → Option Bool
start_with s match_str =
    if ltb (length s) (length match_str)
    then some false
    else start_from s match_str 0 (length match_str)

pub end_from : Str → Str → ℕ → ℕ → Option Bool
end_from s match_str i zero = some true
end_from s match_str i (suc rounds) = do
  a ← load s (length s - 1 - i)
  b ← load match_str i
  let rest = end_from s match_str (suc i) rounds
  if not (a == b) then some false else rest

pub end_with : Str → Str → Option Bool
end_with s match_str =
    if ltb (length s) (length match_str)
    then some false
    else end_from s match_str 0 (length match_str)

-- std::tolower and std::toupper of the C locale.
pub lower : ℕ → ℕ
lower c = if leb b'A' c && leb c b'Z' then c + 32 else c

pub upper : ℕ → ℕ
upper c = if leb b'a' c && leb c b'z' then c - 32 else c

-- The loop of `find_case`; `none` outside if it takes more rounds than `fuel`, inside for `npos`.
pub find_case_from : ℕ → Str → Str → ℕ → ℕ → Option (Option ℕ)
find_case_from zero s target i j = none
find_case_from (suc fuel) s target i j =
    if ltb i (length s) && ltb j (length target)
    then (do
      a ← load s i
      b ← load target j
      let hit = find_case_from fuel s target (suc i) (suc j)
      let miss = find_case_from fuel s target i 0
      if lower a == lower b then hit else miss)
    else (if leb (length target) j then some (some (i - length target)) else some none)

-- The parameter `start` is not used.
pub find_case : ℕ → Str → Str → ℕ → Option (Option ℕ)
find_case fuel s target start = find_case_from fuel s target 0 0

abbrev pub blank : ℕ → Bool
blank c = c == b' '

pub trim_left : Str → Option Str
trim_left [] = some []
trim_left (c ∷ s) = elim (first_that (λ x. not (blank x)) (c ∷ s)) [
  | none ↦ some []
  | some i ↦ substr (c ∷ s) i (length (c ∷ s))
]

pub trim_right : Str → Option Str
trim_right [] = some []
trim_right (c ∷ s) = elim (last_that (λ x. not (blank x)) (c ∷ s)) [
  | none ↦ some []
  | some i ↦ substr (c ∷ s) 0 (i + 1)
]

-- The last lines of `trim`, with the place `r` of the last byte that is no blank.
pub cut : Str → ℕ → Option ℕ → Option Str
cut s l none = substr s l (length s)
cut s l (some r) = if leb l r then substr s l (r - l + 1) else some s

pub trim : Str → Option Str
trim [] = some []
trim (c ∷ s) = elim (first_that (λ x. not (blank x)) (c ∷ s)) [
  | none ↦ some []
  | some l ↦ cut (c ∷ s) l (last_that (λ x. not (blank x)) (c ∷ s))
]

pub tolower : Str → Str
tolower s = map lower s

pub toupper : Str → Str
toupper s = map upper s

-- One parameter: its name and value; both are the whole text where there is no `=`.
pub parse_at : Str → Option ℕ → Str × Str
parse_at param none = (param, param)
parse_at param (some i) = (take i param, drop (i + 1) param)

pub parse_param : Str → Str × Str
parse_param param = parse_at param (first_that (λ c. c == b'=') param)

pub has_key : Str → List (Str × Str) → Bool
has_key k [] = false
has_key k (e ∷ params) = same e.0 k || has_key k params

-- ret.emplace(k, v): a key that is there keeps its value.
pub emplace : List (Str × Str) → Str × Str → List (Str × Str)
emplace params e = if has_key e.0 params then params else params ++ e ∷ []

pub insert_params : List (Str × Str) → List Str → List (Str × Str)
insert_params params [] = params
insert_params params (p ∷ ps) = insert_params (emplace params (parse_param p)) ps

-- The first place behind a `?`; without one, `npos + 1` is 0.
pub behind : Option ℕ → ℕ
behind none = 0
behind (some i) = i + 1

pub behind_mark : Str → ℕ
behind_mark url = behind (first_that (λ c. c == b'?') url)

-- The map in the order of insertion.
pub parse_url_params : ℕ → Str → Option (List (Str × Str))
parse_url_params fuel url = do
  param_string ← substr url (behind_mark url) (length url)
  params ← split fuel param_string (b'&' ∷ [])
  some (insert_params [] params)
