-- ===== src/Strings/Url.antt =====
-- `parse_url_params`, against a printer of parameters.
use lp_net.Prelude.{
  ℕ, ◌+◌, ◌<◌, ◌≡◌, refl, sym, ap, ap₂, ◌∙◌, arith, List, [], ◌∷◌, ◌++◌, Option, none, some, Bool,
  true, false, ◌==◌, ltb, if◌then◌else◌, ◌>>=◌, length, take, drop, map, take-append_length,
  drop-append_length, drop-drop, length-append, take_of_length-le, append_assoc, append-nil,
}
use lp_net.Text.{Str, first_that, substr}
use lp_net.Strings.{
  parse_at, parse_param, has_key, behind, emplace, insert_params, behind_mark, parse_url_params,
  split,
}
use lp_net.Strings.Split.{Free, join, split-join_byte}

-- name=value
abbrev pub print_param : Str × Str → Str
print_param e = e.0 ++ (b'=' ∷ e.1)

first_that-append :
    (p : ℕ → Bool) (xs : Str) (c : ℕ) (ys : Str)
    → first_that p xs ≡ none
    → p c ≡ true
    → first_that p (xs ++ (c ∷ ys)) ≡ some (length xs)
unfolding first_that
first_that-append p [] c ys absent h = rw h refl
first_that-append p (x ∷ xs) c ys absent h = ground (arith, first_that-append p xs c ys)

drop_past : (xs : Str) (c : ℕ) (ys : Str) → drop (length xs + 1) (xs ++ (c ∷ ys)) ≡ ys
drop_past xs c ys =
    sym (drop-drop (length xs) 1 (xs ++ (c ∷ ys))) ∙ ap (drop 1) (drop-append_length xs (c ∷ ys))

-- A name holds no `=`.
abbrev pub IsName : Str → Type 0
IsName k = first_that (λ c. c == b'=') k ≡ none

parse-print : (e : Str × Str) → IsName e.0 → parse_param (print_param e) ≡ e
unfolding parse_param parse_at
parse-print e h =
    ap (parse_at (print_param e)) (first_that-append (λ c. c == b'=') e.0 b'=' e.1 h refl)
    ∙ ap₂ (λ a b. (a, b)) (take-append_length e.0 (b'=' ∷ e.1)) (drop_past e.0 b'=' e.1)

-- Names without `=`, each for the first time.
abbrev pub NewNames : List (Str × Str) → List (Str × Str) → Type 0
NewNames known [] = Unit
NewNames known (e ∷ params) =
    IsName e.0 × (has_key e.0 known ≡ false) × NewNames (known ++ e ∷ []) params

emplace-new :
    (e : Str × Str) (known : List (Str × Str))
    → IsName e.0
    → has_key e.0 known ≡ false
    → emplace known (parse_param (print_param e)) ≡ known ++ e ∷ []
unfolding emplace
emplace-new e known h fresh =
    ap (emplace known) {y = e} (parse-print e h)
    ∙ ap (λ b. if b then known else known ++ e ∷ []) fresh

insert_params_lem :
    (params known : List (Str × Str))
    → NewNames known params
    → insert_params known (map print_param params) ≡ known ++ params
unfolding insert_params
insert_params_lem [] known h = sym (append-nil known)
insert_params_lem (e ∷ params) known h =
    ap (λ k. insert_params k (map print_param params)) (emplace-new e known h.0 h.1)
    ∙ insert_params_lem params (known ++ e ∷ []) h.2
    ∙ append_assoc known (e ∷ []) params

substr_past :
    (path query : Str)
    → substr (path ++ (b'?' ∷ query)) (length path + 1) (length (path ++ (b'?' ∷ query)))
      ≡ some query
unfolding substr
substr_past path query =
    ap (λ b. if b then none else some (take n (drop (length path + 1) url))) inside
    ∙ ap (λ t. some (take n t)) (drop_past path b'?' query)
    ∙ ap some (take_of_length-le n query (omega (arith, length-append path (b'?' ∷ query))))
  where
    url : Str
    url = path ++ (b'?' ∷ query)

    n : ℕ
    n = length url

    inside : ltb n (length path + 1) ≡ false
    inside = ground (arith, length-append path (b'?' ∷ query))

-- The parameters of a url that has at least one are read back, with fuel for each of them: no question mark stands before the one that
-- begins them, the names hold no `=` and each occurs once, and no `&` stands in a name or value.
pub parse_url_params-print :
    (fuel : ℕ) (path : Str) (e : Str × Str) (params : List (Str × Str))
    → first_that (λ c. c == b'?') path ≡ none
    → NewNames [] (e ∷ params)
    → Free b'&' (map print_param (e ∷ params))
    → length (map print_param params) < fuel
    → parse_url_params fuel (path ++ (b'?' ∷ join (b'&' ∷ []) (map print_param (e ∷ params))))
      ≡ some (e ∷ params)
unfolding parse_url_params behind_mark behind
parse_url_params-print fuel path e params no_mark names free enough =
    ap (λ o. substr url (behind o) (length url) >>= parsed)
      (first_that-append (λ c. c == b'?') path b'?' query no_mark refl)
    ∙ ap (λ o. o >>= parsed) (substr_past path query)
    ∙ rw
        (
          split-join_byte fuel b'&' (print_param e) (map print_param params) free enough,
          insert_params_lem (e ∷ params) [] names,
        )
        refl
  where
    query : Str
    query = join (b'&' ∷ []) (map print_param (e ∷ params))

    url : Str
    url = path ++ (b'?' ∷ query)

    parsed : Str → Option (List (Str × Str))
    parsed t = split fuel t (b'&' ∷ []) >>= λ ps. some (insert_params [] ps)
