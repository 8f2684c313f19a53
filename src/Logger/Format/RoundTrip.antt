-- ===== src/Logger/Format/RoundTrip.antt =====
-- A list of items printed as a pattern, and read back by `LogFormatter::init`.
use lp_net.Prelude.{
  ℕ, suc, ◌-◌, ◌≡◌, ◌≢◌, refl, sym, ap, ◌∙◌, arith, List, [], ◌∷◌, ◌++◌, Option, some, Bool, true,
  false, ◌==◌, ltb, leb, if◌then◌else◌, ◌>>=◌, length, append-nil, append_assoc, take-append_length,
  take_of_length-le,
}
use lp_net.Text.{Str, codes, same, begins, last_that, substr}
use lp_net.Strings.Ends.{start_with_lem}
use lp_net.Logger.Format.{
  Item, message, log_level, elapse, log_name, filename, line, function_name, datetime, text, char,
  Token, time_length, parse_datetime, parse_char, parse_pat_token, id_token, item_of, LogFormatter,
  add_item, add_items, init,
}
use lp_net.Logger.Format.Pattern.{emit, emit_last, tokens_from, tokens_of-eq-tokens_from}

-- How an item is written behind a dollar sign.
abbrev pub spell : Item → Str
spell message = codes "MESSAGE"
spell log_level = codes "LOG_LEVEL"
spell elapse = codes "TOTAL_MS"
spell log_name = codes "LOG_NAME"
spell filename = codes "FILENAME"
spell line = codes "LINE"
spell function_name = codes "FUNCTION_NAME"
spell (datetime f) = codes "DATETIME{" ++ (f ++ codes "}")
spell (text s) = s
spell (char s) = codes "CHAR:" ++ s

-- The id and the argument that the item is made from.
abbrev pub token : Item → Token
token (datetime f) = (codes "DATETIME", f, true)
token (char s) = (codes "CHAR", s, true)
token item = (spell item, [], true)

-- No dollar sign.
abbrev pub Plain : Str → Type 0
Plain [] = Unit
Plain (c ∷ s) = ((c == id_token) ≡ false) × Plain s

-- An item that a pattern can spell: its argument is not empty and holds no dollar sign.
abbrev pub Spelled : Item → Type 0
Spelled (datetime f) = (f ≢ []) × Plain f
Spelled (char s) = (s ≢ []) × Plain s
Spelled (text s) = ⊥
Spelled item = Unit

parse_lem :
    (t : Str)
    → parse_pat_token t ≡ (
        if begins (codes "CHAR:") t
        then parse_char t
        else (if begins (codes "DATETIME") t then parse_datetime t else some (t, [], true)))
unfolding parse_pat_token
parse_lem t = rw (start_with_lem t (codes "CHAR:"), start_with_lem t (codes "DATETIME")) refl

last_that-append :
    (p : ℕ → Bool) (s : Str) (c : ℕ) → p c ≡ true → last_that p (s ++ c ∷ []) ≡ some (length s)
unfolding last_that
last_that-append p [] c h = rw h refl
last_that-append p (x ∷ s) c h = rw (last_that-append p s c h, last_that) refl

parse_char_lem :
    (c : ℕ) (s : Str) → parse_char (codes "CHAR:" ++ (c ∷ s)) ≡ some (codes "CHAR", c ∷ s, true)
unfolding parse_char substr
parse_char_lem c s =
    rw (long (length s), inside (length s))
      (ap (λ t. some (codes "CHAR", c ∷ t, true))
        (take_of_length-le (suc (suc (suc (suc (suc (length s)))))) s (omega arith)))
  where
    long : (n : ℕ) → leb (suc (suc (suc (suc (suc (suc n)))))) 5 ≡ false
    long n = ground arith

    inside : (n : ℕ) → ltb (suc (suc (suc (suc (suc (suc n)))))) 5 ≡ false
    inside n = ground arith

parse_datetime_lem :
    (f : Str)
    → parse_datetime (codes "DATETIME{" ++ (f ++ codes "}")) ≡ some (codes "DATETIME", f, true)
unfolding parse_datetime substr time_length
parse_datetime_lem f =
    rw
      (
        long (length (f ++ codes "}")),
        last_that-append (λ x. x == b'}') (codes "DATETIME{" ++ f) b'}' refl,
        reached (length f),
        rest (length f),
        inside (length (f ++ codes "}")),
        take-append_length f (codes "}"),
      )
      refl
  where
    nine : ℕ → ℕ
    nine n = suc (suc (suc (suc (suc (suc (suc (suc (suc n))))))))

    long : (n : ℕ) → ltb 8 (nine n) ≡ true
    long n = ground arith

    inside : (n : ℕ) → ltb (nine n) 9 ≡ false
    inside n = ground arith

    rest : (n : ℕ) → nine n - 9 ≡ n
    rest n = omega arith

    reached : (n : ℕ) → leb 9 (nine n) ≡ true
    reached n = ground arith

-- Each item is read from its own text.
parse-spell : (item : Item) → Spelled item → parse_pat_token (spell item) ≡ some (token item)
unfolding begins
parse-spell message h = parse_lem (spell message)
parse-spell log_level h = parse_lem (spell log_level)
parse-spell elapse h = parse_lem (spell elapse)
parse-spell log_name h = parse_lem (spell log_name)
parse-spell filename h = parse_lem (spell filename)
parse-spell line h = parse_lem (spell line)
parse-spell function_name h = parse_lem (spell function_name)
parse-spell (datetime f) h = parse_lem (spell (datetime f)) ∙ parse_datetime_lem f
parse-spell (char []) h = absurd (h.0 refl)
parse-spell (char (c ∷ s)) h = parse_lem (spell (char (c ∷ s))) ∙ parse_char_lem c s
parse-spell (text s) h = absurd h

add-token :
    (item : Item) (f : LogFormatter)
    → Spelled item
    → add_item f (token item) ≡ record f { items = f.items ++ item ∷ [] }
unfolding add_item item_of same
add-token message f h = refl
add-token log_level f h = refl
add-token elapse f h = refl
add-token log_name f h = refl
add-token filename f h = refl
add-token line f h = refl
add-token function_name f h = refl
add-token (datetime []) f h = absurd (h.0 refl)
add-token (datetime (c ∷ s)) f h = refl
add-token (char s) f h = refl
add-token (text s) f h = absurd h

Plain-append : (s t : Str) → Plain s → Plain t → Plain (s ++ t)
Plain-append [] t h k = k
Plain-append (c ∷ s) t h k = (h.0, Plain-append s t h.1 k)

spell-Plain : (item : Item) → Spelled item → Plain (spell item)
spell-Plain (datetime f) h =
    Plain-append (codes "DATETIME{") (f ++ codes "}") (ground arith)
      (Plain-append f (codes "}") h.1 (ground arith))
spell-Plain (char s) h = Plain-append (codes "CHAR:") s (ground arith) h.1
spell-Plain (text s) h = absurd h
spell-Plain _ h = ground arith

spell-ne-nil : (item : Item) → Spelled item → spell item ≢ []
spell-ne-nil (text s) h = absurd h
spell-ne-nil _ h = λ e. ground arith

-- The pattern of a list of items: a dollar sign and the text of each.
abbrev pub pattern_of : List Item → Str
pattern_of [] = []
pattern_of (item ∷ items) = id_token ∷ (spell item ++ pattern_of items)

-- Every item can be spelled.
abbrev pub AllSpelled : List Item → Type 0
AllSpelled [] = Unit
AllSpelled (item ∷ items) = Spelled item × AllSpelled items

tokens_from-Plain :
    (t cur rest : Str) → Plain t → tokens_from cur (t ++ rest) ≡ tokens_from (cur ++ t) rest
unfolding tokens_from
tokens_from-Plain [] cur rest h = ap (λ c. tokens_from c rest) (sym (append-nil cur))
tokens_from-Plain (c ∷ t) cur rest h = rw h.0 (
    tokens_from-Plain t (cur ++ c ∷ []) rest h.1
    ∙ ap (λ u. tokens_from u rest) (append_assoc cur (c ∷ []) t))

abbrev pub tokens : List Item → List Token
tokens [] = []
tokens (item ∷ items) = token item ∷ tokens items

emit-ne : (t : Str) → t ≢ [] → emit t ≡ (parse_pat_token t >>= λ u. some (u ∷ []))
unfolding emit
emit-ne [] h = absurd (h refl)
emit-ne (c ∷ s) h = refl

emit_last-ne : (t : Str) → t ≢ [] → emit_last t ≡ (parse_pat_token t >>= λ u. some (u ∷ []))
unfolding emit_last
emit_last-ne [] h = absurd (h refl)
emit_last-ne (c ∷ s) h = refl

tokens_from-spell :
    (item : Item) (items : List Item)
    → Spelled item
    → AllSpelled items
    → tokens_from [] (spell item ++ pattern_of items) ≡ some (token item ∷ tokens items)
unfolding tokens_from
tokens_from-spell item [] h k =
    tokens_from-Plain (spell item) [] [] (spell-Plain item h)
    ∙ emit_last-ne (spell item) (spell-ne-nil item h)
    ∙ rw (parse-spell item h) refl
tokens_from-spell item (next ∷ items) h k =
    tokens_from-Plain (spell item) [] (pattern_of (next ∷ items)) (spell-Plain item h)
    ∙ rw
        (
          emit-ne (spell item) (spell-ne-nil item h),
          parse-spell item h,
          tokens_from-spell next items k.0 k.1,
        )
        refl

add-tokens :
    (items : List Item) (f : LogFormatter)
    → AllSpelled items
    → add_items f (tokens items) ≡ record f { items = f.items ++ items }
unfolding add_items
add-tokens [] f h = ap (λ is. record f { items = is }) (sym (append-nil f.items))
add-tokens (item ∷ items) f h =
    ap (λ g. add_items g (tokens items)) (add-token item f h.0)
    ∙ add-tokens items (record f { items = f.items ++ item ∷ [] }) h.1
    ∙ ap (λ is. record f { items = is }) (append_assoc f.items (item ∷ []) items)

opened : (s : Str) → tokens_from [] (id_token ∷ s) ≡ (tokens_from [] s >>= λ us. some us)
unfolding tokens_from emit
opened s = refl

-- A list of at least one item, none of which is plain text, and each of which has an argument that is not empty and holds no
-- dollar sign if its kind takes one: written as a pattern, it comes back from `init`, in order and with no error.
pub init-pattern_of :
    (item : Item) (items : List Item)
    → Spelled item
    → AllSpelled items
    → init (pattern_of (item ∷ items))
      ≡ some (record {
        pattern = pattern_of (item ∷ items);
        items = item ∷ items;
        err = [];
        has_error = false;
      })
unfolding init
init-pattern_of item items h k =
    ap (λ o. o >>= finish) (tokens_of-eq-tokens_from (pattern_of (item ∷ items)) ∙ read)
    ∙ ap some (add-tokens (item ∷ items) start (h, k))
  where
    start : LogFormatter
    start = record { pattern = pattern_of (item ∷ items); items = []; err = []; has_error = false }

    finish : List Token → Option LogFormatter
    finish ts = some (add_items start ts)

    read : tokens_from [] (pattern_of (item ∷ items)) ≡ some (token item ∷ tokens items)
    read = opened (spell item ++ pattern_of items) ∙ rw (tokens_from-spell item items h k) refl
