-- ===== src/Logger/Format.antt =====
-- `LogFormatter`: the items of a pattern and what they print.
pub mod Pattern
pub mod RoundTrip
use lp_net.Prelude.{
  ℕ, zero, suc, ◌+◌, ◌-◌, ◌%◌, ◌^◌, List, [], ◌∷◌, ◌++◌, Option, none, some, Bool, true, false, not,
  ◌&&◌, ◌==◌, ltb, leb, if◌then◌else◌, ◌>>=◌, length, load,
}
use lp_net.Text.{Str, codes, same, substr, last_that}
use lp_net.Strings.{start_with}
use lp_net.Logger.{Level, unknown, LogEvent, to_string, get_color, level_color, end}

-- The subclasses of `LogFormatterItem`.
pub data Item : Type 0 where
  message log_level elapse log_name filename line function_name : Item
  datetime text char : Str → Item

abbrev pub default_time : Str
default_time = codes "%Y-%m-%d %H:%M:%S"

-- `strftime f t` is what `std::strftime` prints of the local time at `t`, and `decimal n` what a stream
-- prints of a number.
module _ (strftime : Str → ℕ → Str) (decimal : ℕ → Str) where
  pub color_of : Level → Str
  color_of level = elim (level_color level) [ some c ↦ get_color c | none ↦ [] ]

  pub format_level : LogEvent → Str
  format_level e =
      if e.color_on
      then (color_of e.level
          ++ (to_string e.level ++ elim e.level [ unknown ↦ [] | other ↦ get_color end ]))
      else to_string e.level

  pub format_item : Item → LogEvent → Str → Str
  format_item message e logger = e.content
  format_item log_level e logger = format_level e
  format_item elapse e logger = decimal (e.ms_elapse % 2 ^ 32)
  format_item log_name e logger = logger
  format_item filename e logger = e.filename
  format_item line e logger = decimal e.line
  format_item function_name e logger = e.function_name
  format_item (datetime f) e logger = strftime f e.timestamp
  format_item (text s) e logger = s
  format_item (char s) e logger = s

  pub format : List Item → LogEvent → Str → Str
  format [] e logger = []
  format (item ∷ items) e logger = format_item item e logger ++ format items e logger

-- What `parsePatToken` returns: the id, the argument and whether it is PARSE_OK.
abbrev pub Token : Type 0
Token = Str × Str × Bool

-- The length of the time format; `npos` is larger than any text.
pub time_length : Str → Option ℕ → Option ℕ
time_length token none = some (length token)
time_length token (some n) = if leb 9 n then some (n - 9) else none

pub parse_datetime : Str → Option Token
parse_datetime token =
    if ltb 8 (length token)
    then (do
      c ← load token 8
      let len = time_length token (last_that (λ x. x == b'}') token)
      if c == b'{'
          then elim len [
            | some n ↦ do timefmt ← substr token 9 n; some (codes "DATETIME", timefmt, true)
            | none ↦ some (token, [], false)
          ]
          else some (codes "DATETIME", default_time, true))
    else some (codes "DATETIME", default_time, true)

pub parse_char : Str → Option Token
parse_char token =
    if leb (length token) 5
    then some (codes "CHAR", [], false)
    else (do ch ← substr token 5 (length token); some (codes "CHAR", ch, true))

pub parse_pat_token : Str → Option Token
parse_pat_token token = do
  is_char ← start_with token (codes "CHAR:")
  is_datetime ← start_with token (codes "DATETIME")
  if is_char
      then parse_char token
      else (if is_datetime then parse_datetime token else some (token, [], true))

abbrev pub id_token : ℕ
id_token = b'$'

-- nstr = pattern_.substr(start_pos, len); vec.push_back(parsePatToken(nstr))
pub push_token : Str → ℕ → ℕ → List Token → Option (List Token)
push_token pattern start len vec = if len == 0 then some vec else (do
  nstr ← substr pattern start len
  token ← parse_pat_token nstr
  some (vec ++ token ∷ []))

-- The loop of `init` from `i` on, with the rounds that are left.
pub scan : Str → List Token → ℕ → ℕ → ℕ → ℕ → Option (List Token × ℕ × ℕ)
scan pattern vec start len i zero = some (vec, start, len)
scan pattern vec start len i (suc rounds) = do
  c ← load pattern i
  let next = push_token pattern start len vec >>= λ vec'. scan pattern vec' (i + 1) 0 (i + 1) rounds
  let same_token = scan pattern vec start (len + 1) (i + 1) rounds
  if c == id_token then next else same_token

-- What follows the loop.
pub last_token : Str → List Token × ℕ × ℕ → Option (List Token)
last_token pattern (vec, start, len) =
    if len == 0 then some (vec ++ ([], [], false) ∷ []) else push_token pattern start len vec

pub tokens_of : Str → Option (List Token)
tokens_of pattern = scan pattern [] 0 0 0 (length pattern) >>= last_token pattern

-- The table `s_format_items`, applied to the argument.
pub item_of : Str → Str → Option Item
item_of id arg =
    if same id (codes "MESSAGE")
    then some message
    else if same id (codes "LOG_LEVEL")
    then some log_level
    else if same id (codes "TOTAL_MS")
    then some elapse
    else if same id (codes "LOG_NAME")
    then some log_name
    else if same id (codes "DATETIME")
    then some (datetime (elim arg [ [] ↦ default_time | c ∷ s ↦ c ∷ s ]))
    else if same id (codes "FILENAME")
    then some filename
    else if same id (codes "LINE")
    then some line
    else if same id (codes "CHAR")
    then some (char arg)
    else if same id (codes "FUNCTION_NAME")
    then some function_name
    else none

pub record LogFormatter : Type 0 where
  pub pattern : Str
  pub items : List Item
  pub err : Str
  pub has_error : Bool

abbrev pub error_text : Str → Str
error_text id = codes "<<PATTERN ERROR: UNSUPPORTED FORMAT $" ++ (id ++ codes ">>")

-- One round of the second loop of `init`.
pub add_item : LogFormatter → Token → LogFormatter
add_item f (id, arg, false) = record f { items = f.items ++ text id ∷ [] }
add_item f (id, arg, true) = elim (item_of id arg) [
  | some item ↦ record f { items = f.items ++ item ∷ [] }
  | none ↦ record f {
    has_error = true;
    err = error_text id;
    items = f.items ++ text (error_text id) ∷ [];
  }
]

pub add_items : LogFormatter → List Token → LogFormatter
add_items f [] = f
add_items f (t ∷ tokens) = add_items (add_item f t) tokens

pub init : Str → Option LogFormatter
init pattern = do
  tokens ← tokens_of pattern
  some (add_items (record { pattern = pattern; items = []; err = []; has_error = false }) tokens)
