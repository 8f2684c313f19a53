-- ===== src/Logger/Registry/Lookup.antt =====
-- What `LogManager::getLogger` finds: the default pattern of a new logger parses, and a name keeps its
-- logger.
use mathlib.Core.Path.{subst}
use lp_net.Prelude.{
  suc, ◌<◌, sym, length-append, Option, if◌then◌else◌, Bool, true, ℕ, ◌≡◌, refl, ap, ◌∙◌, arith,
  List, [], ◌∷◌, ◌++◌, none, some, Option-cases, false, inl, inr, length,
}
use lp_net.Text.{Str, same}
use lp_net.Text.Find.{same_refl}
use lp_net.Logger.{debug}
use lp_net.Logger.Format.{
  Item, message, log_level, elapse, log_name, filename, line, function_name, datetime, char,
  LogFormatter, default_time,
}
use lp_net.Logger.Format
use lp_net.Logger.Format.RoundTrip.{pattern_of, init-pattern_of}
use lp_net.Logger.Registry.{
  Logger, World, default_pattern, new_logger, find_name, found_or_new, get_logger,
}

abbrev pub later_items : List Item
later_items =
    char (9 ∷ [])
    ∷ log_name
    ∷ char (b'[' ∷ [])
    ∷ log_level
    ∷ char (b']' ∷ [])
    ∷ char (9 ∷ [])
    ∷ filename
    ∷ char (b':' ∷ [])
    ∷ line
    ∷ char (9 ∷ [])
    ∷ function_name
    ∷ char (9 ∷ [])
    ∷ elapse
    ∷ char (10 ∷ [])
    ∷ message
    ∷ char (10 ∷ [])
    ∷ []

abbrev pub default_items : List Item
default_items = datetime default_time ∷ later_items

default_spelled : default_pattern ≡ pattern_of default_items
default_spelled = refl

abbrev pub default_formatter : LogFormatter
default_formatter = record {
  pattern = default_pattern;
  items = default_items;
  err = [];
  has_error = false;
}

init-default : Format.init default_pattern ≡ some default_formatter
init-default =
    init-pattern_of (datetime default_time) later_items (λ e. ground arith, ground arith)
      (ground arith)

abbrev pub fresh : Str → Logger
fresh name = record {
  name = name;
  level = debug;
  appenders = [];
  formatter = some default_formatter;
  root = none;
}

new_logger_lem : (name : Str) → new_logger name ≡ some (fresh name)
unfolding new_logger
new_logger_lem name = rw init-default refl

find_name-append_new :
    (name : Str) (id : ℕ) (names : List (Str × ℕ))
    → find_name name names ≡ none
    → find_name name (names ++ (name, id) ∷ []) ≡ some id
unfolding find_name
find_name-append_new name id [] h = rw (same_refl name) refl
find_name-append_new name id (entry ∷ names) h = ground (arith, find_name-append_new name id names)

find_name-append_other :
    (name other : Str) (id : ℕ) (names : List (Str × ℕ))
    → same other name ≡ false
    → find_name other (names ++ (name, id) ∷ []) ≡ find_name other names
unfolding find_name
find_name-append_other name other id [] h = rw h refl
find_name-append_other name other id (entry ∷ names) h =
    rw (find_name-append_other name other id names h) refl

get_logger_known :
    (w : World) (name : Str) (id : ℕ)
    → find_name name w.names ≡ some id
    → get_logger w name ≡ some (id, w)
unfolding get_logger found_or_new
get_logger_known w name id h = ap (found_or_new w name) h

-- Every name stands for one of the first `n` loggers.
unfoldable pub AllBelow : ℕ → List (Str × ℕ) → Type 0
AllBelow n [] = Unit
AllBelow n (entry ∷ names) = (entry.1 < n) × AllBelow n names

AllBelow-append :
    (n : ℕ) (names : List (Str × ℕ)) (name : Str)
    → AllBelow n names
    → AllBelow (suc n) (names ++ (name, n) ∷ [])
unfolding AllBelow
AllBelow-append n [] name h = (omega arith, tt)
AllBelow-append n (entry ∷ names) name h = (omega (arith, h.0), AllBelow-append n names name h.1)

BelowOption : ℕ → Option ℕ → Type 0
BelowOption n none = Unit
BelowOption n (some id) = id < n

BelowOption-if :
    (n : ℕ) (b : Bool) (x y : Option ℕ)
    → BelowOption n x
    → BelowOption n y
    → BelowOption n (if b then x else y)
BelowOption-if n true x y h k = h
BelowOption-if n false x y h k = k

find_name-BelowOption :
    (n : ℕ) (name : Str) (names : List (Str × ℕ))
    → AllBelow n names
    → BelowOption n (find_name name names)
unfolding find_name AllBelow BelowOption
find_name-BelowOption n name [] h = tt
find_name-BelowOption n name (entry ∷ names) h =
    BelowOption-if n _ (some entry.1) (find_name name names) h.0
      (find_name-BelowOption n name names h.1)

-- Where every name stands for a logger that exists, `getLogger` returns a logger that exists, the name finds it from then on, a second
-- call returns the same one and changes nothing, every name still stands for a logger that exists, and any
-- other name finds the logger that it found before.
pub get_logger_lem :
    (w : World) (name other : Str)
    → same other name ≡ false
    → AllBelow (length w.loggers) w.names
    → (id : ℕ) × (w' : World) × (get_logger w name ≡ some (id, w'))
      × (id < length w'.loggers)
      × AllBelow (length w'.loggers) w'.names
      × (get_logger w' name ≡ some (id, w'))
      × (find_name other w'.names ≡ find_name other w.names)
unfolding get_logger found_or_new BelowOption
get_logger_lem w name other apart known = elim (Option-cases (find_name name w.names)) [
  | inr (id, found) ↦ (
    id,
    w,
    get_logger_known w name id found,
    subst (BelowOption (length w.loggers)) found
        (find_name-BelowOption (length w.loggers) name w.names known),
    known,
    get_logger_known w name id found,
    refl,
  )
  | inl missing ↦
      let w' : World = record w {
        loggers = w.loggers ++ record (fresh name) { root = some w.root_logger } ∷ [];
        names = w.names ++ (name, length w.loggers) ∷ [];
      } in
      (
        length w.loggers,
        w',
        ap (found_or_new w name) missing ∙ new,
        omega (arith, one_more),
        subst (λ n. AllBelow n w'.names) (sym one_more)
            (AllBelow-append (length w.loggers) w.names name known),
        get_logger_known w' name (length w.loggers)
            (find_name-append_new name (length w.loggers) w.names missing),
        find_name-append_other name other (length w.loggers) w.names apart,
      )
]
  where
    one_more :
        length (w.loggers ++ record (fresh name) { root = some w.root_logger } ∷ [])
        ≡ suc (length w.loggers)
    one_more =
        omega
          (arith, length-append w.loggers (record (fresh name) { root = some w.root_logger } ∷ []))

    new :
        found_or_new w name none
        ≡ some (
          length w.loggers,
          record w {
            loggers = w.loggers ++ record (fresh name) { root = some w.root_logger } ∷ [];
            names = w.names ++ (name, length w.loggers) ∷ [];
          },
        )
    new = rw (new_logger_lem name) refl
