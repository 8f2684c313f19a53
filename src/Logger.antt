-- ===== src/Logger.antt =====
-- util/logger/Logger.h and Logger.cpp: levels, colours and events. The children hold the formatter with
-- its pattern language (Format), the appenders (Appender) and the loggers with their manager (Registry).
pub mod Levels
pub mod Format
pub mod Appender
pub mod Registry
mod Tests
use lp_net.Prelude.{
  ℕ, ◌+◌, ◌^◌, ◌%◌, List, [], ◌∷◌, ◌++◌, Option, none, some, Bool, true, false, not, ltb, leb, ◌==◌,
  if◌then◌else◌, length, take,
}
use lp_net.Text.{Str, codes, same}

pub data Level : Type 0 where
  unknown debug info warn error fatal : Level

abbrev pub rank : Level → ℕ
rank unknown = 0
rank debug = 1
rank info = 2
rank warn = 3
rank error = 4
rank fatal = 5

pub to_string : Level → Str
to_string debug = codes "DEBUG"
to_string info = codes "INFO"
to_string warn = codes "WARN"
to_string error = codes "ERROR"
to_string fatal = codes "FATAL"
to_string unknown = codes "NONE"

pub from_string : Str → Level
from_string str =
    if same str (codes "DEBUG")
    then debug
    else if same str (codes "INFO")
    then info
    else if same str (codes "WARN")
    then warn
    else if same str (codes "ERROR")
    then error
    else if same str (codes "FATAL")
    then fatal
    else unknown

pub data ColorType : Type 0 where
  end red green yellow blue deep_red : ColorType

-- An escape byte before each.
pub get_color : ColorType → Str
get_color end = 27 ∷ codes "[0m"
get_color red = 27 ∷ codes "[31m"
get_color green = 27 ∷ codes "[32m"
get_color yellow = 27 ∷ codes "[33m"
get_color blue = 27 ∷ codes "[34m"
get_color deep_red = 27 ∷ codes "[35m"

-- LOG_LEVEL_DEBUG and the others; `LUNKNOWN` has none.
pub level_color : Level → Option ColorType
level_color unknown = none
level_color debug = some blue
level_color info = some green
level_color warn = some yellow
level_color error = some red
level_color fatal = some deep_red

-- `content` is what the stream `ss_` holds.
pub record LogEvent : Type 0 where
  pub level : Level
  pub filename : Str
  pub function_name : Str
  pub line : ℕ
  pub ms_elapse : ℕ
  pub timestamp : ℕ
  pub content : Str
  pub color_on : Bool

pub new_event : Level → Str → ℕ → Str → ℕ → ℕ → LogEvent
new_event level filename line function_name ms_elapse timestamp = record {
  level = level;
  filename = filename;
  function_name = function_name;
  line = line;
  ms_elapse = ms_elapse;
  timestamp = timestamp;
  content = [];
  color_on = false;
}

-- `vsnprintf` would print `printed` (`none`: it fails). The buffer has 256 bytes and gets the first 255
-- and a zero; `std::string(buf, len)` reads `len` bytes of it, and a read behind it is a fault.
pub format_event : Option Str → LogEvent → Option LogEvent
format_event none e = some e
format_event (some printed) e =
    if ltb 256 (length printed)
    then none
    else (if ltb 255 (length printed)
        then some (record e { content = e.content ++ (take 255 printed ++ 0 ∷ []) })
        else some (record e { content = e.content ++ printed }))
