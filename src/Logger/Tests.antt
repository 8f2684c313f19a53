-- ===== src/Logger/Tests.antt =====
-- Tests of the logger, and its theorems at concrete events and patterns.
use lp_net.Prelude.{◌<◌, length, arith, ℕ, ◌≡◌, refl, arith, [], ◌∷◌, none, some, true, false}
use lp_net.Text.{Str, codes, same}
use lp_net.Logger.{debug, info, warn, LogEvent}
use lp_net.Logger.Format.{message, char, log_level, LogFormatter, format, tokens_of, init}
use lp_net.Logger.Format.Pattern.{tokens_from, tokens_of-eq-tokens_from}
use lp_net.Logger.Format.RoundTrip.{init-pattern_of}
use lp_net.Logger.Appender.{Disk, FileState, console, stdout, Appender}
use lp_net.Logger.Appender.Files.{Failed, logs, logs-Failed}
use lp_net.Logger.Registry.{Logger, World, log, find_name, get_logger}
use lp_net.Logger.Registry.Lookup.{AllBelow, get_logger_lem}
use lp_net.Logger.Registry.Delivery.{Screen, log-screens}

-- What the surroundings print.
abbrev clock_text : Str → ℕ → Str
clock_text f t = f

abbrev digits : ℕ → Str
digits n = n ∷ []

abbrev hello : LogEvent
hello = record {
  level = info;
  filename = codes "main.cpp";
  function_name = codes "main";
  line = 7;
  ms_elapse = 12;
  timestamp = 1000;
  content = codes "hello";
  color_on = false;
}

abbrev plain : LogFormatter
plain = record { pattern = codes "$MESSAGE"; items = message ∷ []; err = []; has_error = false }

abbrev working : Disk
working = record { today = 9; today_str = codes "2024-01-09"; opens = true; writes = true }

abbrev broken : Disk
broken = record working { writes = false }

abbrev open_file : FileState
open_file = record {
  filename = codes "x";
  stream = some (codes "x_2024-01-09_00.log");
  good = true;
  last_access_time = 999;
  lines = 99999;
  cnt = 3;
  today = some 9;
}

abbrev screen : Appender
screen = record { kind = stdout; level = debug; has_formatter = true; formatter = some plain }

abbrev strict_screen : Appender
strict_screen = record screen { level = warn }

abbrev root : Logger
root = record {
  name = codes "root";
  level = debug;
  appenders = 0 ∷ 1 ∷ [];
  formatter = some plain;
  root = none;
}

abbrev net : Logger
net = record {
  name = codes "net";
  level = info;
  appenders = [];
  formatter = some plain;
  root = some 0;
}

abbrev two_loggers : World
two_loggers = record {
  loggers = root ∷ net ∷ [];
  appenders = screen ∷ strict_screen ∷ [];
  names = (codes "root", 0) ∷ (codes "net", 1) ∷ [];
  root_logger = 0;
}

abbrev first_screen : Screen (screen ∷ strict_screen ∷ [])
first_screen = record {
  id = 0;
  appender = screen;
  formatter = plain;
  stored = refl;
  to_stdout = refl;
  formats = refl;
}

abbrev second_screen : Screen (screen ∷ strict_screen ∷ [])
second_screen = record {
  id = 1;
  appender = strict_screen;
  formatter = plain;
  stored = refl;
  to_stdout = refl;
  formats = refl;
}

tokens_of-eq-tokens_from_example :
    tokens_of (codes "a$MESSAGE$$CHAR:x") ≡ tokens_from [] (codes "a$MESSAGE$$CHAR:x")
tokens_of-eq-tokens_from_example = tokens_of-eq-tokens_from (codes "a$MESSAGE$$CHAR:x")

init-pattern_of_example :
    init (codes "$LOG_LEVEL$CHAR: $MESSAGE")
    ≡ some (record {
      pattern = codes "$LOG_LEVEL$CHAR: $MESSAGE";
      items = log_level ∷ char (codes " ") ∷ message ∷ [];
      err = [];
      has_error = false;
    })
init-pattern_of_example =
    init-pattern_of log_level (char (codes " ") ∷ message ∷ []) tt
      ((λ e. ground arith, ground arith), ground arith)

logs-Failed_example :
    (s : FileState) × (logs clock_text digits debug plain
        (codes "net")
        (record open_file { good = false })
        ((working, hello) ∷ [])
      ≡ some ([], s))
    × Failed s
logs-Failed_example =
    logs-Failed clock_text digits debug plain (codes "net") ((working, hello) ∷ [])
      (record open_file { good = false }) (record { left_open = λ e. ground arith; bad = refl })

abbrev in_color : Str
in_color = format clock_text digits plain.items (record hello { color_on = true }) (codes "root")

log-screens_example :
    log clock_text digits working 1 two_loggers 0 hello
    ≡ some ((console, in_color) ∷ [], two_loggers, hello)
log-screens_example =
    log-screens clock_text digits working 0 0 two_loggers root (first_screen ∷ second_screen ∷ [])
      hello refl refl (λ e. ground arith) refl

get_logger_lem_example :
    (id : ℕ) × (w : World) × (get_logger two_loggers (codes "db") ≡ some (id, w))
    × (id < length w.loggers)
    × AllBelow (length w.loggers) w.names
    × (get_logger w (codes "db") ≡ some (id, w))
    × (find_name (codes "net") w.names ≡ find_name (codes "net") two_loggers.names)
unfolding same AllBelow
get_logger_lem_example =
    get_logger_lem two_loggers (codes "db") (codes "net") refl (omega arith, (omega arith, tt))
