-- ===== src/Logger/Registry.antt =====
-- `Logger`, `LogManager` and `LogIniter`. Loggers and appenders are shared objects: they stand in two
-- stores, and a pointer is an index. Using a pointer that the stores do not hold is a fault, `none`.
pub mod Delivery
pub mod Lookup
use lp_net.Prelude.{
  ℕ, zero, suc, ◌+◌, List, [], ◌∷◌, ◌++◌, Option, none, some, Bool, true, false, not, leb, ◌==◌,
  if◌then◌else◌, ◌>>=◌, length, load, store,
}
use lp_net.Text.{Str, codes, same}
use lp_net.Logger.{Level, debug, rank, from_string, LogEvent}
use lp_net.Logger.Format.{LogFormatter}
use lp_net.Logger.Format
use lp_net.Logger.Appender.{
  Output, Disk, Appender, is_some, set_formatter, set_level, reaches, new_stdout_appender,
  new_file_appender,
}
use lp_net.Logger.Appender

pub record Logger : Type 0 where
  pub name : Str
  pub level : Level
  pub appenders : List ℕ
  pub formatter : Option LogFormatter
  pub root : Option ℕ

-- `loggers_` and `root_` of the manager are `names` and `root_logger`.
pub record World : Type 0 where
  pub loggers : List Logger
  pub appenders : List Appender
  pub names : List (Str × ℕ)
  pub root_logger : ℕ

abbrev pub default_pattern : Str
default_pattern =
    codes "$DATETIME{%Y-%m-%d %H:%M:%S}"
    ++ (codes "$CHAR:"
        ++ (9
            ∷ (codes "$LOG_NAME$CHAR:[$LOG_LEVEL$CHAR:]$CHAR:"
                ++ (9
                    ∷ (codes "$FILENAME$CHAR::$LINE$CHAR:"
                        ++ (9
                            ∷ (codes "$FUNCTION_NAME$CHAR:"
                                ++ (9
                                    ∷ (codes "$TOTAL_MS$CHAR:"
                                        ++ (10 ∷ (codes "$MESSAGE$CHAR:" ++ 10 ∷ [])))))))))))

-- Logger(name)
pub new_logger : Str → Option Logger
new_logger name = do
  f ← Format.init default_pattern
  some (record { name = name; level = debug; appenders = []; formatter = some f; root = none })

pub update_logger : World → ℕ → (Logger → Logger) → Option World
update_logger w id change = do
  l ← load w.loggers id
  loggers ← store w.loggers id (change l)
  some (record w { loggers = loggers })

pub new_appender : World → Appender → ℕ × World
new_appender w a = (length w.appenders, record w { appenders = w.appenders ++ a ∷ [] })

-- Logger::addAppender
pub add_appender : World → ℕ → ℕ → Option World
add_appender w id aid = do
  l ← load w.loggers id
  a ← load w.appenders aid
  appenders ← store w.appenders aid (if is_some a.formatter then a else set_formatter l.formatter a)
  update_logger (record w { appenders = appenders }) id
      (λ l. record l { appenders = l.appenders ++ aid ∷ [] })

-- std::find and erase
pub erase_id : ℕ → List ℕ → List ℕ
erase_id aid [] = []
erase_id aid (x ∷ ids) = if x == aid then ids else x ∷ erase_id aid ids

pub remove_appender : World → ℕ → ℕ → Option World
remove_appender w id aid =
    update_logger w id (λ l. record l { appenders = erase_id aid l.appenders })

pub clear_appenders : World → ℕ → Option World
clear_appenders w id = update_logger w id (λ l. record l { appenders = [] })

pub set_logger_level : World → ℕ → Level → Option World
set_logger_level w id level = update_logger w id (λ l. record l { level = level })

pub set_logger_formatter : World → ℕ → Option LogFormatter → Option World
set_logger_formatter w id f = update_logger w id (λ l. record l { formatter = f })

pub set_pattern : World → ℕ → Str → Option World
set_pattern w id pattern = do f ← Format.init pattern; set_logger_formatter w id (some f)

module _ (strftime : Str → ℕ → Str) (decimal : ℕ → Str) (disk : Disk) where
  -- The loop over the appenders of a logger.
  pub log_each :
      List Appender → List ℕ → LogEvent → Str → Option (List Output × List Appender × LogEvent)
  log_each appenders [] e name = some ([], appenders, e)
  log_each appenders (aid ∷ ids) e name = do
    a ← load appenders aid
    (out, a', e') ← Appender.log strftime decimal disk a e name
    appenders' ← store appenders aid a'
    (outs, appenders'', e'') ← log_each appenders' ids e' name
    some (out ++ outs, appenders'', e'')

  -- Logger::log, through at most `fuel` loggers.
  pub log : ℕ → World → ℕ → LogEvent → Option (List Output × World × LogEvent)
  log zero w id e = none
  log (suc fuel) w id e = load w.loggers id >>= λ l.
      if not (reaches e l.level) then some ([], w, e) else elim l.appenders [
        | aid ∷ ids ↦
            (log_each w.appenders (aid ∷ ids) e l.name >>= λ out.
            some (out.0, record w { appenders = out.1 }, out.2))
        | [] ↦ elim l.root [ none ↦ some ([], w, e) | some root ↦ log fuel w root e ]
      ]

-- LogManager::LogManager
pub new_manager : Option World
new_manager = do
  root ← new_logger (codes "root")
  add_appender
      (record {
        loggers = root ∷ [];
        appenders = new_stdout_appender ∷ [];
        names = (codes "root", 0) ∷ [];
        root_logger = 0;
      })
      0 0

pub find_name : Str → List (Str × ℕ) → Option ℕ
find_name name [] = none
find_name name (entry ∷ names) = if same name entry.0 then some entry.1 else find_name name names

-- `getLogger` from what the map holds for the name.
pub found_or_new : World → Str → Option ℕ → Option (ℕ × World)
found_or_new w name (some id) = some (id, w)
found_or_new w name none = do
  l ← new_logger name
  some (
    length w.loggers,
    record w {
      loggers = w.loggers ++ record l { root = some w.root_logger } ∷ [];
      names = w.names ++ (name, length w.loggers) ∷ [];
    },
  )

-- LogManager::getLogger
pub get_logger : World → Str → Option (ℕ × World)
get_logger w name = found_or_new w name (find_name name w.names)

-- What `LogIniter::init` reads of a YAML node; `none` is a key that is not defined.
pub record AppenderConf : Type 0 where
  pub type : Option Str
  pub file : Option Str
  pub level : Option Str

pub record Conf : Type 0 where
  pub name : Option Str
  pub level : Option Str
  pub formatter : Option Str
  pub appenders : Option (List AppenderConf)

-- The level of an appender: its own text only says whether the text of the logger is read, and reading
-- one that is not defined throws.
pub appender_level : Conf → AppenderConf → Option Level
appender_level conf node =
    if is_some node.level then (conf.level >>= λ text. some (from_string text)) else some debug

pub configured : Conf → AppenderConf → LogFormatter → Appender → Option Appender
configured conf node f a = do
  level ← appender_level conf node
  some (set_formatter (some f) (set_level level a))

module _ (strftime : Str → ℕ → Str) (decimal : ℕ → Str) (disk : Disk) where
  -- The appender that a node describes, if it describes one.
  pub make_appender : Conf → AppenderConf → LogFormatter → Str → Option (Option Appender)
  make_appender conf node f type =
      if same type (codes "StdoutLogAppender")
      then (configured conf node f new_stdout_appender >>= λ a. some (some a))
      else if same type (codes "FileLogAppender")
      then elim node.file [
        | none ↦ some none
        | some name ↦
            (configured conf node f (new_file_appender strftime decimal disk name) >>= λ a.
            some (some a))
      ]
      else some none

  pub attach : World → ℕ → Option Appender → Option World
  attach w id none = some w
  attach w id (some a) = let (aid, w') = new_appender w a in add_appender w' id aid

  pub init_appenders : World → ℕ → Conf → LogFormatter → List AppenderConf → Option World
  init_appenders w id conf f [] = some w
  init_appenders w id conf f (node ∷ nodes) = do
    type ← node.type
    made ← make_appender conf node f type
    w' ← attach w id made
    init_appenders w' id conf f nodes

  pub init_logger : World → ℕ → Conf → Option World
  init_logger w id conf = do
    w1 ← set_logger_level w id (elim conf.level [ some text ↦ from_string text | none ↦ debug ])
    f ← Format.init (elim conf.formatter [ some pattern ↦ pattern | none ↦ default_pattern ])
    w2 ← set_logger_formatter w1 id (some f)
    init_appenders w2 id conf f (elim conf.appenders [ some nodes ↦ nodes | none ↦ [] ])

  -- LogIniter::init; `none` for a null node.
  pub init : World → ℕ → Option Conf → Option World
  init w id none = some w
  init w id (some conf) = do
    l ← load w.loggers id
    name ← conf.name
    if same l.name name then init_logger w id conf else some w

  -- LogIniter::getLogger
  pub get_configured_logger : World → Str → Level → Str → Bool → Str → Option (ℕ × World)
  get_configured_logger w name level pattern write2file filename = do
    (id, w1) ← get_logger w name
    w2 ← set_logger_level w1 id level
    w3 ← if same pattern default_pattern then some w2 else set_pattern w2 id pattern
    let a =
        if write2file then new_file_appender strftime decimal disk filename else new_stdout_appender
    let made = new_appender w3 a
    w4 ← add_appender made.1 id made.0
    some (id, w4)
