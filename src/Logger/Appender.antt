-- ===== src/Logger/Appender.antt =====
-- `LogAppender`, `StdoutLogAppender` and `FileLogAppender`. What an appender writes is its output: the
-- console or a file, and the text. A null formatter that is used is a fault.
pub mod Console
pub mod Files
use lp_net.Prelude.{
  ℕ, ◌+◌, ◌%◌, ◌^◌, List, [], ◌∷◌, ◌++◌, Option, none, some, Bool, true, false, ◌&&◌, leb, ltb,
  ◌==◌, if◌then◌else◌, ◌>>=◌, add_size,
}
use lp_net.Text.{Str, codes}
use lp_net.Logger.{Level, debug, rank, LogEvent}
use lp_net.Logger.Format.{LogFormatter, format}

pub data Sink : Type 0 where
  console : Sink
  log_file : Str → Sink

abbrev pub Output : Type 0
Output = Sink × Str

-- What a `FileLogAppender` finds outside: the day as a number and as a text, and whether the file can be
-- opened and written.
pub record Disk : Type 0 where
  pub today : ℕ
  pub today_str : Str
  pub opens : Bool
  pub writes : Bool

-- `stream` is the file that is open, and `good` says that no call on the stream has failed since it was
-- opened; `today` has no value at first.
pub record FileState : Type 0 where
  pub filename : Str
  pub stream : Option Str
  pub good : Bool
  pub last_access_time : ℕ
  pub lines : ℕ
  pub cnt : ℕ
  pub today : Option ℕ

abbrev pub max_lines : ℕ
max_lines = 100000

pub data Kind : Type 0 where
  stdout : Kind
  file : FileState → Kind

pub record Appender : Type 0 where
  pub kind : Kind
  pub level : Level
  pub has_formatter : Bool
  pub formatter : Option LogFormatter

abbrev pub is_some {ℓ} : {A : Type ℓ} → Option A → Bool
is_some none = false
is_some (some a) = true

pub set_formatter : Option LogFormatter → Appender → Appender
set_formatter f a = record a { formatter = f; has_formatter = is_some f }

pub set_level : Level → Appender → Appender
set_level l a = record a { level = l }

-- pEvent->getLevel() >= level_
abbrev pub reaches : LogEvent → Level → Bool
reaches e l = leb (rank l) (rank e.level)

-- today == today_
pub same_day : ℕ → Option ℕ → Bool
same_day today none = false
same_day today (some d) = today == d

pub new_stdout_appender : Appender
new_stdout_appender = record {
  kind = stdout;
  level = debug;
  has_formatter = false;
  formatter = none;
}

pub count_line : FileState → FileState
count_line s =
    if leb max_lines (add_size s.lines 1)
    then record s { lines = 0; cnt = (s.cnt + 1) % 2 ^ 8 }
    else record s { lines = add_size s.lines 1 }

pub open_stream : Disk → Str → FileState → Bool × FileState
open_stream disk name s = elim s.stream [
  | some other ↦ (true, record s { good = false })
  | none ↦
      if disk.opens
      then (true, record s { stream = some name; good = true })
      else (false, record s { good = false })
]

-- The stream takes the text if it is good and open and the disk does.
pub write_line : Disk → FileState → Str → List Output × FileState
write_line disk s line = elim s.stream [
  | none ↦ ([], record s { good = false })
  | some name ↦
      if s.good && disk.writes
      then ((log_file name, line) ∷ [], count_line s)
      else ([], record s { good = false })
]

module _ (strftime : Str → ℕ → Str) (decimal : ℕ → Str) where
  pub get_whole_filename : Disk → FileState → Str × FileState
  get_whole_filename disk s =
      let s' =
        if same_day disk.today s.today then s else record s { today = some disk.today; cnt = 0 } in
      (
        s'.filename
            ++ (codes "_"
                ++ (disk.today_str
                    ++ (codes "_"
                        ++ ((if ltb s'.cnt 10 then codes "0" else [])
                            ++ (decimal s'.cnt ++ codes ".log"))))),
        s',
      )

  -- `close` is called on a good stream only, and a stream that is still open cannot be opened again.
  pub reopen : Disk → FileState → Bool × FileState
  reopen disk s =
      let (name, s') = get_whole_filename disk s in
      open_stream disk name (record s' { stream = if s'.good then none else s'.stream })

  pub new_file_appender : Disk → Str → Appender
  new_file_appender disk filename =
      let start : FileState = record {
        filename = filename;
        stream = none;
        good = true;
        last_access_time = 0;
        lines = 0;
        cnt = 0;
        today = none;
      } in
      record {
        kind = file (reopen disk start).1;
        level = debug;
        has_formatter = false;
        formatter = none;
      }

  -- Three milliseconds after the last time, the file is opened again.
  pub refresh : Disk → ℕ → FileState → FileState
  refresh disk now s =
      if leb (add_size s.last_access_time 3) now
      then record (reopen disk s).1 { last_access_time = now }
      else s

  -- FileLogAppender::log
  pub file_log :
      Disk
      → Level
      → Option LogFormatter
      → FileState
      → LogEvent
      → Str
      → Option (List Output × FileState)
  file_log disk level formatter s e logger =
      if reaches e level
      then (formatter >>= λ f.
          some (
            write_line disk (refresh disk e.timestamp s)
              (format strftime decimal f.items e logger)))
      else some ([], s)

  -- StdoutLogAppender::log, with the event that it leaves.
  pub stdout_log : Level → Option LogFormatter → LogEvent → Str → Option (List Output × LogEvent)
  stdout_log level formatter e logger =
      if reaches e level
      then (formatter >>= λ f. some (
        (console, format strftime decimal f.items (record e { color_on = true }) logger) ∷ [],
        record e { color_on = false },
      ))
      else some ([], e)

  pub log_kind :
      Disk → Kind → Appender → LogEvent → Str → Option (List Output × Appender × LogEvent)
  log_kind disk stdout a e logger = do
    (out, e') ← stdout_log a.level a.formatter e logger
    some (out, a, e')
  log_kind disk (file s) a e logger = do
    (out, s') ← file_log disk a.level a.formatter s e logger
    some (out, record a { kind = file s' }, e)

  -- The virtual `log`.
  pub log : Disk → Appender → LogEvent → Str → Option (List Output × Appender × LogEvent)
  log disk a e logger = log_kind disk a.kind a e logger
