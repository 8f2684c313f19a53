-- ===== src/Logger/Appender/Files.antt =====
-- The counters of a `FileLogAppender` and the names of its files.
use lp_net.Prelude.{
  ℕ, ◌<◌, ◌≡◌, ◌≢◌, refl, arith, List, [], ◌∷◌, ◌++◌, Option, none, some, false, Bool-cases, inl,
  inr, ◌>>=◌,
}
use lp_net.Text.{Str}
use lp_net.Logger.{Level, LogEvent}
use lp_net.Logger.Format.{LogFormatter, format}
use lp_net.Logger.Appender.{
  Output, Disk, FileState, open_stream, get_whole_filename, reopen, refresh, write_line, file_log,
  reaches,
}

pub record IsBounded (s : FileState) : Type 0 where
  pub few_lines : s.lines < 100000
  pub small_cnt : s.cnt < 256

-- The file is open, and a call on its stream has failed.
pub record Failed (s : FileState) : Type 0 where
  pub left_open : s.stream ≢ none
  pub bad : s.good ≡ false

write_line-Failed :
    (disk : Disk) (s : FileState) (line : Str)
    → Failed s
    → ((write_line disk s line).0 ≡ []) × Failed (write_line disk s line).1
unfolding write_line
write_line-Failed disk s line f = ground arith

module _ (strftime : Str → ℕ → Str) (decimal : ℕ → Str) where
  refresh-Failed :
      (disk : Disk) (now : ℕ) (s : FileState)
      → Failed s
      → Failed (refresh strftime decimal disk now s)
  unfolding refresh reopen open_stream get_whole_filename
  refresh-Failed disk now s f = ground arith

  pub logs :
      Level
      → LogFormatter
      → Str
      → FileState
      → List (Disk × LogEvent)
      → Option (List Output × FileState)
  logs level f logger s [] = some ([], s)
  logs level f logger s ((disk, e) ∷ es) = do
    (out, s') ← file_log strftime decimal disk level (some f) s e logger
    (outs, s'') ← logs level f logger s' es
    some (out ++ outs, s'')

  -- Once a call on the stream of a file appender has failed while the file was open, nothing that is
  -- logged later is written, however well the disk works by then.
  pub logs-Failed :
      (level : Level) (f : LogFormatter) (logger : Str) (es : List (Disk × LogEvent))
      (s : FileState)
      → Failed s
      → (s' : FileState) × (logs level f logger s es ≡ some ([], s')) × Failed s'
  unfolding logs file_log
  logs-Failed level f logger [] s b = (s, refl, b)
  logs-Failed level f logger ((disk, e) ∷ es) s b = elim (Bool-cases (reaches e level)) [
    | inl heard ↦
        let (silent, b1) =
          write_line-Failed disk (refresh strftime decimal disk e.timestamp s)
            (format strftime decimal f.items e logger) (refresh-Failed disk e.timestamp s b) in
        let (s', run, b') = logs-Failed level f logger es _ b1 in
        (s', rw (heard, silent, run) refl, b')
    | inr silent ↦
        let (s', run, b') = logs-Failed level f logger es s b in (s', rw (silent, run) refl, b')
  ]
