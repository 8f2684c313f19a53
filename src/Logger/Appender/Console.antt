-- ===== src/Logger/Appender/Console.antt =====
-- What a `StdoutLogAppender` writes.
use lp_net.Prelude.{
  ℕ, ◌≡◌, refl, ap, ◌∙◌, sym, List, [], ◌∷◌, some, true, false, Bool-cases, inl, inr, if◌then◌else◌,
  ◌>>=◌,
}
use lp_net.Text.{Str}
use lp_net.Logger.{LogEvent}
use lp_net.Logger.Format.{LogFormatter, format}
use lp_net.Logger.Appender.{
  Output, Disk, console, stdout, Appender, reaches, stdout_log, log_kind, log,
}

module _ (strftime : Str → ℕ → Str) (decimal : ℕ → Str) where
  -- The text of the formatter in colour, if the event reaches the level.
  abbrev pub written : Appender → LogFormatter → LogEvent → Str → List Output
  written a f e name =
      if reaches e a.level
      then (console, format strftime decimal f.items (record e { color_on = true }) name) ∷ []
      else []

  stdout_log_lem :
      (a : Appender) (f : LogFormatter) (e : LogEvent) (name : Str)
      → e.color_on ≡ false
      → stdout_log strftime decimal a.level (some f) e name ≡ some (written a f e name, e)
  unfolding stdout_log
  stdout_log_lem a f e name off = elim (Bool-cases (reaches e a.level)) [
    | inl heard ↦ rw heard (
        ap
          (λ b. some (
            (console, format strftime decimal f.items (record e { color_on = true }) name) ∷ [],
            record e { color_on = b },
          ))
          (sym off))
    | inr silent ↦ rw silent refl
  ]

  pub log-console :
      (disk : Disk) (a : Appender) (f : LogFormatter) (e : LogEvent) (name : Str)
      → a.kind ≡ stdout
      → a.formatter ≡ some f
      → e.color_on ≡ false
      → log strftime decimal disk a e name ≡ some (written a f e name, a, e)
  unfolding log log_kind
  log-console disk a f e name kind formats off =
      ap (λ k. log_kind strftime decimal disk k a e name) kind
      ∙ ap (λ o. o >>= λ out. some (out.0, a, out.1))
          (ap (λ o. stdout_log strftime decimal a.level o e name) formats
            ∙ stdout_log_lem a f e name off)
