-- ===== src/Logger/Registry/Delivery.antt =====
-- What `Logger::log` prints.
use lp_net.Prelude.{
  ℕ, zero, suc, ◌≡◌, ◌≢◌, refl, arith, List, [], ◌∷◌, ◌++◌, some, false, ◌&&◌, Bool-cases, inl, inr,
  if◌then◌else◌, load, store, map,
}
use lp_net.Text.{Str}
use lp_net.Logger.{LogEvent}
use lp_net.Logger.Format.{LogFormatter}
use lp_net.Logger.Appender.{Output, Disk, stdout, Appender, reaches}
use lp_net.Logger.Appender.Console.{written, log-console}
use lp_net.Logger.Registry.{Logger, World, log_each, log}

-- A console appender in the store, with its formatter.
pub record Screen (appenders : List Appender) : Type 0 where
  pub id : ℕ
  pub appender : Appender
  pub formatter : LogFormatter
  pub stored : load appenders id ≡ some appender
  pub to_stdout : appender.kind ≡ stdout
  pub formats : appender.formatter ≡ some formatter

abbrev pub ids : {appenders : List Appender} → List (Screen appenders) → List ℕ
ids = map (λ c. c.id)

store_same {ℓ} :
    {A : Type ℓ} → (xs : List A) (i : ℕ) (v : A) → load xs i ≡ some v → store xs i v ≡ some xs
store_same [] i v h = ground arith
store_same (x ∷ xs) zero v h = ground arith
store_same (x ∷ xs) (suc i) v h = rw (store_same xs i v h) refl

module _ (strftime : Str → ℕ → Str) (decimal : ℕ → Str) (disk : Disk) where
  abbrev pub all_written :
      {appenders : List Appender} → LogEvent → Str → List (Screen appenders) → List Output
  all_written e name [] = []
  all_written e name (c ∷ cs) =
      written strftime decimal c.appender c.formatter e name ++ all_written e name cs

  log_each-screens :
      (appenders : List Appender) (screens : List (Screen appenders)) (e : LogEvent) (name : Str)
      → e.color_on ≡ false
      → log_each strftime decimal disk appenders (ids screens) e name
        ≡ some (all_written e name screens, appenders, e)
  unfolding log_each
  log_each-screens appenders [] e name off = refl
  log_each-screens appenders (c ∷ cs) e name off =
      rw
        (
          c.stored,
          log-console strftime decimal disk c.appender c.formatter e name c.to_stdout c.formats off,
          store_same appenders c.id c.appender c.stored,
          log_each-screens appenders cs e name off,
        )
        refl

  -- A logger whose appenders write to the console prints an event once for each of them, in their
  -- order, where the event reaches the logger's level and the appender's; nothing else changes.
  pub log-screens :
      (n id : ℕ) (w : World) (l : Logger) (screens : List (Screen w.appenders)) (e : LogEvent)
      → load w.loggers id ≡ some l
      → l.appenders ≡ ids screens
      → screens ≢ []
      → e.color_on ≡ false
      → log strftime decimal disk (suc n) w id e
        ≡ some (if reaches e l.level then all_written e l.name screens else [], w, e)
  unfolding log
  log-screens n id w l [] e found shown some_screen off = absurd (some_screen refl)
  log-screens n id w l (c ∷ cs) e found shown some_screen off =
      elim (Bool-cases (reaches e l.level)) [
        | inl heard ↦
            rw (found, heard, shown, log_each-screens w.appenders (c ∷ cs) e l.name off) refl
        | inr silent ↦ rw (found, silent) refl
      ]

  -- A logger that has no appenders of its own hands an event that reaches its level to its root, which
  -- prints it once for each of its console appenders, under the root's name, where it also reaches the
  -- root's level.
  pub log-through_root :
      (n id r : ℕ) (w : World) (l root : Logger) (screens : List (Screen w.appenders))
      (e : LogEvent)
      → load w.loggers id ≡ some l
      → l.appenders ≡ []
      → l.root ≡ some r
      → load w.loggers r ≡ some root
      → root.appenders ≡ ids screens
      → screens ≢ []
      → e.color_on ≡ false
      → log strftime decimal disk (suc (suc n)) w id e
        ≡ some (
          if reaches e l.level && reaches e root.level then all_written e root.name screens else [],
          w,
          e,
        )
  unfolding log
  log-through_root n id r w l root screens e found bare up top shown some_screen off =
      elim (Bool-cases (reaches e l.level)) [
        | inl heard ↦
            rw (found, heard, bare, up) (log-screens n r w root screens e top shown some_screen off)
        | inr silent ↦ rw (found, silent) refl
      ]
