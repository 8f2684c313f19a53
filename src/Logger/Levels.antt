-- ===== src/Logger/Levels.antt =====
-- The names of the levels, and the bounds of `LogEvent::format`.
use lp_net.Prelude.{
  ℕ, ◌<◌, ◌≤◌, ◌≡◌, ◌≢◌, refl, arith, ◌++◌, none, some, false, length, ltb, lt→ltb,
}
use lp_net.Text.{Str, codes, same}
use lp_net.Text.Find.{eq_of_same}
use lp_net.Logger.{
  Level, unknown, debug, info, warn, error, fatal, to_string, from_string, LogEvent, format_event,
}

from-to : (l : Level) → from_string (to_string l) ≡ l
unfolding from_string to_string same
from-to unknown = refl
from-to debug = refl
from-to info = refl
from-to warn = refl
from-to error = refl
from-to fatal = refl

to-from : (s : Str) → from_string s ≢ unknown → to_string (from_string s) ≡ s
unfolding from_string to_string
to-from s known = ground (
  arith,
  eq_of_same s (codes "DEBUG"),
  eq_of_same s (codes "INFO"),
  eq_of_same s (codes "WARN"),
  eq_of_same s (codes "ERROR"),
  eq_of_same s (codes "FATAL"),
)

-- The text of a level reads back as the level; a text that reads as a level other than LUNKNOWN is the
-- text of that level.
pub level_texts :
    (l : Level) (s : Str)
    → from_string s ≢ unknown
    → (from_string (to_string l) ≡ l) × (to_string (from_string s) ≡ s)
level_texts l s known = (from-to l, to-from s known)

-- `LogEvent::format` appends a text of at most 255 bytes as it is, and reads past its buffer for one of
-- more than 256 bytes.
pub format_event_bounds :
    (short long : Str) (e : LogEvent)
    → length short ≤ 255
    → 256 < length long
    → (format_event (some short) e ≡ some (record e { content = e.content ++ short }))
      × (format_event (some long) e ≡ none)
unfolding format_event
format_event_bounds short long e fits past = (
  rw (not_above 256 (length short) (omega arith), not_above 255 (length short) fits) refl,
  rw (lt→ltb 256 (length long) past) refl,
)
  where
    not_above : (k n : ℕ) → n ≤ k → ltb k n ≡ false
    not_above k n h = ground arith
