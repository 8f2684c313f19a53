-- ===== src/Channel.antt =====
-- net/Channel.h: the interest bits of a descriptor and the dispatch of its events. `events_` is an `int`:
-- its bit pattern, below 2 ^ 32. A callback changes a state `S`; calling one that was never set throws,
-- which is `none`.
pub mod Interest
pub mod Dispatch
mod Tests
use Prim.Native.Nat.{bit_and, bit_or}
use lp_net.Prelude.{ℕ, ◌-◌, ◌^◌, Option, none, some, Bool, not, ◌==◌, if◌then◌else◌, ◌>>=◌}

abbrev pub event_in : ℕ
event_in = 1

abbrev pub event_out : ℕ
event_out = 4

abbrev pub event_err : ℕ
event_err = 8

abbrev pub event_hup : ℕ
event_hup = 16

pub record Channel {ℓ} (S : Type ℓ) : Type ℓ where
  pub read_cb : Option (S → S)
  pub write_cb : Option (S → S)
  pub close_cb : Option (S → S)
  pub error_cb : Option (S → S)
  pub events : ℕ

-- (events & flag) as a condition
unfoldable pub raised : ℕ → ℕ → Bool
raised events flag = not (bit_and events flag == 0)

-- ~flag
pub complement : ℕ → ℕ
complement flag = 2 ^ 32 - 1 - flag

module _ {ℓ} {S : Type ℓ} where
  unfoldable pub call : Option (S → S) → S → Option S
  call none s = none
  call (some cb) s = some (cb s)

  unfoldable pub handle_with : Channel S → ℕ → S → Option S
  handle_with c events s = do
    s1 ← if raised events event_in then call c.read_cb s else some s
    s2 ← if raised events event_out then call c.write_cb s1 else some s1
    if raised events event_hup
        then call c.close_cb s2
        else (if raised events event_err then call c.error_cb s2 else some s2)

  pub handle_event : Channel S → S → Option S
  handle_event c s = handle_with c c.events s

  pub set_read_callback : Channel S → (S → S) → Channel S
  set_read_callback c cb = record c { read_cb = some cb }

  pub set_write_callback : Channel S → (S → S) → Channel S
  set_write_callback c cb = record c { write_cb = some cb }

  pub set_close_callback : Channel S → (S → S) → Channel S
  set_close_callback c cb = record c { close_cb = some cb }

  pub set_error_callback : Channel S → (S → S) → Channel S
  set_error_callback c cb = record c { error_cb = some cb }

  pub enable_reading : Channel S → Channel S
  enable_reading c = record c { events = bit_or c.events event_in }

  unfoldable pub enable_writing : Channel S → Channel S
  enable_writing c = record c { events = bit_or c.events event_out }

  pub disable_reading : Channel S → Channel S
  disable_reading c = record c { events = bit_and c.events (complement event_in) }

  unfoldable pub disable_writing : Channel S → Channel S
  disable_writing c = record c { events = bit_and c.events (complement event_out) }

  pub is_none_event : Channel S → Bool
  is_none_event c = c.events == 0

  pub is_reading : Channel S → Bool
  is_reading c = raised c.events event_in

  pub is_writing : Channel S → Bool
  is_writing c = raised c.events event_out
