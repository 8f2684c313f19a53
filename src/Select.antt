-- ===== src/Select.antt =====
-- net/SelectManager.h and SelectManager.cpp: the table of channels, the three sets of descriptors and one
-- round of `select`, which is a parameter. A channel is an index into the channels `S` knows, and
-- `interest` gives the bits that it asks for at the moment of the call.
pub mod Round
mod Tests
use Prim.Native.Nat.{bit_or}
use lp_net.Prelude.{
  ℕ, ◌+◌, ◌≤◌, List, [], ◌∷◌, ◌++◌, Option, none, some, Bool, true, false, not, ◌&&◌, ◌||◌, ltb,
  leb, ◌==◌, if◌then◌else◌, ◌>>=◌, map,
}
use lp_net.Channel.{Channel, event_in, event_out, event_hup, raised, handle_with}

-- fd_set
abbrev pub FdSet : Type 0
FdSet = ℕ → Bool

-- FD_ZERO
abbrev pub fd_zero : FdSet
fd_zero x = false

-- FD_SET
abbrev pub fd_set : ℕ → FdSet → FdSet
fd_set fd s x = if x == fd then true else s x

-- The size of an `fd_set`: setting a larger descriptor writes behind it.
abbrev pub fd_setsize : ℕ
fd_setsize = 1024

pub record SelectManager : Type 0 where
  pub max_fd : ℕ
  pub fd_read_backup : FdSet
  pub fd_write_backup : FdSet
  pub fd_exp_backup : FdSet
  pub is_fd_read_reset : Bool
  pub is_fd_write_reset : Bool
  pub is_fd_exp_reset : Bool
  pub channels : List (ℕ × ℕ)

-- channels_.find(fd) != channels_.end()
pub has_fd : ℕ → List (ℕ × ℕ) → Bool
has_fd fd [] = false
has_fd fd (entry ∷ channels) = if entry.0 == fd then true else has_fd fd channels

-- channels_.erase(fd)
pub erase_fd : ℕ → List (ℕ × ℕ) → List (ℕ × ℕ)
erase_fd fd [] = []
erase_fd fd (entry ∷ channels) = if entry.0 == fd then channels else entry ∷ erase_fd fd channels

pub reset_all : SelectManager → SelectManager
reset_all m = record m { is_fd_read_reset = true; is_fd_write_reset = true; is_fd_exp_reset = true }

-- The channel `id` of the descriptor, whose interest is `events`.
pub update_channel : SelectManager → ℕ → ℕ → ℕ → SelectManager
update_channel m fd id events =
    if has_fd fd m.channels
    then (if events == 0
        then record (reset_all m) { channels = erase_fd fd m.channels }
        else record m { is_fd_write_reset = true })
    else (if not (events == 0)
        then record (reset_all m) { channels = m.channels ++ (fd, id) ∷ [] }
        else m)

pub remove_channel : SelectManager → ℕ → SelectManager
remove_channel m fd =
    if has_fd fd m.channels then record (reset_all m) { channels = erase_fd fd m.channels } else m

-- The constructor, with the channel that wakes the manager up; `garbage` is what `max_fd_` holds.
pub init : ℕ → ℕ → ℕ → ℕ → SelectManager
init garbage fd id events =
    update_channel
      (record {
        max_fd = garbage;
        fd_read_backup = fd_zero;
        fd_write_backup = fd_zero;
        fd_exp_backup = fd_zero;
        is_fd_read_reset = false;
        is_fd_write_reset = false;
        is_fd_exp_reset = false;
        channels = [];
      })
      fd id events

pub record Sets : Type 0 where
  pub read : FdSet
  pub write : FdSet
  pub exp : FdSet
  pub max_fd : ℕ

-- One round of the loop that fills the sets.
pub collect_one : SelectManager → ℕ → ℕ → Sets → Sets
collect_one m fd events s = record {
  read = if m.is_fd_read_reset && raised events event_in then fd_set fd s.read else s.read;
  write = if m.is_fd_write_reset && raised events event_out then fd_set fd s.write else s.write;
  exp = if m.is_fd_exp_reset then fd_set fd s.exp else s.exp;
  max_fd = if m.is_fd_exp_reset && ltb s.max_fd fd then fd else s.max_fd;
}

-- Whether the round sets a bit.
pub sets_bit : SelectManager → ℕ → Bool
sets_bit m events =
    m.is_fd_exp_reset
    || ((m.is_fd_read_reset && raised events event_in)
        || (m.is_fd_write_reset && raised events event_out))

module _ (interest : ℕ → ℕ) where
  pub collect : SelectManager → List (ℕ × ℕ) → Sets → Option Sets
  collect m [] s = some s
  collect m ((fd, id) ∷ channels) s =
      let rest = collect m channels (collect_one m fd (interest id) s) in
      if leb fd_setsize fd && sets_bit m (interest id) then none else rest

  pub any_reset : SelectManager → Bool
  any_reset m = m.is_fd_read_reset || (m.is_fd_write_reset || m.is_fd_exp_reset)

  -- The sets that are given to `select`, and the manager that keeps copies of them.
  pub keep_sets : SelectManager → Sets → Sets × SelectManager
  keep_sets m s =
      let read = if m.is_fd_read_reset then s.read else m.fd_read_backup in
      let write = if m.is_fd_write_reset then s.write else m.fd_write_backup in
      let exp = if m.is_fd_exp_reset then s.exp else m.fd_exp_backup in
      (
        record { read = read; write = write; exp = exp; max_fd = s.max_fd },
        record m {
          max_fd = s.max_fd;
          fd_read_backup = read;
          fd_write_backup = write;
          fd_exp_backup = exp;
          is_fd_read_reset = false;
          is_fd_write_reset = false;
          is_fd_exp_reset = false;
        },
      )

  pub prepare : SelectManager → Option (Sets × SelectManager)
  prepare m =
      let start : Sets = record {
        read = fd_zero;
        write = fd_zero;
        exp = fd_zero;
        max_fd = if m.is_fd_exp_reset then 0 else m.max_fd;
      } in
      (if any_reset m then collect m m.channels start else some start) >>= λ s. some (keep_sets m s)

-- What `select` answers: it fails, by a signal or not, or it leaves the sets of the descriptors that are
-- ready and their number.
pub data Answer : Type 0 where
  interrupted failed : Answer
  ready : ℕ → Sets → Answer

abbrev pub flag : Bool → ℕ → ℕ → ℕ
flag true bit events = bit_or events bit
flag false bit events = events

pub events_of : Sets → ℕ → ℕ
events_of s fd =
    flag (s.exp fd) event_hup (flag (s.write fd) event_out (flag (s.read fd) event_in 0))

-- The loop that fills `event_list`: each entry goes to its front.
pub gather : Sets → List (ℕ × ℕ) → List (ℕ × ℕ) → List (ℕ × ℕ)
gather s [] out = out
gather s ((fd, id) ∷ channels) out =
    let events = events_of s fd in
    let with_it = gather s channels ((id, events) ∷ out) in
    let without = gather s channels out in if events == 0 then without else with_it

abbrev pub timeout : ℕ → ℕ
timeout ms = if ms == 0 then 10 else ms

module _ {ℓ} {S : Type ℓ} (select : ℕ → Sets → ℕ → Answer) (channel : ℕ → Channel S) where
  -- The loop over `event_list`.
  pub dispatch : List (ℕ × ℕ) → S → Option S
  dispatch [] s = some s
  dispatch ((id, events) ∷ due) s = handle_with (channel id) events s >>= dispatch due

  pub answered : SelectManager → Answer → S → Option (Bool × S × SelectManager)
  answered m interrupted s = some (true, s, m)
  answered m failed s = some (false, s, m)
  answered m (ready count sets) s =
      dispatch (if count == 0 then [] else gather sets m.channels []) s >>= λ s'. some (true, s', m)

  -- handleEvent, with a timeout that is not negative; with no channel it sleeps.
  pub handle_event : SelectManager → ℕ → S → Option (Bool × S × SelectManager)
  handle_event m ms s = elim m.channels [
    | [] ↦ some (true, s, m)
    | entry ∷ entries ↦
        (prepare (λ id. (channel id).events) m >>= λ out.
        answered out.1 (select (out.0.max_fd + 1) out.0 (timeout ms)) s)
  ]
