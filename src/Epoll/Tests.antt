-- ===== src/Epoll/Tests.antt =====
-- Tests of `EpollManager`, and its theorems at concrete managers.
use lp_net.Prelude.{
  ℕ, ◌==◌, if◌then◌else◌, false, ◌≡◌, refl, List, [], ◌∷◌, inl, Option, none, some, Bool, true,
  ◌>>=◌,
}
use lp_net.RingBuffer.{locking}
use lp_net.Channel.{raised}
use lp_net.Epoll.{
  add, del, Ctl, ready, interrupted, EpollManager, init, lock, find, assign, update_channel,
  remove_channel, set_events, request_of, after_ctl, control_locked, control, World, Callbacks,
  after_wait, handle_event,
}
use lp_net.Epoll.Removal.{delete_never_returns, removal_in_callback}
use lp_net.Epoll.Descriptors.{
  updates, controls, operate, operate_all, IsData, IsAnswer, any_event_faults,
}

-- A kernel that accepts everything.
abbrev accepts : List Ctl → Ctl → Bool
accepts calls c = true

-- The manager that knows channel 1 under descriptor 7, which was added to the kernel's list.
abbrev one_channel : EpollManager
one_channel = record {
  held = false;
  channels = (7, some 1) ∷ [];
  calls = record { op = add; fd = 7; events = 1; user_data = 0 } ∷ [];
  interest = λ x. if x == 1 then 1 else 0;
}

-- A read callback that makes the manager forget descriptor 7.
abbrev closes : World ℕ → Option (World ℕ)
closes w = remove_channel w.manager 7 >>= λ e. some (record w { manager = e })

abbrev callbacks : ℕ → Callbacks ℕ
callbacks id = record { on_read = some closes; on_write = none; on_close = none; on_error = none }

abbrev world : World ℕ
world = record { manager = one_channel; client = 0 }

-- A channel that was never given to `updateChannel` cannot be added.
unknown : control accepts (init (λ x. 0)) 7 add 1 ≡ none
unfolding control control_locked init lock locking after_ctl set_events request_of find
unknown = refl

-- A signal ends the round, and it counts as a success.
signal : handle_event callbacks (λ calls. interrupted) world ≡ some (true, world)
unfolding handle_event after_wait lock locking
signal = refl

delete_never_returns_example : control accepts one_channel 7 del 0 ≡ none
delete_never_returns_example = delete_never_returns accepts one_channel 7 0 refl

removal_in_callback_example : handle_event callbacks (λ calls. ready ((7, 1) ∷ [])) world ≡ none
unfolding find raised
removal_in_callback_example =
    removal_in_callback callbacks (λ calls. ready ((7, 1) ∷ [])) world 7 1 7 1 [] closes
      (λ w e. some (record w { manager = e })) refl refl refl refl (λ w'. refl)

made_one :
    operate_all accepts (init (λ x. 0)) (updates 7 1 ∷ controls 7 add 1 ∷ []) ≡ some one_channel
unfolding operate_all operate update_channel control control_locked init lock locking after_ctl
    set_events request_of find assign
made_one = refl

any_event_faults_example : handle_event callbacks (λ calls. ready ((0, 1) ∷ [])) world ≡ none
unfolding IsAnswer IsData find
any_event_faults_example =
    any_event_faults callbacks 0 accepts (λ x. 0) (updates 7 1 ∷ controls 7 add 1 ∷ []) one_channel
      0 1 [] made_one refl (inl refl, tt)
