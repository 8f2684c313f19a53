-- ===== src/Select/Tests.antt =====
-- A round of `select` at a concrete table of channels.
use lp_net.Prelude.{ℕ, ◌≡◌, refl, arith, [], ◌∷◌, some, true}
use lp_net.Channel.{event_in, event_out}
use lp_net.Select.{SelectManager, Sets, fd_zero, has_fd, prepare}
use lp_net.Select.Round.{AllUpTo, wants, prepare_lem}

abbrev two_channels : SelectManager
two_channels = record {
  max_fd = 77;
  fd_read_backup = fd_zero;
  fd_write_backup = fd_zero;
  fd_exp_backup = fd_zero;
  is_fd_read_reset = true;
  is_fd_write_reset = true;
  is_fd_exp_reset = true;
  channels = (3, 0) ∷ (5, 1) ∷ [];
}

abbrev reading : ℕ → ℕ
reading id = 1

prepare_lem_example :
    (out : Sets × SelectManager) × (prepare reading two_channels ≡ some out)
    × (out.0.read 5 ≡ wants reading event_in 5 two_channels.channels)
    × (out.0.write 5 ≡ wants reading event_out 5 two_channels.channels)
    × (out.0.exp 5 ≡ has_fd 5 two_channels.channels)
    × AllUpTo out.0.max_fd two_channels.channels
prepare_lem_example =
    prepare_lem reading two_channels 5 (record { read = refl; write = refl; exp = refl })
      (omega arith, (omega arith, tt))
