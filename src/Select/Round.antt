-- ===== src/Select/Round.antt =====
-- The sets of descriptors that a round gives to `select`.
use lp_net.Prelude.{
  ℕ, ◌≤◌, ◌<◌, ◌≡◌, refl, ap, ◌∙◌, arith, List, [], ◌∷◌, none, some, Bool, true, false, ◌&&◌, ◌||◌,
  leb, ◌==◌, if◌then◌else◌, ◌>>=◌,
}
use lp_net.Channel.{event_in, event_out, raised}
use lp_net.Select.{
  fd_zero, fd_setsize, SelectManager, has_fd, Sets, collect_one, sets_bit, collect, any_reset,
  keep_sets, prepare,
}

-- The descriptors fit an `fd_set`.
abbrev pub AllSmall : List (ℕ × ℕ) → Type 0
AllSmall [] = Unit
AllSmall (entry ∷ channels) = (entry.0 < 1024) × AllSmall channels

-- The descriptors are at most `n`.
abbrev pub AllUpTo : ℕ → List (ℕ × ℕ) → Type 0
AllUpTo n [] = Unit
AllUpTo n (entry ∷ channels) = (entry.0 ≤ n) × AllUpTo n channels

module _ (interest : ℕ → ℕ) where
  -- Whether a channel of the descriptor asks for the event.
  abbrev pub wants : ℕ → ℕ → List (ℕ × ℕ) → Bool
  wants event x [] = false
  wants event x (entry ∷ channels) =
      if x == entry.0 && raised (interest entry.1) event then true else wants event x channels

  -- What the loop adds to the sets.
  pub record Collected (channels : List (ℕ × ℕ)) (s s' : Sets) : Type 0 where
    pub read : (x : ℕ) → s'.read x ≡ (if wants event_in x channels then true else s.read x)
    pub write : (x : ℕ) → s'.write x ≡ (if wants event_out x channels then true else s.write x)
    pub exp : (x : ℕ) → s'.exp x ≡ (if has_fd x channels then true else s.exp x)
    pub above : s.max_fd ≤ s'.max_fd
    pub all_above : AllUpTo s'.max_fd channels

  -- All three sets are to be filled.
  pub record IsReset (m : SelectManager) : Type 0 where
    pub read : m.is_fd_read_reset ≡ true
    pub write : m.is_fd_write_reset ≡ true
    pub exp : m.is_fd_exp_reset ≡ true

  collect_lem :
      (m : SelectManager) (channels : List (ℕ × ℕ)) (s : Sets)
      → IsReset m
      → AllSmall channels
      → (s' : Sets) × (collect interest m channels s ≡ some s') × Collected channels s s'
  unfolding collect has_fd collect_one
  collect_lem m [] s r h = (
    s,
    refl,
    record {
      read = λ x. refl;
      write = λ x. refl;
      exp = λ x. refl;
      above = omega arith;
      all_above = tt;
    },
  )
  collect_lem m ((fd, id) ∷ channels) s r h =
      let one = collect_one m fd (interest id) s in
      let (s', e, k) = collect_lem m channels one r h.1 in
      (
        s',
        ap (λ b. if b && sets_bit m (interest id) then none else collect interest m channels one)
              (small h.0)
            ∙ e,
        record {
          read = λ x. k.read x ∙ ground (arith, r.read);
          write = λ x. k.write x ∙ ground (arith, r.write);
          exp = λ x. k.exp x ∙ ground (arith, r.exp);
          above = ground (arith, k.above, r.exp);
          all_above = (ground (arith, k.above, r.exp), k.all_above);
        },
      )
    where
      small : fd < 1024 → leb fd_setsize fd ≡ false
      small p = ground arith

  -- Where all sets are to be filled and every descriptor of the table is below FD_SETSIZE, 1024, the sets given to `select` hold exactly the descriptors whose
  -- channels ask for reading, those that ask for writing, and all of them; the limit given to it is
  -- not below any descriptor.
  pub prepare_lem :
      (m : SelectManager) (x : ℕ)
      → IsReset m
      → AllSmall m.channels
      → (out : Sets × SelectManager) × (prepare interest m ≡ some out)
        × (out.0.read x ≡ wants event_in x m.channels)
        × (out.0.write x ≡ wants event_out x m.channels)
        × (out.0.exp x ≡ has_fd x m.channels)
        × AllUpTo out.0.max_fd m.channels
  unfolding prepare any_reset keep_sets
  prepare_lem m x r h =
      let (s, e, k) = collect_lem m m.channels start r h in
      (
        keep_sets interest m s,
        ap
              (λ b.
                (if b || (m.is_fd_write_reset || m.is_fd_exp_reset)
                  then collect interest m m.channels start
                  else some start)
                >>= λ s. some (keep_sets interest m s))
              r.read
            ∙ ap (λ o. o >>= λ s. some (keep_sets interest m s)) e,
        ap (λ b. (if b then s.read else m.fd_read_backup) x) r.read
            ∙ k.read x
            ∙ plain (wants event_in x m.channels),
        ap (λ b. (if b then s.write else m.fd_write_backup) x) r.write
            ∙ k.write x
            ∙ plain (wants event_out x m.channels),
        ap (λ b. (if b then s.exp else m.fd_exp_backup) x) r.exp
            ∙ k.exp x
            ∙ plain (has_fd x m.channels),
        k.all_above,
      )
    where
      start : Sets
      start = record {
        read = fd_zero;
        write = fd_zero;
        exp = fd_zero;
        max_fd = if m.is_fd_exp_reset then 0 else m.max_fd;
      }

      plain : (b : Bool) → (if b then true else false) ≡ b
      plain true = refl
      plain false = refl
