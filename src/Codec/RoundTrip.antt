-- ===== src/Codec/RoundTrip.antt =====
-- Reading back what was written: which values survive, and what the others become.
use lp_net.Prelude.{
  ℕ, ◌+◌, ◌-◌, ◌/◌, ◌%◌, ◌^◌, ◌<◌, ◌≡◌, refl, arith, List, ◌∷◌, some, ltb, if◌then◌else◌, ◌>>=◌,
}
use lp_net.Codec.{
  read_u16_forward, read_u16_reverse, read_u24_forward, read_u24_reverse, read_u32_forward,
  read_u32_reverse, write_u16_forward, write_u16_reverse, write_u24_forward, write_u24_reverse,
  write_u32_forward, write_u32_reverse,
}
use lp_net.Codec.Join.{push, bit_and_0xff, join_16, join_24, join_32}

-- What a value becomes when its bytes are read as signed: the first byte from below that is at
-- least 128 sets all the bits above it. A top byte of 32 bits has none above it.
abbrev pub smeared : ℕ → ℕ
smeared v =
    if ltb 127 (v % 256)
    then 0xFFFF_FF00 + v % 256
    else if ltb 127 (v / 256 % 256)
    then 0xFFFF_0000 + v % 2 ^ 16
    else if ltb 127 (v / 2 ^ 16 % 256)
    then 0xFF00_0000 + v % 2 ^ 24
    else v

push-smeared_24 :
    (v : ℕ)
    → v < 2 ^ 24
    → push
        (2 ^ 24 - 1)
        (push (2 ^ 16 - 1) (push 255 0 (v / 2 ^ 16 % 256)) (v / 2 ^ 8 % 256))
        (v % 256 % 256)
      ≡ smeared v
push-smeared_24 v h = ground arith

push-smeared_32 :
    (v : ℕ)
    → v < 2 ^ 32
    → push
        (2 ^ 24 - 1)
        (push (2 ^ 16 - 1) (push 255 (v / 2 ^ 24 % 256) (v / 2 ^ 16 % 256)) (v / 2 ^ 8 % 256))
        (v % 256 % 256)
      ≡ smeared v
push-smeared_32 v h = ground arith

module _ (x y : ℕ) (rest : List ℕ) where
  -- A 16-bit value that is written and read back in the same byte order, either one, returns if
  -- its low byte is below 128; otherwise its high byte has become 0xFF.
  pub u16_write-read :
      (v : ℕ)
      → v < 2 ^ 16
      → ((write_u16_forward (x ∷ y ∷ rest) v >>= read_u16_forward)
          ≡ some (if ltb (v % 256) 128 then v else 0xFF00 + v % 256))
        × ((write_u16_reverse (x ∷ y ∷ rest) v >>= read_u16_reverse)
            ≡ some (if ltb (v % 256) 128 then v else 0xFF00 + v % 256))
  unfolding write_u16_forward write_u16_reverse read_u16_forward read_u16_reverse
  u16_write-read v h =
      rw (bit_and_0xff v, join_16 (v / 2 ^ 8 % 256) (v % 256 % 256) (omega arith) (omega arith))
        (ground arith)

  module _ (z : ℕ) where
    -- A 24-bit value that is written and read back in the same byte order, either one, comes back
    -- with all the bits set above its lowest byte that is at least 128, and unchanged if it has none.
    pub u24_write-read :
        (v : ℕ)
        → v < 2 ^ 24
        → ((write_u24_forward (x ∷ y ∷ z ∷ rest) v >>= read_u24_forward) ≡ some (smeared v))
          × ((write_u24_reverse (x ∷ y ∷ z ∷ rest) v >>= read_u24_reverse) ≡ some (smeared v))
    unfolding write_u24_forward write_u24_reverse read_u24_forward read_u24_reverse
    u24_write-read v h =
        rw
          (
            bit_and_0xff v,
            join_24 (v / 2 ^ 16 % 256) (v / 2 ^ 8 % 256) (v % 256 % 256) (omega arith) (omega arith)
                (omega arith),
            push-smeared_24 v h,
          )
          (refl, refl)

    -- A value below 2 ^ 32 that `writeU32Forward` or `writeU32Reverse` writes to four bytes and the reading function of the same byte order
    -- reads back comes back with all the bits set above its lowest byte that is at least 128, and
    -- unchanged if no byte but the top one is at least 128.
    pub u32_write-read :
        (w v : ℕ)
        → v < 2 ^ 32
        → ((write_u32_forward (x ∷ y ∷ z ∷ w ∷ rest) v >>= read_u32_forward) ≡ some (smeared v))
          × ((write_u32_reverse (x ∷ y ∷ z ∷ w ∷ rest) v >>= read_u32_reverse) ≡ some (smeared v))
    unfolding write_u32_forward write_u32_reverse read_u32_forward read_u32_reverse
    u32_write-read w v h =
        rw
          (
            bit_and_0xff v,
            join_32 (v / 2 ^ 24 % 256) (v / 2 ^ 16 % 256) (v / 2 ^ 8 % 256) (v % 256 % 256)
                (omega arith) (omega arith) (omega arith) (omega arith),
            push-smeared_32 v h,
          )
          (refl, refl)
