-- ===== src/Codec/Tests.antt =====
-- Tests of the integer codecs, and their theorems at concrete values.
use lp_net.Prelude.{◌≡◌, refl, arith, [], ◌∷◌, some, ◌>>=◌}
use lp_net.Codec.{
  sign_extend, shifted, or16, read_u16_forward, read_u32_forward, read_u32_reverse,
  write_u16_forward, write_u32_forward, write_u32_reverse,
}
use lp_net.Codec.RoundTrip.{u32_write-read}

-- 0x0280 comes back as 0xFF80.
sign_bug : (write_u16_forward (0 ∷ 0 ∷ []) 0x0280 >>= read_u16_forward) ≡ some 0xFF80
unfolding write_u16_forward read_u16_forward sign_extend shifted or16
sign_bug = refl

u32_write-read_example :
    ((write_u32_forward (0 ∷ 0 ∷ 0 ∷ 0 ∷ []) 0x81123456 >>= read_u32_forward) ≡ some 0x81123456)
    × ((write_u32_reverse (0 ∷ 0 ∷ 0 ∷ 0 ∷ []) 0x81123456 >>= read_u32_reverse) ≡ some 0x81123456)
u32_write-read_example = u32_write-read 0 0 [] 0 0 0x81123456 (omega arith)
