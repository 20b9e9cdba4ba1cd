-- ===== src/Bits/Colours.antt =====
-- The packed colours, at every value of their fields.
use c_programming.Prelude.{ℕ, ◌<◌, ◌≡◌, refl, Bool, true, ◌==◌, ◌&&◌, arith}
use c_programming.Bits.{rgb565_pack, rgb565_r, rgb565_g, rgb565_b}
use c_programming.Prelude.Ranges.{all_below, all_below_sound}

abbrev unpacks : ℕ → ℕ → ℕ → Bool
unpacks r g b =
    (rgb565_r (rgb565_pack r g b) == r)
    && ((rgb565_g (rgb565_pack r g b) == g) && (rgb565_b (rgb565_pack r g b) == b))

table : all_below 32 (λ r. all_below 64 (λ g. all_below 32 (λ b. unpacks r g b))) ≡ true
unfolding all_below rgb565_pack rgb565_r rgb565_g rgb565_b
table = refl

unpacked : (r g b : ℕ) → r < 32 → g < 64 → b < 32 → unpacks r g b ≡ true
unpacked r g b hr hg hb =
    all_below_sound 32 (λ b. unpacks r g b) b
      (all_below_sound 64 (λ g. all_below 32 (λ b. unpacks r g b)) g
        (all_below_sound 32 (λ r. all_below 64 (λ g. all_below 32 (λ b. unpacks r g b))) r table hr)
        hg)
      hb

-- The fields of a colour that `rgb565_pack` packs are read back, where they fit their widths.
pub rgb565_r-rgb565_pack :
    (r g b : ℕ)
    → r < 32
    → g < 64
    → b < 32
    → (rgb565_r (rgb565_pack r g b) ≡ r)
      × (rgb565_g (rgb565_pack r g b) ≡ g)
      × (rgb565_b (rgb565_pack r g b) ≡ b)
rgb565_r-rgb565_pack r g b hr hg hb =
    let p = unpacked r g b hr hg hb in (ground arith, ground arith, ground arith)
