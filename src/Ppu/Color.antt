-- ===== src/Ppu/Color.antt =====
-- gameboy/include/gameboy/ppu/color.h and data/palette.h.
use gameboi.Base.{ℕ, ◌*◌, List, [], ◌∷◌, get_or, bit_and, shr}

pub record Color : Type 0 where
  pub red : ℕ
  pub green : ℕ
  pub blue : ℕ

abbrev pub rgb : ℕ → ℕ → ℕ → Color
rgb r g b = record { red = r; green = g; blue = b }

-- The constructor from one intensity.
abbrev pub gray : ℕ → Color
gray intensity = rgb intensity intensity intensity

-- `std::array<color, 4>`
abbrev pub Palette : Type 0
Palette = List Color

abbrev pub uniform : Color → Palette
uniform c = c ∷ c ∷ c ∷ c ∷ []

-- The entry of `reference` that bits `2 * i` and `2 * i + 1` of `register` choose.
abbrev pub chosen : Palette → ℕ → ℕ → Color
chosen reference register i = get_or reference (bit_and (shr register (i * 2)) 0x3) (gray 0)

unfoldable pub from : Palette → ℕ → Palette
from reference register =
    chosen reference register 0
    ∷ chosen reference register 1
    ∷ chosen reference register 2
    ∷ chosen reference register 3
    ∷ []

abbrev pub palette_zelda : Palette
palette_zelda = rgb 224 248 208 ∷ rgb 136 192 112 ∷ rgb 52 104 84 ∷ rgb 8 24 32 ∷ []
