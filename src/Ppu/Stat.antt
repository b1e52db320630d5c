-- ===== src/Ppu/Stat.antt =====
-- gameboy/include/gameboy/ppu/register_stat.h, register_lcdc.h and data/interrupt_request.h: each is
-- the byte that it wraps.
pub mod Laws
use gameboi.Base.{ℕ, ◌+◌, Bool, ◌==◌, if◌then◌else◌, bit_and, bit_or}
use gameboi.Util.Bit

pub data StatMode : Type 0 where
  h_blank : StatMode
  v_blank : StatMode
  reading_oam : StatMode
  reading_oam_vram : StatMode

abbrev pub number_of : StatMode → ℕ
number_of StatMode.h_blank = 0
number_of StatMode.v_blank = 1
number_of StatMode.reading_oam = 2
number_of StatMode.reading_oam_vram = 3

-- `static_cast<stat_mode>`
abbrev pub mode_of : ℕ → StatMode
mode_of n =
    if n == 0
    then StatMode.h_blank
    else if n == 1
    then StatMode.v_blank
    else if n == 2
    then StatMode.reading_oam
    else StatMode.reading_oam_vram

unfoldable pub get_mode : ℕ → StatMode
get_mode stat = mode_of (bit_and stat 0x03)

unfoldable pub set_mode : StatMode → ℕ → ℕ
set_mode mode stat = bit_or (bit_and stat 0xFC) (number_of mode)

unfoldable pub set_coincidence_flag : ℕ → ℕ
set_coincidence_flag stat = Bit.set stat 2

unfoldable pub reset_coincidence_flag : ℕ → ℕ
reset_coincidence_flag stat = Bit.reset stat 2

abbrev pub coincidence_interrupt_enabled : ℕ → Bool
coincidence_interrupt_enabled stat = Bit.test stat 6

abbrev pub mode_interrupt_enabled : StatMode → ℕ → Bool
mode_interrupt_enabled mode stat = Bit.test stat (number_of mode + 3)

-- The overload without an argument.
abbrev pub current_interrupt_enabled : ℕ → Bool
current_interrupt_enabled stat = mode_interrupt_enabled (get_mode stat) stat

abbrev pub lcd_enabled : ℕ → Bool
lcd_enabled lcdc = Bit.test lcdc 7

abbrev pub window_map_secondary : ℕ → Bool
window_map_secondary lcdc = Bit.test lcdc 6

abbrev pub window_enabled : ℕ → Bool
window_enabled lcdc = Bit.test lcdc 5

abbrev pub unsigned_mode : ℕ → Bool
unsigned_mode lcdc = Bit.test lcdc 4

abbrev pub bg_map_secondary : ℕ → Bool
bg_map_secondary lcdc = Bit.test lcdc 3

abbrev pub large_obj : ℕ → Bool
large_obj lcdc = Bit.test lcdc 2

abbrev pub obj_enabled : ℕ → Bool
obj_enabled lcdc = Bit.test lcdc 1

abbrev pub bg_enabled : ℕ → Bool
bg_enabled lcdc = Bit.test lcdc 0
