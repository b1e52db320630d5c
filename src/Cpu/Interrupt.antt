-- ===== src/Cpu/Interrupt.antt =====
-- gameboy/include/gameboy/cpu/interrupt.h: the requests as masks, and the vector of each.
use gameboi.Base.{ℕ, ◌==◌, if◌then◌else◌}

abbrev pub none : ℕ
none = 0

abbrev pub lcd_vblank : ℕ
lcd_vblank = 0x01

abbrev pub lcd_stat : ℕ
lcd_stat = 0x02

abbrev pub timer : ℕ
timer = 0x04

abbrev pub serial : ℕ
serial = 0x08

abbrev pub joypad : ℕ
joypad = 0x10

-- For `all`, for `none` and for what is no single request the function names no vector; the first
-- two give 0.
unfoldable pub make_address : ℕ → ℕ
make_address request =
    if request == lcd_vblank
    then 0x40
    else if request == lcd_stat
    then 0x48
    else if request == timer
    then 0x50
    else if request == serial
    then 0x58
    else if request == joypad
    then 0x60
    else 0
