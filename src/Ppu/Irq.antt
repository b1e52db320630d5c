-- ===== src/Ppu/Irq.antt =====
-- gameboy/include/gameboy/ppu/data/interrupt_request.h: the lines of the one interrupt `lcd_stat`
-- that are raised, as a byte; a type is the index of its bit.
use gameboi.Base.{ℕ, Bool, ◌==◌}
use gameboi.Util.Bit

abbrev pub h_blank : ℕ
h_blank = 0

abbrev pub v_blank : ℕ
v_blank = 1

abbrev pub oam : ℕ
oam = 2

abbrev pub coincidence : ℕ
coincidence = 3

abbrev pub none : ℕ → Bool
none request = request == 0

abbrev pub set : ℕ → ℕ → ℕ
set type request = Bit.set request type

abbrev pub reset : ℕ → ℕ → ℕ
reset type request = Bit.reset request type
