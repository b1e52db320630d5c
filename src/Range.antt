-- ===== src/Range.antt =====
-- gameboy/include/gameboy/memory/address_range.h and memory_constants.h.
use gameboi.Base.{ℕ, ◌+◌, ◌-◌, Bool, ltb, leb, ◌&&◌, if◌then◌else◌, u16}

pub record Range : Type 0 where
  pub low : ℕ
  pub high : ℕ

-- The constructor orders its two ends.
abbrev pub make : ℕ → ℕ → Range
make low high =
    if ltb high low then record { low = high; high = low } else record { low = low; high = high }

-- The constructor from an upper end alone.
abbrev pub up_to : ℕ → Range
up_to high = make 0 high

abbrev pub has : Range → ℕ → Bool
has r address = leb r.low address && leb address r.high

-- `uint16_t`, so that the whole address space has size 0.
abbrev pub size : Range → ℕ
size r = u16 (r.high - r.low + 1)

abbrev pub rom_range : Range
rom_range = make 0x0000 0x7FFF

abbrev pub vram_range : Range
vram_range = make 0x8000 0x9FFF

abbrev pub xram_range : Range
xram_range = make 0xA000 0xBFFF

abbrev pub wram_range : Range
wram_range = make 0xC000 0xDFFF

abbrev pub echo_range : Range
echo_range = make 0xE000 0xFDFF

abbrev pub oam_range : Range
oam_range = make 0xFE00 0xFE9F

abbrev pub wave_pattern_range : Range
wave_pattern_range = make 0xFF30 0xFF3F

abbrev pub hram_range : Range
hram_range = make 0xFF80 0xFFFE
