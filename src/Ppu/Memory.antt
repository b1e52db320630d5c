-- ===== src/Ppu/Memory.antt =====
-- gameboy/src/ppu/ppu.cpp: the video memory and the table of objects, closed to the program while
-- the unit reads them.
pub mod Laws
use gameboi.Base.{ℕ, ◌+◌, ◌-◌, ◌*◌, Bool, true, false, not, ◌&&◌, ◌==◌, get_or, set, if◌then◌else◌}
use gameboi.Range
use gameboi.Ppu.Stat.{StatMode, get_mode}
use gameboi.Ppu.State.{Ppu}

abbrev pub vram_offset : ℕ → ℕ → ℕ
vram_offset address bank = address - Range.vram_range.low + bank * (8 * 1024)

unfoldable pub read_ram_by_bank : ℕ → ℕ → Ppu → ℕ
read_ram_by_bank address bank p =
    if not p.cgb_enabled && not (bank == 0) then 0x00 else get_or p.ram (vram_offset address bank) 0

unfoldable pub write_ram_by_bank : ℕ → ℕ → ℕ → Ppu → Ppu
write_ram_by_bank address val bank p =
    if not p.cgb_enabled && not (bank == 0)
    then p
    else record p { ram = set p.ram (vram_offset address bank) val }

-- `stat_.get_mode() == stat_mode::reading_oam_vram`
abbrev pub is_vram_closed : StatMode → Bool
is_vram_closed StatMode.h_blank = false
is_vram_closed StatMode.v_blank = false
is_vram_closed StatMode.reading_oam = false
is_vram_closed StatMode.reading_oam_vram = true

-- The same, or `stat_mode::reading_oam`.
abbrev pub is_oam_closed : StatMode → Bool
is_oam_closed StatMode.h_blank = false
is_oam_closed StatMode.v_blank = false
is_oam_closed StatMode.reading_oam = true
is_oam_closed StatMode.reading_oam_vram = true

unfoldable pub read_ram : ℕ → Ppu → ℕ
read_ram address p =
    if is_vram_closed (get_mode p.stat) then 0xFF else read_ram_by_bank address p.vram_bank p

unfoldable pub write_ram : ℕ → ℕ → Ppu → Ppu
write_ram address val p =
    if is_vram_closed (get_mode p.stat) then p else write_ram_by_bank address val p.vram_bank p

unfoldable pub read_oam : ℕ → Ppu → ℕ
read_oam address p =
    if is_oam_closed (get_mode p.stat) then 0xFF else get_or p.oam (address - Range.oam_range.low) 0

unfoldable pub write_oam : ℕ → ℕ → Ppu → Ppu
write_oam address val p =
    if is_oam_closed (get_mode p.stat)
    then p
    else record p { oam = set p.oam (address - Range.oam_range.low) val }
