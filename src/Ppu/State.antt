-- ===== src/Ppu/State.antt =====
-- The state of gameboy/include/gameboy/ppu/ppu.h with dma_transfer_data.h, `reset`, and the steps of
-- gameboy/src/ppu/ppu.cpp that touch the unit and the processor's interrupt flags alone. The two
-- callbacks are in `Ppu.Screen`.
use gameboi.Base.{
  ℕ, ◌+◌, ◌*◌, Bool, true, false, not, ◌==◌, List, [], ◌∷◌, replicate, if◌then◌else◌, bit_and,
}
use gameboi.Range
use gameboi.Util.Bit
use gameboi.Register16.{Register16}
use gameboi.Cpu.State.{Cpu}
use gameboi.Cpu.Request.{request_interrupt as request_of_cpu}
use gameboi.Cpu.Interrupt
use gameboi.Ppu.Color.{Palette, gray, uniform, palette_zelda}
use gameboi.Ppu.Stat.{
  StatMode, set_mode, set_coincidence_flag, reset_coincidence_flag, coincidence_interrupt_enabled,
}
use gameboi.Ppu.Stat
use gameboi.Ppu.Irq

-- `dma_transfer_data`
pub record Transfer : Type 0 where
  pub source : Register16
  pub destination : Register16
  pub length_mode_start : ℕ
  pub oam_dma : ℕ

abbrev pub unit_transfer_length : ℕ
unit_transfer_length = 0x10

abbrev pub transfer_length : Transfer → ℕ
transfer_length t = (bit_and t.length_mode_start 0x7F + 1) * unit_transfer_length

abbrev pub disabled : Transfer → Bool
disabled t = Bit.test t.length_mode_start 7

-- `vblank_line_`, `lcd_enable_delay_frame_count_` (8 bits) and `lcd_enable_delay_cycle_count_` (16
-- bits) are signed, here their two's complement patterns.
pub record Ppu : Type 0 where
  pub cgb_enabled : Bool
  pub lcd_enabled : Bool
  pub line_rendered : Bool
  pub vblank_line : ℕ
  pub window_line : ℕ
  pub lcd_enable_delay_frame_count : ℕ
  pub lcd_enable_delay_cycle_count : ℕ
  pub cycle_count : ℕ
  pub secondary_cycle_count : ℕ
  pub vram_bank : ℕ
  pub ram : List ℕ
  pub oam : List ℕ
  pub interrupt_request : ℕ
  pub lcdc : ℕ
  pub stat : ℕ
  pub ly : ℕ
  pub lyc : ℕ
  pub scx : ℕ
  pub scy : ℕ
  pub wx : ℕ
  pub wy : ℕ
  pub gb_palette : Palette
  pub bgp : ℕ
  pub obp_0 : ℕ
  pub obp_1 : ℕ
  pub cgb_bg_palettes : List Palette
  pub cgb_obj_palettes : List Palette
  pub bgpi : ℕ
  pub bgpd : ℕ
  pub obpi : ℕ
  pub obpd : ℕ
  pub dma_transfer : Transfer

abbrev pub screen_width : ℕ
screen_width = 160

abbrev pub screen_height : ℕ
screen_height = 144

-- `dma_transfer_` as it is constructed.
abbrev pub initial_transfer : Transfer
initial_transfer = record {
  source = record { high = 0xFF; low = 0xFF };
  destination = record { high = 0xFF; low = 0xFF };
  length_mode_start = 0xFF;
  oam_dma = 0xFF;
}

-- `reset`; the transfer keeps what it held but for one field, and the handlers that it registers
-- are in `Machine.Units`.
unfoldable pub reset : Bool → Transfer → Ppu
reset cgb transfer = record {
  cgb_enabled = cgb;
  lcd_enabled = true;
  line_rendered = false;
  vblank_line = 0;
  window_line = 0;
  lcd_enable_delay_frame_count = 0;
  lcd_enable_delay_cycle_count = 0;
  cycle_count = 0;
  secondary_cycle_count = 0;
  vram_bank = 0;
  ram = replicate ((if cgb then 2 else 1) * (8 * 1024)) 0;
  oam = replicate (Range.size Range.oam_range) 0;
  interrupt_request = 0;
  lcdc = 0x91;
  stat = if cgb then 0x01 else 0x06;
  ly = if cgb then 0x90 else 0x00;
  lyc = 0x00;
  scx = 0x00;
  scy = 0x00;
  wx = 0x00;
  wy = 0x00;
  gb_palette = palette_zelda;
  bgp = 0xFC;
  obp_0 = 0xFF;
  obp_1 = 0xFF;
  cgb_bg_palettes = replicate 8 (uniform (gray 0xFF));
  cgb_obj_palettes = replicate 8 (uniform (gray 0xFF));
  bgpi = 0x00;
  bgpd = 0x00;
  obpi = 0x00;
  obpd = 0x00;
  dma_transfer = if cgb then record transfer { oam_dma = 0x00 } else transfer;
}

unfoldable set_gb_palette : Palette → Ppu → Ppu
set_gb_palette palette p = record p { gb_palette = palette }

-- The unit and the processor, whose flags an interrupt is requested in.
abbrev pub Chip : Type 0
Chip = Ppu × Cpu

unfoldable pub request_interrupt : ℕ → Chip → Chip
request_interrupt type (p, c) = (
  record p { interrupt_request = Irq.set type p.interrupt_request },
  if Irq.none p.interrupt_request then request_of_cpu Interrupt.lcd_stat c else c,
)

unfoldable pub reset_interrupt_requests : List ℕ → Ppu → Ppu
reset_interrupt_requests [] p = p
reset_interrupt_requests (type ∷ types) p =
    reset_interrupt_requests types
      (record p { interrupt_request = Irq.reset type p.interrupt_request })

unfoldable pub compare_coincidence : Chip → Chip
compare_coincidence (p, c) =
    let equal = record p { stat = set_coincidence_flag p.stat } in
    let differing = record p {
      stat = reset_coincidence_flag p.stat;
      interrupt_request = Irq.reset Irq.coincidence p.interrupt_request;
    } in
    if p.ly == p.lyc
    then if coincidence_interrupt_enabled equal.stat
      then request_interrupt Irq.coincidence (equal, c)
      else (equal, c)
    else (differing, c)

unfoldable pub set_ly : ℕ → Chip → Chip
set_ly ly (p, c) = compare_coincidence (record p { ly = ly }, c)

unfoldable pub set_lyc : ℕ → Chip → Chip
set_lyc lyc (p, c) =
    let changed = record p { lyc = lyc } in
    if not (p.lyc == lyc)
    then if Stat.lcd_enabled p.lcdc then compare_coincidence (changed, c) else (changed, c)
    else (p, c)

unfoldable pub disable_screen : Ppu → Ppu
disable_screen p = record p {
  lcd_enabled = false;
  stat = set_mode StatMode.h_blank p.stat;
  interrupt_request = 0;
  cycle_count = 0;
  secondary_cycle_count = 0;
  ly = 0;
}
