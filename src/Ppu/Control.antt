-- ===== src/Ppu/Control.antt =====
-- gameboy/src/ppu/ppu.cpp: the other registers of the unit.
use gameboi.Base.{ℕ, not, ◌&&◌, ◌==◌, ltb, if◌then◌else◌, bit_and, bit_or, shr}
use gameboi.Ppu.Stat.{StatMode, get_mode, current_interrupt_enabled, lcd_enabled, window_enabled}
use gameboi.Ppu.Irq
use gameboi.Ppu.State.{
  Ppu, Chip, screen_height, request_interrupt, compare_coincidence, set_ly, set_lyc, disable_screen,
}

abbrev pub lcdc_addr : ℕ
lcdc_addr = 0xFF40

abbrev pub stat_addr : ℕ
stat_addr = 0xFF41

abbrev pub scy_addr : ℕ
scy_addr = 0xFF42

abbrev pub scx_addr : ℕ
scx_addr = 0xFF43

abbrev pub ly_addr : ℕ
ly_addr = 0xFF44

abbrev pub lyc_addr : ℕ
lyc_addr = 0xFF45

abbrev pub wy_addr : ℕ
wy_addr = 0xFF4A

abbrev pub wx_addr : ℕ
wx_addr = 0xFF4B

abbrev pub vbk_addr : ℕ
vbk_addr = 0xFF4F

abbrev pub lcd_enable_delay_frames : ℕ
lcd_enable_delay_frames = 3

abbrev pub lcd_enable_delay_cycles : ℕ
lcd_enable_delay_cycles = 244

unfoldable pub general_purpose_register_read : ℕ → Ppu → ℕ
general_purpose_register_read address p =
    if address == vbk_addr
    then bit_or p.vram_bank 0xFE
    else if address == lcdc_addr
    then p.lcdc
    else if address == stat_addr
    then bit_or p.stat 0x80
    else if address == scy_addr
    then p.scy
    else if address == scx_addr
    then p.scx
    else if address == ly_addr
    then if p.lcd_enabled then p.ly else 0
    else if address == lyc_addr
    then p.lyc
    else if address == wy_addr
    then p.wy
    else if address == wx_addr
    then p.wx
    else 0

-- The window's line when a write turns the window on within the frame.
abbrev pub skip_window : ℕ → Ppu → Ppu
skip_window val p =
    if not (window_enabled p.lcdc) && window_enabled val
    then if p.window_line == 0 && (ltb p.ly screen_height && ltb p.wy p.ly)
      then record p { window_line = screen_height }
      else p
    else p

unfoldable pub write_lcdc : ℕ → Ppu → Ppu
write_lcdc val p =
    let skipped = skip_window val p in
    let switched =
      if lcd_enabled val
      then if not skipped.lcd_enabled
        then record skipped { lcd_enable_delay_cycle_count = lcd_enable_delay_cycles }
        else skipped
      else disable_screen skipped in
    record switched { lcdc = val }

-- `request_interrupt(irq_copy, …)`: only the processor sees the request, since the copy that it is
-- noted in is dropped.
abbrev pub request_on_copy : ℕ → Chip → Chip
request_on_copy type (p, c) = (p, (request_interrupt type (p, c)).1)

abbrev pub request_for : StatMode → Chip → Chip
request_for StatMode.h_blank chip = request_on_copy Irq.h_blank chip
request_for StatMode.v_blank chip = request_on_copy Irq.v_blank chip
request_for StatMode.reading_oam chip = request_on_copy Irq.oam chip
request_for StatMode.reading_oam_vram chip = chip

unfoldable pub write_stat : ℕ → Chip → Chip
write_stat val (p, c) =
    let stat' = bit_or (bit_and p.stat 0x07) (bit_and val 0x78) in
    let masked = record p {
      stat = stat';
      interrupt_request = bit_and p.interrupt_request (bit_and (shr stat' 3) 0x0F);
    } in
    let requested =
      if current_interrupt_enabled stat'
      then request_for (get_mode stat') (masked, c)
      else (masked, c) in
    if lcd_enabled p.lcdc then compare_coincidence requested else (masked, c)

unfoldable pub general_purpose_register_write : ℕ → ℕ → Chip → Chip
general_purpose_register_write address val (p, c) =
    if address == vbk_addr
    then (record p { vram_bank = bit_and val 0x01 }, c)
    else if address == lcdc_addr
    then (write_lcdc val p, c)
    else if address == stat_addr
    then write_stat val (p, c)
    else if address == scy_addr
    then (record p { scy = val }, c)
    else if address == scx_addr
    then (record p { scx = val }, c)
    else if address == ly_addr
    then set_ly 0x00 (p, c)
    else if address == lyc_addr
    then set_lyc val (p, c)
    else if address == wy_addr
    then (record p { wy = val }, c)
    else if address == wx_addr
    then (record p { wx = val }, c)
    else (p, c)
