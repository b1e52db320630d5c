-- ===== src/Ppu/Tick.antt =====
-- gameboy/src/ppu/ppu.cpp: `tick`, the machine of the four modes.
use gameboi.Base.{
  ℕ, ◌+◌, ◌-◌, ◌*◌, Bool, true, false, not, ◌&&◌, ◌==◌, leb, List, [], ◌∷◌, if◌then◌else◌, u8, u32,
  sub8, is_positive8, below8, ◌^◌, ltb, sub16,
}
use gameboi.Cpu.Request.{request_interrupt as request_of_cpu}
use gameboi.Cpu.Interrupt
use gameboi.Ppu.Stat.{
  StatMode, get_mode, set_mode, mode_interrupt_enabled, current_interrupt_enabled,
}
use gameboi.Ppu.Irq
use gameboi.Ppu.State.{
  Ppu, Chip, disabled, screen_height, request_interrupt, reset_interrupt_requests,
  compare_coincidence, set_ly,
}
use gameboi.Ppu.Control.{lcd_enable_delay_frames}
use gameboi.Ppu.Screen.{Screen, on_ppu, on_chip}
use gameboi.Ppu.Dma.{hdma}
use gameboi.Ppu.Render.{render}

abbrev pub ly_max : ℕ
ly_max = 153

abbrev pub hblank_cycles : ℕ
hblank_cycles = 204

abbrev pub reading_oam_cycles : ℕ
reading_oam_cycles = 80

abbrev pub reading_oam_vram_render_cycles : ℕ
reading_oam_vram_render_cycles = 160

abbrev pub reading_oam_vram_cycles : ℕ
reading_oam_vram_cycles = 172

abbrev pub total_line_cycles : ℕ
total_line_cycles = 456

abbrev pub total_vblank_cycles : ℕ
total_vblank_cycles = total_line_cycles * 10

abbrev pub total_frame_cycles : ℕ
total_frame_cycles = total_line_cycles * (ly_max + 1)

abbrev pub is_positive16 : ℕ → Bool
is_positive16 x = ltb 0 x && ltb x (2 ^ 15)

-- `has_elapsed` takes the cycles off.
abbrev pub take_cycles : ℕ → Ppu → Ppu
take_cycles cycles p = record p { cycle_count = p.cycle_count - cycles }

abbrev pub in_mode : StatMode → Ppu → Ppu
in_mode mode p = record p { stat = set_mode mode p.stat }

abbrev pub request_if : Bool → ℕ → Chip → Chip
request_if enabled type chip = if enabled then request_interrupt type chip else chip

-- The screen is on again, after the delay.
unfoldable pub enable_screen : Chip → Chip
enable_screen (p, c) =
    let p' = record p {
      lcd_enable_delay_cycle_count = 0;
      lcd_enable_delay_frame_count = lcd_enable_delay_frames;
      vblank_line = 0;
      window_line = 0;
      ly = 0;
      cycle_count = 0;
      secondary_cycle_count = 0;
      lcd_enabled = true;
      stat = set_mode StatMode.h_blank p.stat;
      interrupt_request = 0;
    } in
    compare_coincidence (
      if mode_interrupt_enabled StatMode.reading_oam p'.stat
      then (
        record p' { interrupt_request = Irq.set Irq.oam 0 },
        request_of_cpu Interrupt.lcd_stat c,
      )
      else (p', c))

-- The end of the horizontal blank, before a transfer and after it.
unfoldable pub next_line : Chip → Chip
next_line (p, c) =
    let (p', c') = set_ly (u8 (p.ly + 1)) (take_cycles hblank_cycles p, c) in
    (in_mode StatMode.reading_oam p', c')

unfoldable pub enter_v_blank : Chip → Chip
enter_v_blank (p, c) =
    let p' = record p {
      stat = set_mode StatMode.v_blank p.stat;
      secondary_cycle_count = p.cycle_count;
      vblank_line = 0;
      window_line = 0;
    } in
    request_if (current_interrupt_enabled p'.stat) Irq.v_blank
      (p', request_of_cpu Interrupt.lcd_vblank c)

abbrev pub raised_oam : Chip → Chip
raised_oam (p, c) = request_if (current_interrupt_enabled p.stat) Irq.oam (p, c)

-- The lines of the vertical blank.
unfoldable pub count_line : ℕ → Chip → Chip
count_line cycles (p, c) =
    let secondary = u32 (p.secondary_cycle_count + cycles) in
    let line = u8 (p.vblank_line + 1) in
    let counted = record p {
      secondary_cycle_count = secondary - total_line_cycles;
      vblank_line = line;
    } in
    if leb total_line_cycles secondary
    then if below8 line 10 then set_ly (u8 (p.ly + 1)) (counted, c) else (counted, c)
    else (record p { secondary_cycle_count = secondary }, c)

-- LY reads 0 for most of the last line.
unfoldable pub early_zero : Chip → Chip
early_zero (p, c) =
    if leb 4104 p.cycle_count && (leb 4 p.secondary_cycle_count && (p.ly == ly_max))
    then set_ly 0 (p, c)
    else (p, c)

unfoldable pub leave_v_blank : Chip → Chip
leave_v_blank (p, c) =
    let p' =
      reset_interrupt_requests (Irq.h_blank ∷ Irq.oam ∷ [])
        (in_mode StatMode.reading_oam (take_cycles total_vblank_cycles p)) in
    let (p'', c') = raised_oam (p', c) in (reset_interrupt_requests (Irq.v_blank ∷ []) p'', c')

unfoldable pub tick_v_blank : ℕ → Chip → Chip
tick_v_blank cycles chip =
    let (p, c) = early_zero (count_line cycles chip) in
    if leb total_vblank_cycles p.cycle_count then leave_v_blank (p, c) else (p, c)

abbrev pub all_modes : List ℕ
all_modes = Irq.h_blank ∷ Irq.v_blank ∷ Irq.oam ∷ []

unfoldable pub tick_reading_oam : Ppu → Ppu
tick_reading_oam p =
    if leb reading_oam_cycles p.cycle_count
    then reset_interrupt_requests all_modes
        (record (in_mode StatMode.reading_oam_vram (take_cycles reading_oam_cycles p)) {
          line_rendered = false;
        })
    else p

unfoldable pub enter_h_blank : Chip → Chip
enter_h_blank (p, c) =
    let p' =
      reset_interrupt_requests all_modes
        (in_mode StatMode.h_blank (take_cycles reading_oam_vram_cycles p)) in
    request_if (current_interrupt_enabled p'.stat) Irq.h_blank (p', c)

module _ {W : Type 0} (s : Screen W) where
  unfoldable pub tick_disabled : ℕ → W → W
  tick_disabled cycles w =
      let p = s.ppu w in
      let left = sub16 p.lcd_enable_delay_cycle_count cycles in
      if is_positive16 p.lcd_enable_delay_cycle_count
      then if not (is_positive16 left)
        then on_chip s enable_screen w
        else on_ppu s (λ p. record p { lcd_enable_delay_cycle_count = left }) w
      else if leb total_frame_cycles p.cycle_count
      then s.on_vblank (on_ppu s (take_cycles total_frame_cycles) w)
      else w

  -- The vertical blank begins; the first frames after the screen is turned on are not shown.
  unfoldable pub start_v_blank : W → W
  start_v_blank w =
      let w' = on_chip s enter_v_blank w in
      if is_positive8 (s.ppu w').lcd_enable_delay_frame_count
      then on_ppu s
          (λ p. record p { lcd_enable_delay_frame_count = sub8 p.lcd_enable_delay_frame_count 1 })
          w'
      else s.on_vblank w'

  unfoldable pub leave_h_blank : W → W
  leave_h_blank w =
      let w1 = on_chip s next_line w in
      let p1 = s.ppu w1 in
      let w2 = if p1.cgb_enabled && not (disabled p1.dma_transfer) then hdma s w1 else w1 in
      let w3 = on_ppu s (reset_interrupt_requests (Irq.v_blank ∷ Irq.oam ∷ [])) w2 in
      let w4 =
        if (s.ppu w3).ly == screen_height then start_v_blank w3 else on_chip s raised_oam w3 in
      on_ppu s (reset_interrupt_requests (Irq.h_blank ∷ [])) w4

  unfoldable pub render_line : W → W
  render_line w =
      let (p, line) = render (record (s.ppu w) { line_rendered = true }) in
      s.on_render_line p.ly line (s.with_ppu p w)

  unfoldable pub tick_reading_oam_vram : W → W
  tick_reading_oam_vram w =
      let p = s.ppu w in
      let w1 =
        if leb reading_oam_vram_render_cycles p.cycle_count && not p.line_rendered
        then render_line w
        else w in
      if leb reading_oam_vram_cycles (s.ppu w1).cycle_count then on_chip s enter_h_blank w1 else w1

  -- The body of the switch of each mode.
  unfoldable pub tick_mode : ℕ → StatMode → W → W
  tick_mode cycles StatMode.h_blank w =
      if leb hblank_cycles (s.ppu w).cycle_count then leave_h_blank w else w
  tick_mode cycles StatMode.v_blank w = on_chip s (tick_v_blank cycles) w
  tick_mode cycles StatMode.reading_oam w = on_ppu s tick_reading_oam w
  tick_mode cycles StatMode.reading_oam_vram w = tick_reading_oam_vram w

  unfoldable pub tick : ℕ → W → W
  tick cycles w =
      let w' = on_ppu s (λ p. record p { cycle_count = u32 (p.cycle_count + cycles) }) w in
      let p = s.ppu w' in
      if not p.lcd_enabled then tick_disabled cycles w' else tick_mode cycles (get_mode p.stat) w'
