-- ===== src/Ppu/Timing.antt =====
-- What of the unit's state decides which mode comes next, and how the steps of `Ppu.Tick` move it.
pub mod Raster
pub mod Frame
pub mod Run
use gameboi.Base.{
  ℕ, ◌+◌, ◌-◌, ◌≡◌, Bool, true, false, not, ◌&&◌, ◌==◌, leb, List, [], ◌∷◌, if◌then◌else◌, u8, u32,
  below8, arith, refl, ap, ◌∙◌,
}
use gameboi.Cpu.State.{Cpu}
use gameboi.Ppu.Irq
use gameboi.Ppu.Stat.{StatMode, get_mode, set_mode, set_coincidence_flag}
use gameboi.Ppu.Stat.Laws.{
  get_mode-set_mode, get_mode-set_coincidence_flag, get_mode-reset_coincidence_flag,
}
use gameboi.Ppu.Color.{Color}
use gameboi.Ppu.State.{
  Ppu, Chip, disabled, request_interrupt, reset_interrupt_requests, compare_coincidence, set_ly,
}
use gameboi.Ppu.Tick.{
  take_cycles, in_mode, request_if, raised_oam, next_line, enter_v_blank, count_line, early_zero,
  leave_v_blank, tick_v_blank, tick_reading_oam, enter_h_blank,
}
use gameboi.Ppu.Render.{render}
use gameboi.Ppu.Render.Background.{render_window}

pub record Timing : Type 0 where
  pub on : Bool
  pub mode : StatMode
  pub cycles : ℕ
  pub secondary : ℕ
  pub line : ℕ
  pub ly : ℕ
  pub transfers : Bool

abbrev pub timing : Ppu → Timing
timing p = record {
  on = p.lcd_enabled;
  mode = get_mode p.stat;
  cycles = p.cycle_count;
  secondary = p.secondary_cycle_count;
  line = p.vblank_line;
  ly = p.ly;
  transfers = p.cgb_enabled && not (disabled p.dma_transfer);
}

timing-request_interrupt :
    (type : ℕ) (p : Ppu) (c : Cpu) → timing (request_interrupt type (p, c)).0 ≡ timing p
unfolding request_interrupt
timing-request_interrupt type p c = refl

timing-reset_interrupt_requests :
    (types : List ℕ) (p : Ppu) → timing (reset_interrupt_requests types p) ≡ timing p
unfolding reset_interrupt_requests
timing-reset_interrupt_requests [] p = refl
timing-reset_interrupt_requests (t ∷ ts) p = timing-reset_interrupt_requests ts _

timing-request_if :
    (on : Bool) (type : ℕ) (p : Ppu) (c : Cpu) → timing (request_if on type (p, c)).0 ≡ timing p
timing-request_if true type p c = timing-request_interrupt type p c
timing-request_if false type p c = refl

timing-compare_coincidence : (p : Ppu) (c : Cpu) → timing (compare_coincidence (p, c)).0 ≡ timing p
unfolding compare_coincidence
timing-compare_coincidence p c = ground (
  arith,
  get_mode-set_coincidence_flag p.stat,
  get_mode-reset_coincidence_flag p.stat,
  timing-request_interrupt Irq.coincidence (record p { stat = set_coincidence_flag p.stat }) c,
)

timing-set_ly :
    (ly : ℕ) (p : Ppu) (c : Cpu) → timing (set_ly ly (p, c)).0 ≡ record (timing p) { ly = ly }
unfolding set_ly
timing-set_ly ly p c = timing-compare_coincidence (record p { ly = ly }) c

timing-next_line :
    (p : Ppu) (c : Cpu)
    → timing (next_line (p, c)).0 ≡ record (timing p) {
      ly = u8 (p.ly + 1);
      cycles = p.cycle_count - 204;
      mode = StatMode.reading_oam;
    }
unfolding next_line
timing-next_line p c =
    let p' = (set_ly (u8 (p.ly + 1)) (take_cycles 204 p, c)).0 in
    let kept = timing-set_ly (u8 (p.ly + 1)) (take_cycles 204 p) c in
    ground (arith, get_mode-set_mode StatMode.reading_oam p'.stat, kept)

pub timing-enter_v_blank :
    (p : Ppu) (c : Cpu)
    → timing (enter_v_blank (p, c)).0
      ≡ record (timing p) { mode = StatMode.v_blank; secondary = p.cycle_count; line = 0 }
unfolding enter_v_blank
timing-enter_v_blank p c =
    timing-request_if _ Irq.v_blank
      (record p {
        stat = set_mode StatMode.v_blank p.stat;
        secondary_cycle_count = p.cycle_count;
        vblank_line = 0;
        window_line = 0;
      })
      _
    ∙ ap (λ m. record (timing p) { mode = m; secondary = p.cycle_count; line = 0 })
        (get_mode-set_mode StatMode.v_blank p.stat)

pub timing-raised_oam : (p : Ppu) (c : Cpu) → timing (raised_oam (p, c)).0 ≡ timing p
timing-raised_oam p c = timing-request_if _ Irq.oam p c

abbrev counted : ℕ → Timing → Timing
counted cycles t =
    let secondary = u32 (t.secondary + cycles) in
    let line = u8 (t.line + 1) in
    if leb 456 secondary
    then record t {
      secondary = secondary - 456;
      line = line;
      ly = if below8 line 10 then u8 (t.ly + 1) else t.ly;
    }
    else record t { secondary = secondary }

timing-count_line :
    (cycles : ℕ) (p : Ppu) (c : Cpu)
    → timing (count_line cycles (p, c)).0 ≡ counted cycles (timing p)
unfolding count_line
timing-count_line cycles p c = ground (
  arith,
  timing-set_ly (u8 (p.ly + 1))
      (record p {
        secondary_cycle_count = u32 (p.secondary_cycle_count + cycles) - 456;
        vblank_line = u8 (p.vblank_line + 1);
      })
      c,
)

abbrev zeroed : Timing → Timing
zeroed t =
    if leb 4104 t.cycles && (leb 4 t.secondary && (t.ly == 153)) then record t { ly = 0 } else t

timing-early_zero : (p : Ppu) (c : Cpu) → timing (early_zero (p, c)).0 ≡ zeroed (timing p)
unfolding early_zero
timing-early_zero p c = ground (arith, timing-set_ly 0 p c)

timing-leave_v_blank :
    (p : Ppu) (c : Cpu)
    → timing (leave_v_blank (p, c)).0
      ≡ record (timing p) { mode = StatMode.reading_oam; cycles = p.cycle_count - 4560 }
unfolding leave_v_blank
timing-leave_v_blank p c =
    let left = in_mode StatMode.reading_oam (take_cycles 4560 p) in
    let quiet = reset_interrupt_requests (Irq.h_blank ∷ Irq.oam ∷ []) left in
    timing-reset_interrupt_requests (Irq.v_blank ∷ []) (raised_oam (quiet, c)).0
    ∙ timing-raised_oam quiet c
    ∙ timing-reset_interrupt_requests (Irq.h_blank ∷ Irq.oam ∷ []) left
    ∙ ap (λ m. record (timing p) { mode = m; cycles = p.cycle_count - 4560 })
        (get_mode-set_mode StatMode.reading_oam p.stat)

abbrev left : Timing → Timing
left t =
    if leb 4560 t.cycles
    then record t { mode = StatMode.reading_oam; cycles = t.cycles - 4560 }
    else t

timing-left :
    (p : Ppu) (c : Cpu)
    → timing (if leb 4560 p.cycle_count then leave_v_blank (p, c) else (p, c)).0 ≡ left (timing p)
timing-left p c = ground (arith, timing-leave_v_blank p c)

abbrev pub v_blank_step : ℕ → Timing → Timing
v_blank_step cycles t = left (zeroed (counted cycles t))

pub timing-tick_v_blank :
    (cycles : ℕ) (p : Ppu) (c : Cpu)
    → timing (tick_v_blank cycles (p, c)).0 ≡ v_blank_step cycles (timing p)
unfolding tick_v_blank
timing-tick_v_blank cycles p c =
    let one = count_line cycles (p, c) in
    let two = early_zero one in
    timing-left (two.0) (two.1)
    ∙ ap left (timing-early_zero (one.0) (one.1) ∙ ap zeroed (timing-count_line cycles p c))

pub timing-tick_reading_oam :
    (p : Ppu)
    → timing (tick_reading_oam p) ≡ (
        if leb 80 p.cycle_count
        then record (timing p) { mode = StatMode.reading_oam_vram; cycles = p.cycle_count - 80 }
        else timing p)
unfolding tick_reading_oam
timing-tick_reading_oam p =
    let after = record (in_mode StatMode.reading_oam_vram (take_cycles 80 p)) {
      line_rendered = false;
    } in
    ground (
      arith,
      timing-reset_interrupt_requests (Irq.h_blank ∷ Irq.v_blank ∷ Irq.oam ∷ []) after,
      get_mode-set_mode StatMode.reading_oam_vram p.stat,
    )

pub timing-enter_h_blank :
    (p : Ppu) (c : Cpu)
    → timing (enter_h_blank (p, c)).0
      ≡ record (timing p) { mode = StatMode.h_blank; cycles = p.cycle_count - 172 }
unfolding enter_h_blank
timing-enter_h_blank p c =
    let after = in_mode StatMode.h_blank (take_cycles 172 p) in
    timing-request_if _ Irq.h_blank
      (reset_interrupt_requests (Irq.h_blank ∷ Irq.v_blank ∷ Irq.oam ∷ []) after) c
    ∙ timing-reset_interrupt_requests (Irq.h_blank ∷ Irq.v_blank ∷ Irq.oam ∷ []) after
    ∙ ap (λ m. record (timing p) { mode = m; cycles = p.cycle_count - 172 })
        (get_mode-set_mode StatMode.h_blank p.stat)

pub timing-render : (p : Ppu) → timing (render p).0 ≡ timing p
unfolding render render_window
timing-render p = ground arith
