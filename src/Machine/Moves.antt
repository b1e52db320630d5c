-- ===== src/Machine/Moves.antt =====
-- A tick of the machine's devices: the picture unit moves, and of the processor's state only the
-- flags change.
use gameboi.Base.{
  ℕ, ◌+◌, ◌*◌, ◌%◌, ◌≤◌, ◌≡◌, Bool, false, not, ◌&&◌, ◌==◌, leb, List, [], ◌∷◌, Option, some, none,
  if◌then◌else◌, u8, u32, sub8, is_positive8, refl, ap, ◌∙◌, sym,
}
use mathlib.Core.Path.{subst}
use gameboi.Cpu.State.{Cpu}
use gameboi.Cpu.Request.{is_in_double_speed}
use gameboi.Ppu.Irq
use gameboi.Ppu.Stat.{StatMode}
use gameboi.Ppu.State.{Ppu, reset_interrupt_requests}
use gameboi.Ppu.Screen.{Screen, IsLawful, on_ppu, on_chip}
use gameboi.Ppu.Dma.{hdma}
use gameboi.Ppu.Tick
use gameboi.Ppu.Tick.{
  next_line, enter_v_blank, raised_oam, start_v_blank, leave_h_blank, render_line, enter_h_blank,
  tick_v_blank, tick_reading_oam, tick_reading_oam_vram, tick_mode, tick_disabled,
}
use gameboi.Ppu.Timing.{timing}
use gameboi.Ppu.Timing.Raster.{skipped, kept_on, at-on_chip-next_line}
use gameboi.Ppu.Timing.Frame.{frame, dots, IsRunning}
use gameboi.Ppu.Timing.Run.{tick-dots}
use gameboi.Apu.Unit
use gameboi.System.{bus}
use gameboi.Machine.Units.{Machine, screen_of, screen_of-IsLawful, devices_at, with_apu, with_units}
use gameboi.Machine.Run.{tick_timer, tick_apu, tick_link, tick_devices}
use gameboi.Machine.Requests.{
  unflagged, either, rest-next_line, rest-enter_v_blank, rest-raised_oam, rest-tick_v_blank,
  rest-enter_h_blank, unflagged-timer, unflagged-link,
}

abbrev pub kept : Machine → Cpu
kept m = unflagged m.cpu

module _ (cgb : Bool) (depth : ℕ) where
  abbrev pub screen : Screen Machine
  screen = screen_of (bus (devices_at cgb depth))

  screen-IsLawful : IsLawful screen
  screen-IsLawful =
      screen_of-IsLawful (bus (devices_at cgb depth)) (λ (c : Cpu) (m : Machine). refl)

  kept-start_v_blank : (m : Machine) → kept (start_v_blank screen m) ≡ kept m
  unfolding start_v_blank
  kept-start_v_blank m =
      let m' = on_chip screen enter_v_blank m in
      let entered : kept m' ≡ kept m = rest-enter_v_blank m.devices.ppu m.cpu in
      either kept (is_positive8 m'.devices.ppu.lcd_enable_delay_frame_count)
        {x = on_ppu screen
          (λ (p : Ppu). record p {
            lcd_enable_delay_frame_count = sub8 p.lcd_enable_delay_frame_count 1;
          })
          m'}
        {y = screen.on_vblank m'} entered entered

  kept-leave_h_blank :
      (m : Machine)
      → (timing m.devices.ppu).transfers ≡ false
      → kept (leave_h_blank screen m) ≡ kept m
  unfolding leave_h_blank
  kept-leave_h_blank m quiet =
      let m1 = on_chip screen next_line m in
      let one : kept m1 ≡ kept m = rest-next_line m.devices.ppu m.cpu in
      let quiet1 : (timing m1.devices.ppu).transfers ≡ false =
        ap (λ t. t.transfers) (at-on_chip-next_line screen screen-IsLawful m) ∙ quiet in
      let m2 = if (timing m1.devices.ppu).transfers then hdma screen m1 else m1 in
      let two : kept m2 ≡ kept m =
        ap kept (skipped (timing m1.devices.ppu).transfers quiet1 (hdma screen m1) m1) ∙ one in
      let m3 = on_ppu screen (reset_interrupt_requests (Irq.v_blank ∷ Irq.oam ∷ [])) m2 in
      either kept (m3.devices.ppu.ly == 144) {x = start_v_blank screen m3}
        {y = on_chip screen raised_oam m3} (kept-start_v_blank m3 ∙ two)
        (rest-raised_oam m3.devices.ppu m3.cpu ∙ two)

  kept-tick_reading_oam_vram : (m : Machine) → kept (tick_reading_oam_vram screen m) ≡ kept m
  unfolding tick_reading_oam_vram render_line
  kept-tick_reading_oam_vram m =
      let t = leb 160 m.devices.ppu.cycle_count && not m.devices.ppu.line_rendered in
      let m1 = if t then render_line screen m else m in
      let one : kept m1 ≡ kept m = either kept t {x = render_line screen m} {y = m} refl refl in
      either kept (leb 172 m1.devices.ppu.cycle_count) {x = on_chip screen enter_h_blank m1}
        {y = m1} (rest-enter_h_blank m1.devices.ppu m1.cpu ∙ one) one

  kept-tick_mode :
      (cycles : ℕ) (mode : StatMode) (m : Machine)
      → (timing m.devices.ppu).transfers ≡ false
      → kept (tick_mode screen cycles mode m) ≡ kept m
  unfolding tick_mode
  kept-tick_mode cycles StatMode.h_blank m quiet =
      either kept (leb 204 m.devices.ppu.cycle_count) {x = leave_h_blank screen m} {y = m}
        (kept-leave_h_blank m quiet) refl
  kept-tick_mode cycles StatMode.v_blank m quiet = rest-tick_v_blank cycles m.devices.ppu m.cpu
  kept-tick_mode cycles StatMode.reading_oam m quiet = refl
  kept-tick_mode cycles StatMode.reading_oam_vram m quiet = kept-tick_reading_oam_vram m

  kept-tick :
      (cycles : ℕ) (m : Machine)
      → IsRunning (timing m.devices.ppu)
      → kept (Tick.tick screen cycles m) ≡ kept m
  unfolding Tick.tick
  kept-tick cycles m r =
      let m' =
        on_ppu screen (λ (p : Ppu). record p { cycle_count = u32 (p.cycle_count + cycles) }) m in
      let mode = (timing m.devices.ppu).mode in
      ap kept (
        kept_on m.devices.ppu.lcd_enabled r.on (tick_disabled screen cycles m')
          (tick_mode screen cycles mode m'))
      ∙ kept-tick_mode cycles mode m' r.quiet

-- The sound unit's callback.
abbrev pub delivered : Option (List ℕ) → Machine → Machine
delivered full m = elim full [
  | none ↦ m
  | some buffer ↦ with_units (λ u. record u { buffers = buffer ∷ u.buffers }) m
]

pub ppu-delivered :
    (full : Option (List ℕ)) (m : Machine) → (delivered full m).devices.ppu ≡ m.devices.ppu
ppu-delivered none m = refl
ppu-delivered (some buffer) m = refl

pub cpu-delivered : (full : Option (List ℕ)) (m : Machine) → (delivered full m).cpu ≡ m.cpu
cpu-delivered none m = refl
cpu-delivered (some buffer) m = refl

-- The picture unit runs and is `cycles` dots further, and the processor's state is kept.
pub record Moved (cycles : ℕ) (m m' : Machine) : Type 0 where
  pub running : IsRunning (timing m'.devices.ppu)
  pub place : dots (timing m'.devices.ppu) ≡ (dots (timing m.devices.ppu) + cycles) % frame
  pub state : kept m' ≡ kept m

module _ (mix : List ℕ → ℕ → ℕ) (cgb : Bool) (depth : ℕ) where
  pub tick_devices-Moved :
      (cycles : ℕ) (m : Machine)
      → m.cpu.is_stopped ≡ false
      → IsRunning (timing m.devices.ppu)
      → cycles ≤ 80
      → Moved cycles m (tick_devices mix cgb depth cycles m)
  unfolding tick_devices
  tick_devices-Moved cycles m awake r short =
      let m1 = tick_timer mix cgb depth cycles m in
      let a = Unit.tick mix cycles m1.devices.apu in
      let m2 = tick_apu mix cgb depth cycles m1 in
      let same_ppu : m2.devices.ppu ≡ m.devices.ppu = ppu-delivered a.1 (with_apu a.0 m1) in
      let same_cpu : m2.cpu ≡ m1.cpu = cpu-delivered a.1 (with_apu a.0 m1) in
      let timed : kept m1 ≡ kept m =
        unflagged-timer (if is_in_double_speed m.cpu then u8 (cycles * 2) else cycles) m.timer
          m.cpu in
      let r2 : IsRunning (timing m2.devices.ppu) =
        subst (λ p. IsRunning (timing p)) (sym same_ppu) r in
      let m3 = Tick.tick (screen cgb depth) cycles m2 in
      let moved = tick-dots (screen cgb depth) (screen-IsLawful cgb depth) cycles m2 r2 short in
      let m4 = tick_link mix cgb depth cycles m3 in
      let all : Moved cycles m m4 = record {
        running = moved.0;
        place = moved.1 ∙ ap (λ p. (dots (timing p) + cycles) % frame) same_ppu;
        state =
            unflagged-link cycles m3.link m3.cpu
            ∙ kept-tick cgb depth cycles m2 r2
            ∙ ap unflagged same_cpu
            ∙ timed;
      } in
      subst (λ stopped. Moved cycles m (if not stopped then m4 else m)) (sym awake) all
