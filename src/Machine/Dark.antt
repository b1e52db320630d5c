-- ===== src/Machine/Dark.antt =====
-- The whole machine while the screen is off.
use gameboi.Base.{
  ℕ, zero, suc, ◌+◌, ◌*◌, ◌≡◌, Bool, true, false, not, leb, List, Option, some, none, if◌then◌else◌,
  u8, u32, sub16, refl, ap, ◌∙◌, sym, ◌>>=◌,
}
use mathlib.Core.Path.{subst}
use gameboi.Cpu.State.{Cpu}
use gameboi.Cpu.Request.{is_in_double_speed}
use gameboi.Core.Decode
use gameboi.Core.Interrupts.{process_interrupts}
use gameboi.Ppu.State.{Ppu}
use gameboi.Ppu.Screen.{on_ppu, on_chip}
use gameboi.Ppu.Tick
use gameboi.Ppu.Tick.{
  is_positive16, total_frame_cycles, take_cycles, enable_screen, tick_disabled, tick_mode,
}
use gameboi.Ppu.Stat.{get_mode}
use gameboi.Apu.Unit
use gameboi.Machine.Units.{Units, Machine, with_apu}
use gameboi.Machine.Run.{
  machine_bus, tick_timer, tick_apu, tick_link, tick_devices, tick, read_ly, tick_one_frame,
}
use gameboi.Machine.Screen.{read_ly_lem}
use gameboi.Machine.Frames.{tick_one_frame-waits}
use gameboi.Machine.Requests.{unflagged, unflagged-timer, unflagged-link}
use gameboi.Machine.Moves.{kept, screen, ppu-delivered, cpu-delivered}
use gameboi.Machine.Program.{HasStack, moved_stack, left_by, devices-process_interrupts}

-- The screen is off, and nothing waits for it to come on.
pub record IsOff (p : Ppu) : Type 0 where
  pub off : p.lcd_enabled ≡ false
  pub settled : is_positive16 p.lcd_enable_delay_cycle_count ≡ false

-- The machine is as it was but for the picture unit, which is still off, and the flags.
record StaysOff (m m' : Machine) : Type 0 where
  dark : IsOff m'.devices.ppu
  state : kept m' ≡ kept m

either-StaysOff :
    (t : Bool) {m x y : Machine} → StaysOff m x → StaysOff m y → StaysOff m (if t then x else y)
either-StaysOff true h1 h2 = h1
either-StaysOff false h1 h2 = h2

same-StaysOff : (m : Machine) → IsOff m.devices.ppu → StaysOff m m
same-StaysOff m o = record { dark = o; state = refl }

module _ (cgb : Bool) (depth : ℕ) where
  disabled-StaysOff :
      (cycles : ℕ) (m : Machine)
      → IsOff m.devices.ppu
      → StaysOff m (tick_disabled (screen cgb depth) cycles m)
  unfolding tick_disabled
  disabled-StaysOff cycles m o =
      let s = screen cgb depth in
      let p = m.devices.ppu in
      let waits : StaysOff m (
          if leb total_frame_cycles p.cycle_count
          then s.on_vblank (on_ppu s (take_cycles total_frame_cycles) m)
          else m) =
        either-StaysOff (leb total_frame_cycles p.cycle_count)
          (record { dark = record { off = o.off; settled = o.settled }; state = refl })
          (same-StaysOff m o) in
      let coming =
        if not (is_positive16 (sub16 p.lcd_enable_delay_cycle_count cycles))
        then on_chip s enable_screen m
        else on_ppu s
            (λ (q : Ppu). record q {
              lcd_enable_delay_cycle_count = sub16 p.lcd_enable_delay_cycle_count cycles;
            })
            m in
      let waiting =
        if leb total_frame_cycles p.cycle_count
        then s.on_vblank (on_ppu s (take_cycles total_frame_cycles) m)
        else m in
      subst (λ pending. StaysOff m (if pending then coming else waiting)) (sym o.settled) waits

  tick-StaysOff :
      (cycles : ℕ) (m : Machine)
      → IsOff m.devices.ppu
      → StaysOff m (Tick.tick (screen cgb depth) cycles m)
  unfolding Tick.tick
  tick-StaysOff cycles m o =
      let s = screen cgb depth in
      let m' = on_ppu s (λ (p : Ppu). record p { cycle_count = u32 (p.cycle_count + cycles) }) m in
      let p' = m'.devices.ppu in
      let ticked = disabled-StaysOff cycles m' (record { off = o.off; settled = o.settled }) in
      subst
        (λ on.
          StaysOff m (
            if not on then tick_disabled s cycles m' else tick_mode s cycles (get_mode p'.stat) m'))
        (sym o.off) (record { dark = ticked.dark; state = ticked.state })

module _ (mix : List ℕ → ℕ → ℕ) (cgb : Bool) (depth : ℕ) where
  pub tick_devices-IsOff :
      (cycles : ℕ) (m : Machine)
      → IsOff m.devices.ppu
      → IsOff (tick_devices mix cgb depth cycles m).devices.ppu
        × (kept (tick_devices mix cgb depth cycles m) ≡ kept m)
  unfolding tick_devices
  tick_devices-IsOff cycles m o =
      let m1 = tick_timer mix cgb depth cycles m in
      let a = Unit.tick mix cycles m1.devices.apu in
      let m2 = tick_apu mix cgb depth cycles m1 in
      let same_ppu : m2.devices.ppu ≡ m.devices.ppu = ppu-delivered a.1 (with_apu a.0 m1) in
      let same_cpu : m2.cpu ≡ m1.cpu = cpu-delivered a.1 (with_apu a.0 m1) in
      let timed : kept m1 ≡ kept m =
        unflagged-timer (if is_in_double_speed m.cpu then u8 (cycles * 2) else cycles) m.timer
          m.cpu in
      let stays = tick-StaysOff cgb depth cycles m2 (subst IsOff (sym same_ppu) o) in
      let m3 = Tick.tick (screen cgb depth) cycles m2 in
      let m4 = tick_link mix cgb depth cycles m3 in
      let all : StaysOff m m4 = record {
        dark = stays.dark;
        state = unflagged-link cycles m3.link m3.cpu ∙ stays.state ∙ ap unflagged same_cpu ∙ timed;
      } in
      let result = either-StaysOff (not m.cpu.is_stopped) all (same-StaysOff m o) in
      (result.dark, result.state)

  -- What the processor's instruction has to do at `m` for the screen to stay off: return, leave the
  -- picture unit off with nothing pending, and have the stack in the work RAM.
  pub record DarkStep (m : Machine) : Type 0 where
    pub cycles : ℕ
    pub after : Machine
    pub executed : Decode.tick (machine_bus mix cgb depth) m ≡ some (cycles, after)
    pub dark : IsOff after.devices.ppu
    pub stack : HasStack after.cpu

  abbrev pub dark_next : (m : Machine) → DarkStep m → Machine
  dark_next m s =
      process_interrupts (machine_bus mix cgb depth) (tick_devices mix cgb depth s.cycles s.after)

  pub tick-dark_next : (m : Machine) (s : DarkStep m) → tick mix cgb depth m ≡ some (dark_next m s)
  unfolding tick
  tick-dark_next m s =
      ap
        (λ (o : Option (ℕ × Machine)). o >>= λ (e : ℕ × Machine).
          some
            (process_interrupts (machine_bus mix cgb depth) (tick_devices mix cgb depth e.0 e.1)))
        s.executed

  pub dark_next-IsOff : (m : Machine) (s : DarkStep m) → IsOff (dark_next m s).devices.ppu
  dark_next-IsOff m s =
      let ticked = tick_devices mix cgb depth s.cycles s.after in
      let facts = tick_devices-IsOff s.cycles s.after s.dark in
      let same_stack : ticked.cpu.stack_pointer ≡ s.after.cpu.stack_pointer =
        ap (λ (c : Cpu). c.stack_pointer) facts.1 in
      subst (λ (u : Units). IsOff u.ppu)
        (sym (devices-process_interrupts mix cgb depth ticked (moved_stack same_stack s.stack)))
        facts.0

  module _ (orbit : ℕ → Machine)
      (runs : (n : ℕ) → tick mix cgb depth (orbit n) ≡ some (orbit (suc n)))
      (steps : (n : ℕ) → DarkStep (orbit n)) (start : IsOff (orbit 0).devices.ppu) where
    orbit-IsOff : (n : ℕ) → IsOff (orbit n).devices.ppu
    orbit-IsOff zero = start
    orbit-IsOff (suc n) =
        let same : orbit (suc n) ≡ dark_next (orbit n) (steps n) =
          ap (left_by (orbit n)) (sym (runs n) ∙ tick-dark_next (orbit n) (steps n)) in
        subst (λ (m : Machine). IsOff m.devices.ppu) (sym same)
          (dark_next-IsOff (orbit n) (steps n))

    -- If the screen is off at the start of a run of the machine's ticks, with nothing pending to
    -- turn it on, and every instruction leaves it so and has the stack in the work RAM, then
    -- `tick_one_frame` does not return: no fuel is enough.
    pub tick_one_frame-hangs :
        (fuel : ℕ)
        → tick_one_frame (tick mix cgb depth) (read_ly mix cgb depth) fuel (orbit 0) ≡ none
    tick_one_frame-hangs =
        tick_one_frame-waits (tick mix cgb depth) (read_ly mix cgb depth) orbit runs (λ n.
          read_ly_lem mix cgb depth (orbit n)
          ∙ ap (λ on. if on then (orbit n).devices.ppu.ly else 0) (orbit-IsOff n).off)
