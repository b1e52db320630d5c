-- ===== src/Machine/Program.antt =====
-- The whole machine under a program: what an instruction must leave for the picture unit to go on.
use gameboi.Base.{
  ℕ, ◌+◌, ◌-◌, ◌%◌, ◌≤◌, ◌<◌, ◌≡◌, Bool, false, List, Option, some, none, arith, refl, ap, ◌∙◌, sym,
  ◌>>=◌,
}
use mathlib.Core.Path.{subst}
use gameboi.Register16.{IsBytes, value, decrement}
use gameboi.Register16.Laws.{decrement_lem, decrement-IsBytes}
use gameboi.Cpu.State.{Cpu}
use gameboi.Cpu.Registers.{pc, get16}
use gameboi.Mmu.Bus.{Bus}
use gameboi.Mmu.Map.{write}
use gameboi.Mmu.Wram.{write_in_wram}
use gameboi.Core.Memory.{modify, lower_stack, push}
use gameboi.Core.Control.{rst}
use gameboi.Core.Decode
use gameboi.Core.Interrupts.{
  wake, acknowledge, service, handle, process_interrupts, pending_interrupt,
}
use gameboi.Core.Dispatch.{wake-stack}
use gameboi.Ppu.Timing.{timing}
use gameboi.Ppu.Timing.Frame.{frame, dots, IsRunning}
use gameboi.Machine.Units.{Units, Machine}
use gameboi.Machine.Run.{machine_bus, tick_devices, tick}
use gameboi.Machine.Requests.{either}
use gameboi.Machine.Moves.{tick_devices-Moved}

-- The stack, with the two bytes below it, is in the work RAM.
pub record HasStack (c : Cpu) : Type 0 where
  pub bytes : IsBytes c.stack_pointer
  pub low : 0xC002 ≤ value c.stack_pointer
  pub high : value c.stack_pointer ≤ 0xE000

pub moved_stack : {c c' : Cpu} → c'.stack_pointer ≡ c.stack_pointer → HasStack c → HasStack c'
moved_stack same h = record {
  bytes = subst IsBytes (sym same) h.bytes;
  low = subst (λ s. 0xC002 ≤ value s) (sym same) h.low;
  high = subst (λ s. value s ≤ 0xE000) (sym same) h.high;
}

abbrev pub left_by : Machine → Option Machine → Machine
left_by m none = m
left_by m (some m') = m'

module _ (mix : List ℕ → ℕ → ℕ) (cgb : Bool) (depth : ℕ) where
  abbrev b : Bus Machine
  b = machine_bus mix cgb depth

  -- A write to the work RAM leaves the units and the processor alone.
  devices-write :
      (a val : ℕ) (m : Machine) → 0xC000 ≤ a → a < 0xE000 → (write b a val m).devices ≡ m.devices
  devices-write a val m lo hi = ap (λ (x : Machine). x.devices) (write_in_wram b a val m lo hi)

  cpu-write : (a val : ℕ) (m : Machine) → 0xC000 ≤ a → a < 0xE000 → (write b a val m).cpu ≡ m.cpu
  cpu-write a val m lo hi = ap (λ (x : Machine). x.cpu) (write_in_wram b a val m lo hi)

  devices-push : (m : Machine) → HasStack m.cpu → (push b pc m).devices ≡ m.devices
  unfolding push
  devices-push m h =
      let bytes = h.bytes in
      let low = h.low in
      let high = h.high in
      let s1 = decrement m.cpu.stack_pointer in
      let first : value s1 ≡ value m.cpu.stack_pointer - 1 = omega (arith, decrement_lem bytes) in
      let m1 = lower_stack b m in
      let v1 = (get16 pc m1.cpu).high in
      let m2 = write b (value s1) v1 m1 in
      let m3 = lower_stack b m2 in
      let inside : 0xC000 ≤ value s1 = omega arith in
      let below : value s1 < 0xE000 = omega arith in
      let second : value m3.cpu.stack_pointer ≡ value m.cpu.stack_pointer - 2 =
        ap (λ (c : Cpu). value (decrement c.stack_pointer))
          (cpu-write (value s1) v1 m1 inside below)
        ∙ omega (arith, first, decrement_lem (decrement-IsBytes m.cpu.stack_pointer)) in
      devices-write (value m3.cpu.stack_pointer) (get16 pc m3.cpu).low m3 (omega arith)
        (omega arith)
      ∙ devices-write (value s1) v1 m1 inside below

  devices-handle :
      (found : Option ℕ) (m : Machine) → HasStack m.cpu → (handle b found m).devices ≡ m.devices
  unfolding handle service rst
  devices-handle none m h = refl
  devices-handle (some request) m h =
      let m' = modify b (wake request) m in
      let moved = wake-stack request m.cpu in
      let h' : HasStack m'.cpu = moved_stack moved h in
      either (λ (x : Machine). x.devices) m'.cpu.interrupt_master_enable {x = service b request m'}
        {y = m'}
        (devices-push (modify b (acknowledge request) m')
          (record { bytes = h'.bytes; low = h'.low; high = h'.high }))
        refl

  -- Whatever interrupt is taken, the units are left alone.
  pub devices-process_interrupts :
      (m : Machine) → HasStack m.cpu → (process_interrupts b m).devices ≡ m.devices
  unfolding process_interrupts
  devices-process_interrupts m h = devices-handle (pending_interrupt m.cpu) m h

  -- What the processor's instruction has to do at `m` for the frame to go on: return, in 1 to 80
  -- cycles; not stop; leave the picture unit's counters and modes alone; and have the stack in the
  -- work RAM.
  pub record Step (m : Machine) : Type 0 where
    pub cycles : ℕ
    pub after : Machine
    pub executed : Decode.tick b m ≡ some (cycles, after)
    pub some_cycle : 1 ≤ cycles
    pub short : cycles ≤ 80
    pub awake : after.cpu.is_stopped ≡ false
    pub screen_kept : timing after.devices.ppu ≡ timing m.devices.ppu
    pub stack : HasStack after.cpu

  abbrev pub next : (m : Machine) → Step m → Machine
  next m s = process_interrupts b (tick_devices mix cgb depth s.cycles s.after)

  pub tick-next : (m : Machine) (s : Step m) → tick mix cgb depth m ≡ some (next m s)
  unfolding tick
  tick-next m s =
      ap
        (λ (o : Option (ℕ × Machine)). o >>= λ (e : ℕ × Machine).
          some (process_interrupts b (tick_devices mix cgb depth e.0 e.1)))
        s.executed

  pub next-Moved :
      (m : Machine) (s : Step m)
      → IsRunning (timing m.devices.ppu)
      → IsRunning (timing (next m s).devices.ppu)
        × (dots (timing (next m s).devices.ppu) ≡ (dots (timing m.devices.ppu) + s.cycles) % frame)
  next-Moved m s r =
      let ticked = tick_devices mix cgb depth s.cycles s.after in
      let moved =
        tick_devices-Moved mix cgb depth s.cycles s.after s.awake
          (subst IsRunning (sym s.screen_kept) r) s.short in
      let same_stack : ticked.cpu.stack_pointer ≡ s.after.cpu.stack_pointer =
        ap (λ (c : Cpu). c.stack_pointer) moved.state in
      let stack : HasStack ticked.cpu = moved_stack same_stack s.stack in
      let kept_units = devices-process_interrupts ticked stack in
      subst
        (λ (u : Units).
          IsRunning (timing u.ppu)
          × (dots (timing u.ppu) ≡ (dots (timing m.devices.ppu) + s.cycles) % frame))
        (sym kept_units)
        (moved.running, moved.place ∙ ap (λ t. (dots t + s.cycles) % frame) s.screen_kept)
