-- ===== src/Examples/Frames.antt =====
-- Frames of concrete machines.
use gameboi.Base.{
  ℕ, zero, suc, ◌+◌, ◌%◌, ◌^◌, ◌≡◌, true, false, List, some, none, arith, refl, ap, zero-bit_and,
  ◌∙◌,
}
use gameboi.Util.Bit
use gameboi.Cpu.State.{Cpu}
use gameboi.Cpu.Request.{is_in_double_speed}
use gameboi.Core.Decode
use gameboi.Core.Interrupts.{settle, count_wait}
use gameboi.System.{bus-IsLawful}
use gameboi.Machine.Moves.{tick_devices-Moved}
use gameboi.Core.Dispatch.{requests, process_interrupts-idle}
use gameboi.Examples.Machine.{test_cpu, stack_IsBytes}
use gameboi.Ppu.State as PpuState
use gameboi.Ppu.Timing.{timing}
use gameboi.Ppu.Timing.Frame.{IsRunning}
use gameboi.Machine.Units.{Machine, devices_at}
use gameboi.Machine.Run.{machine_bus, read_ly, tick, tick_devices, tick_one_frame}
use gameboi.Machine.Dark.{
  IsOff, DarkStep, dark_next, dark_next-IsOff, tick-dark_next, tick_devices-IsOff,
  tick_one_frame-hangs,
}
use gameboi.Ppu.State.{Ppu}
use gameboi.Machine.Program.{Step, next, next-Moved}
use gameboi.Examples.Units.{test_machine}
use gameboi.Examples.Ppu.{gray_IsRunning}

abbrev first_level : List ℕ → ℕ → ℕ
first_level levels volume = volume

-- A processor that has halted with no interrupt enabled, and so never goes on.
abbrev halted_cpu : ℕ → ℕ → Cpu
halted_cpu total flags = record test_cpu {
  is_halted = true;
  interrupt_enable = 0;
  total_cycles = total;
  interrupt_flags = flags;
}

record Halted (m : Machine) : Type 0 where
  total : ℕ
  flags : ℕ
  same : m.cpu ≡ halted_cpu total flags
  running : IsRunning (timing m.devices.ppu)

settle-halted :
    (total flags : ℕ)
    → settle 4 (halted_cpu total flags) ≡ (4, halted_cpu ((total + 4) % 2 ^ 64) flags)
unfolding settle count_wait is_in_double_speed Bit.test
settle-halted total flags = refl

tick-halted :
    (m : Machine) (total flags : ℕ)
    → m.cpu ≡ halted_cpu total flags
    → Decode.tick (machine_bus first_level false 1) m
      ≡ some (4, record m { cpu = halted_cpu ((total + 4) % 2 ^ 64) flags })
unfolding Decode.tick
tick-halted m total flags same = rw (same, settle-halted total flags) refl

halted_Step : (m : Machine) → Halted m → Step first_level false 1 m
unfolding gameboi.Register16.value gameboi.Util.Carry.word
halted_Step m h = record {
  cycles = 4;
  after = record m { cpu = halted_cpu ((h.total + 4) % 2 ^ 64) h.flags };
  executed = tick-halted m h.total h.flags h.same;
  some_cycle = omega arith;
  short = omega arith;
  awake = refl;
  screen_kept = refl;
  stack = record { bytes = stack_IsBytes; low = omega arith; high = omega arith };
}

requests-halted : (total flags : ℕ) → requests (halted_cpu total flags) ≡ 0
requests-halted total flags = ap (λ n. n % 32) (zero-bit_and flags)

halted_next : (m : Machine) (h : Halted m) → Halted (next first_level false 1 m (halted_Step m h))
unfolding halted_Step
halted_next m h =
    let s = halted_Step m h in
    let moved = tick_devices-Moved first_level false 1 4 s.after s.awake h.running (omega arith) in
    let ticked = tick_devices first_level false 1 4 s.after in
    let flags = ticked.cpu.interrupt_flags in
    let total = (h.total + 4) % 2 ^ 64 in
    let same : ticked.cpu ≡ halted_cpu total flags =
      ap (λ (c : Cpu). record c { interrupt_flags = flags }) moved.state in
    let idle : next first_level false 1 m s ≡ ticked =
      process_interrupts-idle (machine_bus first_level false 1) (bus-IsLawful (devices_at false 1))
        false ticked (ap requests same ∙ requests-halted total flags) in
    record {
      total = total;
      flags = flags;
      same = ap (λ (x : Machine). x.cpu) idle ∙ same;
      running = (next-Moved first_level false 1 m s h.running).0;
    }

halted_machine : (m : Machine) × Halted m
halted_machine = (
  record (test_machine false) { cpu = halted_cpu 0 0 },
  record { total = 0; flags = 0; same = refl; running = gray_IsRunning },
)

idle : ℕ → (m : Machine) × Halted m
idle zero = halted_machine
idle (suc n) =
    let (m, h) = idle n in (next first_level false 1 m (halted_Step m h), halted_next m h)

-- The same processor, with the screen off.
record DarkHalted (m : Machine) : Type 0 where
  total : ℕ
  flags : ℕ
  same : m.cpu ≡ halted_cpu total flags
  dark : IsOff m.devices.ppu

dark_Step : (m : Machine) → DarkHalted m → DarkStep first_level false 1 m
unfolding gameboi.Register16.value gameboi.Util.Carry.word
dark_Step m h = record {
  cycles = 4;
  after = record m { cpu = halted_cpu ((h.total + 4) % 2 ^ 64) h.flags };
  executed = tick-halted m h.total h.flags h.same;
  dark = h.dark;
  stack = record { bytes = stack_IsBytes; low = omega arith; high = omega arith };
}

dark_halted_next :
    (m : Machine) (h : DarkHalted m) → DarkHalted (dark_next first_level false 1 m (dark_Step m h))
unfolding dark_Step
dark_halted_next m h =
    let s = dark_Step m h in
    let facts = tick_devices-IsOff first_level false 1 4 s.after h.dark in
    let ticked = tick_devices first_level false 1 4 s.after in
    let flags = ticked.cpu.interrupt_flags in
    let total = (h.total + 4) % 2 ^ 64 in
    let same : ticked.cpu ≡ halted_cpu total flags =
      ap (λ (c : Cpu). record c { interrupt_flags = flags }) facts.1 in
    let stays : dark_next first_level false 1 m s ≡ ticked =
      process_interrupts-idle (machine_bus first_level false 1) (bus-IsLawful (devices_at false 1))
        false ticked (ap requests same ∙ requests-halted total flags) in
    record {
      total = total;
      flags = flags;
      same = ap (λ (x : Machine). x.cpu) stays ∙ same;
      dark = dark_next-IsOff first_level false 1 m s;
    }

abbrev dark_ppu : Ppu
dark_ppu = record (PpuState.reset false PpuState.initial_transfer) { lcd_enabled = false }

dark_machine : (m : Machine) × DarkHalted m
unfolding PpuState.reset
dark_machine =
    let m = test_machine false in
    (
      record m { cpu = halted_cpu 0 0; devices = record m.devices { ppu = dark_ppu } },
      record { total = 0; flags = 0; same = refl; dark = record { off = refl; settled = refl } },
    )

dark_run : ℕ → (m : Machine) × DarkHalted m
dark_run zero = dark_machine
dark_run (suc n) =
    let (m, h) = dark_run n in
    (dark_next first_level false 1 m (dark_Step m h), dark_halted_next m h)

tick-dark_run : (n : ℕ) → tick first_level false 1 (dark_run n).0 ≡ some (dark_run (suc n)).0
unfolding dark_run
tick-dark_run n =
    tick-dark_next first_level false 1 (dark_run n).0 (dark_Step (dark_run n).0 (dark_run n).1)

tick_one_frame-hangs_example :
    tick_one_frame (tick first_level false 1) (read_ly first_level false 1) 3 (dark_run 0).0 ≡ none
tick_one_frame-hangs_example =
    tick_one_frame-hangs first_level false 1 (λ n. (dark_run n).0) tick-dark_run
      (λ n. dark_Step (dark_run n).0 (dark_run n).1) (dark_run 0).1.dark 3
