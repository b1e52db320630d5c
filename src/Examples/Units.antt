-- ===== src/Examples/Units.antt =====
-- Machines with the picture and sound units, as they are after `reset`.
use gameboi.Base.{Bool, [], refl}
use gameboi.Cpu.State.{Cpu}
use gameboi.Ppu.State.{initial_transfer}
use gameboi.Ppu.State as PpuState
use gameboi.Ppu.Screen.{Screen, IsLawful}
use gameboi.Apu.Unit
use gameboi.System.{bus}
use gameboi.Machine.Units.{Units, Machine, devices_at, screen_of, screen_of-IsLawful}
use gameboi.Examples.Machine.{machine_with}

abbrev pub test_units : Bool → Units
test_units cgb = record {
  ppu = PpuState.reset cgb initial_transfer;
  apu = Unit.initial;
  lines = [];
  vblanks = 0;
  buffers = [];
}

abbrev pub test_machine : Bool → Machine
test_machine cgb = machine_with {D = Units} (test_units cgb) cgb

abbrev pub test_screen : Bool → Screen Machine
test_screen cgb = screen_of (bus (devices_at cgb 1))

pub test_screen-IsLawful : (cgb : Bool) → IsLawful (test_screen cgb)
test_screen-IsLawful cgb =
    screen_of-IsLawful (bus (devices_at cgb 1)) (λ (c : Cpu) (m : Machine). refl)
