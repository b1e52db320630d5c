-- ===== src/Cpu/Reset.antt =====
-- `cpu::reset` in gameboy/src/cpu/cpu.cpp; the handlers that it registers are in `System`.
use gameboi.Base.{Bool, false, if◌then◌else◌}
use gameboi.Register16.{assign}
use gameboi.Cpu.State.{Cpu}
use gameboi.Cpu.Interrupt

-- With the cartridge's `cgb_enabled()`; the speed switch register is left alone.
unfoldable pub reset : Bool → Cpu → Cpu
reset cgb c = record {
  a_f = assign (if cgb then 0x1180 else 0x01B0);
  b_c = assign (if cgb then 0x0000 else 0x0013);
  d_e = assign (if cgb then 0xFF56 else 0x00D8);
  h_l = assign (if cgb then 0x000D else 0x014D);
  stack_pointer = assign 0xFFFE;
  program_counter = assign 0x0100;
  key_1 = c.key_1;
  total_cycles = 0;
  interrupt_flags = if cgb then Interrupt.lcd_vblank else Interrupt.none;
  interrupt_enable = Interrupt.none;
  interrupt_master_enable = false;
  pending_disable_interrupts_counter = 0xFF;
  pending_enable_interrupts_counter = 0xFF;
  is_stopped = false;
  is_halted = false;
  wait_before_unhalt_cycles = 0;
  extra_cycles = 0;
}
