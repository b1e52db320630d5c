-- ===== src/Core/Control.antt =====
-- Jumps, calls, the halt states and `load_hlsp`.
use gameboi.Base.{
  ℕ, ◌+◌, true, false, not, ◌==◌, if◌then◌else◌, bit_and, bit_xor, u16, u32, sign_extend8,
}
use gameboi.Register16.{Register16, value, assign, assign_address8, decrement}
use gameboi.Util.Bit
use gameboi.Util.Mask
use gameboi.Cpu.Flag
use gameboi.Cpu.State.{Cpu, reset_flag, set_flag_if}
use gameboi.Cpu.Registers.{pc}
use gameboi.Mmu.Bus.{Bus}
use gameboi.Core.Memory.{modify, push, pop}

-- `halt`, with the counters' -1 as 0xFF: a pending switch of the interrupts takes effect at once,
-- and the instruction is run again.
unfoldable pub halt : Cpu → Cpu
halt c =
    if not (c.pending_enable_interrupts_counter == 0xFF)
    then record c {
      interrupt_master_enable = true;
      pending_enable_interrupts_counter = 0xFF;
      program_counter = decrement c.program_counter;
    }
    else if not (c.pending_disable_interrupts_counter == 0xFF)
    then record c {
      interrupt_master_enable = false;
      pending_disable_interrupts_counter = 0xFF;
      program_counter = decrement c.program_counter;
    }
    else record c { is_halted = true }

-- A prepared speed switch is carried out instead.
unfoldable pub stop : Cpu → Cpu
stop c =
    if Bit.test c.key_1 0
    then record c { key_1 = Bit.flip (Bit.reset c.key_1 0) 7 }
    else record c { is_stopped = true; is_halted = true }

unfoldable pub jump_register : Register16 → Cpu → Cpu
jump_register reg c = record c { program_counter = reg }

unfoldable pub jump : ℕ → Cpu → Cpu
jump address c = record c { program_counter = assign address }

unfoldable pub jump_relative : ℕ → Cpu → Cpu
jump_relative address c = record c {
  program_counter = assign (u16 (value c.program_counter + sign_extend8 address));
}

-- `load_hlsp`; the sum is an `int`, here its pattern of 32 bits.
unfoldable pub load_hlsp : ℕ → Cpu → Cpu
load_hlsp offset c =
    let sp = value c.stack_pointer in
    let sum = u32 (sp + sign_extend8 offset) in
    let carries = bit_xor (bit_xor sp (sign_extend8 offset)) (bit_and sum 0xFFFF) in
    let cleared = reset_flag Flag.all c in
    let flagged =
      set_flag_if (Mask.test carries 0x0010) Flag.half_carry
        (set_flag_if (Mask.test carries 0x0100) Flag.carry cleared) in
    record flagged { h_l = assign (u16 sum) }

module _ {W : Type 0} (b : Bus W) where
  unfoldable pub rst : ℕ → W → W
  rst address w =
      modify b (λ c. record c { program_counter = assign_address8 address }) (push b pc w)

  unfoldable pub call : ℕ → W → W
  call address w = modify b (jump address) (push b pc w)

  unfoldable pub ret : W → W
  ret w = pop b pc w

  unfoldable pub reti : W → W
  reti w =
      modify b
        (λ c. record c {
          pending_disable_interrupts_counter = 0xFF;
          pending_enable_interrupts_counter = 0xFF;
          interrupt_master_enable = true;
        })
        (ret w)
