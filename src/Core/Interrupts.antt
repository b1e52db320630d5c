-- ===== src/Core/Interrupts.antt =====
-- `process_interrupts`, and what `tick` does after an instruction.
use gameboi.Base.{
  ℕ, ◌+◌, ◌-◌, ◌/◌, ◌%◌, ◌^◌, true, false, not, ◌&&◌, ◌==◌, List, [], ◌∷◌, Option, none, some,
  if◌then◌else◌, bit_and, u8, sub8, is_positive8, below8,
}
use gameboi.Cpu.State.{Cpu}
use gameboi.Cpu.Request.{is_in_double_speed}
use gameboi.Cpu.Interrupt
use gameboi.Mmu.Bus.{Bus}
use gameboi.Core.Memory.{modify}
use gameboi.Core.Control.{rst}

-- The array `interrupts`, in its order.
abbrev pub interrupts : List ℕ
interrupts =
    Interrupt.joypad ∷ Interrupt.serial ∷ Interrupt.timer ∷ Interrupt.lcd_stat
    ∷ Interrupt.lcd_vblank ∷ []

-- `std::find_if` with `int_requested`.
abbrev pub first_requested : ℕ → List ℕ → Option ℕ
first_requested pending [] = none
first_requested pending (i ∷ is) =
    if not (bit_and pending i == Interrupt.none) then some i else first_requested pending is

unfoldable pub pending_interrupt : Cpu → Option ℕ
pending_interrupt c = first_requested (bit_and c.interrupt_enable c.interrupt_flags) interrupts

-- The two tests that come before the master enable's.
unfoldable pub wake : ℕ → Cpu → Cpu
wake request c =
    let started =
      if c.is_stopped && (request == Interrupt.joypad)
      then record c { is_stopped = false; is_halted = false }
      else c in
    if started.is_halted && (started.wait_before_unhalt_cycles == 0)
    then record started { wait_before_unhalt_cycles = 12 }
    else started

abbrev pub acknowledge : ℕ → Cpu → Cpu
acknowledge request c = record c {
  interrupt_master_enable = false;
  interrupt_flags = bit_and c.interrupt_flags (0xFF - request);
}

module _ {W : Type 0} (b : Bus W) where
  -- `rst` between the acknowledgement and the extra cycles.
  unfoldable pub service : ℕ → W → W
  service request w =
      modify b (λ c. record c { extra_cycles = 20 })
        (rst b (Interrupt.make_address request) (modify b (acknowledge request) w))

  -- What the search's result leads to.
  unfoldable pub handle : Option ℕ → W → W
  handle none w = w
  handle (some request) w =
      let w' = modify b (wake request) w in
      if (b.cpu w').interrupt_master_enable then service request w' else w'

  unfoldable pub process_interrupts : W → W
  process_interrupts w = handle (pending_interrupt (b.cpu w)) w

-- The wait before a halt ends, after `cycle_count` cycles; the counter is an `int8_t`.
unfoldable pub count_wait : ℕ → Cpu → Cpu
count_wait cycle_count c =
    let left = sub8 c.wait_before_unhalt_cycles cycle_count in
    if is_positive8 c.wait_before_unhalt_cycles
    then if below8 left 1
      then record c { wait_before_unhalt_cycles = 0; is_halted = false }
      else record c { wait_before_unhalt_cycles = left }
    else c

-- The delayed switches of the master enable.
unfoldable pub count_pending : Cpu → Cpu
count_pending c =
    let enable = c.pending_enable_interrupts_counter in
    let enabled =
      if not (enable == 0xFF)
      then record c {
        interrupt_master_enable = if enable == 0 then true else c.interrupt_master_enable;
        pending_enable_interrupts_counter = sub8 enable 1;
      }
      else c in
    let disable = c.pending_disable_interrupts_counter in
    if not (disable == 0xFF)
    then record enabled {
      interrupt_master_enable = if disable == 0 then false else enabled.interrupt_master_enable;
      pending_disable_interrupts_counter = sub8 disable 1;
    }
    else enabled

-- All that `tick` does after the instruction, whose cycles are the argument: the cycles it returns.
unfoldable pub settle : ℕ → Cpu → ℕ × Cpu
settle cycle_count c =
    let waited = count_wait cycle_count c in
    let counted = if not waited.is_halted then count_pending waited else waited in
    let sum = u8 (cycle_count + counted.extra_cycles) in
    let cycles = if is_in_double_speed counted then sum / 2 else sum in
    (cycles, record counted { extra_cycles = 0; total_cycles = (c.total_cycles + cycles) % 2 ^ 64 })
