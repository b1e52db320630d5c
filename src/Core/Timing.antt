-- ===== src/Core/Timing.antt =====
-- Delayed switches of the interrupts, the end of a halt, and the speed switch.
use gameboi.Base.{
  ℕ, ◌-◌, ◌%◌, ◌≤◌, ◌<◌, ◌≡◌, true, false, ◌==◌, arith, refl, bit_and, bit_and_bit, if◌then◌else◌,
  ltb, sub8,
}
use gameboi.Util.Bit
use gameboi.Cpu.State.{Cpu}
use gameboi.Cpu.Request.{on_key_1_write, is_in_double_speed}
use gameboi.Core.Control.{stop}
use gameboi.Core.Interrupts.{settle, count_wait, count_pending}

-- One instruction outside a halt, with no switch-off pending.
record Running (c c' : Cpu) : Type 0 where
  runs : c'.is_halted ≡ false
  no_wait : c'.wait_before_unhalt_cycles ≡ 0
  no_disable : c'.pending_disable_interrupts_counter ≡ 0xFF
  counts : c'.pending_enable_interrupts_counter ≡ (
      if c.pending_enable_interrupts_counter == 0xFF
      then 0xFF
      else sub8 c.pending_enable_interrupts_counter 1)
  switches :
      c'.interrupt_master_enable
      ≡ (if c.pending_enable_interrupts_counter == 0 then true else c.interrupt_master_enable)

settle-runs :
    (k : ℕ) (c : Cpu)
    → c.is_halted ≡ false
    → c.wait_before_unhalt_cycles ≡ 0
    → c.pending_disable_interrupts_counter ≡ 0xFF
    → Running c (settle k c).1
unfolding settle count_wait count_pending
settle-runs k c h w d = record {
  runs = ground arith;
  no_wait = ground arith;
  no_disable = ground arith;
  counts = ground arith;
  switches = ground arith;
}

-- Outside a halt, with a switch-on of the interrupts pending as `EI` leaves it and no switch-off,
-- the interrupts stay as they are for one instruction and are on after the next, whatever the two
-- instructions cost.
settle-enables :
    (k1 k2 : ℕ) (c : Cpu)
    → c.is_halted ≡ false
    → c.wait_before_unhalt_cycles ≡ 0
    → c.pending_enable_interrupts_counter ≡ 1
    → c.pending_disable_interrupts_counter ≡ 0xFF
    → ((settle k1 c).1.interrupt_master_enable ≡ c.interrupt_master_enable)
      × ((settle k2 (settle k1 c).1).1.interrupt_master_enable ≡ true)
      × ((settle k2 (settle k1 c).1).1.pending_enable_interrupts_counter ≡ 0xFF)
settle-enables k1 k2 c h w e d =
    let r1 = settle-runs k1 c h w d in
    let r2 = settle-runs k2 ((settle k1 c).1) (r1.runs) (r1.no_wait) (r1.no_disable) in
    let counts1 = r1.counts in
    let switches1 = r1.switches in
    let counts2 = r2.counts in
    let switches2 = r2.switches in (ground arith, ground arith, ground arith)

-- In a halt whose wait has begun, a tick of `k` cycles takes `k` off the wait, down to 0, and ends
-- the halt exactly when nothing is left.
settle-unhalts :
    (k : ℕ) (c : Cpu)
    → c.is_halted ≡ true
    → 0 < c.wait_before_unhalt_cycles
    → c.wait_before_unhalt_cycles ≤ 12
    → k < 100
    → ((settle k c).1.is_halted ≡ ltb k c.wait_before_unhalt_cycles)
      × ((settle k c).1.wait_before_unhalt_cycles ≡ c.wait_before_unhalt_cycles - k)
unfolding settle count_wait count_pending
settle-unhalts k c h w12 w hk = (ground arith, ground arith)

-- The switch of the speed never leads back: in the colour mode, a program that prepares the switch
-- and stops is in double speed after it, whatever the speed was, because the write that prepares
-- the switch clears the bit that shows the speed.
pub stop-on_key_1_write :
    (val : ℕ) (c : Cpu) → val % 2 ≡ 1 → is_in_double_speed (stop (on_key_1_write true val c)) ≡ true
unfolding stop on_key_1_write is_in_double_speed Bit.test Bit.reset Bit.flip
stop-on_key_1_write val c h =
    let one : bit_and val 0x01 ≡ 1 = ground (arith, bit_and_bit 0 val) in rw one refl
