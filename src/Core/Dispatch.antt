-- ===== src/Core/Dispatch.antt =====
-- Which interrupt is taken, and when.
use gameboi.Base.{
  ℕ, zero, suc, ◌+◌, ◌%◌, ◌^◌, ◌≤◌, ◌<◌, ◌≡◌, Bool, false, none, some, arith, refl, ◌∙◌, ap,
  bit_and, bit_and_bit,
}
use gameboi.Register16.{Register16, assign_address8, decrement}
use gameboi.Cpu.State.{Cpu}
use gameboi.Mmu.Bus.{Bus, IsLawful}
use gameboi.Core.Memory.{modify}
use gameboi.Core.Interrupts.{pending_interrupt, wake, acknowledge, handle, process_interrupts}
use gameboi.Core.Stack.{cpu-modify}

-- What is requested and enabled, as the five interrupts' bits.
abbrev pub requests : Cpu → ℕ
requests c = bit_and c.interrupt_enable c.interrupt_flags % 32

-- `k` is the highest bit of `n`.
pub record IsHighest (k n : ℕ) : Type 0 where
  pub is_there : 2 ^ k ≤ n
  pub none_above : n < 2 ^ (k + 1)

-- Nothing is found exactly when no interrupt is both requested and enabled.
pub pending-none : (c : Cpu) → requests c ≡ 0 → pending_interrupt c ≡ none
unfolding pending_interrupt
pending-none c h =
    let p = bit_and c.interrupt_enable c.interrupt_flags in
    ground
      (arith, bit_and_bit 0 p, bit_and_bit 1 p, bit_and_bit 2 p, bit_and_bit 3 p, bit_and_bit 4 p)

-- The interrupt that is found is the one of the highest bit.
pub pending-highest :
    (k : ℕ) (c : Cpu) → k < 5 → IsHighest k (requests c) → pending_interrupt c ≡ some (2 ^ k)
unfolding pending_interrupt
pending-highest zero c hk h =
    let p = bit_and c.interrupt_enable c.interrupt_flags in
    let there = h.is_there in
    let above = h.none_above in
    ground
      (arith, bit_and_bit 4 p, bit_and_bit 3 p, bit_and_bit 2 p, bit_and_bit 1 p, bit_and_bit 0 p)
pending-highest (suc zero) c hk h =
    let p = bit_and c.interrupt_enable c.interrupt_flags in
    let there = h.is_there in
    let above = h.none_above in
    ground (arith, bit_and_bit 4 p, bit_and_bit 3 p, bit_and_bit 2 p, bit_and_bit 1 p)
pending-highest (suc (suc zero)) c hk h =
    let p = bit_and c.interrupt_enable c.interrupt_flags in
    let there = h.is_there in
    let above = h.none_above in ground (arith, bit_and_bit 4 p, bit_and_bit 3 p, bit_and_bit 2 p)
pending-highest (suc (suc (suc zero))) c hk h =
    let p = bit_and c.interrupt_enable c.interrupt_flags in
    let there = h.is_there in
    let above = h.none_above in ground (arith, bit_and_bit 4 p, bit_and_bit 3 p)
pending-highest (suc (suc (suc (suc zero)))) c hk h =
    let p = bit_and c.interrupt_enable c.interrupt_flags in
    let there = h.is_there in let above = h.none_above in ground (arith, bit_and_bit 4 p)
pending-highest (suc (suc (suc (suc (suc k))))) c hk h = absurd (omega arith)

wake-master :
    (request : ℕ) (c : Cpu) → (wake request c).interrupt_master_enable ≡ c.interrupt_master_enable
unfolding wake
wake-master request c = ground arith

pub wake-stack : (request : ℕ) (c : Cpu) → (wake request c).stack_pointer ≡ c.stack_pointer
unfolding wake
wake-stack request c = ground arith

abbrev taken : ℕ → ℕ → Register16 → Cpu → Cpu
taken request address s c = record (acknowledge request c) {
  stack_pointer = decrement (decrement s);
  program_counter = assign_address8 address;
  extra_cycles = 20;
}

module _ {W : Type 0} (b : Bus W) (lawful : IsLawful b) (cgb : Bool) where
  -- Without a request that is enabled nothing happens.
  pub process_interrupts-idle : (w : W) → requests (b.cpu w) ≡ 0 → process_interrupts b w ≡ w
  unfolding process_interrupts handle
  process_interrupts-idle w h = ap (λ o. handle b o w) (pending-none (b.cpu w) h)

  -- With the interrupts disabled a request that is enabled only ends a stop or starts the end of a
  -- halt: the program goes on where it is.
  process_interrupts-disabled :
      (k : ℕ) (w : W)
      → k < 5
      → IsHighest k (requests (b.cpu w))
      → (b.cpu w).interrupt_master_enable ≡ false
      → process_interrupts b w ≡ modify b (wake (2 ^ k)) w
  unfolding process_interrupts handle
  process_interrupts-disabled k w hk h ime =
      let c' = cpu-modify b lawful cgb (wake (2 ^ k)) w in
      let off = ap (λ x. x.interrupt_master_enable) c' ∙ wake-master (2 ^ k) (b.cpu w) ∙ ime in
      ap (λ o. handle b o w) (pending-highest k (b.cpu w) hk h) ∙ rw off refl
