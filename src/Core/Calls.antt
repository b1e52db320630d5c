-- ===== src/Core/Calls.antt =====
-- Calls and returns with the stack in the work RAM.
use gameboi.Base.{ℕ, ◌-◌, ◌≤◌, ◌≡◌, ◌≢◌, Bool, true, arith, refl, ◌∙◌, ap, bit_and}
use gameboi.Register16.{Register16, IsBytes, value, assign_address8, decrement}
use gameboi.Cpu.State.{Cpu}
use gameboi.Cpu.Registers.{sp, pc}
use gameboi.Cpu.Interrupt
use gameboi.Mmu.Bus.{Bus, IsLawful}
use gameboi.Mmu.Bounds.{IsValid}
use gameboi.Core.Memory.{modify, top, push, pop}
use gameboi.Core.Control.{jump, rst, call, ret, reti}
use gameboi.Core.Interrupts.{service, acknowledge}
use gameboi.Core.Stack.{Pushed, push_lem, pop_stored, cpu-modify, mmu-modify, read-modify}

pc-ne-sp : pc ≢ sp
pc-ne-sp e = ground arith

-- The jump to a fixed vector, and what `service` does after it.
abbrev to_vector : ℕ → Cpu → Cpu
to_vector address c = record c { program_counter = assign_address8 address }

abbrev paid : Cpu → Cpu
paid c = record c { extra_cycles = 20 }

abbrev returned : Register16 → Register16 → Cpu → Cpu
returned sp0 pc0 c = record c { stack_pointer = sp0; program_counter = pc0 }

abbrev twice_lowered : Cpu → Cpu
twice_lowered c = record c { stack_pointer = decrement (decrement c.stack_pointer) }

-- What `reti` does after `ret`.
abbrev enabled_again : Cpu → Cpu
enabled_again c = record c {
  pending_disable_interrupts_counter = 0xFF;
  pending_enable_interrupts_counter = 0xFF;
  interrupt_master_enable = true;
}

module _ {W : Type 0} (b : Bus W) (lawful : IsLawful b) (cgb : Bool) where
  -- A jump between the push of the program counter and its pop changes nothing that `ret` needs.
  ret_after :
      (f : Cpu → Cpu) (w w' : W)
      → IsBytes (b.cpu w).stack_pointer
      → 0xC002 ≤ top b w
      → top b w ≤ 0xE000
      → Pushed b lawful cgb pc w w'
      → (f (b.cpu w')).stack_pointer ≡ (b.cpu w').stack_pointer
      → b.cpu (pop b pc (modify b f w')) ≡ record (f (b.cpu w')) {
        stack_pointer = (b.cpu w).stack_pointer;
        program_counter = (b.cpu w).program_counter;
      }
  ret_after f w w' bytes lo hi p keeps =
      pop_stored b lawful cgb pc ((b.cpu w).program_counter) w (modify b f w') pc-ne-sp bytes lo hi
        (ap (λ x. x.stack_pointer) (cpu-modify b lawful cgb f w')
          ∙ keeps
          ∙ ap (λ x. x.stack_pointer) (p.cpu_after))
        (read-modify b lawful cgb f (top b w - 1) w' (omega arith) (omega arith) ∙ p.high_stored)
        (read-modify b lawful cgb f (top b w - 2) w' (omega arith) (omega arith) ∙ p.low_stored)
      ∙ ap (returned ((b.cpu w).stack_pointer) ((b.cpu w).program_counter))
          (cpu-modify b lawful cgb f w')

  -- With the stack in the work RAM, a return right after a call leaves the processor as it was.
  pub ret-call :
      (address : ℕ) (w : W)
      → IsValid cgb (b.mmu w)
      → IsBytes (b.cpu w).stack_pointer
      → 0xC002 ≤ top b w
      → top b w ≤ 0xE000
      → b.cpu (ret b (call b address w)) ≡ b.cpu w
  unfolding call ret jump
  ret-call address w v bytes lo hi =
      let p = push_lem b lawful cgb pc w pc-ne-sp v bytes lo hi in
      ret_after (jump address) w (push b pc w) bytes lo hi p refl
      ∙ ap (λ x. returned ((b.cpu w).stack_pointer) ((b.cpu w).program_counter) (jump address x))
          (p.cpu_after)

  -- The same for `rst`.
  pub ret-rst :
      (address : ℕ) (w : W)
      → IsValid cgb (b.mmu w)
      → IsBytes (b.cpu w).stack_pointer
      → 0xC002 ≤ top b w
      → top b w ≤ 0xE000
      → b.cpu (ret b (rst b address w)) ≡ b.cpu w
  unfolding rst ret
  ret-rst address w v bytes lo hi =
      let p = push_lem b lawful cgb pc w pc-ne-sp v bytes lo hi in
      ret_after (to_vector address) w (push b pc w) bytes lo hi p refl
      ∙ ap
          (λ x.
            returned ((b.cpu w).stack_pointer) ((b.cpu w).program_counter) (to_vector address x))
          (p.cpu_after)

  -- `service` on the processor: it stands at the vector, the return address lies on the stack, and
  -- the master enable is off.
  pub cpu-service :
      (request : ℕ) (w : W)
      → IsValid cgb (b.mmu w)
      → IsBytes (b.cpu w).stack_pointer
      → 0xC002 ≤ top b w
      → top b w ≤ 0xE000
      → b.cpu (service b request w) ≡ record (acknowledge request (b.cpu w)) {
        stack_pointer = decrement (decrement (b.cpu w).stack_pointer);
        program_counter = assign_address8 (Interrupt.make_address request);
        extra_cycles = 20;
      }
  unfolding service rst
  cpu-service request w v bytes lo hi =
      let vector = Interrupt.make_address request in
      let w1 = modify b (acknowledge request) w in
      let c1 = cpu-modify b lawful cgb (acknowledge request) w in
      let v1 : IsValid cgb (b.mmu w1) = rw (mmu-modify b lawful cgb (acknowledge request) w) v in
      let same : top b w1 ≡ top b w = ap (λ x. value x.stack_pointer) c1 in
      let bytes1 : IsBytes (b.cpu w1).stack_pointer = rw c1 bytes in
      let p = push_lem b lawful cgb pc w1 pc-ne-sp v1 bytes1 (omega arith) (omega arith) in
      let w2 = push b pc w1 in
      cpu-modify b lawful cgb paid (modify b (to_vector vector) w2)
      ∙ ap paid (
          cpu-modify b lawful cgb (to_vector vector) w2
          ∙ ap (to_vector vector) (p.cpu_after ∙ ap twice_lowered c1))

  -- With the stack in the work RAM, a `reti` right after an interrupt is taken resumes the program
  -- where it was: all registers are back, the interrupts are enabled again, the request is
  -- acknowledged and its 20 extra cycles are due.
  pub reti-service :
      (request : ℕ) (w : W)
      → IsValid cgb (b.mmu w)
      → IsBytes (b.cpu w).stack_pointer
      → 0xC002 ≤ top b w
      → top b w ≤ 0xE000
      → b.cpu (reti b (service b request w)) ≡ record (b.cpu w) {
        interrupt_master_enable = true;
        interrupt_flags = bit_and (b.cpu w).interrupt_flags (0xFF - request);
        pending_disable_interrupts_counter = 0xFF;
        pending_enable_interrupts_counter = 0xFF;
        extra_cycles = 20;
      }
  unfolding reti ret service rst
  reti-service request w v bytes lo hi =
      let vector = Interrupt.make_address request in
      let w1 = modify b (acknowledge request) w in
      let c1 = cpu-modify b lawful cgb (acknowledge request) w in
      let v1 : IsValid cgb (b.mmu w1) = rw (mmu-modify b lawful cgb (acknowledge request) w) v in
      let same : top b w1 ≡ top b w = ap (λ x. value x.stack_pointer) c1 in
      let bytes1 : IsBytes (b.cpu w1).stack_pointer = rw c1 bytes in
      let p = push_lem b lawful cgb pc w1 pc-ne-sp v1 bytes1 (omega arith) (omega arith) in
      let w2 = push b pc w1 in
      let w3 = modify b (to_vector vector) w2 in
      let w4 = modify b paid w3 in
      let c4 =
        cpu-modify b lawful cgb paid w3
        ∙ ap paid
            (cpu-modify b lawful cgb (to_vector vector) w2 ∙ ap (to_vector vector) p.cpu_after) in
      let popped =
        pop_stored b lawful cgb pc ((b.cpu w1).program_counter) w1 w4 pc-ne-sp bytes1 (omega arith)
          (omega arith) (ap (λ x. x.stack_pointer) c4)
          (read-modify b lawful cgb paid (top b w1 - 1) w3 (omega arith) (omega arith)
            ∙ read-modify b lawful cgb (to_vector vector) (top b w1 - 1) w2 (omega arith)
                (omega arith)
            ∙ p.high_stored)
          (read-modify b lawful cgb paid (top b w1 - 2) w3 (omega arith) (omega arith)
            ∙ read-modify b lawful cgb (to_vector vector) (top b w1 - 2) w2 (omega arith)
                (omega arith)
            ∙ p.low_stored) in
      cpu-modify b lawful cgb enabled_again (pop b pc w4)
      ∙ ap enabled_again (
          popped
          ∙ ap (returned ((b.cpu w1).stack_pointer) ((b.cpu w1).program_counter)) c4
          ∙ ap
              (λ x.
                returned (x.stack_pointer) (x.program_counter)
                  (paid (to_vector vector (twice_lowered x))))
              c1)
