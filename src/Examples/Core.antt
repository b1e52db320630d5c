-- ===== src/Examples/Core.antt =====
-- The processor's instructions and interrupts on the small machine.
use gameboi.Base.{ℕ, ◌≤◌, ◌≡◌, true, false, refl, arith}
use gameboi.Register16.{value}
use gameboi.Util.Carry.{word}
use gameboi.Cpu.Registers.{bc, de}
use gameboi.Cpu.Request.{on_key_1_write, is_in_double_speed}
use gameboi.Mmu.Bounds.{reset-IsValid}
use gameboi.Core.Memory.{top, push, pop}
use gameboi.Core.Control.{reti, ret, call, stop}
use gameboi.Core.Interrupts.{service}
use gameboi.Core.Stack.{pop-push}
use gameboi.Core.Calls.{reti-service, ret-call}
use gameboi.Core.Timing.{stop-on_key_1_write}
use gameboi.System.{System}
use gameboi.Examples.Machine.{machine_of, test_cpu, test_bus, test-IsLawful, stack_IsBytes}

abbrev machine : System ℕ
machine = machine_of false

stack_low : 0xC002 ≤ top test_bus machine
unfolding value word
stack_low = omega arith

stack_high : top test_bus machine ≤ 0xE000
unfolding value word
stack_high = omega arith

reti-service_example : test_bus.cpu (reti test_bus (service test_bus 4 machine)) ≡ record test_cpu {
  interrupt_master_enable = true;
  interrupt_flags = 1;
  pending_disable_interrupts_counter = 0xFF;
  pending_enable_interrupts_counter = 0xFF;
  extra_cycles = 20;
}
reti-service_example =
    reti-service test_bus test-IsLawful false 4 machine (reset-IsValid false) stack_IsBytes
      stack_low stack_high

pop-push_example :
    test_bus.cpu (pop test_bus de (push test_bus bc machine))
    ≡ record test_cpu { d_e = record { high = 0x12; low = 0x34 } }
pop-push_example =
    pop-push test_bus test-IsLawful false bc de machine (λ e. ground arith) (λ e. ground arith)
      (reset-IsValid false) stack_IsBytes stack_low stack_high

ret-call_example : test_bus.cpu (ret test_bus (call test_bus 0x4000 machine)) ≡ test_cpu
ret-call_example =
    ret-call test_bus test-IsLawful false 0x4000 machine (reset-IsValid false) stack_IsBytes
      stack_low stack_high

stop-on_key_1_write_example : is_in_double_speed (stop (on_key_1_write true 1 test_cpu)) ≡ true
stop-on_key_1_write_example = stop-on_key_1_write 1 test_cpu refl
