-- ===== src/Examples/Alu.antt =====
-- The arithmetic of the processor on concrete bytes.
use gameboi.Base.{◌+◌, ◌*◌, ◌≡◌, false, refl, arith}
use gameboi.Util.Mask
use gameboi.Cpu.Flag
use gameboi.Cpu.State.{acc, set_acc, test_flag}
use gameboi.Alu.Arith.{add, add_c}
use gameboi.Alu.Adjust.{decimal_adjust}
use gameboi.Alu.Adjust.Decimal.{decimal_add}
use gameboi.Alu.Chain.{add_c-add}
use gameboi.Examples.Machine.{test_cpu}

add_c-add_example :
    (acc (add_c 0x12 (set_acc 0x8F (add 0x34 (set_acc 0xFF test_cpu)))) * 256
        + acc (add 0x34 (set_acc 0xFF test_cpu))
      ≡ 0xA233)
    × (test_flag Flag.carry (add_c 0x12 (set_acc 0x8F (add 0x34 (set_acc 0xFF test_cpu)))) ≡ false)
add_c-add_example =
    add_c-add 0x8F 0xFF 0x12 0x34 test_cpu (omega arith) (omega arith) (omega arith) (omega arith)

-- 45 + 38 and a carry of 1 make 84; 45 - 38 and a borrow of 1 make 6.
decimal_add_example :
    (acc (decimal_adjust (add_c 0x38 test_cpu)) ≡ 0x84)
    × (test_flag Flag.carry (decimal_adjust (add_c 0x38 test_cpu)) ≡ false)
unfolding test_flag Mask.test
decimal_add_example = decimal_add 45 38 test_cpu (omega arith) (omega arith) refl
