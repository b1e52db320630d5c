-- ===== src/Examples/Decode.antt =====
-- Opcodes on the small machine.
use gameboi.Base.{ℕ, ◌≡◌, false, arith}
use gameboi.Cpu.Registers.{Reg8, get8}
use gameboi.Alu.Arith.{add}
use gameboi.Alu.Bits.{test_reg}
use gameboi.Core.Memory.{modify}
use gameboi.Core.Decode.{standard, extended, decode_standard}
use gameboi.Core.Decode.Ending.{done}
use gameboi.Core.Decode.Encoding.{extended-encoded}
use gameboi.Core.Decode.Matrix.{standard-encoded}
use gameboi.Core.Decode.Assigned.{returns, decode_standard-assigned}
use gameboi.System.{System}
use gameboi.Examples.Machine.{machine_of, test_bus}

abbrev machine : System ℕ
machine = machine_of false

-- BIT 7,A
extended-encoded_example :
    extended test_bus 0x7F machine ≡ done (modify test_bus (test_reg Reg8.a 7) machine)
extended-encoded_example = extended-encoded test_bus machine 0x7F (omega arith)

-- ADD A,C
standard-encoded_example :
    standard test_bus 0x81 0 machine ≡ done (modify test_bus (λ c. add (get8 Reg8.c c) c) machine)
standard-encoded_example = standard-encoded test_bus machine 0x81 0 (omega arith) (omega arith)

-- 0xD3 is no instruction.
decode_standard-assigned_example : returns (decode_standard test_bus 0xD3 machine) ≡ false
decode_standard-assigned_example = decode_standard-assigned test_bus 0xD3 machine (omega arith)
