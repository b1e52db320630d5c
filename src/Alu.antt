-- ===== src/Alu.antt =====
-- gameboy/src/cpu/alu.cpp, by groups of operations. `cpu_` is the state that each takes and
-- returns; a `uint8_t&` argument is taken, and returned first. An overload on `register8&` has the
-- suffix `_reg`.
pub mod Arith
pub mod Logic
pub mod Rotate
pub mod Bits
pub mod Adjust
pub mod Chain
pub mod Inverse
