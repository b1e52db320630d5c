-- ===== src/Util.antt =====
-- gameboy/include/gameboy/util/mathutil.h: masks, single bits, carries and borrows.
pub mod Mask
pub mod Bit
pub mod Carry
