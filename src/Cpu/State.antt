-- ===== src/Cpu/State.antt =====
-- The fields of `cpu` (gameboy/include/gameboy/cpu/cpu.h) and its flag operations
-- (gameboy/src/cpu/cpu.cpp). The `int8_t` counters are two's complement patterns: 0xFF is -1.
pub mod Laws
pub mod Flags
use gameboi.Base.{ℕ, ◌-◌, ◌<◌, Bool, bit_and, bit_or, bit_xor, if◌then◌else◌}
use gameboi.Register16.{Register16, IsBytes}
use gameboi.Util.Mask

pub record Cpu : Type 0 where
  pub a_f : Register16
  pub b_c : Register16
  pub d_e : Register16
  pub h_l : Register16
  pub stack_pointer : Register16
  pub program_counter : Register16
  pub key_1 : ℕ
  pub total_cycles : ℕ
  pub interrupt_flags : ℕ
  pub interrupt_enable : ℕ
  pub interrupt_master_enable : Bool
  pub pending_disable_interrupts_counter : ℕ
  pub pending_enable_interrupts_counter : ℕ
  pub is_stopped : Bool
  pub is_halted : Bool
  pub wait_before_unhalt_cycles : ℕ
  pub extra_cycles : ℕ

-- Every register holds bytes.
pub record IsValid (c : Cpu) : Type 0 where
  pub a_f_fits : IsBytes c.a_f
  pub b_c_fits : IsBytes c.b_c
  pub d_e_fits : IsBytes c.d_e
  pub h_l_fits : IsBytes c.h_l
  pub sp_fits : IsBytes c.stack_pointer
  pub pc_fits : IsBytes c.program_counter
  pub key_1_fits : c.key_1 < 256
  pub flags_fit : c.interrupt_flags < 256
  pub enable_fits : c.interrupt_enable < 256

-- `a_f_.high()` and `a_f_.low()`, read and written.
abbrev pub acc : Cpu → ℕ
acc c = c.a_f.high

abbrev pub set_acc : ℕ → Cpu → Cpu
set_acc v c = record c { a_f = record { high = v; low = c.a_f.low } }

abbrev pub set_low : ℕ → Cpu → Cpu
set_low v c = record c { a_f = record { high = c.a_f.high; low = v } }

unfoldable pub set_flag : ℕ → Cpu → Cpu
set_flag flag c = set_low (bit_or c.a_f.low flag) c

unfoldable pub reset_flag : ℕ → Cpu → Cpu
reset_flag flag c = set_low (bit_and c.a_f.low (0xFF - flag)) c

unfoldable pub flip_flag : ℕ → Cpu → Cpu
flip_flag flag c = set_low (bit_xor c.a_f.low flag) c

unfoldable pub test_flag : ℕ → Cpu → Bool
test_flag flag c = Mask.test c.a_f.low flag

-- `if(test) { set_flag(flag); }`
unfoldable pub set_flag_if : Bool → ℕ → Cpu → Cpu
set_flag_if test flag c = if test then set_flag flag c else c
