-- ===== src/Cpu/Request.antt =====
-- gameboy/src/cpu/cpu.cpp: the interrupt registers, the speed switch, and how a device requests an
-- interrupt.
use gameboi.Base.{ℕ, Bool, not, ◌&&◌, bit_and, bit_or, if◌then◌else◌}
use gameboi.Util.Bit
use gameboi.Cpu.State.{Cpu}

unfoldable pub request_interrupt : ℕ → Cpu → Cpu
request_interrupt request c = record c { interrupt_flags = bit_or c.interrupt_flags request }

unfoldable pub is_in_double_speed : Cpu → Bool
is_in_double_speed c = Bit.test c.key_1 7 && not (Bit.test c.key_1 0)

unfoldable pub on_ie_write : ℕ → Cpu → Cpu
on_ie_write val c = record c { interrupt_enable = val }

unfoldable pub on_ie_read : Cpu → ℕ
on_ie_read c = c.interrupt_enable

unfoldable pub on_if_write : ℕ → Cpu → Cpu
on_if_write val c = record c { interrupt_flags = val }

unfoldable pub on_if_read : Cpu → ℕ
on_if_read c = bit_or c.interrupt_flags 0xE0

-- The first argument is the cartridge's `cgb_enabled()`.
unfoldable pub on_key_1_write : Bool → ℕ → Cpu → Cpu
on_key_1_write cgb val c =
    if not cgb then c else record c { key_1 = bit_or (bit_and val 0x01) 0x7E }

unfoldable pub on_key_1_read : Cpu → ℕ
on_key_1_read c = c.key_1
