-- ===== src/Joypad.antt =====
-- gameboy/include/gameboy/joypad/joypad.h and gameboy/src/joypad/joypad.cpp.
pub mod Laws
pub mod Reading
use gameboi.Base.{ℕ, ◌-◌, not, bit_and, bit_or, shr, if◌then◌else◌}
use gameboi.Util.Mask
use gameboi.Cpu.Interrupt
use gameboi.Cpu.State.{Cpu}
use gameboi.Cpu.Request.{request_interrupt}

abbrev pub joypad_addr : ℕ
joypad_addr = 0xFF00

pub data Key : Type 0 where
  right left up down a b select start : Key

-- The enumeration's values, `1u << n`.
abbrev pub mask_of : Key → ℕ
mask_of right = 0x01
mask_of left = 0x02
mask_of up = 0x04
mask_of down = 0x08
mask_of a = 0x10
mask_of b = 0x20
mask_of select = 0x40
mask_of start = 0x80

pub record Joypad : Type 0 where
  pub joyp : ℕ
  pub keys : ℕ

-- `reset`; the delegate that it registers is in `System`.
unfoldable pub initial : Joypad
initial = record { joyp = 0x0F; keys = 0xFF }

unfoldable pub press : Key → Joypad × Cpu → Joypad × Cpu
press key (j, cpu) = (
  record j { keys = bit_and j.keys (0xFF - mask_of key) },
  request_interrupt Interrupt.joypad cpu,
)

unfoldable pub release : Key → Joypad → Joypad
release key j = record j { keys = bit_or j.keys (mask_of key) }

unfoldable pub read : Joypad → ℕ
read j =
    let select = bit_and j.joyp 0x30 in
    if not (Mask.test select 0x10)
    then bit_or (bit_and j.joyp 0xF0) (bit_and j.keys 0x0F)
    else if not (Mask.test select 0x20)
    then bit_or (bit_and j.joyp 0xF0) (shr j.keys 4)
    else j.joyp

unfoldable pub write : ℕ → Joypad → Joypad
write val j = record j { joyp = bit_or val 0xCF }
