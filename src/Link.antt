-- ===== src/Link.antt =====
-- gameboy/include/gameboy/link/link.h and gameboy/src/link/link.cpp. The transfer delegate is set
-- from outside: a function from the byte sent to the byte received, or none.
pub mod Laws
pub mod Transfer
use gameboi.Base.{
  ℕ, ◌+◌, ◌*◌, Bool, true, false, not, ◌==◌, leb, Option, none, some, if◌then◌else◌, bit_or, shr,
  u8, u16, sub16,
}
use gameboi.Util.Bit
use gameboi.Util.Bit.{from_bool}
use gameboi.Cpu.Interrupt
use gameboi.Cpu.State.{Cpu}
use gameboi.Cpu.Request.{request_interrupt, is_in_double_speed}

abbrev pub sb_addr : ℕ
sb_addr = 0xFF01

abbrev pub sc_addr : ℕ
sc_addr = 0xFF02

pub data Mode : Type 0 where
  external internal : Mode

pub record Link : Type 0 where
  pub sb : ℕ
  pub sc : ℕ
  pub shift_clock : ℕ
  pub shift_counter : ℕ
  pub on_transfer : Option (ℕ → ℕ)

-- `reset`, with the cartridge's `cgb_enabled()`: `sb_` and the delegate stay. The delegates that it
-- registers are in `System`.
unfoldable pub reset : Bool → Link → Link
reset cgb l = record l { sc = if cgb then 0x7C else 0x7E; shift_clock = 0; shift_counter = 0 }

unfoldable pub is_transferring : Link → Bool
is_transferring l = Bit.test l.sc 7

unfoldable pub clock_rate : Link → Cpu → ℕ
clock_rate l cpu = shr 512 (Bit.extract l.sc 1 * 5 + from_bool (is_in_double_speed cpu))

unfoldable pub clock_mode : Link → Mode
clock_mode l = if Bit.extract l.sc 0 == 0 then Mode.external else Mode.internal

-- `on_transfer_ ? on_transfer_(sb_.value()) : 0xFFu`
unfoldable pub received : Link → ℕ
received l = elim l.on_transfer [ none ↦ 0xFF | some f ↦ u8 (f l.sb) ]

-- The eighth bit ends the transfer.
unfoldable pub count_bit : Link × Cpu → Link × Cpu
count_bit (l, cpu) =
    let counter = u8 (l.shift_counter + 1) in
    if counter == 8
    then (
      record l { shift_counter = 0; sb = received l; sc = Bit.reset l.sc 7 },
      request_interrupt Interrupt.serial cpu,
    )
    else (record l { shift_counter = counter }, cpu)

-- The branch of the internal clock.
unfoldable pub advance : ℕ → Link × Cpu → Link × Cpu
advance cycles (l, cpu) =
    let clock = u16 (l.shift_clock + cycles) in
    let rate = clock_rate l cpu in
    if leb rate clock
    then count_bit (record l { shift_clock = sub16 clock rate }, cpu)
    else (record l { shift_clock = clock }, cpu)

unfoldable pub tick : ℕ → Link × Cpu → Link × Cpu
tick cycles (l, cpu) =
    if not (is_transferring l)
    then (l, cpu)
    else elim (clock_mode l) [ Mode.internal ↦ advance cycles (l, cpu) | Mode.external ↦ (l, cpu) ]

-- The byte sent back, and the new state.
unfoldable pub on_transfer_slave : ℕ → Link → ℕ × Link
on_transfer_slave val l = (l.sb, record l { sb = val })

unfoldable pub on_sb_write : ℕ → Link → Link
on_sb_write val l = record l { sb = val }

unfoldable pub on_sb_read : Link → ℕ
on_sb_read l = l.sb

unfoldable pub on_sc_write : Bool → ℕ → Link → Link
on_sc_write cgb val l = record l { sc = bit_or val (if cgb then 0x7C else 0x7E) }

unfoldable pub on_sc_read : Link → ℕ
on_sc_read l = l.sc
