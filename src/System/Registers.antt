-- ===== src/System/Registers.antt =====
-- The registers of the processor, the link, the joypad and the timer, as a program reaches them.
use gameboi.Base.{ℕ, ◌≡◌, refl}
use gameboi.Cpu.Request.{on_ie_read, on_ie_write, on_if_read, on_key_1_read}
use gameboi.Timer
use gameboi.Joypad
use gameboi.Link
use gameboi.Mmu.Map.{read, write}
use gameboi.System.{
  System, Devices, bus, find_delegate, cpu_delegate, link_delegate, joypad_delegate, timer_delegate,
}

module _ {D : Type 0} (devices : Devices D) (s : System D) where
  -- Through the memory map, every register of these four components reads as its component says.
  registers-read :
      (read (bus devices) 0xFFFF s ≡ on_ie_read s.cpu)
      × (read (bus devices) 0xFF0F s ≡ on_if_read s.cpu)
      × (read (bus devices) 0xFF4D s ≡ on_key_1_read s.cpu)
      × (read (bus devices) 0xFF01 s ≡ Link.on_sb_read s.link)
      × (read (bus devices) 0xFF02 s ≡ Link.on_sc_read s.link)
      × (read (bus devices) 0xFF00 s ≡ Joypad.read s.joypad)
      × (read (bus devices) 0xFF04 s ≡ Timer.on_read 0xFF04 s.timer)
      × (read (bus devices) 0xFF05 s ≡ Timer.on_read 0xFF05 s.timer)
      × (read (bus devices) 0xFF06 s ≡ Timer.on_read 0xFF06 s.timer)
      × (read (bus devices) 0xFF07 s ≡ Timer.on_read 0xFF07 s.timer)
  unfolding read find_delegate cpu_delegate link_delegate joypad_delegate timer_delegate
  registers-read = (refl, refl, refl, refl, refl, refl, refl, refl, refl, refl)

  -- A write of any byte to the divider's address resets it: it reads 0 right after.
  pub read-write_div : (val : ℕ) → read (bus devices) 0xFF04 (write (bus devices) 0xFF04 val s) ≡ 0
  unfolding read write find_delegate cpu_delegate link_delegate joypad_delegate timer_delegate
      Timer.on_read Timer.on_write Timer.update_internal_clock
  read-write_div val = refl

  -- The byte written to the interrupt enable register is read back, and no other component of the
  -- machine changes.
  pub write_ie :
      (val : ℕ)
      → (read (bus devices) 0xFFFF (write (bus devices) 0xFFFF val s) ≡ val)
        × (write (bus devices) 0xFFFF val s ≡ record s { cpu = on_ie_write val s.cpu })
  unfolding read write find_delegate cpu_delegate on_ie_read on_ie_write
  write_ie val = (refl, refl)
