-- ===== src/System.antt =====
-- gameboy/include/gameboy/bus.h, gameboy/src/gameboy.cpp: the machine as one state, and the handlers
-- that the components' `reset`s register with the memory map. The picture and sound units stand
-- behind the interface `Devices`, which `Machine.Units` fills.
pub mod Registers
use gameboi.Base.{ℕ, Bool, ◌==◌, Option, none, some, if◌then◌else◌, refl}
use gameboi.Cpu.State.{Cpu}
use gameboi.Cpu.Request.{
  on_ie_read, on_ie_write, on_if_read, on_if_write, on_key_1_read, on_key_1_write,
}
use gameboi.Cartridge.{Cartridge}
use gameboi.Cartridge
use gameboi.Mmu.State.{Mmu}
use gameboi.Mmu.Bus.{Bus, Delegate, IsLawful}
use gameboi.Timer.{Timer, div_addr, tima_addr, tma_addr, tac_addr}
use gameboi.Timer
use gameboi.Joypad.{Joypad, joypad_addr}
use gameboi.Joypad
use gameboi.Link.{Link, sb_addr, sc_addr}
use gameboi.Link

-- `clock` is the time that `current_time()` reads.
pub record System (D : Type 0) : Type 0 where
  pub cpu : Cpu
  pub cartridge : Cartridge
  pub mmu : Mmu
  pub timer : Timer
  pub joypad : Joypad
  pub link : Link
  pub devices : D
  pub clock : ℕ

-- What the memory map uses of the picture unit, and the handlers of both units' registers.
pub record Devices (D : Type 0) : Type 0 where
  pub read_vram : ℕ → System D → ℕ
  pub write_vram : ℕ → ℕ → System D → System D
  pub read_oam : ℕ → System D → ℕ
  pub write_oam : ℕ → ℕ → System D → System D
  pub find : ℕ → Option (Delegate (System D))

abbrev pub ie_addr : ℕ
ie_addr = 0xFFFF

abbrev pub if_addr : ℕ
if_addr = 0xFF0F

abbrev pub key_1_addr : ℕ
key_1_addr = 0xFF4D

module _ {D : Type 0} where
  -- The handlers that `cpu::reset` registers.
  unfoldable pub cpu_delegate : ℕ → Option (Delegate (System D))
  cpu_delegate address =
      if address == ie_addr
      then some (record {
        on_read = λ s. on_ie_read s.cpu;
        on_write = λ val s. record s { cpu = on_ie_write val s.cpu };
      })
      else if address == if_addr
      then some (record {
        on_read = λ s. on_if_read s.cpu;
        on_write = λ val s. record s { cpu = on_if_write val s.cpu };
      })
      else if address == key_1_addr
      then some (record {
        on_read = λ s. on_key_1_read s.cpu;
        on_write = λ val s. record s { cpu = on_key_1_write s.cartridge.cgb_enabled val s.cpu };
      })
      else none

  -- `link::reset`'s
  unfoldable pub link_delegate : ℕ → Option (Delegate (System D))
  link_delegate address =
      if address == sb_addr
      then some (record {
        on_read = λ s. Link.on_sb_read s.link;
        on_write = λ val s. record s { link = Link.on_sb_write val s.link };
      })
      else if address == sc_addr
      then some (record {
        on_read = λ s. Link.on_sc_read s.link;
        on_write = λ val s. record s { link = Link.on_sc_write s.cartridge.cgb_enabled val s.link };
      })
      else none

  -- `joypad::reset`'s
  unfoldable pub joypad_delegate : ℕ → Option (Delegate (System D))
  joypad_delegate address =
      if address == joypad_addr
      then some (record {
        on_read = λ s. Joypad.read s.joypad;
        on_write = λ val s. record s { joypad = Joypad.write val s.joypad };
      })
      else none

  -- `timer::reset`'s
  unfoldable pub timer_delegate : ℕ → Option (Delegate (System D))
  timer_delegate address =
      if address == div_addr
      then some (timer_register div_addr)
      else if address == tima_addr
      then some (timer_register tima_addr)
      else if address == tma_addr
      then some (timer_register tma_addr)
      else if address == tac_addr
      then some (timer_register tac_addr)
      else none
    where
      timer_register : ℕ → Delegate (System D)
      timer_register register = record {
        on_read = λ s. Timer.on_read register s.timer;
        on_write = λ val s. record s { timer = Timer.on_write register val s.timer };
      }

  abbrev or_else :
      Option (Delegate (System D)) → Option (Delegate (System D)) → Option (Delegate (System D))
  or_else (some d) other = some d
  or_else none other = other

module _ {D : Type 0} (devices : Devices D) where
  -- No two components register one address.
  unfoldable pub find_delegate : ℕ → Option (Delegate (System D))
  find_delegate address = or_else (cpu_delegate address) (
      or_else (link_delegate address) (
        or_else (joypad_delegate address)
          (or_else (timer_delegate address) (devices.find address))))

  abbrev pub bus : Bus (System D)
  bus = record {
    cpu = λ s. s.cpu;
    with_cpu = λ c s. record s { cpu = c };
    mmu = λ s. s.mmu;
    with_mmu = λ m s. record s { mmu = m };
    cgb_enabled = λ s. s.cartridge.cgb_enabled;
    read_rom = λ address s. Cartridge.read_rom address s.cartridge;
    write_rom = λ address val s. record s {
      cartridge = Cartridge.write_rom s.clock address val s.cartridge;
    };
    read_xram = λ address s. Cartridge.read_ram address s.cartridge;
    write_xram =
        λ address val s. record s { cartridge = Cartridge.write_ram address val s.cartridge };
    read_vram = devices.read_vram;
    write_vram = devices.write_vram;
    read_oam = devices.read_oam;
    write_oam = devices.write_oam;
    find_delegate = find_delegate;
  }

  -- The memory map and the processor are fields of the machine of their own.
  pub bus-IsLawful : IsLawful bus
  bus-IsLawful = record {
    mmu-with_mmu = λ m w. refl;
    mmu-with_cpu = λ c w. refl;
    cpu-with_cpu = λ c w. refl;
    cpu-with_mmu = λ m w. refl;
    cgb-with_mmu = λ m w. refl;
  }
