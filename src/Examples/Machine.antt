-- ===== src/Examples/Machine.antt =====
-- A small machine: a processor with the stack in the work RAM, and a cartridge with banked RAM.
use gameboi.Base.{
  ℕ, ◌*◌, ◌≡◌, Bool, true, false, none, some, List, replicate, set, length, length-set,
  length-replicate, refl, arith, ◌∙◌,
}
use gameboi.Register16.{IsBytes}
use gameboi.Cpu.State.{Cpu}
use gameboi.Mmu.State
use gameboi.Mmu.Bus.{Bus, IsLawful}
use gameboi.Timer
use gameboi.Joypad
use gameboi.Cartridge.{Cartridge, write_rom, controlled, ram_enabled}
use gameboi.Cartridge.Header.{
  Saved, Kind, parsed, load_rom, initial, checksum, kind_of, rom_bank_count_of, ram_bank_count_of,
}
use gameboi.Cartridge.Session.{Reachable}
use gameboi.System.{System, Devices, bus, bus-IsLawful}

-- A flag register of 0xB0, a stack at 0xD000, a timer interrupt requested and enabled.
abbrev pub test_cpu : Cpu
test_cpu = record {
  a_f = record { high = 0x45; low = 0xB0 };
  b_c = record { high = 0x12; low = 0x34 };
  d_e = record { high = 0x00; low = 0xD8 };
  h_l = record { high = 0x8F; low = 0xFF };
  stack_pointer = record { high = 0xD0; low = 0x00 };
  program_counter = record { high = 0x01; low = 0x50 };
  key_1 = 0x7E;
  total_cycles = 0;
  interrupt_flags = 0x05;
  interrupt_enable = 0x0F;
  interrupt_master_enable = true;
  pending_disable_interrupts_counter = 0xFF;
  pending_enable_interrupts_counter = 0xFF;
  is_stopped = false;
  is_halted = false;
  wait_before_unhalt_cycles = 0;
  extra_cycles = 0;
}

abbrev pub test_rom : List ℕ
test_rom = set (set (set (replicate 32768 0) 0x0147 0x02) 0x0149 0x02) 0x014D 0xE3

abbrev pub nothing_saved : Saved
nothing_saved = record { ram_data = none; rtc_data = none; now = 0 }

-- An MBC1 with two ROM banks and one bank of RAM.
abbrev pub test_cartridge : Cartridge
test_cartridge = parsed test_rom nothing_saved initial Kind.mbc1_kind 2 1

pub loaded : load_rom test_rom nothing_saved initial ≡ some test_cartridge
unfolding load_rom checksum kind_of rom_bank_count_of ram_bank_count_of
loaded = refl

-- The cartridge after its program has enabled the RAM.
abbrev pub enabled_cartridge : Cartridge
enabled_cartridge = write_rom 0 0x0000 0x0A test_cartridge

pub enabled_Reachable : Reachable test_cartridge enabled_cartridge
enabled_Reachable = Reachable.rom_write 0 0x0000 0x0A test_cartridge (omega arith) Reachable.start

pub enabled_on : ram_enabled enabled_cartridge ≡ true
unfolding ram_enabled write_rom controlled parsed gameboi.Cartridge.Header.controller_of
    gameboi.Mbc.Mbc1.control gameboi.Mbc.State.set_ram_enabled
enabled_on = refl

pub test_rom-length : length test_rom ≡ 2 * (16 * 1024)
test_rom-length =
    length-set {A = ℕ} (set (set (replicate 32768 0) 0x0147 0x02) 0x0149 0x02) 0x014D 0xE3
    ∙ length-set {A = ℕ} (set (replicate 32768 0) 0x0147 0x02) 0x0149 0x02
    ∙ length-set {A = ℕ} (replicate 32768 0) 0x0147 0x02
    ∙ length-replicate {A = ℕ} 32768 0

-- Devices without registers, whose memory reads 0xFF.
abbrev pub test_devices : Devices ℕ
test_devices = record {
  read_vram = λ address s. 0xFF;
  write_vram = λ address val s. s;
  read_oam = λ address s. 0xFF;
  write_oam = λ address val s. s;
  find = λ address. none;
}

abbrev pub machine_with : {D : Type 0} → D → Bool → System D
machine_with devices cgb = record {
  cpu = test_cpu;
  cartridge = record test_cartridge { cgb_enabled = cgb };
  mmu = State.reset cgb;
  timer = Timer.initial;
  joypad = Joypad.initial;
  link = record { sb = 0xA5; sc = 0x81; shift_clock = 0; shift_counter = 0; on_transfer = none };
  devices = devices;
  clock = 0;
}

abbrev pub machine_of : Bool → System ℕ
machine_of cgb = machine_with {D = ℕ} 0 cgb

abbrev pub test_bus : Bus (System ℕ)
test_bus = bus test_devices

pub test-IsLawful : IsLawful test_bus
test-IsLawful = bus-IsLawful test_devices

pub stack_IsBytes : IsBytes test_cpu.stack_pointer
stack_IsBytes = record { high_fits = omega arith; low_fits = omega arith }
