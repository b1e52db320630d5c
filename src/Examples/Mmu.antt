-- ===== src/Examples/Mmu.antt =====
-- The memory map on the small machine.
use gameboi.Base.{ℕ, ◌≡◌, true, false, inl, refl, arith, none}
use gameboi.Mmu.Map.{read, write, dma, svbk_addr}
use gameboi.Mmu.Bounds.{reset-IsValid}
use gameboi.Mmu.Wram.{read-write}
use gameboi.Mmu.Echo.{banks_apart}
use gameboi.Mmu.Dma.{dma-read}
use gameboi.System.{
  System, find_delegate, cpu_delegate, link_delegate, joypad_delegate, timer_delegate,
}
use gameboi.Examples.Machine.{machine_of, test_bus, test-IsLawful, test_devices}

abbrev machine : System ℕ
machine = machine_of false

abbrev colour_machine : System ℕ
colour_machine = machine_of true

svbk_free : find_delegate test_devices svbk_addr ≡ none
unfolding find_delegate cpu_delegate link_delegate joypad_delegate timer_delegate
svbk_free = refl

read-write_example : read test_bus 0xD123 (write test_bus 0xD123 0x42 machine) ≡ 0x42
read-write_example =
    read-write test_bus test-IsLawful false 0xD123 0x42 machine (reset-IsValid false) (omega arith)
      (omega arith)

banks_apart_example :
    read test_bus 0xD123 (
      write test_bus svbk_addr 3 (
        write test_bus 0xD123 0x99 (
          write test_bus svbk_addr 5
            (write test_bus 0xD123 0x42 (write test_bus svbk_addr 3 colour_machine)))))
    ≡ 0x42
banks_apart_example =
    banks_apart test_bus test-IsLawful svbk_free 3 5 0xD123 0x42 0x99 colour_machine refl
      (reset-IsValid true) (omega arith) (omega arith) (omega arith) (omega arith) (omega arith)
      (omega arith) (omega arith)

dma-read_example :
    read test_bus 0xD003 (dma test_bus 0xC000 0xD000 16 machine) ≡ read test_bus 0xC003 machine
dma-read_example =
    dma-read test_bus test-IsLawful false 0xC000 0xD000 16 0xD003 machine (reset-IsValid false)
      (omega arith) (omega arith) (omega arith) (omega arith) (inl (omega arith)) (omega arith)
      (omega arith)
