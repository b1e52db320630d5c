-- ===== src/Core/Decode/Ending.antt =====
-- How an opcode of the two switches in gameboy/src/cpu/cpu.cpp ends, and the statements that its
-- cases are made of.
use gameboi.Base.{ℕ, Bool, ◌==◌, if◌then◌else◌}
use gameboi.Register16.{Register16, value, assign}
use gameboi.Register16
use gameboi.Cpu.State.{Cpu}
use gameboi.Cpu.Registers.{Reg8, Reg16, get8, put8, get16, put16}
use gameboi.Alu.Arith.{add16}
use gameboi.Mmu.Bus.{Bus}
use gameboi.Core.Memory.{modify, read_data, write_data, store8}

-- `break`, `return false_branch()`, and the default case, which terminates.
pub data Outcome (W : Type 0) : Type 0 where
  done : W → Outcome W
  untaken : W → Outcome W
  unknown : Outcome W

abbrev pub branch : {W : Type 0} → Bool → W → W → Outcome W
branch taken w after = if taken then done after else untaken w

-- The delayed switches of `DI` and `EI`.
abbrev pub disable_later : Cpu → Cpu
disable_later c = record c {
  pending_enable_interrupts_counter = 0xFF;
  pending_disable_interrupts_counter =
      if c.pending_disable_interrupts_counter == 0xFF
      then 1
      else c.pending_disable_interrupts_counter;
}

abbrev pub enable_later : Cpu → Cpu
enable_later c = record c {
  pending_disable_interrupts_counter = 0xFF;
  pending_enable_interrupts_counter =
      if c.pending_enable_interrupts_counter == 0xFF
      then 1
      else c.pending_enable_interrupts_counter;
}

module _ {W : Type 0} (b : Bus W) where
  abbrev pub on_cpu : (Cpu → Cpu) → W → W
  on_cpu f w = modify b f w

  -- `load` into a byte register and into a pair.
  abbrev pub load8 : Reg8 → ℕ → W → W
  load8 r val w = on_cpu (put8 r val) w

  abbrev pub load16 : Reg16 → ℕ → W → W
  load16 r val w = on_cpu (put16 r (assign val)) w

  -- `make_address(reg)`
  abbrev pub address_of : Reg16 → W → ℕ
  address_of r w = value (get16 r (b.cpu w))

  -- `store(make_address(pair), reg)` and `load(reg, read_data(make_address(pair)))`
  abbrev pub store_at : Reg16 → Reg8 → W → W
  store_at pair r w = store8 b (address_of pair w) (get8 r (b.cpu w)) w

  abbrev pub load_from : Reg8 → Reg16 → W → W
  load_from r pair w = load8 r (read_data b (address_of pair w) w) w

  -- The same at `h_l_++` or `h_l_--`: the old address, and the pair is moved first.
  abbrev pub store_then : (Register16 → Register16) → Reg8 → W → W
  store_then step r w =
      let address = address_of Reg16.hl w in
      let moved = on_cpu (λ c. record c { h_l = step c.h_l }) w in
      store8 b address (get8 r (b.cpu moved)) moved

  abbrev pub load_then : (Register16 → Register16) → Reg8 → W → W
  load_then step r w =
      let address = address_of Reg16.hl w in
      let moved = on_cpu (λ c. record c { h_l = step c.h_l }) w in
      load8 r (read_data b address moved) moved

  -- `alu::increment(pair)` and `alu::decrement(pair)`
  abbrev pub increment16 : Reg16 → W → W
  increment16 r w = on_cpu (λ c. put16 r (Register16.increment (get16 r c)) c) w

  abbrev pub decrement16 : Reg16 → W → W
  decrement16 r w = on_cpu (λ c. put16 r (Register16.decrement (get16 r c)) c) w

  -- `alu_.add(left, right)`
  abbrev pub add_pair : Reg16 → Reg16 → W → W
  add_pair left right w =
      on_cpu (λ c. let (sum, c') = add16 (get16 left c) (get16 right c) c in put16 left sum c') w

  -- The byte at `h_l_` is read, an operation is run on it, and it is written back.
  abbrev pub through_memory : (ℕ → Cpu → ℕ × Cpu) → W → W
  through_memory op w =
      let address = address_of Reg16.hl w in
      let (val, c) = op (read_data b address w) (b.cpu w) in
      write_data b address val (b.with_cpu c w)
