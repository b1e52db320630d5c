-- ===== src/Core/Memory.antt =====
-- Reads, writes and the stack: the helpers of cpu.cpp that use `bus_->get_mmu()`.
use gameboi.Base.{ℕ, ◌+◌, u16}
use gameboi.Register16.{Register16, value, increment, decrement}
use gameboi.Util.Carry.{word}
use gameboi.Cpu.State.{Cpu}
use gameboi.Cpu.Registers.{Reg16, get16, put16}
use gameboi.Mmu.Bus.{Bus}
use gameboi.Mmu.Map.{read, write}

-- `--stack_pointer_` and `stack_pointer_++`
abbrev pub lowered : Cpu → Cpu
lowered c = record c { stack_pointer = decrement c.stack_pointer }

abbrev pub raised : Cpu → Cpu
raised c = record c { stack_pointer = increment c.stack_pointer }

module _ {W : Type 0} (b : Bus W) where
  -- A change of the processor's own state.
  abbrev pub modify : (Cpu → Cpu) → W → W
  modify f w = b.with_cpu (f (b.cpu w)) w

  abbrev pub write_data : ℕ → ℕ → W → W
  write_data address val w = write b address val w

  abbrev pub read_data : ℕ → W → ℕ
  read_data address w = read b address w

  -- `read_immediate(imm8)`: the counter moves on before the byte is read.
  unfoldable pub read_immediate8 : W → ℕ × W
  read_immediate8 w =
      let pc = (b.cpu w).program_counter in
      let w' = modify (λ c. record c { program_counter = increment pc }) w in
      (read_data (value pc) w', w')

  unfoldable pub read_immediate16 : W → ℕ × W
  read_immediate16 w =
      let (lsb, w1) = read_immediate8 w in let (msb, w2) = read_immediate8 w1 in (word msb lsb, w2)

  abbrev pub lower_stack : W → W
  lower_stack w = modify lowered w

  abbrev pub raise_stack : W → W
  raise_stack w = modify raised w

  abbrev pub top : W → ℕ
  top w = value (b.cpu w).stack_pointer

  unfoldable pub push : Reg16 → W → W
  push reg w =
      let w1 = lower_stack w in
      let w2 = write_data (top w1) (get16 reg (b.cpu w1)).high w1 in
      let w3 = lower_stack w2 in write_data (top w3) (get16 reg (b.cpu w3)).low w3

  -- One half of the register is assigned after each read.
  unfoldable pub pop : Reg16 → W → W
  pop reg w =
      let w1 = raise_stack w in
      let low = read_data (top w) w1 in
      let w2 = modify (λ c. put16 reg (record { high = (get16 reg c).high; low = low }) c) w1 in
      let w3 = raise_stack w2 in
      let high = read_data (top w2) w3 in
      modify (λ c. put16 reg (record { high = high; low = (get16 reg c).low }) c) w3

  -- The overloads of `store` for a byte and for a register pair.
  abbrev pub store8 : ℕ → ℕ → W → W
  store8 address val w = write_data address val w

  unfoldable pub store16 : ℕ → Register16 → W → W
  store16 address reg w = store8 (u16 (address + 1)) reg.high (store8 address reg.low w)
