-- ===== src/Core/Decode.antt =====
-- The two `decode` functions and `tick` of gameboy/src/cpu/cpu.cpp. `none` stands for
-- `std::terminate` at an unknown opcode.
pub mod Ending
pub mod Info
pub mod Standard0
pub mod Standard1
pub mod Standard2
pub mod Standard3
pub mod Standard4
pub mod Standard5
pub mod Standard6
pub mod Standard7
pub mod Extended0
pub mod Extended1
pub mod Extended2
pub mod Extended3
pub mod Extended4
pub mod Extended5
pub mod Extended6
pub mod Extended7
pub mod Cycles
pub mod Encoding
pub mod Matrix
pub mod Assigned
use gameboi.Base.{ℕ, ◌/◌, Bool, not, ◌==◌, get_or, Option, none, some, ◌>>=◌, if◌then◌else◌}
use gameboi.Cpu.State.{Cpu}
use gameboi.Mmu.Bus.{Bus}
use gameboi.Core.Memory.{read_immediate8, read_immediate16}
use gameboi.Core.Interrupts.{settle}
use Ending.{Outcome, done, untaken, unknown}
use Info.{standard_lengths, standard_cycles, extended_cycles, false_branch_cycle_count}
use Standard0.{standard_0}
use Standard1.{standard_1}
use Standard2.{standard_2}
use Standard3.{standard_3}
use Standard4.{standard_4}
use Standard5.{standard_5}
use Standard6.{standard_6}
use Standard7.{standard_7}
use Extended0.{extended_0}
use Extended1.{extended_1}
use Extended2.{extended_2}
use Extended3.{extended_3}
use Extended4.{extended_4}
use Extended5.{extended_5}
use Extended6.{extended_6}
use Extended7.{extended_7}

-- What `decode` returns and leaves, from the cycles of the opcode and of its false branch.
unfoldable pub conclude : {W : Type 0} → ℕ → ℕ → Outcome W → Option (ℕ × W)
conclude cycles false_cycles (done w) = some (cycles, w)
conclude cycles false_cycles (untaken w) = some (false_cycles, w)
conclude cycles false_cycles unknown = none

module _ {W : Type 0} (b : Bus W) where
  -- The two switches, cut at every 32 opcodes.
  unfoldable pub standard : ℕ → ℕ → W → Outcome W
  standard inst val w =
      let row = inst / 32 in
      if row == 0
      then standard_0 b inst val w
      else if row == 1
      then standard_1 b inst val w
      else if row == 2
      then standard_2 b inst val w
      else if row == 3
      then standard_3 b inst val w
      else if row == 4
      then standard_4 b inst val w
      else if row == 5
      then standard_5 b inst val w
      else if row == 6
      then standard_6 b inst val w
      else if row == 7
      then standard_7 b inst val w
      else unknown

  unfoldable pub extended : ℕ → W → Outcome W
  extended inst w =
      let row = inst / 32 in
      if row == 0
      then extended_0 b inst w
      else if row == 1
      then extended_1 b inst w
      else if row == 2
      then extended_2 b inst w
      else if row == 3
      then extended_3 b inst w
      else if row == 4
      then extended_4 b inst w
      else if row == 5
      then extended_5 b inst w
      else if row == 6
      then extended_6 b inst w
      else if row == 7
      then extended_7 b inst w
      else unknown

  -- The bytes after the opcode.
  unfoldable pub operand : ℕ → W → ℕ × W
  operand inst w =
      let length = get_or standard_lengths inst 0 in
      if length == 3
      then read_immediate16 b w
      else if length == 2
      then read_immediate8 b w
      else (0, w)

  unfoldable pub decode_standard : ℕ → W → Option (ℕ × W)
  decode_standard inst w =
      let (val, w') = operand inst w in
      conclude (get_or standard_cycles inst 0) (false_branch_cycle_count inst)
        (standard inst val w')

  unfoldable pub decode_extended : ℕ → W → Option (ℕ × W)
  decode_extended inst w = conclude (get_or extended_cycles inst 0) 0 (extended inst w)

  unfoldable pub execute_next_op : W → Option (ℕ × W)
  execute_next_op w =
      let (opcode, w1) = read_immediate8 b w in
      let (inst, w2) = read_immediate8 b w1 in
      if not (opcode == 0xCB) then decode_standard opcode w1 else decode_extended inst w2

  -- The cycles that `tick` returns, and the machine after it.
  unfoldable pub tick : W → Option (ℕ × W)
  tick w = do
    executed ← if not (b.cpu w).is_halted then execute_next_op w else some (4, w)
    some (
        let (cycles, c) = settle executed.0 (b.cpu executed.1) in (cycles, b.with_cpu c executed.1))
