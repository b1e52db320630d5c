-- ===== src/Core/Decode/Info.antt =====
-- gameboy/include/gameboy/cpu/instruction_info.h: length and cycles of every opcode, as one list of
-- each; the mnemonics are left out. An opcode without an instruction has 0 for both.
use gameboi.Base.{ℕ, ◌==◌, ◌||◌, List, [], ◌∷◌, if◌then◌else◌}

abbrev pub standard_lengths : List ℕ
standard_lengths =
    1 ∷ 3 ∷ 1 ∷ 1 ∷ 1 ∷ 1 ∷ 2 ∷ 1 ∷ 3 ∷ 1 ∷ 1 ∷ 1 ∷ 1 ∷ 1 ∷ 2 ∷ 1 ∷ 2 ∷ 3 ∷ 1 ∷ 1 ∷ 1 ∷ 1 ∷ 2 ∷ 1
    ∷ 2 ∷ 1 ∷ 1 ∷ 1 ∷ 1 ∷ 1 ∷ 2 ∷ 1 ∷ 2 ∷ 3 ∷ 1 ∷ 1 ∷ 1 ∷ 1 ∷ 2 ∷ 1 ∷ 2 ∷ 1 ∷ 1 ∷ 1 ∷ 1 ∷ 1 ∷ 2 ∷ 1
    ∷ 2 ∷ 3 ∷ 1 ∷ 1 ∷ 1 ∷ 1 ∷ 2 ∷ 1 ∷ 2 ∷ 1 ∷ 1 ∷ 1 ∷ 1 ∷ 1 ∷ 2 ∷ 1 ∷ 1 ∷ 1 ∷ 1 ∷ 1 ∷ 1 ∷ 1 ∷ 1 ∷ 1
    ∷ 1 ∷ 1 ∷ 1 ∷ 1 ∷ 1 ∷ 1 ∷ 1 ∷ 1 ∷ 1 ∷ 1 ∷ 1 ∷ 1 ∷ 1 ∷ 1 ∷ 1 ∷ 1 ∷ 1 ∷ 1 ∷ 1 ∷ 1 ∷ 1 ∷ 1 ∷ 1 ∷ 1
    ∷ 1 ∷ 1 ∷ 1 ∷ 1 ∷ 1 ∷ 1 ∷ 1 ∷ 1 ∷ 1 ∷ 1 ∷ 1 ∷ 1 ∷ 1 ∷ 1 ∷ 1 ∷ 1 ∷ 1 ∷ 1 ∷ 1 ∷ 1 ∷ 1 ∷ 1 ∷ 1 ∷ 1
    ∷ 1 ∷ 1 ∷ 1 ∷ 1 ∷ 1 ∷ 1 ∷ 1 ∷ 1 ∷ 1 ∷ 1 ∷ 1 ∷ 1 ∷ 1 ∷ 1 ∷ 1 ∷ 1 ∷ 1 ∷ 1 ∷ 1 ∷ 1 ∷ 1 ∷ 1 ∷ 1 ∷ 1
    ∷ 1 ∷ 1 ∷ 1 ∷ 1 ∷ 1 ∷ 1 ∷ 1 ∷ 1 ∷ 1 ∷ 1 ∷ 1 ∷ 1 ∷ 1 ∷ 1 ∷ 1 ∷ 1 ∷ 1 ∷ 1 ∷ 1 ∷ 1 ∷ 1 ∷ 1 ∷ 1 ∷ 1
    ∷ 1 ∷ 1 ∷ 1 ∷ 1 ∷ 1 ∷ 1 ∷ 1 ∷ 1 ∷ 1 ∷ 1 ∷ 1 ∷ 1 ∷ 1 ∷ 1 ∷ 1 ∷ 1 ∷ 1 ∷ 1 ∷ 1 ∷ 1 ∷ 1 ∷ 1 ∷ 1 ∷ 1
    ∷ 1 ∷ 1 ∷ 3 ∷ 3 ∷ 3 ∷ 1 ∷ 2 ∷ 1 ∷ 1 ∷ 1 ∷ 3 ∷ 1 ∷ 3 ∷ 3 ∷ 2 ∷ 1 ∷ 1 ∷ 1 ∷ 3 ∷ 0 ∷ 3 ∷ 1 ∷ 2 ∷ 1
    ∷ 1 ∷ 1 ∷ 3 ∷ 0 ∷ 3 ∷ 0 ∷ 2 ∷ 1 ∷ 2 ∷ 1 ∷ 1 ∷ 0 ∷ 0 ∷ 1 ∷ 2 ∷ 1 ∷ 2 ∷ 1 ∷ 3 ∷ 0 ∷ 0 ∷ 0 ∷ 2 ∷ 1
    ∷ 2 ∷ 1 ∷ 1 ∷ 1 ∷ 0 ∷ 1 ∷ 2 ∷ 1 ∷ 2 ∷ 1 ∷ 3 ∷ 1 ∷ 0 ∷ 0 ∷ 2 ∷ 1 ∷ []

abbrev pub standard_cycles : List ℕ
standard_cycles =
    4 ∷ 12 ∷ 8 ∷ 8 ∷ 4 ∷ 4 ∷ 8 ∷ 4 ∷ 20 ∷ 8 ∷ 8 ∷ 8 ∷ 4 ∷ 4 ∷ 8 ∷ 4 ∷ 4 ∷ 12 ∷ 8 ∷ 8 ∷ 4 ∷ 4 ∷ 8 ∷ 4
    ∷ 12 ∷ 8 ∷ 8 ∷ 8 ∷ 4 ∷ 4 ∷ 8 ∷ 4 ∷ 12 ∷ 12 ∷ 8 ∷ 8 ∷ 4 ∷ 4 ∷ 8 ∷ 4 ∷ 12 ∷ 8 ∷ 8 ∷ 8 ∷ 4 ∷ 4 ∷ 8
    ∷ 4 ∷ 12 ∷ 12 ∷ 8 ∷ 8 ∷ 12 ∷ 12 ∷ 12 ∷ 4 ∷ 12 ∷ 8 ∷ 8 ∷ 8 ∷ 4 ∷ 4 ∷ 8 ∷ 4 ∷ 4 ∷ 4 ∷ 4 ∷ 4 ∷ 4
    ∷ 4 ∷ 8 ∷ 4 ∷ 4 ∷ 4 ∷ 4 ∷ 4 ∷ 4 ∷ 4 ∷ 8 ∷ 4 ∷ 4 ∷ 4 ∷ 4 ∷ 4 ∷ 4 ∷ 4 ∷ 8 ∷ 4 ∷ 4 ∷ 4 ∷ 4 ∷ 4 ∷ 4
    ∷ 4 ∷ 8 ∷ 4 ∷ 4 ∷ 4 ∷ 4 ∷ 4 ∷ 4 ∷ 4 ∷ 8 ∷ 4 ∷ 4 ∷ 4 ∷ 4 ∷ 4 ∷ 4 ∷ 4 ∷ 8 ∷ 4 ∷ 8 ∷ 8 ∷ 8 ∷ 8 ∷ 8
    ∷ 8 ∷ 4 ∷ 8 ∷ 4 ∷ 4 ∷ 4 ∷ 4 ∷ 4 ∷ 4 ∷ 8 ∷ 4 ∷ 4 ∷ 4 ∷ 4 ∷ 4 ∷ 4 ∷ 4 ∷ 8 ∷ 4 ∷ 4 ∷ 4 ∷ 4 ∷ 4 ∷ 4
    ∷ 4 ∷ 8 ∷ 4 ∷ 4 ∷ 4 ∷ 4 ∷ 4 ∷ 4 ∷ 4 ∷ 8 ∷ 4 ∷ 4 ∷ 4 ∷ 4 ∷ 4 ∷ 4 ∷ 4 ∷ 8 ∷ 4 ∷ 4 ∷ 4 ∷ 4 ∷ 4 ∷ 4
    ∷ 4 ∷ 8 ∷ 4 ∷ 4 ∷ 4 ∷ 4 ∷ 4 ∷ 4 ∷ 4 ∷ 8 ∷ 4 ∷ 4 ∷ 4 ∷ 4 ∷ 4 ∷ 4 ∷ 4 ∷ 8 ∷ 4 ∷ 4 ∷ 4 ∷ 4 ∷ 4 ∷ 4
    ∷ 4 ∷ 8 ∷ 4 ∷ 20 ∷ 12 ∷ 16 ∷ 16 ∷ 24 ∷ 16 ∷ 8 ∷ 16 ∷ 20 ∷ 16 ∷ 16 ∷ 4 ∷ 24 ∷ 24 ∷ 8 ∷ 16 ∷ 20
    ∷ 12 ∷ 16 ∷ 0 ∷ 24 ∷ 16 ∷ 8 ∷ 16 ∷ 20 ∷ 16 ∷ 16 ∷ 0 ∷ 24 ∷ 0 ∷ 8 ∷ 16 ∷ 12 ∷ 12 ∷ 8 ∷ 0 ∷ 0 ∷ 16
    ∷ 8 ∷ 16 ∷ 16 ∷ 4 ∷ 16 ∷ 0 ∷ 0 ∷ 0 ∷ 8 ∷ 16 ∷ 12 ∷ 12 ∷ 8 ∷ 4 ∷ 0 ∷ 16 ∷ 8 ∷ 16 ∷ 12 ∷ 8 ∷ 16
    ∷ 4 ∷ 0 ∷ 0 ∷ 8 ∷ 16 ∷ []

abbrev pub extended_cycles : List ℕ
extended_cycles =
    8 ∷ 8 ∷ 8 ∷ 8 ∷ 8 ∷ 8 ∷ 16 ∷ 8 ∷ 8 ∷ 8 ∷ 8 ∷ 8 ∷ 8 ∷ 8 ∷ 16 ∷ 8 ∷ 8 ∷ 8 ∷ 8 ∷ 8 ∷ 8 ∷ 8 ∷ 16 ∷ 8
    ∷ 8 ∷ 8 ∷ 8 ∷ 8 ∷ 8 ∷ 8 ∷ 16 ∷ 8 ∷ 8 ∷ 8 ∷ 8 ∷ 8 ∷ 8 ∷ 8 ∷ 16 ∷ 8 ∷ 8 ∷ 8 ∷ 8 ∷ 8 ∷ 8 ∷ 8 ∷ 16
    ∷ 8 ∷ 8 ∷ 8 ∷ 8 ∷ 8 ∷ 8 ∷ 8 ∷ 16 ∷ 8 ∷ 8 ∷ 8 ∷ 8 ∷ 8 ∷ 8 ∷ 8 ∷ 16 ∷ 8 ∷ 8 ∷ 8 ∷ 8 ∷ 8 ∷ 8 ∷ 8
    ∷ 12 ∷ 8 ∷ 8 ∷ 8 ∷ 8 ∷ 8 ∷ 8 ∷ 8 ∷ 12 ∷ 8 ∷ 8 ∷ 8 ∷ 8 ∷ 8 ∷ 8 ∷ 8 ∷ 12 ∷ 8 ∷ 8 ∷ 8 ∷ 8 ∷ 8 ∷ 8
    ∷ 8 ∷ 12 ∷ 8 ∷ 8 ∷ 8 ∷ 8 ∷ 8 ∷ 8 ∷ 8 ∷ 12 ∷ 8 ∷ 8 ∷ 8 ∷ 8 ∷ 8 ∷ 8 ∷ 8 ∷ 12 ∷ 8 ∷ 8 ∷ 8 ∷ 8 ∷ 8
    ∷ 8 ∷ 8 ∷ 12 ∷ 8 ∷ 8 ∷ 8 ∷ 8 ∷ 8 ∷ 8 ∷ 8 ∷ 12 ∷ 8 ∷ 8 ∷ 8 ∷ 8 ∷ 8 ∷ 8 ∷ 8 ∷ 16 ∷ 8 ∷ 8 ∷ 8 ∷ 8
    ∷ 8 ∷ 8 ∷ 8 ∷ 16 ∷ 8 ∷ 8 ∷ 8 ∷ 8 ∷ 8 ∷ 8 ∷ 8 ∷ 16 ∷ 8 ∷ 8 ∷ 8 ∷ 8 ∷ 8 ∷ 8 ∷ 8 ∷ 16 ∷ 8 ∷ 8 ∷ 8
    ∷ 8 ∷ 8 ∷ 8 ∷ 8 ∷ 16 ∷ 8 ∷ 8 ∷ 8 ∷ 8 ∷ 8 ∷ 8 ∷ 8 ∷ 16 ∷ 8 ∷ 8 ∷ 8 ∷ 8 ∷ 8 ∷ 8 ∷ 8 ∷ 16 ∷ 8 ∷ 8
    ∷ 8 ∷ 8 ∷ 8 ∷ 8 ∷ 8 ∷ 16 ∷ 8 ∷ 8 ∷ 8 ∷ 8 ∷ 8 ∷ 8 ∷ 8 ∷ 16 ∷ 8 ∷ 8 ∷ 8 ∷ 8 ∷ 8 ∷ 8 ∷ 8 ∷ 16 ∷ 8
    ∷ 8 ∷ 8 ∷ 8 ∷ 8 ∷ 8 ∷ 8 ∷ 16 ∷ 8 ∷ 8 ∷ 8 ∷ 8 ∷ 8 ∷ 8 ∷ 8 ∷ 16 ∷ 8 ∷ 8 ∷ 8 ∷ 8 ∷ 8 ∷ 8 ∷ 8 ∷ 16
    ∷ 8 ∷ 8 ∷ 8 ∷ 8 ∷ 8 ∷ 8 ∷ 8 ∷ 16 ∷ 8 ∷ 8 ∷ 8 ∷ 8 ∷ 8 ∷ 8 ∷ 8 ∷ 16 ∷ 8 ∷ 8 ∷ 8 ∷ 8 ∷ 8 ∷ 8 ∷ 8
    ∷ 16 ∷ 8 ∷ []

unfoldable pub false_branch_cycle_count : ℕ → ℕ
false_branch_cycle_count inst =
    if inst == 0x20
      || inst == 0x28
      || inst == 0x30
      || inst == 0x38
      || inst == 0xC0
      || inst == 0xC8
      || inst == 0xD0
      || inst == 0xD8
    then 8
    else if inst == 0xC2
        || inst == 0xC4
        || inst == 0xCA
        || inst == 0xCC
        || inst == 0xD2
        || inst == 0xD4
        || inst == 0xDA
        || inst == 0xDC
    then 12
    else 0
