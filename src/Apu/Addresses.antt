-- ===== src/Apu/Addresses.antt =====
-- gameboy/src/apu/apu.cpp: the addresses of the sound registers.
use gameboi.Base.{ℕ, List, [], ◌∷◌}

abbrev pub nr_10_addr : ℕ
nr_10_addr = 0xFF10

abbrev pub nr_11_addr : ℕ
nr_11_addr = 0xFF11

abbrev pub nr_12_addr : ℕ
nr_12_addr = 0xFF12

abbrev pub nr_13_addr : ℕ
nr_13_addr = 0xFF13

abbrev pub nr_14_addr : ℕ
nr_14_addr = 0xFF14

abbrev pub nr_21_addr : ℕ
nr_21_addr = 0xFF16

abbrev pub nr_22_addr : ℕ
nr_22_addr = 0xFF17

abbrev pub nr_23_addr : ℕ
nr_23_addr = 0xFF18

abbrev pub nr_24_addr : ℕ
nr_24_addr = 0xFF19

abbrev pub nr_30_addr : ℕ
nr_30_addr = 0xFF1A

abbrev pub nr_31_addr : ℕ
nr_31_addr = 0xFF1B

abbrev pub nr_32_addr : ℕ
nr_32_addr = 0xFF1C

abbrev pub nr_33_addr : ℕ
nr_33_addr = 0xFF1D

abbrev pub nr_34_addr : ℕ
nr_34_addr = 0xFF1E

abbrev pub nr_41_addr : ℕ
nr_41_addr = 0xFF20

abbrev pub nr_42_addr : ℕ
nr_42_addr = 0xFF21

abbrev pub nr_43_addr : ℕ
nr_43_addr = 0xFF22

abbrev pub nr_44_addr : ℕ
nr_44_addr = 0xFF23

abbrev pub nr_50_addr : ℕ
nr_50_addr = 0xFF24

abbrev pub nr_51_addr : ℕ
nr_51_addr = 0xFF25

abbrev pub nr_52_addr : ℕ
nr_52_addr = 0xFF26

-- `apu_register_addresses` but for the last, NR52.
abbrev pub cleared_addresses : List ℕ
cleared_addresses =
    nr_10_addr ∷ nr_11_addr ∷ nr_12_addr ∷ nr_13_addr ∷ nr_14_addr ∷ nr_21_addr ∷ nr_22_addr
    ∷ nr_23_addr ∷ nr_24_addr ∷ nr_30_addr ∷ nr_31_addr ∷ nr_32_addr ∷ nr_33_addr ∷ nr_34_addr
    ∷ nr_41_addr ∷ nr_42_addr ∷ nr_43_addr ∷ nr_44_addr ∷ nr_50_addr ∷ nr_51_addr ∷ []
