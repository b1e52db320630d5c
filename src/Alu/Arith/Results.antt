-- ===== src/Alu/Arith/Results.antt =====
-- The accumulator and the carry after an addition or a subtraction, apart from the other flags.
use gameboi.Base.{ℕ, ◌+◌, ◌-◌, ◌%◌, ◌<◌, ◌≡◌, refl, ltb, leb}
use gameboi.Util.Bit.{from_bool}
use gameboi.Cpu.Flag
use gameboi.Cpu.State.{Cpu, acc, set_acc, test_flag}
use gameboi.Cpu.State.Flags.{acc-with_flags, test-carry}
use gameboi.Alu.Arith.{add, add_c, subtract, subtract_c}
use gameboi.Alu.Arith.Laws.{add_lem, add_c_lem, subtract_lem, subtract_c_lem}

pub carry-set_acc : (v : ℕ) (c : Cpu) → test_flag Flag.carry (set_acc v c) ≡ test_flag Flag.carry c
unfolding test_flag
carry-set_acc v c = refl

module _ (v : ℕ) (c : Cpu) (ha : acc c < 256) (hv : v < 256) where
  pub acc-add : acc (add v c) ≡ (acc c + v) % 256
  acc-add = simp (add_lem v c ha hv, acc-with_flags)

  pub carry-add : test_flag Flag.carry (add v c) ≡ leb 256 (acc c + v)
  carry-add = simp (add_lem v c ha hv, test-carry)

  pub acc-add_c : acc (add_c v c) ≡ (acc c + v + from_bool (test_flag Flag.carry c)) % 256
  acc-add_c = simp (add_c_lem v c ha hv, acc-with_flags)

  pub carry-add_c :
      test_flag Flag.carry (add_c v c) ≡ leb 256 (acc c + v + from_bool (test_flag Flag.carry c))
  carry-add_c = simp (add_c_lem v c ha hv, test-carry)

  pub acc-subtract_c :
      acc (subtract_c v c) ≡ (acc c + 512 - v - from_bool (test_flag Flag.carry c)) % 256
  acc-subtract_c = simp (subtract_c_lem v c ha hv, acc-with_flags)

  pub carry-subtract_c :
      test_flag Flag.carry (subtract_c v c) ≡ ltb (acc c) (v + from_bool (test_flag Flag.carry c))
  carry-subtract_c = simp (subtract_c_lem v c ha hv, test-carry)

pub acc-subtract : (v : ℕ) (c : Cpu) → acc (subtract v c) ≡ (acc c + 256 - v) % 256
acc-subtract v c = simp (subtract_lem v c, acc-with_flags)

pub carry-subtract : (v : ℕ) (c : Cpu) → test_flag Flag.carry (subtract v c) ≡ ltb (acc c) v
carry-subtract v c = simp (subtract_lem v c, test-carry)
