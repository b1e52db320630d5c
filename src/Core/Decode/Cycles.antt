-- ===== src/Core/Decode/Cycles.antt =====
-- How long an instruction takes.
use gameboi.Base.{ℕ, Bool, true, ◌&&◌, leb, List, [], ◌∷◌, Option, none, some}
use gameboi.Mmu.Bus.{Bus}

-- Whether no entry of a list passes a bound.
abbrev all_within : ℕ → List ℕ → Bool
all_within most [] = true
all_within most (x ∷ xs) = leb x most && all_within most xs

abbrev cycles_of : {W : Type 0} → Option (ℕ × W) → ℕ
cycles_of none = 0
cycles_of (some result) = result.0
