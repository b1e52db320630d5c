-- ===== src/Timer/Laws.antt =====
-- The ranges of the timer's fields, kept by every operation.
use gameboi.Base.{
  ℕ, ◌+◌, ◌≤◌, ◌<◌, ◌≡◌, ◌⊎◌, arith, bit_and_mask, bit_and, bit_or, bit_or-lt, ◌%◌, zero, suc, inl,
  inr, refl, [], ◌∷◌, get_or,
}
use gameboi.Util.Bit
use gameboi.Cpu.State.{Cpu}
use gameboi.Timer.{
  Timer, initial, update_internal_clock, tick, on_write, timer_clock_overflow_index_select,
}

-- The selected bit is one of the four of the table.
abbrev pub IsClockBit : ℕ → Type 0
IsClockBit k = (k ≡ 9) ⊎ (k ≡ 3) ⊎ (k ≡ 5) ⊎ (k ≡ 7)

pub record IsValid (t : Timer) : Type 0 where
  pub clock_fits : t.internal_clock < 65536
  pub reload_small : t.tima_reload_cycles ≤ 6
  pub tima_fits : t.tima < 256
  pub tma_fits : t.tma < 256
  pub tac_fits : t.tac < 256
  pub bit_selected : IsClockBit t.timer_clock_overflow_bit

pub initial-IsValid : IsValid initial
unfolding initial
initial-IsValid = ground arith

pub update_internal_clock-IsValid :
    {t : Timer} (new : ℕ) → IsValid t → new < 65536 → IsValid (update_internal_clock new t)
unfolding update_internal_clock
update_internal_clock-IsValid {t} new v h = ground arith

-- A tick of at most 128 cycles keeps every field in range; the countdown of the reload stays
-- between 0 and 6.
pub tick-IsValid :
    {t : Timer} (cycles : ℕ) (cpu : Cpu)
    → IsValid t
    → cycles ≤ 128
    → IsValid (tick cycles (t, cpu)).0
unfolding tick
tick-IsValid {t} cycles cpu v h =
    let new = (t.internal_clock + cycles) % 65536 in
    ground (arith, update_internal_clock-IsValid new v (omega arith))

table_bit : (i : ℕ) → i < 4 → IsClockBit (get_or (9 ∷ 3 ∷ 5 ∷ 7 ∷ []) i 0)
table_bit zero h = inl refl
table_bit (suc zero) h = inr (inl refl)
table_bit (suc (suc zero)) h = inr (inr (inl refl))
table_bit (suc (suc (suc zero))) h = inr (inr (inr refl))
table_bit (suc (suc (suc (suc i)))) h = absurd (omega arith)

pub select-IsClockBit : (t : Timer) → IsClockBit (timer_clock_overflow_index_select t)
unfolding timer_clock_overflow_index_select
select-IsClockBit t = table_bit (bit_and t.tac 0x03) (omega (arith, bit_and_mask 2 t.tac))

-- Every write to a timer register does.
pub on_write-IsValid :
    {t : Timer} (address val : ℕ) → IsValid t → val < 256 → IsValid (on_write address val t)
unfolding on_write
on_write-IsValid {t} address val v h =
    let tac' = bit_or val 0xF8 in
    let selected = record t { tac = tac'; enabled = Bit.test tac' 2 } in
    ground (
      arith,
      update_internal_clock-IsValid 0 v (omega arith),
      select-IsClockBit selected,
      bit_or-lt 8 val 0xF8 h (omega arith),
    )
