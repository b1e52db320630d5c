-- ===== src/Timer/Run.antt =====
-- Runs of ticks: TIMA counts the periods of the selected clock.
use gameboi.Base.{ℕ, ◌+◌, ◌%◌, ◌^◌, ◌≤◌, ◌≡◌, true, List, [], ◌∷◌}
use gameboi.Timer.Count.{IsSettled, periods}
use gameboi.Cpu.State.{Cpu}
use gameboi.Timer.{Timer, tick}
use gameboi.Timer.Laws.{IsValid}

-- A timer that counts: on, settled, with no reload pending.
pub record IsCounting (t : Timer) : Type 0 where
  pub valid : IsValid t
  pub settled : IsSettled t
  pub on : t.enabled ≡ true
  pub idle : t.tima_reload_cycles ≡ 0

-- The state after a tick that does not overflow TIMA.
record IsCounted (t : Timer) (cycles : ℕ) (cpu : Cpu) (after : Timer × Cpu) : Type 0 where
  counting : IsCounting after.0
  clock : after.0.internal_clock ≡ (t.internal_clock + cycles) % 65536
  selected : after.0.timer_clock_overflow_bit ≡ t.timer_clock_overflow_bit
  count : after.0.tima ≡ t.tima + periods t.timer_clock_overflow_bit t.internal_clock cycles
  quiet : after.1 ≡ cpu

-- The ticks of a run, one after the other.
unfoldable pub run_ticks : List ℕ → Timer × Cpu → Timer × Cpu
run_ticks [] s = s
run_ticks (cycles ∷ rest) s = run_ticks rest (tick cycles s)

abbrev pub total : List ℕ → ℕ
total [] = 0
total (cycles ∷ rest) = cycles + total rest

abbrev pub AllShort : ℕ → List ℕ → Type 0
AllShort k [] = Unit
AllShort k (cycles ∷ rest) = (cycles ≤ 2 ^ k) × AllShort k rest

abbrev AddsUp : ℕ → Type 0
AddsUp k =
    (clock a b : ℕ)
    → periods k clock (a + b) ≡ periods k clock a + periods k ((clock + a) % 65536) b
