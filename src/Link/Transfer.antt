-- ===== src/Link/Transfer.antt =====
-- A whole transfer over a run of ticks.
use gameboi.Base.{
  ℕ, ◌+◌, ◌-◌, ◌*◌, ◌≤◌, ◌<◌, ◌≡◌, true, false, arith, refl, sym, ◌∙◌, List, [], ◌∷◌, none, some,
  ap, u8,
}
use mathlib.Core.Path.{ap₂, subst}
use native.Mathlib.Decide.{dec_lt}
use gameboi.Util.Bit
use gameboi.Util.Bit.Laws.{reset_lem, test_lem}
use gameboi.Cpu.Interrupt
use gameboi.Cpu.State.{Cpu}
use gameboi.Cpu.Request.{request_interrupt}
use gameboi.Link.{Link, is_transferring, clock_rate, clock_mode, received, tick}
use gameboi.Link.Laws.{IsSending, tick_waits, tick_shifts, tick_ends}

-- The cycles of the transfer that have passed.
abbrev pub progress : Link → Cpu → ℕ
progress l cpu = l.shift_counter * clock_rate l cpu + l.shift_clock

-- What stays while bits are shifted.
record IsLater (l : Link) (cpu : Cpu) (cycles : ℕ) (r : Link × Cpu) : Type 0 where
  sending : IsSending r.0 r.1
  rate : clock_rate r.0 r.1 ≡ clock_rate l cpu
  passed : progress r.0 r.1 ≡ progress l cpu + cycles
  byte : r.0.sb ≡ l.sb
  delegate : r.0.on_transfer ≡ l.on_transfer
  quiet : r.1 ≡ cpu

module _ (l : Link) (cpu : Cpu) (s : IsSending l cpu) where
  moved :
      (clock counter cycles : ℕ)
      → clock < clock_rate l cpu
      → counter < 8
      → counter * clock_rate l cpu + clock ≡ progress l cpu + cycles
      → IsLater l cpu cycles (record l { shift_clock = clock; shift_counter = counter }, cpu)
  unfolding clock_rate is_transferring clock_mode
  moved clock counter cycles below few e = record {
    sending = record {
      active = s.active;
      internal = s.internal;
      sc_fits = s.sc_fits;
      clock_below = below;
      counter_below = few;
    };
    rate = refl;
    passed = e;
    byte = refl;
    delegate = refl;
    quiet = refl;
  }

  not_last :
      (cycles : ℕ)
      → progress l cpu + cycles < 8 * clock_rate l cpu
      → clock_rate l cpu ≤ l.shift_clock + cycles
      → l.shift_counter < 7
  not_last cycles room full = elim (dec_lt l.shift_counter 7) [
    | yes few ↦ few
    | no many ↦
        let last : l.shift_counter ≡ 7 = omega (arith, s.counter_below) in
        absurd (omega (arith, ap (λ (t : ℕ). t * clock_rate l cpu) last))
  ]

  last_bit :
      (cycles : ℕ)
      → cycles ≤ clock_rate l cpu
      → 8 * clock_rate l cpu ≤ progress l cpu + cycles
      → (l.shift_counter ≡ 7) × (clock_rate l cpu ≤ l.shift_clock + cycles)
  last_bit cycles h full = elim (dec_lt l.shift_counter 7) [
    | yes few ↦
        let bound : l.shift_counter * clock_rate l cpu ≤ 6 * clock_rate l cpu = grind arith in
        absurd (omega (arith, s.clock_below))
    | no many ↦
        let last : l.shift_counter ≡ 7 = omega (arith, s.counter_below) in
        (last, omega (arith, ap (λ (t : ℕ). t * clock_rate l cpu) last))
  ]

  tick-IsLater :
      (cycles : ℕ)
      → cycles ≤ clock_rate l cpu
      → progress l cpu + cycles < 8 * clock_rate l cpu
      → IsLater l cpu cycles (tick cycles (l, cpu))
  tick-IsLater cycles h room = elim (dec_lt (l.shift_clock + cycles) (clock_rate l cpu)) [
    | yes short ↦
        rw (tick_waits cycles l cpu s h short) (
          moved (l.shift_clock + cycles) l.shift_counter cycles short s.counter_below (omega arith))
    | no long ↦
        let few = not_last cycles room (omega arith) in
        rw (tick_shifts cycles l cpu s h (omega arith) few) (
          moved (l.shift_clock + cycles - clock_rate l cpu) (l.shift_counter + 1) cycles
            (omega (arith, s.clock_below)) (omega arith) (omega arith))
  ]

reset_clears : (v : ℕ) → v < 256 → Bit.test (Bit.reset v 7) 7 ≡ false
reset_clears v h = ground (arith, reset_lem v 7, test_lem (Bit.reset v 7) 7)

received_kept : (l m : Link) → m.on_transfer ≡ l.on_transfer → m.sb ≡ l.sb → received m ≡ received l
unfolding received
received_kept l m p q = ap₂ (λ o (b : ℕ). elim o [ none ↦ 0xFF | some f ↦ u8 (f b) ]) p q

unfoldable pub run_ticks : List ℕ → Link × Cpu → Link × Cpu
run_ticks [] s = s
run_ticks (cycles ∷ rest) s = run_ticks rest (tick cycles s)

abbrev pub total : List ℕ → ℕ
total [] = 0
total (cycles ∷ rest) = cycles + total rest

abbrev pub AllWithin : ℕ → List ℕ → Type 0
AllWithin rate [] = Unit
AllWithin rate (cycles ∷ rest) = (cycles ≤ rate) × AllWithin rate rest

run-IsLater :
    (ticks : List ℕ) (l : Link) (cpu : Cpu)
    → IsSending l cpu
    → AllWithin (clock_rate l cpu) ticks
    → progress l cpu + total ticks < 8 * clock_rate l cpu
    → IsLater l cpu (total ticks) (run_ticks ticks (l, cpu))
unfolding run_ticks
run-IsLater [] l cpu s within room = record {
  sending = s;
  rate = refl;
  passed = omega arith;
  byte = refl;
  delegate = refl;
  quiet = refl;
}
run-IsLater (cycles ∷ rest) l cpu s within room =
    let step = tick-IsLater l cpu s cycles within.0 (omega arith) in
    let r = tick cycles (l, cpu) in
    let room' : progress r.0 r.1 + total rest < 8 * clock_rate r.0 r.1 =
      omega (arith, step.passed, step.rate) in
    let within' = subst (λ k. AllWithin k rest) (sym step.rate) within.1 in
    let later = run-IsLater rest r.0 r.1 step.sending within' room' in
    record {
      sending = later.sending;
      rate = later.rate ∙ step.rate;
      passed = omega (arith, later.passed, step.passed);
      byte = later.byte ∙ step.byte;
      delegate = later.delegate ∙ step.delegate;
      quiet = later.quiet ∙ step.quiet;
    }

-- The tick that completes the eighth period.
last_tick :
    (cycles : ℕ) (l : Link) (cpu : Cpu)
    → IsSending l cpu
    → cycles ≤ clock_rate l cpu
    → 8 * clock_rate l cpu ≤ progress l cpu + cycles
    → let r = tick cycles (l, cpu) in
      (r.0.sb ≡ received l)
      × (is_transferring r.0 ≡ false)
      × (r.1 ≡ request_interrupt Interrupt.serial cpu)
unfolding is_transferring
last_tick cycles l cpu s h full =
    let last = last_bit l cpu s cycles h full in
    rw (tick_ends cycles l cpu s h last.1 last.0) (refl, reset_clears l.sc s.sc_fits, refl)

-- A transfer that is under way ends in the tick in which its eighth period ends, and not before:
-- until then SB stays and nothing is requested; then SB holds the byte received for the byte that
-- was sent, the transfer bit is clear and the serial interrupt is requested. Ticks are no longer
-- than a period.
pub transfer :
    (ticks : List ℕ) (last : ℕ) (l : Link) (cpu : Cpu)
    → IsSending l cpu
    → AllWithin (clock_rate l cpu) ticks
    → last ≤ clock_rate l cpu
    → progress l cpu + total ticks < 8 * clock_rate l cpu
    → 8 * clock_rate l cpu ≤ progress l cpu + total ticks + last
    → let before = run_ticks ticks (l, cpu) in
      let after = tick last before in
      (is_transferring before.0 ≡ true)
      × (before.0.sb ≡ l.sb)
      × (before.1 ≡ cpu)
      × (after.0.sb ≡ received l)
      × (is_transferring after.0 ≡ false)
      × (after.1 ≡ request_interrupt Interrupt.serial cpu)
transfer ticks last l cpu s within h room full =
    let later = run-IsLater ticks l cpu s within room in
    let before = run_ticks ticks (l, cpu) in
    let h' : last ≤ clock_rate before.0 before.1 = omega (arith, later.rate) in
    let full' : 8 * clock_rate before.0 before.1 ≤ progress before.0 before.1 + last =
      omega (arith, later.rate, later.passed) in
    let ended = last_tick last before.0 before.1 later.sending h' full' in
    (
      later.sending.active,
      later.byte,
      later.quiet,
      ended.0 ∙ received_kept l before.0 later.delegate later.byte,
      ended.1,
      ended.2 ∙ ap (request_interrupt Interrupt.serial) later.quiet,
    )
