-- ===== src/Mbc/Mbc3/Clock.antt =====
-- The real-time clock of the MBC3 against one count of seconds.
use gameboi.Base.{ℕ, ◌+◌, ◌*◌, ◌/◌, ◌%◌, ◌<◌, Bool, if◌then◌else◌, u8}
use gameboi.Base.Int.{pos}
use gameboi.Util.Bit
use gameboi.Mbc.Mbc3.{Rtc, carried}

-- The number that the registers show.
abbrev pub day : Rtc → ℕ
day r = r.days_higher % 2 * 256 + r.days_lower

abbrev pub total_seconds : Rtc → ℕ
total_seconds r = ((day r * 24 + r.hours) * 60 + r.minutes) * 60 + r.seconds

-- A clock set to a time of day; of the upper day register only bits 0, 6 and 7 are used.
pub record IsTime (r : Rtc) : Type 0 where
  pub seconds_fit : r.seconds < 60
  pub minutes_fit : r.minutes < 60
  pub hours_fit : r.hours < 24
  pub days_fit : r.days_lower < 256
  pub higher_fits : r.days_higher < 256

-- What `advance` hands to the count of days: the clock with its new time, and the carry.
unfoldable to_days : ℕ → Rtc → Rtc × Bool
to_days d r =
    let s = carried 60 r.seconds (pos (d % 60)) in
    let m = carried 60 (if s.1 then u8 (r.minutes + 1) else r.minutes) (pos (d / 60 % 60)) in
    let h = carried 24 (if m.1 then u8 (r.hours + 1) else r.hours) (pos (d / 60 / 60 % 24)) in
    (record r { seconds = s.0; minutes = m.0; hours = h.0 }, h.1)

-- The time of day and the days that it makes, in seconds.
time_of_day : Rtc → ℕ
time_of_day r = r.hours * 3600 + r.minutes * 60 + r.seconds
