-- ===== src/Mbc/Mbc3.antt =====
-- gameboy/include/gameboy/memory/controller/mbc3.h and gameboy/src/memory/controller/mbc3.cpp.
-- `current_time()` is the argument `now`; a `time_t` is a number of seconds.
pub mod Clock
use gameboi.Base.{
  ℕ, ◌+◌, ◌-◌, ◌%◌, ◌^◌, Bool, true, false, not, ◌&&◌, ◌||◌, ◌==◌, leb, ltb, List, get_or, set,
  if◌then◌else◌, bit_and, bit_or, u8, u32, sub8,
}
use gameboi.Base.Int.{ℤ, pos, sub_ℕ, tdiv, tmod, add_wrap}
use gameboi.Range
use gameboi.Util.Bit
use gameboi.Mbc.State.{Mbc, set_ram_enabled}
use gameboi.Mbc.State

pub record Rtc : Type 0 where
  pub seconds : ℕ
  pub minutes : ℕ
  pub hours : ℕ
  pub days_lower : ℕ
  pub days_higher : ℕ

-- `rtc::read`
unfoldable pub read : ℕ → Rtc → ℕ
read idx r =
    if idx == 0x08
    then r.seconds
    else if idx == 0x09
    then r.minutes
    else if idx == 0x0A
    then r.hours
    else if idx == 0x0B
    then r.days_lower
    else if idx == 0x0C
    then r.days_higher
    else 0xFF

pub record Mbc3 : Type 0 where
  pub base : Mbc
  pub rtc : Rtc
  pub rtc_latch : Rtc
  pub rtc_last_time : ℕ
  pub rtc_enabled : Bool
  pub rtc_latch_data : ℕ
  pub rtc_selected_register_idx : ℕ

-- One unit of the clock: `value += amount`, and a carry past `limit`.
abbrev pub carried : ℕ → ℕ → ℤ → ℕ × Bool
carried limit value amount =
    let sum = add_wrap 256 value amount in
    if ltb (limit - 1) sum then (sub8 sum limit, true) else (sum, false)

-- The days, as the `uint32_t` that the code adds up.
unfoldable pub count_days : Bool → ℤ → Rtc → Rtc
count_days carry days r =
    let start = u32 (r.days_lower + Bit.extract r.days_higher 0) in
    let carried_days = if carry then u32 (start + 1) else start in
    let sum = add_wrap (2 ^ 32) carried_days days in
    let over = ltb 511 sum in
    let rtc_days = if over then sum % 512 else sum in
    let higher = if over then bit_and (bit_or r.days_higher 0x80) 0xC0 else r.days_higher in
    record r {
      days_lower = u8 (bit_and rtc_days 0xFF);
      days_higher = bit_or higher (Bit.extract rtc_days 8);
    }

-- The clock `difference` seconds later.
unfoldable pub advance : ℤ → Rtc → Rtc
advance difference r =
    let (seconds, seconds_carry) = carried 60 r.seconds (tmod difference 60) in
    let in_minutes = tdiv difference 60 in
    let minutes_before = if seconds_carry then u8 (r.minutes + 1) else r.minutes in
    let (minutes, minutes_carry) = carried 60 minutes_before (tmod in_minutes 60) in
    let in_hours = tdiv in_minutes 60 in
    let hours_before = if minutes_carry then u8 (r.hours + 1) else r.hours in
    let (hours, hours_carry) = carried 24 hours_before (tmod in_hours 24) in
    count_days hours_carry (tdiv in_hours 24)
      (record r { seconds = seconds; minutes = minutes; hours = hours })

unfoldable pub update_rtc_latch : ℕ → Mbc3 → Mbc3
update_rtc_latch now m =
    if Bit.test m.rtc.days_higher 6 || (m.rtc_last_time == now)
    then m
    else record m { rtc_last_time = now; rtc = advance (sub_ℕ now m.rtc_last_time) m.rtc }

-- The constructor, from the saved time and clock; its two calls of `current_time()` read one time.
unfoldable pub make : ℕ → ℕ → Rtc → Mbc3
make now saved_time saved_rtc = update_rtc_latch now (record {
  base = State.initial;
  rtc = saved_rtc;
  rtc_latch = saved_rtc;
  rtc_last_time = if saved_time == 0 then now else saved_time;
  rtc_enabled = false;
  rtc_latch_data = 0;
  rtc_selected_register_idx = 0;
})

-- A write to the latch register: a rise from 0 to 1 takes a copy of the clock.
unfoldable pub latch : ℕ → ℕ → Mbc3 → Mbc3
latch now val m =
    let updated = update_rtc_latch now m in
    let latched =
      if m.rtc_latch_data == 0 && Bit.test val 0
      then record updated { rtc_latch = updated.rtc }
      else m in
    record latched { rtc_latch_data = bit_and val 0x1 }

unfoldable pub control : ℕ → Bool → ℕ → ℕ → ℕ → Mbc3 → Mbc3
control ram_bank_count has_rtc now address val m =
    let bank = bit_and val 0x7F in
    if Range.has (Range.up_to 0x1FFF) address
    then if not (ram_bank_count == 0) then record m { base = set_ram_enabled val m.base } else m
    else if Range.has (Range.make 0x2000 0x3FFF) address
    then record m { base = record (m.base) { rom_bank = if bank == 0 then 1 else bank } }
    else if Range.has (Range.make 0x4000 0x5FFF) address
    then if leb val 0x03
      then record m { base = record (m.base) { ram_bank = val }; rtc_enabled = false }
      else if leb 0x08 val && leb val 0x0C
      then if has_rtc then record m { rtc_enabled = true; rtc_selected_register_idx = val } else m
      else m
    else if Range.has (Range.make 0x6000 0x7FFF) address
    then if has_rtc then latch now val m else m
    else m

unfoldable pub read_ram : ℕ → Mbc3 → List ℕ → ℕ
read_ram address m ram =
    if m.rtc_enabled then read m.rtc_selected_register_idx m.rtc_latch else get_or ram address 0

-- The `switch` on the selected register.
unfoldable pub write_rtc : ℕ → ℕ → Rtc → Rtc
write_rtc idx val r =
    if idx == 0x08
    then record r { seconds = val }
    else if idx == 0x09
    then record r { minutes = val }
    else if idx == 0x0A
    then record r { hours = val }
    else if idx == 0x0B
    then record r { days_lower = val }
    else if idx == 0x0C
    then record r { days_higher = bit_or (bit_and r.days_higher 0x80) (bit_and val 0xC1) }
    else r

-- The write to `ram` follows the clock's in every case.
unfoldable pub write_ram : ℕ → ℕ → Mbc3 → List ℕ → Mbc3 × List ℕ
write_ram address val m ram = (
  if m.rtc_enabled then record m { rtc = write_rtc m.rtc_selected_register_idx val m.rtc } else m,
  set ram address val,
)
