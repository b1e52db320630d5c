-- ===== src/Machine/Screen.antt =====
-- What the machine reads in LY.
use gameboi.Base.{ℕ, zero, suc, ◌≡◌, Bool, List, if◌then◌else◌, true, false, refl}
use gameboi.Mmu.Map.{read}
use gameboi.Ppu.Control.{general_purpose_register_read}
use gameboi.System.{find_delegate, cpu_delegate, link_delegate, joypad_delegate, timer_delegate}
use gameboi.Machine.Units.{Machine, find_unit, devices_at}
use gameboi.Machine.Run.{read_ly}

-- LY is read off the picture unit, and as 0 while the screen is off.
pub read_ly_lem :
    (mix : List ℕ → ℕ → ℕ) (cgb : Bool) (depth : ℕ) (m : Machine)
    → read_ly mix cgb depth m ≡ (if m.devices.ppu.lcd_enabled then m.devices.ppu.ly else 0)
unfolding read_ly read devices_at find_unit find_delegate cpu_delegate link_delegate joypad_delegate
    timer_delegate general_purpose_register_read
read_ly_lem mix true zero m = refl
read_ly_lem mix false zero m = refl
read_ly_lem mix true (suc depth) m = refl
read_ly_lem mix false (suc depth) m = refl
