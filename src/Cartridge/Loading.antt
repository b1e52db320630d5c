-- ===== src/Cartridge/Loading.antt =====
-- What a cartridge is like after its header is read.
use gameboi.Base.{
  ℕ, ◌*◌, ◌≤◌, ◌≡◌, Bool, true, false, List, [], length, length-replicate, get_or, ◌∷◌, Option,
  none, some, Option-cases, Bool-cases, arith, refl, inl, inr, ◌==◌,
}
use gameboi.Mbc.State
use gameboi.Mbc.Mbc3.{Rtc, make, update_rtc_latch}
use gameboi.Cartridge.{Cartridge, base_of, regular, ram_enabled}
use gameboi.Cartridge.Header.{
  initial, checksum, Kind, kind_of, rom_bank_count_of, ram_bank_count_of, Saved, load_ram,
  controller_of, allocated, allocate_ram, parsed, load_rom, load_rtc, one_of,
}
use gameboi.Cartridge.Banks.{Fits, IsRegister}
use gameboi.Cartridge.Memory.{IsSound, ram_size}

make-base : (now time : ℕ) (r : Rtc) → (make now time r).base ≡ State.initial
unfolding make update_rtc_latch
make-base now time r = ground arith

load_ram-length :
    (saved : Option (List ℕ)) (ram : List ℕ) → length (load_ram saved ram) ≡ length ram
unfolding load_ram
load_ram-length none ram = refl
load_ram-length (some saved) ram = ground arith

rom_bank_count-range : (code n : ℕ) → rom_bank_count_of code ≡ some n → (2 ≤ n) × (n ≤ 512)
unfolding rom_bank_count_of
rom_bank_count-range code n h = ground arith

ram_bank_count-range : (code n : ℕ) → ram_bank_count_of code ≡ some n → n ≤ 16
unfolding ram_bank_count_of
ram_bank_count-range code n h = ground arith

allocate_ram-length : (amount : ℕ) → length (allocate_ram amount) ≡ amount
unfolding allocate_ram
allocate_ram-length amount = length-replicate amount 0

-- The RAM that is allocated has the size that its controller addresses.
allocated-length :
    (code banks : ℕ) (kind : Kind) (has_rtc : Bool) (saved : Saved)
    → kind_of code ≡ some kind
    → length (allocated code banks [])
      ≡ ram_size banks (controller_of kind has_rtc saved (regular State.initial))
unfolding allocated kind_of controller_of
allocated-length code banks Kind.kept_kind has_rtc saved h =
    let whole = allocate_ram-length (banks * (8 * 1024)) in ground arith
allocated-length code banks Kind.mbc1_kind has_rtc saved h =
    let whole = allocate_ram-length (banks * (8 * 1024)) in ground arith
allocated-length code banks Kind.mbc2_kind has_rtc saved h =
    let small = allocate_ram-length 512 in ground arith
allocated-length code banks Kind.mbc3_kind has_rtc saved h =
    let whole = allocate_ram-length (banks * (8 * 1024)) in ground arith
allocated-length code banks Kind.mbc5_kind has_rtc saved h =
    let whole = allocate_ram-length (banks * (8 * 1024)) in ground arith

fresh : Fits 1 2 1 State.initial
fresh = record { rom_least = omega arith; rom_fits = omega arith; ram_fits = omega arith }

controller_of-IsRegister :
    (kind : Kind) (has_rtc : Bool) (saved : Saved)
    → IsRegister (controller_of kind has_rtc saved (regular State.initial))
unfolding controller_of
controller_of-IsRegister Kind.kept_kind has_rtc saved = fresh
controller_of-IsRegister Kind.mbc1_kind has_rtc saved = record {
  rom_least = omega arith;
  rom_fits = omega arith;
  ram_fits = omega arith;
}
controller_of-IsRegister Kind.mbc2_kind has_rtc saved = record {
  rom_least = omega arith;
  rom_fits = omega arith;
  ram_fits = omega arith;
}
controller_of-IsRegister Kind.mbc3_kind has_rtc saved =
    let loaded = load_rtc has_rtc saved.rtc_data in
    rw (make-base (saved.now) (loaded.0) (loaded.1))
      (record { rom_least = omega arith; rom_fits = omega arith; ram_fits = omega arith })
controller_of-IsRegister Kind.mbc5_kind has_rtc saved = record {
  rom_least = omega arith;
  rom_fits = omega arith;
  ram_fits = omega arith;
}

controller_of-disabled :
    (kind : Kind) (has_rtc : Bool) (saved : Saved)
    → (base_of (controller_of kind has_rtc saved (regular State.initial))).ram_enabled ≡ false
unfolding controller_of
controller_of-disabled Kind.kept_kind has_rtc saved = refl
controller_of-disabled Kind.mbc1_kind has_rtc saved = refl
controller_of-disabled Kind.mbc2_kind has_rtc saved = refl
controller_of-disabled Kind.mbc3_kind has_rtc saved =
    let loaded = load_rtc has_rtc saved.rtc_data in
    rw (make-base (saved.now) (loaded.0) (loaded.1)) refl
controller_of-disabled Kind.mbc5_kind has_rtc saved = refl

-- What a header that is accepted says.
record Accepted (rom : List ℕ) (saved : Saved) (before c : Cartridge) : Type 0 where
  kind : Kind
  rom_banks : ℕ
  ram_banks : ℕ
  kind_read : kind_of (get_or rom 0x0147 0) ≡ some kind
  rom_read : rom_bank_count_of (get_or rom 0x0148 0) ≡ some rom_banks
  ram_read : ram_bank_count_of (get_or rom 0x0149 0) ≡ some ram_banks
  checksum_fits : (checksum rom == get_or rom 0x014D 0) ≡ true
  result : c ≡ parsed rom saved before kind rom_banks ram_banks

accepted :
    (rom : List ℕ) (saved : Saved) (before c : Cartridge)
    → load_rom rom saved before ≡ some c
    → Accepted rom saved before c
unfolding load_rom
accepted rom saved before c h = elim (Bool-cases (checksum rom == get_or rom 0x014D 0)) [
  | inr bad ↦ absurd (ground arith)
  | inl good ↦ elim (Option-cases (kind_of (get_or rom 0x0147 0))) [
    | inl no_kind ↦ absurd (ground arith)
    | inr (kind, k) ↦ elim (Option-cases (rom_bank_count_of (get_or rom 0x0148 0))) [
      | inl no_rom ↦ absurd (ground arith)
      | inr (rom_banks, r) ↦ elim (Option-cases (ram_bank_count_of (get_or rom 0x0149 0))) [
        | inl no_ram ↦ absurd (ground arith)
        | inr (ram_banks, q) ↦ record {
          kind = kind;
          rom_banks = rom_banks;
          ram_banks = ram_banks;
          kind_read = k;
          rom_read = r;
          ram_read = q;
          checksum_fits = good;
          result = ground arith;
        }
      ]
    ]
  ]
]

-- What a cartridge is when it is first run.
pub record IsFresh (c : Cartridge) : Type 0 where
  pub sound : IsSound c
  pub registers : IsRegister c.mbc
  pub least_banks : 2 ≤ c.rom_bank_count
  pub most_banks : c.rom_bank_count ≤ 512

parsed-IsFresh :
    (rom : List ℕ) (saved : Saved) (kind : Kind) (rom_banks ram_banks : ℕ)
    → kind_of (get_or rom 0x0147 0) ≡ some kind
    → rom_bank_count_of (get_or rom 0x0148 0) ≡ some rom_banks
    → ram_bank_count_of (get_or rom 0x0149 0) ≡ some ram_banks
    → IsFresh (parsed rom saved initial kind rom_banks ram_banks)
unfolding parsed ram_enabled controller_of
parsed-IsFresh rom saved kind rom_banks ram_banks k r q =
    let code = get_or rom 0x0147 0 in
    let has_rtc = one_of code (0x0F ∷ 0x10 ∷ []) in
    let ram = allocated code ram_banks [] in
    let range = rom_bank_count-range (get_or rom 0x0148 0) rom_banks r in
    let size = allocated-length code ram_banks kind has_rtc saved k in
    let kept = load_ram-length (saved.ram_data) ram in
    let few = ram_bank_count-range (get_or rom 0x0149 0) ram_banks q in
    record {
      sound = record {
        count_fits = omega arith;
        ram_fits = ground arith;
        enabled_has_ram = inl (controller_of-disabled kind has_rtc saved);
      };
      registers = controller_of-IsRegister kind has_rtc saved;
      least_banks = range.0;
      most_banks = range.1;
    }

-- A cartridge whose header is accepted, loaded into a new emulator, is sound, has its registers in
-- their widths and counts 2 to 512 ROM banks.
pub load_rom-IsFresh :
    (rom : List ℕ) (saved : Saved) (c : Cartridge) → load_rom rom saved initial ≡ some c → IsFresh c
load_rom-IsFresh rom saved c h =
    let a = accepted rom saved initial c h in
    rw (a.result) (
      parsed-IsFresh rom saved (a.kind) (a.rom_banks) (a.ram_banks) (a.kind_read) (a.rom_read)
        (a.ram_read))
