-- ===== src/Tests/Boot.antt =====
-- `main` of bootloader/main.c on a board that works.
use esp32_p4_linux.Common.{
  ℕ, zero, suc, ◌+◌, ◌-◌, ◌%◌, ◌<◌, ◌≡◌, refl, arith, true, false, some, [], ◌∷◌, ◌&&◌, inl, inr,
  leb, ltb, if◌then◌else◌, Bytes, get_or,
}
use esp32_p4_linux.Boot.Memory.{Mem, read_bytes}
use esp32_p4_linux.Boot.Rom.{Rom, IsStable}
use esp32_p4_linux.Boot.Partition.{decode}
use esp32_p4_linux.Boot.Partition.Find.{IsFirst, Passed, entry_at, partition_of}
use esp32_p4_linux.Boot.Main.{Board, Machine, jumped, main, kernel_pa, dtb_pa}
use esp32_p4_linux.Boot.Main.Boots.{IsGood, IsLoadable, Holds, main_boots}
use esp32_p4_linux.Boot.Main.Checks.{Checked, main_checks}
use esp32_p4_linux.Tests.Flash.{fold_crc, fold_crc-append, chip-read}

-- The two entries of partitions.csv.
abbrev table : Bytes
table =
    0xAA ∷ 0x50 ∷ 0x40 ∷ 0 ∷ 0 ∷ 0 ∷ 2 ∷ 0 ∷ 0 ∷ 0 ∷ 0xC0 ∷ 0 ∷ 0 ∷ 0 ∷ 0 ∷ 0 ∷ 0 ∷ 0 ∷ 0 ∷ 0 ∷ 0
    ∷ 0 ∷ 0 ∷ 0 ∷ 0 ∷ 0 ∷ 0 ∷ 0 ∷ 0 ∷ 0 ∷ 0 ∷ 0 ∷ 0xAA ∷ 0x50 ∷ 0x41 ∷ 0 ∷ 0 ∷ 0 ∷ 0xC2 ∷ 0 ∷ 0 ∷ 0
    ∷ 1 ∷ 0 ∷ []

abbrev pub flashed : Mem
flashed a = if leb 0x8000 a && ltb a 0x802c then get_or table (a - 0x8000) 0 else a % 251

abbrev flash_chip : Rom ℕ
flash_chip = record {
  chip_size = λ size. size;
  set_chip_size = λ n size. n;
  enter_low_speed_mode = λ size. size;
  read = λ size offset len. (leb (offset + len) size, read_bytes flashed offset len, size);
  crc32 = fold_crc;
}

flash_chip-IsStable : IsStable flash_chip flashed
flash_chip-IsStable = record {
  read-ok = λ size offset len _ _ fits. chip-read size offset len fits;
  read-bytes = λ size offset len _ _ _. refl;
  chip_size-read = λ size offset len. refl;
  chip_size-set = λ n size. refl;
  crc32-append = fold_crc-append;
  crc32-nil = refl;
}

-- No SD card and no Ethernet.
abbrev bare_board : Board ℕ
bare_board = record {
  wdt_disable_all = λ w. w;
  analog_init = λ w. w;
  uart0_set_baud = λ baud xtal w. (true, w);
  clk_init = λ w. w;
  cache_init = λ w. w;
  psram_init = λ w. (some 0x2000000, w);
  cpu_set_mhz = λ mhz w. (true, w);
  psram_test = λ bytes w mem. (true, w, λ a. 0);
  psram_alias_test = λ w mem. (w, mem);
  sdmmc_init = λ w. (false, w);
  emac_refclk_probe = λ w. w;
  emac_init = λ w. (false, w);
  emac_mdio_scan = λ w. w;
  cache_writeback_all = λ w. w;
}

bare_board-IsGood : IsGood flash_chip bare_board
bare_board-IsGood = record {
  bytes = 0x2000000;
  mapped = λ w. refl;
  passes = λ w mem. refl;
  psram_size = λ w. refl;
  clk_size = λ w. refl;
  cache_size = λ w. refl;
  cpu_size = λ n w. refl;
  test_size = λ n w mem. refl;
  alias_size = λ w mem. refl;
}

pub kernel-IsFirst : IsFirst flashed 0x40 0 0
unfolding decode
kernel-IsFirst = record {
  inside = omega arith;
  real = refl;
  same_type = refl;
  same_subtype = refl;
  before = λ j lt. absurd (omega arith);
}

before_dtb : (j : ℕ) → j < 1 → Passed 0x41 0 (entry_at flashed j)
unfolding decode
before_dtb zero lt = inr (refl, inl (λ (q : ◌≡◌ {A = ℕ} 0x40 0x41). absurd (omega arith)))
before_dtb (suc k) lt = absurd (omega arith)

pub dtb-IsFirst : IsFirst flashed 0x41 0 1
unfolding decode
dtb-IsFirst = record {
  inside = omega arith;
  real = refl;
  same_type = refl;
  same_subtype = refl;
  before = before_dtb;
}

pub kernel-IsLoadable : IsLoadable (partition_of (entry_at flashed 0)) (dtb_pa - kernel_pa)
unfolding decode
kernel-IsLoadable = record { aligned = (refl, refl); inside = omega arith; fits = omega arith }

pub dtb-IsLoadable : IsLoadable (partition_of (entry_at flashed 1)) (16777216)
unfolding decode
dtb-IsLoadable = record { aligned = (refl, refl); inside = omega arith; fits = omega arith }

abbrev reset : Machine ℕ
reset = record { hw = 0x400000; mem = λ a. 0; log = [] }

main_boots_example :
    (m' : Machine ℕ) × ((main flash_chip bare_board 0 0x10000 reset ≡ jumped kernel_pa dtb_pa m')
      × (Holds flashed m'.mem kernel_pa (partition_of (entry_at flashed 0))
          × Holds flashed m'.mem dtb_pa (partition_of (entry_at flashed 1))))
main_boots_example =
    main_boots flash_chip-IsStable bare_board-IsGood 0 0x10000 refl refl 0 1 reset kernel-IsFirst
      dtb-IsFirst kernel-IsLoadable dtb-IsLoadable

booted :
    (m' : Machine ℕ) × (main flash_chip bare_board 0 0x10000 reset ≡ jumped kernel_pa dtb_pa m')
booted =
    let (m', (e, _)) =
      main_boots flash_chip-IsStable bare_board-IsGood 0 0x10000 refl refl 0 1 reset kernel-IsFirst
        dtb-IsFirst kernel-IsLoadable dtb-IsLoadable in
    (m', e)

main_checks_example :
    (kernel_pa ≡ kernel_pa)
    × ((dtb_pa ≡ dtb_pa) × Checked flash_chip bare_board 0 0x10000 reset booted.0)
main_checks_example = main_checks flash_chip bare_board 0 0x10000 reset booted.0 booted.1
