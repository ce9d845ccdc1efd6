-- ===== src/Tests/Platform.antt =====
-- bootloader/main.c with the drivers of bootloader/p4, on hardware that works.
use esp32_p4_linux.Common.{
  ℕ, Bool, Option-cases, inl, inr, ◌+◌, ◌-◌, ◌/◌, ◌≡◌, refl, arith, true, false, some, [], leb,
  ◌==◌, if◌then◌else◌,
}
use esp32_p4_linux.Boot.Memory.{read_bytes}
use esp32_p4_linux.Boot.Rom.{Rom, IsStable}
use esp32_p4_linux.Boot.Partition.Find.{entry_at, partition_of}
use esp32_p4_linux.Boot.Main.{Machine, jumped, main, kernel_pa, dtb_pa}
use esp32_p4_linux.Boot.Main.Boots.{Holds}
use esp32_p4_linux.Boot.Ldo.{Clocks}
use esp32_p4_linux.Boot.Psram.Pattern.{word_at-injective}
use esp32_p4_linux.Boot.Uart.{divisors, p4_uart0_set_baud}
use esp32_p4_linux.Boot.Drivers.{Platform, drivers}
use esp32_p4_linux.Boot.Drivers.Works.{IsWorking, main-drivers}
use esp32_p4_linux.Tests.Flash.{fold_crc, fold_crc-append, chip-read}
use esp32_p4_linux.Tests.Boot.{
  flashed, kernel-IsFirst, dtb-IsFirst, kernel-IsLoadable, dtb-IsLoadable,
}

-- The hardware's state is the size that the ROM has for the flash.
abbrev rom_of : Rom (Clocks ℕ)
rom_of = record {
  chip_size = λ c. c.hw;
  set_chip_size = λ n c. record c { hw = n };
  enter_low_speed_mode = λ c. c;
  read = λ c offset len. (leb (offset + len) c.hw, read_bytes flashed offset len, c);
  crc32 = fold_crc;
}

rom_of-IsStable : IsStable rom_of flashed
rom_of-IsStable = record {
  read-ok = λ c offset len _ _ fits. chip-read c.hw offset len fits;
  read-bytes = λ c offset len _ _ _. refl;
  chip_size-read = λ c offset len. refl;
  chip_size-set = λ n c. refl;
  crc32-append = fold_crc-append;
  crc32-nil = refl;
}

abbrev board : Platform ℕ ℕ
board = record {
  bus = record {
    read = λ a w. (0, w);
    write = λ a v w. w;
    delay = λ n w. w;
    connect_out = λ gpio signal w. w;
    connect_in = λ gpio signal w. w;
  };
  ldo = record {
    is_valid_channel = λ chan. true;
    unit_of = λ chan. chan - 1;
    enable_current_limit = λ u b w. w;
    voltage_to_dref_mul = λ u mv. (mv / 100, 1, false);
    adjust_voltage = λ u dref mul b w. w;
    set_owner_sw = λ u w. w;
    enable_ripple_suppression = λ u b w. w;
    enable = λ u b w. w;
  };
  rtc = record {
    xtal_freq_update = λ mhz w. w;
    xtal_get_freq_mhz = λ w. 40;
    mhz_to_config = λ mhz w. some mhz;
    set_config = λ cfg w. w;
    get_config = λ w. 360;
    freq_mhz = λ cfg. cfg;
    mpll_enable = λ w. w;
    mpll_disable = λ w. w;
    mpll_configure = λ xtal mpll w. w;
  };
  hal = record {
    master_enable_clock = λ w. w;
    master_configure_clock = λ w. w;
    write_mask = λ trim v w. w;
    delay_us = λ n w. w;
    brownout_reset_enable = λ b w. w;
    cache_hal_init = λ cores size line w. w;
    mmu_hal_init = λ cores page w. w;
  };
  chip = record {
    impl_enable = λ w. (0, w);
    physical_size = λ w. (0, 0x2000000);
    map_region = λ v p n w. (n, w);
    enable_bus = λ v n w. w;
    invalidate = λ v n w. w;
  };
  ram = record {
    load = λ a s. (s.1 a, s);
    store = λ a v s. (s.0, λ c. if a == c then v else s.1 c);
  };
  writeback_all = λ w. w;
  tx_wait_idle = λ w. w;
  polls = 1;
}

board-returns :
    (baud sclk w : ℕ)
    → (r : Bool × ℕ) × (p4_uart0_set_baud board.bus board.tx_wait_idle board.polls baud sclk w
        ≡ some r)
unfolding p4_uart0_set_baud
board-returns baud sclk w = elim (Option-cases (divisors baud sclk)) [
  | inl e ↦ rw (e, p4_uart0_set_baud) (_, refl)
  | inr (d, e) ↦ rw (e, p4_uart0_set_baud) (_, refl)
]

board-IsWorking : IsWorking rom_of board 0x2000000
board-IsWorking = record {
  returns = board-returns;
  enabled = λ w. refl;
  sized = λ w. refl;
  one_page = omega arith;
  mmu = record { map_region-pages = λ v p n w. refl };
  cells = λ s. s.1;
  line = λ a. a;
  decodes = record {
    load-cells = λ a s. refl;
    cells-load = λ a c s. refl;
    cells-store = λ a v c s. refl;
  };
  distinct = λ i j _ _ same. word_at-injective i j same;
  flash = λ w. w;
  chip_size-flash = λ c. refl;
  flash-enable = λ w. refl;
  flash-map = λ v a n w. refl;
  flash-bus = λ v n w. refl;
  flash-invalidate = λ v n w. refl;
  flash-xtal = λ n w. refl;
  flash-cpu = λ cfg w. refl;
  flash-cache = λ a b n w. refl;
  flash-mmu = λ a b w. refl;
  flash-load = λ a s. refl;
  flash-store = λ a v s. refl;
}

abbrev power_on : Machine (Clocks ℕ)
power_on = record { hw = record { hw = 0; s_mpll_freq_hz = 0 }; mem = λ a. 0; log = [] }

main-drivers_example :
    (m' : Machine (Clocks ℕ)) × ((main rom_of (drivers board) 0 0x10000 power_on
        ≡ jumped kernel_pa dtb_pa m')
      × (Holds flashed m'.mem kernel_pa (partition_of (entry_at flashed 0))
          × Holds flashed m'.mem dtb_pa (partition_of (entry_at flashed 1))))
main-drivers_example =
    main-drivers rom_of-IsStable board-IsWorking 0 0x10000 0 1 power_on refl refl kernel-IsFirst
      dtb-IsFirst kernel-IsLoadable dtb-IsLoadable
