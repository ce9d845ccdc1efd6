-- ===== src/Boot/Drivers/Works.antt =====
-- The drivers of bootloader/p4 are what bootloader/main.c needs to boot, on hardware that works.
use esp32_p4_linux.Common.{
  ℕ, Bool, zero, suc, ◌+◌, ◌-◌, ◌*◌, ◌/◌, ◌%◌, ◌≤◌, ◌≡◌, refl, ◌∙◌, true, not, ◌||◌, Option-cases,
  some, ◌==◌, leb, Bool-cases, inl, inr, arith,
}
use esp32_p4_linux.Boot.Memory.{Mem}
use esp32_p4_linux.Boot.Rom.{Rom, IsStable}
use esp32_p4_linux.Boot.Flash.{flash_size}
use esp32_p4_linux.Boot.Partition.Find.{entry_at, partition_of, IsFirst}
use esp32_p4_linux.Boot.Main.{Machine, jumped, main, kernel_pa, dtb_pa}
use esp32_p4_linux.Boot.Main.Boots.{IsGood, IsLoadable, Holds, main_boots}
use esp32_p4_linux.Boot.Ldo.{Clocks, p4_clk_init, p4_clk_cpu_set_mhz}
use esp32_p4_linux.Boot.Uart.{p4_uart0_set_baud}
use esp32_p4_linux.Boot.Analog.{p4_cache_init}
use esp32_p4_linux.Boot.Psram.{
  vaddr, page_size, fill, check, p4_psram_init, p4_psram_test, p4_psram_alias_test,
}
use esp32_p4_linux.Boot.Psram.Lines.{Decodes, Distinct, p4_psram_test-Distinct}
use esp32_p4_linux.Boot.Psram.Maps.{IsMmu, p4_psram_init-pages}
use esp32_p4_linux.Boot.Drivers.{Platform, drivers}

-- Hardware that works: a PSRAM of `size` bytes answers and can be mapped, its words are distinct
-- cells, and nothing that the drivers call changes the size that the ROM has for the flash.
pub record IsWorking {W Config : Type 0} (rom : Rom (Clocks W)) (p : Platform W Config) (size : ℕ)
    : Type 0 where
  -- The UART takes its update within the polls.
  pub returns :
      (baud sclk : ℕ) (w : W)
      → (r : Bool × W) × (p4_uart0_set_baud p.bus p.tx_wait_idle p.polls baud sclk w ≡ some r)
  pub enabled : (w : W) → (p.chip.impl_enable w).0 ≡ 0
  pub sized : (w : W) → p.chip.physical_size w ≡ (0, size)
  pub one_page : page_size ≤ size
  pub mmu : IsMmu p.chip
  pub cells : W × Mem → ℕ → ℕ
  pub line : ℕ → ℕ
  pub decodes : Decodes p.ram cells line
  pub distinct : Distinct line (size / page_size * page_size / 4)
  pub flash : W → ℕ
  pub chip_size-flash : (c : Clocks W) → rom.chip_size c ≡ flash c.hw
  pub flash-enable : (w : W) → flash (p.chip.impl_enable w).1 ≡ flash w
  pub flash-map : (v a n : ℕ) (w : W) → flash (p.chip.map_region v a n w).1 ≡ flash w
  pub flash-bus : (v n : ℕ) (w : W) → flash (p.chip.enable_bus v n w) ≡ flash w
  pub flash-invalidate : (v n : ℕ) (w : W) → flash (p.chip.invalidate v n w) ≡ flash w
  pub flash-xtal : (n : ℕ) (w : W) → flash (p.rtc.xtal_freq_update n w) ≡ flash w
  pub flash-cpu : (cfg : Config) (w : W) → flash (p.rtc.set_config cfg w) ≡ flash w
  pub flash-cache : (a b n : ℕ) (w : W) → flash (p.hal.cache_hal_init a b n w) ≡ flash w
  pub flash-mmu : (a b : ℕ) (w : W) → flash (p.hal.mmu_hal_init a b w) ≡ flash w
  pub flash-load : (a : ℕ) (s : W × Mem) → flash (p.ram.load a s).1.0 ≡ flash s.0
  pub flash-store : (a v : ℕ) (s : W × Mem) → flash (p.ram.store a v s).0 ≡ flash s.0

module _ {W Config : Type 0} {rom : Rom (Clocks W)} {p : Platform W Config} {size : ℕ}
    (works : IsWorking rom p size) where
  -- The ROM's size for the flash goes by the hardware.
  chip_size-same :
      (c c' : Clocks W) → works.flash c'.hw ≡ works.flash c.hw → rom.chip_size c' ≡ rom.chip_size c
  chip_size-same c c' h = rw (works.chip_size-flash c', works.chip_size-flash c) h

  fill-flash : (n i : ℕ) (s : W × Mem) → works.flash (fill p.ram n i s).0 ≡ works.flash s.0
  unfolding fill
  fill-flash zero i s = refl
  fill-flash (suc n) i s = fill-flash n (i + 1) _ ∙ works.flash-store _ _ s

  check-flash :
      (n i bad addr : ℕ) (s : W × Mem)
      → works.flash (check p.ram n i bad addr s).2.0 ≡ works.flash s.0
  unfolding check
  check-flash zero i bad addr s = refl
  check-flash (suc n) i bad addr s = check-flash n (i + 1) _ _ _ ∙ works.flash-load _ s

  p4_psram_test-flash :
      (n : ℕ) (s : W × Mem) → works.flash (p4_psram_test p.ram n s).2.0 ≡ works.flash s.0
  unfolding p4_psram_test
  p4_psram_test-flash n s = check-flash (n / 4) 0 0 0 _ ∙ fill-flash (n / 4) 0 s

  p4_psram_alias_test-flash :
      (s : W × Mem) → works.flash (p4_psram_alias_test p.ram s).1.0 ≡ works.flash s.0
  unfolding p4_psram_alias_test
  p4_psram_alias_test-flash s =
      works.flash-load _ _
      ∙ works.flash-store _ _ _
      ∙ works.flash-load _ _
      ∙ works.flash-store _ _ _
      ∙ works.flash-load _ _
      ∙ works.flash-store _ _ s

  p4_psram_init-flash : (w : W) → works.flash (p4_psram_init p.chip w).1 ≡ works.flash w
  unfolding p4_psram_init
  p4_psram_init-flash w =
      let w1 = (p.chip.impl_enable w).1 in
      let (err, n) = p.chip.physical_size w1 in
      let region = p.chip.map_region vaddr 0 (n / page_size * page_size) w1 in
      let at_w1 = works.flash-enable w in
      let at_w2 = works.flash-map vaddr 0 (n / page_size * page_size) w1 ∙ at_w1 in
      elim (Bool-cases (not ((p.chip.impl_enable w).0 == 0))) [
        | inl e ↦ rw e at_w1
        | inr e ↦ elim (Bool-cases (not (err == 0) || n == 0)) [
          | inl e' ↦ rw (e, e') at_w1
          | inr e' ↦ elim (Bool-cases (region.0 == 0)) [
            | inl e'' ↦ rw (e, e', e'') at_w2
            | inr e'' ↦
                rw (e, e', e'')
                  (works.flash-invalidate _ _ _ ∙ works.flash-bus _ _ region.1 ∙ at_w2)
          ]
        ]
      ]

  p4_psram_init-some : (w : W) → (p4_psram_init p.chip w).0 ≡ some (size / page_size * page_size)
  p4_psram_init-some w =
      let fits : leb page_size size ≡ true = ground (arith, works.one_page) in
      p4_psram_init-pages works.mmu w ∙ (rw (works.enabled w, works.sized, fits) refl)

  p4_clk_cpu_set_mhz-flash :
      (n : ℕ) (c : Clocks W)
      → works.flash (p4_clk_cpu_set_mhz p.ldo p.rtc n c).1.hw ≡ works.flash c.hw
  unfolding p4_clk_cpu_set_mhz
  p4_clk_cpu_set_mhz-flash n c = elim (Option-cases (p.rtc.mhz_to_config n c.hw)) [
    | inl e ↦ rw (e, p4_clk_cpu_set_mhz) refl
    | inr (cfg, e) ↦ rw (e, p4_clk_cpu_set_mhz) (works.flash-cpu cfg c.hw)
  ]

  -- The drivers on hardware that works are a board that can boot.
  drivers-IsGood : IsGood rom (drivers p)
  unfolding drivers p4_clk_init p4_cache_init
  drivers-IsGood = record {
    bytes = size / page_size * page_size;
    mapped = λ c. p4_psram_init-some c.hw;
    passes = λ c mem.
        (p4_psram_test-Distinct works.decodes (size / page_size * page_size) (c.hw, mem)).1
          works.distinct;
    psram_size = λ c. chip_size-same c _ (p4_psram_init-flash c.hw);
    clk_size = λ c. chip_size-same c _ (works.flash-xtal 40 c.hw);
    cache_size = λ c. chip_size-same c _ (works.flash-mmu _ _ _ ∙ works.flash-cache _ _ _ c.hw);
    cpu_size = λ n c. chip_size-same c _ (p4_clk_cpu_set_mhz-flash n c);
    test_size = λ n c mem. chip_size-same c _ (p4_psram_test-flash n (c.hw, mem));
    alias_size = λ c mem. chip_size-same c _ (p4_psram_alias_test-flash (c.hw, mem));
  }

module _ {W Config : Type 0} {rom : Rom (Clocks W)} {image : Mem} (stable : IsStable rom image)
    {p : Platform W Config} {size : ℕ} (works : IsWorking rom p size) where
  -- The second-stage bootloader with its drivers: on a stable flash whose first kernel and first
  -- device tree partition are aligned, inside the chip and not too long, and on hardware that works,
  -- it jumps to the kernel, and memory holds every byte of both partitions.
  pub main-drivers :
      (s_buf buf i j : ℕ) (m : Machine (Clocks W))
      → s_buf % 4 ≡ 0
      → buf % 4 ≡ 0
      → IsFirst image 0x40 0 i
      → IsFirst image 0x41 0 j
      → IsLoadable (partition_of (entry_at image i)) (dtb_pa - kernel_pa)
      → IsLoadable (partition_of (entry_at image j)) flash_size
      → (m' : Machine (Clocks W)) × ((main rom (drivers p) s_buf buf m ≡ jumped kernel_pa dtb_pa m')
          × (Holds image m'.mem kernel_pa (partition_of (entry_at image i))
              × Holds image m'.mem dtb_pa (partition_of (entry_at image j))))
  main-drivers s_buf buf i j m hs hb =
      main_boots stable (drivers-IsGood works) s_buf buf hs hb i j m
