-- ===== src/Boot/Drivers.antt =====
-- The drivers of bootloader/p4 put together: the `Board` of bootloader/main.c made of them.
pub mod Works
use esp32_p4_linux.Common.{ℕ, Bool, true, false, Option, none, some, List, [], ◌∷◌}
use esp32_p4_linux.Boot.Memory.{Mem}
use esp32_p4_linux.Boot.Main.{Board}
use esp32_p4_linux.Boot.Regs.{Bus}
use esp32_p4_linux.Boot.Uart.{p4_uart0_set_baud}
use esp32_p4_linux.Boot.Wdt.{p4_wdt_disable_all}
use esp32_p4_linux.Boot.Analog.{AnalogHal, p4_analog_init, p4_cache_init}
use esp32_p4_linux.Boot.Ldo.{LdoLl, RtcClk, Clocks, p4_clk_init, p4_clk_cpu_set_mhz}
use esp32_p4_linux.Boot.Psram.{Chip, Ram, p4_psram_init, p4_psram_test, p4_psram_alias_test}
use esp32_p4_linux.Boot.Emac.{p4_emac_refclk_probe, p4_emac_init, p4_emac_mdio_scan}
use esp32_p4_linux.Boot.Sdmmc.{p4_sdmmc_init}

-- The hardware that the drivers run on.
pub record Platform (W Config : Type 0) : Type 0 where
  pub bus : Bus W
  pub ldo : LdoLl W
  pub rtc : RtcClk W Config
  pub hal : AnalogHal W
  pub chip : Chip W
  pub ram : Ram (W × Mem)
  -- `cache_hal_writeback_all`
  pub writeback_all : W → W
  -- `uart_tx_wait_idle(0)`, and the polls within which the UART takes its update
  pub tx_wait_idle : W → W
  pub polls : ℕ

-- The result of a driver that waits without a bound, where it returns. A wait that never ends stops
-- the boot, which `Board` cannot say: here it counts as a failure, so a theorem on `drivers` needs
-- `returns` of `IsWorking` in Boot/Drivers/Works, which says that the wait ends.
abbrev pub returned : {W : Type 0} → W → Option (Bool × W) → Bool × W
returned w none = (false, w)
returned w (some r) = r

-- The state of a driver that knows the hardware only, inside that of the clocks.
abbrev pub on_hw : {W A : Type 0} → (W → A × W) → Clocks W → A × Clocks W
on_hw f c = let (a, w) = f c.hw in (a, record c { hw = w })

abbrev pub to_hw : {W : Type 0} → (W → W) → Clocks W → Clocks W
to_hw f c = record c { hw = f c.hw }

-- The two PSRAM tests, on the memory that `main` copies to.
abbrev pub in_mem : {W A : Type 0} → (W × Mem → A × (W × Mem)) → Clocks W → Mem → A × Clocks W × Mem
in_mem f c mem = let (a, (w, mem')) = f (c.hw, mem) in (a, record c { hw = w }, mem')

unfoldable pub drivers : {W Config : Type 0} → Platform W Config → Board (Clocks W)
unfolding p4_wdt_disable_all p4_analog_init p4_uart0_set_baud p4_clk_init p4_cache_init
    p4_psram_init p4_clk_cpu_set_mhz p4_psram_test p4_psram_alias_test p4_sdmmc_init
    p4_emac_refclk_probe p4_emac_init p4_emac_mdio_scan
drivers p = record {
  wdt_disable_all = to_hw (p4_wdt_disable_all p.bus);
  analog_init = to_hw (p4_analog_init p.hal);
  uart0_set_baud = λ baud sclk.
      on_hw (λ w. returned w (p4_uart0_set_baud p.bus p.tx_wait_idle p.polls baud sclk w));
  clk_init = p4_clk_init p.ldo p.rtc;
  cache_init = to_hw (p4_cache_init p.hal);
  psram_init = on_hw (p4_psram_init p.chip);
  cpu_set_mhz = p4_clk_cpu_set_mhz p.ldo p.rtc;
  psram_test =
      λ bytes. in_mem (λ s. let (good, bad_addr, s') = p4_psram_test p.ram bytes s in (good, s'));
  psram_alias_test =
      λ c mem. let (good, c', mem') = in_mem (p4_psram_alias_test p.ram) c mem in (c', mem');
  sdmmc_init = on_hw (p4_sdmmc_init p.ldo p.bus);
  emac_refclk_probe = to_hw (λ w. (p4_emac_refclk_probe p.bus w).1);
  emac_init = on_hw (p4_emac_init p.bus);
  emac_mdio_scan = to_hw (λ w. (p4_emac_mdio_scan p.bus w).1);
  cache_writeback_all = to_hw p.writeback_all;
}
