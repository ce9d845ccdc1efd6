-- ===== src/Boot/Ldo.antt =====
-- bootloader/p4/p4_ldo.c, and the MPLL half of bootloader/p4/p4_clk.c that stands on it. The
-- accesses of the vendored `ldo_ll_*` and `rtc_clk_*` are an interface.
pub mod Order
use esp32_p4_linux.Common.{ℕ, ◌/◌, Bool, true, false, Option, none, some, if◌then◌else◌}

-- `ldo_ll.h`, by unit.
pub record LdoLl (W : Type 0) : Type 0 where
  pub is_valid_channel : ℕ → Bool
  -- `LDO_ID2UNIT`
  pub unit_of : ℕ → ℕ
  pub enable_current_limit : ℕ → Bool → W → W
  -- `ldo_ll_voltage_to_dref_mul` in millivolts: dref, mul, and whether the rail is used as it is
  pub voltage_to_dref_mul : ℕ → ℕ → ℕ × ℕ × Bool
  pub adjust_voltage : ℕ → ℕ → ℕ → Bool → W → W
  -- `ldo_ll_set_owner(unit, LDO_LL_UNIT_OWNER_SW)`
  pub set_owner_sw : ℕ → W → W
  pub enable_ripple_suppression : ℕ → Bool → W → W
  pub enable : ℕ → Bool → W → W

-- `P4_LDO_CHAN_PSRAM`, `P4_LDO_MV_PSRAM`, `P4_LDO_CHAN_SDMMC` and `P4_LDO_MV_SDMMC`
abbrev pub chan_psram : ℕ
chan_psram = 2

abbrev pub mv_psram : ℕ
mv_psram = 1800

abbrev pub chan_sdmmc : ℕ
chan_sdmmc = 4

abbrev pub mv_sdmmc : ℕ
mv_sdmmc = 3300

unfoldable pub p4_ldo_enable : {W : Type 0} → LdoLl W → ℕ → ℕ → W → Bool × W
p4_ldo_enable ldo chan_id voltage_mv w =
    let u = ldo.unit_of chan_id in
    let (dref, mul, use_rail_voltage) = ldo.voltage_to_dref_mul u voltage_mv in
    if ldo.is_valid_channel chan_id
    then (
      true,
      ldo.enable_current_limit u false (
          ldo.enable u true (
            ldo.enable_ripple_suppression u true (
              ldo.set_owner_sw u (
                ldo.adjust_voltage u dref mul use_rail_voltage
                  (ldo.enable_current_limit u true w))))),
    )
    else (false, w)

-- What p4_clk.c calls of `rtc_clk.h` and `clk_tree_hal.h`. `Config` is `rtc_cpu_freq_config_t`.
pub record RtcClk (W Config : Type 0) : Type 0 where
  pub xtal_freq_update : ℕ → W → W
  pub xtal_get_freq_mhz : W → ℕ
  pub mhz_to_config : ℕ → W → Option Config
  pub set_config : Config → W → W
  pub get_config : W → Config
  pub freq_mhz : Config → ℕ
  pub mpll_enable : W → W
  pub mpll_disable : W → W
  -- `rtc_clk_mpll_configure(xtal_mhz, mpll_mhz, false)`
  pub mpll_configure : ℕ → ℕ → W → W

-- The hardware, with the static `s_mpll_freq_hz`.
pub record Clocks (W : Type 0) : Type 0 where
  pub hw : W
  pub s_mpll_freq_hz : ℕ

module _ {W Config : Type 0} (ldo : LdoLl W) (rtc : RtcClk W Config) where
  unfoldable pub p4_clk_init : Clocks W → Clocks W
  p4_clk_init c = record c { hw = rtc.xtal_freq_update 40 c.hw }

  unfoldable pub p4_clk_cpu_set_mhz : ℕ → Clocks W → Bool × Clocks W
  p4_clk_cpu_set_mhz mhz c = elim (rtc.mhz_to_config mhz c.hw) [
    | none ↦ (false, c)
    | some cfg ↦ (true, record c { hw = rtc.set_config cfg c.hw })
  ]

  unfoldable pub p4_clk_cpu_get_mhz : Clocks W → ℕ
  p4_clk_cpu_get_mhz c = rtc.freq_mhz (rtc.get_config c.hw)

  -- True for `ESP_OK`.
  unfoldable pub esp_clk_tree_mpll_acquire : Clocks W → Bool × Clocks W
  unfolding p4_ldo_enable
  esp_clk_tree_mpll_acquire c =
      let (powered, w) = p4_ldo_enable ldo chan_psram mv_psram c.hw in
      if powered then (true, record c { hw = rtc.mpll_enable w }) else (false, record c { hw = w })

  unfoldable pub esp_clk_tree_mpll_release : Clocks W → Clocks W
  esp_clk_tree_mpll_release c = record { hw = rtc.mpll_disable c.hw; s_mpll_freq_hz = 0 }

  -- The frequency reported through `real_freq_hz`.
  unfoldable pub esp_clk_tree_mpll_freq_set : ℕ → Clocks W → ℕ × Clocks W
  esp_clk_tree_mpll_freq_set expt_freq_hz c =
      let xtal_mhz = rtc.xtal_get_freq_mhz c.hw in
      (
        expt_freq_hz,
        record {
          hw = rtc.mpll_configure xtal_mhz (expt_freq_hz / 1000000) c.hw;
          s_mpll_freq_hz = expt_freq_hz;
        },
      )
