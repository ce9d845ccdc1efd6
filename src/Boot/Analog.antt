-- ===== src/Boot/Analog.antt =====
-- `p4_analog_init` of bootloader/p4/p4_analog.c and `p4_cache_init` of bootloader/p4/p4_cache.c,
-- with the two calls of bootloader/p4/p4_flashcache.c that do nothing.
use esp32_p4_linux.Common.{ℕ, Bool, true}

-- The registers behind the analog i2c master that are trimmed.
pub data Trim : Type 0 where
  cpll_oc_div spll_oc_div bias_dreg bias_dreg_pvt : Trim

-- What the two files call of the vendored HAL.
pub record AnalogHal (W : Type 0) : Type 0 where
  -- `_regi2c_ctrl_ll_master_enable_clock(true)` and `regi2c_ctrl_ll_master_configure_clock()`
  pub master_enable_clock : W → W
  pub master_configure_clock : W → W
  -- `REGI2C_WRITE_MASK`
  pub write_mask : Trim → ℕ → W → W
  pub delay_us : ℕ → W → W
  -- `brownout_ll_ana_reset_enable`
  pub brownout_reset_enable : Bool → W → W
  -- `cache_hal_init`: cores, and the size and the line size of the L2 cache
  pub cache_hal_init : ℕ → ℕ → ℕ → W → W
  -- `mmu_hal_init`: cores, and the page size
  pub mmu_hal_init : ℕ → ℕ → W → W

-- Configured for a revision before 3, as bootloader/sdkconfig.h says.
unfoldable pub p4_analog_init : {W : Type 0} → AnalogHal W → W → W
p4_analog_init hal w =
    let w = hal.master_configure_clock (hal.master_enable_clock w) in
    let w = hal.delay_us 100 (hal.write_mask spll_oc_div 8 (hal.write_mask cpll_oc_div 6 w)) in
    let w = hal.write_mask bias_dreg_pvt 10 (hal.write_mask bias_dreg 10 w) in
    hal.brownout_reset_enable true w

-- `CONFIG_CACHE_L2_CACHE_SIZE`, `CONFIG_CACHE_L2_CACHE_LINE_SIZE` and `CONFIG_MMU_PAGE_SIZE`
abbrev pub l2_cache_size : ℕ
l2_cache_size = 0x20000

abbrev pub l2_cache_line_size : ℕ
l2_cache_line_size = 64

abbrev pub mmu_page_size : ℕ
mmu_page_size = 0x10000

unfoldable pub p4_cache_init : {W : Type 0} → AnalogHal W → W → W
p4_cache_init hal w =
    hal.mmu_hal_init 1 mmu_page_size (hal.cache_hal_init 1 l2_cache_size l2_cache_line_size w)
