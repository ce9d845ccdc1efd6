-- ===== src/Boot/Sdmmc.antt =====
-- `p4_sdmmc_init` of bootloader/p4/p4_sdmmc.c: power, clocks and pads of the SD slot.
pub mod Slot
use esp32_p4_linux.Common.{ℕ, ◌+◌, ◌*◌, Bool, true, false, List, [], ◌∷◌, ◌++◌, if◌then◌else◌}
use esp32_p4_linux.Boot.Regs.{Bus, Access, modify, delay_us, bits, bit_on, bit_off, run}
use esp32_p4_linux.Boot.Ldo.{LdoLl, p4_ldo_enable, chan_sdmmc, mv_sdmmc}
use esp32_p4_linux.Boot.Emac.{soc_clk_ctrl1, sdmmc_emac_rst_ctrl, peri_clk_ctrl01, pad_reg}

abbrev pub peri_clk_ctrl02 : ℕ
peri_clk_ctrl02 = 0x500E6038

-- `s_slot0_pins`
abbrev pub slot0_pins : List ℕ
slot0_pins = 39 ∷ 40 ∷ 41 ∷ 42 ∷ 43 ∷ 44 ∷ []

-- Function 0, pulled up and not down, input enabled, the strongest drive.
unfoldable pub slot_pads : List ℕ → List Access
unfolding bits bit_on bit_off
slot_pads [] = []
slot_pads (gpio ∷ gpios) =
    modify (pad_reg gpio) (bit_off 7 ∷ bits 12 3 0 ∷ bits 10 2 3 ∷ bit_on 8 ∷ bit_on 9 ∷ [])
    ∷ slot_pads gpios

-- Steps 2 to 5: the reset pulse, the clock source, the divider with its strobe, and the pads.
unfoldable pub slot_steps : List Access
unfolding slot_pads bits bit_on bit_off
slot_steps =
    (modify soc_clk_ctrl1 (bit_on 14 ∷ [])
      ∷ modify sdmmc_emac_rst_ctrl (bit_on 28 ∷ [])
      ∷ modify sdmmc_emac_rst_ctrl (bit_off 28 ∷ [])
      ∷ modify peri_clk_ctrl01 (bit_off 23 ∷ bit_off 22 ∷ bit_on 24 ∷ [])
      ∷ modify peri_clk_ctrl02 (
          bits 9 4 3
          ∷ bits 13 4 1
          ∷ bits 17 4 3
          ∷ bits 21 2 0
          ∷ bits 23 2 1
          ∷ bits 25 2 0
          ∷ bit_on 28
          ∷ bit_on 29
          ∷ bit_on 27
          ∷ [])
      ∷ modify peri_clk_ctrl02 (bit_on 8 ∷ [])
      ∷ modify peri_clk_ctrl02 (bit_off 8 ∷ [])
      ∷ [])
    ++ slot_pads slot0_pins
    ++ (delay_us 10 ∷ [])

unfoldable pub p4_sdmmc_init : {W : Type 0} → LdoLl W → Bus W → W → Bool × W
unfolding run slot_steps
p4_sdmmc_init ldo bus w =
    let (powered, w') = p4_ldo_enable ldo chan_sdmmc mv_sdmmc w in
    if powered then (true, run bus (delay_us 1000 ∷ slot_steps) w') else (false, w')
