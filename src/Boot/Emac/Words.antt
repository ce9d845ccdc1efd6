-- ===== src/Boot/Emac/Words.antt =====
-- What the registers of bootloader/p4/p4_emac.c hold after the steps of `p4_emac_init`, one by one.
use esp32_p4_linux.Common.{ℕ, ◌/◌, ◌%◌, ◌^◌, ◌<◌, ◌≡◌, ◌++◌, All, arith}
use esp32_p4_linux.Boot.Regs.{set_field}
use esp32_p4_linux.Boot.Regs.Plain.{settle}
use esp32_p4_linux.Boot.Emac.{
  soc_clk_ctrl1, sdmmc_emac_rst_ctrl, gmac_ctrl0, peri_clk_ctrl00, peri_clk_ctrl01, hp_clk_ctrl,
  mdc_gpio, mdio_gpio, phy_rst_gpio, rmii_pads, pad_reg, clock_steps, pad_steps,
}

-- What the steps before the address leave in the register `b`.
abbrev pub setup_word : ℕ → ℕ → ℕ
setup_word b v = settle (clock_steps ++ pad_steps) b v

-- A register's fields after the steps: the MAC is out of reset, and no other bit of the register
-- that also resets the SD controller has changed.
pub reset_word :
    (v : ℕ)
    → v < 2 ^ 32
    → let v' = setup_word sdmmc_emac_rst_ctrl v in
      (v' / 2 ^ 30 % 2 ≡ 0) × ((v' % 2 ^ 30 ≡ v % 2 ^ 30) × (v' / 2 ^ 31 ≡ v / 2 ^ 31))
unfolding settle clock_steps pad_steps
reset_word v lt = (omega arith, (omega arith, omega arith))

pub bus_clock_word :
    (v : ℕ)
    → v < 2 ^ 32
    → let v' = setup_word soc_clk_ctrl1 v in
      (v' / 2 ^ 13 % 2 ≡ 1) × ((v' % 2 ^ 13 ≡ v % 2 ^ 13) × (v' / 2 ^ 14 ≡ v / 2 ^ 14))
unfolding settle clock_steps pad_steps
bus_clock_word v lt = (omega arith, (omega arith, omega arith))

pub interface_word :
    (v : ℕ)
    → v < 2 ^ 32
    → let v' = setup_word gmac_ctrl0 v in
      (v' / 2 ^ 2 % 8 ≡ 4) × ((v' % 4 ≡ v % 4) × (v' / 2 ^ 5 ≡ v / 2 ^ 5))
unfolding settle clock_steps pad_steps
interface_word v lt = (omega arith, (omega arith, omega arith))

pub reference_word :
    (v : ℕ)
    → v < 2 ^ 32
    → let v' = setup_word peri_clk_ctrl00 v in
      (v' / 2 ^ 24 % 2 ≡ 0)
      × ((v' / 2 ^ 25 % 4 ≡ 0)
          × ((v' / 2 ^ 27 % 8 ≡ 5) × ((v' % 2 ^ 24 ≡ v % 2 ^ 24) × (v' / 2 ^ 30 ≡ v / 2 ^ 30))))
unfolding settle clock_steps pad_steps
reference_word v lt = (omega arith, (omega arith, (omega arith, (omega arith, omega arith))))

pub divider_word :
    (v : ℕ)
    → v < 2 ^ 32
    → let v' = setup_word peri_clk_ctrl01 v in
      (v' % 2 ^ 8 ≡ 1)
      × ((v' / 2 ^ 8 % 4 ≡ 2) × ((v' / 2 ^ 10 % 2 ^ 8 ≡ 1) × (v' / 2 ^ 18 ≡ v / 2 ^ 18)))
unfolding settle clock_steps pad_steps
divider_word v lt = (omega arith, (omega arith, (omega arith, omega arith)))

pub pad_clock_word :
    (v : ℕ)
    → v < 2 ^ 32
    → let v' = setup_word hp_clk_ctrl v in
      (v' / 2 ^ 13 % 8 ≡ 4) × ((v' % 2 ^ 13 ≡ v % 2 ^ 13) × (v' / 2 ^ 16 ≡ v / 2 ^ 16))
unfolding settle clock_steps pad_steps
pad_clock_word v lt = (omega arith, (omega arith, omega arith))

-- A pad on a function, not pulled down, with the strongest drive; and one that is read as well.
abbrev pub Placed : ℕ → ℕ → Type 0
Placed func v = (v / 2 ^ 12 % 8 ≡ func) × ((v / 2 ^ 7 % 2 ≡ 0) × (v / 2 ^ 10 % 4 ≡ 3))

abbrev pub Routed : ℕ → ℕ → Type 0
Routed func v = Placed func v × (v / 2 ^ 9 % 2 ≡ 1)

set_field-Routed :
    (func v : ℕ)
    → func < 8
    → v < 2 ^ 32
    → Routed func (set_field 9 1 1 (set_field 10 2 3 (set_field 12 3 func (set_field 7 1 0 v))))
unfolding set_field
set_field-Routed func v few lt = ((omega arith, (omega arith, omega arith)), omega arith)

set_field-Placed :
    (func v : ℕ)
    → func < 8
    → v < 2 ^ 32
    → Placed func (set_field 10 2 3 (set_field 12 3 func (set_field 7 1 0 v)))
unfolding set_field
set_field-Placed func v few lt = (omega arith, (omega arith, omega arith))

pub pad_words :
    (v : ℕ → ℕ)
    → ((b : ℕ) → v b < 2 ^ 32)
    → All (λ gpio. Routed 3 (setup_word (pad_reg gpio) (v (pad_reg gpio)))) rmii_pads
unfolding settle clock_steps pad_steps
pad_words v lt =
    let routed : (gpio : ℕ)
        → Routed 3 (
            set_field 9 1 1
              (set_field 10 2 3 (set_field 12 3 3 (set_field 7 1 0 (v (pad_reg gpio)))))) =
      λ gpio. set_field-Routed 3 (v (pad_reg gpio)) (omega arith) (lt (pad_reg gpio)) in
    (routed 50, (routed 49, (routed 34, (routed 35, (routed 28, (routed 29, (routed 30, tt)))))))

-- The pads of MDC, of MDIO and of the PHY's reset.
pub interface_pads :
    (v : ℕ → ℕ)
    → ((b : ℕ) → v b < 2 ^ 32)
    → Placed 1 (setup_word (pad_reg mdc_gpio) (v (pad_reg mdc_gpio)))
      × (Routed 1 (setup_word (pad_reg mdio_gpio) (v (pad_reg mdio_gpio)))
          × Placed 1 (setup_word (pad_reg phy_rst_gpio) (v (pad_reg phy_rst_gpio))))
unfolding settle clock_steps pad_steps
interface_pads v lt = (
  set_field-Placed 1 (v (pad_reg mdc_gpio)) (omega arith) (lt (pad_reg mdc_gpio)),
  (
    set_field-Routed 1 (v (pad_reg mdio_gpio)) (omega arith) (lt (pad_reg mdio_gpio)),
    set_field-Placed 1 (v (pad_reg phy_rst_gpio)) (omega arith) (lt (pad_reg phy_rst_gpio)),
  ),
)
