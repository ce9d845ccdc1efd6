-- ===== src/Boot/Emac.antt =====
-- bootloader/p4/p4_emac.c: the Ethernet MAC's clocks, pads and address, and the search for the PHY.
-- Console output is left out, but for what a message reports.
pub mod Address
pub mod Pins
pub mod Wired
pub mod Words
pub mod Ready
pub mod Mdio
pub mod Scan
pub mod Clock
use esp32_p4_linux.Common.{
  ℕ, zero, suc, ◌+◌, ◌*◌, ◌/◌, ◌%◌, ◌^◌, Bool, true, false, ◌&&◌, ◌||◌, Option, none, some, List,
  [], ◌∷◌, ◌++◌, ◌==◌, if◌then◌else◌, Bytes, get_or,
}
use esp32_p4_linux.Boot.Regs.{
  Bus, Access, Field, modify, store, delay_us, out_signal, in_signal, bits, bit_on, bit_off, run,
}

-- Addresses of the vendored register headers.
abbrev pub soc_clk_ctrl1 : ℕ
soc_clk_ctrl1 = 0x500E6018

abbrev pub sdmmc_emac_rst_ctrl : ℕ
sdmmc_emac_rst_ctrl = 0x5011104C

abbrev pub gmac_ctrl0 : ℕ
gmac_ctrl0 = 0x500E514C

abbrev pub peri_clk_ctrl00 : ℕ
peri_clk_ctrl00 = 0x500E6030

abbrev pub peri_clk_ctrl01 : ℕ
peri_clk_ctrl01 = 0x500E6034

abbrev pub hp_clk_ctrl : ℕ
hp_clk_ctrl = 0x50111040

abbrev pub io_mux_base : ℕ
io_mux_base = 0x500E1000

abbrev pub gpio_out1_w1ts : ℕ
gpio_out1_w1ts = 0x500E0014

abbrev pub gpio_out1_w1tc : ℕ
gpio_out1_w1tc = 0x500E0018

abbrev pub gpio_enable1_w1ts : ℕ
gpio_enable1_w1ts = 0x500E0030

abbrev pub gpio_in1 : ℕ
gpio_in1 = 0x500E0040

abbrev pub mac_sys_0 : ℕ
mac_sys_0 = 0x5012D044

abbrev pub mac_sys_1 : ℕ
mac_sys_1 = 0x5012D048

abbrev pub macaddress0_low : ℕ
macaddress0_low = 0x50098044

abbrev pub macaddress0_high : ℕ
macaddress0_high = 0x50098040

abbrev pub gmii_address : ℕ
gmii_address = 0x50098010

abbrev pub gmii_data : ℕ
gmii_data = 0x50098014

-- `s_rmii_pads`, `EMAC_PAD_FUNC`, and the pads and signals of the management interface
abbrev pub rmii_pads : List ℕ
rmii_pads = 50 ∷ 49 ∷ 34 ∷ 35 ∷ 28 ∷ 29 ∷ 30 ∷ []

abbrev pub emac_pad_func : ℕ
emac_pad_func = 3

abbrev pub pad_func_gpio : ℕ
pad_func_gpio = 1

abbrev pub mdc_gpio : ℕ
mdc_gpio = 31

abbrev pub mdio_gpio : ℕ
mdio_gpio = 52

abbrev pub phy_rst_gpio : ℕ
phy_rst_gpio = 51

abbrev pub mdi_in : ℕ
mdi_in = 107

abbrev pub mdc_out : ℕ
mdc_out = 108

abbrev pub mdo_out : ℕ
mdo_out = 109

abbrev pub pad_reg : ℕ → ℕ
pad_reg gpio = io_mux_base + 4 + 4 * gpio

-- No pull-down, the function, the strongest drive, and the input buffer if it is an input.
unfoldable pub pad_route : ℕ → ℕ → Bool → Access
unfolding bits bit_on bit_off
pad_route gpio func input =
    modify (pad_reg gpio)
      (bit_off 7 ∷ bits 12 3 func ∷ bits 10 2 3 ∷ (if input then bit_on 9 ∷ [] else []))

unfoldable pub route_all : List ℕ → List Access
unfolding pad_route
route_all [] = []
route_all (gpio ∷ gpios) = pad_route gpio emac_pad_func true ∷ route_all gpios

-- Steps 1 to 3 of `p4_emac_init`: bus clock, reset pulse, RMII, and its clock tree.
unfoldable pub clock_steps : List Access
unfolding bits bit_on bit_off
clock_steps =
    modify soc_clk_ctrl1 (bit_on 13 ∷ [])
    ∷ modify sdmmc_emac_rst_ctrl (bit_on 30 ∷ [])
    ∷ modify sdmmc_emac_rst_ctrl (bit_off 30 ∷ [])
    ∷ modify gmac_ctrl0 (bits 2 3 4 ∷ [])
    ∷ modify peri_clk_ctrl00 (bit_off 24 ∷ bits 25 2 0 ∷ bit_off 28 ∷ bit_on 27 ∷ bit_on 29 ∷ [])
    ∷ modify peri_clk_ctrl01 (bits 0 8 1 ∷ bits 10 8 1 ∷ bit_off 8 ∷ bit_on 9 ∷ [])
    ∷ modify hp_clk_ctrl (bit_off 13 ∷ bit_off 14 ∷ bit_on 15 ∷ [])
    ∷ []

-- Steps 4 to 6: the pads, MDC and MDIO through the GPIO matrix, and the PHY's reset.
unfoldable pub pad_steps : List Access
unfolding route_all pad_route bit_on
pad_steps =
    route_all rmii_pads
    ++ (pad_route mdc_gpio pad_func_gpio false
        ∷ out_signal mdc_gpio mdc_out
        ∷ pad_route mdio_gpio pad_func_gpio true
        ∷ out_signal mdio_gpio mdo_out
        ∷ in_signal mdio_gpio mdi_in
        ∷ pad_route phy_rst_gpio pad_func_gpio false
        ∷ modify gpio_enable1_w1ts (bit_on 19 ∷ [])
        ∷ modify gpio_out1_w1tc (bit_on 19 ∷ [])
        ∷ delay_us 100
        ∷ modify gpio_out1_w1ts (bit_on 19 ∷ [])
        ∷ delay_us 10000
        ∷ [])

-- The station address of step 7, from the two eFuse words.
unfoldable pub mac_of : ℕ → ℕ → Bytes
mac_of w0 w1 =
    w1 / 2 ^ 8 % 256
    ∷ w1 % 256
    ∷ w0 / 2 ^ 24 % 256
    ∷ w0 / 2 ^ 16 % 256
    ∷ w0 / 2 ^ 8 % 256
    ∷ w0 % 256
    ∷ []

unfoldable pub low_word : Bytes → ℕ
low_word mac =
    get_or mac 3 0 * 2 ^ 24 + get_or mac 2 0 * 2 ^ 16 + get_or mac 1 0 * 2 ^ 8 + get_or mac 0 0

unfoldable pub high_word : Bytes → ℕ
high_word mac = get_or mac 5 0 * 2 ^ 8 + get_or mac 4 0

unfoldable pub address_steps : ℕ → ℕ → List Access
unfolding mac_of low_word high_word
address_steps w0 w1 =
    if w0 == 0 && w1 == 0
    then []
    else (store macaddress0_low (low_word (mac_of w0 w1))
        ∷ store macaddress0_high (high_word (mac_of w0 w1))
        ∷ [])

unfoldable pub p4_emac_init : {W : Type 0} → Bus W → W → Bool × W
unfolding run clock_steps pad_steps address_steps
p4_emac_init bus w =
    let (w0, w') = bus.read mac_sys_0 (run bus (clock_steps ++ pad_steps) w) in
    let (w1, w'') = bus.read mac_sys_1 w' in (true, run bus (address_steps w0 (w1 % 2 ^ 16)) w'')

abbrev pub max_polls : ℕ
max_polls = 200000

-- A read: PA, GR and CR, GW clear, and GB set.
unfoldable pub command : ℕ → ℕ → ℕ → ℕ
command phy reg cr = phy % 32 * 2 ^ 11 + reg % 32 * 2 ^ 6 + cr % 16 * 2 ^ 2 + 1

module _ {W : Type 0} (bus : Bus W) where
  -- At most `n` polls for the busy bit to clear.
  unfoldable pub poll_idle : ℕ → W → Bool × W
  poll_idle zero w = (false, w)
  poll_idle (suc n) w =
      let (v, w') = bus.read gmii_address w in
      elim (v % 2 == 0) [ true ↦ (true, w') | false ↦ poll_idle n w' ]

  unfoldable pub mdio_idle : W → Bool × W
  unfolding poll_idle
  mdio_idle w = poll_idle max_polls w

  unfoldable pub mdio_read : ℕ → ℕ → ℕ → W → Option ℕ × W
  unfolding mdio_idle command
  mdio_read phy reg cr w =
      let (free, w1) = mdio_idle w in
      let (finished, w2) = mdio_idle (bus.write gmii_address (command phy reg cr) w1) in
      let (value, w3) = bus.read gmii_data w2 in
      if free then (if finished then (some (value % 2 ^ 16), w3) else (none, w2)) else (none, w1)

-- What `p4_emac_mdio_scan` reports of a PHY.
pub record Phy : Type 0 where
  pub addr : ℕ
  pub id1 : ℕ
  pub id2 : ℕ
  pub bmsr : ℕ
  pub cr : ℕ

-- `MII_BMSR`, `MII_PHYSID1`, `MII_PHYSID2`, and the divider settings in the order they are tried
abbrev pub mii_bmsr : ℕ
mii_bmsr = 1

abbrev pub mii_physid1 : ℕ
mii_physid1 = 2

abbrev pub mii_physid2 : ℕ
mii_physid2 = 3

abbrev pub crs : List ℕ
crs = 5 ∷ 4 ∷ 1 ∷ 0 ∷ 3 ∷ 2 ∷ []

-- A variable that starts at 0 and is set by a read that succeeds.
abbrev pub or_zero : Option ℕ → ℕ
or_zero none = 0
or_zero (some v) = v

abbrev pub samples : ℕ
samples = 4000

module _ {W : Type 0} (bus : Bus W) where
  -- The inner loop, over `n` addresses from `phy` on: the PHYs found.
  unfoldable pub scan_phys : ℕ → ℕ → ℕ → W → List Phy × W
  unfolding mdio_read
  scan_phys cr zero phy w = ([], w)
  scan_phys cr (suc n) phy w =
      let (id1, w1) = mdio_read bus phy mii_physid1 cr w in
      elim id1 [
        | none ↦ ([], w1)
        | some id ↦ elim (id == 0 || id == 0xFFFF) [
          | true ↦ scan_phys cr n (phy + 1) w1
          | false ↦
              let (id2, w2) = mdio_read bus phy mii_physid2 cr w1 in
              let (bmsr, w3) = mdio_read bus phy mii_bmsr cr w2 in
              let (found, w4) = scan_phys cr n (phy + 1) w3 in
              (
                record { addr = phy; id1 = id; id2 = or_zero id2; bmsr = or_zero bmsr; cr = cr }
                    ∷ found,
                w4,
              )
        ]
      ]

  -- The outer loop stops after the first divider that finds a PHY.
  unfoldable pub scan_crs : List ℕ → W → List Phy × W
  unfolding scan_phys
  scan_crs [] w = ([], w)
  scan_crs (cr ∷ rest) w =
      let (found, w') = scan_phys cr 32 0 w in
      elim found [ [] ↦ scan_crs rest w' | phy ∷ phys ↦ (phy ∷ phys, w') ]

  -- The empty list is the message that no PHY answered.
  unfoldable pub p4_emac_mdio_scan : W → List Phy × W
  unfolding scan_crs
  p4_emac_mdio_scan w = scan_crs crs w

  -- How many of `n` samples of the pad are high.
  unfoldable pub sample : ℕ → ℕ → W → ℕ × W
  sample zero highs w = (highs, w)
  sample (suc n) highs w =
      let (v, w') = bus.read gpio_in1 w in
      sample n (if v / 2 ^ 18 % 2 == 0 then highs else suc highs) w'

  -- Whether the reference clock is reported present.
  unfoldable pub p4_emac_refclk_probe : W → Bool × W
  unfolding run sample bits bit_on bit_off
  p4_emac_refclk_probe w =
      let set_up =
        modify (pad_reg 50) (bit_off 8 ∷ bit_off 7 ∷ bits 12 3 pad_func_gpio ∷ bit_on 9 ∷ [])
        ∷ delay_us 50
        ∷ [] in
      let (highs, w') = sample samples 0 (run bus set_up w) in
      (if highs == 0 || highs == samples then false else true, w')
