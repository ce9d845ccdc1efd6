-- ===== src/Boot/Emac/Ready.antt =====
-- What `p4_emac_init` of bootloader/p4/p4_emac.c leaves in the registers.
use esp32_p4_linux.Common.{
  ℕ, ◌/◌, ◌%◌, ◌^◌, ◌<◌, ◌≡◌, refl, ap, ◌∙◌, Bool, true, false, ◌&&◌, List, [], ◌∷◌, ◌++◌, All,
  ◌==◌, if◌then◌else◌, Bool-cases, inl, inr,
}
use esp32_p4_linux.Boot.Regs.{Bus, run}
use esp32_p4_linux.Boot.Regs.Plain.{IsPlain, settle, run-cells, listed}
use esp32_p4_linux.Boot.Emac.{
  soc_clk_ctrl1, sdmmc_emac_rst_ctrl, gmac_ctrl0, peri_clk_ctrl00, peri_clk_ctrl01, hp_clk_ctrl,
  mac_sys_0, mac_sys_1, macaddress0_low, macaddress0_high, mdc_gpio, mdio_gpio, phy_rst_gpio,
  rmii_pads, pad_reg, clock_steps, pad_steps, mac_of, low_word, high_word, address_steps,
  p4_emac_init,
}
use esp32_p4_linux.Boot.Emac.Pins.{Pins, IsGpio}
use esp32_p4_linux.Boot.Emac.Wired.{IsWired, p4_emac_init-IsWired}
use esp32_p4_linux.Boot.Emac.Words.{
  setup_word, Placed, Routed, reset_word, bus_clock_word, interface_word, reference_word,
  divider_word, pad_clock_word, pad_words, interface_pads,
}

module _ {W : Type 0} {bus : Bus W} {cells : W → ℕ → ℕ} {stored : ℕ → Bool}
    (plain : IsPlain bus cells stored)
    (eFuse : (stored mac_sys_0 ≡ true) × (stored mac_sys_1 ≡ true)) where
  p4_emac_init-cells :
      (b : ℕ) (w : W)
      → stored b ≡ true
      → cells (p4_emac_init bus w).1 b
        ≡ settle
            (address_steps
              (setup_word mac_sys_0 (cells w mac_sys_0))
              (setup_word mac_sys_1 (cells w mac_sys_1) % 2 ^ 16))
            b
            (setup_word b (cells w b))
  unfolding p4_emac_init
  p4_emac_init-cells b w kept =
      let steps = clock_steps ++ pad_steps in
      let w1 = run bus steps w in
      let w2 = (bus.read mac_sys_0 w1).1 in
      let w3 = (bus.read mac_sys_1 w2).1 in
      let e0 : (bus.read mac_sys_0 w1).0 ≡ setup_word mac_sys_0 (cells w mac_sys_0) =
        plain.read-cells mac_sys_0 w1 eFuse.0 ∙ run-cells plain mac_sys_0 eFuse.0 steps w in
      let e1 : (bus.read mac_sys_1 w2).0 ≡ setup_word mac_sys_1 (cells w mac_sys_1) =
        plain.read-cells mac_sys_1 w2 eFuse.1
        ∙ plain.cells-read mac_sys_0 mac_sys_1 w1 eFuse.1
        ∙ run-cells plain mac_sys_1 eFuse.1 steps w in
      let held : cells w3 b ≡ setup_word b (cells w b) =
        plain.cells-read mac_sys_1 b w2 kept
        ∙ plain.cells-read mac_sys_0 b w1 kept
        ∙ run-cells plain b kept steps w in
      rw (e0, e1) (run-cells plain b kept _ w3 ∙ ap (settle _ b) held)

-- The address in the eFuse is blank.
abbrev pub blank : (ℕ → ℕ) → Bool
blank before = before mac_sys_0 == 0 && before mac_sys_1 % 2 ^ 16 == 0

-- The registers once the MAC can be used, against what they held before.
pub record IsReady (before after : ℕ → ℕ) : Type 0 where
  pub out_of_reset : after sdmmc_emac_rst_ctrl / 2 ^ 30 % 2 ≡ 0
  pub card_reset : after sdmmc_emac_rst_ctrl % 2 ^ 30 ≡ before sdmmc_emac_rst_ctrl % 2 ^ 30
  pub resets_above : after sdmmc_emac_rst_ctrl / 2 ^ 31 ≡ before sdmmc_emac_rst_ctrl / 2 ^ 31
  pub bus_clock : after soc_clk_ctrl1 / 2 ^ 13 % 2 ≡ 1
  pub bus_below : after soc_clk_ctrl1 % 2 ^ 13 ≡ before soc_clk_ctrl1 % 2 ^ 13
  pub bus_above : after soc_clk_ctrl1 / 2 ^ 14 ≡ before soc_clk_ctrl1 / 2 ^ 14
  pub rmii : after gmac_ctrl0 / 2 ^ 2 % 8 ≡ 4
  pub mac_below : after gmac_ctrl0 % 4 ≡ before gmac_ctrl0 % 4
  pub mac_above : after gmac_ctrl0 / 2 ^ 5 ≡ before gmac_ctrl0 / 2 ^ 5
  pub no_clock_out : after peri_clk_ctrl00 / 2 ^ 24 % 2 ≡ 0
  pub clock_pad : after peri_clk_ctrl00 / 2 ^ 25 % 4 ≡ 0
  pub clocks_on : after peri_clk_ctrl00 / 2 ^ 27 % 8 ≡ 5
  pub clocks_below : after peri_clk_ctrl00 % 2 ^ 24 ≡ before peri_clk_ctrl00 % 2 ^ 24
  pub clocks_above : after peri_clk_ctrl00 / 2 ^ 30 ≡ before peri_clk_ctrl00 / 2 ^ 30
  pub receive_divider : after peri_clk_ctrl01 % 2 ^ 8 ≡ 1
  -- The transmit clock comes from the pad, and is on.
  pub transmit_clock : after peri_clk_ctrl01 / 2 ^ 8 % 4 ≡ 2
  pub transmit_divider : after peri_clk_ctrl01 / 2 ^ 10 % 2 ^ 8 ≡ 1
  pub card_clock : after peri_clk_ctrl01 / 2 ^ 18 ≡ before peri_clk_ctrl01 / 2 ^ 18
  pub one_pad : after hp_clk_ctrl / 2 ^ 13 % 8 ≡ 4
  pub pad_clocks_below : after hp_clk_ctrl % 2 ^ 13 ≡ before hp_clk_ctrl % 2 ^ 13
  pub pad_clocks_above : after hp_clk_ctrl / 2 ^ 16 ≡ before hp_clk_ctrl / 2 ^ 16
  pub pads : All (λ gpio. Routed 3 (after (pad_reg gpio))) rmii_pads
  pub mdc_pad : Placed 1 (after (pad_reg mdc_gpio))
  pub mdio_pad : Routed 1 (after (pad_reg mdio_gpio))
  pub phy_rst_pad : Placed 1 (after (pad_reg phy_rst_gpio))
  pub address_low : after macaddress0_low ≡ (
      if blank before
      then before macaddress0_low
      else low_word (mac_of (before mac_sys_0) (before mac_sys_1 % 2 ^ 16)))
  pub address_high : after macaddress0_high ≡ (
      if blank before
      then before macaddress0_high
      else high_word (mac_of (before mac_sys_0) (before mac_sys_1 % 2 ^ 16)))

-- The two writes of the address change no other register.
address_steps-other :
    (w0 w1 b v : ℕ)
    → (macaddress0_low == b) ≡ false
    → (macaddress0_high == b) ≡ false
    → settle (address_steps w0 w1) b v ≡ v
unfolding settle address_steps
address_steps-other w0 w1 b v low high = elim (Bool-cases (w0 == 0 && w1 == 0)) [
  | inl e ↦ rw e refl
  | inr e ↦ rw (e, low, high) refl
]

address_steps-low :
    (w0 w1 v : ℕ)
    → settle (address_steps w0 w1) macaddress0_low (setup_word macaddress0_low v)
      ≡ (if w0 == 0 && w1 == 0 then v else low_word (mac_of w0 w1))
unfolding settle address_steps clock_steps pad_steps
address_steps-low w0 w1 v = elim (Bool-cases (w0 == 0 && w1 == 0)) [
  | inl e ↦ rw e refl
  | inr e ↦ rw e refl
]

address_steps-high :
    (w0 w1 v : ℕ)
    → settle (address_steps w0 w1) macaddress0_high (setup_word macaddress0_high v)
      ≡ (if w0 == 0 && w1 == 0 then v else high_word (mac_of w0 w1))
unfolding settle address_steps clock_steps pad_steps
address_steps-high w0 w1 v = elim (Bool-cases (w0 == 0 && w1 == 0)) [
  | inl e ↦ rw e refl
  | inr e ↦ rw e refl
]

-- The registers that the driver expects to hold what is written to them.
abbrev pub emac_registers : List ℕ
emac_registers =
    soc_clk_ctrl1
    ∷ sdmmc_emac_rst_ctrl
    ∷ gmac_ctrl0
    ∷ peri_clk_ctrl00
    ∷ peri_clk_ctrl01
    ∷ hp_clk_ctrl
    ∷ mac_sys_0
    ∷ mac_sys_1
    ∷ macaddress0_low
    ∷ macaddress0_high
    ∷ pad_reg 50
    ∷ pad_reg 49
    ∷ pad_reg 34
    ∷ pad_reg 35
    ∷ pad_reg 28
    ∷ pad_reg 29
    ∷ pad_reg 30
    ∷ pad_reg mdc_gpio
    ∷ pad_reg mdio_gpio
    ∷ pad_reg phy_rst_gpio
    ∷ []

module _ {W : Type 0} {bus : Bus W} {cells : W → ℕ → ℕ} {stored : ℕ → Bool}
    (plain : IsPlain bus cells stored)
    (includes : (b : ℕ) → listed emac_registers b ≡ true → stored b ≡ true) (w : W)
    (words : (b : ℕ) → cells w b < 2 ^ 32) where
  after-word :
      (b : ℕ)
      → listed emac_registers b ≡ true
      → (macaddress0_low == b) ≡ false
      → (macaddress0_high == b) ≡ false
      → cells (p4_emac_init bus w).1 b ≡ setup_word b (cells w b)
  after-word b among low high =
      p4_emac_init-cells plain (includes mac_sys_0 refl, includes mac_sys_1 refl) b w
        (includes b among)
      ∙ address_steps-other _ _ b _ low high

  address-word :
      (b : ℕ)
      → listed emac_registers b ≡ true
      → cells (p4_emac_init bus w).1 b
        ≡ settle
            (address_steps (cells w mac_sys_0) (cells w mac_sys_1 % 2 ^ 16))
            b
            (setup_word b (cells w b))
  unfolding settle clock_steps pad_steps
  address-word b among =
      p4_emac_init-cells plain (includes mac_sys_0 refl, includes mac_sys_1 refl) b w
        (includes b among)

  registers-IsReady : IsReady (cells w) (cells (p4_emac_init bus w).1)
  registers-IsReady =
      let reset = reset_word _ (words sdmmc_emac_rst_ctrl) in
      let clock = bus_clock_word _ (words soc_clk_ctrl1) in
      let interface = interface_word _ (words gmac_ctrl0) in
      let reference = reference_word _ (words peri_clk_ctrl00) in
      let divider = divider_word _ (words peri_clk_ctrl01) in
      let pad_clock = pad_clock_word _ (words hp_clk_ctrl) in
      let interface_pad = interface_pads (cells w) words in
      let soc = after-word soc_clk_ctrl1 refl refl refl in
      let mac = after-word gmac_ctrl0 refl refl refl in
      let hp = after-word hp_clk_ctrl refl refl refl in
      let rst = after-word sdmmc_emac_rst_ctrl refl refl refl in
      let ctrl00 = after-word peri_clk_ctrl00 refl refl refl in
      let ctrl01 = after-word peri_clk_ctrl01 refl refl refl in
      record {
        out_of_reset = rw rst reset.0;
        card_reset = rw rst reset.1.0;
        resets_above = rw rst reset.1.1;
        bus_clock = rw soc clock.0;
        bus_below = rw soc clock.1.0;
        bus_above = rw soc clock.1.1;
        rmii = rw mac interface.0;
        mac_below = rw mac interface.1.0;
        mac_above = rw mac interface.1.1;
        no_clock_out = rw ctrl00 reference.0;
        clock_pad = rw ctrl00 reference.1.0;
        clocks_on = rw ctrl00 reference.1.1.0;
        clocks_below = rw ctrl00 reference.1.1.1.0;
        clocks_above = rw ctrl00 reference.1.1.1.1;
        transmit_clock = rw ctrl01 divider.1.0;
        receive_divider = rw ctrl01 divider.0;
        transmit_divider = rw ctrl01 divider.1.1.0;
        card_clock = rw ctrl01 divider.1.1.1;
        one_pad = rw hp pad_clock.0;
        pad_clocks_below = rw hp pad_clock.1.0;
        pad_clocks_above = rw hp pad_clock.1.1;
        mdc_pad = rw (after-word (pad_reg mdc_gpio) refl refl refl) interface_pad.0;
        mdio_pad = rw (after-word (pad_reg mdio_gpio) refl refl refl) interface_pad.1.0;
        phy_rst_pad = rw (after-word (pad_reg phy_rst_gpio) refl refl refl) interface_pad.1.1;
        pads =
            rw
              (
                after-word (pad_reg 50) refl refl refl,
                after-word (pad_reg 49) refl refl refl,
                after-word (pad_reg 34) refl refl refl,
                after-word (pad_reg 35) refl refl refl,
                after-word (pad_reg 28) refl refl refl,
                after-word (pad_reg 29) refl refl refl,
                after-word (pad_reg 30) refl refl refl,
              )
              (pad_words (cells w) words);
        address_low = address-word macaddress0_low refl ∙ address_steps-low _ _ _;
        address_high = address-word macaddress0_high refl ∙ address_steps-high _ _ _;
      }

  -- On registers that hold what is written to them and GPIOs that act on the ones written to their
  -- strobes, p4_emac_init takes the MAC out of reset on the RMII, with the clock of the bus, the
  -- reference, receive and transmit clocks and their dividers on the pads that they must be on, and
  -- writes the address from the eFuse unless it is blank; it connects MDC and MDIO, and holds the PHY
  -- in reset for 100 microseconds and then out of it for ten milliseconds. In the registers of resets
  -- and clocks every bit outside the MAC's own fields, the SD controller's among them, is as it was.
  pub p4_emac_init-IsReady :
      {pins : W → Pins}
      → IsGpio bus pins
      → IsReady (cells w) (cells (p4_emac_init bus w).1) × IsWired (pins (p4_emac_init bus w).1)
  p4_emac_init-IsReady gpio = (registers-IsReady, p4_emac_init-IsWired gpio w)
