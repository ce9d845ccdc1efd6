-- ===== src/Boot/Sdmmc/Slot.antt =====
-- What `p4_sdmmc_init` of bootloader/p4/p4_sdmmc.c leaves in the registers.
use esp32_p4_linux.Common.{
  ℕ, ◌+◌, ◌*◌, ◌/◌, ◌%◌, ◌^◌, ◌<◌, ◌≡◌, refl, sym, ap, ◌∙◌, Bool, true, false, List, [], ◌∷◌, All,
  Bool-cases, true-ne-false, inl, inr, arith,
}
use esp32_p4_linux.Boot.Regs.{Bus, delay_us, set_field, run}
use esp32_p4_linux.Boot.Regs.Plain.{IsPlain, settle, run-cells, listed}
use esp32_p4_linux.Boot.Ldo.{LdoLl, p4_ldo_enable, chan_sdmmc, mv_sdmmc}
use esp32_p4_linux.Boot.Emac.{soc_clk_ctrl1, sdmmc_emac_rst_ctrl, peri_clk_ctrl01, pad_reg}
use esp32_p4_linux.Boot.Sdmmc.{peri_clk_ctrl02, slot0_pins, slot_steps, p4_sdmmc_init}

abbrev card_word : ℕ → ℕ → ℕ
card_word b v = settle (delay_us 1000 ∷ slot_steps) b v

-- A pad on function 0, read by the controller, pulled up, with the strongest drive.
abbrev pub Pulled : ℕ → Type 0
Pulled v =
    (v / 2 ^ 12 % 8 ≡ 0) × ((v / 2 ^ 8 % 4 ≡ 3) × ((v / 2 ^ 7 % 2 ≡ 0) × (v / 2 ^ 10 % 4 ≡ 3)))

-- The registers once the card can be reached, against what they held before: of the shared ones
-- only the controller's fields differ, every other bit is kept.
pub record Usable (before after : ℕ → ℕ) : Type 0 where
  pub bus_clock : after soc_clk_ctrl1 / 2 ^ 14 % 2 ≡ 1
  pub bus_below : after soc_clk_ctrl1 % 2 ^ 14 ≡ before soc_clk_ctrl1 % 2 ^ 14
  pub bus_above : after soc_clk_ctrl1 / 2 ^ 15 ≡ before soc_clk_ctrl1 / 2 ^ 15
  pub out_of_reset : after sdmmc_emac_rst_ctrl / 2 ^ 28 % 2 ≡ 0
  pub other_resets : after sdmmc_emac_rst_ctrl % 2 ^ 28 ≡ before sdmmc_emac_rst_ctrl % 2 ^ 28
  pub mac_reset : after sdmmc_emac_rst_ctrl / 2 ^ 29 ≡ before sdmmc_emac_rst_ctrl / 2 ^ 29
  pub source : after peri_clk_ctrl01 / 2 ^ 22 % 8 ≡ 4
  pub mac_clocks : after peri_clk_ctrl01 % 2 ^ 22 ≡ before peri_clk_ctrl01 % 2 ^ 22
  pub other_clocks : after peri_clk_ctrl01 / 2 ^ 25 ≡ before peri_clk_ctrl01 / 2 ^ 25
  -- The three edges of a divider of 4, the phases, the three clocks; the update strobe is down.
  pub divider : after peri_clk_ctrl02 / 2 ^ 9 % 2 ^ 12 ≡ 3 + 1 * 2 ^ 4 + 3 * 2 ^ 8
  pub phases : after peri_clk_ctrl02 / 2 ^ 21 % 2 ^ 6 ≡ 1 * 2 ^ 2
  pub clocks : after peri_clk_ctrl02 / 2 ^ 27 % 8 ≡ 7
  pub strobe : after peri_clk_ctrl02 / 2 ^ 8 % 2 ≡ 0
  pub display : after peri_clk_ctrl02 / 2 ^ 30 ≡ before peri_clk_ctrl02 / 2 ^ 30
  pub below_strobe : after peri_clk_ctrl02 % 2 ^ 8 ≡ before peri_clk_ctrl02 % 2 ^ 8
  pub pads : All (λ gpio. Pulled (after (pad_reg gpio))) slot0_pins

pad-Pulled :
    (v : ℕ)
    → v < 2 ^ 32
    → Pulled (
        set_field 9 1 1 (set_field 8 1 1 (set_field 10 2 3 (set_field 12 3 0 (set_field 7 1 0 v)))))
unfolding set_field
pad-Pulled v lt = (omega arith, (omega arith, (omega arith, omega arith)))

words-Usable : (v : ℕ → ℕ) → ((b : ℕ) → v b < 2 ^ 32) → Usable v (λ b. card_word b (v b))
unfolding settle slot_steps
words-Usable v lt =
    let soc = lt soc_clk_ctrl1 in
    let rst = lt sdmmc_emac_rst_ctrl in
    let c01 = lt peri_clk_ctrl01 in
    let c02 = lt peri_clk_ctrl02 in
    record {
      bus_clock = omega (arith, soc);
      bus_below = omega (arith, soc);
      bus_above = omega (arith, soc);
      other_resets = omega (arith, rst);
      other_clocks = omega (arith, c01);
      below_strobe = omega (arith, c02);
      out_of_reset = omega (arith, rst);
      mac_reset = omega (arith, rst);
      source = omega (arith, c01);
      mac_clocks = omega (arith, c01);
      divider = omega (arith, c02);
      phases = omega (arith, c02);
      clocks = omega (arith, c02);
      strobe = omega (arith, c02);
      display = omega (arith, c02);
      pads = (
        pad-Pulled _ (lt (pad_reg 39)),
        (
          pad-Pulled _ (lt (pad_reg 40)),
          (
            pad-Pulled _ (lt (pad_reg 41)),
            (
              pad-Pulled _ (lt (pad_reg 42)),
              (pad-Pulled _ (lt (pad_reg 43)), (pad-Pulled _ (lt (pad_reg 44)), tt)),
            ),
          ),
        ),
      );
    }

-- The registers that the driver expects to hold what is written to them.
abbrev pub sdmmc_registers : List ℕ
sdmmc_registers =
    soc_clk_ctrl1
    ∷ sdmmc_emac_rst_ctrl
    ∷ peri_clk_ctrl01
    ∷ peri_clk_ctrl02
    ∷ pad_reg 39
    ∷ pad_reg 40
    ∷ pad_reg 41
    ∷ pad_reg 42
    ∷ pad_reg 43
    ∷ pad_reg 44
    ∷ []

-- The supplies' own registers are others.
pub record IsApart {W : Type 0} (ldo : LdoLl W) (cells : W → ℕ → ℕ) (stored : ℕ → Bool)
    : Type 0 where
  pub limit-cells :
      (b u : ℕ) (on : Bool) (w : W)
      → stored b ≡ true
      → cells (ldo.enable_current_limit u on w) b ≡ cells w b
  pub adjust-cells :
      (b u dref mul : ℕ) (raw : Bool) (w : W)
      → stored b ≡ true
      → cells (ldo.adjust_voltage u dref mul raw w) b ≡ cells w b
  pub owner-cells : (b u : ℕ) (w : W) → stored b ≡ true → cells (ldo.set_owner_sw u w) b ≡ cells w b
  pub ripple-cells :
      (b u : ℕ) (on : Bool) (w : W)
      → stored b ≡ true
      → cells (ldo.enable_ripple_suppression u on w) b ≡ cells w b
  pub enable-cells :
      (b u : ℕ) (on : Bool) (w : W) → stored b ≡ true → cells (ldo.enable u on w) b ≡ cells w b

Usable-cells :
    {before after after' : ℕ → ℕ}
    → ((b : ℕ) → listed sdmmc_registers b ≡ true → after b ≡ after' b)
    → Usable before after'
    → Usable before after
Usable-cells same u = record {
  bus_clock = rw (same soc_clk_ctrl1 refl) u.bus_clock;
  bus_below = rw (same soc_clk_ctrl1 refl) u.bus_below;
  bus_above = rw (same soc_clk_ctrl1 refl) u.bus_above;
  other_resets = rw (same sdmmc_emac_rst_ctrl refl) u.other_resets;
  other_clocks = rw (same peri_clk_ctrl01 refl) u.other_clocks;
  below_strobe = rw (same peri_clk_ctrl02 refl) u.below_strobe;
  out_of_reset = rw (same sdmmc_emac_rst_ctrl refl) u.out_of_reset;
  mac_reset = rw (same sdmmc_emac_rst_ctrl refl) u.mac_reset;
  source = rw (same peri_clk_ctrl01 refl) u.source;
  mac_clocks = rw (same peri_clk_ctrl01 refl) u.mac_clocks;
  divider = rw (same peri_clk_ctrl02 refl) u.divider;
  phases = rw (same peri_clk_ctrl02 refl) u.phases;
  clocks = rw (same peri_clk_ctrl02 refl) u.clocks;
  strobe = rw (same peri_clk_ctrl02 refl) u.strobe;
  display = rw (same peri_clk_ctrl02 refl) u.display;
  pads =
      rw
        (
          same (pad_reg 39) refl,
          same (pad_reg 40) refl,
          same (pad_reg 41) refl,
          same (pad_reg 42) refl,
          same (pad_reg 43) refl,
          same (pad_reg 44) refl,
        )
        u.pads;
}

module _ {W : Type 0} {ldo : LdoLl W} {bus : Bus W} {cells : W → ℕ → ℕ} {stored : ℕ → Bool}
    (apart : IsApart ldo cells stored) (plain : IsPlain bus cells stored) where
  p4_ldo_enable-cells :
      (b chan mv : ℕ) (w : W)
      → stored b ≡ true
      → cells (p4_ldo_enable ldo chan mv w).1 b ≡ cells w b
  unfolding p4_ldo_enable
  p4_ldo_enable-cells b chan mv w kept = elim (Bool-cases (ldo.is_valid_channel chan)) [
    | inl e ↦ rw e (
        apart.limit-cells b _ _ _ kept
        ∙ apart.enable-cells b _ _ _ kept
        ∙ apart.ripple-cells b _ _ _ kept
        ∙ apart.owner-cells b _ _ kept
        ∙ apart.adjust-cells b _ _ _ _ _ kept
        ∙ apart.limit-cells b _ _ _ kept)
    | inr e ↦ rw e refl
  ]

  p4_ldo_enable-refused :
      (chan mv : ℕ) (w : W)
      → ((p4_ldo_enable ldo chan mv w).0 ≡ ldo.is_valid_channel chan)
        × ((p4_ldo_enable ldo chan mv w).0 ≡ false → (p4_ldo_enable ldo chan mv w).1 ≡ w)
  unfolding p4_ldo_enable
  p4_ldo_enable-refused chan mv w = elim (Bool-cases (ldo.is_valid_channel chan)) [
    | inl e ↦ rw e (refl, λ h. absurd (true-ne-false h))
    | inr e ↦ rw e (refl, λ _. refl)
  ]

module _ {W : Type 0} {ldo : LdoLl W} {bus : Bus W} {cells : W → ℕ → ℕ} {stored : ℕ → Bool}
    (apart : IsApart ldo cells stored) (plain : IsPlain bus cells stored)
    (includes : (b : ℕ) → listed sdmmc_registers b ≡ true → stored b ≡ true) (w : W)
    (words : (b : ℕ) → cells w b < 2 ^ 32) where
  -- With its supply accepted the slot is set up: the clock of the bus on, the controller out of
  -- reset, its source, divider, phases and clocks set, the update strobe down, and the pads pulled
  -- up. Of the four registers that it shares with the MAC, the display and others every bit outside
  -- its own fields is as it was. With its supply refused nothing is done.
  pub p4_sdmmc_init-Usable :
      let (good, w') = p4_sdmmc_init ldo bus w in
      (good ≡ ldo.is_valid_channel chan_sdmmc)
      × ((good ≡ true → Usable (cells w) (cells w')) × (good ≡ false → w' ≡ w))
  unfolding p4_sdmmc_init
  p4_sdmmc_init-Usable =
      let steps = delay_us 1000 ∷ slot_steps in
      let w' = (p4_ldo_enable ldo chan_sdmmc mv_sdmmc w).1 in
      let (same, refused) = p4_ldo_enable-refused apart plain chan_sdmmc mv_sdmmc w in
      let reached : (b : ℕ)
          → listed sdmmc_registers b ≡ true
          → cells (run bus steps w') b ≡ card_word b (cells w b) =
        λ b among.
          run-cells plain b (includes b among) steps w'
          ∙ ap (card_word b)
              (p4_ldo_enable-cells apart plain b chan_sdmmc mv_sdmmc w (includes b among)) in
      elim (Bool-cases (p4_ldo_enable ldo chan_sdmmc mv_sdmmc w).0) [
        | inl e ↦ rw e (
          sym e ∙ same,
          (λ _. Usable-cells reached (words-Usable (cells w) words), λ h. absurd (true-ne-false h)),
        )
        | inr e ↦ rw e (sym e ∙ same, (λ h. absurd (true-ne-false (sym h)), λ _. refused e))
      ]
