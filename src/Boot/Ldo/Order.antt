-- ===== src/Boot/Ldo/Order.antt =====
-- The order of bootloader/p4/p4_ldo.c and of `esp_clk_tree_mpll_acquire` in bootloader/p4/p4_clk.c:
-- what a supply and a PLL need of it.
use esp32_p4_linux.Common.{
  ℕ, ◌≡◌, refl, sym, ap, ◌∙◌, Bool, true, false, not, ◌||◌, inl, inr, Bool-cases, true-ne-false,
}
use esp32_p4_linux.Boot.Ldo.{
  LdoLl, RtcClk, Clocks, chan_psram, mv_psram, p4_ldo_enable, esp_clk_tree_mpll_acquire,
}

-- A channel's supply, and whether its voltage was ever changed, or it was ever switched on, with no
-- current limit.
pub record Rail : Type 0 where
  pub on : Bool
  pub limited : Bool
  pub surged : Bool
  pub by_software : Bool

-- The supplies answer `ldo_ll_*` each on its own.
pub record IsRails {W : Type 0} (ldo : LdoLl W) (rail : W → ℕ → Rail) : Type 0 where
  pub rail-limit :
      (u : ℕ) (b : Bool) (w : W)
      → rail (ldo.enable_current_limit u b w) u ≡ record (rail w u) { limited = b }
  pub rail-adjust :
      (u dref mul : ℕ) (b : Bool) (w : W)
      → rail (ldo.adjust_voltage u dref mul b w) u
        ≡ record (rail w u) { surged = (rail w u).surged || not (rail w u).limited }
  pub rail-owner :
      (u : ℕ) (w : W) → rail (ldo.set_owner_sw u w) u ≡ record (rail w u) { by_software = true }
  pub rail-ripple :
      (u : ℕ) (b : Bool) (w : W) → rail (ldo.enable_ripple_suppression u b w) u ≡ rail w u
  pub rail-enable :
      (u : ℕ) (b : Bool) (w : W)
      → rail (ldo.enable u b w) u
        ≡ record (rail w u) { on = b; surged = (rail w u).surged || not (rail w u).limited }

-- On, with its limit released, and with no surge on the way.
abbrev pub settled : Rail → Rail
settled r = record { on = true; limited = false; surged = r.surged; by_software = true }

or-false : (b : Bool) → (b || false) ≡ b
or-false true = refl
or-false false = refl

module _ {W : Type 0} {ldo : LdoLl W} {rail : W → ℕ → Rail} (rails : IsRails ldo rail) where
  -- The accesses on a valid channel.
  sequence-settled :
      (u dref mul : ℕ) (b : Bool) (w : W)
      → let w' = ldo.enable_current_limit u false (
          ldo.enable u true (
            ldo.enable_ripple_suppression u true (
              ldo.set_owner_sw u
                (ldo.adjust_voltage u dref mul b (ldo.enable_current_limit u true w))))) in
        rail w' u ≡ settled (rail w u)
  sequence-settled u dref mul b w =
      let w1 = ldo.enable_current_limit u true w in
      let w2 = ldo.adjust_voltage u dref mul b w1 in
      let w3 = ldo.set_owner_sw u w2 in
      let w4 = ldo.enable_ripple_suppression u true w3 in
      rw
        (
          rails.rail-limit u false (ldo.enable u true w4),
          rails.rail-enable u true w4,
          rails.rail-ripple u true w3,
          rails.rail-owner u w2,
          rails.rail-adjust u dref mul b w1,
          rails.rail-limit u true w,
          or-false (rail w u).surged,
          or-false (rail w u).surged,
        )
        refl

  -- A channel that is valid comes up without a surge; one that is not is refused, and nothing is
  -- done.
  pub p4_ldo_enable-settled :
      (chan voltage_mv : ℕ) (w : W)
      → let (good, w') = p4_ldo_enable ldo chan voltage_mv w in
        (good ≡ ldo.is_valid_channel chan)
        × ((good ≡ true → rail w' (ldo.unit_of chan) ≡ settled (rail w (ldo.unit_of chan)))
            × (good ≡ false → w' ≡ w))
  unfolding p4_ldo_enable
  p4_ldo_enable-settled chan voltage_mv w =
      let u = ldo.unit_of chan in
      let (dref, mul, rail_voltage) = ldo.voltage_to_dref_mul u voltage_mv in
      elim (Bool-cases (ldo.is_valid_channel chan)) [
        | inl e ↦
            rw e (
              refl,
              (λ _. sequence-settled u dref mul rail_voltage w, λ h. absurd (true-ne-false h)),
            )
        | inr e ↦ rw e (refl, (λ h. absurd (true-ne-false (sym h)), λ _. refl))
      ]

  -- The MPLL is switched on exactly when its supply is accepted, and then on a supply that is up.
  pub esp_clk_tree_mpll_acquire-powered :
      {Config : Type 0} (rtc : RtcClk W Config) (c : Clocks W)
      → let (good, c') = esp_clk_tree_mpll_acquire ldo rtc c in
        let u = ldo.unit_of chan_psram in
        (good ≡ ldo.is_valid_channel chan_psram)
        × ((good ≡ true
              → (w : W) × ((c'.hw ≡ rtc.mpll_enable w) × (rail w u ≡ settled (rail c.hw u))))
            × (good ≡ false → c' ≡ c))
  unfolding esp_clk_tree_mpll_acquire
  esp_clk_tree_mpll_acquire-powered rtc c =
      let (same, (up, refused)) = p4_ldo_enable-settled chan_psram mv_psram c.hw in
      let w = (p4_ldo_enable ldo chan_psram mv_psram c.hw).1 in
      elim (Bool-cases (p4_ldo_enable ldo chan_psram mv_psram c.hw).0) [
        | inl e ↦ rw e (sym e ∙ same, (λ _. (w, (refl, up e)), λ h. absurd (true-ne-false h)))
        | inr e ↦ rw e (
          sym e ∙ same,
          (λ h. absurd (true-ne-false (sym h)), λ _. ap (λ w. record c { hw = w }) (refused e)),
        )
      ]
