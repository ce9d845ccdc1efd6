-- ===== src/Boot/Emac/Wired.antt =====
-- What `p4_emac_init` of bootloader/p4/p4_emac.c does to the management interface's pins and to the
-- PHY's reset.
use esp32_p4_linux.Common.{
  ℕ, ◌%◌, ◌^◌, ◌≡◌, refl, ◌∙◌, true, ◌&&◌, ◌++◌, ◌==◌, Bool-cases, inl, inr,
}
use esp32_p4_linux.Boot.Regs.{Bus, run}
use esp32_p4_linux.Boot.Emac.{
  mdc_gpio, mdio_gpio, mdi_in, mdc_out, mdo_out, mac_sys_0, mac_sys_1, clock_steps, pad_steps,
  address_steps, p4_emac_init,
}
use esp32_p4_linux.Boot.Emac.Pins.{Pins, IsGpio, settle, run-pins}

-- MDC and MDIO are connected, and the PHY has been held in reset for 100 microseconds and out of
-- it for ten milliseconds.
pub record IsWired (p : Pins) : Type 0 where
  pub mdc : p.outs mdc_gpio ≡ mdc_out
  pub mdo : p.outs mdio_gpio ≡ mdo_out
  pub mdi : p.ins mdi_in ≡ mdio_gpio
  pub driven : p.drives ≡ true
  pub held : p.low_for ≡ 100
  pub released : p.high ≡ true
  pub settled : p.high_for ≡ 10000

settle-IsWired : (p : Pins) → IsWired (settle (clock_steps ++ pad_steps) p)
unfolding settle clock_steps pad_steps
settle-IsWired p = record {
  mdc = refl;
  mdo = refl;
  mdi = refl;
  driven = refl;
  held = refl;
  released = refl;
  settled = refl;
}

-- The address is no matter of the pins.
settle-address : (w0 w1 : ℕ) (p : Pins) → settle (address_steps w0 w1) p ≡ p
unfolding settle address_steps
settle-address w0 w1 p = elim (Bool-cases (w0 == 0 && w1 == 0)) [
  | inl e ↦ rw e refl
  | inr e ↦ rw e refl
]

module _ {W : Type 0} {bus : Bus W} {pins : W → Pins} (gpio : IsGpio bus pins) where
  pub p4_emac_init-IsWired : (w : W) → IsWired (pins (p4_emac_init bus w).1)
  unfolding p4_emac_init
  p4_emac_init-IsWired w =
      let w1 = run bus (clock_steps ++ pad_steps) w in
      let w2 = (bus.read mac_sys_0 w1).1 in
      let same : pins (p4_emac_init bus w).1 ≡ settle (clock_steps ++ pad_steps) (pins w) =
        run-pins gpio _ _
        ∙ settle-address (bus.read mac_sys_0 w1).0 ((bus.read mac_sys_1 w2).0 % 2 ^ 16) _
        ∙ gpio.read-pins mac_sys_1 w2
        ∙ gpio.read-pins mac_sys_0 w1
        ∙ run-pins gpio (clock_steps ++ pad_steps) w in
      rw same (settle-IsWired (pins w))
