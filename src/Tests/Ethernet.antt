-- ===== src/Tests/Ethernet.antt =====
-- bootloader/p4/p4_emac.c and bootloader/p4/p4_sdmmc.c on concrete registers.
use esp32_p4_linux.Common.{
  ℕ, zero, suc, ◌+◌, ◌-◌, ◌*◌, ◌/◌, ◌%◌, ◌^◌, ◌<◌, ◌≡◌, refl, arith, Bool, true, false, some, [],
  ◌∷◌, ◌==◌, if◌then◌else◌,
}
use esp32_p4_linux.Boot.Regs.{Bus}
use esp32_p4_linux.Boot.Regs.Plain.{IsPlain, listed}
use esp32_p4_linux.Boot.Ldo.{LdoLl}
use esp32_p4_linux.Boot.Emac.{
  gmii_address, command, crs, mac_of, low_word, high_word, samples, mdio_read, p4_emac_init,
  p4_emac_mdio_scan, p4_emac_refclk_probe,
}
use esp32_p4_linux.Boot.Emac.Address.{wire, big_endian, wire-mac_of}
use esp32_p4_linux.Boot.Emac.Pins.{Pins, written, waited, IsGpio}
use esp32_p4_linux.Boot.Emac.Wired.{IsWired}
use esp32_p4_linux.Boot.Emac.Ready.{IsReady, emac_registers, p4_emac_init-IsReady}
use esp32_p4_linux.Boot.Emac.Mdio.{IsMdio, mdio_read-answer}
use esp32_p4_linux.Boot.Emac.Scan.{
  answering_each, first_some, value_of, p4_emac_mdio_scan-answering,
}
use esp32_p4_linux.Boot.Emac.Clock.{is_low, reads, listening, p4_emac_refclk_probe-toggles}
use esp32_p4_linux.Boot.Sdmmc.{p4_sdmmc_init}
use esp32_p4_linux.Boot.Sdmmc.Slot.{Usable, IsApart, p4_sdmmc_init-Usable}

-- Registers that are memory.
abbrev bank : Bus (ℕ → ℕ)
bank = record {
  read = λ a w. (w a, w);
  write = λ a v w b. if a == b then v else w b;
  delay = λ n w. w;
  connect_out = λ gpio signal w. w;
  connect_in = λ gpio signal w. w;
}

bank-IsPlain : IsPlain bank (λ w. w) (λ b. true)
bank-IsPlain = record {
  read-cells = λ a w _. refl;
  cells-read = λ a b w _. refl;
  cells-write = λ a b v w _. refl;
  cells-delay = λ b n w _. refl;
  cells-out = λ b gpio signal w _. refl;
  cells-in = λ b gpio signal w _. refl;
}

abbrev ones : ℕ → ℕ
ones b = 0xFFFFFFFF

-- Registers that are memory but for the GPIOs' strobes, and the pins behind these.
record PadBank : Type 0 where
  held : ℕ → ℕ
  pins : Pins

abbrev pad_bank : Bus PadBank
pad_bank = record {
  read = λ a w. (if listed emac_registers a then w.held a else 0, w);
  write = λ a v w. record { held = λ b. if a == b then v else w.held b; pins = written a v w.pins };
  delay = λ n w. record w { pins = waited n w.pins };
  connect_out = λ gpio signal w. record w {
    pins = record (w.pins) { outs = λ g. if gpio == g then signal else w.pins.outs g };
  };
  connect_in = λ gpio signal w. record w {
    pins = record (w.pins) { ins = λ s. if signal == s then gpio else w.pins.ins s };
  };
}

pad_bank-IsPlain : IsPlain pad_bank (λ w. w.held) (listed emac_registers)
pad_bank-IsPlain = record {
  read-cells = λ a w among. rw among refl;
  cells-read = λ a b w _. refl;
  cells-write = λ a b v w _. refl;
  cells-delay = λ b n w _. refl;
  cells-out = λ b gpio signal w _. refl;
  cells-in = λ b gpio signal w _. refl;
}

pad_bank-IsGpio : IsGpio pad_bank (λ w. w.pins)
pad_bank-IsGpio = record {
  read-pins = λ a w. refl;
  read-enable = λ w. refl;
  read-clear = λ w. refl;
  read-raise = λ w. refl;
  write-pins = λ a v w. refl;
  delay-pins = λ n w. refl;
  out-pins = λ gpio signal w. refl;
  in-pins = λ gpio signal w. refl;
}

-- Every bit set, and the PHY held in reset by nobody.
abbrev powered_up : PadBank
powered_up = record {
  held = ones;
  pins = record {
    outs = λ g. 0;
    ins = λ s. 0;
    drives = false;
    high = false;
    low_for = 0;
    high_for = 0;
  };
}

p4_emac_init-IsReady_example :
    IsReady ones ((p4_emac_init pad_bank powered_up).1.held)
    × IsWired ((p4_emac_init pad_bank powered_up).1.pins)
p4_emac_init-IsReady_example =
    p4_emac_init-IsReady pad_bank-IsPlain (λ b among. among) powered_up (λ b. omega arith)
      pad_bank-IsGpio

abbrev wired_supply : LdoLl (ℕ → ℕ)
wired_supply = record {
  is_valid_channel = λ chan. true;
  unit_of = λ chan. chan - 1;
  enable_current_limit = λ u b w. w;
  voltage_to_dref_mul = λ u mv. (mv / 100, 1, false);
  adjust_voltage = λ u dref mul b w. w;
  set_owner_sw = λ u w. w;
  enable_ripple_suppression = λ u b w. w;
  enable = λ u b w. w;
}

wired_supply-IsApart : IsApart wired_supply (λ w. w) (λ b. true)
wired_supply-IsApart = record {
  limit-cells = λ b u on w _. refl;
  adjust-cells = λ b u dref mul raw w _. refl;
  owner-cells = λ b u w _. refl;
  ripple-cells = λ b u on w _. refl;
  enable-cells = λ b u on w _. refl;
}

p4_sdmmc_init-Usable_example :
    let (good, w') = p4_sdmmc_init wired_supply bank ones in
    (good ≡ true) × ((good ≡ true → Usable ones w') × (good ≡ false → w' ≡ ones))
p4_sdmmc_init-Usable_example =
    p4_sdmmc_init-Usable wired_supply-IsApart bank-IsPlain (λ b _. refl) ones (λ b. omega arith)

-- The board's address, 60:55:f9:fb:0c:31.
wire-mac_of_example :
    let mac = mac_of 0xf9fb0c31 0x6055 in
    (wire (low_word mac) (high_word mac) ≡ mac) × (big_endian mac 0 ≡ 0x6055 * 2 ^ 32 + 0xf9fb0c31)
wire-mac_of_example = wire-mac_of 0xf9fb0c31 0x6055 (omega arith) (omega arith)

-- A PHY at address 1, under every divider setting, that takes three polls for an answer.
abbrev phy_register : ℕ → ℕ
phy_register reg =
    if reg == 2 then 0x22 else if reg == 3 then 0x1560 else if reg == 1 then 0x796D else 0

abbrev phy_answer : ℕ → ℕ
phy_answer g = if g / 2 ^ 11 % 32 == 1 then phy_register (g / 2 ^ 6 % 32) else 0xFFFF

record Interface : Type 0 where
  polls : ℕ
  last : ℕ

abbrev mii : Bus Interface
mii = record {
  read = λ a w.
      if a == gmii_address
      then (
        if w.polls == 0 then w.last / 2 * 2 else w.last / 2 * 2 + 1,
        record w { polls = w.polls - 1 },
      )
      else (phy_answer w.last, w);
  write = λ a v w. record { polls = 3; last = v };
  delay = λ n w. w;
  connect_out = λ gpio signal w. w;
  connect_in = λ gpio signal w. w;
}

mii-busy :
    (polls last : ℕ)
    → (((if polls == 0 then last / 2 * 2 else last / 2 * 2 + 1) % 2 == 0) ≡ (polls == 0))
mii-busy zero last = ground arith
mii-busy (suc n) last = ground arith

mii-IsMdio : IsMdio mii (λ w. w.polls) (λ w. w.last) (λ g. 3) phy_answer
mii-IsMdio = record {
  read-busy = λ w. mii-busy w.polls w.last;
  busy-read = λ w. refl;
  sent-read = λ w. refl;
  busy-write = λ g w. refl;
  sent-write = λ g w. refl;
  read-data = λ w. refl;
  busy-data = λ w. refl;
}

abbrev free : Interface
free = record { polls = 0; last = 0 }

mdio_read-answer_example : (mdio_read mii 1 2 5 free).0 ≡ some 0x22
unfolding command
mdio_read-answer_example = mdio_read-answer mii-IsMdio 1 2 5 free

p4_emac_mdio_scan-answering_example :
    (p4_emac_mdio_scan mii free).0 ≡ first_some (answering_each (value_of phy_answer) crs)
p4_emac_mdio_scan-answering_example =
    p4_emac_mdio_scan-answering mii-IsMdio (λ phy reg cr. omega arith) free refl

-- The PHY found, under the first divider setting.
scanned :
    (p4_emac_mdio_scan mii free).0
    ≡ record { addr = 1; id1 = 0x22; id2 = 0x1560; bmsr = 0x796D; cr = 5 } ∷ []
unfolding p4_emac_mdio_scan
scanned = refl

-- A clock that is high every other time.
abbrev oscillator : Bus ℕ
oscillator = record {
  read = λ a w. (w % 2 * 2 ^ 18, w + 1);
  write = λ a v w. w;
  delay = λ n w. w;
  connect_out = λ gpio signal w. w;
  connect_in = λ gpio signal w. w;
}

p4_emac_refclk_probe-toggles_example :
    ((i j : ℕ)
      → i < samples
      → j < samples
      → is_low oscillator (reads oscillator i (listening oscillator 0)) ≡ false
      → is_low oscillator (reads oscillator j (listening oscillator 0)) ≡ true
      → (p4_emac_refclk_probe oscillator 0).0 ≡ true)
    × ((b : Bool)
        → ((i : ℕ)
            → i < samples
            → is_low oscillator (reads oscillator i (listening oscillator 0)) ≡ b)
        → (p4_emac_refclk_probe oscillator 0).0 ≡ false)
p4_emac_refclk_probe-toggles_example = p4_emac_refclk_probe-toggles oscillator 0

ticking : (p4_emac_refclk_probe oscillator 0).0 ≡ true
unfolding listening
ticking = (p4_emac_refclk_probe-toggles oscillator 0).0 0 1 (omega arith) (omega arith) refl refl
