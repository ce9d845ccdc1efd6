-- ===== src/Boot/Emac/Scan.antt =====
-- `p4_emac_mdio_scan` and the samples of `p4_emac_refclk_probe` of bootloader/p4/p4_emac.c.
use esp32_p4_linux.Common.{
  ℕ, zero, suc, ◌+◌, ◌%◌, ◌^◌, ◌<◌, ◌≡◌, refl, ap, Bool, ◌||◌, List, [], ◌∷◌, ◌==◌, if◌then◌else◌,
  Bool-cases, List-cases, inl, inr,
}
use esp32_p4_linux.Boot.Regs.{Bus}
use esp32_p4_linux.Boot.Emac.{
  max_polls, command, mdio_read, Phy, mii_bmsr, mii_physid1, mii_physid2, crs, scan_phys, scan_crs,
  p4_emac_mdio_scan,
}
use esp32_p4_linux.Boot.Emac.Mdio.{IsMdio, mdio_read-Idle}

-- The numbers from 0 below `n`, from `i` on.
abbrev pub upto : ℕ → ℕ → List ℕ
upto zero i = []
upto (suc n) i = i ∷ upto n (i + 1)

-- What the registers of the PHYs hold: the value by divider setting, address and register.
abbrev pub Values : Type 0
Values = ℕ → ℕ → ℕ → ℕ

-- Nobody answers as 0, a floating bus as ones.
abbrev pub absent : Values → ℕ → ℕ → Bool
absent value cr phy = value cr phy mii_physid1 == 0 || value cr phy mii_physid1 == 0xFFFF

abbrev pub described : Values → ℕ → ℕ → Phy
described value cr phy = record {
  addr = phy;
  id1 = value cr phy mii_physid1;
  id2 = value cr phy mii_physid2;
  bmsr = value cr phy mii_bmsr;
  cr = cr;
}

-- The PHYs that answer under a divider setting, among addresses; then under the first setting
-- under which one does.
abbrev pub answering : Values → ℕ → List ℕ → List Phy
answering value cr [] = []
answering value cr (phy ∷ phys) =
    let rest = answering value cr phys in
    if absent value cr phy then rest else described value cr phy ∷ rest

abbrev pub first_some : List (List Phy) → List Phy
first_some [] = []
first_some ([] ∷ rest) = first_some rest
first_some ((phy ∷ phys) ∷ rest) = phy ∷ phys

abbrev pub answering_each : Values → List ℕ → List (List Phy)
answering_each value [] = []
answering_each value (cr ∷ rest) = answering value cr (upto 32 0) ∷ answering_each value rest

-- The values behind an interface that answers commands.
abbrev pub value_of : (ℕ → ℕ) → Values
value_of answer cr phy reg = answer (command phy reg cr) % 2 ^ 16

module _ {W : Type 0} {bus : Bus W} {busy sent : W → ℕ} {latency answer : ℕ → ℕ}
    (mdio : IsMdio bus busy sent latency answer)
    (quick : (phy reg cr : ℕ) → latency (command phy reg cr) < max_polls) where
  scan_phys-answering :
      (cr n phy : ℕ) (w : W)
      → busy w ≡ 0
      → ((scan_phys bus cr n phy w).0 ≡ answering (value_of answer) cr (upto n phy))
        × (busy (scan_phys bus cr n phy w).1 ≡ 0)
  unfolding scan_phys
  scan_phys-answering cr zero phy w idle = (refl, idle)
  scan_phys-answering cr (suc n) phy w idle =
      let w1 = (mdio_read bus phy mii_physid1 cr w).1 in
      let w2 = (mdio_read bus phy mii_physid2 cr w1).1 in
      let w3 = (mdio_read bus phy mii_bmsr cr w2).1 in
      let (id1, idle1) = mdio_read-Idle mdio phy mii_physid1 cr w idle (quick phy mii_physid1 cr) in
      let (id2, idle2) =
        mdio_read-Idle mdio phy mii_physid2 cr w1 idle1 (quick phy mii_physid2 cr) in
      let (bmsr, idle3) = mdio_read-Idle mdio phy mii_bmsr cr w2 idle2 (quick phy mii_bmsr cr) in
      elim (Bool-cases (absent (value_of answer) cr phy)) [
        | inl e ↦
            let (found, idle') = scan_phys-answering cr n (phy + 1) w1 idle1 in
            rw (id1, e, scan_phys) (found, idle')
        | inr e ↦
            let (found, idle') = scan_phys-answering cr n (phy + 1) w3 idle3 in
            rw (id1, e, id2, bmsr, scan_phys)
              (ap (λ xs. described (value_of answer) cr phy ∷ xs) found, idle')
      ]

  scan_crs-answering :
      (settings : List ℕ) (w : W)
      → busy w ≡ 0
      → (scan_crs bus settings w).0 ≡ first_some (answering_each (value_of answer) settings)
  unfolding scan_crs
  scan_crs-answering [] w idle = refl
  scan_crs-answering (cr ∷ rest) w idle =
      let w' = (scan_phys bus cr 32 0 w).1 in
      let (found, idle') = scan_phys-answering cr 32 0 w idle in
      elim (List-cases (answering (value_of answer) cr (upto 32 0))) [
        | inl e ↦ rw (found, e, scan_crs) (scan_crs-answering rest w' idle')
        | inr (phy, phys, e) ↦ rw (found, e, scan_crs) refl
      ]

  -- On a free interface that always answers in time, the scan reports the PHYs that answer under the
  -- first divider setting under which one does, in the order of their addresses.
  pub p4_emac_mdio_scan-answering :
      (w : W)
      → busy w ≡ 0
      → (p4_emac_mdio_scan bus w).0 ≡ first_some (answering_each (value_of answer) crs)
  unfolding p4_emac_mdio_scan
  p4_emac_mdio_scan-answering w idle = scan_crs-answering crs w idle
