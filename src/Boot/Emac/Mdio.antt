-- ===== src/Boot/Emac/Mdio.antt =====
-- `mdio_idle` and `mdio_read` of bootloader/p4/p4_emac.c on a management interface that works as
-- its registers are documented.
use esp32_p4_linux.Common.{
  ℕ, zero, suc, ◌-◌, ◌%◌, ◌^◌, ◌<◌, ◌≡◌, refl, ◌∙◌, true, none, some, ltb, lt→ltb, ◌==◌,
  if◌then◌else◌, Bool-cases, inl, inr, arith,
}
use esp32_p4_linux.Boot.Regs.{Bus}
use esp32_p4_linux.Boot.Emac.{
  gmii_address, gmii_data, poll_idle, max_polls, mdio_idle, command, mdio_read,
}

-- A command keeps the interface busy for `latency` polls; then the data register holds `answer`.
pub record IsMdio {W : Type 0} (bus : Bus W) (busy : W → ℕ) (sent : W → ℕ) (latency answer : ℕ → ℕ)
    : Type 0 where
  pub read-busy : (w : W) → (((bus.read gmii_address w).0 % 2 == 0) ≡ (busy w == 0))
  pub busy-read : (w : W) → busy (bus.read gmii_address w).1 ≡ busy w - 1
  pub sent-read : (w : W) → sent (bus.read gmii_address w).1 ≡ sent w
  pub busy-write : (g : ℕ) (w : W) → busy (bus.write gmii_address g w) ≡ latency g
  pub sent-write : (g : ℕ) (w : W) → sent (bus.write gmii_address g w) ≡ g
  pub read-data : (w : W) → (bus.read gmii_data w).0 ≡ answer (sent w)
  pub busy-data : (w : W) → busy (bus.read gmii_data w).1 ≡ busy w

module _ {W : Type 0} {bus : Bus W} {busy sent : W → ℕ} {latency answer : ℕ → ℕ}
    (mdio : IsMdio bus busy sent latency answer) where
  -- The polls end with success exactly when the busy bit clears within them.
  poll_idle-busy :
      (n : ℕ) (w : W)
      → ((poll_idle bus n w).0 ≡ ltb (busy w) n)
        × ((busy (poll_idle bus n w).1 ≡ busy w - n) × (sent (poll_idle bus n w).1 ≡ sent w))
  unfolding poll_idle
  poll_idle-busy zero w = (ground arith, (omega arith, refl))
  poll_idle-busy (suc n) w =
      let w' = (bus.read gmii_address w).1 in
      let tick = mdio.busy-read w in
      let (ok, (left, same)) = poll_idle-busy n w' in
      elim (Bool-cases (busy w == 0)) [
        | inl e ↦
            rw (mdio.read-busy w, e, poll_idle)
              (ground arith, (ground (arith, tick), mdio.sent-read w))
        | inr e ↦
            rw (mdio.read-busy w, e, poll_idle)
              (ground (arith, ok, tick), (ground (arith, left, tick), same ∙ mdio.sent-read w))
      ]

  abbrev Idle : W → Type 0
  Idle w = busy w ≡ 0

  -- A register is read whenever the interface becomes free, and answers, within the polls; else the
  -- read fails.
  pub mdio_read-answer :
      (phy reg cr : ℕ) (w : W)
      → let g = command phy reg cr in
        (mdio_read bus phy reg cr w).0 ≡ (
          if ltb (busy w) max_polls
          then (if ltb (latency g) max_polls then some (answer g % 2 ^ 16) else none)
          else none)
  unfolding mdio_read mdio_idle
  mdio_read-answer phy reg cr w =
      let g = command phy reg cr in
      let (free, (_, _)) = poll_idle-busy max_polls w in
      let w1 = (poll_idle bus max_polls w).1 in
      let w' = bus.write gmii_address g w1 in
      let (finished, (_, same)) = poll_idle-busy max_polls w' in
      let begun = mdio.busy-write g w1 in
      let told = same ∙ mdio.sent-write g w1 in
      let read = mdio.read-data (poll_idle bus max_polls w').1 in
      elim (Bool-cases (ltb (busy w) max_polls)) [
        | inl e ↦ elim (Bool-cases (ltb (latency g) max_polls)) [
          | inl e' ↦ rw (free, e, finished, begun, e', read, told) refl
          | inr e' ↦ rw (free, e, finished, begun, e') refl
        ]
        | inr e ↦ rw (free, e) refl
      ]

  pub mdio_read-Idle :
      (phy reg cr : ℕ) (w : W)
      → Idle w
      → latency (command phy reg cr) < max_polls
      → ((mdio_read bus phy reg cr w).0 ≡ some (answer (command phy reg cr) % 2 ^ 16))
        × Idle (mdio_read bus phy reg cr w).1
  unfolding mdio_read mdio_idle
  mdio_read-Idle phy reg cr w idle quick =
      let g = command phy reg cr in
      let w1 = (poll_idle bus max_polls w).1 in
      let w' = bus.write gmii_address g w1 in
      let w2 = (poll_idle bus max_polls w').1 in
      let (free, (_, _)) = poll_idle-busy max_polls w in
      let (finished, (left, _)) = poll_idle-busy max_polls w' in
      let begun = mdio.busy-write g w1 in
      let soon : ltb (busy w) max_polls ≡ true = lt→ltb _ _ (omega (arith, idle)) in
      let in_time : ltb (latency g) max_polls ≡ true = lt→ltb _ _ quick in
      let left' : busy w' - max_polls ≡ 0 = omega (arith, begun, quick) in
      let value : (mdio_read bus phy reg cr w).0 ≡ some (answer g % 2 ^ 16) =
        mdio_read-answer phy reg cr w ∙ (rw (soon, in_time) refl) in
      (value, rw (free, soon, finished, begun, in_time) (mdio.busy-data w2 ∙ left ∙ left'))
