-- ===== src/Boot/Emac/Clock.antt =====
-- What `p4_emac_refclk_probe` of bootloader/p4/p4_emac.c tells of the pad.
use esp32_p4_linux.Common.{
  ℕ, zero, suc, ◌+◌, ◌/◌, ◌%◌, ◌^◌, ◌≤◌, ◌<◌, ◌≡◌, refl, ◌∙◌, Bool, true, false, [], ◌∷◌, ◌==◌,
  ne→not-==, if◌then◌else◌, Bool-cases, inl, inr, arith,
}
use esp32_p4_linux.Boot.Regs.{Bus, modify, delay_us, bits, bit_on, bit_off, run}
use esp32_p4_linux.Boot.Emac.{
  gpio_in1, pad_reg, pad_func_gpio, sample, samples, p4_emac_refclk_probe,
}

module _ {W : Type 0} (bus : Bus W) where
  -- The pad as the next read of the bank finds it, and the state after `k` reads.
  abbrev pub is_low : W → Bool
  is_low w = (bus.read gpio_in1 w).0 / 2 ^ 18 % 2 == 0

  abbrev pub reads : ℕ → W → W
  reads zero w = w
  reads (suc k) w = reads k (bus.read gpio_in1 w).1

  -- The state in which the samples begin.
  unfoldable pub listening : W → W
  unfolding run bits bit_on bit_off
  listening w =
      run bus
        (modify (pad_reg 50) (bit_off 8 ∷ bit_off 7 ∷ bits 12 3 pad_func_gpio ∷ bit_on 9 ∷ [])
          ∷ delay_us 50
          ∷ [])
        w

  sample-bounds :
      (n highs : ℕ) (w : W)
      → (highs ≤ (sample bus n highs w).0) × ((sample bus n highs w).0 ≤ highs + n)
  unfolding sample
  sample-bounds zero highs w = (omega arith, omega arith)
  sample-bounds (suc n) highs w =
      let w' = (bus.read gpio_in1 w).1 in
      elim (Bool-cases (is_low w)) [
        | inl e ↦
            let (p, q) = sample-bounds n highs w' in
            rw (e, sample) (omega (arith, p), omega (arith, q))
        | inr e ↦
            let (p, q) = sample-bounds n (suc highs) w' in
            rw (e, sample) (omega (arith, p), omega (arith, q))
      ]

  sample-high :
      (n highs i : ℕ) (w : W)
      → i < n
      → is_low (reads i w) ≡ false
      → highs < (sample bus n highs w).0
  unfolding sample
  sample-high zero highs i w lt high = absurd (omega arith)
  sample-high (suc n) highs zero w lt high =
      let (p, q) = sample-bounds n (suc highs) (bus.read gpio_in1 w).1 in
      rw (high, sample) (omega (arith, p))
  sample-high (suc n) highs (suc i) w lt high =
      let w' = (bus.read gpio_in1 w).1 in
      elim (Bool-cases (is_low w)) [
        | inl e ↦
            let rest = sample-high n highs i w' (omega arith) high in
            rw (e, sample) (omega (arith, rest))
        | inr e ↦
            let rest = sample-high n (suc highs) i w' (omega arith) high in
            rw (e, sample) (omega (arith, rest))
      ]

  sample-low :
      (n highs i : ℕ) (w : W)
      → i < n
      → is_low (reads i w) ≡ true
      → (sample bus n highs w).0 < highs + n
  unfolding sample
  sample-low zero highs i w lt low = absurd (omega arith)
  sample-low (suc n) highs zero w lt low =
      let (p, q) = sample-bounds n highs (bus.read gpio_in1 w).1 in
      rw (low, sample) (omega (arith, q))
  sample-low (suc n) highs (suc i) w lt low =
      let w' = (bus.read gpio_in1 w).1 in
      elim (Bool-cases (is_low w)) [
        | inl e ↦
            let rest = sample-low n highs i w' (omega arith) low in
            rw (e, sample) (omega (arith, rest))
        | inr e ↦
            let rest = sample-low n (suc highs) i w' (omega arith) low in
            rw (e, sample) (omega (arith, rest))
      ]

  sample-static :
      (n highs : ℕ) (b : Bool) (w : W)
      → ((i : ℕ) → i < n → is_low (reads i w) ≡ b)
      → (sample bus n highs w).0 ≡ (if b then highs else highs + n)
  unfolding sample
  sample-static zero highs true w all = refl
  sample-static zero highs false w all = omega arith
  sample-static (suc n) highs true w all =
      rw (all 0 (omega arith), sample)
        (sample-static n highs true (bus.read gpio_in1 w).1 (λ i lt. all (suc i) (omega arith)))
  sample-static (suc n) highs false w all =
      let rest =
        sample-static n (suc highs) false (bus.read gpio_in1 w).1
          (λ i lt. all (suc i) (omega arith)) in
      rw (all 0 (omega arith), sample) (omega (arith, rest))

  -- The clock is reported exactly when the samples have found the pad both high and low: a pad that
  -- changes among them is reported, and one that is the same in all of them is not.
  pub p4_emac_refclk_probe-toggles :
      (w : W)
      → ((i j : ℕ)
          → i < samples
          → j < samples
          → is_low (reads i (listening w)) ≡ false
          → is_low (reads j (listening w)) ≡ true
          → (p4_emac_refclk_probe bus w).0 ≡ true)
        × ((b : Bool)
            → ((i : ℕ) → i < samples → is_low (reads i (listening w)) ≡ b)
            → (p4_emac_refclk_probe bus w).0 ≡ false)
  unfolding p4_emac_refclk_probe listening
  p4_emac_refclk_probe-toggles w =
      let w0 = listening w in
      (
        λ i j lt_i lt_j high low.
            let some_high = sample-high samples 0 i w0 lt_i high in
            let some_low = sample-low samples 0 j w0 lt_j low in
            let not_none : ((sample bus samples 0 w0).0 == 0) ≡ false =
              ne→not-== _ _ (λ q. omega (arith, q, some_high)) in
            let not_all : ((sample bus samples 0 w0).0 == samples) ≡ false =
              ne→not-== _ _ (λ q. omega (arith, q, some_low)) in
            rw (not_none, not_all) refl,
        λ b all.
            let count = sample-static samples 0 b w0 all in
            elim (Bool-cases b) [
              | inl e ↦
                  let none_high : (sample bus samples 0 w0).0 ≡ 0 = count ∙ (rw e refl) in
                  rw none_high refl
              | inr e ↦
                  let all_high : (sample bus samples 0 w0).0 ≡ samples = count ∙ (rw e refl) in
                  rw all_high refl
            ],
      )
