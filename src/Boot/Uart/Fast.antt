-- ===== src/Boot/Uart/Fast.antt =====
-- The divisors of `p4_uart0_set_baud` of bootloader/p4/p4_uart.c at the rates that `main` uses,
-- where 4095 times the rate is beyond 32 bits.
use esp32_p4_linux.Common.{
  ℕ, ◌+◌, ◌-◌, ◌*◌, ◌/◌, ◌%◌, ◌≤◌, ◌<◌, ◌≡◌, refl, ap, ◌∙◌, false, some, ltb, ◌==◌, arith,
}
use esp32_p4_linux.Boot.Flash.{u32_mod}
use esp32_p4_linux.Boot.Uart.{max_div, Divisors, step_of, pre_of, ratio_of, divisors}
use esp32_p4_linux.Boot.Uart.Rates.{Gives}
use native.Mathlib.Nat.{div-mul-le_self, lt-div-mul-add, div-le_of_le-mul, div-eq_of_lt-le}

module _ (baud sclk : ℕ) (baud_pos : 0 < baud) (baud_fits : baud < u32_mod) (sclk_pos : 0 < sclk)
    (below : sclk ≤ step_of baud) (no_carry : step_of baud + sclk ≤ u32_mod)
    (reach : sclk ≤ max_div * baud) where
  pre_of_one : pre_of baud sclk ≡ 1
  unfolding pre_of
  pre_of_one =
      let step = step_of baud in
      let wraps : (sclk + step + (u32_mod - 1)) % u32_mod ≡ sclk + step - 1 = omega arith in
      ap (λ n. n / step) wraps
      ∙ div-eq_of_lt-le {k = 1} step {m = sclk + step - 1} (omega arith) (omega arith)

  ratio_of_one : (ratio_of baud sclk 1 ≡ sclk * 16 / baud) × (ratio_of baud sclk 1 ≤ 65520)
  unfolding ratio_of
  ratio_of_one =
      let exact : baud * 1 % u32_mod ≡ baud = omega arith in
      let q : ℕ = sclk * 16 / baud in
      let fits : q ≤ 65520 = div-le_of_le-mul baud {m = sclk * 16} {n = 65520} (omega arith) in
      let small_q : q % u32_mod ≡ q = omega arith in rw (exact, small_q) (refl, fits)

  -- Where the wrapped product is no less than the source, and the source no more than 4095 times
  -- the rate, the first divider is 1 and the divisors give the rate.
  pub divisors_fast :
      (d : Divisors) × ((divisors baud sclk ≡ some d) × ((d.pre ≡ 1) × Gives baud sclk d))
  unfolding divisors
  divisors_fast =
      let ratio = ratio_of baud sclk 1 in
      let (q, r) = ratio_of_one in
      let low = div-mul-le_self (sclk * 16) baud in
      let high = lt-div-mul-add {a = sclk * 16} {b = baud} baud_pos in
      let all : ratio / 16 * 16 + ratio % 16 ≡ sclk * 16 / baud = omega (arith, q) in
      let one : baud * 1 ≡ baud = omega arith in
      let t1 : (baud == 0) ≡ false = ground arith in
      let t3 : ltb max_div (ratio / 16) ≡ false = ground arith in
      rw (pre_of_one, t1, t3)
        (
          _,
          (
            refl,
            (
              refl,
              record {
                pre_fits = (omega arith, omega arith);
                int_fits = omega arith;
                frag_fits = omega arith;
                no_less = rw (all, one) low;
                no_more = rw (all, one) high;
              },
            ),
          ),
        )
