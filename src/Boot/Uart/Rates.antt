-- ===== src/Boot/Uart/Rates.antt =====
-- The divisors of `p4_uart0_set_baud` of bootloader/p4/p4_uart.c.
use esp32_p4_linux.Common.{
  ℕ, ◌+◌, ◌-◌, ◌*◌, ◌/◌, ◌%◌, ◌^◌, ◌≤◌, ◌<◌, ◌≡◌, refl, ap, false, ◌||◌, some, ltb, ◌==◌, arith,
}
use esp32_p4_linux.Boot.Flash.{u32_mod}
use esp32_p4_linux.Boot.Uart.{
  max_div, max_pre, Divisors, step_of, pre_of, ratio_of, divisors, source_word,
}
use esp32_p4_linux.Boot.Regs.{set_field}
use native.Mathlib.Nat.{
  div-mul-le_self, lt-div-mul-add, le-div_iff_mul-le, mul_comm, lt_of_mul-lt-mul_right,
  div-le_of_le-mul, mul_assoc,
}

-- No baud rate makes the first division one by zero, though the product wraps.
pub step_of_pos : (baud : ℕ) → 0 < baud → baud < u32_mod → 0 < step_of baud
unfolding step_of
step_of_pos baud p lt = omega arith

-- The source register: the two fields are set, and no other bit changes.
pub source_word-fields :
    (v : ℕ)
    → v < u32_mod
    → (source_word v / 2 ^ 24 % 4 ≡ 0)
      × ((source_word v / 2 ^ 26 % 2 ≡ 1)
          × ((source_word v % 2 ^ 24 ≡ v % 2 ^ 24) × (source_word v / 2 ^ 27 ≡ v / 2 ^ 27)))
unfolding source_word set_field
source_word-fields v lt = (omega arith, (omega arith, (omega arith, omega arith)))

-- The divisors give the rate: within a sixteenth of a step of the last divider below it.
pub record Gives (baud sclk : ℕ) (d : Divisors) : Type 0 where
  pub pre_fits : (0 < d.pre) × (d.pre ≤ max_pre)
  pub int_fits : d.int ≤ max_div
  pub frag_fits : d.frag < 16
  pub no_less : (d.int * 16 + d.frag) * (baud * d.pre) ≤ sclk * 16
  pub no_more : sclk * 16 < (d.int * 16 + d.frag) * (baud * d.pre) + baud * d.pre

round_up-bounds :
    (a b : ℕ)
    → 0 < a
    → 0 < b
    → (0 < (a + b - 1) / b) × ((a ≤ (a + b - 1) / b * b) × ((a + b - 1) / b * b < a + b))
round_up-bounds a b pa pb =
    let low = div-mul-le_self (a + b - 1) b in
    let high = lt-div-mul-add {a = a + b - 1} {b = b} pb in
    (
      (le-div_iff_mul-le {k = b} {x = 1} {y = a + b - 1} pb).1 (omega arith),
      (omega arith, omega arith),
    )

module _ (baud sclk : ℕ) (baud_pos : 0 < baud) (sclk_pos : 0 < sclk)
    (small : max_div * baud + sclk < u32_mod) where
  step_of-exact : step_of baud ≡ max_div * baud
  unfolding step_of
  step_of-exact = omega arith

  pre_of-exact : pre_of baud sclk ≡ (sclk + max_div * baud - 1) / (max_div * baud)
  unfolding pre_of
  pre_of-exact =
      let wraps : (sclk + max_div * baud + (u32_mod - 1)) % u32_mod ≡ sclk + max_div * baud - 1 =
        omega arith in
      rw step_of-exact (ap (λ n. n / (max_div * baud)) wraps)

  -- The first divider is the least that brings the rate into reach of the second.
  pre_of-bounds :
      (0 < pre_of baud sclk)
      × ((sclk ≤ pre_of baud sclk * (max_div * baud))
          × (pre_of baud sclk * (max_div * baud) < sclk + max_div * baud))
  pre_of-bounds = rw pre_of-exact (round_up-bounds sclk (max_div * baud) sclk_pos (omega arith))

  -- The product of the divider and the rate does not wrap.
  product : baud * pre_of baud sclk % u32_mod ≡ baud * pre_of baud sclk
  product =
      let (a, (b, c)) = pre_of-bounds in
      let e = mul_assoc max_div baud (pre_of baud sclk) in
      let f = mul_comm (pre_of baud sclk) (max_div * baud) in omega (arith, e, f)

  -- The ratio in sixteenths, which fits the second divider's field.
  ratio_of-exact :
      (ratio_of baud sclk (pre_of baud sclk) ≡ sclk * 16 / (baud * pre_of baud sclk))
      × (ratio_of baud sclk (pre_of baud sclk) ≤ 65520)
  unfolding ratio_of
  ratio_of-exact =
      let pre = pre_of baud sclk in
      let (a, (b, c)) = pre_of-bounds in
      let e = mul_assoc max_div baud pre in
      let f = mul_comm pre (max_div * baud) in
      let q : ℕ = sclk * 16 / (baud * pre) in
      let fits : q ≤ 65520 =
        div-le_of_le-mul (baud * pre) {m = sclk * 16} {n = 65520} (omega (arith, e, f)) in
      let small_q : q % u32_mod ≡ q = omega arith in rw (product, small_q) (refl, fits)

  pre_of-fits : sclk ≤ max_pre * (max_div * baud) → pre_of baud sclk ≤ max_pre
  pre_of-fits reach =
      let (a, (b, c)) = pre_of-bounds in
      let lt =
        lt_of_mul-lt-mul_right (max_div * baud) {m = pre_of baud sclk} {n = 257} (omega arith) in
      omega (arith, lt)

  -- For a rate and a source that fit the 32-bit arithmetic, the divisors exist if the source is at
  -- most 256 * 4095 times the rate, and they give the rate: the registers' fields hold them, and
  -- the source divided by them is the rate up to one sixteenth of the last divider, rounded down.
  pub divisors_give :
      sclk ≤ max_pre * (max_div * baud)
      → (d : Divisors) × ((divisors baud sclk ≡ some d) × Gives baud sclk d)
  unfolding divisors
  divisors_give reach =
      let pre = pre_of baud sclk in
      let ratio = ratio_of baud sclk pre in
      let (a, (b, c)) = pre_of-bounds in
      let (q, r) = ratio_of-exact in
      let p = pre_of-fits reach in
      let d_pos : 0 < baud * pre =
        omega (arith, mul_assoc max_div baud pre, mul_comm pre (max_div * baud)) in
      let low = div-mul-le_self (sclk * 16) (baud * pre) in
      let high = lt-div-mul-add {a = sclk * 16} {b = baud * pre} d_pos in
      let all : ratio / 16 * 16 + ratio % 16 ≡ sclk * 16 / (baud * pre) = omega (arith, q) in
      let t1 : (baud == 0) ≡ false = ground arith in
      let t2 : (pre == 0 || ltb max_pre pre) ≡ false = ground arith in
      let t3 : ltb max_div (ratio / 16) ≡ false = ground arith in
      rw (t1, t2, t3)
        (
          _,
          (
            refl,
            record {
              pre_fits = (a, p);
              int_fits = omega arith;
              frag_fits = omega arith;
              no_less = rw all low;
              no_more = rw all high;
            },
          ),
        )
