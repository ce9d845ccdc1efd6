-- ===== src/Boot/Uart.antt =====
-- `p4_uart0_set_baud` of bootloader/p4/p4_uart.c: the divisors, the registers, and the wait for the
-- update.
pub mod Rates
pub mod Fast
pub mod Sets
use esp32_p4_linux.Common.{
  ℕ, zero, suc, ◌+◌, ◌-◌, ◌*◌, ◌/◌, ◌%◌, ◌^◌, Bool, true, false, ◌||◌, Option, none, some, List, [],
  ◌∷◌, ltb, ◌==◌, if◌then◌else◌,
}
use esp32_p4_linux.Boot.Flash.{u32_mod}
use esp32_p4_linux.Boot.Regs.{Bus, Access, modify, store, bits, bit_on, set_field, run}

-- `UART_CLKDIV_M`, and `UART0_SCLK_DIV_NUM_M + 1u`
abbrev pub max_div : ℕ
max_div = 0xFFF

abbrev pub max_pre : ℕ
max_pre = 256

abbrev pub clkdiv_reg : ℕ
clkdiv_reg = 0x500CA014

abbrev pub update_reg : ℕ
update_reg = 0x500CA098

abbrev pub ctrl110 : ℕ
ctrl110 = 0x500E6068

abbrev pub ctrl111 : ℕ
ctrl111 = 0x500E606c

pub record Divisors : Type 0 where
  pub pre : ℕ
  pub int : ℕ
  pub frag : ℕ

-- `(uint32_t)((uint64_t)max_div * baud)`
unfoldable pub step_of : ℕ → ℕ
step_of baud = max_div * baud % u32_mod

-- `sclk_div`, rounded up in 32 bits
unfoldable pub pre_of : ℕ → ℕ → ℕ
unfolding step_of
pre_of baud sclk = (sclk + step_of baud + (u32_mod - 1)) % u32_mod / step_of baud

-- `clk_div`, in sixteenths
unfoldable pub ratio_of : ℕ → ℕ → ℕ → ℕ
ratio_of baud sclk pre = sclk * 16 / (baud * pre % u32_mod) % u32_mod

unfoldable pub divisors : ℕ → ℕ → Option Divisors
unfolding pre_of ratio_of
divisors baud sclk =
    let pre = pre_of baud sclk in
    let ratio = ratio_of baud sclk pre in
    if baud == 0
    then none
    else if pre == 0 || ltb max_pre pre
    then none
    else if ltb max_div (ratio / 16)
    then none
    else some (record { pre = pre; int = ratio / 16; frag = ratio % 16 })

-- The source is the crystal, with its clock on.
unfoldable pub source_word : ℕ → ℕ
unfolding set_field
source_word v = set_field 26 1 1 (set_field 24 2 0 v)

unfoldable pub pre_word : ℕ → ℕ → ℕ
unfolding set_field
pre_word pre v = set_field 0 8 (pre - 1) v

unfoldable pub clkdiv_word : Divisors → ℕ
clkdiv_word d = d.int + d.frag * 2 ^ 20

-- The registers in the order of the writes; the last asks for the update.
unfoldable pub uart_steps : Divisors → List Access
unfolding clkdiv_word bits bit_on
uart_steps d =
    modify ctrl110 (bits 24 2 0 ∷ bit_on 26 ∷ [])
    ∷ modify ctrl111 (bits 0 8 (d.pre - 1) ∷ [])
    ∷ store clkdiv_reg (clkdiv_word d)
    ∷ store update_reg 1
    ∷ []

-- The wait for the update bit, which the source does not bound: `none` is still waiting.
unfoldable pub spin : {W : Type 0} → Bus W → ℕ → W → Option W
spin bus zero w = none
spin bus (suc fuel) w =
    let (v, w') = bus.read update_reg w in
    elim (v % 2 == 0) [ true ↦ some w' | false ↦ spin bus fuel w' ]

-- `tx_wait_idle` is the ROM's `uart_tx_wait_idle(0)`.
unfoldable pub p4_uart0_set_baud :
    {W : Type 0} → Bus W → (W → W) → ℕ → ℕ → ℕ → W → Option (Bool × W)
unfolding divisors uart_steps run spin
p4_uart0_set_baud bus tx_wait_idle fuel baud sclk w = elim (divisors baud sclk) [
  | none ↦ some (false, w)
  | some d ↦ elim (spin bus fuel (run bus (uart_steps d) (tx_wait_idle w))) [
    | none ↦ none
    | some w' ↦ some (true, w')
  ]
]
