-- ===== src/Boot/Uart/Sets.antt =====
-- What `p4_uart0_set_baud` of bootloader/p4/p4_uart.c leaves in the registers.
use esp32_p4_linux.Common.{ℕ, ◌-◌, ◌%◌, ◌≡◌, List, [], ◌∷◌, ◌==◌}
use esp32_p4_linux.Boot.Regs.{Bus}
use esp32_p4_linux.Boot.Uart.{
  ctrl110, ctrl111, clkdiv_reg, update_reg, Divisors, source_word, pre_word, clkdiv_word,
}

abbrev pub uart_registers : List ℕ
uart_registers = ctrl110 ∷ ctrl111 ∷ clkdiv_reg ∷ []

-- The update bit that a write sets is cleared by the UART after `latency` polls; other accesses of
-- the driver leave it alone.
pub record IsUpdating {W : Type 0} (bus : Bus W) (pending : W → ℕ) (latency : ℕ) : Type 0 where
  pub read-pending : (w : W) → (((bus.read update_reg w).0 % 2 == 0) ≡ (pending w == 0))
  pub pending-read : (w : W) → pending (bus.read update_reg w).1 ≡ pending w - 1
  pub pending-write : (w : W) → pending (bus.write update_reg 1 w) ≡ latency

-- The registers that the divisors go to, against what they held before.
pub record HasDivisors (d : Divisors) (before after : ℕ → ℕ) : Type 0 where
  pub source : after ctrl110 ≡ source_word (before ctrl110)
  pub pre_divider : after ctrl111 ≡ pre_word d.pre (before ctrl111)
  pub divider : after clkdiv_reg ≡ clkdiv_word d
