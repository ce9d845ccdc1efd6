-- ===== src/Tests/Uart.antt =====
-- `p4_uart0_set_baud` of bootloader/p4/p4_uart.c at concrete rates.
use esp32_p4_linux.Common.{ℕ, ◌==◌, if◌then◌else◌, ◌+◌, ◌^◌, ◌≤◌, ◌≡◌, refl, arith, none, some}
use esp32_p4_linux.Boot.Regs.{Bus}
use esp32_p4_linux.Boot.Uart.{update_reg, Divisors, step_of, pre_of, ratio_of, divisors}
use esp32_p4_linux.Boot.Uart.Rates.{Gives, divisors_give}

-- The console: 10 and 0/16, as bootloader/main.c says.
console : divisors 4000000 40000000 ≡ some (record { pre = 1; int = 10; frag = 0 })
unfolding divisors pre_of ratio_of step_of
console = refl

-- The rate of the ROM, whose ratio is 347 and 3/16.
rom_rate : divisors 115200 40000000 ≡ some (record { pre = 1; int = 347; frag = 3 })
unfolding divisors pre_of ratio_of step_of
rom_rate = refl

-- The product wraps to 3839, so the first divider is out of range.
refused : divisors 1048833 40000000 ≡ none
unfolding divisors pre_of ratio_of step_of
refused = refl

divisors_give_example :
    (d : Divisors) × ((divisors 115200 40000000 ≡ some d) × Gives 115200 40000000 d)
divisors_give_example =
    divisors_give 115200 40000000 (omega arith) (omega arith) (omega arith) (omega arith)

console_below : 40000000 ≤ step_of 4000000
unfolding step_of
console_below = omega arith

console_carry : step_of 4000000 + 40000000 ≤ 2 ^ 32
unfolding step_of
console_carry = omega arith

-- Registers that are memory, but for the update bit, which is taken at once.
abbrev uart_bank : Bus (ℕ → ℕ)
uart_bank = record {
  read = λ a w. (if a == update_reg then 0 else w a, w);
  write = λ a v w b. if a == b then v else w b;
  delay = λ n w. w;
  connect_out = λ gpio signal w. w;
  connect_in = λ gpio signal w. w;
}

abbrev ones : ℕ → ℕ
ones b = 0xFFFFFFFF
