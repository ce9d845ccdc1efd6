-- ===== src/Boot/Panic.antt =====
-- bootloader/p4/p4_panic.c: the names of trap causes and of reset reasons.
pub mod Names
use esp32_p4_linux.Common.{ℕ, ◌/◌, ◌%◌, ◌^◌, List, [], ◌∷◌, ◌==◌, if◌then◌else◌, Bytes, codes}

-- A `switch` whose cases return: the name of the first case that is equal, or the default's.
unfoldable pub switch : List (ℕ × Bytes) → Bytes → ℕ → Bytes
switch [] default x = default
switch ((n, name) ∷ rest) default x = if x == n then name else switch rest default x

abbrev pub causes : List (ℕ × Bytes)
causes =
    (0, codes "instruction address misaligned")
    ∷ (1, codes "instruction access fault")
    ∷ (2, codes "illegal instruction")
    ∷ (3, codes "breakpoint")
    ∷ (4, codes "load address misaligned")
    ∷ (5, codes "load access fault")
    ∷ (6, codes "store/AMO address misaligned")
    ∷ (7, codes "store/AMO access fault")
    ∷ (11, codes "environment call from M-mode")
    ∷ []

-- Bit 31 is an interrupt.
unfoldable pub trap_cause_name : ℕ → Bytes
unfolding switch
trap_cause_name mcause =
    if mcause / 2 ^ 31 % 2 == 1
    then codes "interrupt (unexpected -- mie should be clear)"
    else switch causes (codes "unknown") mcause

abbrev pub reasons : List (ℕ × Bytes)
reasons =
    (0x01, codes "power-on")
    ∷ (0x03, codes "software (core)")
    ∷ (0x05, codes "deep sleep / PMU power down")
    ∷ (0x07, codes "MWDT (core)")
    ∷ (0x09, codes "RWDT (core)")
    ∷ (0x0B, codes "MWDT (CPU)")
    ∷ (0x0C, codes "software (CPU)")
    ∷ (0x0D, codes "RWDT (CPU)")
    ∷ (0x0F, codes "BROWNOUT -- VDD sagged")
    ∷ (0x10, codes "RWDT (system)")
    ∷ (0x12, codes "super watchdog")
    ∷ (0x13, codes "power glitch")
    ∷ (0x14, codes "eFuse CRC error")
    ∷ (0x16, codes "USB JTAG")
    ∷ (0x17, codes "USB UART")
    ∷ (0x18, codes "JTAG reset command")
    ∷ (0x1A, codes "CPU LOCKUP -- fault inside the fault handler")
    ∷ (0x1B, codes "power supply glitch (>50ns)")
    ∷ []

unfoldable pub p4_reset_reason_name : ℕ → Bytes
unfolding switch
p4_reset_reason_name r = switch reasons (codes "unknown") r
