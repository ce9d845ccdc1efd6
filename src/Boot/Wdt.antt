-- ===== src/Boot/Wdt.antt =====
-- `p4_wdt_disable_all` of bootloader/p4/p4_wdt.c.
pub mod Off
use esp32_p4_linux.Common.{ℕ, List, [], ◌∷◌}
use esp32_p4_linux.Boot.Regs.{Bus, Access, modify, store, bit_on, bit_off, run}

-- `WDT_WKEY_VALUE`
abbrev pub wkey : ℕ
wkey = 0x50D83AA1

-- The super-watchdog, the LP watchdog and TIMG0's.
pub data Dog : Type 0 where
  swd lp timg0 : Dog

abbrev pub config_of : Dog → ℕ
config_of swd = 0x5011601C
config_of lp = 0x50116000
config_of timg0 = 0x500C2048

abbrev pub wprotect_of : Dog → ℕ
wprotect_of swd = 0x50116020
wprotect_of lp = 0x50116018
wprotect_of timg0 = 0x500C2064

unfoldable pub disable_steps : List Access
unfolding bit_on bit_off
disable_steps =
    store (wprotect_of swd) wkey
    ∷ modify (config_of swd) (bit_on 18 ∷ [])
    ∷ store (wprotect_of swd) 0
    ∷ store (wprotect_of lp) wkey
    ∷ modify (config_of lp) (bit_off 12 ∷ [])
    ∷ modify (config_of lp) (bit_off 31 ∷ [])
    ∷ store (wprotect_of lp) 0
    ∷ store (wprotect_of timg0) wkey
    ∷ modify (config_of timg0) (bit_off 14 ∷ [])
    ∷ modify (config_of timg0) (bit_off 31 ∷ [])
    ∷ store (wprotect_of timg0) 0
    ∷ []

unfoldable pub p4_wdt_disable_all : {W : Type 0} → Bus W → W → W
unfolding run disable_steps
p4_wdt_disable_all bus w = run bus disable_steps w
