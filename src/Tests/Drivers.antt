-- ===== src/Tests/Drivers.antt =====
-- The drivers of bootloader/p4 on concrete hardware, and bootloader/main.c with them.
use esp32_p4_linux.Common.{
  ℕ, ◌+◌, ◌-◌, ◌/◌, ◌%◌, ◌^◌, ◌≤◌, ◌<◌, ◌≡◌, refl, arith, true, false, Bool, not, ◌||◌, Option,
  none, some, ◌==◌, if◌then◌else◌, codes,
}
use esp32_p4_linux.Boot.Regs.{Bus}
use esp32_p4_linux.Boot.Ldo.{LdoLl, RtcClk, Clocks, esp_clk_tree_mpll_acquire}
use esp32_p4_linux.Boot.Ldo.Order.{Rail, IsRails, settled, esp_clk_tree_mpll_acquire-powered}
use esp32_p4_linux.Boot.Wdt.{Dog, swd, lp, timg0, config_of, wprotect_of, p4_wdt_disable_all}
use esp32_p4_linux.Boot.Wdt.Off.{
  Guarded, same, configured, protected, IsGuarded, Off, p4_wdt_disable_all-Off,
}
use esp32_p4_linux.Boot.Psram.{
  Chip, Ram, vaddr, word_at, p4_psram_init, p4_psram_test, p4_psram_alias_test,
}
use esp32_p4_linux.Boot.Psram.Lines.{
  Decodes, Distinct, p4_psram_test-Distinct, p4_psram_test-reports,
}
use esp32_p4_linux.Boot.Psram.Alias.{bypassing, through, p4_psram_alias_test-bypassing}
use esp32_p4_linux.Boot.Psram.Maps.{IsMmu, Window, IsWindow, Reaches, within, p4_psram_init-Reaches}
use esp32_p4_linux.Boot.Panic.{p4_reset_reason_name}

-- A PSRAM that lets its cells be reached through address lines.
abbrev wired : (ℕ → ℕ) → Ram (ℕ → ℕ)
wired line = record {
  load = λ a s. (s (line a), s);
  store = λ a v s c. if line a == c then v else s c;
}

wired-Decodes : (line : ℕ → ℕ) → Decodes (wired line) (λ s. s) line
wired-Decodes line = record {
  load-cells = λ a s. refl;
  cells-load = λ a c s. refl;
  cells-store = λ a v c s. refl;
}

p4_psram_test-Distinct_example :
    ((p4_psram_test (wired (λ a. a)) 64 (λ c. 0)).0 ≡ true → Distinct (λ a. a) 16)
    × (Distinct (λ a. a) 16 → (p4_psram_test (wired (λ a. a)) 64 (λ c. 0)).0 ≡ true)
p4_psram_test-Distinct_example = p4_psram_test-Distinct (wired-Decodes (λ a. a)) 64 (λ c. 0)

-- With address bit 3 stuck, words 0 and 2 share a cell, and 1 and 3.
abbrev stuck : ℕ → ℕ
stuck a = vaddr + (a - vaddr) % 8

least_shared :
    (k l : ℕ) → k < 16 / 4 → l < 16 / 4 → stuck (word_at k) ≡ stuck (word_at l) → k < l → 0 ≤ k
least_shared k l p q same lt = omega arith

last_shared : (k : ℕ) → k < 16 / 4 → stuck (word_at k) ≡ stuck (word_at 2) → k ≤ 2
unfolding word_at
last_shared k lt same = omega arith

p4_psram_test-reports_example : (p4_psram_test (wired stuck) 16 (λ c. 0)).1 ≡ word_at 0
unfolding word_at
p4_psram_test-reports_example =
    p4_psram_test-reports (wired-Decodes stuck) 16 0 2 (λ c. 0) (omega arith) (omega arith) refl
      least_shared last_shared

p4_psram_alias_test-bypassing_example :
    (p4_psram_alias_test (through bypassing) (record { chip = 0; line = none; other = 0 })).0 ≡ true
p4_psram_alias_test-bypassing_example =
    p4_psram_alias_test-bypassing bypassing (record { chip = 0; line = none; other = 0 }) refl
      (λ q. absurd (omega (arith, q)))

-- A line that the walking test left in the cache hides the first write.
left_in_cache :
    (p4_psram_alias_test (through bypassing) (record { chip = 0; line = some 7; other = 0 })).0
    ≡ false
unfolding p4_psram_alias_test
left_in_cache = refl

-- The MMU, the bus and the cache as functions of the address.
record Mapping : Type 0 where
  maps : ℕ → Option ℕ
  on : ℕ → Bool
  stale : ℕ → Bool

-- A chip of 32 MB and a bit.
abbrev trained : Chip Mapping
trained = record {
  impl_enable = λ w. (0, w);
  physical_size = λ w. (0, 0x2001000);
  map_region = λ v p n w.
      (n, record w { maps = λ a. if within v n a then some (p + (a - v)) else w.maps a });
  enable_bus = λ v n w. record w { on = λ a. if within v n a then true else w.on a };
  invalidate = λ v n w. record w { stale = λ a. if within v n a then false else w.stale a };
}

trained-IsMmu : IsMmu trained
trained-IsMmu = record { map_region-pages = λ v p n w. refl }

abbrev seen : Window Mapping
seen = record { maps = λ w. w.maps; on = λ w. w.on; stale = λ w. w.stale }

trained-IsWindow : IsWindow trained seen
trained-IsWindow = record {
  enable-maps = λ w a. refl;
  enable-on = λ w a. refl;
  region-maps = λ v p n w a. refl;
  region-on = λ v p n w a. refl;
  bus-maps = λ v n w a. refl;
  bus-on = λ v n w a. refl;
  invalidate-maps = λ v n w a. refl;
  invalidate-on = λ v n w a. refl;
  invalidate-stale = λ v n w a inside. rw inside refl;
}

abbrev unmapped : Mapping
unmapped = record { maps = λ a. none; on = λ a. false; stale = λ a. true }

p4_psram_init-Reaches_example :
    let (result, after) = p4_psram_init trained unmapped in
    (true ≡ true → (result ≡ some 0x2000000) × Reaches seen 0x2000000 unmapped after)
    × (true ≡ false
        → (result ≡ none)
          × ((a : ℕ) → (after.maps a ≡ unmapped.maps a) × (after.on a ≡ unmapped.on a)))
p4_psram_init-Reaches_example = p4_psram_init-Reaches trained-IsMmu trained-IsWindow unmapped

-- One supply behind every channel, with channel 9 refused.
abbrev supply : LdoLl Rail
supply = record {
  is_valid_channel = λ chan. if chan == 9 then false else true;
  unit_of = λ chan. chan - 1;
  enable_current_limit = λ u b r. record r { limited = b };
  voltage_to_dref_mul = λ u mv. (mv / 100, 1, false);
  adjust_voltage = λ u dref mul b r. record r { surged = r.surged || not r.limited };
  set_owner_sw = λ u r. record r { by_software = true };
  enable_ripple_suppression = λ u b r. r;
  enable = λ u b r. record r { on = b; surged = r.surged || not r.limited };
}

supply-IsRails : IsRails supply (λ r u. r)
supply-IsRails = record {
  rail-limit = λ u b w. refl;
  rail-adjust = λ u dref mul b w. refl;
  rail-owner = λ u w. refl;
  rail-ripple = λ u b w. refl;
  rail-enable = λ u b w. refl;
}

abbrev cold : Rail
cold = record { on = false; limited = false; surged = false; by_software = false }

abbrev clock_tree : RtcClk Rail ℕ
clock_tree = record {
  xtal_freq_update = λ mhz r. r;
  xtal_get_freq_mhz = λ r. 40;
  mhz_to_config = λ mhz r. if mhz == 400 then none else some mhz;
  set_config = λ cfg r. r;
  get_config = λ r. 360;
  freq_mhz = λ cfg. cfg;
  mpll_enable = λ r. r;
  mpll_disable = λ r. r;
  mpll_configure = λ xtal mpll r. r;
}

abbrev cold_clocks : Clocks Rail
cold_clocks = record { hw = cold; s_mpll_freq_hz = 0 }

esp_clk_tree_mpll_acquire-powered_example :
    let (good, c') = esp_clk_tree_mpll_acquire supply clock_tree cold_clocks in
    (good ≡ true)
    × ((good ≡ true → (w : Rail) × ((c'.hw ≡ w) × (w ≡ settled cold)))
        × (good ≡ false → c' ≡ cold_clocks))
esp_clk_tree_mpll_acquire-powered_example =
    esp_clk_tree_mpll_acquire-powered supply-IsRails clock_tree cold_clocks

-- Three watchdogs with their keys.
abbrev kennel : Bus (Dog → Guarded)
kennel = record {
  read = λ a w. (
    if a == config_of swd
        then (w swd).config
        else if a == config_of lp
        then (w lp).config
        else (w timg0).config,
    w,
  );
  write = λ a v w e.
      if a == config_of e
      then configured v (w e)
      else if a == wprotect_of e
      then protected v (w e)
      else w e;
  delay = λ n w. w;
  connect_out = λ gpio signal w. w;
  connect_in = λ gpio signal w. w;
}

kennel-read : (d : Dog) (w : Dog → Guarded) → (kennel.read (config_of d) w).0 ≡ (w d).config
kennel-read swd w = refl
kennel-read lp w = refl
kennel-read timg0 w = refl

kennel-config :
    (d e : Dog) (v : ℕ) (w : Dog → Guarded)
    → kennel.write (config_of d) v w e ≡ (if same d e then configured v (w e) else w e)
kennel-config swd swd v w = refl
kennel-config swd lp v w = refl
kennel-config swd timg0 v w = refl
kennel-config lp swd v w = refl
kennel-config lp lp v w = refl
kennel-config lp timg0 v w = refl
kennel-config timg0 swd v w = refl
kennel-config timg0 lp v w = refl
kennel-config timg0 timg0 v w = refl

kennel-wprotect :
    (d e : Dog) (v : ℕ) (w : Dog → Guarded)
    → kennel.write (wprotect_of d) v w e ≡ (if same d e then protected v (w e) else w e)
kennel-wprotect swd swd v w = refl
kennel-wprotect swd lp v w = refl
kennel-wprotect swd timg0 v w = refl
kennel-wprotect lp swd v w = refl
kennel-wprotect lp lp v w = refl
kennel-wprotect lp timg0 v w = refl
kennel-wprotect timg0 swd v w = refl
kennel-wprotect timg0 lp v w = refl
kennel-wprotect timg0 timg0 v w = refl

kennel-IsGuarded : IsGuarded kennel (λ w. w)
kennel-IsGuarded = record {
  read-config = kennel-read;
  dog-read = λ d e w. refl;
  dog-write_config = kennel-config;
  dog-write_wprotect = kennel-wprotect;
}

-- The LP watchdog as the ROM leaves it, in flashboot mode and enabled.
abbrev barking : Dog → Guarded
barking d = record { config = 2 ^ 31 + 2 ^ 12; wprotect = 0 }

p4_wdt_disable_all-Off_example :
    let g = p4_wdt_disable_all kennel barking lp in Off lp g.config × (g.wprotect ≡ 0)
p4_wdt_disable_all-Off_example = p4_wdt_disable_all-Off kennel-IsGuarded lp barking (omega arith)

lockup : p4_reset_reason_name 0x0F ≡ codes "BROWNOUT -- VDD sagged"
unfolding p4_reset_reason_name
lockup = refl
