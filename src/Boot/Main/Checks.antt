-- ===== src/Boot/Main/Checks.antt =====
-- `main` of bootloader/main.c jumps to Linux only after every check has passed, in their order. What
-- happens is told by the hardware's state and memory alone, not by the log of Boot/Main.
use esp32_p4_linux.Common.{
  ℕ, ◌≡◌, inl, inr, true, some, List, [], ◌∷◌, ◌++◌, ◌==◌, Bool-cases, Option-cases, ==_iff,
  if◌then◌else◌,
}
use esp32_p4_linux.Boot.Memory.{Mem}
use esp32_p4_linux.Boot.Rom.{Rom}
use esp32_p4_linux.Boot.Flash.{
  p4_flash_init, p4_flash_selftest, p4_flash_crc32, p4_flash_copy, p4_mem_crc32,
}
use esp32_p4_linux.Boot.Partition.{Partition, p4_part_find, p4_part_dump}
use esp32_p4_linux.Boot.Main.{
  Board, Halt, Machine, Stage, halted, went, jumped, start, check_flash, locate, sum,
  bring_up_memory, load, devices, load_all, survey, main, prepare, kernel_pa, dtb_pa, console_baud,
  xtal_hz, cpu_mhz, and_then, hand_over,
}

-- A stage that goes on only with what `Q` says.
abbrev Only : {W A : Type 0} → Stage W A → (A → Machine W → Type 0) → Type 0
Only (halted h m) Q = Unit
Only (went a m) Q = Q a m

Only-and_then :
    {W A B : Type 0} (s : Stage W A) (f : A → Machine W → Stage W B) (P : A → Machine W → Type 0)
    (Q : B → Machine W → Type 0)
    → Only s P
    → ((a : A) (m : Machine W) → P a m → Only (f a m) Q)
    → Only (and_then s f) Q
unfolding and_then
Only-and_then (halted h m) f P Q p k = tt
Only-and_then (went a m) f P Q p k = k a m p

Only-weaken :
    {W A : Type 0} (s : Stage W A) (P Q : A → Machine W → Type 0)
    → Only s P
    → ((a : A) (m : Machine W) → P a m → Q a m)
    → Only s Q
Only-weaken (halted h m) P Q p k = tt
Only-weaken (went a m) P Q p k = k a m p

-- What main does, one call of a driver or one test at a time.
pub data Deed : Type 0 where
  watchdogs analog baud sizes repeats lists clocks caches raises aliases card probes mac flushes :
      Deed
  finds : ℕ → Partition → Deed
  sums : Partition → ℕ → Deed
  trains tests : ℕ → Deed
  copies : Partition → ℕ → Deed
  verifies : Partition → ℕ → ℕ → Deed

module _ {W : Type 0} (rom : Rom W) (board : Board W) (s_buf buf : ℕ) where
  -- The check that a deed makes of the state it finds; the others may fail or cannot.
  abbrev pub Passes : Deed → W → Mem → Type 0
  Passes sizes w mem = (p4_flash_init rom w).0 ≡ true
  Passes repeats w mem = (p4_flash_selftest rom s_buf w).0 ≡ true
  Passes (finds type p) w mem = (p4_part_find rom buf w type 0).0 ≡ some p
  Passes (sums p crc) w mem = (p4_flash_crc32 rom s_buf w p.offset p.size).0 ≡ some crc
  Passes (trains bytes) w mem = (board.psram_init w).0 ≡ some bytes
  Passes (tests bytes) w mem = (board.psram_test bytes w mem).0 ≡ true
  Passes (copies p dest) w mem = (p4_flash_copy rom w mem p.offset p.size dest).0 ≡ true
  Passes (verifies p dest crc) w mem = p4_mem_crc32 rom mem dest p.size ≡ crc
  Passes _ w mem = Unit

  -- The state behind a deed.
  abbrev pub after : Deed → W → Mem → W × Mem
  after watchdogs w mem = (board.wdt_disable_all w, mem)
  after analog w mem = (board.analog_init w, mem)
  after baud w mem = ((board.uart0_set_baud console_baud xtal_hz w).1, mem)
  after sizes w mem = ((p4_flash_init rom w).1, mem)
  after repeats w mem = ((p4_flash_selftest rom s_buf w).1, mem)
  after lists w mem = ((p4_part_dump rom buf w).1, mem)
  after clocks w mem = (board.clk_init w, mem)
  after caches w mem = (board.cache_init w, mem)
  after raises w mem = ((board.cpu_set_mhz cpu_mhz w).1, mem)
  after aliases w mem = board.psram_alias_test w mem
  after card w mem = ((board.sdmmc_init w).1, mem)
  after probes w mem = (board.emac_refclk_probe w, mem)
  after mac w mem =
      let (good, w') = board.emac_init w in (if good then board.emac_mdio_scan w' else w', mem)
  after flushes w mem = (board.cache_writeback_all w, mem)
  after (finds type p) w mem = ((p4_part_find rom buf w type 0).1, mem)
  after (sums p crc) w mem = ((p4_flash_crc32 rom s_buf w p.offset p.size).1, mem)
  after (trains bytes) w mem = ((board.psram_init w).1, mem)
  after (tests bytes) w mem = let (good, w', mem') = board.psram_test bytes w mem in (w', mem')
  after (copies p dest) w mem =
      let (good, w', mem', ops) = p4_flash_copy rom w mem p.offset p.size dest in (w', mem')
  after (verifies p dest crc) w mem = (w, mem)

  -- From one state to another by deeds, each of which passes.
  pub data Goes : List Deed → W → Mem → W → Mem → Type 0 where
    stays : {w : W} {mem : Mem} → Goes [] w mem w mem
    does :
        {d : Deed} {ds : List Deed} {w w' : W} {mem mem' : Mem}
        → Passes d w mem
        → Goes ds (after d w mem).0 (after d w mem).1 w' mem'
        → Goes (d ∷ ds) w mem w' mem'

  abbrev Went : List Deed → Machine W → Machine W → Type 0
  Went ds m m' = Goes ds m.hw m.mem m'.hw m'.mem

  Goes-append :
      {xs ys : List Deed} {w w' w'' : W} {mem mem' mem'' : Mem}
      → Goes xs w mem w' mem'
      → Goes ys w' mem' w'' mem''
      → Goes (xs ++ ys) w mem w'' mem''
  Goes-append stays k = k
  Goes-append (does p h) k = does p (Goes-append h k)

  -- The deeds of the stages.
  abbrev flash_checked : List Deed
  flash_checked = sizes ∷ repeats ∷ lists ∷ []

  abbrev pub surveyed : Partition → Partition → ℕ → ℕ → List Deed
  surveyed kernel dtb kernel_crc dtb_crc =
      (watchdogs ∷ analog ∷ baud ∷ sizes ∷ repeats ∷ lists ∷ [])
      ++ (finds 0x40 kernel ∷ finds 0x41 dtb ∷ sums kernel kernel_crc ∷ sums dtb dtb_crc ∷ [])

  abbrev pub brought_up : ℕ → List Deed
  brought_up bytes = clocks ∷ caches ∷ trains bytes ∷ raises ∷ tests bytes ∷ aliases ∷ []

  abbrev pub loaded : Partition → Partition → ℕ → ℕ → List Deed
  loaded kernel dtb kernel_crc dtb_crc =
      copies kernel kernel_pa
      ∷ verifies kernel kernel_pa kernel_crc
      ∷ copies dtb dtb_pa
      ∷ verifies dtb dtb_pa dtb_crc
      ∷ card
      ∷ probes
      ∷ mac
      ∷ flushes
      ∷ []

  check_flash-Only :
      (m : Machine W) → Only (check_flash rom board s_buf buf m) (λ _ m'. Went flash_checked m m')
  unfolding check_flash
  check_flash-Only m =
      let w = (p4_flash_init rom m.hw).1 in
      elim (Bool-cases (p4_flash_init rom m.hw).0) [
        | inr unsized ↦ rw unsized tt
        | inl sized ↦ rw sized (elim (Bool-cases (p4_flash_selftest rom s_buf w).0) [
          | inl same ↦ rw same (does sized (does same (does tt stays)))
          | inr differs ↦ rw differs tt
        ])
      ]

  locate-Only :
      (type : ℕ) (h : Halt) (m : Machine W)
      → Only (locate rom board s_buf buf type h m) (λ p m'. Went (finds type p ∷ []) m m')
  unfolding locate
  locate-Only type h m = elim (Option-cases (p4_part_find rom buf m.hw type 0).0) [
    | inl missing ↦ rw (missing, locate) tt
    | inr (p, found) ↦ rw (found, locate) (does found stays)
  ]

  sum-Only :
      (h : Halt) (p : Partition) (m : Machine W)
      → Only (sum rom board s_buf buf h p m) (λ crc m'. Went (sums p crc ∷ []) m m')
  unfolding sum
  sum-Only h p m = elim (Option-cases (p4_flash_crc32 rom s_buf m.hw p.offset p.size).0) [
    | inl unread ↦ rw (unread, sum) tt
    | inr (crc, read) ↦ rw (read, sum) (does read stays)
  ]

  load-Only :
      (g h : Halt) (p : Partition) (dest crc : ℕ) (m : Machine W)
      → Only (load rom board s_buf buf g h p dest crc m) (λ _ m'.
        Went (copies p dest ∷ verifies p dest crc ∷ []) m m'
        × (p4_mem_crc32 rom m'.mem dest p.size ≡ crc))
  unfolding load
  load-Only g h p dest crc m =
      let r = p4_flash_copy rom m.hw m.mem p.offset p.size dest in
      elim (Bool-cases r.0) [
        | inr bad ↦ rw bad tt
        | inl good ↦ rw good (elim (Bool-cases (p4_mem_crc32 rom r.2 dest p.size == crc)) [
          | inr differs ↦ rw differs tt
          | inl same ↦ let e = (==_iff _ _).0 same in rw same (does good (does e stays), e)
        ])
      ]

  bring_up_memory-Only :
      (m : Machine W)
      → Only (bring_up_memory rom board s_buf buf m) (λ bytes m'. Went (brought_up bytes) m m')
  unfolding bring_up_memory
  bring_up_memory-Only m =
      let r = board.psram_init (board.cache_init (board.clk_init m.hw)) in
      elim (Option-cases r.0) [
        | inl none_there ↦ rw (none_there, bring_up_memory) tt
        | inr (bytes, mapped) ↦
            let c = board.cpu_set_mhz cpu_mhz r.1 in
            rw (mapped, bring_up_memory)
              (elim (Bool-cases (board.psram_test bytes c.1 m.mem).0) [
                | inr bad ↦ rw bad tt
                | inl good ↦
                    rw good (does tt (does tt (does mapped (does tt (does good (does tt stays))))))
              ])
      ]

  abbrev Surveyed : Machine W → Partition × Partition × ℕ × ℕ → Machine W → Type 0
  Surveyed m (kernel, dtb, kernel_crc, dtb_crc) m' =
      Went (surveyed kernel dtb kernel_crc dtb_crc) m m'

  survey-Only : (m : Machine W) → Only (survey rom board s_buf buf m) (Surveyed m)
  unfolding survey start
  survey-Only m =
      let m₀ = start rom board s_buf buf m in
      Only-and_then _ _ (λ _ m'. Went flash_checked m₀ m') (Surveyed m) (check_flash-Only m₀)
        (λ _ m₁ e₁.
          Only-and_then _ _ (λ p m'. Went (finds 0x40 p ∷ []) m₁ m') (Surveyed m)
            (locate-Only 0x40 _ m₁)
            (λ kernel m₂ e₂.
              Only-and_then _ _ (λ p m'. Went (finds 0x41 p ∷ []) m₂ m') (Surveyed m)
                (locate-Only 0x41 _ m₂)
                (λ dtb m₃ e₃.
                  Only-and_then _ _ (λ k m'. Went (sums kernel k ∷ []) m₃ m') (Surveyed m)
                    (sum-Only _ kernel m₃)
                    (λ k m₄ e₄.
                      Only-and_then _ _ (λ d m'. Went (sums dtb d ∷ []) m₄ m') (Surveyed m)
                        (sum-Only _ dtb m₄)
                        (λ d m₅ e₅.
                          let all =
                            Goes-append e₁ (Goes-append e₂ (Goes-append e₃ (Goes-append e₄ e₅))) in
                          does tt (does tt (does tt all)))))))

  -- Loaded, with the CRC of the device tree in memory as it was taken.
  abbrev Loaded : Partition → Partition → ℕ → ℕ → Machine W → Unit {0} → Machine W → Type 0
  Loaded kernel dtb kernel_crc dtb_crc m _ m' =
      Went (loaded kernel dtb kernel_crc dtb_crc) m m'
      × (p4_mem_crc32 rom m'.mem dtb_pa dtb.size ≡ dtb_crc)

  abbrev Copied : Partition → ℕ → ℕ → Machine W → Unit {0} → Machine W → Type 0
  Copied p dest crc m _ m' =
      Went (copies p dest ∷ verifies p dest crc ∷ []) m m'
      × (p4_mem_crc32 rom m'.mem dest p.size ≡ crc)

  load_all-Only :
      (kernel dtb : Partition) (kernel_crc dtb_crc : ℕ) (m : Machine W)
      → Only
          (load_all rom board s_buf buf kernel dtb kernel_crc dtb_crc m)
          (Loaded kernel dtb kernel_crc dtb_crc m)
  unfolding load_all devices
  load_all-Only kernel dtb k d m =
      Only-and_then _ _ (Copied kernel kernel_pa k m) (Loaded kernel dtb k d m)
        (load-Only _ _ kernel kernel_pa k m)
        (λ _ m₁ h₁.
          Only-and_then _ _ (Copied dtb dtb_pa d m₁) (Loaded kernel dtb k d m)
            (load-Only _ _ dtb dtb_pa d m₁)
            (λ _ m₂ h₂.
              let rest : Went (card ∷ probes ∷ mac ∷ flushes ∷ []) m₂
                  (devices rom board s_buf buf m₂) =
                does tt (does tt (does tt (does tt stays))) in
              (Goes-append h₁.0 (Goes-append h₂.0 rest), h₂.1)))

  -- From the reset to the jump by deeds that pass, in this order.
  abbrev pub Checked : Machine W → Machine W → Type 0
  Checked m m' =
      (kernel : Partition) × (dtb : Partition) × (kernel_crc : ℕ) × (dtb_crc : ℕ) × (bytes : ℕ)
      × (Went
            (surveyed kernel dtb kernel_crc dtb_crc
              ++ (brought_up bytes ++ loaded kernel dtb kernel_crc dtb_crc))
            m m'
          × (p4_mem_crc32 rom m'.mem dtb_pa dtb.size ≡ dtb_crc))

  hand_over-Only :
      (s : Stage W Unit) (Q : Unit {0} → Machine W → Type 0) {entry fdt : ℕ} {m' : Machine W}
      → Only s Q
      → hand_over board s ≡ jumped entry fdt m'
      → (entry ≡ kernel_pa) × ((fdt ≡ dtb_pa) × Q tt m')
  unfolding hand_over
  hand_over-Only (halted h m) Q q e = cc
  hand_over-Only (went u m) Q {m'} q e = let same : m ≡ m' = cc in (cc, (cc, rw same at q))

  -- If main jumps, it jumps to the kernel with the device tree, and it has come from the reset to the
  -- jump by these calls and no others, each in the state that the one before has left, each test
  -- passed: the watchdogs, the analog domain and the console; the chip's size, the self test and the
  -- table; both partitions found and their CRCs taken from flash; the clock tree and the caches, the
  -- training of PSRAM, then the CPU's clock, then the test of PSRAM and the look at its alias; each
  -- partition copied, and its CRC in memory that taken from flash; the SD slot, the Ethernet MAC, and
  -- the caches written back. The device tree in memory has its CRC at the jump. The console's speed,
  -- the clock, the SD slot and the MAC alone may have failed. This holds of every flash and board.
  pub main_checks :
      (m m' : Machine W) {entry fdt : ℕ}
      → main rom board s_buf buf m ≡ jumped entry fdt m'
      → (entry ≡ kernel_pa) × ((fdt ≡ dtb_pa) × Checked m m')
  unfolding main prepare
  main_checks m m' h =
      hand_over-Only _ (λ _ m'. Checked m m')
        (Only-and_then _ _ (Surveyed m) (λ _ m'. Checked m m') (survey-Only m)
          (λ found m₁ h₁.
            let (kernel, dtb, k, d) = found in
            Only-and_then _ _ (λ bytes m'. Went (brought_up bytes) m₁ m') (λ _ m'. Checked m m')
              (bring_up_memory-Only m₁)
              (λ bytes m₂ h₂.
                Only-weaken _ (Loaded kernel dtb k d m₂) (λ _ m'. Checked m m')
                  (load_all-Only kernel dtb k d m₂)
                  (λ _ m₃ h₃.
                    (kernel, dtb, k, d, bytes, (Goes-append h₁ (Goes-append h₂ h₃.0), h₃.1))))))
        h
