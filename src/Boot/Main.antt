-- ===== src/Boot/Main.antt =====
-- `main` of bootloader/main.c, from the watchdogs to the jump. The drivers of the board's other
-- hardware are an interface, `Board`; console output is left out but for what `log` records.
pub mod Checks
pub mod Boots
use esp32_p4_linux.Common.{
  ℕ, ◌≡◌, Bool, true, false, Option, none, some, List, [], ◌∷◌, ◌++◌, ◌==◌, if◌then◌else◌,
}
use esp32_p4_linux.Boot.Memory.{Mem}
use esp32_p4_linux.Boot.Rom.{Rom}
use esp32_p4_linux.Boot.Flash.{
  p4_flash_init, p4_flash_selftest, p4_flash_crc32, p4_flash_copy, p4_mem_crc32,
}
use esp32_p4_linux.Boot.Partition.{Partition, p4_part_find, p4_part_dump}

-- `KERNEL_PA`, `DTB_PA`, `CONSOLE_BAUD`, `XTAL_HZ`, `CPU_MHZ`
abbrev pub kernel_pa : ℕ
kernel_pa = 0x48000000

abbrev pub dtb_pa : ℕ
dtb_pa = 0x49000000

abbrev pub console_baud : ℕ
console_baud = 4000000

abbrev pub xtal_hz : ℕ
xtal_hz = 40000000

abbrev pub cpu_mhz : ℕ
cpu_mhz = 360

-- The drivers that `main` calls, over the hardware's state and, where they write it, memory.
pub record Board (W : Type 0) : Type 0 where
  pub wdt_disable_all : W → W
  pub analog_init : W → W
  pub uart0_set_baud : ℕ → ℕ → W → Bool × W
  pub clk_init : W → W
  pub cache_init : W → W
  -- The bytes that are mapped, if the chip answers.
  pub psram_init : W → Option ℕ × W
  pub cpu_set_mhz : ℕ → W → Bool × W
  pub psram_test : ℕ → W → Mem → Bool × W × Mem
  pub psram_alias_test : W → Mem → W × Mem
  pub sdmmc_init : W → Bool × W
  pub emac_refclk_probe : W → W
  pub emac_init : W → Bool × W
  pub emac_mdio_scan : W → W
  pub cache_writeback_all : W → W

pub data Step : Type 0 where
  watchdogs_off analog_on clk_ready cache_ready psram_tested written_back : Step
  baud_set cpu_set sdmmc_on emac_on : Bool → Step
  psram_mapped : ℕ → Step
  summed : ℕ → Step
  verified : ℕ → Step

-- Why the boot stops, at the endless loops of `main` in their order.
pub data Halt : Type 0 where
  no_chip_size unrepeatable no_kernel no_dtb kernel_unread dtb_unread : Halt
  no_psram psram_bad kernel_uncopied kernel_differs dtb_uncopied dtb_differs : Halt

pub record Machine (W : Type 0) : Type 0 where
  pub hw : W
  pub mem : Mem
  pub log : List Step

-- A stage that goes on with a value, or has halted.
pub data Stage (W A : Type 0) : Type 0 where
  halted : Halt → Machine W → Stage W A
  went : A → Machine W → Stage W A

pub data End (W : Type 0) : Type 0 where
  stopped : Halt → Machine W → End W
  jumped : ℕ → ℕ → Machine W → End W

module _ {W : Type 0} (rom : Rom W) (board : Board W) (s_buf buf : ℕ) where
  -- Watchdogs, analog domain, console: none of them stops the boot.
  pub start : Machine W → Machine W
  start m =
      let (good, hw) =
        board.uart0_set_baud console_baud xtal_hz
          (board.analog_init (board.wdt_disable_all m.hw)) in
      record m { hw = hw; log = m.log ++ (watchdogs_off ∷ analog_on ∷ baud_set good ∷ []) }

  -- Flash is set up and read twice, and the table is printed.
  pub check_flash : Machine W → Stage W Unit
  check_flash m =
      let (sized, w) = p4_flash_init rom m.hw in
      let (repeats, w') = p4_flash_selftest rom s_buf w in
      let (listed, w'', printed) = p4_part_dump rom buf w' in
      if sized
      then (if repeats
          then went tt (record m { hw = w'' })
          else halted unrepeatable (record m { hw = w' }))
      else halted no_chip_size (record m { hw = w })

  -- The partition of a type, with subtype `P4_PART_SUBTYPE_NONE`.
  pub locate : ℕ → Halt → Machine W → Stage W Partition
  locate type missing m =
      let (found, w) = p4_part_find rom buf m.hw type 0 in
      elim found [
        | none ↦ halted missing (record m { hw = w })
        | some p ↦ went p (record m { hw = w })
      ]

  pub sum : Halt → Partition → Machine W → Stage W ℕ
  sum unread p m =
      let (r, w) = p4_flash_crc32 rom s_buf m.hw p.offset p.size in
      elim r [
        | none ↦ halted unread (record m { hw = w })
        | some crc ↦ went crc (record m { hw = w; log = m.log ++ (summed crc ∷ []) })
      ]

  -- The PSRAM is trained, then the clock is raised, then the memory is tested.
  pub bring_up_memory : Machine W → Stage W ℕ
  bring_up_memory m =
      let (mapped, w) = board.psram_init (board.cache_init (board.clk_init m.hw)) in
      let log = m.log ++ (clk_ready ∷ cache_ready ∷ []) in
      elim mapped [
        | none ↦ halted no_psram (record m { hw = w; log = log })
        | some bytes ↦
            let (raised, w') = board.cpu_set_mhz cpu_mhz w in
            let (good, w'', mem) = board.psram_test bytes w' m.mem in
            let (w''', mem') = board.psram_alias_test w'' mem in
            let log' = log ++ (psram_mapped bytes ∷ cpu_set raised ∷ []) in
            if good
            then went bytes (record { hw = w'''; mem = mem'; log = log' ++ (psram_tested ∷ []) })
            else halted psram_bad (record { hw = w''; mem = mem; log = log' })
      ]

  -- A partition is copied, and its CRC in memory compared with the one taken from flash.
  pub load : Halt → Halt → Partition → ℕ → ℕ → Machine W → Stage W Unit
  load uncopied differs p dest crc m =
      let (good, w, mem, ops) = p4_flash_copy rom m.hw m.mem p.offset p.size dest in
      let m' : Machine W = record m { hw = w; mem = mem } in
      let copy_crc = p4_mem_crc32 rom mem dest p.size in
      if good
      then (if copy_crc == crc
          then went tt (record m' { log = m.log ++ (verified copy_crc ∷ []) })
          else halted differs m')
      else halted uncopied m'

  -- The SD slot and the Ethernet MAC: a failure is reported, and the boot goes on.
  pub devices : Machine W → Machine W
  devices m =
      let (sd, w) = board.sdmmc_init m.hw in
      let (emac, w') = board.emac_init (board.emac_refclk_probe w) in
      let w'' = if emac then board.emac_mdio_scan w' else w' in
      record m {
        hw = board.cache_writeback_all w'';
        log = m.log ++ (sdmmc_on sd ∷ emac_on emac ∷ written_back ∷ []);
      }

pub and_then : {W A B : Type 0} → Stage W A → (A → Machine W → Stage W B) → Stage W B
and_then (halted h m) f = halted h m
and_then (went a m) f = f a m

-- The jump, which does not return.
pub hand_over : {W : Type 0} → Board W → Stage W Unit → End W
hand_over board (halted h m) = stopped h m
hand_over board (went u m) = jumped kernel_pa dtb_pa m

module _ {W : Type 0} (rom : Rom W) (board : Board W) (s_buf buf : ℕ) where
  -- Both partitions copied and checked, then the devices.
  pub load_all : Partition → Partition → ℕ → ℕ → Machine W → Stage W Unit
  load_all kernel dtb kernel_crc dtb_crc m =
      and_then
        (load rom board s_buf buf kernel_uncopied kernel_differs kernel kernel_pa kernel_crc m)
        (λ _ m.
          and_then (load rom board s_buf buf dtb_uncopied dtb_differs dtb dtb_pa dtb_crc m)
            (λ _ m. went tt (devices rom board s_buf buf m)))

  -- Everything from flash before PSRAM is trained.
  pub survey : Machine W → Stage W (Partition × Partition × ℕ × ℕ)
  survey m = and_then (check_flash rom board s_buf buf (start rom board s_buf buf m)) (λ _ m.
      and_then (locate rom board s_buf buf 0x40 no_kernel m) (λ kernel m.
        and_then (locate rom board s_buf buf 0x41 no_dtb m) (λ dtb m.
          and_then (sum rom board s_buf buf kernel_unread kernel m) (λ kernel_crc m.
            and_then (sum rom board s_buf buf dtb_unread dtb m)
              (λ dtb_crc m. went (kernel, dtb, kernel_crc, dtb_crc) m)))))

  -- All that comes before the jump.
  pub prepare : Machine W → Stage W Unit
  prepare m = and_then (survey m) (λ found m.
      and_then (bring_up_memory rom board s_buf buf m) (λ bytes m.
        let (kernel, dtb, kernel_crc, dtb_crc) = found in load_all kernel dtb kernel_crc dtb_crc m))

  pub main : Machine W → End W
  main m = hand_over board (prepare m)
