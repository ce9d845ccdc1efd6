-- ===== src/Boot/Rom.antt =====
-- What bootloader/p4/p4_flash.c uses of the ROM and of the vendored MSPI code: parameters, with
-- the behaviour that their headers document.
use esp32_p4_linux.Common.{ℕ, ◌+◌, ◌%◌, ◌≤◌, ◌≡◌, Bool, true, ◌++◌, [], Bytes}
use esp32_p4_linux.Boot.Memory.{Mem, read_bytes}

-- The ROM's flash routines over a state `W` of the flash controller.
pub record Rom (W : Type 0) : Type 0 where
  -- `g_rom_flashchip.chip_size`
  pub chip_size : W → ℕ
  pub set_chip_size : ℕ → W → W
  -- `mspi_timing_enter_low_speed_mode(true)`
  pub enter_low_speed_mode : W → W
  -- `esp_rom_spiflash_read(offset, dest, len)`: whether the result is OK, and the bytes that the
  -- call stored from `dest` on.
  pub read : W → ℕ → ℕ → Bool × Bytes × W
  -- `esp_rom_crc32_le(crc, buf, len)`
  pub crc32 : ℕ → Bytes → ℕ

-- A flash that holds `image` and is read the way the ROM documents it: every aligned read below
-- the chip size delivers the bytes of the image; the CRC can be chained.
pub record IsStable {W : Type 0} (rom : Rom W) (image : Mem) : Type 0 where
  pub read-ok :
      (w : W) (offset len : ℕ)
      → offset % 4 ≡ 0
      → len % 4 ≡ 0
      → offset + len ≤ rom.chip_size w
      → (rom.read w offset len).0 ≡ true
  pub read-bytes :
      (w : W) (offset len : ℕ)
      → offset % 4 ≡ 0
      → len % 4 ≡ 0
      → offset + len ≤ rom.chip_size w
      → (rom.read w offset len).1 ≡ read_bytes image offset len
  pub chip_size-read :
      (w : W) (offset len : ℕ) → rom.chip_size (rom.read w offset len).2 ≡ rom.chip_size w
  pub chip_size-set : (n : ℕ) (w : W) → rom.chip_size (rom.set_chip_size n w) ≡ n
  pub crc32-append :
      (crc : ℕ) (xs ys : Bytes) → rom.crc32 (rom.crc32 crc xs) ys ≡ rom.crc32 crc (xs ++ ys)
  pub crc32-nil : rom.crc32 0 [] ≡ 0
