-- ===== src/Boot/Flash.antt =====
-- Reading, checking and copying flash: bootloader/p4/p4_flash.c less its partition table.
-- Console output is left out. A buffer's contents are values, and its address an argument.
pub mod Read
pub mod Crc
pub mod Copy
use esp32_p4_linux.Common.{
  ℕ, zero, suc, ◌+◌, ◌-◌, ◌*◌, ◌/◌, ◌%◌, ◌^◌, min, Bool, true, false, not, ◌&&◌, ◌||◌, Option, none,
  some, ltb, ◌==◌, if◌then◌else◌, Bytes, List, [], ◌∷◌, take,
}
use esp32_p4_linux.Boot.Memory.{Mem, read_bytes, write_bytes}
use esp32_p4_linux.Boot.Rom.{Rom}

-- `P4_FLASH_SIZE`, `sizeof(s_buf)` and the range of `uint32_t`
abbrev pub flash_size : ℕ
flash_size = 16 * 1024 * 1024

abbrev pub buf_size : ℕ
buf_size = 4096

abbrev pub u32_mod : ℕ
u32_mod = 2 ^ 32

-- `n & 3u`
abbrev pub unaligned : ℕ → Bool
unaligned n = not (n % 4 == 0)

-- `(n + 3u) & ~3u`
abbrev pub round_up : ℕ → ℕ
round_up n = (n + 3) / 4 * 4

-- Cache maintenance that the copy requests, in order.
pub data CacheOp : Type 0 where
  writeback : ℕ → ℕ → CacheOp
  invalidate : ℕ → ℕ → CacheOp

module _ {W : Type 0} (rom : Rom W) where
  pub p4_flash_init : W → Bool × W
  p4_flash_init w =
      let w' = rom.set_chip_size flash_size (rom.enter_low_speed_mode w) in
      (rom.chip_size w' == flash_size, w')

  -- Whether the read succeeded, and what it stored from `dest` on.
  pub p4_flash_read : W → ℕ → ℕ → ℕ → Bool × Bytes × W
  p4_flash_read w offset dest len =
      if unaligned offset || unaligned len || unaligned dest
      then (false, [], w)
      else rom.read w offset len

  -- `s_buf` is the address of the static buffer. `none` is a failed read.
  pub crc_loop : ℕ → ℕ → W → ℕ → ℕ → ℕ → ℕ → Option ℕ × W
  crc_loop s_buf zero w offset len done crc = (none, w)
  crc_loop s_buf (suc fuel) w offset len done crc =
      let want = min (len - done) buf_size in
      let (good, buf, w') = p4_flash_read w ((offset + done) % u32_mod) s_buf (round_up want) in
      let rest = crc_loop s_buf fuel w' offset len (done + want) (rom.crc32 crc (take want buf)) in
      if ltb done len then (if good then rest else (none, w')) else (some crc, w)

  -- Rounds of the loops over `len` bytes, with one for the final test.
  abbrev pub rounds : ℕ → ℕ
  rounds len = suc (len / buf_size + 1)

  -- `out_crc` is not null in any call.
  pub p4_flash_crc32 : ℕ → W → ℕ → ℕ → Option ℕ × W
  p4_flash_crc32 s_buf w offset len =
      if unaligned offset then (none, w) else crc_loop s_buf (rounds len) w offset len 0 0

  pub p4_mem_crc32 : Mem → ℕ → ℕ → ℕ
  p4_mem_crc32 mem addr len = rom.crc32 0 (read_bytes mem addr len)

  pub copy_loop : ℕ → W → Mem → ℕ → ℕ → ℕ → ℕ → Bool × W × Mem
  copy_loop zero w mem offset len dest done = (false, w, mem)
  copy_loop (suc fuel) w mem offset len dest done =
      let want = min (len - done) buf_size in
      let (good, buf, w') = p4_flash_read w ((offset + done) % u32_mod) (dest + done) want in
      let mem' = write_bytes mem (dest + done) buf in
      let rest = copy_loop fuel w' mem' offset len dest (done + want) in
      if ltb done len then (if good then rest else (false, w', mem')) else (true, w, mem)

  -- The result, the new states, and the cache operations that follow a complete copy.
  pub p4_flash_copy : W → Mem → ℕ → ℕ → ℕ → Bool × W × Mem × List CacheOp
  p4_flash_copy w mem offset len dest =
      if unaligned dest || unaligned offset
      then (false, w, mem, [])
      else let (good, w', mem') = copy_loop (rounds len) w mem offset len dest 0 in
        if good
        then (true, w', mem', writeback dest len ∷ invalidate dest len ∷ [])
        else (false, w', mem', [])

  -- 64 KB of the kernel partition, twice.
  pub p4_flash_selftest : ℕ → W → Bool × W
  p4_flash_selftest s_buf w =
      let (a, w') = p4_flash_crc32 s_buf w 0x20000 0x10000 in
      let (b, w'') = p4_flash_crc32 s_buf w' 0x20000 0x10000 in
      elim a [
        | none ↦ (false, w')
        | some x ↦ elim b [ none ↦ (false, w'') | some y ↦ (x == y, w'') ]
      ]
