-- ===== src/Boot/Psram.antt =====
-- bootloader/p4/p4_psram.c: mapping the PSRAM and testing it. Console output is left out.
pub mod Pattern
pub mod Lines
pub mod Alias
pub mod Maps
use Prim.Native.Nat.{bit_xor}
use esp32_p4_linux.Common.{
  ℕ, zero, suc, ◌+◌, ◌*◌, ◌/◌, Bool, true, false, ◌&&◌, ◌||◌, not, Option, none, some, ◌==◌,
  if◌then◌else◌,
}

-- `P4_PSRAM_VADDR`, `SOC_MMU_PAGE_SIZE` and `P4_NON_CACHEABLE_OFFSET`
abbrev pub vaddr : ℕ
vaddr = 0x48000000

abbrev pub page_size : ℕ
page_size = 0x10000

abbrev pub non_cacheable_offset : ℕ
non_cacheable_offset = 0x40000000

-- What p4_psram_init calls of the vendored driver and of the HAL.
pub record Chip (W : Type 0) : Type 0 where
  -- `esp_psram_impl_enable`, 0 for `ESP_OK`
  pub impl_enable : W → ℕ × W
  -- `esp_psram_impl_get_physical_size`: the error, and the size
  pub physical_size : W → ℕ × ℕ
  -- `mmu_hal_map_region(1, MMU_TARGET_PSRAM0, vaddr, paddr, len, &mapped)`
  pub map_region : ℕ → ℕ → ℕ → W → ℕ × W
  -- `cache_ll_l1_enable_bus(0, cache_ll_l1_get_bus(0, vaddr, len))`
  pub enable_bus : ℕ → ℕ → W → W
  -- `cache_hal_invalidate_addr(vaddr, len)`
  pub invalidate : ℕ → ℕ → W → W

-- `some` bytes are mapped, or the result is false and 0 bytes are.
unfoldable pub p4_psram_init : {W : Type 0} → Chip W → W → Option ℕ × W
p4_psram_init chip w =
    let (err, w') = chip.impl_enable w in
    let (err', size) = chip.physical_size w' in
    let (mapped, w'') = chip.map_region vaddr 0 (size / page_size * page_size) w' in
    if not (err == 0)
    then (none, w')
    else if not (err' == 0) || size == 0
    then (none, w')
    else if mapped == 0
    then (none, w'')
    else (some mapped, chip.invalidate vaddr mapped (chip.enable_bus vaddr mapped w''))

-- 32-bit loads and stores, as the CPU makes them through the cache.
pub record Ram (S : Type 0) : Type 0 where
  pub load : ℕ → S → ℕ × S
  pub store : ℕ → ℕ → S → S

-- `&mem[i]`
unfoldable pub word_at : ℕ → ℕ
word_at i = vaddr + 4 * i

-- What the test writes at an address.
unfoldable pub pattern : ℕ → ℕ
pattern a = bit_xor a 0xA5A5A5A5

module _ {S : Type 0} (ram : Ram S) where
  -- The first loop: `n` words from index `i` on.
  unfoldable pub fill : ℕ → ℕ → S → S
  unfolding word_at
  fill zero i s = s
  fill (suc n) i s = fill n (i + 1) (ram.store (word_at i) (pattern (word_at i)) s)

  -- The second loop: `bad_count` and `*out_bad_addr` so far are arguments.
  unfoldable pub check : ℕ → ℕ → ℕ → ℕ → S → ℕ × ℕ × S
  unfolding word_at
  check zero i bad_count bad_addr s = (bad_count, bad_addr, s)
  check (suc n) i bad_count bad_addr s =
      let (got, s') = ram.load (word_at i) s in
      let good = got == pattern (word_at i) in
      check n (i + 1) (if good then bad_count else suc bad_count)
        (if good then bad_addr else if bad_count == 0 then word_at i else bad_addr) s'

  -- Whether every word read back, and the first address that did not.
  unfoldable pub p4_psram_test : ℕ → S → Bool × ℕ × S
  unfolding fill check
  p4_psram_test bytes s =
      let words = bytes / 4 in
      let (bad_count, bad_addr, s') = check words 0 0 0 (fill words 0 s) in
      (bad_count == 0, bad_addr, s')

  unfoldable pub p4_psram_alias_test : S → Bool × S
  p4_psram_alias_test s =
      let cached = vaddr + 0x00100000 in
      let uncached = cached + non_cacheable_offset in
      let (cached_sees_alias_write, s) = ram.load cached (ram.store uncached 0x11111111 s) in
      let (alias_sees_cached_write, s) = ram.load uncached (ram.store cached 0x22222222 s) in
      let (alias_reads_own_write, s) = ram.load uncached (ram.store uncached 0x33333333 s) in
      let reaches_same_memory = cached_sees_alias_write == 0x11111111 in
      let bypasses_cache = alias_sees_cached_write == 0x11111111 in
      (reaches_same_memory && bypasses_cache, s)
