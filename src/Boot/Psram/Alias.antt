-- ===== src/Boot/Psram/Alias.antt =====
-- `p4_psram_alias_test` of bootloader/p4/p4_psram.c against the kinds of window that the second
-- address can be.
use esp32_p4_linux.Common.{
  ℕ, ◌+◌, ◌≡◌, ◌≢◌, refl, Bool, true, false, Option, none, some, ◌==◌, if◌then◌else◌, arith,
}
use esp32_p4_linux.Boot.Psram.{Ram, vaddr, non_cacheable_offset, p4_psram_alias_test}

-- Past the cache to the same memory; past the cache, which is written through; through the cache
-- itself; other memory.
pub data Window : Type 0 where
  bypassing written_through also_cached elsewhere : Window

-- One word of PSRAM: the chip, the line of the cache that holds it if one does, and the word that
-- a window elsewhere reaches.
pub record Word : Type 0 where
  pub chip : ℕ
  pub line : Option ℕ
  pub other : ℕ

abbrev pub cached_load : Word → ℕ × Word
cached_load s = elim s.line [ none ↦ (s.chip, record s { line = some s.chip }) | some v ↦ (v, s) ]

abbrev pub cached_store : Window → ℕ → Word → Word
cached_store written_through v s = record s { chip = v; line = some v }
cached_store _ v s = record s { line = some v }

abbrev pub window_load : Window → Word → ℕ × Word
window_load bypassing s = (s.chip, s)
window_load written_through s = (s.chip, s)
window_load also_cached s = cached_load s
window_load elsewhere s = (s.other, s)

abbrev pub window_store : Window → ℕ → Word → Word
window_store bypassing v s = record s { chip = v }
window_store written_through v s = record s { chip = v }
window_store also_cached v s = cached_store also_cached v s
window_store elsewhere v s = record s { other = v }

-- The two addresses of the test.
abbrev pub through : Window → Ram Word
through k = record {
  load = λ a s.
      if a == vaddr + 0x00100000 + non_cacheable_offset then window_load k s else cached_load s;
  store = λ a v s.
      if a == vaddr + 0x00100000 + non_cacheable_offset
      then window_store k v s
      else cached_store k v s;
}

abbrev pub is_bypassing : Window → Bool
is_bypassing bypassing = true
is_bypassing _ = false

-- With the word in no line of the cache, and not by chance equal to the first value written, the
-- test tells a window past a write-back cache from the three others.
pub p4_psram_alias_test-bypassing :
    (k : Window) (s : Word)
    → s.line ≡ none
    → s.chip ≢ 0x11111111
    → (p4_psram_alias_test (through k) s).0 ≡ is_bypassing k
unfolding p4_psram_alias_test
p4_psram_alias_test-bypassing bypassing s h differs = rw h refl
p4_psram_alias_test-bypassing written_through s h differs = rw h refl
p4_psram_alias_test-bypassing also_cached s h differs = refl
p4_psram_alias_test-bypassing elsewhere s h differs =
    let other : (s.chip == 0x11111111) ≡ false = ground (arith, differs) in rw (h, other) refl
