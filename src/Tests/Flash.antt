-- ===== src/Tests/Flash.antt =====
-- A flash chip for the theorems on bootloader/p4/p4_flash.c: its state is the chip size.
use esp32_p4_linux.Common.{
  ℕ, ◌+◌, ◌-◌, ◌*◌, ◌%◌, ◌^◌, ◌≤◌, ◌≡◌, refl, arith, true, ◌&&◌, some, [], ◌∷◌, ◌++◌, leb, ltb,
  if◌then◌else◌, Bytes, get_or,
}
use esp32_p4_linux.Boot.Memory.{Mem, read_bytes}
use esp32_p4_linux.Boot.Rom.{Rom, IsStable}
use esp32_p4_linux.Boot.Flash.{p4_flash_crc32, p4_flash_copy, p4_mem_crc32, writeback, invalidate}
use esp32_p4_linux.Boot.Flash.Copy.{copied, p4_flash_copy-stable, p4_flash_copy-crc32}
use esp32_p4_linux.Boot.Partition.{p4_part_find}
use esp32_p4_linux.Boot.Partition.Find.{Finds, p4_part_find-Finds}

-- A checksum that can be chained, in place of the ROM's.
abbrev pub fold_crc : ℕ → Bytes → ℕ
fold_crc crc [] = crc
fold_crc crc (b ∷ bs) = fold_crc ((31 * crc + b) % 2 ^ 32) bs

pub fold_crc-append :
    (crc : ℕ) (xs ys : Bytes) → fold_crc (fold_crc crc xs) ys ≡ fold_crc crc (xs ++ ys)
fold_crc-append crc [] ys = refl
fold_crc-append crc (x ∷ xs) ys = fold_crc-append ((31 * crc + x) % 2 ^ 32) xs ys

-- The kernel entry of partitions.csv, behind an MD5 entry.
abbrev entries : Bytes
entries =
    0xEB ∷ 0xEB ∷ 0 ∷ 0 ∷ 0 ∷ 0 ∷ 0 ∷ 0 ∷ 0 ∷ 0 ∷ 0 ∷ 0 ∷ 0 ∷ 0 ∷ 0 ∷ 0 ∷ 0 ∷ 0 ∷ 0 ∷ 0 ∷ 0 ∷ 0 ∷ 0
    ∷ 0 ∷ 0 ∷ 0 ∷ 0 ∷ 0 ∷ 0 ∷ 0 ∷ 0 ∷ 0 ∷ 0xAA ∷ 0x50 ∷ 0x40 ∷ 0 ∷ 0 ∷ 0 ∷ 2 ∷ 0 ∷ 0 ∷ 0 ∷ 0xC0 ∷ 0
    ∷ []

abbrev image : Mem
image a = if leb 0x8000 a && ltb a 0x802c then get_or entries (a - 0x8000) 0 else a % 251

abbrev chip : Rom ℕ
chip = record {
  chip_size = λ size. size;
  set_chip_size = λ n size. n;
  enter_low_speed_mode = λ size. size;
  read = λ size offset len. (leb (offset + len) size, read_bytes image offset len, size);
  crc32 = fold_crc;
}

pub chip-read : (size offset len : ℕ) → offset + len ≤ size → leb (offset + len) size ≡ true
chip-read size offset len h = ground arith

abbrev chip-IsStable : IsStable chip image
chip-IsStable = record {
  read-ok = λ size offset len _ _ fits. chip-read size offset len fits;
  read-bytes = λ size offset len _ _ _. refl;
  chip_size-read = λ size offset len. refl;
  chip_size-set = λ n size. refl;
  crc32-append = fold_crc-append;
  crc32-nil = refl;
}

abbrev memory : Mem
memory a = 0

abbrev aligned : (◌≡◌ {A = ℕ} (0x100 % 4) 0) × (◌≡◌ {A = ℕ} (8 % 4) 0) × (◌≡◌ {A = ℕ} (0x40 % 4) 0)
aligned = (refl, refl, refl)

p4_flash_copy-stable_example :
    let (good, size, mem, ops) = p4_flash_copy chip 0x10000 memory 0x100 8 0x40 in
    (good ≡ true)
    × (size ≡ 0x10000)
    × ((x : ℕ) → mem x ≡ copied memory image 0x100 0x40 8 x)
    × (ops ≡ writeback 0x40 8 ∷ invalidate 0x40 8 ∷ [])
p4_flash_copy-stable_example =
    p4_flash_copy-stable chip-IsStable 0x10000 memory 0x100 8 0x40 aligned (omega arith)
      (omega arith)

p4_flash_copy-crc32_example :
    let (good, size, mem, ops) = p4_flash_copy chip 0x10000 memory 0x100 8 0x40 in
    (p4_flash_crc32 chip 0 0x20000 0x100 8).0 ≡ some (p4_mem_crc32 chip mem 0x40 8)
p4_flash_copy-crc32_example =
    p4_flash_copy-crc32 chip-IsStable 0x10000 memory 0x100 8 0x40 aligned (omega arith)
      (omega arith) 0 0x20000 refl (omega arith)

copy-succeeds : (p4_flash_copy chip 0x10000 memory 0x100 8 0x40).0 ≡ true
copy-succeeds = p4_flash_copy-stable_example.0

p4_part_find-Finds_example :
    Finds image 0x40 0 (p4_part_find chip 0 0x10000 0x40 0).0
    × ((p4_part_find chip 0 0x10000 0x40 0).1 ≡ 0x10000)
p4_part_find-Finds_example =
    p4_part_find-Finds image 0x40 0 chip-IsStable 0 refl 0x10000 (omega arith)
