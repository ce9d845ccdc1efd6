-- ===== src/Boot/Flash/Read.antt =====
-- A stable flash under `p4_flash_read`.
use esp32_p4_linux.Common.{
  ℕ, zero, suc, ◌+◌, ◌%◌, ◌≤◌, ◌≡◌, refl, ap, ◌∙◌, true, arith, ◌++◌, ◌∷◌, take, length,
}
use esp32_p4_linux.Boot.Memory.{Mem, read_bytes}
use esp32_p4_linux.Boot.Rom.{Rom, IsStable}
use esp32_p4_linux.Boot.Flash.{p4_flash_read}

pub read_bytes-cast : (m : Mem) {a b k n : ℕ} → a ≡ b → k ≡ n → read_bytes m a k ≡ read_bytes m b n
read_bytes-cast m e f = rw (e, f)

pub read_bytes-add :
    (m : Mem) (a k n : ℕ) → read_bytes m a (k + n) ≡ read_bytes m a k ++ read_bytes m (a + k) n
read_bytes-add m a zero n = read_bytes-cast m (omega arith) (omega arith)
read_bytes-add m a (suc k) n =
    read_bytes-cast m {a = a} {b = a} {k = suc k + n} {n = suc (k + n)} refl (omega arith)
    ∙ ap (◌∷◌ (m a)) (
        read_bytes-add m (a + 1) k n
        ∙ ap (λ t. read_bytes m (a + 1) k ++ t) (read_bytes-cast m (omega arith) refl))

pub take-read_bytes : (m : Mem) (a k n : ℕ) → k ≤ n → take k (read_bytes m a n) ≡ read_bytes m a k
take-read_bytes m a zero n h = refl
take-read_bytes m a (suc k) zero h = absurd (omega arith)
take-read_bytes m a (suc k) (suc n) h = ap (◌∷◌ (m a)) (take-read_bytes m (a + 1) k n (omega arith))

pub length-read_bytes : (m : Mem) (a n : ℕ) → length (read_bytes m a n) ≡ n
length-read_bytes m a zero = refl
length-read_bytes m a (suc n) = ap suc (length-read_bytes m (a + 1) n)

module _ {W : Type 0} {rom : Rom W} {image : Mem} (stable : IsStable rom image) where
  pub p4_flash_read-stable :
      (w : W) (offset dest len : ℕ)
      → offset % 4 ≡ 0
      → dest % 4 ≡ 0
      → len % 4 ≡ 0
      → offset + len ≤ rom.chip_size w
      → ((p4_flash_read rom w offset dest len).0 ≡ true)
        × ((p4_flash_read rom w offset dest len).1 ≡ read_bytes image offset len)
        × (rom.chip_size (p4_flash_read rom w offset dest len).2 ≡ rom.chip_size w)
  unfolding p4_flash_read
  p4_flash_read-stable w offset dest len ho hd hl fits = ground (
    arith,
    stable.read-ok w offset len,
    stable.read-bytes w offset len,
    stable.chip_size-read w offset len,
  )

pub p4_flash_read-size :
    {W : Type 0} {rom : Rom W} {image : Mem} (stable : IsStable rom image) (w : W)
    (offset dest len : ℕ)
    → rom.chip_size (p4_flash_read rom w offset dest len).2 ≡ rom.chip_size w
unfolding p4_flash_read
p4_flash_read-size stable w offset dest len = ground (arith, stable.chip_size-read w offset len)
