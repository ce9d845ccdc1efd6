-- ===== src/Boot/Flash/Copy.antt =====
-- `p4_flash_copy` on a stable flash: what memory holds afterwards, and its CRC.
use esp32_p4_linux.Common.{
  ℕ, zero, suc, ◌+◌, ◌-◌, ◌*◌, ◌%◌, ◌≤◌, ◌<◌, min, ◌≡◌, refl, sym, ap, ◌∙◌, true, arith, [], ◌∷◌,
  some, inl, inr, ltb, if◌then◌else◌, Bool-cases, ltb→lt,
}
use esp32_p4_linux.Boot.Memory.{Mem, store, read_bytes, write_bytes}
use esp32_p4_linux.Boot.Memory.Moves.{in_range}
use esp32_p4_linux.Boot.Rom.{Rom, IsStable}
use esp32_p4_linux.Boot.Flash.{
  p4_flash_read, copy_loop, rounds, p4_flash_copy, p4_mem_crc32, p4_flash_crc32, buf_size, u32_mod,
  writeback, invalidate,
}
use esp32_p4_linux.Boot.Flash.Read.{p4_flash_read-stable}
use esp32_p4_linux.Boot.Flash.Crc.{p4_flash_crc32-stable}

addr : (m : Mem) (a b : ℕ) → a ≡ b → m a ≡ m b
addr m a b e = rw e

-- What `n` bytes of `image` from `offset` on, written at `dest`, leave at address `x`.
abbrev pub copied : Mem → Mem → ℕ → ℕ → ℕ → ℕ → ℕ
copied mem image offset dest n x = if in_range dest n x then image (offset + (x - dest)) else mem x

write_bytes-copied :
    (image mem : Mem) (offset dest n x : ℕ)
    → write_bytes mem dest (read_bytes image offset n) x ≡ copied mem image offset dest n x
write_bytes-copied image mem offset dest zero x = ground arith
write_bytes-copied image mem offset dest (suc n) x = ground (
  arith,
  write_bytes-copied image (store mem dest (image offset)) (offset + 1) (dest + 1) n x,
  addr image (offset + 1 + (x - (dest + 1))) (offset + (x - dest)),
  addr image offset (offset + (x - dest)),
)

read_bytes_agree :
    (m image : Mem) (a b n : ℕ)
    → ((i : ℕ) → i < n → m (a + i) ≡ image (b + i))
    → read_bytes m a n ≡ read_bytes image b n
read_bytes_agree m image a b zero h = refl
read_bytes_agree m image a b (suc n) h = ground (
  arith,
  h 0,
  addr m (a + 0) a,
  addr image (b + 0) b,
  read_bytes_agree m image (a + 1) (b + 1) n (λ i lt.
      addr m (a + 1 + i) (a + suc i) (omega arith)
      ∙ h (suc i) (omega arith)
      ∙ addr image (b + suc i) (b + 1 + i) (omega arith)),
)

-- Two pieces copied one after the other are one piece.
copied-add :
    (mem mid image : Mem) (offset dest k n x : ℕ)
    → ((y : ℕ) → mid y ≡ copied mem image offset dest k y)
    → copied mid image (offset + k) (dest + k) n x ≡ copied mem image offset dest (k + n) x
copied-add mem mid image offset dest k n x h =
    ground (arith, h x, addr image (offset + k + (x - (dest + k))) (offset + (x - dest)))

pub copied-inside :
    (mem image : Mem) (offset dest n i : ℕ)
    → i < n
    → copied mem image offset dest n (dest + i) ≡ image (offset + i)
copied-inside mem image offset dest n i lt =
    ground (arith, addr image (offset + (dest + i - dest)) (offset + i))

pub copied-below :
    (mem image : Mem) (offset dest n x : ℕ) → x < dest → copied mem image offset dest n x ≡ mem x
copied-below mem image offset dest n x lt = ground arith

module _ {W : Type 0} {rom : Rom W} {image : Mem} (stable : IsStable rom image) where
  copy_loop-stable :
      (mem₀ : Mem) (fuel : ℕ) (w : W) (mem : Mem) (offset len dest done : ℕ)
      → ((y : ℕ) → mem y ≡ copied mem₀ image offset dest done y)
      → (offset % 4 ≡ 0) × (len % 4 ≡ 0) × (dest % 4 ≡ 0) × (done % 4 ≡ 0)
      → offset + len ≤ rom.chip_size w
      → offset + len < u32_mod
      → done ≤ len
      → len + buf_size ≤ done + buf_size * fuel
      → let (good, w', mem') = copy_loop rom fuel w mem offset len dest done in
        (good ≡ true)
        × (rom.chip_size w' ≡ rom.chip_size w)
        × ((x : ℕ) → mem' x ≡ copied mem₀ image offset dest len x)
  unfolding copy_loop
  copy_loop-stable mem₀ zero w mem offset len dest done hm ha fits small le fuel_ok =
      absurd (omega arith)
  copy_loop-stable mem₀ (suc fuel) w mem offset len dest done hm ha fits small le fuel_ok =
      elim (Bool-cases (ltb done len)) [
        | inl more ↦
            let want : ℕ = min (len - done) buf_size in
            let lt : done < len = ltb→lt done len more in
            let r =
              p4_flash_read-stable stable w (offset + done) (dest + done) want (omega arith)
                (omega arith) (omega arith) (omega arith) in
            let w' : W = (p4_flash_read rom w (offset + done) (dest + done) want).2 in
            let here : (offset + done) % u32_mod ≡ offset + done = omega arith in
            rw (more, here, r.0, r.1)
              (let mem' : Mem =
                  write_bytes mem (dest + done) (read_bytes image (offset + done) want) in
                let ih =
                  copy_loop-stable mem₀ fuel w' mem' offset len dest (done + want)
                    (λ y.
                      write_bytes-copied image mem (offset + done) (dest + done) want y
                      ∙ copied-add mem₀ mem image offset dest done want y hm)
                    (omega arith) (omega (arith, r.2)) small (omega arith) (omega arith) in
                (ih.0, ih.1 ∙ r.2, ih.2))
        | inr end ↦
            let e : done ≡ len = ground arith in
            rw end (refl, refl, λ x. hm x ∙ ap (λ n. copied mem₀ image offset dest n x) e)
      ]

  module _ (w : W) (mem : Mem) (offset len dest : ℕ)
      (aligned : (offset % 4 ≡ 0) × (len % 4 ≡ 0) × (dest % 4 ≡ 0))
      (fits : offset + len ≤ rom.chip_size w) (small : offset + len < u32_mod) where
    -- On a stable flash an aligned copy succeeds: the target holds the bytes of the image, no
    -- other address changes, and the range is written back before it is invalidated.
    pub p4_flash_copy-stable :
        let (good, w', mem', ops) = p4_flash_copy rom w mem offset len dest in
        (good ≡ true)
        × (rom.chip_size w' ≡ rom.chip_size w)
        × ((x : ℕ) → mem' x ≡ copied mem image offset dest len x)
        × (ops ≡ writeback dest len ∷ invalidate dest len ∷ [])
    unfolding p4_flash_copy
    p4_flash_copy-stable =
        let r =
          copy_loop-stable mem (rounds rom len) w mem offset len dest 0 (λ y. ground arith)
            (omega arith) fits small (omega arith) (omega arith) in
        rw (aligned.0, aligned.2, r.0) (refl, r.1, r.2, refl)

    -- The CRC of the copy is the CRC that `p4_flash_crc32` computes over the same region of flash,
    -- at any time, so the comparison in `main` accepts every copy of a stable flash.
    pub p4_flash_copy-crc32 :
        (s_buf : ℕ) (w₀ : W)
        → s_buf % 4 ≡ 0
        → offset + len ≤ rom.chip_size w₀
        → let (good, w', mem', ops) = p4_flash_copy rom w mem offset len dest in
          (p4_flash_crc32 rom s_buf w₀ offset len).0 ≡ some (p4_mem_crc32 rom mem' dest len)
    unfolding p4_mem_crc32
    p4_flash_copy-crc32 s_buf w₀ hs fits₀ =
        let c =
          p4_flash_crc32-stable stable s_buf w₀ offset len hs aligned.0 (omega arith)
            (omega arith) in
        let same =
          read_bytes_agree (p4_flash_copy rom w mem offset len dest).2 image dest offset len
            (λ i lt. p4_flash_copy-stable.2 (dest + i) ∙ inside i lt) in
        c.0 ∙ ap (λ bs. some (rom.crc32 0 bs)) (sym same)
      where
        inside :
            (i : ℕ) → i < len → copied mem image offset dest len (dest + i) ≡ image (offset + i)
        inside i lt = ground (arith, addr image (offset + (dest + i - dest)) (offset + i))

module _ {W : Type 0} (rom : Rom W) where
  p4_flash_read-aligned :
      (w : W) (offset dest len : ℕ) → (p4_flash_read rom w offset dest len).0 ≡ true → len % 4 ≡ 0
  unfolding p4_flash_read
  p4_flash_read-aligned w offset dest len h = ground arith

  copy_loop-aligned :
      (fuel : ℕ) (w : W) (mem : Mem) (offset len dest done : ℕ)
      → done ≤ len
      → (copy_loop rom fuel w mem offset len dest done).0 ≡ true
      → len % 4 ≡ done % 4
  unfolding copy_loop
  copy_loop-aligned zero w mem offset len dest done le h = cc
  copy_loop-aligned (suc fuel) w mem offset len dest done le h =
      let want : ℕ = min (len - done) buf_size in
      let at : ℕ = (offset + done) % u32_mod in
      let (good, buf, w') = p4_flash_read rom w at (dest + done) want in
      ground (
        arith,
        p4_flash_read-aligned w at (dest + done) want,
        copy_loop-aligned fuel w' (write_bytes mem (dest + done) buf) offset len dest (done + want),
      )

  -- Whatever the ROM does, a copy reports success only if offset, length and target are multiples
  -- of four; unlike `p4_flash_crc32` it does not round a final chunk up.
  pub p4_flash_copy-aligned :
      (w : W) (mem : Mem) (offset len dest : ℕ)
      → (p4_flash_copy rom w mem offset len dest).0 ≡ true
      → (offset % 4 ≡ 0) × (len % 4 ≡ 0) × (dest % 4 ≡ 0)
  unfolding p4_flash_copy
  p4_flash_copy-aligned w mem offset len dest h =
      ground (arith, copy_loop-aligned (rounds rom len) w mem offset len dest 0)
