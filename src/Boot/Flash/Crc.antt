-- ===== src/Boot/Flash/Crc.antt =====
-- `p4_flash_crc32` and the self test on a stable flash.
use esp32_p4_linux.Common.{
  ℕ, zero, suc, ◌+◌, ◌-◌, ◌*◌, ◌%◌, ◌≤◌, ◌<◌, min, ◌≡◌, refl, sym, ap, ◌∙◌, true, arith, Bytes,
  ◌++◌, take, some, [], inl, inr, ltb, Bool-cases, ltb→lt,
}
use esp32_p4_linux.Boot.Memory.{Mem, read_bytes}
use esp32_p4_linux.Boot.Rom.{Rom, IsStable}
use esp32_p4_linux.Boot.Flash.{
  p4_flash_init, p4_flash_read, crc_loop, rounds, p4_flash_crc32, p4_flash_selftest, round_up,
  buf_size, u32_mod, flash_size,
}
use esp32_p4_linux.Boot.Flash.Read.{read_bytes-add, take-read_bytes, p4_flash_read-stable}

module _ {W : Type 0} {rom : Rom W} {image : Mem} (stable : IsStable rom image) where
  -- One round folds the next chunk into the CRC of what precedes it.
  crc-extend :
      (offset done want : ℕ) (buf : Bytes)
      → buf ≡ read_bytes image (offset + done) (round_up want)
      → rom.crc32 (rom.crc32 0 (read_bytes image offset done)) (take want buf)
        ≡ rom.crc32 0 (read_bytes image offset (done + want))
  crc-extend offset done want buf e =
      stable.crc32-append 0 (read_bytes image offset done) (take want buf)
      ∙ ap (λ t. rom.crc32 0 (read_bytes image offset done ++ t))
          (ap (take want) e
            ∙ take-read_bytes image (offset + done) want (round_up want) (omega arith))
      ∙ ap (rom.crc32 0) (sym (read_bytes-add image offset done want))

  crc_loop-stable :
      (s_buf fuel : ℕ) (w : W) (offset len done : ℕ)
      → s_buf % 4 ≡ 0
      → offset % 4 ≡ 0
      → (done < len → done % 4 ≡ 0)
      → offset + round_up len ≤ rom.chip_size w
      → offset + round_up len < u32_mod
      → done ≤ len
      → len + buf_size ≤ done + buf_size * fuel
      → let (r, w') =
          crc_loop rom s_buf fuel w offset len done (rom.crc32 0 (read_bytes image offset done)) in
        (r ≡ some (rom.crc32 0 (read_bytes image offset len)))
        × (rom.chip_size w' ≡ rom.chip_size w)
  unfolding crc_loop
  crc_loop-stable s_buf zero w offset len done hs ho hd fits small le fuel_ok = absurd (omega arith)
  crc_loop-stable s_buf (suc fuel) w offset len done hs ho hd fits small le fuel_ok =
      elim (Bool-cases (ltb done len)) [
        | inl more ↦
            let want : ℕ = min (len - done) buf_size in
            let lt : done < len = ltb→lt done len more in
            let aligned : done % 4 ≡ 0 = hd lt in
            let r =
              p4_flash_read-stable stable w (offset + done) s_buf (round_up want) (omega arith) hs
                (omega arith) (omega arith) in
            let w' : W = (p4_flash_read rom w (offset + done) s_buf (round_up want)).2 in
            let here : (offset + done) % u32_mod ≡ offset + done = omega arith in
            rw (more, here, r.0, crc-extend offset done want _ r.1)
              (let ih =
                  crc_loop-stable s_buf fuel w' offset len (done + want) hs ho (λ q. omega arith)
                    (omega (arith, r.2)) small (omega arith) (omega arith) in
                (ih.0, ih.1 ∙ r.2))
        | inr end ↦
            rw end (ap (λ n. some (rom.crc32 0 (read_bytes image offset n))) (ground arith), refl)
      ]

  -- On a stable flash the CRC of a region is the CRC of the bytes that the image has there: any
  -- length, any number of chunks.
  pub p4_flash_crc32-stable :
      (s_buf : ℕ) (w : W) (offset len : ℕ)
      → s_buf % 4 ≡ 0
      → offset % 4 ≡ 0
      → offset + round_up len ≤ rom.chip_size w
      → offset + round_up len < u32_mod
      → let (r, w') = p4_flash_crc32 rom s_buf w offset len in
        (r ≡ some (rom.crc32 0 (read_bytes image offset len)))
        × (rom.chip_size w' ≡ rom.chip_size w)
  unfolding p4_flash_crc32
  p4_flash_crc32-stable s_buf w offset len hs ho fits small =
      let start : crc_loop rom s_buf (rounds rom len) w offset len 0 (rom.crc32 0 [])
          ≡ crc_loop rom s_buf (rounds rom len) w offset len 0 0 =
        ap (crc_loop rom s_buf (rounds rom len) w offset len 0) stable.crc32-nil in
      rw (ho, ← start)
        (crc_loop-stable s_buf (rounds rom len) w offset len 0 hs ho (λ _. refl) fits small
          (omega arith) (omega arith))

  -- After `p4_flash_init` the self test passes on a stable flash, whatever the size the ROM
  -- started with.
  pub p4_flash_selftest-stable :
      (s_buf : ℕ) (w : W)
      → s_buf % 4 ≡ 0
      → ((p4_flash_init rom w).0 ≡ true)
        × ((p4_flash_selftest rom s_buf (p4_flash_init rom w).1).0 ≡ true)
  unfolding p4_flash_init p4_flash_selftest
  p4_flash_selftest-stable s_buf w hs =
      let w' : W = rom.set_chip_size flash_size (rom.enter_low_speed_mode w) in
      let size : rom.chip_size w' ≡ flash_size = stable.chip_size-set flash_size _ in
      let a = p4_flash_crc32-stable s_buf w' 0x20000 0x10000 hs refl (omega arith) (omega arith) in
      let w'' : W = (p4_flash_crc32 rom s_buf w' 0x20000 0x10000).1 in
      let b =
        p4_flash_crc32-stable s_buf w'' 0x20000 0x10000 hs refl (omega (arith, a.1))
          (omega arith) in
      (ground arith, ground (arith, a, b))

  -- Where the self test leaves the size of the chip.
  pub p4_flash_selftest-sized :
      (s_buf : ℕ) (w : W)
      → s_buf % 4 ≡ 0
      → rom.chip_size (p4_flash_init rom w).1 ≡ flash_size
      → rom.chip_size (p4_flash_selftest rom s_buf (p4_flash_init rom w).1).1 ≡ flash_size
  unfolding p4_flash_selftest
  p4_flash_selftest-sized s_buf w hs size =
      let w' : W = (p4_flash_init rom w).1 in
      let a = p4_flash_crc32-stable s_buf w' 0x20000 0x10000 hs refl (omega arith) (omega arith) in
      let w'' : W = (p4_flash_crc32 rom s_buf w' 0x20000 0x10000).1 in
      let b =
        p4_flash_crc32-stable s_buf w'' 0x20000 0x10000 hs refl (omega (arith, a.1))
          (omega arith) in
      rw (a.0, p4_flash_selftest, b.0, p4_flash_selftest) (b.1 ∙ a.1 ∙ size)

  pub p4_flash_init-sized : (w : W) → rom.chip_size (p4_flash_init rom w).1 ≡ flash_size
  unfolding p4_flash_init
  p4_flash_init-sized w = stable.chip_size-set flash_size _

-- A self test that passes has read one CRC twice over the 64 KB at 0x20000: of two flash states
-- whose CRCs differ it never passes.
pub p4_flash_selftest-reads_agree :
    {W : Type 0} (rom : Rom W) (s_buf : ℕ) (w : W)
    → (p4_flash_selftest rom s_buf w).0 ≡ true
    → let (a, w') = p4_flash_crc32 rom s_buf w 0x20000 0x10000 in
      let (b, w'') = p4_flash_crc32 rom s_buf w' 0x20000 0x10000 in
      (crc : ℕ) × (a ≡ some crc) × (b ≡ some crc)
unfolding p4_flash_selftest
p4_flash_selftest-reads_agree rom s_buf w h = ground arith
