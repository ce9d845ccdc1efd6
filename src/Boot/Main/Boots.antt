-- ===== src/Boot/Main/Boots.antt =====
-- `main` of bootloader/main.c on a stable flash and a board whose memory works: it boots, with the
-- two partitions in memory.
use esp32_p4_linux.Common.{
  ℕ, ◌+◌, ◌-◌, ◌%◌, ◌≤◌, ◌<◌, ◌≡◌, refl, ◌∙◌, true, some, ◌==◌, ==_iff, arith,
}
use esp32_p4_linux.Boot.Memory.{Mem, read_bytes}
use esp32_p4_linux.Boot.Rom.{Rom, IsStable}
use esp32_p4_linux.Boot.Flash.{p4_flash_copy, p4_mem_crc32, flash_size}
use esp32_p4_linux.Boot.Flash.Crc.{
  p4_flash_crc32-stable, p4_flash_selftest-stable, p4_flash_selftest-sized, p4_flash_init-sized,
}
use esp32_p4_linux.Boot.Flash.Copy.{
  copied, copied-inside, copied-below, p4_flash_copy-stable, p4_flash_copy-crc32,
}
use esp32_p4_linux.Boot.Partition.{Partition}
use esp32_p4_linux.Boot.Partition.Find.{
  entry_at, partition_of, IsFirst, p4_part_find_first, p4_part_dump-size,
}
use esp32_p4_linux.Boot.Main.{
  Board, Halt, Machine, Stage, went, jumped, check_flash, locate, sum, bring_up_memory, load,
  devices, load_all, survey, main, prepare, kernel_pa, dtb_pa, cpu_mhz, and_then, hand_over,
}

-- A board on which PSRAM answers and passes its test, and whose drivers leave the flash chip's
-- size alone.
pub record IsGood {W : Type 0} (rom : Rom W) (board : Board W) : Type 0 where
  pub bytes : ℕ
  pub mapped : (w : W) → (board.psram_init w).0 ≡ some bytes
  pub passes : (w : W) (mem : Mem) → (board.psram_test bytes w mem).0 ≡ true
  pub psram_size : (w : W) → rom.chip_size (board.psram_init w).1 ≡ rom.chip_size w
  pub clk_size : (w : W) → rom.chip_size (board.clk_init w) ≡ rom.chip_size w
  pub cache_size : (w : W) → rom.chip_size (board.cache_init w) ≡ rom.chip_size w
  pub cpu_size : (n : ℕ) (w : W) → rom.chip_size (board.cpu_set_mhz n w).1 ≡ rom.chip_size w
  pub test_size :
      (n : ℕ) (w : W) (mem : Mem) → rom.chip_size (board.psram_test n w mem).1 ≡ rom.chip_size w
  pub alias_size :
      (w : W) (mem : Mem) → rom.chip_size (board.psram_alias_test w mem).0 ≡ rom.chip_size w

-- A stage that goes on, with what `Q` says.
abbrev Goes : {W A : Type 0} → Stage W A → (A → Machine W → Type 0) → Type 0
Goes {W} {A} s Q = (a : A) × (m : Machine W) × ((s ≡ went a m) × Q a m)

Goes-and_then :
    {W A B : Type 0} (s : Stage W A) (f : A → Machine W → Stage W B) (P : A → Machine W → Type 0)
    (Q : B → Machine W → Type 0)
    → Goes s P
    → ((a : A) (m : Machine W) → P a m → Goes (f a m) Q)
    → Goes (and_then s f) Q
unfolding and_then
Goes-and_then s f P Q (a, m, (e, p)) k = rw (e, and_then) (k a m p)

-- A partition that `main` can load: aligned, inside the flash chip and no longer than the room up
-- to the next.
pub record IsLoadable (p : Partition) (room : ℕ) : Type 0 where
  pub aligned : (p.offset % 4 ≡ 0) × (p.size % 4 ≡ 0)
  pub inside : p.offset + p.size ≤ flash_size
  pub fits : p.size ≤ room

-- A partition of the image, in memory.
abbrev pub Holds : Mem → Mem → ℕ → Partition → Type 0
Holds image mem dest p = (x : ℕ) → x < p.size → mem (dest + x) ≡ image (p.offset + x)

module _ {W : Type 0} {rom : Rom W} {image : Mem} (stable : IsStable rom image) {board : Board W}
    (good : IsGood rom board) (s_buf buf : ℕ) (hs : s_buf % 4 ≡ 0) (hb : buf % 4 ≡ 0) where
  abbrev Sized : Machine W → Type 0
  Sized m = rom.chip_size m.hw ≡ flash_size

  check_flash-Goes : (m : Machine W) → Goes (check_flash rom board s_buf buf m) (λ _ m'. Sized m')
  unfolding check_flash
  check_flash-Goes m =
      let r = p4_flash_selftest-stable stable s_buf m.hw hs in
      let w = p4_flash_init-sized stable m.hw in
      rw (r.0, r.1)
        (
          tt,
          _,
          (refl, p4_part_dump-size stable buf _ ∙ p4_flash_selftest-sized stable s_buf m.hw hs w),
        )

  locate-Goes :
      (type i : ℕ) (h : Halt) (m : Machine W)
      → IsFirst image type 0 i
      → Sized m
      → Goes
          (locate rom board s_buf buf type h m)
          (λ p m'. Sized m' × (p ≡ partition_of (entry_at image i)))
  unfolding locate
  locate-Goes type i h m f size =
      let r = p4_part_find_first stable buf hb type 0 i m.hw f (omega arith) in
      rw (r.0, locate) (_, _, (refl, (r.1 ∙ size, refl)))

  sum-Goes :
      (h : Halt) (p : Partition) (room : ℕ) (m : Machine W)
      → IsLoadable p room
      → Sized m
      → Goes
          (sum rom board s_buf buf h p m)
          (λ crc m'. Sized m' × (crc ≡ rom.crc32 0 (read_bytes image p.offset p.size)))
  unfolding sum
  sum-Goes h p room m l size =
      let (a, b) = l.aligned in
      let i = l.inside in
      let r =
        p4_flash_crc32-stable stable s_buf m.hw p.offset p.size hs a (omega arith) (omega arith) in
      rw (r.0, sum) (_, _, (refl, (r.1 ∙ size, refl)))

  bring_up_memory-Goes :
      (m : Machine W) → Sized m → Goes (bring_up_memory rom board s_buf buf m) (λ _ m'. Sized m')
  unfolding bring_up_memory
  bring_up_memory-Goes m size =
      let w = board.cache_init (board.clk_init m.hw) in
      let w' = (board.psram_init w).1 in
      let c = (board.cpu_set_mhz cpu_mhz w').1 in
      let t = board.psram_test good.bytes c m.mem in
      rw (good.mapped, bring_up_memory, good.passes)
        (
          _,
          _,
          (
            refl,
            good.alias_size t.1 t.2
                ∙ good.test_size good.bytes c m.mem
                ∙ good.cpu_size cpu_mhz w'
                ∙ good.psram_size w
                ∙ good.cache_size (board.clk_init m.hw)
                ∙ good.clk_size m.hw
                ∙ size,
          ),
        )

  load-Goes :
      (g h : Halt) (p : Partition) (dest room : ℕ) (m : Machine W)
      → IsLoadable p room
      → dest % 4 ≡ 0
      → Sized m
      → Goes
          (load rom board s_buf buf g h p dest (rom.crc32 0 (read_bytes image p.offset p.size)) m)
          (λ _ m'. Sized m' × ((x : ℕ) → m'.mem x ≡ copied m.mem image p.offset dest p.size x))
  unfolding load
  load-Goes g h p dest room m l hd size =
      let (a, b) = l.aligned in
      let i = l.inside in
      let r =
        p4_flash_copy-stable stable m.hw m.mem p.offset p.size dest (a, b, hd) (omega arith)
          (omega arith) in
      let c =
        p4_flash_copy-crc32 stable m.hw m.mem p.offset p.size dest (a, b, hd) (omega arith)
          (omega arith) s_buf m.hw hs (omega arith) in
      let k =
        p4_flash_crc32-stable stable s_buf m.hw p.offset p.size hs a (omega arith) (omega arith) in
      let same : p4_mem_crc32 rom (p4_flash_copy rom m.hw m.mem p.offset p.size dest).2 dest p.size
          ≡ rom.crc32 0 (read_bytes image p.offset p.size) =
        cc in
      let equal : (p4_mem_crc32 rom (p4_flash_copy rom m.hw m.mem p.offset p.size dest).2 dest
              p.size
            == rom.crc32 0 (read_bytes image p.offset p.size))
          ≡ true =
        (==_iff _ _).1 same in
      rw (r.0, equal) (_, _, (refl, (r.1 ∙ size, r.2)))

  load_all-Goes :
      (kernel dtb : Partition) (m : Machine W)
      → IsLoadable kernel (dtb_pa - kernel_pa)
      → IsLoadable dtb flash_size
      → Sized m
      → Goes
          (load_all rom board s_buf buf kernel dtb
            (rom.crc32 0 (read_bytes image kernel.offset kernel.size))
            (rom.crc32 0 (read_bytes image dtb.offset dtb.size))
            m)
          (λ _ m'. Holds image m'.mem kernel_pa kernel × Holds image m'.mem dtb_pa dtb)
  unfolding load_all devices
  load_all-Goes kernel dtb m lk ld size =
      let f = lk.fits in
      Goes-and_then _ _
        (λ _ m'.
          Sized m'
          × ((x : ℕ) → m'.mem x ≡ copied m.mem image kernel.offset kernel_pa kernel.size x))
        _ (load-Goes _ _ kernel kernel_pa _ m lk (omega arith) size)
        (λ _ m₁ (size₁, h₁).
          Goes-and_then _ _
            (λ _ m'.
              Sized m' × ((x : ℕ) → m'.mem x ≡ copied m₁.mem image dtb.offset dtb_pa dtb.size x))
            _ (load-Goes _ _ dtb dtb_pa _ m₁ ld (omega arith) size₁)
            (λ _ m₂ (size₂, h₂). (
              _,
              _,
              (
                refl,
                (
                  (λ x lt.
                      h₂ (kernel_pa + x)
                      ∙ copied-below m₁.mem image dtb.offset dtb_pa dtb.size (kernel_pa + x)
                          (omega arith)
                      ∙ h₁ (kernel_pa + x)
                      ∙ copied-inside m.mem image kernel.offset kernel_pa kernel.size x lt),
                  (λ x lt.
                      h₂ (dtb_pa + x) ∙ copied-inside m₁.mem image dtb.offset dtb_pa dtb.size x lt),
                ),
              ),
            )))

  abbrev Found : Partition → Partition → Partition × Partition × ℕ × ℕ → Machine W → Type 0
  Found kernel dtb found m' =
      Sized m'
      × (found ≡ (
        kernel,
        dtb,
        rom.crc32 0 (read_bytes image kernel.offset kernel.size),
        rom.crc32 0 (read_bytes image dtb.offset dtb.size),
      ))

  survey-Goes :
      (i j : ℕ) (m : Machine W)
      → IsFirst image 0x40 0 i
      → IsFirst image 0x41 0 j
      → IsLoadable (partition_of (entry_at image i)) (dtb_pa - kernel_pa)
      → IsLoadable (partition_of (entry_at image j)) flash_size
      → Goes
          (survey rom board s_buf buf m)
          (Found (partition_of (entry_at image i)) (partition_of (entry_at image j)))
  unfolding survey
  survey-Goes i j m fi fj li lj =
      let kernel : Partition = partition_of (entry_at image i) in
      let dtb : Partition = partition_of (entry_at image j) in
      Goes-and_then _ _ (λ _ m'. Sized m') (Found kernel dtb) (check_flash-Goes _)
        (λ _ m₁ s₁.
          Goes-and_then _ _ (λ p m'. Sized m' × (p ≡ kernel)) (Found kernel dtb)
            (locate-Goes 0x40 i _ m₁ fi s₁)
            (λ k m₂ (s₂, ek).
              Goes-and_then _ _ (λ p m'. Sized m' × (p ≡ dtb)) (Found kernel dtb)
                (locate-Goes 0x41 j _ m₂ fj s₂)
                (λ d m₃ (s₃, ed).
                  Goes-and_then _ _
                    (λ c m'.
                      Sized m' × (c ≡ rom.crc32 0 (read_bytes image kernel.offset kernel.size)))
                    (Found kernel dtb) (rw ek (sum-Goes _ kernel _ m₃ li s₃))
                    (λ kc m₄ (s₄, ekc).
                      Goes-and_then _ _
                        (λ c m'.
                          Sized m' × (c ≡ rom.crc32 0 (read_bytes image dtb.offset dtb.size)))
                        (Found kernel dtb) (rw ed (sum-Goes _ dtb _ m₄ lj s₄))
                        (λ dc m₅ (s₅, edc). (_, _, (refl, (s₅, cc))))))))

  prepare-Goes :
      (i j : ℕ) (m : Machine W)
      → IsFirst image 0x40 0 i
      → IsFirst image 0x41 0 j
      → IsLoadable (partition_of (entry_at image i)) (dtb_pa - kernel_pa)
      → IsLoadable (partition_of (entry_at image j)) flash_size
      → Goes (prepare rom board s_buf buf m) (λ _ m'.
        Holds image m'.mem kernel_pa (partition_of (entry_at image i))
        × Holds image m'.mem dtb_pa (partition_of (entry_at image j)))
  unfolding prepare
  prepare-Goes i j m fi fj li lj =
      let kernel : Partition = partition_of (entry_at image i) in
      let dtb : Partition = partition_of (entry_at image j) in
      Goes-and_then _ _ (Found kernel dtb) _ (survey-Goes i j m fi fj li lj) (λ found m₁ (s₁, ef).
        Goes-and_then _ _ (λ _ m'. Sized m')
          (λ _ m'. Holds image m'.mem kernel_pa kernel × Holds image m'.mem dtb_pa dtb)
          (bring_up_memory-Goes m₁ s₁) (λ _ m₂ s₂. rw ef (load_all-Goes kernel dtb m₂ li lj s₂)))

  -- On a stable flash, with a table whose first kernel and first device tree partition are aligned
  -- and inside the chip, the kernel no longer than the 16 MB below the device tree, and on a board
  -- whose PSRAM answers and passes its test, main jumps to the kernel with the device tree, and
  -- memory holds every byte of both partitions; whatever the other drivers report.
  pub main_boots :
      (i j : ℕ) (m : Machine W)
      → IsFirst image 0x40 0 i
      → IsFirst image 0x41 0 j
      → IsLoadable (partition_of (entry_at image i)) (dtb_pa - kernel_pa)
      → IsLoadable (partition_of (entry_at image j)) flash_size
      → (m' : Machine W) × ((main rom board s_buf buf m ≡ jumped kernel_pa dtb_pa m')
          × (Holds image m'.mem kernel_pa (partition_of (entry_at image i))
              × Holds image m'.mem dtb_pa (partition_of (entry_at image j))))
  unfolding main hand_over
  main_boots i j m fi fj li lj =
      let (_, m', (e, held)) = prepare-Goes i j m fi fj li lj in
      (m', (rw (e, hand_over) refl, held))
