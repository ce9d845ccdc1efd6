-- ===== src/Boot/Psram/Maps.antt =====
-- `p4_psram_init` of bootloader/p4/p4_psram.c: when it maps the chip, how much of it, and what the
-- addresses then reach.
use esp32_p4_linux.Common.{
  ℕ, ◌+◌, ◌-◌, ◌*◌, ◌/◌, ◌≡◌, refl, ◌∙◌, ◌&&◌, ◌⊎◌, ap, &&-eq-true, Bool, true, false, Option, none,
  some, ◌==◌, leb, ltb, if◌then◌else◌, Bool-cases, inl, inr, arith,
}
use esp32_p4_linux.Boot.Psram.{Chip, vaddr, page_size, p4_psram_init}

-- `mmu_hal_map_region` maps what it is asked to, when that is whole pages.
pub record IsMmu {W : Type 0} (chip : Chip W) : Type 0 where
  pub map_region-pages :
      (v p n : ℕ) (w : W) → (chip.map_region v p (n * page_size) w).0 ≡ n * page_size

module _ {W : Type 0} {chip : Chip W} (mmu : IsMmu chip) where
  pub p4_psram_init-pages :
      (w : W)
      → let err = (chip.impl_enable w).0 in
        let (err', size) = chip.physical_size (chip.impl_enable w).1 in
        (p4_psram_init chip w).0 ≡ (
          if err == 0 && (err' == 0 && leb page_size size)
          then some (size / page_size * page_size)
          else none)
  unfolding p4_psram_init
  p4_psram_init-pages w =
      let w' = (chip.impl_enable w).1 in
      let size = (chip.physical_size w').1 in
      let pages = mmu.map_region-pages vaddr 0 (size / page_size) w' in rw pages (ground arith)

-- An address of a range of `n` bytes from `v` on.
abbrev pub within : ℕ → ℕ → ℕ → Bool
within v n a = leb v a && ltb a (v + n)

-- What an address reaches, if anything: the physical address that the MMU gives, whether its bus is
-- on, and whether the cache may hold a line of it from before the mapping.
pub record Window (W : Type 0) : Type 0 where
  pub maps : W → ℕ → Option ℕ
  pub on : W → ℕ → Bool
  pub stale : W → ℕ → Bool

-- The MMU and the cache as p4_psram_init needs them. Training and sizing the chip map nothing.
pub record IsWindow {W : Type 0} (chip : Chip W) (window : Window W) : Type 0 where
  pub enable-maps : (w : W) (a : ℕ) → window.maps (chip.impl_enable w).1 a ≡ window.maps w a
  pub enable-on : (w : W) (a : ℕ) → window.on (chip.impl_enable w).1 a ≡ window.on w a
  pub region-maps :
      (v p n : ℕ) (w : W) (a : ℕ)
      → window.maps (chip.map_region v p n w).1 a
        ≡ (if within v n a then some (p + (a - v)) else window.maps w a)
  pub region-on :
      (v p n : ℕ) (w : W) (a : ℕ) → window.on (chip.map_region v p n w).1 a ≡ window.on w a
  pub bus-maps : (v n : ℕ) (w : W) (a : ℕ) → window.maps (chip.enable_bus v n w) a ≡ window.maps w a
  pub bus-on :
      (v n : ℕ) (w : W) (a : ℕ)
      → window.on (chip.enable_bus v n w) a ≡ (if within v n a then true else window.on w a)
  pub invalidate-maps :
      (v n : ℕ) (w : W) (a : ℕ) → window.maps (chip.invalidate v n w) a ≡ window.maps w a
  pub invalidate-on :
      (v n : ℕ) (w : W) (a : ℕ) → window.on (chip.invalidate v n w) a ≡ window.on w a
  pub invalidate-stale :
      (v n : ℕ) (w : W) (a : ℕ)
      → within v n a ≡ true
      → window.stale (chip.invalidate v n w) a ≡ false

-- `n` bytes of the chip are reached from `vaddr` on, through the bus and with no stale line, and no
-- other address reaches anything else than before; 0 bytes for a chip that has not been mapped.
pub record Reaches {W : Type 0} (window : Window W) (n : ℕ) (before after : W) : Type 0 where
  pub maps :
      (a : ℕ)
      → window.maps after a ≡ (if within vaddr n a then some (a - vaddr) else window.maps before a)
  pub on : (a : ℕ) → window.on after a ≡ (if within vaddr n a then true else window.on before a)
  pub fresh : (a : ℕ) → within vaddr n a ≡ true → window.stale after a ≡ false

not_within : (v a : ℕ) → within v 0 a ≡ false
not_within v a = ground arith

module _ {W : Type 0} {chip : Chip W} (mmu : IsMmu chip) (w : W) where
  error : ℕ
  error = (chip.impl_enable w).0

  trained : W
  trained = (chip.impl_enable w).1

  size_error : ℕ
  size_error = (chip.physical_size trained).0

  size : ℕ
  size = (chip.physical_size trained).1

  mapped : ℕ → ℕ × W
  mapped n = chip.map_region vaddr 0 n trained

  init-good :
      (error == 0) ≡ true
      → (size_error == 0) ≡ true
      → leb page_size size ≡ true
      → let n = size / page_size * page_size in
        p4_psram_init chip w
        ≡ (some n, chip.invalidate vaddr n (chip.enable_bus vaddr n (mapped n).1))
  unfolding p4_psram_init error trained size_error size mapped
  init-good e e' large =
      let pages = mmu.map_region-pages vaddr 0 (size / page_size) trained in
      let some_bytes : (size == 0) ≡ false = ground arith in
      let some_pages : (size / page_size * page_size == 0) ≡ false = ground arith in
      rw (e, e', some_bytes, pages, some_pages) refl

  init-bad :
      (error == 0 && (size_error == 0 && leb page_size size)) ≡ false
      → (p4_psram_init chip w ≡ (none, trained)) ⊎ (p4_psram_init chip w ≡ (none, (mapped 0).1))
  unfolding p4_psram_init error trained size_error size mapped
  init-bad bad = elim (Bool-cases (error == 0)) [
    | inr e ↦ inl (rw e refl)
    | inl e ↦ elim (Bool-cases (size_error == 0)) [
      | inr e' ↦ inl (rw (e, e') refl)
      | inl e' ↦ elim (Bool-cases (size == 0)) [
        | inl empty ↦ inl (rw (e, e', empty) refl)
        | inr some_bytes ↦
            let small : leb page_size size ≡ false = (rw (e, e') at bad) in
            let no_page : size / page_size * page_size ≡ 0 = ground arith in
            let pages : (chip.map_region vaddr 0 0 trained).0 ≡ 0 =
              mmu.map_region-pages vaddr 0 0 trained in
            inr (rw (e, e', some_bytes, no_page, pages) refl)
      ]
    ]
  ]

module _ {W : Type 0} {chip : Chip W} {window : Window W} (mmu : IsMmu chip)
    (laws : IsWindow chip window) (w : W) where
  mapped-Reaches :
      (n : ℕ)
      → Reaches window n w (chip.invalidate vaddr n (chip.enable_bus vaddr n (mapped mmu w n).1))
  unfolding mapped trained
  mapped-Reaches n = record {
    maps = λ a.
        laws.invalidate-maps vaddr n _ a
        ∙ laws.bus-maps vaddr n _ a
        ∙ laws.region-maps vaddr 0 n _ a
        ∙ (rw laws.enable-maps (elim (Bool-cases (within vaddr n a)) [
          | inl e ↦ rw e (ap some (omega arith))
          | inr e ↦ rw e refl
        ]));
    on = λ a.
        laws.invalidate-on vaddr n _ a
        ∙ laws.bus-on vaddr n _ a
        ∙ (rw (laws.region-on, laws.enable-on) refl);
    fresh = λ a inside. laws.invalidate-stale vaddr n _ a inside;
  }

  -- Nothing that an address reaches has changed.
  abbrev pub Unchanged : W → Type 0
  Unchanged after =
      (a : ℕ) → (window.maps after a ≡ window.maps w a) × (window.on after a ≡ window.on w a)

  unmapped-Unchanged :
      (p4_psram_init chip w ≡ (none, trained mmu w))
        ⊎ (p4_psram_init chip w ≡ (none, (mapped mmu w 0).1))
      → ((p4_psram_init chip w).0 ≡ none) × Unchanged (p4_psram_init chip w).1
  unfolding mapped trained
  unmapped-Unchanged (inl e) = rw e (refl, λ a. (laws.enable-maps w a, laws.enable-on w a))
  unmapped-Unchanged (inr e) = rw e (
    refl,
    λ a. (
      laws.region-maps vaddr 0 0 _ a ∙ (rw (not_within vaddr a) (laws.enable-maps w a)),
      laws.region-on vaddr 0 0 _ a ∙ laws.enable-on w a,
    ),
  )

  -- When the chip answers, tells its size and has a page, p4_psram_init returns as many whole pages
  -- as it has, every address of them from `vaddr` on reaches its byte of the chip, through a bus that
  -- is on and with no stale line in the cache, and no other address reaches anything else than
  -- before. Else it returns nothing, and no address reaches anything else than before.
  pub p4_psram_init-Reaches :
      let err = (chip.impl_enable w).0 in
      let (err', size) = chip.physical_size (chip.impl_enable w).1 in
      let answers = err == 0 && (err' == 0 && leb page_size size) in
      let n = size / page_size * page_size in
      let (result, after) = p4_psram_init chip w in
      (answers ≡ true → (result ≡ some n) × Reaches window n w after)
      × (answers ≡ false → (result ≡ none) × Unchanged after)
  unfolding error size_error size trained
  p4_psram_init-Reaches = (
    λ answers.
        let (e, rest) = &&-eq-true (error mmu w == 0) _ answers in
        let (e', large) = &&-eq-true (size_error mmu w == 0) _ rest in
        let done = init-good mmu w e e' large in
        rw done (refl, mapped-Reaches (size mmu w / page_size * page_size)),
    λ silent. unmapped-Unchanged (init-bad mmu w silent),
  )
