-- ===== src/Boot/Wdt/Off.antt =====
-- `p4_wdt_disable_all` of bootloader/p4/p4_wdt.c on watchdogs that are write-protected.
use esp32_p4_linux.Common.{
  ℕ, ◌/◌, ◌%◌, ◌^◌, ◌<◌, ◌≡◌, refl, ap, ◌∙◌, Bool, true, false, List, [], ◌∷◌, ◌==◌, if◌then◌else◌,
  Bool-cases, inl, inr, arith,
}
use esp32_p4_linux.Boot.Regs.{
  Bus, Access, Field, modify, store, bit_on, bit_off, put_fields, perform, run,
}
use esp32_p4_linux.Boot.Wdt.{
  Dog, swd, lp, timg0, config_of, wprotect_of, wkey, disable_steps, p4_wdt_disable_all,
}

-- The two registers of a watchdog.
pub record Guarded : Type 0 where
  pub config : ℕ
  pub wprotect : ℕ

abbrev pub same : Dog → Dog → Bool
same swd swd = true
same lp lp = true
same timg0 timg0 = true
same _ _ = false

same-eq : (d e : Dog) → same d e ≡ true → d ≡ e
same-eq swd swd h = refl
same-eq lp lp h = refl
same-eq timg0 timg0 h = refl
same-eq swd lp h = cc
same-eq swd timg0 h = cc
same-eq lp swd h = cc
same-eq lp timg0 h = cc
same-eq timg0 swd h = cc
same-eq timg0 lp h = cc

-- A configuration takes a write only while its key stands in the protection register.
abbrev pub configured : ℕ → Guarded → Guarded
configured v g = if g.wprotect == wkey then record g { config = v } else g

abbrev pub protected : ℕ → Guarded → Guarded
protected v g = record g { wprotect = v }

pub record IsGuarded {W : Type 0} (bus : Bus W) (dog : W → Dog → Guarded) : Type 0 where
  pub read-config : (d : Dog) (w : W) → (bus.read (config_of d) w).0 ≡ (dog w d).config
  pub dog-read : (d e : Dog) (w : W) → dog (bus.read (config_of d) w).1 e ≡ dog w e
  pub dog-write_config :
      (d e : Dog) (v : ℕ) (w : W)
      → dog (bus.write (config_of d) v w) e ≡ (if same d e then configured v (dog w e) else dog w e)
  pub dog-write_wprotect :
      (d e : Dog) (v : ℕ) (w : W)
      → dog (bus.write (wprotect_of d) v w) e
        ≡ (if same d e then protected v (dog w e) else dog w e)

-- What a sequence of such accesses does to one watchdog.
data Touch : Type 0 where
  key : Dog → ℕ → Touch
  change : Dog → List Field → Touch

abbrev access_of : Touch → Access
access_of (key d v) = store (wprotect_of d) v
access_of (change d fs) = modify (config_of d) fs

abbrev accesses : List Touch → List Access
accesses [] = []
accesses (t ∷ ts) = access_of t ∷ accesses ts

abbrev effect : Touch → Dog → Guarded → Guarded
effect (key d v) e g = if same d e then protected v g else g
effect (change d fs) e g = if same d e then configured (put_fields fs g.config) g else g

abbrev effects : List Touch → Dog → Guarded → Guarded
effects [] e g = g
effects (t ∷ ts) e g = effects ts e (effect t e g)

abbrev touches : List Touch
touches =
    key swd wkey
    ∷ change swd (bit_on 18 ∷ [])
    ∷ key swd 0
    ∷ key lp wkey
    ∷ change lp (bit_off 12 ∷ [])
    ∷ change lp (bit_off 31 ∷ [])
    ∷ key lp 0
    ∷ key timg0 wkey
    ∷ change timg0 (bit_off 14 ∷ [])
    ∷ change timg0 (bit_off 31 ∷ [])
    ∷ key timg0 0
    ∷ []

-- The super-watchdog is fed by hardware; the two others are neither in flashboot mode nor enabled.
abbrev pub Off : Dog → ℕ → Type 0
Off swd v = v / 2 ^ 18 % 2 ≡ 1
Off lp v = (v / 2 ^ 12 % 2 ≡ 0) × (v / 2 ^ 31 % 2 ≡ 0)
Off timg0 v = (v / 2 ^ 14 % 2 ≡ 0) × (v / 2 ^ 31 % 2 ≡ 0)

module _ {W : Type 0} {bus : Bus W} {dog : W → Dog → Guarded} (guarded : IsGuarded bus dog) where
  perform-effect :
      (t : Touch) (e : Dog) (w : W) → dog (perform bus (access_of t) w) e ≡ effect t e (dog w e)
  unfolding perform
  perform-effect (key d v) e w = guarded.dog-write_wprotect d e v w
  perform-effect (change d fs) e w =
      let w' = (bus.read (config_of d) w).1 in
      let written = guarded.dog-write_config d e (put_fields fs (bus.read (config_of d) w).0) w' in
      elim (Bool-cases (same d e)) [
        | inl h ↦
            let eq = same-eq d e h in
            let held : (bus.read (config_of d) w).0 ≡ (dog w e).config =
              rw eq (guarded.read-config e w) in
            rw (written, h, guarded.dog-read d e w, held) refl
        | inr h ↦ rw (written, h) (guarded.dog-read d e w)
      ]

  run-effects :
      (ts : List Touch) (e : Dog) (w : W) → dog (run bus (accesses ts) w) e ≡ effects ts e (dog w e)
  unfolding run
  run-effects [] e w = refl
  run-effects (t ∷ ts) e w =
      run-effects ts e (perform bus (access_of t) w) ∙ ap (effects ts e) (perform-effect t e w)

  -- Whatever the watchdogs held, they are off and write-protected afterwards.
  pub p4_wdt_disable_all-Off :
      (e : Dog) (w : W)
      → (dog w e).config < 2 ^ 32
      → let g = dog (p4_wdt_disable_all bus w) e in Off e g.config × (g.wprotect ≡ 0)
  unfolding p4_wdt_disable_all disable_steps put_fields
  p4_wdt_disable_all-Off swd w lt = rw (run-effects touches swd w) (omega arith, refl)
  p4_wdt_disable_all-Off lp w lt = rw (run-effects touches lp w) ((omega arith, omega arith), refl)
  p4_wdt_disable_all-Off timg0 w lt =
      rw (run-effects touches timg0 w) ((omega arith, omega arith), refl)
