-- ===== src/Boot/Regs/Plain.antt =====
-- Registers that hold what was last written to them, among those of bootloader/p4.
use esp32_p4_linux.Common.{
  ℕ, ◌≡◌, refl, ap, ◌∙◌, Bool, true, false, ◌||◌, List, [], ◌∷◌, ◌++◌, inl, inr, ◌==◌, ==_iff,
  if◌then◌else◌, Bool-cases,
}
use esp32_p4_linux.Boot.Regs.{
  Bus, Access, modify, store, delay_us, out_signal, in_signal, put_fields, perform, run,
}

-- The `stored` addresses hold what was last written; what is done at any other address leaves
-- them alone.
pub record IsPlain {W : Type 0} (bus : Bus W) (cells : W → ℕ → ℕ) (stored : ℕ → Bool) : Type 0 where
  pub read-cells : (a : ℕ) (w : W) → stored a ≡ true → (bus.read a w).0 ≡ cells w a
  pub cells-read : (a b : ℕ) (w : W) → stored b ≡ true → cells (bus.read a w).1 b ≡ cells w b
  pub cells-write :
      (a b v : ℕ) (w : W)
      → stored b ≡ true
      → cells (bus.write a v w) b ≡ (if a == b then v else cells w b)
  pub cells-delay : (b n : ℕ) (w : W) → stored b ≡ true → cells (bus.delay n w) b ≡ cells w b
  pub cells-out :
      (b gpio signal : ℕ) (w : W)
      → stored b ≡ true
      → cells (bus.connect_out gpio signal w) b ≡ cells w b
  pub cells-in :
      (b gpio signal : ℕ) (w : W)
      → stored b ≡ true
      → cells (bus.connect_in gpio signal w) b ≡ cells w b

-- An address is in a list.
abbrev pub listed : List ℕ → ℕ → Bool
listed [] b = false
listed (a ∷ rest) b = a == b || listed rest b

-- What the register `b` holds after an access, and after several.
unfoldable pub settle_one : Access → ℕ → ℕ → ℕ
unfolding put_fields
settle_one (modify a fs) b v = if a == b then put_fields fs v else v
settle_one (store a x) b v = if a == b then x else v
settle_one (delay_us n) b v = v
settle_one (out_signal gpio signal) b v = v
settle_one (in_signal gpio signal) b v = v

unfoldable pub settle : List Access → ℕ → ℕ → ℕ
unfolding settle_one
settle [] b v = v
settle (x ∷ xs) b v = settle xs b (settle_one x b v)

pub settle-append :
    (xs ys : List Access) (b v : ℕ) → settle (xs ++ ys) b v ≡ settle ys b (settle xs b v)
unfolding settle
settle-append [] ys b v = refl
settle-append (x ∷ xs) ys b v = settle-append xs ys b (settle_one x b v)

module _ {W : Type 0} {bus : Bus W} {cells : W → ℕ → ℕ} {stored : ℕ → Bool}
    (plain : IsPlain bus cells stored) (b : ℕ) (kept : stored b ≡ true) where
  perform-cells : (x : Access) (w : W) → cells (perform bus x w) b ≡ settle_one x b (cells w b)
  unfolding perform settle_one
  perform-cells (modify a fs) w =
      let written = plain.cells-write a b (put_fields fs (bus.read a w).0) (bus.read a w).1 kept in
      elim (Bool-cases (a == b)) [
        | inl e ↦
            let same : a ≡ b = (==_iff a b).0 e in
            let held : (bus.read a w).0 ≡ cells w b = rw same (plain.read-cells b w kept) in
            rw (written, e, held) refl
        | inr e ↦ rw (written, e) (plain.cells-read a b w kept)
      ]
  perform-cells (store a v) w = plain.cells-write a b v w kept
  perform-cells (delay_us n) w = plain.cells-delay b n w kept
  perform-cells (out_signal gpio signal) w = plain.cells-out b gpio signal w kept
  perform-cells (in_signal gpio signal) w = plain.cells-in b gpio signal w kept

  -- A sequence of accesses leaves in a register what they do to it one after the other.
  pub run-cells : (xs : List Access) (w : W) → cells (run bus xs w) b ≡ settle xs b (cells w b)
  unfolding run settle
  run-cells [] w = refl
  run-cells (x ∷ xs) w = run-cells xs (perform bus x w) ∙ ap (settle xs b) (perform-cells x w)
