-- ===== src/Boot/Emac/Pins.antt =====
-- The pins that bootloader/p4/p4_emac.c drives besides the RMII's: what the GPIO matrix connects, and
-- the line of GPIO 51, which holds the PHY in reset while it is low.
use esp32_p4_linux.Common.{
  ℕ, ◌+◌, ◌/◌, ◌%◌, ◌^◌, ◌≡◌, refl, ap, ◌∙◌, Bool, true, false, List, [], ◌∷◌, ◌==◌, ==_iff,
  Bool-cases, if◌then◌else◌, inl, inr,
}
use esp32_p4_linux.Boot.Regs.{
  Bus, Access, modify, store, delay_us, out_signal, in_signal, put_fields, perform, run,
}
use esp32_p4_linux.Boot.Emac.{gpio_out1_w1ts, gpio_out1_w1tc, gpio_enable1_w1ts}

-- The signal that a GPIO puts out, the GPIO that an input signal comes from; and whether GPIO 51 is
-- an output, its level, and for how long it was low and then high, in microseconds.
pub record Pins : Type 0 where
  pub outs : ℕ → ℕ
  pub ins : ℕ → ℕ
  pub drives : Bool
  pub high : Bool
  pub low_for : ℕ
  pub high_for : ℕ

-- Bit 19 of the second word of GPIOs.
abbrev pub selected : ℕ → Bool
selected v = v / 2 ^ 19 % 2 == 1

abbrev pub enable : ℕ → Pins → Pins
enable v p = if selected v then record p { drives = true } else p

abbrev pub clear : ℕ → Pins → Pins
clear v p = if selected v then record p { high = false; low_for = 0 } else p

abbrev pub raise : ℕ → Pins → Pins
raise v p = if selected v then record p { high = true; high_for = 0 } else p

-- A one written to these registers acts on its pin.
abbrev pub written : ℕ → ℕ → Pins → Pins
written a v p =
    if gpio_enable1_w1ts == a
    then enable v p
    else if gpio_out1_w1tc == a
    then clear v p
    else if gpio_out1_w1ts == a
    then raise v p
    else p

abbrev pub waited : ℕ → Pins → Pins
waited n p =
    if p.drives
    then (if p.high
        then record p { high_for = p.high_for + n }
        else record p { low_for = p.low_for + n })
    else p

-- The GPIOs as hardware: the three registers read as 0, and act on the pins.
pub record IsGpio {W : Type 0} (bus : Bus W) (pins : W → Pins) : Type 0 where
  pub read-pins : (a : ℕ) (w : W) → pins (bus.read a w).1 ≡ pins w
  pub read-enable : (w : W) → (bus.read gpio_enable1_w1ts w).0 ≡ 0
  pub read-clear : (w : W) → (bus.read gpio_out1_w1tc w).0 ≡ 0
  pub read-raise : (w : W) → (bus.read gpio_out1_w1ts w).0 ≡ 0
  pub write-pins : (a v : ℕ) (w : W) → pins (bus.write a v w) ≡ written a v (pins w)
  pub delay-pins : (n : ℕ) (w : W) → pins (bus.delay n w) ≡ waited n (pins w)
  pub out-pins :
      (gpio signal : ℕ) (w : W)
      → pins (bus.connect_out gpio signal w)
        ≡ record (pins w) { outs = λ g. if gpio == g then signal else (pins w).outs g }
  pub in-pins :
      (gpio signal : ℕ) (w : W)
      → pins (bus.connect_in gpio signal w)
        ≡ record (pins w) { ins = λ s. if signal == s then gpio else (pins w).ins s }

-- What an access does to the pins, and what several do.
unfoldable pub settle_one : Access → Pins → Pins
unfolding put_fields
settle_one (modify a fs) p = written a (put_fields fs 0) p
settle_one (store a v) p = written a v p
settle_one (delay_us n) p = waited n p
settle_one (out_signal gpio signal) p = record p {
  outs = λ g. if gpio == g then signal else p.outs g;
}
settle_one (in_signal gpio signal) p = record p { ins = λ s. if signal == s then gpio else p.ins s }

unfoldable pub settle : List Access → Pins → Pins
unfolding settle_one
settle [] p = p
settle (x ∷ xs) p = settle xs (settle_one x p)

module _ {W : Type 0} {bus : Bus W} {pins : W → Pins} (gpio : IsGpio bus pins) where
  -- The value that is read counts only where it is 0.
  written-read :
      (a : ℕ) (f : ℕ → ℕ) (w : W) (p : Pins) → written a (f (bus.read a w).0) p ≡ written a (f 0) p
  written-read a f w p = elim (Bool-cases (gpio_enable1_w1ts == a)) [
    | inl e ↦
        let same : gpio_enable1_w1ts ≡ a = (==_iff _ _).0 e in
        ap (λ v. written a (f v) p) (rw (← same) (gpio.read-enable w))
    | inr e ↦ rw e (elim (Bool-cases (gpio_out1_w1tc == a)) [
      | inl e' ↦
          let same : gpio_out1_w1tc ≡ a = (==_iff _ _).0 e' in
          rw e' (ap (λ v. clear (f v) p) (rw (← same) (gpio.read-clear w)))
      | inr e' ↦ rw e' (elim (Bool-cases (gpio_out1_w1ts == a)) [
        | inl e'' ↦
            let same : gpio_out1_w1ts ≡ a = (==_iff _ _).0 e'' in
            rw e'' (ap (λ v. raise (f v) p) (rw (← same) (gpio.read-raise w)))
        | inr e'' ↦ rw e'' refl
      ])
    ])
  ]

  perform-pins : (x : Access) (w : W) → pins (perform bus x w) ≡ settle_one x (pins w)
  unfolding perform settle_one
  perform-pins (modify a fs) w =
      gpio.write-pins a (put_fields fs (bus.read a w).0) (bus.read a w).1
      ∙ ap (written a (put_fields fs (bus.read a w).0)) (gpio.read-pins a w)
      ∙ written-read a (put_fields fs) w (pins w)
  perform-pins (store a v) w = gpio.write-pins a v w
  perform-pins (delay_us n) w = gpio.delay-pins n w
  perform-pins (out_signal g signal) w = gpio.out-pins g signal w
  perform-pins (in_signal g signal) w = gpio.in-pins g signal w

  pub run-pins : (xs : List Access) (w : W) → pins (run bus xs w) ≡ settle xs (pins w)
  unfolding run settle
  run-pins [] w = refl
  run-pins (x ∷ xs) w = run-pins xs (perform bus x w) ∙ ap (settle xs) (perform-pins x w)
