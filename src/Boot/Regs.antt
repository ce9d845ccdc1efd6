-- ===== src/Boot/Regs.antt =====
-- The memory-mapped registers that the drivers of bootloader/p4 read and write: `reg_setbits`,
-- `reg_clrsetbits`, `reg_read` and `reg_write`, and sequences of such accesses.
pub mod Plain
use esp32_p4_linux.Common.{ℕ, ◌+◌, ◌-◌, ◌*◌, ◌/◌, ◌%◌, ◌^◌, List, [], ◌∷◌}

-- The hardware behind the addresses, over its state. A read may change the state too.
pub record Bus (W : Type 0) : Type 0 where
  pub read : ℕ → W → ℕ × W
  pub write : ℕ → ℕ → W → W
  -- `ets_delay_us`
  pub delay : ℕ → W → W
  -- `esp_rom_gpio_connect_out_signal` and `esp_rom_gpio_connect_in_signal`, not inverted
  pub connect_out : ℕ → ℕ → W → W
  pub connect_in : ℕ → ℕ → W → W

-- The field of `width` bits at `shift`, set to a value that fits it.
unfoldable pub set_field : ℕ → ℕ → ℕ → ℕ → ℕ
set_field shift width x v = v - v / 2 ^ shift % 2 ^ width * 2 ^ shift + x * 2 ^ shift

-- `(v & ~clr) | set`, where the masks are made of fields: each is its shift, its width and what it
-- is set to, 0 for one that is only cleared.
pub record Field : Type 0 where
  pub shift : ℕ
  pub width : ℕ
  pub value : ℕ

unfoldable pub put_fields : List Field → ℕ → ℕ
unfolding set_field
put_fields [] v = v
put_fields (f ∷ fs) v = put_fields fs (set_field f.shift f.width f.value v)

unfoldable pub bits : ℕ → ℕ → ℕ → Field
bits shift width value = record { shift = shift; width = width; value = value }

unfoldable pub bit_on : ℕ → Field
unfolding bits
bit_on shift = bits shift 1 1

unfoldable pub bit_off : ℕ → Field
unfolding bits
bit_off shift = bits shift 1 0

pub data Access : Type 0 where
  -- `reg_setbits` and `reg_clrsetbits`
  modify : ℕ → List Field → Access
  -- `reg_write`
  store : ℕ → ℕ → Access
  delay_us : ℕ → Access
  out_signal : ℕ → ℕ → Access
  in_signal : ℕ → ℕ → Access

unfoldable pub perform : {W : Type 0} → Bus W → Access → W → W
unfolding put_fields
perform bus (modify a fs) w = let (v, w') = bus.read a w in bus.write a (put_fields fs v) w'
perform bus (store a v) w = bus.write a v w
perform bus (delay_us n) w = bus.delay n w
perform bus (out_signal gpio signal) w = bus.connect_out gpio signal w
perform bus (in_signal gpio signal) w = bus.connect_in gpio signal w

unfoldable pub run : {W : Type 0} → Bus W → List Access → W → W
unfolding perform
run bus [] w = w
run bus (x ∷ xs) w = run bus xs (perform bus x w)
