-- ===== src/Hget/Exit.antt =====
-- The exit codes of board/hget/hget.c, and results that carry one.
use esp32_p4_linux.Common.{ℕ, ◌≡◌, refl, ◌⊎◌, inl, inr}

pub data Exit : Type 0 where
  ok usage url resolve connect tls http io redirect proto : Exit

-- The values of the enumeration.
pub code : Exit → ℕ
code ok = 0
code usage = 1
code url = 2
code resolve = 3
code connect = 4
code tls = 5
code http = 6
code io = 7
code redirect = 8
code proto = 9

-- A value on EX_OK, or the exit code that is returned early.
pub data Result {ℓ} (A : Type ℓ) : Type ℓ where
  done : A → Result A
  fail : Exit → Result A

pub Result-cases {ℓ} :
    {A : Type ℓ} (r : Result A) → ((a : A) × (r ≡ done a)) ⊎ ((e : Exit) × (r ≡ fail e))
Result-cases (done a) = inl (a, refl)
Result-cases (fail e) = inr (e, refl)
