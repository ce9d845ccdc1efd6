-- ===== src/Boot/Panic/Names.antt =====
-- The names of bootloader/p4/p4_panic.c can be read back.
use esp32_p4_linux.Common.{
  ℕ, ◌/◌, ◌%◌, ◌^◌, ◌≡◌, refl, Bool, true, false, ◌&&◌, ◌||◌, Option, none, some, List, [], ◌∷◌,
  All, ◌==◌, ==_iff, if◌then◌else◌, Bool-cases, inl, inr, Bytes, codes,
}
use esp32_p4_linux.Boot.Panic.{switch, causes, reasons, trap_cause_name, p4_reset_reason_name}

abbrev same_bytes : Bytes → Bytes → Bool
same_bytes [] [] = true
same_bytes [] (y ∷ ys) = false
same_bytes (x ∷ xs) [] = false
same_bytes (x ∷ xs) (y ∷ ys) = x == y && same_bytes xs ys

-- The number that a table has for a name, if any, and whether it has a number.
abbrev pub number_of : List (ℕ × Bytes) → Bytes → Option ℕ
number_of [] name = none
number_of ((n, s) ∷ rest) name = if same_bytes s name then some n else number_of rest name

abbrev pub numbered : List (ℕ × Bytes) → ℕ → Bool
numbered [] x = false
numbered ((n, s) ∷ rest) x = x == n || numbered rest x

-- The names of a table are those of its numbers alone, and the default is none of them.
abbrev IsToldApart : List (ℕ × Bytes) → List (ℕ × Bytes) → Type 0
IsToldApart table rows = All (λ row. number_of table row.1 ≡ some row.0) rows

switch-number_of :
    (table rows : List (ℕ × Bytes)) (default : Bytes) (x : ℕ)
    → number_of table default ≡ none
    → IsToldApart table rows
    → number_of table (switch rows default x) ≡ (if numbered rows x then some x else none)
unfolding switch
switch-number_of table [] default x unknown told = unknown
switch-number_of table ((n, s) ∷ rows) default x unknown told = elim (Bool-cases (x == n)) [
  | inl e ↦ let eq : x ≡ n = (==_iff x n).0 e in rw (e, eq, switch) told.0
  | inr e ↦ rw (e, switch) (switch-number_of table rows default x unknown told.1)
]

-- A reset reason can be read back from its name when it has one; no other reason shares the name,
-- and the reasons without a name are unknown.
pub p4_reset_reason_name-number_of :
    (r : ℕ)
    → number_of reasons (p4_reset_reason_name r) ≡ (if numbered reasons r then some r else none)
unfolding p4_reset_reason_name
p4_reset_reason_name-number_of r = switch-number_of reasons reasons (codes "unknown") r refl (
  refl,
  (
    refl,
    (
      refl,
      (
        refl,
        (
          refl,
          (
            refl,
            (
              refl,
              (
                refl,
                (refl, (refl, (refl, (refl, (refl, (refl, (refl, (refl, (refl, (refl, tt)))))))))),
              ),
            ),
          ),
        ),
      ),
    ),
  ),
)

-- So can the cause of an exception; bit 31 is an interrupt, which has no number.
pub trap_cause_name-number_of :
    (mcause : ℕ)
    → number_of causes (trap_cause_name mcause) ≡ (
        if mcause / 2 ^ 31 % 2 == 1
        then none
        else if numbered causes mcause
        then some mcause
        else none)
unfolding trap_cause_name
trap_cause_name-number_of mcause =
    let read =
      switch-number_of causes causes (codes "unknown") mcause refl
        (refl, (refl, (refl, (refl, (refl, (refl, (refl, (refl, (refl, tt))))))))) in
    elim (Bool-cases (mcause / 2 ^ 31 % 2 == 1)) [ inl e ↦ rw e refl | inr e ↦ rw e read ]
