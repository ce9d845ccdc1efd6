-- ===== src/Boot/Psram/Lines.antt =====
-- `p4_psram_test` of bootloader/p4/p4_psram.c on a memory whose address lines may be at fault.
use esp32_p4_linux.Common.{
  ℕ, zero, suc, ◌+◌, ◌/◌, ◌≤◌, ◌<◌, ◌≡◌, refl, sym, ap, ◌∙◌, ◌≢◌, true, false, inl, inr, ◌==◌,
  ==_iff, if◌then◌else◌, Bool-cases, ltb, ltb→lt, not-ltb→le, arith,
}
use esp32_p4_linux.Boot.Psram.{Ram, word_at, pattern, fill, check, p4_psram_test}
use esp32_p4_linux.Boot.Psram.Pattern.{pattern-injective, word_at-injective}

-- A memory in which address `a` reaches the cell `line a`. Cells keep what is stored in them.
pub record Decodes {S : Type 0} (ram : Ram S) (cells : S → ℕ → ℕ) (line : ℕ → ℕ) : Type 0 where
  pub load-cells : (a : ℕ) (s : S) → (ram.load a s).0 ≡ cells s (line a)
  pub cells-load : (a c : ℕ) (s : S) → cells (ram.load a s).1 c ≡ cells s c
  pub cells-store :
      (a v c : ℕ) (s : S) → cells (ram.store a v s) c ≡ (if line a == c then v else cells s c)

-- No two of the `n` words share a cell.
abbrev pub Distinct : (ℕ → ℕ) → ℕ → Type 0
Distinct line n = (i j : ℕ) → i < n → j < n → line (word_at i) ≡ line (word_at j) → i ≡ j

module _ {S : Type 0} {ram : Ram S} {cells : S → ℕ → ℕ} {line : ℕ → ℕ}
    (decodes : Decodes ram cells line) where
  -- The cell of the word `j` holds its pattern.
  abbrev Kept : S → ℕ → Type 0
  Kept s j = cells s (line (word_at j)) ≡ pattern (word_at j)

  fill-other :
      (n i c : ℕ) (s : S)
      → ((k : ℕ) → i ≤ k → k < i + n → line (word_at k) ≢ c)
      → cells (fill ram n i s) c ≡ cells s c
  unfolding fill
  fill-other zero i c s apart = refl
  fill-other (suc n) i c s apart =
      let other : (line (word_at i) == c) ≡ false =
        ground (arith, apart i (omega arith) (omega arith)) in
      let rest =
        fill-other n (i + 1) c (ram.store (word_at i) (pattern (word_at i)) s)
          (λ k le lt. apart k (omega arith) (omega arith)) in
      rw (rest, decodes.cells-store (word_at i) (pattern (word_at i)) c s, other) refl

  fill-Kept :
      (n i j : ℕ) (s : S)
      → ((k : ℕ) → i ≤ k → k < i + n → line (word_at k) ≡ line (word_at j) → k ≤ j)
      → i ≤ j
      → j < i + n
      → Kept (fill ram n i s) j
  unfolding fill
  fill-Kept zero i j s alone le lt = absurd (omega arith)
  fill-Kept (suc n) i j s alone le lt =
      let s' = ram.store (word_at i) (pattern (word_at i)) s in
      elim (Bool-cases (i == j)) [
        | inl e ↦
            let same : i ≡ j = (==_iff i j).0 e in
            let rest = fill-other n (i + 1) (line (word_at i)) s' (λ k le' lt' q.
              let le_j =
                alone k (omega arith) (omega arith) (q ∙ ap (λ x. line (word_at x)) same) in
              absurd (omega (arith, le_j, same))) in
            let own : (line (word_at i) == line (word_at i)) ≡ true = ground arith in
            let held : Kept (fill ram (suc n) i s) i =
              rw (rest, decodes.cells-store (word_at i) (pattern (word_at i)) _ s, own) refl in
            rw (sym same) held
        | inr e ↦
            let apart : i ≢ j = λ q. ground (arith, e) in
            fill-Kept n (i + 1) j s' (λ k le' lt'. alone k (omega arith) (omega arith))
              (omega (arith, apart)) (omega arith)
      ]

  Kept-load : (a j : ℕ) (s : S) → Kept s j → Kept (ram.load a s).1 j
  Kept-load a j s kept = decodes.cells-load a _ s ∙ kept

  load-Kept :
      (j : ℕ) (s : S) → Kept s j → ((ram.load (word_at j) s).0 == pattern (word_at j)) ≡ true
  load-Kept j s kept = ground (arith, decodes.load-cells (word_at j) s, kept)

  load-lost :
      (j : ℕ) (s : S)
      → cells s (line (word_at j)) ≢ pattern (word_at j)
      → ((ram.load (word_at j) s).0 == pattern (word_at j)) ≡ false
  load-lost j s lost = rw (decodes.load-cells (word_at j) s) (ground (arith, lost))

  check-grows : (n i bad addr : ℕ) (s : S) → bad ≤ (check ram n i bad addr s).0
  unfolding check
  check-grows zero i bad addr s = omega arith
  check-grows (suc n) i bad addr s =
      let s' = (ram.load (word_at i) s).1 in
      elim (Bool-cases ((ram.load (word_at i) s).0 == pattern (word_at i))) [
        | inl e ↦ rw (e, check) (check-grows n (i + 1) bad addr s')
        | inr e ↦
            let addr' = if bad == 0 then word_at i else addr in
            let rest = check-grows n (i + 1) (suc bad) addr' s' in
            rw (e, check) (omega (arith, rest))
      ]

  check_sound :
      (n i addr : ℕ) (s : S)
      → (check ram n i 0 addr s).0 ≡ 0
      → (j : ℕ) → i ≤ j
      → j < i + n
      → Kept s j
  unfolding check
  check_sound zero i addr s h j le lt = absurd (omega arith)
  check_sound (suc n) i addr s h j le lt =
      let s' = (ram.load (word_at i) s).1 in
      elim (Bool-cases ((ram.load (word_at i) s).0 == pattern (word_at i))) [
        | inl e ↦
            let rest : (check ram n (i + 1) 0 addr s').0 ≡ 0 = (rw (e, check) at h) in
            elim (Bool-cases (i == j)) [
              | inl q ↦
                  let same : i ≡ j = (==_iff i j).0 q in
                  let read = (==_iff _ _).0 e in
                  rw (sym same) (sym (decodes.load-cells (word_at i) s) ∙ read)
              | inr q ↦
                  let apart : i ≢ j = λ p. ground (arith, q) in
                  sym (decodes.cells-load (word_at i) _ s)
                  ∙ check_sound n (i + 1) addr s' rest j (omega (arith, apart)) (omega arith)
            ]
        | inr e ↦
            let rest : (check ram n (i + 1) 1 (word_at i) s').0 ≡ 0 = (rw (e, check) at h) in
            absurd (omega (arith, rest, check-grows n (i + 1) 1 (word_at i) s'))
      ]

  -- Up to the first word that is lost nothing is reported, and later words do not change the report.
  check-reported : (n i bad addr : ℕ) (s : S) → (check ram n i (suc bad) addr s).1 ≡ addr
  unfolding check
  check-reported zero i bad addr s = refl
  check-reported (suc n) i bad addr s =
      let s' = (ram.load (word_at i) s).1 in
      elim (Bool-cases ((ram.load (word_at i) s).0 == pattern (word_at i))) [
        | inl e ↦ rw (e, check) (check-reported n (i + 1) bad addr s')
        | inr e ↦
            let some_bad : (suc bad == 0) ≡ false = ground arith in
            rw (e, some_bad, check) (check-reported n (i + 1) (suc bad) addr s')
      ]

  check-Kept :
      (n i bad addr : ℕ) (s : S)
      → ((j : ℕ) → i ≤ j → j < i + n → Kept s j)
      → (check ram n i bad addr s).0 ≡ bad
  unfolding check
  check-Kept zero i bad addr s all = refl
  check-Kept (suc n) i bad addr s all =
      rw (load-Kept i s (all i (omega arith) (omega arith)), check)
        (check-Kept n (i + 1) bad addr (ram.load (word_at i) s).1
          (λ j le lt. Kept-load (word_at i) j s (all j (omega arith) (omega arith))))

  check-first :
      (n i j addr : ℕ) (s : S)
      → ((k : ℕ) → i ≤ k → k < j → Kept s k)
      → i ≤ j
      → j < i + n
      → cells s (line (word_at j)) ≢ pattern (word_at j)
      → (check ram n i 0 addr s).1 ≡ word_at j
  unfolding check
  check-first zero i j addr s before le lt lost = absurd (omega arith)
  check-first (suc n) i j addr s before le lt lost =
      let s' = (ram.load (word_at i) s).1 in
      elim (Bool-cases (i == j)) [
        | inl e ↦
            let same : i ≡ j = (==_iff i j).0 e in
            let gone = load-lost j s lost in
            rw (same, gone, check)
              (check-reported n (j + 1) 0 (word_at j) (ram.load (word_at j) s).1)
        | inr e ↦
            let apart : i ≢ j = λ p. ground (arith, e) in
            rw (load-Kept i s (before i (omega arith) (omega (arith, apart))), check)
              (check-first n (i + 1) j addr s'
                (λ k le' lt'. Kept-load (word_at i) k s (before k (omega arith) lt'))
                (omega (arith, apart)) (omega arith)
                (λ q. lost (sym (decodes.cells-load (word_at i) _ s) ∙ q)))
      ]

  -- The test passes exactly when no two of the words share a cell.
  pub p4_psram_test-Distinct :
      (bytes : ℕ) (s : S)
      → ((p4_psram_test ram bytes s).0 ≡ true → Distinct line (bytes / 4))
        × (Distinct line (bytes / 4) → (p4_psram_test ram bytes s).0 ≡ true)
  unfolding p4_psram_test
  p4_psram_test-Distinct bytes s =
      let n = bytes / 4 in
      let filled = fill ram n 0 s in
      (
        λ passed i j lt lt' same.
            let none_bad = (==_iff _ 0).0 passed in
            let at_i = check_sound n 0 0 filled none_bad i (omega arith) (omega arith) in
            let at_j = check_sound n 0 0 filled none_bad j (omega arith) (omega arith) in
            word_at-injective i j
              (pattern-injective _ _ (sym at_i ∙ ap (cells filled) same ∙ at_j)),
        λ distinct. (==_iff _ 0).1 (
            check-Kept n 0 0 0 filled (λ j le lt.
              fill-Kept n 0 j s
                (λ k _ lt' same. omega (arith, distinct k j (omega arith) (omega arith) same)) le
                lt)),
      )

  -- The address reported is that of the first word whose cell a later word has taken over.
  pub p4_psram_test-reports :
      (bytes i j : ℕ) (s : S)
      → i < j
      → j < bytes / 4
      → line (word_at i) ≡ line (word_at j)
      → ((k l : ℕ)
          → k < bytes / 4
          → l < bytes / 4
          → line (word_at k) ≡ line (word_at l)
          → k < l
          → i ≤ k)
      → ((k : ℕ) → k < bytes / 4 → line (word_at k) ≡ line (word_at j) → k ≤ j)
      → (p4_psram_test ram bytes s).1 ≡ word_at i
  unfolding p4_psram_test
  p4_psram_test-reports bytes i j s lt lt' shared least last =
      let n = bytes / 4 in
      let filled = fill ram n 0 s in
      let apart : (k l : ℕ) → k < i → l < n → line (word_at l) ≡ line (word_at k) → l ≤ k =
        λ k l lt_k lt_l same. elim (Bool-cases (ltb k l)) [
          | inl e ↦
              let first = least k l (omega arith) lt_l (sym same) (ltb→lt k l e) in
              absurd (omega (arith, first))
          | inr e ↦ not-ltb→le k l e
        ] in
      let before : (k : ℕ) → 0 ≤ k → k < i → Kept filled k = λ k le lt_k.
        fill-Kept n 0 k s (λ l _ lt_l same. apart k l lt_k (omega arith) same) le (omega arith) in
      let at_j : Kept filled j =
        fill-Kept n 0 j s (λ k _ lt_k same. last k (omega arith) same) (omega arith)
          (omega arith) in
      check-first n 0 i 0 filled before (omega arith) (omega arith) (λ held.
        let same =
          word_at-injective i j
            (pattern-injective _ _ (sym held ∙ ap (cells filled) shared ∙ at_j)) in
        absurd (omega (arith, same)))
